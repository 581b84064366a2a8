-- ===== src/Policy/Effects.antt =====
-- Which effect the policy engine (packages/policy-engine/src/changeops_policy_engine/engine.py)
-- answers where it does not allow, and what an allowed mutation rests on.
use enterprise_change_ops.Base.{
  String, string_eq, Bool, true, false, ◌&&◌, ◌||◌, ◌≡◌, ◌≢◌, ◌⊎◌, inl, inr, refl, ◌∙◌, Option,
  none, some, List, [], ◌∷◌, arith, ◌==◌,
}
use enterprise_change_ops.Contracts.Enums.{
  critical, risk_eq, effect_eq, PolicyEffect, allow, deny, require_approval, block_security,
}
use enterprise_change_ops.Contracts.Models.{Approval}
use enterprise_change_ops.Contracts.Canonical.{Codec}
use enterprise_change_ops.Policy.Models.{ToolRegistration}
use enterprise_change_ops.Contracts.Models.{RemediationStep}
use enterprise_change_ops.Policy.Engine.{
  Patterns, Inputs, selected_step, step_approval, approval_missing, outside_environment,
  computed_risk, failures, refusal, evaluate, chosen,
}
use enterprise_change_ops.Policy.Conditions.{IsApproval, not_missing}
use enterprise_change_ops.Policy.Authorized.{failures-nil, evaluate-allow_iff, approval-given}

step_approval-mutating :
    (o : Option RemediationStep) (tool : ToolRegistration)
    → tool.mutating ≡ true
    → step_approval o tool ≡ true
step_approval-mutating none tool h = h
step_approval-mutating (some step) tool h = ground arith

module _ (codec : Codec) (patterns : Patterns) (x : Inputs) (decision_id : String) where
  -- A mutating tool is allowed only under a current approval of the exact plan, which covers the
  -- step and was given by somebody other than the agent, with an approving role.
  pub allowed_mutation-IsApproval :
      (evaluate codec patterns x decision_id).effect ≡ allow
      → x.tool.mutating ≡ true
      → (a : Approval) × (x.approval ≡ some a) × IsApproval codec x a
  allowed_mutation-IsApproval h m =
      ((evaluate-allow_iff codec patterns x decision_id).0 h).approved
        (step_approval-mutating (selected_step x) x.tool m)

  -- The intent is a security matter: a critical risk, or a mutation outside of its environments.
  abbrev pub is_blocked : Bool
  is_blocked =
      computed_risk codec patterns x == critical
      || (outside_environment codec patterns x && x.tool.mutating)

  blocked-failures : is_blocked ≡ true → failures codec patterns x ≢ []
  blocked-failures b none_failed =
      let a = failures-nil codec patterns x none_failed in
      ground (
        arith,
        a.in_scope.risk,
        a.in_scope.environment,
        risk_eq.same_iff (computed_risk codec patterns x) critical,
      )

  missing-failures : approval_missing codec patterns x ≡ true → failures codec patterns x ≢ []
  missing-failures m none_failed = cc (
    m,
    not_missing _ _ (approval-given codec patterns x (failures-nil codec patterns x none_failed)),
  )

  refused_effect :
      (fs : List String) (refused : PolicyEffect)
      → fs ≢ []
      → (chosen codec patterns fs refused).0 ≡ refused
  refused_effect [] refused n = absurd (n refl)
  refused_effect (f ∷ fs) refused n = refl

  refusal-blocked : is_blocked ≡ true → refusal codec patterns x ≡ block_security
  unfolding refusal
  refusal-blocked b = ground arith

  refusal-missing :
      is_blocked ≡ false
      → approval_missing codec patterns x ≡ true
      → refusal codec patterns x ≡ require_approval
  unfolding refusal
  refusal-missing b m = ground arith

  refusal-other :
      is_blocked ≡ false
      → approval_missing codec patterns x ≡ false
      → refusal codec patterns x ≡ deny
  unfolding refusal
  refusal-other b m = ground arith

  chosen-cases :
      (fs : List String) (refused : PolicyEffect)
      → ((chosen codec patterns fs refused).0 ≡ allow)
        ⊎ ((chosen codec patterns fs refused).0 ≡ refused)
  chosen-cases [] refused = inl refl
  chosen-cases (f ∷ fs) refused = inr refl

  -- What the engine answers, by whether the intent is blocked and whether it lacks an approval.
  abbrev pub IsAnswer : (blocked missing : Bool) → PolicyEffect → Type 0
  IsAnswer true missing e = e ≡ block_security
  IsAnswer false true e = e ≡ require_approval
  IsAnswer false false e = (e ≡ allow) ⊎ (e ≡ deny)

  answered :
      (blocked missing : Bool)
      → is_blocked ≡ blocked
      → approval_missing codec patterns x ≡ missing
      → IsAnswer blocked missing (evaluate codec patterns x decision_id).effect
  unfolding evaluate
  answered true missing b m = refused_effect _ _ (blocked-failures b) ∙ refusal-blocked b
  answered false true b m = refused_effect _ _ (missing-failures m) ∙ refusal-missing b m
  answered false false b m = rw (← refusal-other b m) (chosen-cases (failures codec patterns x) _)

  -- An intent with a critical risk, or a mutation outside of its tool's environments, is answered
  -- BLOCK_SECURITY, whatever else holds of it. One that is not blocked and lacks a required
  -- approval is answered REQUIRE_APPROVAL, also where other tests fail. Any other intent is
  -- allowed or denied.
  pub evaluate-effect :
      IsAnswer is_blocked
        (approval_missing codec patterns x)
        (evaluate codec patterns x decision_id).effect
  evaluate-effect = answered _ _ refl refl
