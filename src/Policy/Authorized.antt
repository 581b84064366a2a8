-- ===== src/Policy/Authorized.antt =====
-- When a tool intent is allowed: an account of authorisation by what must hold, and the proof that
-- the engine (packages/policy-engine/src/changeops_policy_engine/engine.py) allows just the authorised intents.
use enterprise_change_ops.Base.{
  String, string_eq, nat_eq, option_eq, true, false, ◌≡◌, ◌≢◌, ◌↔◌, refl, sym, subst, Option, none,
  some, List, [], ◌∷◌, arith, Option-cases, inl, inr,
}
use enterprise_change_ops.Contracts.Enums.{
  risk_eq, environment_eq, state_eq, PolicyEffect, allow, effect_eq, decision_eq, role_eq,
}
use enterprise_change_ops.Contracts.Models.{RemediationStep, Approval}
use enterprise_change_ops.Contracts.Canonical.{Codec}
use enterprise_change_ops.Policy.Models.{kind_eq}
use enterprise_change_ops.Policy.Engine.{
  Patterns, Inputs, selected_step, step_failures, identity_failures, change_failures, plan_failures,
  tool_failures, approval_required, approval_valid, approval_missing, failures, refusal, evaluate,
  chosen,
}
use enterprise_change_ops.Policy.Conditions.{
  IsCaller, IsCurrent, IsStep, IsInScope, IsApproval, check-nil, both, append-nil_iff, and_not,
  not_missing, IsCaller-failures, identity_failures-nil, IsCurrent-failures, change_failures-nil,
  IsStep-failures, step_failures-nil, scope_failures-nil, IsInScope-failures, approval_valid_sound,
  approval_valid_complete,
}

module _ (codec : Codec) (patterns : Patterns) where
  approval_missing-false :
      (x : Inputs)
      → approval_missing codec patterns x ≡ false
      → approval_required codec patterns x ≡ true
      → (a : Approval) × (x.approval ≡ some a) × IsApproval codec x a
  unfolding approval_valid
  approval_missing-false x m r = elim (Option-cases x.approval) [
    | inl absent ↦ absurd (
        none_valid (
          subst (λ (o : Option Approval). approval_valid codec patterns o x ≡ true) absent
            (and_not _ _ m r)))
    | inr (a, e) ↦ (
      a,
      e,
      approval_valid_sound codec patterns x a (
          subst (λ (o : Option Approval). approval_valid codec patterns o x ≡ true) e
            (and_not _ _ m r)),
    )
  ]
    where
      none_valid : approval_valid codec patterns none x ≡ true → ⊥
      none_valid h = cc

-- What an allowed intent needs, in full.
pub record IsAuthorized (codec : Codec) (patterns : Patterns) (x : Inputs) : Type 0 where
  pub caller : IsCaller x
  pub current : IsCurrent x
  pub step : (step : RemediationStep) × (selected_step x ≡ some step) × IsStep x.intent x.tool step
  pub in_scope : IsInScope codec patterns x
  pub approved :
      approval_required codec patterns x ≡ true
      → (a : Approval) × (x.approval ≡ some a) × IsApproval codec x a

module _ (codec : Codec) (patterns : Patterns) where
  pub failures-nil : (x : Inputs) → failures codec patterns x ≡ [] → IsAuthorized codec patterns x
  unfolding failures
  failures-nil x h =
      let (a, h₁) = (append-nil_iff (identity_failures x) _).0 h in
      let (b, h₂) = (append-nil_iff (change_failures x) _).0 h₁ in
      let (c, h₃) = (append-nil_iff (plan_failures codec patterns x) _).0 h₂ in
      let (d, h₄) = (append-nil_iff (step_failures (selected_step x) x.intent x.tool) _).0 h₃ in
      let (e, f) = (append-nil_iff (tool_failures codec patterns x) _).0 h₄ in
      record {
        caller = identity_failures-nil x a;
        current = change_failures-nil x b;
        step = step_failures-nil (selected_step x) x.intent x.tool d;
        in_scope = scope_failures-nil codec patterns x c e;
        approved = approval_missing-false codec patterns x ((check-nil _ _).0 f);
      }

  pub approval-given :
      (x : Inputs)
      → IsAuthorized codec patterns x
      → approval_required codec patterns x ≡ true
      → approval_valid codec patterns x.approval x ≡ true
  approval-given x h r =
      let (a, e, is_approval) = h.approved r in
      subst (λ (o : Option Approval). approval_valid codec patterns o x ≡ true) (sym e)
        (approval_valid_complete codec patterns x a is_approval h.in_scope.plan_id
          h.in_scope.plan_hash)

  IsAuthorized-failures :
      (x : Inputs) → IsAuthorized codec patterns x → failures codec patterns x ≡ []
  unfolding failures
  IsAuthorized-failures x h =
      let (p, t) = IsInScope-failures codec patterns x h.in_scope in
      let (step, e, is_step) = h.step in
      let fits =
        subst (λ (o : Option RemediationStep). step_failures o x.intent x.tool ≡ []) (sym e)
          (IsStep-failures step x.intent x.tool is_step) in
      both (IsCaller-failures x h.caller) (
        both (IsCurrent-failures x h.current)
          (both p (both fits (both t ((check-nil _ _).1 (not_missing _ _ (approval-given x h)))))))

  refusal-ne-allow : (x : Inputs) → refusal codec patterns x ≢ allow
  unfolding refusal
  refusal-ne-allow x h = ground arith

  chosen-allow :
      (fs : List String) (refused : PolicyEffect)
      → refused ≢ allow
      → (chosen codec patterns fs refused).0 ≡ allow
      → fs ≡ []
  chosen-allow [] refused n h = refl
  chosen-allow (f ∷ fs) refused n h = absurd (n h)

  -- The engine answers ALLOW just if the intent is authorised: the caller is an unexpired agent with
  -- the intent's identity and tenant; the change is the intent's, is executing, and has the plan's
  -- version and hash; the intent is a step of the plan to the letter; plan, tool, resource,
  -- environment and risk are in scope; and a required approval is current and covers the step.
  pub evaluate-allow_iff :
      (x : Inputs) (decision_id : String)
      → ((evaluate codec patterns x decision_id).effect ≡ allow) ↔ IsAuthorized codec patterns x
  unfolding evaluate
  evaluate-allow_iff x decision_id = (
    λ h. failures-nil x (
        chosen-allow (failures codec patterns x) (refusal codec patterns x) (refusal-ne-allow x) h),
    λ h. rw (IsAuthorized-failures x h),
  )
