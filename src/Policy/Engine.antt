-- ===== src/Policy/Engine.antt =====
-- `PolicyEngine` of packages/policy-engine/src/changeops_policy_engine/engine.py. `fnmatchcase` and
-- `str.format` are other code, so they are fields of `Patterns`; the time and the identifier of the
-- decision are arguments.
use enterprise_change_ops.Base.{
  ℕ, String, string_eq, nat_eq, option_eq, Bool, false, not, ◌&&◌, ◌||◌, ltb, leb, ◌==◌, ◌/=◌,
  if◌then◌else◌, Option, none, some, List, [], ◌∷◌, ◌++◌, contains, any, find,
}
use enterprise_change_ops.Contracts.Json.{fields_eqb}
use enterprise_change_ops.Contracts.Enums.{
  RiskLevel, unknown, low, medium, high, critical, risk_eq, environment_eq, executing, state_eq,
  PolicyEffect, allow, deny, require_approval, block_security, effect_eq, ApprovalDecision,
  decision_eq, approver, platform_admin, role_eq,
}
use enterprise_change_ops.Contracts.Models.{
  Timestamp, ChangeRecord, RemediationStep, RemediationPlan, ToolIntent, PolicyDecision, Approval,
}
use enterprise_change_ops.Contracts.Canonical.{Codec, calculate_plan_hash}
use enterprise_change_ops.Policy.Models.{agent, kind_eq, VerifiedIdentity, ToolRegistration}

pub record Patterns : Type 0 where
  pub fnmatchcase : String → String → Bool
  -- `pattern.format(tenant_id=...)`
  pub format_tenant : String → String → String

abbrev pub risk_order : RiskLevel → ℕ
risk_order unknown = 0
risk_order low = 1
risk_order medium = 2
risk_order high = 3
risk_order critical = 4

-- `max((a, b), key=_RISK_ORDER.__getitem__)`: the first one of equals
abbrev pub max_risk : RiskLevel → RiskLevel → RiskLevel
max_risk a b = if ltb (risk_order a) (risk_order b) then b else a

-- `if test: failures.append(message)`
abbrev pub check : Bool → String → List String
check test message = if test then message ∷ [] else []

-- All that a call of `evaluate` reads.
pub record Inputs : Type 0 where
  pub identity : VerifiedIdentity
  pub intent : ToolIntent
  pub change : ChangeRecord
  pub plan : RemediationPlan
  pub tool : ToolRegistration
  pub approval : Option Approval
  pub evaluated_at : Timestamp

abbrev pub selected_step : Inputs → Option RemediationStep
selected_step x = find (λ step. step.step_id == x.intent.step_id) x.plan.steps

abbrev pub step_risk : Option RemediationStep → RiskLevel
step_risk none = unknown
step_risk (some step) = step.risk_level

abbrev pub step_approval : Option RemediationStep → ToolRegistration → Bool
step_approval none tool = tool.mutating
step_approval (some step) tool = step.requires_approval || tool.mutating

abbrev pub step_failures : Option RemediationStep → ToolIntent → ToolRegistration → List String
step_failures none intent tool = "Intent step is not present in the approved plan." ∷ []
step_failures (some step) intent tool =
    check (step.agent_id /= intent.agent_identity)
      "Intent agent does not own the selected plan step."
    ++ (check (step.tool_name /= intent.tool_name || step.tool_name /= tool.tool_name)
          "Intent tool does not match the selected plan step."
        ++ (check (step.resource /= intent.resource)
              "Intent resource does not match the selected plan step."
            ++ (check (not (fields_eqb step.arguments intent.arguments))
                  "Intent arguments do not match the selected plan step."
                ++ check (step.idempotency_key /= intent.idempotency_key)
                    "Intent idempotency key does not match the selected plan step.")))

abbrev pub identity_failures : Inputs → List String
identity_failures x =
    check (leb x.identity.expires_at x.evaluated_at) "Authenticated identity is expired."
    ++ (check (x.identity.kind /= agent) "Only an authenticated agent may submit a tool intent."
        ++ (check (x.identity.subject /= x.intent.agent_identity)
              "Intent identity does not match the authenticated caller."
            ++ check (x.identity.tenant_id /= x.intent.tenant_id)
                "Intent tenant does not match the authenticated caller."))

abbrev pub change_failures : Inputs → List String
change_failures x =
    check (x.change.tenant_id /= x.intent.tenant_id || x.change.change_id /= x.intent.change_id)
      "Intent does not match the authoritative change scope."
    ++ (check (x.change.workflow_execution_id /= some x.intent.workflow_execution_id)
          "Intent does not match the active workflow execution."
        ++ (check (x.change.status /= executing) "Workflow state does not permit tool execution."
            ++ check
                (x.change.plan_version /= x.plan.version
                  || x.change.plan_hash /= some x.intent.plan_hash)
                "Intent does not match the authoritative change plan."))

abbrev pub effect_if : Bool → PolicyEffect → PolicyEffect → PolicyEffect
effect_if test new old = if test then new else old

module _ (codec : Codec) (patterns : Patterns) where
  abbrev pub plan_failures : Inputs → List String
  plan_failures x =
      check (x.plan.tenant_id /= x.intent.tenant_id || x.plan.change_id /= x.intent.change_id)
        "Plan does not match the intent scope."
      ++ check
          (x.plan.plan_id /= x.intent.plan_id
            || calculate_plan_hash codec x.plan /= x.intent.plan_hash)
          "Plan identifier or canonical hash does not match the intent."

  abbrev pub outside_environment : Inputs → Bool
  outside_environment x = not (contains x.tool.allowed_environments x.change.environment)

  abbrev pub computed_risk : Inputs → RiskLevel
  computed_risk x = max_risk x.tool.risk_level (step_risk (selected_step x))

  abbrev pub tool_failures : Inputs → List String
  tool_failures x =
      check (x.tool.owning_agent_id /= x.intent.agent_identity)
        "Agent is not authorized for this registered tool."
      ++ (check (x.tool.action /= x.intent.action)
            "Intent action does not match the registered tool action."
          ++ (check
                (not (
                  patterns.fnmatchcase x.intent.resource
                    (patterns.format_tenant x.tool.resource_pattern x.intent.tenant_id)))
                "Intent resource is outside the registered agent scope."
              ++ (check (outside_environment x)
                    "Tool is not allowed in the authoritative change environment."
                  ++ check (computed_risk x == critical)
                      "Critical-risk mutations are disabled in this build.")))

  unfoldable pub approval_valid : Option Approval → Inputs → Bool
  approval_valid none x = false
  approval_valid (some a) x =
      a.decision == ApprovalDecision.approved
      && (a.tenant_id == x.intent.tenant_id
          && (a.change_id == x.intent.change_id
              && ((a.plan_id == x.intent.plan_id && x.intent.plan_id == x.plan.plan_id)
                  && ((a.plan_hash == x.intent.plan_hash
                        && x.intent.plan_hash == calculate_plan_hash codec x.plan)
                      && ((a.plan_version == x.plan.version
                            && x.plan.version == x.change.plan_version)
                          && (a.environment == x.change.environment
                              && (contains a.scope x.intent.step_id
                                  && (ltb x.evaluated_at a.expires_at
                                      && (leb a.approved_at x.evaluated_at
                                          && (any (λ r. contains a.approved_by_roles r)
                                                (approver ∷ platform_admin ∷ [])
                                              && (a.approved_by
                                                  /= x.intent.agent_identity)))))))))))

  abbrev pub approval_required : Inputs → Bool
  approval_required x = step_approval (selected_step x) x.tool

  abbrev pub approval_missing : Inputs → Bool
  approval_missing x = approval_required x && not (approval_valid x.approval x)

  -- `failures`, in the order in which they are appended.
  unfoldable pub failures : Inputs → List String
  failures x =
      identity_failures x
      ++ (change_failures x
          ++ (plan_failures x
              ++ (step_failures (selected_step x) x.intent x.tool
                  ++ (tool_failures x
                      ++ check (approval_missing x)
                          "A current exact-plan approval is required for this step."))))

  -- `effect` before the final test, as the assignments change it.
  unfoldable pub refusal : Inputs → PolicyEffect
  refusal x =
      let in_environment =
        effect_if (outside_environment x && x.tool.mutating) block_security deny in
      let in_risk = effect_if (computed_risk x == critical) block_security in_environment in
      effect_if (approval_missing x && in_risk /= block_security) require_approval in_risk

  abbrev pub chosen : List String → PolicyEffect → PolicyEffect × List String
  chosen [] refused = (
    allow,
    "Authenticated agent, tenant, tool, resource, workflow, and plan scope match."
        ∷ "Exact-plan approval is current and covers the selected step." ∷ [],
  )
  chosen (f ∷ fs) refused = (refused, f ∷ fs)

  unfoldable pub evaluate : Inputs → String → PolicyDecision
  evaluate x decision_id =
      let (effect, reasons) = chosen (failures x) (refusal x) in
      record {
        decision_id = decision_id;
        tenant_id = x.intent.tenant_id;
        intent_id = x.intent.intent_id;
        effect = effect;
        computed_risk = computed_risk x;
        approval_required = approval_required x;
        approval_valid = approval_valid x.approval x;
        matched_policy_ids = x.tool.policy_ids;
        reasons = reasons;
        evaluated_at = x.evaluated_at;
      }
