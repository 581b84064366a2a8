-- ===== src/Policy/Conditions.antt =====
-- What an authorised tool intent is, by what must hold of it, and the tests of the engine
-- (packages/policy-engine/src/changeops_policy_engine/engine.py) that decide each part.
use enterprise_change_ops.Base.{
  ◌<◌, ◌≤◌, String, string_eq, nat_eq, option_eq, Bool, true, false, not, ◌&&◌, ◌≡◌, ◌≢◌, ◌↔◌, ◌⊎◌,
  refl, Option, none, some, List, [], ◌∷◌, ◌++◌, contains, arith, optional_text_iff,
}
use enterprise_change_ops.Contracts.Json.{fields_eqb}
use enterprise_change_ops.Contracts.Enums.{
  critical, risk_eq, environment_eq, executing, state_eq, effect_eq, ApprovalDecision, decision_eq,
  approver, platform_admin, role_eq,
}
use enterprise_change_ops.Contracts.Models.{RemediationStep, ToolIntent, Approval}
use enterprise_change_ops.Contracts.Canonical.{Codec, calculate_plan_hash}
use enterprise_change_ops.Policy.Models.{agent, kind_eq, ToolRegistration}
use enterprise_change_ops.Policy.Engine.{
  Patterns, Inputs, step_failures, identity_failures, change_failures, plan_failures, tool_failures,
  approval_valid, computed_risk, check,
}

-- The caller is an unexpired agent, and the intent is its own.
pub record IsCaller (x : Inputs) : Type 0 where
  pub unexpired : x.evaluated_at < x.identity.expires_at
  pub kind : x.identity.kind ≡ agent
  pub subject : x.identity.subject ≡ x.intent.agent_identity
  pub tenant : x.identity.tenant_id ≡ x.intent.tenant_id

-- The change is the intent's, and it is being executed under the intent's plan.
pub record IsCurrent (x : Inputs) : Type 0 where
  pub tenant : x.change.tenant_id ≡ x.intent.tenant_id
  pub change : x.change.change_id ≡ x.intent.change_id
  pub workflow : x.change.workflow_execution_id ≡ some x.intent.workflow_execution_id
  pub status : x.change.status ≡ executing
  pub version : x.change.plan_version ≡ x.plan.version
  pub hash : x.change.plan_hash ≡ some x.intent.plan_hash

-- The intent is the plan's step, to the letter.
pub record IsStep (intent : ToolIntent) (tool : ToolRegistration) (step : RemediationStep)
    : Type 0 where
  pub agent_id : step.agent_id ≡ intent.agent_identity
  pub tool_name : step.tool_name ≡ intent.tool_name
  pub registered : step.tool_name ≡ tool.tool_name
  pub resource : step.resource ≡ intent.resource
  pub arguments : fields_eqb step.arguments intent.arguments ≡ true
  pub idempotency_key : step.idempotency_key ≡ intent.idempotency_key

pub check-nil : (b : Bool) (m : String) → (check b m ≡ []) ↔ (b ≡ false)
check-nil b m = (λ h. ground arith, λ h. ground arith)

pub both : {xs ys : List String} → xs ≡ [] → ys ≡ [] → xs ++ ys ≡ []
both {xs} {ys} h k = rw (h, k)

pub append-nil_iff : (xs ys : List String) → (xs ++ ys ≡ []) ↔ ((xs ≡ []) × (ys ≡ []))
append-nil_iff [] ys = (λ h. (refl, h), λ h. h.1)
append-nil_iff (x ∷ xs) ys = (λ h. cc, λ h. cc h.0)

pub IsCaller-failures : (x : Inputs) → IsCaller x → identity_failures x ≡ []
IsCaller-failures x h = ground (
  arith,
  kind_eq.same_iff x.identity.kind agent,
  string_eq.same_iff x.identity.subject x.intent.agent_identity,
  string_eq.same_iff x.identity.tenant_id x.intent.tenant_id,
)

pub and_not : (r v : Bool) → (r && not v) ≡ false → r ≡ true → v ≡ true
and_not r v h e = ground arith

pub not_missing : (r v : Bool) → (r ≡ true → v ≡ true) → (r && not v) ≡ false
not_missing true v h = ground (arith, h refl)
not_missing false v h = refl

pub identity_failures-nil : (x : Inputs) → identity_failures x ≡ [] → IsCaller x
identity_failures-nil x h = ground (
  arith,
  kind_eq.same_iff x.identity.kind agent,
  string_eq.same_iff x.identity.subject x.intent.agent_identity,
  string_eq.same_iff x.identity.tenant_id x.intent.tenant_id,
)

pub IsCurrent-failures : (x : Inputs) → IsCurrent x → change_failures x ≡ []
IsCurrent-failures x h = ground (
  arith,
  string_eq.same_iff x.change.tenant_id x.intent.tenant_id,
  string_eq.same_iff x.change.change_id x.intent.change_id,
  optional_text_iff x.change.workflow_execution_id (some x.intent.workflow_execution_id),
  optional_text_iff x.change.plan_hash (some x.intent.plan_hash),
  state_eq.same_iff x.change.status executing,
)

pub change_failures-nil : (x : Inputs) → change_failures x ≡ [] → IsCurrent x
change_failures-nil x h = ground (
  arith,
  string_eq.same_iff x.change.tenant_id x.intent.tenant_id,
  string_eq.same_iff x.change.change_id x.intent.change_id,
  optional_text_iff x.change.workflow_execution_id (some x.intent.workflow_execution_id),
  optional_text_iff x.change.plan_hash (some x.intent.plan_hash),
  state_eq.same_iff x.change.status executing,
)

pub IsStep-failures :
    (step : RemediationStep) (intent : ToolIntent) (tool : ToolRegistration)
    → IsStep intent tool step
    → step_failures (some step) intent tool ≡ []
IsStep-failures step intent tool h = ground (
  arith,
  string_eq.same_iff step.agent_id intent.agent_identity,
  string_eq.same_iff step.tool_name intent.tool_name,
  string_eq.same_iff step.tool_name tool.tool_name,
  string_eq.same_iff step.resource intent.resource,
  string_eq.same_iff step.idempotency_key intent.idempotency_key,
)

pub step_failures-nil :
    (o : Option RemediationStep) (intent : ToolIntent) (tool : ToolRegistration)
    → step_failures o intent tool ≡ []
    → (step : RemediationStep) × (o ≡ some step) × IsStep intent tool step
step_failures-nil none intent tool h = cc
step_failures-nil (some step) intent tool h = (
  step,
  refl,
  ground (
    arith,
    string_eq.same_iff step.agent_id intent.agent_identity,
    string_eq.same_iff step.tool_name intent.tool_name,
    string_eq.same_iff step.tool_name tool.tool_name,
    string_eq.same_iff step.resource intent.resource,
    string_eq.same_iff step.idempotency_key intent.idempotency_key,
  ),
)

-- The intent stays within the tool's registration.
pub record IsInScope (codec : Codec) (patterns : Patterns) (x : Inputs) : Type 0 where
  pub plan_tenant : x.plan.tenant_id ≡ x.intent.tenant_id
  pub plan_change : x.plan.change_id ≡ x.intent.change_id
  pub plan_id : x.plan.plan_id ≡ x.intent.plan_id
  pub plan_hash : calculate_plan_hash codec x.plan ≡ x.intent.plan_hash
  pub owner : x.tool.owning_agent_id ≡ x.intent.agent_identity
  pub action : x.tool.action ≡ x.intent.action
  pub resource :
      patterns.fnmatchcase x.intent.resource
        (patterns.format_tenant x.tool.resource_pattern x.intent.tenant_id)
      ≡ true
  pub environment : contains x.tool.allowed_environments x.change.environment ≡ true
  pub risk : computed_risk codec patterns x ≢ critical

-- An approval of the exact plan, for the step, by somebody else, in its time.
pub record IsApproval (codec : Codec) (x : Inputs) (a : Approval) : Type 0 where
  pub decision : a.decision ≡ ApprovalDecision.approved
  pub tenant : a.tenant_id ≡ x.intent.tenant_id
  pub change : a.change_id ≡ x.intent.change_id
  pub plan_id : a.plan_id ≡ x.plan.plan_id
  pub plan_hash : a.plan_hash ≡ calculate_plan_hash codec x.plan
  pub plan_version : a.plan_version ≡ x.plan.version
  pub change_version : x.plan.version ≡ x.change.plan_version
  pub environment : a.environment ≡ x.change.environment
  pub scope : contains a.scope x.intent.step_id ≡ true
  pub unexpired : x.evaluated_at < a.expires_at
  pub begun : a.approved_at ≤ x.evaluated_at
  pub role :
      (contains a.approved_by_roles approver ≡ true)
      ⊎ (contains a.approved_by_roles platform_admin ≡ true)
  pub separate : a.approved_by ≢ x.intent.agent_identity

module _ (codec : Codec) (patterns : Patterns) where
  pub scope_failures-nil :
      (x : Inputs)
      → plan_failures codec patterns x ≡ []
      → tool_failures codec patterns x ≡ []
      → IsInScope codec patterns x
  scope_failures-nil x p t = ground (
    arith,
    string_eq.same_iff x.plan.tenant_id x.intent.tenant_id,
    string_eq.same_iff x.plan.change_id x.intent.change_id,
    string_eq.same_iff x.plan.plan_id x.intent.plan_id,
    string_eq.same_iff (calculate_plan_hash codec x.plan) x.intent.plan_hash,
    string_eq.same_iff x.tool.owning_agent_id x.intent.agent_identity,
    string_eq.same_iff x.tool.action x.intent.action,
    risk_eq.same_iff (computed_risk codec patterns x) critical,
  )

  -- The approval test holds just of an approval of the exact plan.
  pub approval_valid_sound :
      (x : Inputs) (a : Approval)
      → approval_valid codec patterns (some a) x ≡ true
      → IsApproval codec x a
  unfolding approval_valid
  approval_valid_sound x a h = ground (
    arith,
    decision_eq.same_iff a.decision ApprovalDecision.approved,
    string_eq.same_iff a.tenant_id x.intent.tenant_id,
    string_eq.same_iff a.change_id x.intent.change_id,
    string_eq.same_iff a.plan_id x.intent.plan_id,
    string_eq.same_iff x.intent.plan_id x.plan.plan_id,
    string_eq.same_iff a.plan_hash x.intent.plan_hash,
    string_eq.same_iff x.intent.plan_hash (calculate_plan_hash codec x.plan),
    environment_eq.same_iff a.environment x.change.environment,
    string_eq.same_iff a.approved_by x.intent.agent_identity,
  )

  pub IsInScope-failures :
      (x : Inputs)
      → IsInScope codec patterns x
      → (plan_failures codec patterns x ≡ []) × (tool_failures codec patterns x ≡ [])
  IsInScope-failures x h = ground (
    arith,
    string_eq.same_iff x.plan.tenant_id x.intent.tenant_id,
    string_eq.same_iff x.plan.change_id x.intent.change_id,
    string_eq.same_iff x.plan.plan_id x.intent.plan_id,
    string_eq.same_iff (calculate_plan_hash codec x.plan) x.intent.plan_hash,
    string_eq.same_iff x.tool.owning_agent_id x.intent.agent_identity,
    string_eq.same_iff x.tool.action x.intent.action,
    risk_eq.same_iff (computed_risk codec patterns x) critical,
  )

  -- An approval of the exact plan passes the test, where the intent is for that plan.
  pub approval_valid_complete :
      (x : Inputs) (a : Approval)
      → IsApproval codec x a
      → x.plan.plan_id ≡ x.intent.plan_id
      → calculate_plan_hash codec x.plan ≡ x.intent.plan_hash
      → approval_valid codec patterns (some a) x ≡ true
  unfolding approval_valid
  approval_valid_complete x a h p q = ground (
    arith,
    decision_eq.same_iff a.decision ApprovalDecision.approved,
    string_eq.same_iff a.tenant_id x.intent.tenant_id,
    string_eq.same_iff a.change_id x.intent.change_id,
    string_eq.same_iff a.plan_id x.intent.plan_id,
    string_eq.same_iff x.intent.plan_id x.plan.plan_id,
    string_eq.same_iff a.plan_hash x.intent.plan_hash,
    string_eq.same_iff x.intent.plan_hash (calculate_plan_hash codec x.plan),
    environment_eq.same_iff a.environment x.change.environment,
    string_eq.same_iff a.approved_by x.intent.agent_identity,
  )
