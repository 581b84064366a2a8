-- ===== src/Policy/Examples.antt =====
-- The theorems on the policy engine at a concrete intent of the CRM agent.
use enterprise_change_ops.Base.{string_eq, true, false, ◌≡◌, refl, Option, none, some, [], ◌∷◌}
use enterprise_change_ops.Contracts.Json.{str, field, end, fields_eqb, json_eqb}
use enterprise_change_ops.Contracts.Enums.{
  high, sandbox, executing, approver, allow, ApprovalDecision, WorkflowState-discrete,
  RiskLevel-discrete, ChangeEnvironment-discrete, ApprovalDecision-discrete, UserRole-discrete,
}
use enterprise_change_ops.Contracts.Models.{Approval, ToolIntent}
use enterprise_change_ops.Contracts.Canonical.{calculate_plan_hash, sha256_digest, canonical_json}
use enterprise_change_ops.Contracts.Samples.{sample_codec, sample_change, sample_plan}
use enterprise_change_ops.Policy.Models.{agent, IdentityKind-discrete, ToolRegistration}
use enterprise_change_ops.Policy.Engine.{
  Patterns, Inputs, evaluate, failures, refusal, approval_valid,
}
use enterprise_change_ops.Policy.Conditions.{IsApproval}
use enterprise_change_ops.Policy.Authorized.{IsAuthorized, evaluate-allow_iff}
use enterprise_change_ops.Policy.Effects.{IsAnswer, evaluate-effect, allowed_mutation-IsApproval}

abbrev every_resource : Patterns
every_resource = record { fnmatchcase = λ s p. true; format_tenant = λ p t. p }

abbrev intent : ToolIntent
intent = record {
  schema_version = "1.0";
  intent_id = "intent-1";
  tenant_id = "acme";
  change_id = "chg-1";
  workflow_execution_id = "wf-1";
  plan_id = "plan-1";
  plan_hash = "sha256:plan-1";
  step_id = "s1";
  agent_identity = "crm";
  tool_name = "crm.update_field_mapping";
  action = "update";
  resource = "crm://tenant/acme/configuration/customer";
  arguments = field "old_field" (str "customer_id") (field "new_field" (str "customer_uuid") end);
  reason = "plan step";
  evidence_refs = "doc-1" ∷ [];
  idempotency_key = "key-1";
  requested_at = 40;
}

abbrev tool : ToolRegistration
tool = record {
  tool_name = "crm.update_field_mapping";
  owning_agent_id = "crm";
  action = "update";
  resource_pattern = "crm://tenant/{tenant_id}/configuration/*";
  risk_level = high;
  mutating = true;
  allowed_environments = sandbox ∷ [];
  policy_ids = "crm-sandbox-write-v1" ∷ [];
  timeout_seconds = 10_000_000;
}

abbrev given : Approval
given = record {
  approval_id = "approval-1";
  tenant_id = "acme";
  change_id = "chg-1";
  plan_id = "plan-1";
  plan_hash = "sha256:plan-1";
  plan_version = 1;
  environment = sandbox;
  decision = ApprovalDecision.approved;
  scope = "s1" ∷ "s2" ∷ "s3" ∷ [];
  approved_by = "ada";
  approved_by_roles = approver ∷ [];
  approved_at = 30;
  expires_at = 90;
  comment = "go";
}

abbrev inputs : Option Approval → Inputs
inputs approval = record {
  identity = record {
    subject = "crm";
    tenant_id = "acme";
    kind = agent;
    roles = [];
    audience = "tool-gateway";
    issued_at = 5;
    expires_at = 500;
  };
  intent = intent;
  change = sample_change executing 4;
  plan = sample_plan;
  tool = tool;
  approval = approval;
  evaluated_at = 41;
}

evaluate_allows :
    (evaluate sample_codec every_resource (inputs (some given)) "decision-1").effect ≡ allow
unfolding evaluate failures refusal approval_valid calculate_plan_hash sha256_digest canonical_json
    fields_eqb json_eqb RiskLevel-discrete ChangeEnvironment-discrete WorkflowState-discrete
    ApprovalDecision-discrete UserRole-discrete IdentityKind-discrete
evaluate_allows = refl

evaluate-allow_iff_example : IsAuthorized sample_codec every_resource (inputs (some given))
evaluate-allow_iff_example =
    (evaluate-allow_iff sample_codec every_resource (inputs (some given)) "decision-1").0
      evaluate_allows

allowed_mutation-IsApproval_example :
    (a : Approval) × ((inputs (some given)).approval ≡ some a)
    × IsApproval sample_codec (inputs (some given)) a
allowed_mutation-IsApproval_example =
    allowed_mutation-IsApproval sample_codec every_resource (inputs (some given)) "decision-1"
      evaluate_allows refl

evaluate-effect_example :
    IsAnswer sample_codec every_resource
      (inputs none)
      "decision-1"
      false
      true
      (evaluate sample_codec every_resource (inputs none) "decision-1").effect
unfolding RiskLevel-discrete ChangeEnvironment-discrete approval_valid
evaluate-effect_example = evaluate-effect sample_codec every_resource (inputs none) "decision-1"
