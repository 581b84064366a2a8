-- ===== src/Contracts/Samples.antt =====
-- Concrete values for the examples of the other modules.
use enterprise_change_ops.Base.{ℕ, String, none, some, List, [], ◌∷◌, true}
use enterprise_change_ops.Contracts.Json.{str, field, end}
use enterprise_change_ops.Contracts.Enums.{WorkflowState, high, sandbox, success, service}
use enterprise_change_ops.Contracts.Models.{
  ChangeSource, ChangeEvent, ChangeRecord, AuditEvent, RemediationStep, RemediationPlan,
}
use enterprise_change_ops.Contracts.Canonical.{Codec}

-- A codec whose digest is the identifier of what is digested.
abbrev pub sample_codec : Codec
sample_codec = record {
  json_dumps = λ d. elim d [ str s ↦ s | _ ↦ "document" ];
  hexdigest = λ s. s;
  dump_event = λ e. str e.event_id;
  dump_change = λ c. str c.change_id;
  dump_plan = λ p. str p.plan_id;
}

abbrev pub sample_source : ChangeSource
sample_source = record {
  source_type = "github";
  external_id = "pr-7";
  url = "https://example.test/7";
}

abbrev pub sample_event : ChangeEvent
sample_event = record {
  schema_version = "1.0";
  event_id = "evt-1";
  tenant_id = "acme";
  event_type = "api.contract.changed";
  source = sample_source;
  occurred_at = 5;
  received_at = 6;
  subject = record { system_id = "customer-api"; resource_type = "api"; resource_id = "customers" };
  change = record {
    summary = "customer_id to customer_uuid";
    old_version = "v1";
    new_version = "v2";
    artifact_refs = "doc-1" ∷ [];
  };
  correlation_id = "corr-1";
  trace_id = "trace-1";
}

abbrev pub sample_change : WorkflowState → ℕ → ChangeRecord
sample_change state version = record {
  change_id = "chg-1";
  tenant_id = "acme";
  event_id = "evt-1";
  change_type = "api.contract.changed";
  title = "customer_id to customer_uuid";
  description = "customer_id to customer_uuid";
  source = sample_source;
  environment = sandbox;
  status = state;
  risk_level = high;
  current_phase = state;
  workflow_execution_id = some "wf-1";
  plan_version = 1;
  plan_hash = some "sha256:plan-1";
  created_at = 10;
  updated_at = 20;
  created_by = "event-gateway";
  version = version;
}

abbrev pub sample_audit : String → AuditEvent
sample_audit id = record {
  audit_event_id = id;
  tenant_id = "acme";
  change_id = "chg-1";
  trace_id = "trace-1";
  event_type = "CHANGE_RECEIVED";
  actor_type = service;
  actor_id = "workflow-coordinator";
  resource = "changes/chg-1";
  action = "create_change";
  decision_id = none;
  input_hash = "sha256:in";
  output_hash = "sha256:out";
  status = success;
  redacted_summary = "accepted";
  created_at = 10;
}

abbrev pub sample_step : String → ℕ → List String → RemediationStep
sample_step id position needs = record {
  step_id = id;
  order = position;
  agent_id = "crm";
  tool_name = "crm.update_field_mapping";
  resource = "crm://tenant/acme/configuration/customer";
  arguments = field "old_field" (str "customer_id") (field "new_field" (str "customer_uuid") end);
  depends_on = needs;
  risk_level = high;
  requires_approval = true;
  idempotency_key = "key-1";
}

abbrev pub sample_plan : RemediationPlan
sample_plan = record {
  plan_id = "plan-1";
  tenant_id = "acme";
  change_id = "chg-1";
  version = 1;
  risk_level = high;
  summary = "move the identifier";
  preconditions = [];
  steps =
      sample_step "s1" 1 []
      ∷ sample_step "s2" 2 ("s1" ∷ [])
      ∷ sample_step "s3" 3 ("s2" ∷ "s1" ∷ [])
      ∷ [];
  verification_steps = "verify" ∷ [];
  rollback_steps = "restore" ∷ [];
  evidence_refs = "doc-1" ∷ [];
  created_at = 11;
}
