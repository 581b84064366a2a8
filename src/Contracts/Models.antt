-- ===== src/Contracts/Models.antt =====
-- The records of packages/contracts-python/src/changeops_contracts/models.py. A datetime is the
-- number of microseconds since the earliest one; text is `String`.
use enterprise_change_ops.Base.{ℕ, String, Bool, Option, List}
use enterprise_change_ops.Contracts.Json.{Fields}
use enterprise_change_ops.Contracts.Enums.{
  RiskLevel, ChangeEnvironment, WorkflowState, PolicyEffect, ApprovalDecision, UserRole, ActorType,
  AuditStatus,
}

abbrev pub Timestamp : Type 0
Timestamp = ℕ

pub record ChangeSource : Type 0 where
  pub source_type : String
  pub external_id : String
  pub url : String

pub record ChangeSubject : Type 0 where
  pub system_id : String
  pub resource_type : String
  pub resource_id : String

pub record ChangeDetails : Type 0 where
  pub summary : String
  pub old_version : String
  pub new_version : String
  pub artifact_refs : List String

pub record ChangeEvent : Type 0 where
  pub schema_version : String
  pub event_id : String
  pub tenant_id : String
  pub event_type : String
  pub source : ChangeSource
  pub occurred_at : Timestamp
  pub received_at : Timestamp
  pub subject : ChangeSubject
  pub change : ChangeDetails
  pub correlation_id : String
  pub trace_id : String

pub record ChangeRecord : Type 0 where
  pub change_id : String
  pub tenant_id : String
  pub event_id : String
  pub change_type : String
  pub title : String
  pub description : String
  pub source : ChangeSource
  pub environment : ChangeEnvironment
  pub status : WorkflowState
  pub risk_level : RiskLevel
  pub current_phase : WorkflowState
  pub workflow_execution_id : Option String
  pub plan_version : ℕ
  pub plan_hash : Option String
  pub created_at : Timestamp
  pub updated_at : Timestamp
  pub created_by : String
  pub version : ℕ

pub record RemediationStep : Type 0 where
  pub step_id : String
  pub order : ℕ
  pub agent_id : String
  pub tool_name : String
  pub resource : String
  pub arguments : Fields
  pub depends_on : List String
  pub risk_level : RiskLevel
  pub requires_approval : Bool
  pub idempotency_key : String

pub record RemediationPlan : Type 0 where
  pub plan_id : String
  pub tenant_id : String
  pub change_id : String
  pub version : ℕ
  pub risk_level : RiskLevel
  pub summary : String
  pub preconditions : List String
  pub steps : List RemediationStep
  pub verification_steps : List String
  pub rollback_steps : List String
  pub evidence_refs : List String
  pub created_at : Timestamp

pub record ToolIntent : Type 0 where
  pub schema_version : String
  pub intent_id : String
  pub tenant_id : String
  pub change_id : String
  pub workflow_execution_id : String
  pub plan_id : String
  pub plan_hash : String
  pub step_id : String
  pub agent_identity : String
  pub tool_name : String
  pub action : String
  pub resource : String
  pub arguments : Fields
  pub reason : String
  pub evidence_refs : List String
  pub idempotency_key : String
  pub requested_at : Timestamp

pub record PolicyDecision : Type 0 where
  pub decision_id : String
  pub tenant_id : String
  pub intent_id : String
  pub effect : PolicyEffect
  pub computed_risk : RiskLevel
  pub approval_required : Bool
  pub approval_valid : Bool
  pub matched_policy_ids : List String
  pub reasons : List String
  pub evaluated_at : Timestamp

pub record Approval : Type 0 where
  pub approval_id : String
  pub tenant_id : String
  pub change_id : String
  pub plan_id : String
  pub plan_hash : String
  pub plan_version : ℕ
  pub environment : ChangeEnvironment
  pub decision : ApprovalDecision
  pub scope : List String
  pub approved_by : String
  pub approved_by_roles : List UserRole
  pub approved_at : Timestamp
  pub expires_at : Timestamp
  pub comment : String

pub record AuditEvent : Type 0 where
  pub audit_event_id : String
  pub tenant_id : String
  pub change_id : String
  pub trace_id : String
  pub event_type : String
  pub actor_type : ActorType
  pub actor_id : String
  pub resource : String
  pub action : String
  pub decision_id : Option String
  pub input_hash : String
  pub output_hash : String
  pub status : AuditStatus
  pub redacted_summary : String
  pub created_at : Timestamp
