-- ===== src/Contracts/Texts.antt =====
-- The values of the string enumerations of
-- packages/contracts-python/src/changeops_contracts/models.py, as f-strings and JSON show them.
use enterprise_change_ops.Base.{String}
use enterprise_change_ops.Contracts.Enums.{
  RiskLevel, unknown, low, medium, high, critical, WorkflowState, received, screening, blocked,
  analyzing, plan_ready, awaiting_approval, executing, verifying, rolling_back, completed, failed,
  partial, cancelled, needs_attention, AuditStatus, success, failure,
}

abbrev pub risk_value : RiskLevel → String
risk_value unknown = "unknown"
risk_value low = "low"
risk_value medium = "medium"
risk_value high = "high"
risk_value critical = "critical"

abbrev pub state_value : WorkflowState → String
state_value received = "RECEIVED"
state_value screening = "SCREENING"
state_value blocked = "BLOCKED"
state_value analyzing = "ANALYZING"
state_value plan_ready = "PLAN_READY"
state_value awaiting_approval = "AWAITING_APPROVAL"
state_value WorkflowState.approved = "APPROVED"
state_value WorkflowState.rejected = "REJECTED"
state_value executing = "EXECUTING"
state_value verifying = "VERIFYING"
state_value rolling_back = "ROLLING_BACK"
state_value completed = "COMPLETED"
state_value failed = "FAILED"
state_value partial = "PARTIAL"
state_value cancelled = "CANCELLED"
state_value needs_attention = "NEEDS_ATTENTION"

abbrev pub audit_value : AuditStatus → String
audit_value success = "success"
audit_value AuditStatus.rejected = "rejected"
audit_value failure = "failure"
