-- ===== src/Coordinator/Engine/Approvals.antt =====
-- `resume_approval` of services/workflow-coordinator/src/changeops_workflow_coordinator/engine.py.
use enterprise_change_ops.Base.{
  ℕ, String, string_eq, nat_eq, option_eq, Bool, true, false, ◌||◌, ◌==◌, ◌/=◌, if◌then◌else◌,
  Option, none, some, [], any, pure, or_raise, raise_if, ◌>>=◌, ◌>>◌,
}
use enterprise_change_ops.Contracts.Enums.{WorkflowState, state_eq}
use enterprise_change_ops.Contracts.Models.{Timestamp, ChangeRecord, RemediationPlan}
use enterprise_change_ops.Contracts.Canonical.{Codec}
use enterprise_change_ops.Persistence.Memory
use enterprise_change_ops.Coordinator.Models.{WorkflowRuntimeStatus, WorkflowExecutionRecord}
use enterprise_change_ops.Coordinator.Repository
use enterprise_change_ops.Coordinator.Retry.{RetryPolicy}
use enterprise_change_ops.Coordinator.Engine.World.{
  permanent, Outside, Call, on_workflows, on_changes,
}
use enterprise_change_ops.Coordinator.Engine.Records.{
  require_plan, set_runtime_status, terminal, transition_to,
}
use enterprise_change_ops.Coordinator.Engine.Dag.{capture_snapshots, execute_dag, has_failed}
use enterprise_change_ops.Coordinator.Engine.Verification.{verify_workflow}
use enterprise_change_ops.Coordinator.Engine.Rollback.{rollback}

pub data CallbackStatus : Type 0 where
  approved rejected changes_requested : CallbackStatus

-- `ApprovalCallbackRequest` of models.py.
pub record ApprovalCallbackRequest : Type 0 where
  pub tenant_id : String
  pub change_id : String
  pub approval_id : String
  pub plan_hash : String
  pub plan_version : ℕ
  pub status : CallbackStatus
  pub decided_at : Timestamp

-- The statuses of a workflow whose callback has been answered.
abbrev pub is_ended : WorkflowRuntimeStatus → Bool
is_ended WorkflowRuntimeStatus.completed = true
is_ended WorkflowRuntimeStatus.failed = true
is_ended WorkflowRuntimeStatus.needs_attention = true
is_ended _ = false

abbrev pub or_failure : Option String → String
or_failure (some code) = code
or_failure none = "TOOL_EXECUTION_FAILED"

abbrev is_mismatched : WorkflowExecutionRecord → RemediationPlan → ApprovalCallbackRequest → Bool
is_mismatched r plan q =
    (r.approval_id /= some q.approval_id)
    || ((r.plan_hash /= some q.plan_hash) || (plan.version /= q.plan_version))

module _ (codec : Codec) (policy : RetryPolicy) (outside : Outside) where
  open outside use {World}

  abbrev pub advance :
      WorkflowExecutionRecord
      → ChangeRecord
      → WorkflowState
      → WorkflowState
      → Call World ChangeRecord
  advance r change source target =
      if change.status == source then transition_to codec outside r target [] else pure change

  -- The end of an approved workflow, once it has been verified.
  abbrev pub after_verification :
      WorkflowExecutionRecord → Option String → Call World WorkflowExecutionRecord
  after_verification r (some code) = rollback codec outside r code
  after_verification r none = do
    transition_to codec outside r WorkflowState.completed []
    terminal codec outside r WorkflowRuntimeStatus.completed none

  -- From the end of `_execute_dag`.
  unfoldable pub settle : WorkflowExecutionRecord → Call World WorkflowExecutionRecord
  unfolding rollback transition_to set_runtime_status verify_workflow terminal
  settle r =
      if any has_failed r.tasks
      then rollback codec outside r (or_failure r.last_error_code)
      else (do
        transition_to codec outside r WorkflowState.verifying []
        r' ← set_runtime_status codec outside r WorkflowRuntimeStatus.verifying none
        verification_error ← verify_workflow codec policy outside r'
        after_verification r' verification_error)

  unfoldable pub resume_approved :
      WorkflowExecutionRecord → ChangeRecord → Call World WorkflowExecutionRecord
  unfolding settle transition_to set_runtime_status capture_snapshots execute_dag
  resume_approved r change = do
    c₁ ← advance r change WorkflowState.awaiting_approval WorkflowState.approved
    c₂ ← advance r c₁ WorkflowState.approved WorkflowState.executing
    raise_if (c₂.status /= WorkflowState.executing) (permanent "CHANGE_NOT_EXECUTABLE")
    executing ← set_runtime_status codec outside r WorkflowRuntimeStatus.executing none
    captured ← capture_snapshots codec policy outside executing
    executed ← execute_dag codec policy outside captured
    settle executed

  abbrev resume_rejected :
      WorkflowExecutionRecord → ChangeRecord → Call World WorkflowExecutionRecord
  resume_rejected r change = do
    advance r change WorkflowState.awaiting_approval WorkflowState.rejected
    terminal codec outside r WorkflowRuntimeStatus.failed (some "APPROVAL_REJECTED")

  abbrev resume_changes :
      WorkflowExecutionRecord → ChangeRecord → Call World WorkflowExecutionRecord
  resume_changes r change = do
    c ← advance r change WorkflowState.awaiting_approval WorkflowState.rejected
    advance r c WorkflowState.rejected WorkflowState.analyzing
    set_runtime_status codec outside r WorkflowRuntimeStatus.analyzing
        (some "APPROVAL_CHANGES_REQUESTED")

  abbrev by_status :
      CallbackStatus → WorkflowExecutionRecord → ChangeRecord → Call World WorkflowExecutionRecord
  by_status rejected r change = resume_rejected r change
  by_status changes_requested r change = resume_changes r change
  by_status approved r change = resume_approved r change

  unfoldable pub resume_approval : ApprovalCallbackRequest → Call World WorkflowExecutionRecord
  unfolding require_plan transition_to set_runtime_status terminal resume_approved
  resume_approval q = do
    change ← on_changes (Memory.get q.tenant_id q.change_id)
    workflow_id ← or_raise change.workflow_execution_id (permanent "WORKFLOW_ID_MISSING")
    r ← on_workflows (Repository.get q.tenant_id q.change_id workflow_id)
    if is_ended r.status then pure r else (do
      plan ← require_plan codec outside r
      raise_if (is_mismatched r plan q) (permanent "APPROVAL_CALLBACK_SCOPE_MISMATCH")
      by_status q.status r change)
