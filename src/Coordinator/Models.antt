-- ===== src/Coordinator/Models.antt =====
-- services/workflow-coordinator/src/changeops_workflow_coordinator/models.py: the durable records
-- and their validators.
use enterprise_change_ops.Base.{
  ℕ, String, string_eq, option_eq, Bool, true, false, not, ◌&&◌, ◌||◌, ltb, ◌==◌, ◌/=◌,
  if◌then◌else◌, Option, none, some, List, [], ◌∷◌, map, Comparable, decided_eq, Result, ok, err,
}
use enterprise_change_ops.Base.Sets.{is_subset}
use enterprise_change_ops.Contracts.Models.{Timestamp, ChangeEvent, RemediationPlan}
use enterprise_change_ops.Contracts.Canonical.{Codec, calculate_plan_hash}

pub data WorkflowRuntimeStatus : Type 0 where
  received analyzing waiting_approval executing verifying rolling_back completed failed
        needs_attention dead_lettered :
      WorkflowRuntimeStatus

pub data WorkflowTaskStatus : Type 0 where
  pending running succeeded task_failed rolled_back rollback_failed : WorkflowTaskStatus

unfoldable pub WorkflowTaskStatus-discrete : Discrete WorkflowTaskStatus
WorkflowTaskStatus-discrete = hlevel

instance abbrev pub task_status_eq : Comparable WorkflowTaskStatus
task_status_eq = decided_eq WorkflowTaskStatus-discrete

unfoldable pub WorkflowRuntimeStatus-discrete : Discrete WorkflowRuntimeStatus
WorkflowRuntimeStatus-discrete = hlevel

instance abbrev pub runtime_status_eq : Comparable WorkflowRuntimeStatus
runtime_status_eq = decided_eq WorkflowRuntimeStatus-discrete

pub data SystemId : Type 0 where
  crm analytics support : SystemId

pub record WorkflowTaskRecord : Type 0 where
  pub step_id : String
  pub system_id : SystemId
  pub status : WorkflowTaskStatus
  pub attempt_count : ℕ
  pub snapshot_id : Option String
  pub snapshot_hash : Option String
  pub execution_id : Option String
  pub output_hash : Option String
  pub error_code : Option String
  pub updated_at : Timestamp

abbrev pub is_none : {A : Type 0} → Option A → Bool
is_none none = true
is_none (some _) = false

-- `a != b` of two Boolean values.
abbrev differ : Bool → Bool → Bool
differ true b = not b
differ false b = b

unfoldable pub validate_artifacts : WorkflowTaskRecord → Result String WorkflowTaskRecord
validate_artifacts r =
    if differ (is_none r.snapshot_id) (is_none r.snapshot_hash)
    then err "snapshot identifier and hash must be stored together"
    else if r.status == succeeded && (is_none r.execution_id || is_none r.output_hash)
    then err "successful workflow tasks require execution evidence"
    else if (r.status == task_failed || r.status == rollback_failed) && is_none r.error_code
    then err "failed workflow tasks require an error code"
    else ok r

pub record WorkflowExecutionRecord : Type 0 where
  pub workflow_execution_id : String
  pub tenant_id : String
  pub change_id : String
  pub event_id : String
  pub trace_id : String
  pub event : ChangeEvent
  pub status : WorkflowRuntimeStatus
  pub delivery_attempts : ℕ
  pub plan : Option RemediationPlan
  pub plan_hash : Option String
  pub approval_id : Option String
  pub approval_expires_at : Option Timestamp
  pub tasks : List WorkflowTaskRecord
  pub last_error_code : Option String
  pub started_at : Timestamp
  pub updated_at : Timestamp
  pub completed_at : Option Timestamp
  pub version : ℕ

abbrev pub is_terminal : WorkflowRuntimeStatus → Bool
is_terminal completed = true
is_terminal failed = true
is_terminal needs_attention = true
is_terminal dead_lettered = true
is_terminal _ = false

abbrev same_set : List String → List String → Bool
same_set xs ys = is_subset xs ys && is_subset ys xs

abbrev is_empty : List WorkflowTaskRecord → Bool
is_empty [] = true
is_empty (_ ∷ _) = false

module _ (codec : Codec) where
  -- The messages of the branch on the plan, if one applies.
  abbrev plan_fault : Option RemediationPlan → WorkflowExecutionRecord → Option String
  plan_fault none r =
      if is_empty r.tasks then none else some "workflow tasks cannot exist before a plan"
  plan_fault (some plan) r =
      if plan.tenant_id /= r.tenant_id
        || (plan.change_id /= r.change_id || some (calculate_plan_hash codec plan) /= r.plan_hash)
      then some "workflow plan scope or hash is invalid"
      else if not
          (same_set (map (λ task. task.step_id) r.tasks) (map (λ step. step.step_id) plan.steps))
      then some "workflow tasks must match every plan step"
      else none

  abbrev lifecycle_fault :
      Option String → WorkflowExecutionRecord → Result String WorkflowExecutionRecord
  lifecycle_fault (some message) r = err message
  lifecycle_fault none r =
      if differ (is_terminal r.status) (not (is_none r.completed_at))
      then err "terminal workflow status and completed_at must agree"
      else ok r

  unfoldable pub validate_lifecycle :
      WorkflowExecutionRecord → Result String WorkflowExecutionRecord
  validate_lifecycle r =
      if r.event.tenant_id /= r.tenant_id || r.event.event_id /= r.event_id
      then err "workflow event scope must match the workflow record"
      else if ltb r.updated_at r.started_at
      then err "workflow updated_at cannot precede started_at"
      else if differ (is_none r.plan) (is_none r.plan_hash)
      then err "workflow plan and hash must be stored together"
      else lifecycle_fault (plan_fault r.plan r) r

pub record DeadLetterRecord : Type 0 where
  pub dead_letter_id : String
  pub tenant_id : String
  pub event_id : String
  pub workflow_execution_id : String
  pub error_code : String
  pub input_hash : String
  pub created_at : Timestamp
