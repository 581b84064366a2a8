-- ===== src/Coordinator/Engine/Tasks.antt =====
-- One task of a plan: `_execute_task` of
-- services/workflow-coordinator/src/changeops_workflow_coordinator/engine.py. The wait between two
-- attempts changes no state.
use enterprise_change_ops.Base.{
  ℕ, zero, suc, ◌+◌, String, concat, if◌then◌else◌, none, some, Result, ok, err, raise, or_raise,
  ◌>>=◌, ◌>>◌,
}
use enterprise_change_ops.Contracts.Json.{Json, str, num, bool, obj, field, end}
use enterprise_change_ops.Contracts.Enums.{success, failure}
use enterprise_change_ops.Contracts.Models.{Timestamp, RemediationPlan, RemediationStep}
use enterprise_change_ops.Contracts.Canonical.{Codec}
use enterprise_change_ops.Coordinator.Models.{
  WorkflowTaskRecord, WorkflowExecutionRecord, succeeded, task_failed, validate_artifacts,
}
use enterprise_change_ops.Coordinator.Retry.{RetryPolicy, should_retry}
use enterprise_change_ops.Coordinator.Engine.World.{
  EngineError, dependency, permanent, out_of_fuel, GatewayExecutionResult, Outside, Call, client,
  reading, settled,
}
use enterprise_change_ops.Coordinator.Engine.Records.{
  Note, record_audit, require_plan, validated, system_value,
}

abbrev pub attempt_document : RemediationStep → ℕ → Json
attempt_document step attempt =
    obj (field "attempt" (num attempt) (field "step_id" (str step.step_id) end))

-- The audit events of an attempt.
abbrev pub succeeded_note : WorkflowTaskRecord → RemediationStep → ℕ → GatewayExecutionResult → Note
succeeded_note task step attempt result = record {
  event_type = "WORKFLOW_STEP_SUCCEEDED";
  action = "execute_plan_step";
  input_document = attempt_document step attempt;
  output_document = obj (
      field "execution_id" (str result.execution_id) (
        field "output_hash" (str result.output_hash)
          (field "replayed" (bool result.replayed) end)));
  status = success;
  summary = concat "Approved " (concat (system_value task.system_id) " workflow step completed.");
}

abbrev pub retried_note : WorkflowTaskRecord → RemediationStep → ℕ → String → Note
retried_note task step attempt code = record {
  event_type = "WORKFLOW_STEP_RETRY_SCHEDULED";
  action = "retry_plan_step";
  input_document = obj (
      field "attempt" (num attempt)
        (field "error_code" (str code) (field "step_id" (str step.step_id) end)));
  output_document = obj (field "next_attempt" (num (attempt + 1)) end);
  status = failure;
  summary =
      concat "Transient "
        (concat (system_value task.system_id) " failure scheduled for bounded retry.");
}

abbrev pub failed_note : WorkflowTaskRecord → RemediationStep → ℕ → String → Note
failed_note task step attempt code = record {
  event_type = "WORKFLOW_STEP_FAILED";
  action = "execute_plan_step";
  input_document = attempt_document step attempt;
  output_document = obj (field "error_code" (str code) end);
  status = failure;
  summary = concat (system_value task.system_id) " workflow step exhausted its allowed attempts.";
}

-- What the task becomes.
abbrev pub done_task :
    WorkflowTaskRecord → ℕ → GatewayExecutionResult → Timestamp → WorkflowTaskRecord
done_task task attempt result now = record task {
  status = succeeded;
  attempt_count = attempt;
  execution_id = some result.execution_id;
  output_hash = some result.output_hash;
  error_code = none;
  updated_at = now;
}

abbrev pub failed_task : WorkflowTaskRecord → ℕ → String → Timestamp → WorkflowTaskRecord
failed_task task attempt code now = record task {
  status = task_failed;
  attempt_count = attempt;
  error_code = some code;
  updated_at = now;
}

module _ (codec : Codec) (policy : RetryPolicy) (outside : Outside) where
  open outside use {World, clock, execute}

  abbrev pub attempt_call :
      WorkflowExecutionRecord
      → RemediationPlan
      → RemediationStep
      → String
      → Call World GatewayExecutionResult
  attempt_call r plan step approval_id = do
    requested_at ← reading clock
    client (execute r.workflow_execution_id plan step approval_id requested_at)

  abbrev pub succeed :
      WorkflowExecutionRecord
      → WorkflowTaskRecord
      → RemediationStep
      → ℕ
      → GatewayExecutionResult
      → Call World WorkflowTaskRecord
  succeed r task step attempt result = do
    record_audit codec outside r (succeeded_note task step attempt result)
    now ← reading clock
    validated (validate_artifacts (done_task task attempt result now))

  abbrev pub give_up :
      WorkflowExecutionRecord
      → WorkflowTaskRecord
      → RemediationStep
      → ℕ
      → String
      → Call World WorkflowTaskRecord
  give_up r task step attempt code = do
    record_audit codec outside r (failed_note task step attempt code)
    now ← reading clock
    validated (validate_artifacts (failed_task task attempt code now))

  -- What follows on an attempt: the `try` and its `except`. `again` is the next turn of the loop.
  abbrev pub after_attempt :
      WorkflowExecutionRecord
      → WorkflowTaskRecord
      → RemediationStep
      → ℕ
      → Call World WorkflowTaskRecord
      → Result EngineError GatewayExecutionResult
      → Call World WorkflowTaskRecord
  after_attempt r task step attempt again (ok result) = succeed r task step attempt result
  after_attempt r task step attempt again (err (dependency code is_transient)) =
      if should_retry policy is_transient attempt
      then record_audit codec outside r (retried_note task step attempt code) >> again
      else give_up r task step attempt code
  after_attempt r task step attempt again (err e) = raise e

  -- The loop after `attempt` attempts, with fuel for the rest.
  unfoldable pub attempts :
      ℕ
      → WorkflowExecutionRecord
      → RemediationPlan
      → RemediationStep
      → String
      → WorkflowTaskRecord
      → ℕ
      → Call World WorkflowTaskRecord
  unfolding record_audit should_retry validate_artifacts
  attempts zero r plan step approval_id task attempt = raise out_of_fuel
  attempts (suc fuel) r plan step approval_id task attempt = do
    outcome ← settled (attempt_call r plan step approval_id)
    after_attempt r task step (attempt + 1)
        (attempts fuel r plan step approval_id task (attempt + 1)) outcome

  -- With as many attempts as the policy allows, and one more.
  unfoldable pub execute_task :
      WorkflowExecutionRecord → WorkflowTaskRecord → RemediationStep → Call World WorkflowTaskRecord
  unfolding attempts require_plan
  execute_task r task step = do
    plan ← require_plan codec outside r
    approval_id ← or_raise r.approval_id (permanent "APPROVAL_ID_MISSING")
    attempts (suc policy.maximum_attempts) r plan step approval_id task task.attempt_count
