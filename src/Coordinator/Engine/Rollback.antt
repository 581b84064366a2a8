-- ===== src/Coordinator/Engine/Rollback.antt =====
-- `_rollback` of services/workflow-coordinator/src/changeops_workflow_coordinator/engine.py.
use enterprise_change_ops.Base.{
  ℕ, String, string_eq, option_eq, concat, Bool, true, false, ◌||◌, ltb, ◌/=◌, if◌then◌else◌,
  Option, none, some, List, [], ◌∷◌, map, Result, ok, err, pure, raise, or_raise, ◌>>=◌, ◌>>◌,
}
use enterprise_change_ops.Base.Dict.{Dict, lookup, insert}
use enterprise_change_ops.Base.Sort.{sort_descending}
use enterprise_change_ops.Contracts.Json.{str, obj, field, end}
use enterprise_change_ops.Contracts.Enums.{WorkflowState, success, failure}
use enterprise_change_ops.Contracts.Models.{Timestamp, RemediationStep}
use enterprise_change_ops.Contracts.Canonical.{Codec}
use enterprise_change_ops.Persistence.Memory
use enterprise_change_ops.Coordinator.Models.{
  WorkflowRuntimeStatus, rolled_back, rollback_failed, task_status_eq, WorkflowTaskRecord,
  WorkflowExecutionRecord, validate_artifacts,
}
use enterprise_change_ops.Coordinator.Engine.World.{
  EngineError, dependency, key_error, Outside, Call, client, reading, settled, on_changes,
}
use enterprise_change_ops.Coordinator.Engine.Records.{
  Note, record_audit, require_plan, update_record, validated, system_value, set_runtime_status,
  terminal, transition_to,
}
use enterprise_change_ops.Coordinator.Engine.Dag.{put_tasks, take_tasks}

abbrev pub restored_note : WorkflowTaskRecord → String → String → Note
restored_note task snapshot_id restored_hash = record {
  event_type = "WORKFLOW_ROLLBACK_SUCCEEDED";
  action = "restore_snapshot";
  input_document = obj (
      field "snapshot_id" (str snapshot_id)
        (field "system_id" (str (system_value task.system_id)) end));
  output_document = obj (field "configuration_hash" (str restored_hash) end);
  status = success;
  summary = concat (system_value task.system_id) " snapshot restored and hash verified.";
}

abbrev pub unrestored_note : WorkflowTaskRecord → String → Note
unrestored_note task code = record {
  event_type = "WORKFLOW_ROLLBACK_FAILED";
  action = "restore_snapshot";
  input_document = obj (field "system_id" (str (system_value task.system_id)) end);
  output_document = obj (field "error_code" (str code) end);
  status = failure;
  summary = concat (system_value task.system_id) " rollback requires operator attention.";
}

abbrev pub restored_task : WorkflowTaskRecord → Timestamp → WorkflowTaskRecord
restored_task task now = record task { status = rolled_back; error_code = none; updated_at = now }

abbrev pub unrestored_task : WorkflowTaskRecord → String → Timestamp → WorkflowTaskRecord
unrestored_task task code now = record task {
  status = rollback_failed;
  error_code = some code;
  updated_at = now;
}

-- `order[task.step_id]`, the last step of an identifier counting.
abbrev pub put_orders : List RemediationStep → Dict String ℕ → Dict String ℕ
put_orders [] d = d
put_orders (x ∷ xs) d = put_orders xs (insert x.step_id x.order d)

abbrev pub with_orders :
    {World : Type 0}
    → Dict String ℕ
    → List WorkflowTaskRecord
    → Call World (List (ℕ × WorkflowTaskRecord))
with_orders order [] = pure []
with_orders order (t ∷ ts) = do
  n ← or_raise (lookup t.step_id order) key_error
  rest ← with_orders order ts
  pure ((n, t) ∷ rest)

-- The tasks from the last step to the first one.
abbrev pub backwards : List (ℕ × WorkflowTaskRecord) → List WorkflowTaskRecord
backwards ts = map (λ (p : ℕ × WorkflowTaskRecord). p.1) (sort_descending (λ p q. ltb p.0 q.0) ts)

module _ (codec : Codec) (outside : Outside) where
  open outside use {World, clock, restore, configuration_hash}

  -- The `try` up to the comparison of the hashes.
  abbrev pub restore_call :
      WorkflowExecutionRecord → WorkflowTaskRecord → String → String → Call World String
  restore_call r task snapshot_id snapshot_hash = do
    client (restore task.system_id r.tenant_id snapshot_id)
    restored_hash ← client (configuration_hash task.system_id r.tenant_id)
    if restored_hash /= snapshot_hash
        then raise (dependency "RESTORE_HASH_MISMATCH" false)
        else pure restored_hash

  -- The task after its restoration, and whether that failed.
  abbrev pub after_restore :
      WorkflowExecutionRecord
      → WorkflowTaskRecord
      → String
      → Result EngineError String
      → Call World (WorkflowTaskRecord × Bool)
  after_restore r task snapshot_id (ok restored_hash) = do
    now ← reading clock
    t ← validated (validate_artifacts (restored_task task now))
    record_audit codec outside r (restored_note task snapshot_id restored_hash)
    pure (t, false)
  after_restore r task snapshot_id (err (dependency code _)) = do
    now ← reading clock
    t ← validated (validate_artifacts (unrestored_task task code now))
    record_audit codec outside r (unrestored_note task code)
    pure (t, true)
  after_restore r task snapshot_id (err e) = raise e

  abbrev pub restore_from :
      WorkflowExecutionRecord
      → WorkflowTaskRecord
      → Option String
      → Option String
      → Call World (WorkflowTaskRecord × Bool)
  restore_from r task (some snapshot_id) (some snapshot_hash) = do
    outcome ← settled (restore_call r task snapshot_id snapshot_hash)
    after_restore r task snapshot_id outcome
  restore_from r task _ _ = do
    now ← reading clock
    t ← validated (validate_artifacts (unrestored_task task "SNAPSHOT_MISSING" now))
    pure (t, true)

  unfoldable pub restore_task :
      WorkflowExecutionRecord → WorkflowTaskRecord → Call World (WorkflowTaskRecord × Bool)
  unfolding validate_artifacts record_audit
  restore_task r task = restore_from r task task.snapshot_id task.snapshot_hash

  -- The loop over the tasks.
  unfoldable pub restore_all :
      WorkflowExecutionRecord
      → List WorkflowTaskRecord
      → Dict String WorkflowTaskRecord
      → Bool
      → Call World (Dict String WorkflowTaskRecord × Bool)
  unfolding restore_task
  restore_all r [] by_step failed = pure (by_step, failed)
  restore_all r (t ∷ ts) by_step failed = do
    outcome ← restore_task r t
    restore_all r ts (insert t.step_id outcome.0 by_step) (failed || outcome.1)

  abbrev pub is_underway : WorkflowState → Bool
  is_underway WorkflowState.executing = true
  is_underway WorkflowState.verifying = true
  is_underway _ = false

  -- The end of `_rollback`, once the tasks are restored.
  abbrev pub finish_rollback :
      WorkflowExecutionRecord → Bool → String → Call World WorkflowExecutionRecord
  finish_rollback r failed original_error = do
    transition_to codec outside r
        (if failed then WorkflowState.needs_attention else WorkflowState.failed) []
    terminal codec outside r
        (if failed then WorkflowRuntimeStatus.needs_attention else WorkflowRuntimeStatus.failed)
        (some original_error)

  unfoldable pub rollback : WorkflowExecutionRecord → String → Call World WorkflowExecutionRecord
  unfolding transition_to set_runtime_status require_plan restore_all update_record terminal
  rollback r original_error = do
    change ← on_changes (Memory.get r.tenant_id r.change_id)
    if is_underway change.status
        then transition_to codec outside r WorkflowState.rolling_back [] >> pure tt
        else pure tt
    rolling ←
        set_runtime_status codec outside r WorkflowRuntimeStatus.rolling_back (some original_error)
    plan ← require_plan codec outside rolling
    ordered ← with_orders (put_orders plan.steps []) rolling.tasks
    restored ← restore_all rolling (backwards ordered) (put_tasks rolling.tasks []) false
    tasks ← take_tasks restored.0 rolling.tasks
    r' ← update_record codec outside rolling (record rolling { tasks = tasks })
    finish_rollback r' restored.1 original_error
