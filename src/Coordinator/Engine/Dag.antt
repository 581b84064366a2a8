-- ===== src/Coordinator/Engine/Dag.antt =====
-- `_capture_snapshots` and `_execute_dag` of
-- services/workflow-coordinator/src/changeops_workflow_coordinator/engine.py.
use enterprise_change_ops.Base.{
  ℕ, zero, suc, String, string_eq, concat, Bool, true, ◌==◌, if◌then◌else◌, Option, none, some,
  List, [], ◌∷◌, map, keep, find, any, all, contains, length, Result, ok, err, pure, raise,
  or_raise, ◌>>=◌, ◌>>◌,
}
use enterprise_change_ops.Base.Dict.{Dict, lookup, insert, put_all, values}
use enterprise_change_ops.Contracts.Json.{str, obj, field, end}
use enterprise_change_ops.Contracts.Enums.{success}
use enterprise_change_ops.Contracts.Models.{Timestamp, RemediationStep}
use enterprise_change_ops.Contracts.Canonical.{Codec}
use enterprise_change_ops.Coordinator.Models.{
  pending, succeeded, task_failed, task_status_eq, WorkflowTaskRecord, WorkflowExecutionRecord,
  validate_artifacts, is_none,
}
use enterprise_change_ops.Coordinator.Retry.{RetryPolicy}
use enterprise_change_ops.Coordinator.Engine.World.{
  EngineError, dependency, transient, permanent, key_error, out_of_fuel, SnapshotRecord, Outside,
  Call, client, reading, settled,
}
use enterprise_change_ops.Coordinator.Engine.Records.{
  Note, record_audit, require_plan, update_record, validated, system_value,
}
use enterprise_change_ops.Coordinator.Engine.Tasks.{execute_task}

-- `{task.step_id: task for task in tasks}`, into a dictionary.
abbrev pub put_tasks :
    List WorkflowTaskRecord → Dict String WorkflowTaskRecord → Dict String WorkflowTaskRecord
put_tasks = put_all (λ t. t.step_id)

-- `{step.step_id: step for step in steps}`
abbrev pub put_steps :
    List RemediationStep → Dict String RemediationStep → Dict String RemediationStep
put_steps = put_all (λ step. step.step_id)

-- `tuple(by_step[task.step_id] for task in tasks)`
abbrev pub take_tasks :
    {World : Type 0}
    → Dict String WorkflowTaskRecord
    → List WorkflowTaskRecord
    → Call World (List WorkflowTaskRecord)
take_tasks by_step [] = pure []
take_tasks by_step (t ∷ ts) = do
  task ← or_raise (lookup t.step_id by_step) key_error
  rest ← take_tasks by_step ts
  pure (task ∷ rest)

abbrev pub with_snapshot : WorkflowTaskRecord → SnapshotRecord → Timestamp → WorkflowTaskRecord
with_snapshot task result now = record task {
  snapshot_id = some result.snapshot_id;
  snapshot_hash = some result.configuration_hash;
  updated_at = now;
}

abbrev pub snapshot_note : WorkflowTaskRecord → SnapshotRecord → Note
snapshot_note task result = record {
  event_type = "WORKFLOW_SNAPSHOT_CAPTURED";
  action = "capture_snapshot";
  input_document = obj (
      field "step_id" (str task.step_id)
        (field "system_id" (str (system_value task.system_id)) end));
  output_document = obj (
      field "snapshot_id" (str result.snapshot_id)
        (field "snapshot_hash" (str result.configuration_hash) end));
  status = success;
  summary =
      concat "Pre-write " (concat (system_value task.system_id) " snapshot captured and hashed.");
}

abbrev pub is_pending : WorkflowTaskRecord → Bool
is_pending t = t.status == pending

abbrev pub has_succeeded : WorkflowTaskRecord → Bool
has_succeeded t = t.status == succeeded

abbrev pub has_failed : WorkflowTaskRecord → Bool
has_failed t = t.status == task_failed

abbrev pub succeeded_ids : Dict String WorkflowTaskRecord → List String
succeeded_ids by_step =
    map (λ (t : WorkflowTaskRecord). t.step_id) (keep has_succeeded (values by_step))

abbrev pub is_subset_of : List String → List String → Bool
is_subset_of done needs = all (contains done) needs

-- `[task for task in pending if set(steps[task.step_id].depends_on).issubset(succeeded)]`, with the
-- step of each
abbrev pub ready_tasks :
    {World : Type 0}
    → Dict String RemediationStep
    → List String
    → List WorkflowTaskRecord
    → Call World (List (WorkflowTaskRecord × RemediationStep))
ready_tasks steps done [] = pure []
ready_tasks steps done (t ∷ ts) = do
  step ← or_raise (lookup t.step_id steps) key_error
  rest ← ready_tasks steps done ts
  pure (if is_subset_of done step.depends_on then (t, step) ∷ rest else rest)

-- `next((task.error_code for task in results if task.status is FAILED), None)`
abbrev error_of : Option WorkflowTaskRecord → Option String
error_of none = none
error_of (some t) = t.error_code

abbrev pub first_error : List WorkflowTaskRecord → Option String
first_error results = error_of (find has_failed results)

module _ (codec : Codec) (policy : RetryPolicy) (outside : Outside) where
  open outside use {World, clock, snapshot}

  abbrev pub collect_snapshots :
      WorkflowExecutionRecord
      → List WorkflowTaskRecord
      → Call World (List (WorkflowTaskRecord × Result EngineError SnapshotRecord))
  collect_snapshots r [] = pure []
  collect_snapshots r (t ∷ ts) = do
    result ← settled (client (snapshot t.system_id r.tenant_id))
    rest ← collect_snapshots r ts
    pure ((t, result) ∷ rest)

  abbrev pub snapshot_error : EngineError → EngineError
  snapshot_error (dependency code true) = transient code
  snapshot_error e = permanent "SNAPSHOT_CAPTURE_FAILED"

  abbrev pub store_snapshots :
      WorkflowExecutionRecord
      → List (WorkflowTaskRecord × Result EngineError SnapshotRecord)
      → Dict String WorkflowTaskRecord
      → Call World (Dict String WorkflowTaskRecord)
  store_snapshots r [] by_step = pure by_step
  store_snapshots r ((t, err e) ∷ rest) by_step = raise (snapshot_error e)
  store_snapshots r ((t, ok result) ∷ rest) by_step = do
    now ← reading clock
    task ← validated (validate_artifacts (with_snapshot t result now))
    record_audit codec outside r (snapshot_note t result)
    store_snapshots r rest (insert t.step_id task by_step)

  abbrev pub lacks_snapshot : WorkflowTaskRecord → Bool
  lacks_snapshot t = is_none t.snapshot_id

  abbrev pub capture_missing :
      WorkflowExecutionRecord → List WorkflowTaskRecord → Call World WorkflowExecutionRecord
  capture_missing r [] = pure r
  capture_missing r (t ∷ ts) = do
    snapshots ← collect_snapshots r (t ∷ ts)
    by_step ← store_snapshots r snapshots (put_tasks r.tasks [])
    tasks ← take_tasks by_step r.tasks
    update_record codec outside r (record r { tasks = tasks })

  unfoldable pub capture_snapshots : WorkflowExecutionRecord → Call World WorkflowExecutionRecord
  unfolding validate_artifacts record_audit update_record
  capture_snapshots r = capture_missing r (keep lacks_snapshot r.tasks)

  abbrev pub execute_all :
      WorkflowExecutionRecord
      → List (WorkflowTaskRecord × RemediationStep)
      → Call World (List WorkflowTaskRecord)
  execute_all r [] = pure []
  execute_all r ((t, step) ∷ rest) = do
    result ← execute_task codec policy outside r t step
    results ← execute_all r rest
    pure (result ∷ results)

  -- One round, from the tasks that are pending. `again` is the next turn of the loop.
  abbrev pub round :
      Dict String RemediationStep
      → (WorkflowExecutionRecord
          → Dict String WorkflowTaskRecord
          → Call World WorkflowExecutionRecord)
      → WorkflowExecutionRecord
      → Dict String WorkflowTaskRecord
      → List (WorkflowTaskRecord × RemediationStep)
      → Call World WorkflowExecutionRecord
  round steps again r by_step [] = raise (permanent "DAG_PROGRESS_BLOCKED")
  round steps again r by_step (x ∷ ready) = do
    results ← execute_all r (x ∷ ready)
    let by_step' = put_tasks results by_step
    tasks ← take_tasks by_step' r.tasks
    r' ←
        update_record codec outside r
          (record r { tasks = tasks; last_error_code = first_error results })
    if any has_failed results then pure r' else again r' by_step'

  abbrev pub rounds_of :
      Dict String RemediationStep
      → (WorkflowExecutionRecord
          → Dict String WorkflowTaskRecord
          → Call World WorkflowExecutionRecord)
      → WorkflowExecutionRecord
      → Dict String WorkflowTaskRecord
      → List WorkflowTaskRecord
      → Call World WorkflowExecutionRecord
  rounds_of steps again r by_step [] = pure r
  rounds_of steps again r by_step (t ∷ ts) = do
    ready ← ready_tasks steps (succeeded_ids by_step) (t ∷ ts)
    round steps again r by_step ready

  -- The loop, with fuel for the rounds.
  unfoldable pub rounds :
      Dict String RemediationStep
      → ℕ
      → WorkflowExecutionRecord
      → Dict String WorkflowTaskRecord
      → Call World WorkflowExecutionRecord
  unfolding update_record execute_task
  rounds steps zero r by_step = raise out_of_fuel
  rounds steps (suc fuel) r by_step =
      rounds_of steps (rounds steps fuel) r by_step (keep is_pending (values by_step))

  -- Every round takes a task out of the pending ones, so there are not more rounds than tasks.
  unfoldable pub execute_dag : WorkflowExecutionRecord → Call World WorkflowExecutionRecord
  unfolding require_plan rounds
  execute_dag r = do
    plan ← require_plan codec outside r
    let by_step = put_tasks r.tasks []
    rounds (put_steps plan.steps []) (suc (length (values by_step))) r by_step
