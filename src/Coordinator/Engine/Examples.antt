-- ===== src/Coordinator/Engine/Examples.antt =====
-- The theorems on the engine at a workflow of three steps, with systems that always answer.
use enterprise_change_ops.Base.{
  ℕ, suc, string_eq, ◌≡◌, refl, inl, inr, none, some, [], ◌∷◌, ok, true, false, String, ap, sym,
  Ends,
}
use enterprise_change_ops.Contracts.Json.{str}
use enterprise_change_ops.Contracts.Models.{RemediationStep}
use enterprise_change_ops.Contracts.Samples.{
  sample_codec, sample_event, sample_change, sample_plan, sample_step,
}
use enterprise_change_ops.Contracts.Canonical.{calculate_plan_hash}
use enterprise_change_ops.Contracts.Plans.{validate_step_graph}
use enterprise_change_ops.Coordinator.Models.{
  WorkflowRuntimeStatus, WorkflowTaskStatus-discrete, pending, crm, WorkflowTaskRecord,
  WorkflowExecutionRecord,
}
use enterprise_change_ops.Coordinator.Retry.{RetryPolicy}
use enterprise_change_ops.Coordinator.Engine.World.{Outside}
use enterprise_change_ops.Coordinator.Engine.Tasks.{execute_task}
use enterprise_change_ops.Coordinator.Engine.Dag.{execute_dag}
use enterprise_change_ops.Coordinator.Engine.Rollback.{rollback}
use enterprise_change_ops.Coordinator.Engine.Approvals.{resume_approved}
use enterprise_change_ops.Coordinator.Engine.Outcomes.{IsFine}
use enterprise_change_ops.Coordinator.Engine.Attempts.{IsAttempted, execute_task-IsAttempted}
use enterprise_change_ops.Coordinator.Engine.Progress.{
  IsExecuted, IsExecutable, execute_dag-IsExecuted,
}
use enterprise_change_ops.Coordinator.Engine.Settlement.{IsRolledBack, rollback-IsRolledBack}
use enterprise_change_ops.Coordinator.Engine.Resumption.{IsResumed, resume_approved-IsResumed}
use enterprise_change_ops.Contracts.Enums.{WorkflowState}

abbrev three_attempts : RetryPolicy
three_attempts = record { maximum_attempts = 3 }

-- The world is the time, which goes on with each reading.
abbrev willing : Outside
willing = record {
  World = ℕ;
  clock = λ w. (w, suc w);
  new_id = λ w. ("id", w);
  analyze = λ id event w. (ok (record { draft_plan = sample_plan; draft_plan_hash = "hash" }), w);
  create_approval = λ id plan expires_at w. (ok tt, w);
  execute = λ id plan step approval_id requested_at w.
      (ok (record { execution_id = "exec-1"; output_hash = "sha256:out"; replayed = false }), w);
  snapshot = λ system tenant_id w.
      (ok (record { snapshot_id = "snap-1"; configuration_hash = "sha256:before" }), w);
  restore = λ system tenant_id snapshot_id w. (ok tt, w);
  configuration_hash = λ system tenant_id w. (ok "sha256:before", w);
  verify = λ system tenant_id expected w. (ok (record { passed = true; dumped = str "passed" }), w);
}

abbrev waiting : String → WorkflowTaskRecord
waiting id = record {
  step_id = id;
  system_id = crm;
  status = pending;
  attempt_count = 0;
  snapshot_id = some "snap-1";
  snapshot_hash = some "sha256:before";
  execution_id = none;
  output_hash = none;
  error_code = none;
  updated_at = 20;
}

abbrev planned : WorkflowExecutionRecord
planned = record {
  workflow_execution_id = "wf-1";
  tenant_id = "acme";
  change_id = "chg-1";
  event_id = "evt-1";
  trace_id = "trace-1";
  event = sample_event;
  status = WorkflowRuntimeStatus.executing;
  delivery_attempts = 1;
  plan = some sample_plan;
  plan_hash = some (calculate_plan_hash sample_codec sample_plan);
  approval_id = some "approval-1";
  approval_expires_at = some 30;
  tasks = waiting "s1" ∷ waiting "s2" ∷ waiting "s3" ∷ [];
  last_error_code = none;
  started_at = 10;
  updated_at = 20;
  completed_at = none;
  version = 3;
}

execute_task-IsAttempted_example : Ends (IsAttempted 3 (waiting "s1")) IsFine (
    execute_task sample_codec three_attempts willing planned (waiting "s1") (sample_step "s1" 1 []))
execute_task-IsAttempted_example =
    execute_task-IsAttempted sample_codec three_attempts willing planned (waiting "s1")
      (sample_step "s1" 1 [])

sample_valid : validate_step_graph sample_plan ≡ ok sample_plan
unfolding validate_step_graph
sample_valid = refl

planned-IsExecutable : IsExecutable sample_plan planned
unfolding WorkflowTaskStatus-discrete
planned-IsExecutable = record {
  validated = sample_valid;
  planned = refl;
  distinct_tasks = (refl, (refl, (refl, tt)));
  open_tasks = (inl refl, (inl refl, (inl refl, tt)));
  covered = λ z i. elim i [
    | inl e ↦ (waiting "s1", inl refl, ap (λ (x : RemediationStep). x.step_id) (sym e))
    | inr j ↦ elim j [
      | inl e ↦ (waiting "s2", inr (inl refl), ap (λ (x : RemediationStep). x.step_id) (sym e))
      | inr k ↦ elim k [
        | inl e ↦
            (waiting "s3", inr (inr (inl refl)), ap (λ (x : RemediationStep). x.step_id) (sym e))
        | inr l ↦ elim l [ ]
      ]
    ]
  ];
}

execute_dag-IsExecuted_example :
    Ends (IsExecuted planned) IsFine (execute_dag sample_codec three_attempts willing planned)
execute_dag-IsExecuted_example =
    execute_dag-IsExecuted sample_codec three_attempts willing sample_plan planned
      planned-IsExecutable

rollback-IsRolledBack_example :
    Ends
      (IsRolledBack sample_codec willing planned)
      IsFine
      (rollback sample_codec willing planned "TOOL_EXECUTION_FAILED")
rollback-IsRolledBack_example =
    rollback-IsRolledBack sample_codec willing planned "TOOL_EXECUTION_FAILED"

resume_approved-IsResumed_example :
    Ends (IsResumed sample_codec three_attempts willing planned) IsFine (
      resume_approved sample_codec three_attempts willing planned
        (sample_change WorkflowState.awaiting_approval 3))
resume_approved-IsResumed_example =
    resume_approved-IsResumed sample_codec three_attempts willing sample_plan planned
      (sample_change WorkflowState.awaiting_approval 3) planned-IsExecutable
