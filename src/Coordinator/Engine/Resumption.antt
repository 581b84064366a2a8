-- ===== src/Coordinator/Engine/Resumption.antt =====
-- How an approved workflow ends: the approved branch of `resume_approval`
-- (services/workflow-coordinator/src/changeops_workflow_coordinator/engine.py).
use enterprise_change_ops.Base.{
  ap, true, false, ◌==◌, ◌≡◌, ◌⊎◌, inl, inr, sym, subst, not, All, Ends, bind-Ends, if-Ends,
  pure-Ends, weaken-Ends, raise_if, Bool, [],
}
use enterprise_change_ops.Contracts.Enums.{WorkflowState, state_eq}
use enterprise_change_ops.Contracts.Models.{RemediationPlan, ChangeRecord}
use enterprise_change_ops.Contracts.Canonical.{Codec}
use enterprise_change_ops.Coordinator.Models.{WorkflowRuntimeStatus, WorkflowExecutionRecord}
use enterprise_change_ops.Coordinator.Retry.{RetryPolicy}
use enterprise_change_ops.Coordinator.Engine.World.{EngineError, permanent, Outside, State}
use enterprise_change_ops.Coordinator.Engine.Dag.{has_succeeded}
use enterprise_change_ops.Coordinator.Engine.Approvals.{advance, resume_approved}
use enterprise_change_ops.Coordinator.Engine.Outcomes.{IsFine, Any}
use enterprise_change_ops.Coordinator.Engine.Readiness.{IsOpen}
use enterprise_change_ops.Coordinator.Engine.Failures.{task_ids, Keeps, Keeps-next, In-failed}
use enterprise_change_ops.Coordinator.Engine.Updates.{transition_to-Ends, set_runtime_status-Ends}
use enterprise_change_ops.Coordinator.Engine.Progress.{
  IsExecutable, IsExecuted, execute_dag-IsExecuted,
}
use enterprise_change_ops.Coordinator.Engine.Capture.{
  IsExecutable-same, capture_snapshots-IsExecutable,
}
use enterprise_change_ops.Coordinator.Engine.Settlement.{IsRolledBack}
use enterprise_change_ops.Coordinator.Engine.Verified.{AllVerified}
use enterprise_change_ops.Coordinator.Engine.Completion.{
  IsSettled, IsRolledBack-since, settle-IsSettled,
}

raise_if-Ends :
    (World : Type 0) (b : Bool) (e : EngineError)
    → IsFine e
    → Ends {S = State World} Any IsFine (raise_if b e)
raise_if-Ends World true e h = record { from = λ s. h }
raise_if-Ends World false e h = record { from = λ s. tt }

module _ (codec : Codec) (policy : RetryPolicy) (outside : Outside) where
  open outside use {World}

  -- The workflow completed with the tasks, the plan and the tenant of the record before, every task
  -- succeeded and verified, or it was rolled back.
  abbrev pub IsResumed : WorkflowExecutionRecord → WorkflowExecutionRecord → Type 0
  IsResumed r r' =
      ((r'.status ≡ WorkflowRuntimeStatus.completed)
        × Keeps r r'
        × All (λ t. has_succeeded t ≡ true) r'.tasks
        × AllVerified codec policy outside r')
      ⊎ IsRolledBack codec outside r r'

  settled-IsResumed :
      (first r r' : WorkflowExecutionRecord)
      → Keeps first r
      → IsExecuted r r'
      → (r'' : WorkflowExecutionRecord) → IsSettled codec policy outside r' r''
      → IsResumed first r''
  settled-IsResumed first r r' since (stays, executed) r'' (inr back) = inr (
      IsRolledBack-since codec policy outside first r' r'' (Keeps-next first r r' since stays) back)
  settled-IsResumed first r r' since (stays, inl all) r''
        (inl (completed, same, _, after, verified)) =
      inl (
        completed,
        Keeps-next first r r'' since (Keeps-next r r' r'' stays after),
        subst (All (λ t. has_succeeded t ≡ true)) (sym same) all,
        verified,
      )
  settled-IsResumed first r r' since (stays, inr (f, i, is_failed, _, _)) r''
        (inl (completed, same, none_failed, _, _)) =
      let some_failed = In-failed f r'.tasks i is_failed in absurd cc

  advance-Ends :
      (r : WorkflowExecutionRecord) (change : ChangeRecord) (source target : WorkflowState)
      → Ends Any IsFine (advance codec policy outside r change source target)
  advance-Ends r change source target =
      if-Ends Any IsFine (change.status == source)
        (λ moved. transition_to-Ends codec outside r target []) λ stays. pure-Ends tt

  -- An approved workflow ends, whatever the systems answer, where the record can be executed: its plan
  -- was validated, each step has a task, the tasks' identifiers are distinct and each is pending or has
  -- succeeded. What is returned has the tasks of the record, by their identifiers, its plan and its
  -- tenant, and is COMPLETED with every task succeeded and verified (its step has a new field, and in
  -- some state of the world `verify` for the task's system and that field answers with a result that
  -- passed), or FAILED with every task rolled back and restored (in some state of the world `restore`
  -- for the task's snapshot succeeds, and `configuration_hash` right after answers with the hash of
  -- that snapshot); or it is in NEEDS_ATTENTION. An error that is raised is neither
  -- DAG_PROGRESS_BLOCKED nor a lack of fuel, and a lack of fuel is not caught on the way.
  pub resume_approved-IsResumed :
      (plan : RemediationPlan) (r : WorkflowExecutionRecord) (change : ChangeRecord)
      → IsExecutable plan r
      → Ends (IsResumed r) IsFine (resume_approved codec policy outside r change)
  unfolding resume_approved
  resume_approved-IsResumed plan r change h =
      bind-Ends (advance-Ends r change WorkflowState.awaiting_approval WorkflowState.approved)
        λ c₁ _. bind-Ends (advance-Ends r c₁ WorkflowState.approved WorkflowState.executing) λ c₂ _.
          bind-Ends
            (raise_if-Ends World (not (c₂.status == WorkflowState.executing))
              (permanent "CHANGE_NOT_EXECUTABLE") λ e. cc)
            λ u _.
              bind-Ends (set_runtime_status-Ends codec outside r WorkflowRuntimeStatus.executing _)
                λ executing (status, tasks, planned, tenant).
                  bind-Ends
                    (capture_snapshots-IsExecutable codec policy outside plan executing (
                      IsExecutable-same plan r executing h (ap task_ids tasks, planned, tenant)
                        (subst (All IsOpen) (sym tasks) h.open_tasks)))
                    λ captured (can_run, kept).
                      bind-Ends (execute_dag-IsExecuted codec policy outside plan captured can_run)
                        λ executed done.
                          weaken-Ends
                            (settled-IsResumed r captured executed
                              (Keeps-next r executing captured (ap task_ids tasks, planned, tenant)
                                kept)
                              done)
                            (settle-IsSettled codec policy outside executed)
