-- ===== src/Coordinator/Engine/Completion.antt =====
-- How the verification of an executed workflow decides its end (the end of `resume_approval`,
-- services/workflow-coordinator/src/changeops_workflow_coordinator/engine.py).
use enterprise_change_ops.Base.{
  String, string_eq, false, ◌≡◌, ◌⊎◌, inl, inr, refl, ap, ◌∙◌, Option, none, some, [], any, Ends,
  bind-Ends, weaken-Ends, if-Ends,
}
use enterprise_change_ops.Contracts.Enums.{WorkflowState}
use enterprise_change_ops.Contracts.Canonical.{Codec}
use enterprise_change_ops.Coordinator.Models.{WorkflowRuntimeStatus, WorkflowExecutionRecord}
use enterprise_change_ops.Coordinator.Retry.{RetryPolicy}
use enterprise_change_ops.Coordinator.Engine.World.{Outside}
use enterprise_change_ops.Coordinator.Engine.Dag.{has_failed}
use enterprise_change_ops.Coordinator.Engine.Approvals.{or_failure, after_verification, settle}
use enterprise_change_ops.Coordinator.Engine.Failures.{task_ids, Keeps, Keeps-next}
use enterprise_change_ops.Coordinator.Engine.Outcomes.{IsFine}
use enterprise_change_ops.Coordinator.Engine.Updates.{
  terminal-Ends, set_runtime_status-Ends, transition_to-Ends,
}
use enterprise_change_ops.Coordinator.Engine.Verified.{
  AllVerified, AllVerified-same, verify_workflow-Ends,
}
use enterprise_change_ops.Coordinator.Engine.Settlement.{IsRolledBack, rollback-IsRolledBack}

module _ (codec : Codec) (policy : RetryPolicy) (outside : Outside) where
  -- The workflow completed with the tasks that were executed, none of which failed and all of which are
  -- verified, or it was rolled back.
  abbrev pub IsSettled : WorkflowExecutionRecord → WorkflowExecutionRecord → Type 0
  IsSettled r r' =
      ((r'.status ≡ WorkflowRuntimeStatus.completed)
        × (r'.tasks ≡ r.tasks)
        × (any has_failed r.tasks ≡ false)
        × Keeps r r'
        × AllVerified codec policy outside r')
      ⊎ IsRolledBack codec outside r r'

  pub IsRolledBack-since :
      (first r r' : WorkflowExecutionRecord)
      → Keeps first r
      → IsRolledBack codec outside r r'
      → IsRolledBack codec outside first r'
  IsRolledBack-since first r r' since (inl (failed, stays, back)) =
      inl (failed, Keeps-next first r r' since stays, back)
  IsRolledBack-since first r r' since (inr attention) = inr attention

  after_verification-IsSettled :
      (r r' : WorkflowExecutionRecord) (failure : Option String)
      → any has_failed r.tasks ≡ false
      → r'.tasks ≡ r.tasks
      → Keeps r r'
      → (failure ≡ none → AllVerified codec policy outside r')
      → Ends (IsSettled r) IsFine (after_verification codec policy outside r' failure)
  after_verification-IsSettled r r' (some code) none_failed same since verified =
      weaken-Ends (λ u h. inr (IsRolledBack-since r r' u since h))
        (rollback-IsRolledBack codec outside r' code)
  after_verification-IsSettled r r' none none_failed same since verified =
      bind-Ends (transition_to-Ends codec outside r' WorkflowState.completed []) λ c _.
        weaken-Ends
          (λ u (status, tasks, plan, tenant). inl (
            status,
            tasks ∙ same,
            none_failed,
            Keeps-next r r' u since (ap task_ids tasks, plan, tenant),
            AllVerified-same codec policy outside r' u tasks plan tenant (verified refl),
          ))
          (terminal-Ends codec outside r' WorkflowRuntimeStatus.completed none)

  -- What follows on the execution of an approved plan ends, whatever the systems answer. The workflow
  -- that it returns is COMPLETED with the executed tasks, none of which failed and all of which are
  -- verified, or FAILED with every task rolled back and restored, or in NEEDS_ATTENTION.
  pub settle-IsSettled :
      (r : WorkflowExecutionRecord) → Ends (IsSettled r) IsFine (settle codec policy outside r)
  unfolding settle
  settle-IsSettled r =
      if-Ends (IsSettled r) IsFine (any has_failed r.tasks)
        (λ failed.
          weaken-Ends (λ u h. inr h)
            (rollback-IsRolledBack codec outside r (or_failure r.last_error_code)))
        λ none_failed.
          bind-Ends (transition_to-Ends codec outside r WorkflowState.verifying []) λ c _.
            bind-Ends (set_runtime_status-Ends codec outside r WorkflowRuntimeStatus.verifying none)
              λ r' (status, tasks, plan, tenant).
                bind-Ends (verify_workflow-Ends codec policy outside r') λ failure verified.
                  after_verification-IsSettled r r' failure none_failed tasks
                    (ap task_ids tasks, plan, tenant) verified
