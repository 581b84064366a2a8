-- ===== src/Coordinator/Engine/Attempts.antt =====
-- How one task of a plan ends: `_execute_task` of
-- services/workflow-coordinator/src/changeops_workflow_coordinator/engine.py.
use enterprise_change_ops.Base.{
  ℕ, zero, suc, ◌+◌, ◌≤◌, ◌<◌, String, Bool, true, ◌≡◌, ◌⊎◌, inl, inr, refl, sym, subst, some,
  Result, ok, err, ◌>>=◌, ◌>>◌, Outcome, Ends, bind-Ends, or_raise-Ends, raise-Ends, if-Ends, arith,
}
use enterprise_change_ops.Contracts.Models.{Timestamp, RemediationPlan, RemediationStep}
use enterprise_change_ops.Contracts.Canonical.{Codec}
use enterprise_change_ops.Coordinator.Models.{
  WorkflowTaskRecord, WorkflowExecutionRecord, succeeded, task_failed, validate_artifacts,
}
use enterprise_change_ops.Coordinator.Retry.{RetryPolicy, should_retry}
use enterprise_change_ops.Coordinator.Engine.World.{
  EngineError, dependency, permanent, GatewayExecutionResult, Outside, Call, client, reading,
}
use enterprise_change_ops.Coordinator.Engine.Records.{Note, record_audit, validated}
use enterprise_change_ops.Coordinator.Engine.Tasks.{
  attempt_call, after_attempt, attempts, execute_task, done_task, failed_task, succeeded_note,
  retried_note, failed_note,
}
use enterprise_change_ops.Coordinator.Engine.Outcomes.{
  IsFine, Any, client-Ends, reading-Ends, settled-Ends, record_audit-Ends, require_plan-Ends,
  validated-Ends,
}

-- The task is the given one after its attempts: it succeeded, or it failed with an error code, and
-- its number of attempts grew, but not beyond what is allowed unless a first attempt was.
abbrev pub IsAttempted : ℕ → WorkflowTaskRecord → WorkflowTaskRecord → Type 0
IsAttempted maximum_attempts task t =
    (t.step_id ≡ task.step_id)
    × ((t.status ≡ succeeded)
        ⊎ ((t.status ≡ task_failed) × ((code : String) × (t.error_code ≡ some code))))
    × (task.attempt_count < t.attempt_count)
    × ((t.attempt_count ≤ maximum_attempts) ⊎ (t.attempt_count ≡ task.attempt_count + 1))

module _ (codec : Codec) (policy : RetryPolicy) (outside : Outside) where
  open outside use {World, clock, execute}

  -- An audit event and then a new state of the task.
  recorded-Ends :
      (r : WorkflowExecutionRecord) (note : Note) (next : Timestamp → WorkflowTaskRecord)
      (Q : WorkflowTaskRecord → Type 0)
      → ((now : Timestamp) → Q (next now))
      → Ends Q IsFine (do
        record_audit codec outside r note
        now ← reading clock
        validated (validate_artifacts (next now)))
  recorded-Ends r note next Q h = bind-Ends (record_audit-Ends codec outside r note) λ u _.
      bind-Ends {f = λ now. validated (validate_artifacts (next now))} (reading-Ends clock) λ now _.
        record {
          from = λ s.
              subst-Outcome (next now) Q (h now) _
                ((validated-Ends codec outside (next now)).from s);
        }
    where
      subst-Outcome :
          (t : WorkflowTaskRecord) (Q : WorkflowTaskRecord → Type 0)
          → Q t
          → (o : Result EngineError WorkflowTaskRecord) → Outcome (λ u. u ≡ t) IsFine o
          → Outcome Q IsFine o
      subst-Outcome t Q q (ok u) e = subst Q (sym e) q
      subst-Outcome t Q q (err e) fine = fine

  attempt_call-Ends :
      (r : WorkflowExecutionRecord) (plan : RemediationPlan) (step : RemediationStep)
      (approval_id : String)
      → Ends Any IsFine (attempt_call codec policy outside r plan step approval_id)
  attempt_call-Ends r plan step approval_id =
      bind-Ends {f = λ now. client (execute r.workflow_execution_id plan step approval_id now)}
        (reading-Ends clock)
        λ now _. client-Ends (execute r.workflow_execution_id plan step approval_id now)

  -- The rest of the loop is enough, and the attempt that is next is allowed or the first one.
  abbrev IsEnough : ℕ → WorkflowTaskRecord → ℕ → Type 0
  IsEnough fuel task attempt =
      (policy.maximum_attempts ≤ fuel + attempt)
      × (task.attempt_count ≤ attempt)
      × ((attempt < policy.maximum_attempts) ⊎ (attempt ≡ task.attempt_count))

  IsAttempted_lem :
      (task : WorkflowTaskRecord) (attempt fuel : ℕ)
      → IsEnough fuel task attempt
      → (task.attempt_count < attempt + 1)
        × ((attempt + 1 ≤ policy.maximum_attempts) ⊎ (attempt + 1 ≡ task.attempt_count + 1))
  IsAttempted_lem task attempt fuel h = ground arith

  retry_lem :
      (task : WorkflowTaskRecord) (attempt fuel : ℕ) (is_transient : Bool)
      → IsEnough (suc fuel) task attempt
      → should_retry policy is_transient (attempt + 1) ≡ true
      → (0 < fuel) × IsEnough fuel task (attempt + 1)
  unfolding should_retry
  retry_lem task attempt fuel is_transient enough h = ground arith

  after_attempt-Ends :
      (r : WorkflowExecutionRecord) (task : WorkflowTaskRecord) (step : RemediationStep)
      (attempt fuel : ℕ) (again : Call World WorkflowTaskRecord)
      (outcome : Result EngineError GatewayExecutionResult)
      → Outcome Any IsFine outcome
      → IsEnough (suc fuel) task attempt
      → ((0 < fuel)
          → IsEnough fuel task (attempt + 1)
          → Ends (IsAttempted policy.maximum_attempts task) IsFine again)
      → Ends
          (IsAttempted policy.maximum_attempts task)
          IsFine
          (after_attempt codec policy outside r task step (attempt + 1) again outcome)
  after_attempt-Ends r task step attempt fuel again (ok result) fine enough h =
      let (grew, bounded) = IsAttempted_lem task attempt (suc fuel) enough in
      recorded-Ends r (succeeded_note task step (attempt + 1) result)
        (done_task task (attempt + 1) result) _ λ now. (refl, inl refl, grew, bounded)
  after_attempt-Ends r task step attempt fuel again (err (dependency code is_transient)) fine enough
        h =
      let (grew, bounded) = IsAttempted_lem task attempt (suc fuel) enough in
      if-Ends (IsAttempted policy.maximum_attempts task) IsFine
        (should_retry policy is_transient (attempt + 1))
        (λ again_allowed.
          let (some_left, enough') =
            retry_lem task attempt fuel is_transient enough again_allowed in
          bind-Ends (record_audit-Ends codec outside r (retried_note task step (attempt + 1) code))
            λ u _. h some_left enough')
        λ refused.
          recorded-Ends r (failed_note task step (attempt + 1) code)
            (failed_task task (attempt + 1) code) _
            λ now. (refl, inr (refl, (code, refl)), grew, bounded)
  after_attempt-Ends r task step attempt fuel again (err e) fine enough h = raise-Ends fine

  attempts-Ends :
      (fuel : ℕ) (r : WorkflowExecutionRecord) (plan : RemediationPlan) (step : RemediationStep)
      (approval_id : String) (task : WorkflowTaskRecord) (attempt : ℕ)
      → 0 < fuel
      → IsEnough fuel task attempt
      → Ends
          (IsAttempted policy.maximum_attempts task)
          IsFine
          (attempts codec policy outside fuel r plan step approval_id task attempt)
  unfolding attempts
  attempts-Ends zero r plan step approval_id task attempt some_left enough = ground arith
  attempts-Ends (suc fuel) r plan step approval_id task attempt some_left enough =
      bind-Ends
        {f = after_attempt codec policy outside r task step (attempt + 1)
          (attempts codec policy outside fuel r plan step approval_id task (attempt + 1))}
        (settled-Ends (attempt_call-Ends r plan step approval_id))
        λ outcome fine.
          after_attempt-Ends r task step attempt fuel _ outcome fine enough
            (attempts-Ends fuel r plan step approval_id task (attempt + 1))

  -- The execution of a task ends, whatever the gateway answers: the task comes back as succeeded, or
  -- as failed with an error code, after one attempt at least, and after no more than the policy allows unless none was left
  -- before. An error that is raised is neither a lack of fuel nor a blocked plan.
  pub execute_task-IsAttempted :
      (r : WorkflowExecutionRecord) (task : WorkflowTaskRecord) (step : RemediationStep)
      → Ends
          (IsAttempted policy.maximum_attempts task)
          IsFine
          (execute_task codec policy outside r task step)
  unfolding execute_task
  execute_task-IsAttempted r task step = bind-Ends (require_plan-Ends codec outside r) λ plan _.
      bind-Ends (or_raise-Ends IsFine r.approval_id (permanent "APPROVAL_ID_MISSING") λ h. cc)
        λ approval_id _.
          attempts-Ends (suc policy.maximum_attempts) r plan step approval_id task
            task.attempt_count (omega arith) (omega arith, omega arith, inr refl)
