-- ===== src/Coordinator/Engine/Verified.antt =====
-- What the verification of an executed workflow finds (`_verify` and `_verify_task` of
-- services/workflow-coordinator/src/changeops_workflow_coordinator/engine.py).
use enterprise_change_ops.Base.{
  ℕ, zero, suc, ◌+◌, ◌≤◌, ◌<◌, String, string_eq, Bool, true, false, ◌≡◌, refl, sym, subst, ap, map,
  All, ◌∙◌, none, some, List, [], ◌∷◌, arith, Result, ok, err, Outcome, Ends, bind-Ends,
  or_raise-Ends, pure-Ends, raise-Ends, weaken-Ends, if-Ends, pure,
}
use enterprise_change_ops.Base.Dict.{Dict, lookup}
use enterprise_change_ops.Contracts.Json.{get_field}
use enterprise_change_ops.Contracts.Models.{RemediationStep, RemediationPlan}
use enterprise_change_ops.Contracts.Canonical.{Codec}
use enterprise_change_ops.Coordinator.Models.{SystemId, WorkflowTaskRecord, WorkflowExecutionRecord}
use enterprise_change_ops.Coordinator.Retry.{RetryPolicy, should_retry}
use enterprise_change_ops.Coordinator.Engine.World.{
  EngineError, dependency, key_error, VerificationResult, Outside, Call,
}
use enterprise_change_ops.Coordinator.Engine.Dag.{put_steps}
use enterprise_change_ops.Coordinator.Engine.Verification.{
  verified_note, text_of, after_verify, checks, verify_task, with_steps, verify_all, first_failure,
  verify_workflow,
}
use enterprise_change_ops.Coordinator.Engine.Outcomes.{
  IsFine, client-answers, settled-Ends, record_audit-Ends, require_plan-Ends,
}

module _ (codec : Codec) (policy : RetryPolicy) (outside : Outside) where
  open outside use {World, verify}

  -- The system has answered that it has the expected field.
  abbrev pub Passes : String → SystemId → String → Type 0
  Passes tenant_id system_id expected =
      (w : World) × ((result : VerificationResult) × ((verify system_id tenant_id expected w).0
          ≡ ok result)
        × (result.passed ≡ true))

  -- The system of the task has the new field of the task's step.
  abbrev IsVerifiedFor : String → WorkflowTaskRecord → RemediationStep → Type 0
  IsVerifiedFor tenant_id t step =
      (expected : String) × (text_of (get_field "new_field" step.arguments) ≡ some expected)
      × Passes tenant_id t.system_id expected

  -- The same for the step that the plan has under the identifier of the task.
  abbrev pub IsVerified : RemediationPlan → String → WorkflowTaskRecord → Type 0
  IsVerified plan tenant_id t =
      (step : RemediationStep) × (lookup t.step_id (put_steps plan.steps []) ≡ some step)
      × IsVerifiedFor tenant_id t step

  abbrev pub AllVerified : WorkflowExecutionRecord → Type 0
  AllVerified r =
      (plan : RemediationPlan) × (r.plan ≡ some plan) × All (IsVerified plan r.tenant_id) r.tasks

  retry_lem :
      (attempt fuel : ℕ) (is_transient : Bool)
      → policy.maximum_attempts ≤ suc fuel + attempt
      → should_retry policy is_transient (attempt + 1) ≡ true
      → (0 < fuel) × (policy.maximum_attempts ≤ fuel + (attempt + 1))
  unfolding should_retry
  retry_lem attempt fuel is_transient enough h = ground arith

  after_verify-Ends :
      (R : Type 0) (r : WorkflowExecutionRecord) (task : WorkflowTaskRecord) (expected : String)
      (attempt fuel : ℕ) (again : Call World Bool) (o : Result EngineError VerificationResult)
      → Outcome (λ result. result.passed ≡ true → R) IsFine o
      → policy.maximum_attempts ≤ suc fuel + attempt
      → (0 < fuel
          → policy.maximum_attempts ≤ fuel + (attempt + 1)
          → Ends (λ b. b ≡ true → R) IsFine again)
      → Ends
          (λ b. b ≡ true → R)
          IsFine
          (after_verify codec policy outside r task expected (attempt + 1) again o)
  after_verify-Ends R r task expected attempt fuel again (ok result) fine enough next =
      bind-Ends {f = λ u. pure result.passed}
        (record_audit-Ends codec outside r (verified_note task expected result))
        λ u _. pure-Ends fine
  after_verify-Ends R r task expected attempt fuel again (err (dependency code is_transient)) fine
        enough next =
      if-Ends (λ b. b ≡ true → R) IsFine (should_retry policy is_transient (attempt + 1))
        (λ allowed.
          let (some_left, enough') = retry_lem attempt fuel is_transient enough allowed in
          next some_left enough')
        λ refused. raise-Ends tt
  after_verify-Ends R r task expected attempt fuel again (err e) fine enough next = raise-Ends fine

  checks-Ends :
      (fuel : ℕ) (r : WorkflowExecutionRecord) (task : WorkflowTaskRecord) (expected : String)
      (attempt : ℕ)
      → 0 < fuel
      → policy.maximum_attempts ≤ fuel + attempt
      → Ends
          (λ b. b ≡ true → Passes r.tenant_id task.system_id expected)
          IsFine
          (checks codec policy outside fuel r task expected attempt)
  unfolding checks
  checks-Ends zero r task expected attempt some_left enough = absurd (omega (arith, some_left))
  checks-Ends (suc fuel) r task expected attempt some_left enough =
      bind-Ends
        {f = after_verify codec policy outside r task expected (attempt + 1)
          (checks codec policy outside fuel r task expected (attempt + 1))}
        (settled-Ends (
          weaken-Ends (λ result (w, answered) passed. (w, (result, answered, passed)))
            (client-answers (verify task.system_id r.tenant_id expected))))
        λ o fine.
          after_verify-Ends (Passes r.tenant_id task.system_id expected) r task expected attempt
            fuel _ o fine enough (checks-Ends fuel r task expected (attempt + 1))

  verify_task-Ends :
      (r : WorkflowExecutionRecord) (task : WorkflowTaskRecord) (step : RemediationStep)
      → Ends
          (λ b. b ≡ true → IsVerifiedFor r.tenant_id task step)
          IsFine
          (verify_task codec policy outside r task step)
  unfolding verify_task
  verify_task-Ends r task step =
      bind-Ends
        (or_raise-Ends IsFine (text_of (get_field "new_field" step.arguments))
          (dependency "VERIFICATION_ARGUMENT_MISSING" false) tt)
        λ expected found.
          weaken-Ends (λ b passes is_true. (expected, found, passes is_true))
            (checks-Ends (suc policy.maximum_attempts) r task expected zero (omega arith)
              (omega arith))

  -- The tasks, each with its step.
  abbrev AreWith :
      Dict String RemediationStep
      → List WorkflowTaskRecord
      → List (WorkflowTaskRecord × RemediationStep)
      → Type 0
  AreWith steps ts ps =
      (map (λ (p : WorkflowTaskRecord × RemediationStep). p.0) ps ≡ ts)
      × All (λ (p : WorkflowTaskRecord × RemediationStep). lookup p.0.step_id steps ≡ some p.1) ps

  with_steps-Ends :
      (steps : Dict String RemediationStep) (ts : List WorkflowTaskRecord)
      → Ends (AreWith steps ts) IsFine (with_steps codec policy outside steps ts)
  with_steps-Ends steps [] = pure-Ends (refl, tt)
  with_steps-Ends steps (t ∷ ts) =
      bind-Ends (or_raise-Ends IsFine (lookup t.step_id steps) key_error tt) λ step found.
        bind-Ends {f = λ rest. pure ((t, step) ∷ rest)} (with_steps-Ends steps ts)
          λ rest (same, h). pure-Ends (ap (λ us. t ∷ us) same, (found, h))

  -- Where there is no failure, the steps are verified.
  abbrev AreClear :
      WorkflowExecutionRecord
      → List (WorkflowTaskRecord × RemediationStep)
      → List (WorkflowTaskRecord × Result EngineError Bool)
      → Type 0
  AreClear r ps os =
      first_failure os ≡ none
      → All (λ (p : WorkflowTaskRecord × RemediationStep). IsVerifiedFor r.tenant_id p.0 p.1) ps

  AreClear-next :
      (r : WorkflowExecutionRecord) (t : WorkflowTaskRecord) (step : RemediationStep)
      (ps : List (WorkflowTaskRecord × RemediationStep))
      (os : List (WorkflowTaskRecord × Result EngineError Bool)) (o : Result EngineError Bool)
      → Outcome (λ b. b ≡ true → IsVerifiedFor r.tenant_id t step) IsFine o
      → AreClear r ps os
      → AreClear r ((t, step) ∷ ps) ((t, o) ∷ os)
  AreClear-next r t step ps os (ok true) h rest clear = (h refl, rest clear)
  AreClear-next r t step ps os (ok false) h rest clear = absurd cc
  AreClear-next r t step ps os (err (dependency code b)) h rest clear = absurd cc
  AreClear-next r t step ps os (err e) h rest clear = absurd (cc)

  verify_all-Ends :
      (r : WorkflowExecutionRecord) (ps : List (WorkflowTaskRecord × RemediationStep))
      → Ends (AreClear r ps) IsFine (verify_all codec policy outside r ps)
  verify_all-Ends r [] = pure-Ends λ clear. tt
  verify_all-Ends r ((t, step) ∷ ps) =
      bind-Ends (settled-Ends (verify_task-Ends r t step)) λ o fine.
        bind-Ends {f = λ outcomes. pure ((t, o) ∷ outcomes)} (verify_all-Ends r ps)
          λ os rest. pure-Ends (AreClear-next r t step ps os o fine rest)

  AreWith-IsVerified :
      (plan : RemediationPlan) (tenant_id : String)
      (ps : List (WorkflowTaskRecord × RemediationStep))
      → All
          (λ (p : WorkflowTaskRecord × RemediationStep).
            lookup p.0.step_id (put_steps plan.steps []) ≡ some p.1)
          ps
      → All (λ (p : WorkflowTaskRecord × RemediationStep). IsVerifiedFor tenant_id p.0 p.1) ps
      → All (IsVerified plan tenant_id) (map (λ (p : WorkflowTaskRecord × RemediationStep). p.0) ps)
  AreWith-IsVerified plan tenant_id [] h v = tt
  AreWith-IsVerified plan tenant_id (p ∷ ps) (found, h) (verified, v) =
      ((p.1, found, verified), AreWith-IsVerified plan tenant_id ps h v)

  pub verify_workflow-Ends :
      (r : WorkflowExecutionRecord)
      → Ends
          (λ failure. failure ≡ none → AllVerified r)
          IsFine
          (verify_workflow codec policy outside r)
  unfolding verify_workflow
  verify_workflow-Ends r = bind-Ends (require_plan-Ends codec outside r) λ plan planned.
      bind-Ends (with_steps-Ends (put_steps plan.steps []) r.tasks) λ ps (same, with_steps).
        bind-Ends {f = λ outcomes. pure (first_failure outcomes)} (verify_all-Ends r ps) λ os clear.
          pure-Ends λ none_failed. (
            plan,
            planned,
            subst (All (IsVerified plan r.tenant_id)) same
                (AreWith-IsVerified plan r.tenant_id ps with_steps (clear none_failed)),
          )

  pub AllVerified-same :
      (r r' : WorkflowExecutionRecord)
      → r'.tasks ≡ r.tasks
      → r'.plan ≡ r.plan
      → r'.tenant_id ≡ r.tenant_id
      → AllVerified r
      → AllVerified r'
  AllVerified-same r r' tasks plan tenant (p, planned, all) = (
    p,
    plan ∙ planned,
    subst (λ t. All (IsVerified p t) r'.tasks) (sym tenant)
        (subst (All (IsVerified p r.tenant_id)) (sym tasks) all),
  )
