-- ===== src/Coordinator/Engine/Progress.antt =====
-- `_execute_dag` of services/workflow-coordinator/src/changeops_workflow_coordinator/engine.py ends,
-- and a validated plan is never blocked.
use enterprise_change_ops.Base.{
  ℕ, zero, suc, ◌<◌, String, string_eq, true, if◌then◌else◌, ◌≡◌, ◌⊎◌, inl, inr, refl, sym, ◌∙◌,
  subst, ap, some, some_inj, List, [], ◌∷◌, map, keep, any, length, All, In, ok, arith, Ends,
  bind-Ends, both-Ends, pure-Ends, if-Ends, pure, contains,
}
use enterprise_change_ops.Base.Dict.{Dict, values}
use enterprise_change_ops.Base.Distinct.{IsDistinct, put_all-own}
use enterprise_change_ops.Contracts.Models.{RemediationStep, RemediationPlan}
use enterprise_change_ops.Contracts.Canonical.{Codec}
use enterprise_change_ops.Contracts.Plans.{validate_step_graph}
use enterprise_change_ops.Coordinator.Models.{WorkflowTaskRecord, WorkflowExecutionRecord}
use enterprise_change_ops.Coordinator.Retry.{RetryPolicy}
use enterprise_change_ops.Coordinator.Engine.World.{Outside, Call}
use enterprise_change_ops.Coordinator.Engine.Dag.{
  put_steps, put_tasks, is_pending, has_succeeded, has_failed, succeeded_ids, first_error, round,
  rounds_of, rounds, execute_dag,
}
use enterprise_change_ops.Coordinator.Engine.Outcomes.{IsFine, require_plan-Ends}
use enterprise_change_ops.Coordinator.Engine.Board.{
  Has, lookup-values, All-In, keep-In, pending_count, put_tasks-IsKeyed, put_tasks-All,
  put_tasks-Has, put_tasks-Has_own,
}
use enterprise_change_ops.Coordinator.Engine.Readiness.{
  IsOpen, IsBoard, IsSome, AreFrom, ready_tasks-IsSome, contains-own,
}
use enterprise_change_ops.Coordinator.Engine.Updates.{HasUpdates, update_record-Ends}
use enterprise_change_ops.Coordinator.Engine.Rounds.{
  AreIn, take_tasks-AreIn, All-from, length-keep, Ran, execute_all-Ran, Ran-IsOpen, Ran-error,
  Ran-less,
}
use enterprise_change_ops.Coordinator.Engine.Failures.{
  task_ids, ready_ids, keyed-IsDistinct, keep-IsDistinct, ready_tasks-StaysDistinct, Keeps,
  Keeps-next, AreTaken, take_tasks-AreTaken, Ran-ids, Ran-All,
}

-- Each step of the plan has a task, each task has a step identifier of its own, and is pending or has
-- succeeded.
pub record IsExecutable (plan : RemediationPlan) (r : WorkflowExecutionRecord) : Type 0 where
  pub validated : validate_step_graph plan ≡ ok plan
  pub planned : r.plan ≡ some plan
  pub distinct_tasks : IsDistinct (map (λ (t : WorkflowTaskRecord). t.step_id) r.tasks)
  pub open_tasks : All IsOpen r.tasks
  pub covered :
      (z : RemediationStep)
      → In z plan.steps
      → (t : WorkflowTaskRecord) × In t r.tasks × (t.step_id ≡ z.step_id)

-- The recorded error code is that of a task of the record that failed.
abbrev pub HasFailure : WorkflowExecutionRecord → Type 0
HasFailure r =
    (f : WorkflowTaskRecord) × In f r.tasks
    × (has_failed f ≡ true)
    × (r.last_error_code ≡ f.error_code)
    × ((code : String) × (f.error_code ≡ some code))

-- The tasks are those of the record before. All succeeded, or one failed and its error code is
-- recorded.
abbrev pub IsExecuted : WorkflowExecutionRecord → WorkflowExecutionRecord → Type 0
IsExecuted r r' = Keeps r r' × (All (λ t. has_succeeded t ≡ true) r'.tasks ⊎ HasFailure r')

-- Each task of the dictionary is one of the list.
abbrev AreKnown : List WorkflowTaskRecord → Dict String WorkflowTaskRecord → Type 0
AreKnown ts d = All (λ t. contains (task_ids ts) t.step_id ≡ true) (values d)

module _ (codec : Codec) (policy : RetryPolicy) (outside : Outside) where
  open outside use {World}

  -- What holds before each turn of the loop that was entered with the first record.
  abbrev IsUnderway :
      WorkflowExecutionRecord
      → RemediationPlan
      → WorkflowExecutionRecord
      → Dict String WorkflowTaskRecord
      → Type 0
  IsUnderway first plan r d = IsBoard plan d × AreIn d r.tasks × AreKnown r.tasks d × Keeps first r

  none_pending :
      (d : Dict String WorkflowTaskRecord) (ts : List WorkflowTaskRecord)
      → All IsOpen (values d)
      → keep is_pending (values d) ≡ []
      → AreIn d ts
      → All (λ t. has_succeeded t ≡ true) ts
  none_pending d [] open_tasks none_left h = tt
  none_pending d (t ∷ ts) open_tasks none_left (i, h) = (
    elim (All-In IsOpen t (values d) open_tasks i) [
      | inl p ↦ elim (subst (In t) none_left (keep-In is_pending t (values d) i p)) [ ]
      | inr s ↦ s
    ],
    none_pending d ts open_tasks none_left h,
  )

  IsBoard-next :
      (plan : RemediationPlan) (d : Dict String WorkflowTaskRecord) (ts : List WorkflowTaskRecord)
      → IsBoard plan d
      → All IsOpen ts
      → IsBoard plan (put_tasks ts d)
  IsBoard-next plan d ts board h = record {
    keyed = put_tasks-IsKeyed ts d board.keyed;
    open_tasks = put_tasks-All IsOpen ts d h board.open_tasks;
    covers = λ z i. put_tasks-Has z.step_id ts d (board.covers z i);
  }

  module _ (first : WorkflowExecutionRecord) (plan : RemediationPlan)
      (steps : Dict String RemediationStep) where
    -- What the next turn of the loop is given.
    abbrev IsNext :
        Dict String WorkflowTaskRecord
        → (WorkflowExecutionRecord
            → Dict String WorkflowTaskRecord
            → Call World WorkflowExecutionRecord)
        → Type 0
    IsNext d again =
        (r' : WorkflowExecutionRecord) (d' : Dict String WorkflowTaskRecord)
        → IsUnderway first plan r' d'
        → pending_count d' < pending_count d
        → Ends (IsExecuted first) IsFine (again r' d')

    -- A result that failed is in the record after the round.
    failed_stays :
        (d : Dict String WorkflowTaskRecord) (ps : List (WorkflowTaskRecord × RemediationStep))
        (before results tasks : List WorkflowTaskRecord) (f : WorkflowTaskRecord)
        → Ran codec policy outside ps results
        → IsDistinct (ready_ids ps)
        → AreFrom (keep is_pending (values d)) ps
        → AreKnown before d
        → AreTaken (put_tasks results d) before tasks
        → In f results
        → In f tasks
    failed_stays d ps before results tasks f ran distinct among known taken i =
        taken.1 f
          (put_all-own (λ (x : WorkflowTaskRecord). x.step_id) f results d
            (subst IsDistinct (sym (Ran-ids codec policy outside ps results ran)) distinct) i)
          (All-In (λ (t : WorkflowTaskRecord). contains (task_ids before) t.step_id ≡ true) f
            results
            (Ran-All codec policy outside (λ k. contains (task_ids before) k ≡ true) d ps results
              known among ran)
            i)

    -- The end of a round, from the results of its tasks.
    after_round-Ends :
        (again : WorkflowExecutionRecord
          → Dict String WorkflowTaskRecord
          → Call World WorkflowExecutionRecord)
        (d : Dict String WorkflowTaskRecord) (p : WorkflowTaskRecord × RemediationStep)
        (ps : List (WorkflowTaskRecord × RemediationStep)) (before : WorkflowExecutionRecord)
        (results tasks : List WorkflowTaskRecord) (r : WorkflowExecutionRecord)
        → IsUnderway first plan before d
        → AreFrom (keep is_pending (values d)) (p ∷ ps)
        → IsDistinct (ready_ids (p ∷ ps))
        → Ran codec policy outside (p ∷ ps) results
        → AreIn (put_tasks results d) tasks × AreTaken (put_tasks results d) before.tasks tasks
        → HasUpdates codec outside
            (record before { tasks = tasks; last_error_code = first_error results })
            r
        → IsNext d again
        → Ends
            (IsExecuted first)
            IsFine
            (if any has_failed results then pure r else again r (put_tasks results d))
    after_round-Ends again d p ps before results tasks r (board, _, known, since) among distinct ran
          (kept, taken) (v, (now, e)) next =
        let same : r.tasks ≡ tasks = ap (λ (x : WorkflowExecutionRecord). x.tasks) e in
        let stays : Keeps first r = Keeps-next first before r since (
          ap task_ids same ∙ taken.0,
          ap (λ (x : WorkflowExecutionRecord). x.plan) e,
          ap (λ (x : WorkflowExecutionRecord). x.tenant_id) e,
        ) in
        if-Ends (IsExecuted first) IsFine (any has_failed results)
          (λ failed.
            let (f, i, is_failed, found, coded) =
              Ran-error codec policy outside (p ∷ ps) results ran failed in
            pure-Ends (
              stays,
              inr (
                f,
                subst (In f) (sym same) (
                    failed_stays d (p ∷ ps) before.tasks results tasks f ran distinct among known
                      taken i),
                is_failed,
                ap (λ (x : WorkflowExecutionRecord). x.last_error_code) e ∙ found,
                coded,
              ),
            ))
          λ none_failed.
            next r (put_tasks results d)
              (
                IsBoard-next plan d results board
                    (Ran-IsOpen codec policy outside (p ∷ ps) results ran none_failed),
                subst (AreIn (put_tasks results d)) (sym same) kept,
                subst
                    (λ ks.
                      All (λ (t : WorkflowTaskRecord). contains ks t.step_id ≡ true)
                        (values (put_tasks results d)))
                    (sym (ap task_ids same ∙ taken.0))
                    (put_tasks-All
                      (λ (t : WorkflowTaskRecord).
                        contains (task_ids before.tasks) t.step_id ≡ true)
                      results d
                      (Ran-All codec policy outside (λ k. contains (task_ids before.tasks) k ≡ true)
                        d (p ∷ ps) results known among ran)
                      known),
                stays,
              )
              (Ran-less codec policy outside d p ps results board.keyed among ran)

    round-Ends :
        (again : WorkflowExecutionRecord
          → Dict String WorkflowTaskRecord
          → Call World WorkflowExecutionRecord)
        (r : WorkflowExecutionRecord) (d : Dict String WorkflowTaskRecord)
        (ready : List (WorkflowTaskRecord × RemediationStep))
        → IsUnderway first plan r d
        → IsSome ready
        → AreFrom (keep is_pending (values d)) ready
        → IsDistinct (ready_ids ready)
        → IsNext d again
        → Ends (IsExecuted first) IsFine (round codec policy outside steps again r d ready)
    round-Ends again r d [] here is_some among distinct next = elim is_some [ ]
    round-Ends again r d (p ∷ ps) (board, kept, known, since) is_some among distinct next =
        bind-Ends (execute_all-Ran codec policy outside r (p ∷ ps)) λ results ran.
          bind-Ends
            (both-Ends
              (take_tasks-AreIn World (put_tasks results d) r.tasks
                (put_tasks-IsKeyed results d board.keyed))
              (take_tasks-AreTaken World (put_tasks results d) r.tasks
                (put_tasks-IsKeyed results d board.keyed)))
            λ tasks in_place.
              bind-Ends
                (update_record-Ends codec outside r
                  (record r { tasks = tasks; last_error_code = first_error results }))
                λ r' updated.
                  after_round-Ends again d p ps r results tasks r' (board, kept, known, since) among
                    distinct ran in_place updated next

  rounds_of-Ends :
      (first : WorkflowExecutionRecord) (plan : RemediationPlan)
      (again : WorkflowExecutionRecord
        → Dict String WorkflowTaskRecord
        → Call World WorkflowExecutionRecord)
      (r : WorkflowExecutionRecord) (d : Dict String WorkflowTaskRecord)
      (ts : List WorkflowTaskRecord)
      → validate_step_graph plan ≡ ok plan
      → IsUnderway first plan r d
      → keep is_pending (values d) ≡ ts
      → IsNext first plan (put_steps plan.steps []) d again
      → Ends
          (IsExecuted first)
          IsFine
          (rounds_of codec policy outside (put_steps plan.steps []) again r d ts)
  rounds_of-Ends first plan again r d [] valid (board, kept, known, since) waiting next =
      pure-Ends (since, inl (none_pending d r.tasks board.open_tasks waiting kept))
  rounds_of-Ends first plan again r d (t ∷ ts) valid (board, kept, known, since) waiting next =
      bind-Ends
        (both-Ends (ready_tasks-IsSome World plan d t ts valid board waiting)
          (ready_tasks-StaysDistinct (put_steps plan.steps []) (succeeded_ids d) World (t ∷ ts)))
        λ ready (chosen, distinct).
          round-Ends first plan (put_steps plan.steps []) again r d ready
            (board, kept, known, since) chosen.0
            (subst (λ xs. AreFrom xs ready) (sym waiting) chosen.1)
            (distinct.1 (
              subst (λ xs. IsDistinct (task_ids xs)) waiting
                (keep-IsDistinct is_pending (values d) (keyed-IsDistinct d board.keyed))))
            next

  rounds-Ends :
      (first : WorkflowExecutionRecord) (plan : RemediationPlan) (fuel : ℕ)
      (r : WorkflowExecutionRecord) (d : Dict String WorkflowTaskRecord)
      → validate_step_graph plan ≡ ok plan
      → IsUnderway first plan r d
      → pending_count d < fuel
      → Ends
          (IsExecuted first)
          IsFine
          (rounds codec policy outside (put_steps plan.steps []) fuel r d)
  unfolding rounds
  rounds-Ends first plan zero r d valid here enough = absurd (omega (arith, enough))
  rounds-Ends first plan (suc fuel) r d valid here enough =
      rounds_of-Ends first plan _ r d (keep is_pending (values d)) valid here refl
        λ r' d' h less. rounds-Ends first plan fuel r' d' valid h (omega (arith, less, enough))

  -- The fuel of `execute_dag`.
  abbrev turns : WorkflowExecutionRecord → ℕ
  turns r = suc (length (values (put_tasks r.tasks [])))

  executable-IsUnderway :
      (plan : RemediationPlan) (r : WorkflowExecutionRecord)
      → IsExecutable plan r
      → IsUnderway r plan r (put_tasks r.tasks [])
  executable-IsUnderway plan r h =
      let keyed = put_tasks-IsKeyed r.tasks [] tt in
      (
        record {
          keyed = keyed;
          open_tasks = put_tasks-All IsOpen r.tasks [] h.open_tasks tt;
          covers = λ z i.
              let (t, it, e) = h.covered z i in
              subst (λ k. Has k (put_tasks r.tasks [])) e (put_tasks-Has_own t r.tasks [] it);
        },
        All-from _ r.tasks λ t i.
            (lookup-values t.step_id t _ keyed (
              put_all-own (λ (x : WorkflowTaskRecord). x.step_id) t r.tasks [] h.distinct_tasks
                i)).0,
        put_tasks-All (λ (t : WorkflowTaskRecord). contains (task_ids r.tasks) t.step_id ≡ true)
            r.tasks [] (All-from _ r.tasks λ t i. contains-own t r.tasks i) tt,
        (refl, refl, refl),
      )

  -- The execution of a plan ends, whatever the gateway answers, where the record has the plan, the plan
  -- was validated, each of its steps has a task, the tasks' identifiers are distinct and each task is
  -- pending or has succeeded. What it returns has the tasks of the record, by their identifiers, its
  -- plan and its tenant; all tasks succeeded, or one failed and the recorded error code is the code of
  -- that task. An error that it raises is neither DAG_PROGRESS_BLOCKED nor a lack of fuel.
  pub execute_dag-IsExecuted :
      (plan : RemediationPlan) (r : WorkflowExecutionRecord)
      → IsExecutable plan r
      → Ends (IsExecuted r) IsFine (execute_dag codec policy outside r)
  unfolding execute_dag
  execute_dag-IsExecuted plan r h = bind-Ends (require_plan-Ends codec outside r) λ found e.
      subst
        (λ (q : RemediationPlan).
          Ends (IsExecuted r) IsFine
            (rounds codec policy outside (put_steps q.steps []) (turns r) r (put_tasks r.tasks [])))
        (some_inj (sym h.planned ∙ e))
        (rounds-Ends r plan (turns r) r (put_tasks r.tasks []) h.validated
          (executable-IsUnderway plan r h)
          (omega (arith, length-keep is_pending (values (put_tasks r.tasks [])))))
