-- ===== src/Coordinator/Engine/Rounds.antt =====
-- What one round of `_execute_dag` does
-- (services/workflow-coordinator/src/changeops_workflow_coordinator/engine.py): every task that it runs
-- ends, and one task less is pending.
use enterprise_change_ops.Base.{
  ◌≤◌, ◌<◌, String, string_eq, Bool, true, false, ◌≡◌, inl, inr, refl, some, List, [], ◌∷◌, keep,
  any, length, All, In, arith, Ends, bind-Ends, or_raise-Ends, pure-Ends, pure,
}
use enterprise_change_ops.Base.Dict.{Dict, lookup, insert, values}
use enterprise_change_ops.Contracts.Models.{RemediationStep}
use enterprise_change_ops.Contracts.Canonical.{Codec}
use enterprise_change_ops.Coordinator.Models.{WorkflowTaskRecord, WorkflowExecutionRecord}
use enterprise_change_ops.Coordinator.Retry.{RetryPolicy}
use enterprise_change_ops.Coordinator.Engine.World.{key_error, Outside, State}
use enterprise_change_ops.Coordinator.Engine.Dag.{
  put_tasks, take_tasks, is_pending, has_failed, first_error, execute_all,
}
use enterprise_change_ops.Coordinator.Engine.Outcomes.{IsFine}
use enterprise_change_ops.Coordinator.Engine.Attempts.{IsAttempted, execute_task-IsAttempted}
use enterprise_change_ops.Coordinator.Engine.Board.{
  IsKeyed, values-lookup, lookup-values, In-keep, pending_count, insert-pending_less,
  put_tasks-pending_count,
}
use enterprise_change_ops.Coordinator.Engine.Readiness.{IsOpen, AreFrom}

-- Each task of the list stands in the dictionary.
abbrev pub AreIn : Dict String WorkflowTaskRecord → List WorkflowTaskRecord → Type 0
AreIn d = All (λ t. In t (values d))

pub take_tasks-AreIn :
    (World : Type 0) (d : Dict String WorkflowTaskRecord) (ts : List WorkflowTaskRecord)
    → IsKeyed d
    → Ends {S = State World} (AreIn d) IsFine (take_tasks {World = World} d ts)
take_tasks-AreIn World d [] keyed = pure-Ends tt
take_tasks-AreIn World d (t ∷ ts) keyed =
    bind-Ends (or_raise-Ends IsFine (lookup t.step_id d) key_error tt) λ task found.
      bind-Ends {f = λ rest. pure (task ∷ rest)} (take_tasks-AreIn World d ts keyed)
        λ rest h. pure-Ends ((lookup-values t.step_id task d keyed found).0, h)

pub All-from :
    (P : WorkflowTaskRecord → Type 0) (ts : List WorkflowTaskRecord)
    → ((t : WorkflowTaskRecord) → In t ts → P t)
    → All P ts
All-from P [] h = tt
All-from P (t ∷ ts) h = (h t (inl refl), All-from P ts λ u i. h u (inr i))

pub length-keep :
    (p : WorkflowTaskRecord → Bool) (ts : List WorkflowTaskRecord) → length (keep p ts) ≤ length ts
length-keep p [] = omega arith
length-keep p (t ∷ ts) = ground (arith, length-keep p ts)

module _ (codec : Codec) (policy : RetryPolicy) (outside : Outside) where
  open outside use {World}

  -- The tasks that a round leaves, one for each that it ran.
  abbrev pub Ran : List (WorkflowTaskRecord × RemediationStep) → List WorkflowTaskRecord → Type 0
  Ran [] [] = Unit
  Ran (p ∷ ps) (t ∷ ts) = IsAttempted policy.maximum_attempts p.0 t × Ran ps ts
  Ran _ _ = ⊥

  pub execute_all-Ran :
      (r : WorkflowExecutionRecord) (ps : List (WorkflowTaskRecord × RemediationStep))
      → Ends (Ran ps) IsFine (execute_all codec policy outside r ps)
  execute_all-Ran r [] = pure-Ends tt
  execute_all-Ran r ((t, step) ∷ ps) =
      bind-Ends (execute_task-IsAttempted codec policy outside r t step) λ result h.
        bind-Ends {f = λ results. pure (result ∷ results)} (execute_all-Ran r ps)
          λ results hs. pure-Ends (h, hs)

  Ran-settled :
      (ps : List (WorkflowTaskRecord × RemediationStep)) (ts : List WorkflowTaskRecord)
      → Ran ps ts
      → All (λ t. is_pending t ≡ false) ts
  Ran-settled [] [] h = tt
  Ran-settled (p ∷ ps) [] h = elim h [ ]
  Ran-settled [] (t ∷ ts) h = elim h [ ]
  Ran-settled (p ∷ ps) (t ∷ ts) ((named, ended, grew, bounded), h) =
      (ground (arith, ended), Ran-settled ps ts h)

  -- Where none failed, all succeeded.
  pub Ran-IsOpen :
      (ps : List (WorkflowTaskRecord × RemediationStep)) (ts : List WorkflowTaskRecord)
      → Ran ps ts
      → any has_failed ts ≡ false
      → All IsOpen ts
  Ran-IsOpen [] [] h none_failed = tt
  Ran-IsOpen (p ∷ ps) [] h none_failed = elim h [ ]
  Ran-IsOpen [] (t ∷ ts) h none_failed = elim h [ ]
  Ran-IsOpen (p ∷ ps) (t ∷ ts) ((named, inl done, grew, bounded), h) none_failed =
      (inr (ground (arith, done)), Ran-IsOpen ps ts h (ground arith))
  Ran-IsOpen (p ∷ ps) (t ∷ ts) ((named, inr (failed, c), grew, bounded), h) none_failed =
      absurd (ground (arith, failed, none_failed))

  -- Where one failed, the error code is that of the first one.
  pub Ran-error :
      (ps : List (WorkflowTaskRecord × RemediationStep)) (ts : List WorkflowTaskRecord)
      → Ran ps ts
      → any has_failed ts ≡ true
      → (f : WorkflowTaskRecord) × In f ts
        × (has_failed f ≡ true)
        × (first_error ts ≡ f.error_code)
        × ((code : String) × (f.error_code ≡ some code))
  Ran-error [] [] h failed = absurd cc
  Ran-error (p ∷ ps) [] h failed = elim h [ ]
  Ran-error [] (t ∷ ts) h failed = elim h [ ]
  Ran-error (p ∷ ps) (t ∷ ts) ((named, inl done, grew, bounded), h) failed =
      let (f, i, is_failed, e, coded) = Ran-error ps ts h (ground (arith, done)) in
      (f, inr i, is_failed, ground (arith, done, e), coded)
  Ran-error (p ∷ ps) (t ∷ ts) ((named, inr (f, (code, e)), grew, bounded), h) failed =
      (t, inl refl, ground (arith, f), ground (arith, f), (code, e))

  -- A round takes a task out of the pending ones.
  pub Ran-less :
      (d : Dict String WorkflowTaskRecord) (p : WorkflowTaskRecord × RemediationStep)
      (ps : List (WorkflowTaskRecord × RemediationStep)) (ts : List WorkflowTaskRecord)
      → IsKeyed d
      → AreFrom (keep is_pending (values d)) (p ∷ ps)
      → Ran (p ∷ ps) ts
      → pending_count (put_tasks ts d) < pending_count d
  Ran-less d p ps [] keyed among h = elim h [ ]
  Ran-less d p ps (t ∷ ts) keyed (i, among) h =
      let (ip, waiting) = In-keep is_pending p.0 (values d) i in
      let (settled, rest) = Ran-settled (p ∷ ps) (t ∷ ts) h in
      omega (
        arith,
        put_tasks-pending_count ts (insert t.step_id t d) rest,
        insert-pending_less t p.0 t.step_id d settled (rw h.0.0 (values-lookup p.0 d keyed ip))
            waiting,
      )
