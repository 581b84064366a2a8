-- ===== src/Coordinator/Engine/Readiness.antt =====
-- Why a round of `_execute_dag` finds a task to run
-- (services/workflow-coordinator/src/changeops_workflow_coordinator/engine.py): some pending step has
-- all its dependencies done, in a plan that was validated.
use enterprise_change_ops.Base.{
  suc, String, string_eq, Bool, true, false, if◌then◌else◌, ◌≡◌, ◌⊎◌, inl, inr, refl, sym, ◌∙◌,
  subst, ap, some, some_inj, Option-cases, Bool-cases, List, [], ◌∷◌, map, keep, contains, length,
  All, In, ◌==◌, ok, arith, Ends, bind-Ends, or_raise-Ends, pure, pure-Ends, weaken-Ends,
}
use enterprise_change_ops.Base.Dict.{Dict, lookup, insert, values, lookup-insert}
use enterprise_change_ops.Base.Distinct.{IsDistinct, to_set-IsDistinct, put_all-own}
use enterprise_change_ops.Contracts.Models.{RemediationStep, RemediationPlan}
use enterprise_change_ops.Contracts.Plans.{validate_step_graph}
use enterprise_change_ops.Contracts.Plans.Progress.{validate_step_graph-progress}
use enterprise_change_ops.Coordinator.Models.{WorkflowTaskRecord}
use enterprise_change_ops.Coordinator.Engine.World.{key_error, State}
use enterprise_change_ops.Coordinator.Engine.Dag.{
  put_steps, is_pending, has_succeeded, succeeded_ids, ready_tasks, is_subset_of,
}
use enterprise_change_ops.Coordinator.Engine.Outcomes.{IsFine}
use enterprise_change_ops.Coordinator.Engine.Board.{
  IsKeyed, Has, values-lookup, lookup-values, keep-In, In-keep, All-In,
}

abbrev ids : List RemediationStep → List String
ids = map (λ step. step.step_id)

length-ids : (xs : List RemediationStep) → length (ids xs) ≡ length xs
length-ids [] = refl
length-ids (x ∷ xs) = ap suc (length-ids xs)

plan-IsDistinct :
    (plan : RemediationPlan) → validate_step_graph plan ≡ ok plan → IsDistinct (ids plan.steps)
unfolding validate_step_graph
plan-IsDistinct plan h = to_set-IsDistinct (ids plan.steps) (ground (arith, length-ids plan.steps))

-- What is stored is a step under its identifier.
put_steps-In :
    (k : String) (z : RemediationStep) (xs : List RemediationStep) (d : Dict String RemediationStep)
    → lookup k (put_steps xs d) ≡ some z
    → (In z xs × (z.step_id ≡ k)) ⊎ (lookup k d ≡ some z)
put_steps-In k z [] d h = inr h
put_steps-In k z (x ∷ xs) d h = elim (put_steps-In k z xs (insert x.step_id x d) h) [
  | inl (i, e) ↦ inl (inr i, e)
  | inr found ↦ elim (Bool-cases (x.step_id == k)) [
    | inl same ↦
        let e : x ≡ z = some_inj (ground (arith, lookup-insert x.step_id k x d)) in
        inl (
          inl (sym e),
          ap (λ (y : RemediationStep). y.step_id) (sym e) ∙ (string_eq.same_iff x.step_id k).0 same,
        )
    | inr other ↦ inr (ground (arith, lookup-insert x.step_id k x d))
  ]
]

pub contains-ids :
    (ts : List WorkflowTaskRecord) (k : String)
    → contains (map (λ t. t.step_id) ts) k ≡ true
    → (t : WorkflowTaskRecord) × In t ts × (t.step_id ≡ k)
contains-ids [] k h = absurd cc
contains-ids (t ∷ ts) k h = elim (Bool-cases (k == t.step_id)) [
  | inl same ↦ (t, inl refl, sym ((string_eq.same_iff k t.step_id).0 same))
  | inr other ↦ let (u, i, e) = contains-ids ts k (ground arith) in (u, inr i, e)
]

pub contains-own :
    (t : WorkflowTaskRecord) (ts : List WorkflowTaskRecord)
    → In t ts
    → contains (map (λ (t : WorkflowTaskRecord). t.step_id) ts) t.step_id ≡ true
contains-own t [] i = elim i [ ]
contains-own t (u ∷ ts) (inl e) =
    ground
      (arith, string_eq.same_iff t.step_id u.step_id, ap (λ (x : WorkflowTaskRecord). x.step_id) e)
contains-own t (u ∷ ts) (inr i) = ground (arith, contains-own t ts i)

-- A pending task and a succeeded one do not share a key.
succeeded_ids-pending :
    (d : Dict String WorkflowTaskRecord) (t : WorkflowTaskRecord)
    → IsKeyed d
    → In t (values d)
    → is_pending t ≡ true
    → contains (succeeded_ids d) t.step_id ≡ false
succeeded_ids-pending d t keyed i p = elim (Bool-cases (contains (succeeded_ids d) t.step_id)) [
  | inr absent ↦ absent
  | inl present ↦
      let (u, j, e) = contains-ids (keep has_succeeded (values d)) t.step_id present in
      let (k, s) = In-keep has_succeeded u (values d) j in
      let same : t ≡ u =
        some_inj (sym (values-lookup t d keyed i) ∙ rw (← e) (values-lookup u d keyed k)) in
      absurd (ground (arith, ap is_pending same, p, s))
]

-- Every task is pending or has succeeded.
abbrev pub IsOpen : WorkflowTaskRecord → Type 0
IsOpen t = (is_pending t ≡ true) ⊎ (has_succeeded t ≡ true)

-- The task of a step that is not done is pending.
pending_task :
    (d : Dict String WorkflowTaskRecord) (k : String)
    → IsKeyed d
    → All IsOpen (values d)
    → Has k d
    → contains (succeeded_ids d) k ≡ false
    → (t : WorkflowTaskRecord) × In t (keep is_pending (values d)) × (t.step_id ≡ k)
pending_task d k keyed open_tasks (t, found) absent =
    let (i, e) = lookup-values k t d keyed found in
    elim (All-In IsOpen t (values d) open_tasks i) [
      | inl p ↦ (t, keep-In is_pending t (values d) i p, e)
      | inr s ↦ absurd (
          ground (
            arith,
            contains-own t (keep has_succeeded (values d)) (keep-In has_succeeded t (values d) i s),
            e,
            absent,
          ))
    ]

-- The tasks that are run are among the given ones.
abbrev pub AreFrom : List WorkflowTaskRecord → List (WorkflowTaskRecord × RemediationStep) → Type 0
AreFrom ts = All (λ p. In p.0 ts)

abbrev pub IsSome : {A : Type 0} → List A → Type 0
IsSome [] = ⊥
IsSome (x ∷ xs) = Unit

AreFrom-more :
    (t : WorkflowTaskRecord) (ts : List WorkflowTaskRecord)
    (ps : List (WorkflowTaskRecord × RemediationStep))
    → AreFrom ts ps
    → AreFrom (t ∷ ts) ps
AreFrom-more t ts [] h = tt
AreFrom-more t ts (p ∷ ps) (i, h) = (inr i, AreFrom-more t ts ps h)

module _ (steps : Dict String RemediationStep) (done : List String) where
  -- The tasks to run are among the given ones, and are not none where one of those may run.
  abbrev Chosen : List WorkflowTaskRecord → List (WorkflowTaskRecord × RemediationStep) → Type 0
  Chosen ts ps =
      AreFrom ts ps
      × ((u : WorkflowTaskRecord) (z : RemediationStep)
          → In u ts
          → lookup u.step_id steps ≡ some z
          → is_subset_of done z.depends_on ≡ true
          → IsSome ps)

  Chosen-next :
      (t : WorkflowTaskRecord) (step : RemediationStep) (ts : List WorkflowTaskRecord)
      (ps : List (WorkflowTaskRecord × RemediationStep)) (b : Bool)
      → lookup t.step_id steps ≡ some step
      → is_subset_of done step.depends_on ≡ b
      → Chosen ts ps
      → Chosen (t ∷ ts) (if b then (t, step) ∷ ps else ps)
  Chosen-next t step ts ps true found h (among, some_run) =
      ((inl refl, AreFrom-more t ts ps among), λ u z i e q. tt)
  Chosen-next t step ts ps false found h (among, some_run) =
      (AreFrom-more t ts ps among, λ u z i e q. here u z i e q)
    where
      here :
          (u : WorkflowTaskRecord) (z : RemediationStep)
          → In u (t ∷ ts)
          → lookup u.step_id steps ≡ some z
          → is_subset_of done z.depends_on ≡ true
          → IsSome ps
      here u z (inl same) e q =
          let other : step ≡ z =
            some_inj (
              sym found ∙ ap (λ (x : WorkflowTaskRecord). lookup x.step_id steps) (sym same) ∙ e) in
          absurd (
            ground
              (arith, ap (λ (x : RemediationStep). is_subset_of done x.depends_on) other, h, q))
      here u z (inr i) e q = some_run u z i e q

  pub ready_tasks-Chosen :
      (World : Type 0) (ts : List WorkflowTaskRecord)
      → Ends {S = State World} (Chosen ts) IsFine (ready_tasks {World = World} steps done ts)
  ready_tasks-Chosen World [] = pure-Ends (tt, λ u z i e q. i)
  ready_tasks-Chosen World (t ∷ ts) =
      bind-Ends (or_raise-Ends IsFine (lookup t.step_id steps) key_error tt) λ step found.
        bind-Ends
          {f = λ rest. pure (if is_subset_of done step.depends_on then (t, step) ∷ rest else rest)}
          (ready_tasks-Chosen World ts)
          λ rest h.
            pure-Ends (Chosen-next t step ts rest (is_subset_of done step.depends_on) found refl h)

-- What holds of the dictionary before each round.
pub record IsBoard (plan : RemediationPlan) (d : Dict String WorkflowTaskRecord) : Type 0 where
  pub keyed : IsKeyed d
  pub open_tasks : All IsOpen (values d)
  pub covers : (z : RemediationStep) → In z plan.steps → Has z.step_id d

abbrev Runnable : RemediationPlan → Dict String WorkflowTaskRecord → Type 0
Runnable plan d =
    (u : WorkflowTaskRecord) × ((y : RemediationStep) × In u (keep is_pending (values d))
      × (lookup u.step_id (put_steps plan.steps []) ≡ some y)
      × (is_subset_of (succeeded_ids d) y.depends_on ≡ true))

-- If a pending task has a step in the plan, a task can run.
board-Runnable :
    (plan : RemediationPlan) (d : Dict String WorkflowTaskRecord) (t : WorkflowTaskRecord)
    (z : RemediationStep)
    → validate_step_graph plan ≡ ok plan
    → IsBoard plan d
    → In t (keep is_pending (values d))
    → lookup t.step_id (put_steps plan.steps []) ≡ some z
    → Runnable plan d
unfolding lookup
board-Runnable plan d t z valid board i found =
    elim (put_steps-In t.step_id z plan.steps [] found) [
      | inr absent ↦ absurd cc
      | inl (iz, e) ↦
          let (it, waiting) = In-keep is_pending t (values d) i in
          let undone = succeeded_ids-pending d t board.keyed it waiting in
          let (y, (iy, undone_y, ready)) =
            validate_step_graph-progress plan (succeeded_ids d) z valid iz (rw e undone) in
          let (u, iu, eu) =
            pending_task d y.step_id board.keyed board.open_tasks (board.covers y iy) undone_y in
          (
            u,
            (
              y,
              iu,
              rw eu (
                  put_all-own (λ (x : RemediationStep). x.step_id) y plan.steps []
                    (plan-IsDistinct plan valid) iy),
              ready,
            ),
          )
    ]

-- While a task is pending, a task is ready, or the first pending one is not in the plan.
pub ready_tasks-IsSome :
    (World : Type 0) (plan : RemediationPlan) (d : Dict String WorkflowTaskRecord)
    (t : WorkflowTaskRecord) (ts : List WorkflowTaskRecord)
    → validate_step_graph plan ≡ ok plan
    → IsBoard plan d
    → keep is_pending (values d) ≡ t ∷ ts
    → Ends {S = State World}
        (λ ps. IsSome ps × AreFrom (t ∷ ts) ps)
        IsFine
        (ready_tasks {World = World} (put_steps plan.steps []) (succeeded_ids d) (t ∷ ts))
ready_tasks-IsSome World plan d t ts valid board waiting =
    elim (Option-cases (lookup t.step_id (put_steps plan.steps []))) [
      | inl unknown ↦ record { from = λ s. rw unknown tt }
      | inr (z, found) ↦
          let (u, (y, iu, eu, ready)) =
            board-Runnable plan d t z valid board (rw waiting (inl refl)) found in
          weaken-Ends (λ ps h. (h.1 u y (subst (λ xs. In u xs) waiting iu) eu ready, h.0))
            (ready_tasks-Chosen (put_steps plan.steps []) (succeeded_ids d) World (t ∷ ts))
    ]
