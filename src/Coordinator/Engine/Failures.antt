-- ===== src/Coordinator/Engine/Failures.antt =====
-- Why a failed task of a round is found in the record after it
-- (`_execute_dag` of services/workflow-coordinator/src/changeops_workflow_coordinator/engine.py).
use enterprise_change_ops.Base.{
  String, string_eq, Bool, true, false, if◌then◌else◌, ◌≡◌, inl, inr, refl, sym, ◌∙◌, subst, ap,
  none, some, some_inj, ◌==◌, Bool-cases, List, [], ◌∷◌, map, keep, any, contains, All, In, arith,
  Ends, bind-Ends, or_raise-Ends, pure-Ends, pure,
}
use enterprise_change_ops.Base.Dict.{Dict, lookup, values}
use enterprise_change_ops.Base.Distinct.{IsDistinct}
use enterprise_change_ops.Contracts.Models.{RemediationStep}
use enterprise_change_ops.Contracts.Canonical.{Codec}
use enterprise_change_ops.Coordinator.Models.{WorkflowTaskRecord, WorkflowExecutionRecord}
use enterprise_change_ops.Coordinator.Retry.{RetryPolicy}
use enterprise_change_ops.Coordinator.Engine.World.{key_error, Outside, State}
use enterprise_change_ops.Coordinator.Engine.Dag.{
  take_tasks, is_pending, has_failed, ready_tasks, is_subset_of,
}
use enterprise_change_ops.Coordinator.Engine.Outcomes.{IsFine}
use enterprise_change_ops.Coordinator.Engine.Board.{
  IsKeyed, values-lookup, lookup-values, In-keep, All-In,
}
use enterprise_change_ops.Coordinator.Engine.Readiness.{AreFrom, contains-ids, contains-own}
use enterprise_change_ops.Coordinator.Engine.Rounds.{Ran}

abbrev pub task_ids : List WorkflowTaskRecord → List String
task_ids = map (λ t. t.step_id)

abbrev pub ready_ids : List (WorkflowTaskRecord × RemediationStep) → List String
ready_ids = map (λ p. p.0.step_id)

keyed-fresh :
    (k : String) (d : Dict String WorkflowTaskRecord)
    → IsKeyed d
    → lookup k d ≡ none
    → contains (task_ids (values d)) k ≡ false
keyed-fresh k d keyed fresh = elim (Bool-cases (contains (task_ids (values d)) k)) [
  | inr absent ↦ absent
  | inl present ↦
      let (t, i, e) = contains-ids (values d) k present in
      let found : lookup k d ≡ some t = rw (← e) (values-lookup t d keyed i) in absurd cc
]

pub keyed-IsDistinct :
    (d : Dict String WorkflowTaskRecord) → IsKeyed d → IsDistinct (task_ids (values d))
keyed-IsDistinct [] keyed = tt
keyed-IsDistinct ((k, t) ∷ d) (named, fresh, rest) =
    (rw named (keyed-fresh k d rest fresh), keyed-IsDistinct d rest)

keep-fresh :
    (p : WorkflowTaskRecord → Bool) (k : String) (ts : List WorkflowTaskRecord)
    → contains (task_ids ts) k ≡ false
    → contains (task_ids (keep p ts)) k ≡ false
keep-fresh p k ts fresh = elim (Bool-cases (contains (task_ids (keep p ts)) k)) [
  | inr absent ↦ absent
  | inl present ↦
      let (t, i, e) = contains-ids (keep p ts) k present in
      let found : contains (task_ids ts) k ≡ true =
        rw (← e) (contains-own t ts (In-keep p t ts i).0) in
      absurd cc
]

pub keep-IsDistinct :
    (p : WorkflowTaskRecord → Bool) (ts : List WorkflowTaskRecord)
    → IsDistinct (task_ids ts)
    → IsDistinct (task_ids (keep p ts))
keep-IsDistinct p [] h = tt
keep-IsDistinct p (t ∷ ts) (fresh, rest) = elim (Bool-cases (p t)) [
  | inl held ↦ rw held (keep-fresh p t.step_id ts fresh, keep-IsDistinct p ts rest)
  | inr refused ↦ rw refused (keep-IsDistinct p ts rest)
]

module _ (steps : Dict String RemediationStep) (done : List String) where
  -- Tasks with distinct identifiers leave distinct ones.
  abbrev StaysDistinct :
      List WorkflowTaskRecord → List (WorkflowTaskRecord × RemediationStep) → Type 0
  StaysDistinct ts ps =
      ((k : String) → contains (task_ids ts) k ≡ false → contains (ready_ids ps) k ≡ false)
      × (IsDistinct (task_ids ts) → IsDistinct (ready_ids ps))

  StaysDistinct-next :
      (t : WorkflowTaskRecord) (step : RemediationStep) (ts : List WorkflowTaskRecord)
      (ps : List (WorkflowTaskRecord × RemediationStep)) (b : Bool)
      → StaysDistinct ts ps
      → StaysDistinct (t ∷ ts) (if b then (t, step) ∷ ps else ps)
  StaysDistinct-next t step ts ps true (absent, distinct) =
      (λ k h. ground (arith, absent k, h), λ h. (absent t.step_id h.0, distinct h.1))
  StaysDistinct-next t step ts ps false (absent, distinct) =
      (λ k h. absent k (ground (arith, h)), λ h. distinct h.1)

  pub ready_tasks-StaysDistinct :
      (World : Type 0) (ts : List WorkflowTaskRecord)
      → Ends {S = State World} (StaysDistinct ts) IsFine (ready_tasks {World = World} steps done ts)
  ready_tasks-StaysDistinct World [] = pure-Ends (λ k h. h, λ h. h)
  ready_tasks-StaysDistinct World (t ∷ ts) =
      bind-Ends (or_raise-Ends IsFine (lookup t.step_id steps) key_error tt) λ step found.
        bind-Ends
          {f = λ rest. pure (if is_subset_of done step.depends_on then (t, step) ∷ rest else rest)}
          (ready_tasks-StaysDistinct World ts)
          λ rest h.
            pure-Ends (StaysDistinct-next t step ts rest (is_subset_of done step.depends_on) h)

-- The tasks that are taken from the dictionary for a list.
abbrev pub AreTaken :
    Dict String WorkflowTaskRecord → List WorkflowTaskRecord → List WorkflowTaskRecord → Type 0
AreTaken d ts us =
    (task_ids us ≡ task_ids ts)
    × ((f : WorkflowTaskRecord)
        → lookup f.step_id d ≡ some f
        → contains (task_ids ts) f.step_id ≡ true
        → In f us)

AreTaken-next :
    (d : Dict String WorkflowTaskRecord) (t u : WorkflowTaskRecord)
    (ts us : List WorkflowTaskRecord)
    → IsKeyed d
    → lookup t.step_id d ≡ some u
    → AreTaken d ts us
    → AreTaken d (t ∷ ts) (u ∷ us)
AreTaken-next d t u ts us keyed found (same, taken) = (
  ground (arith, (lookup-values t.step_id u d keyed found).1, same),
  λ f own known. here f own known,
)
  where
    here :
        (f : WorkflowTaskRecord)
        → lookup f.step_id d ≡ some f
        → contains (task_ids (t ∷ ts)) f.step_id ≡ true
        → In f (u ∷ us)
    here f own known = elim (Bool-cases (f.step_id == t.step_id)) [
      | inl e ↦ inl (
          some_inj
            (sym own ∙ ap (λ k. lookup k d) ((string_eq.same_iff f.step_id t.step_id).0 e) ∙ found))
      | inr other ↦ inr (taken f own (ground (arith, known, other)))
    ]

pub take_tasks-AreTaken :
    (World : Type 0) (d : Dict String WorkflowTaskRecord) (ts : List WorkflowTaskRecord)
    → IsKeyed d
    → Ends {S = State World} (AreTaken d ts) IsFine (take_tasks {World = World} d ts)
take_tasks-AreTaken World d [] keyed = pure-Ends (refl, λ f own known. absurd cc)
take_tasks-AreTaken World d (t ∷ ts) keyed =
    bind-Ends (or_raise-Ends IsFine (lookup t.step_id d) key_error tt) λ task found.
      bind-Ends {f = λ rest. pure (task ∷ rest)} (take_tasks-AreTaken World d ts keyed)
        λ rest h. pure-Ends (AreTaken-next d t task ts rest keyed found h)

pub In-failed :
    (f : WorkflowTaskRecord) (ts : List WorkflowTaskRecord)
    → In f ts
    → has_failed f ≡ true
    → any has_failed ts ≡ true
In-failed f [] i h = elim i [ ]
In-failed f (t ∷ ts) (inl e) h = ground (arith, ap has_failed e, h)
In-failed f (t ∷ ts) (inr i) h = ground (arith, In-failed f ts i h)

-- The record has the same tasks by their identifiers, the same plan and the same tenant.
abbrev pub Keeps : WorkflowExecutionRecord → WorkflowExecutionRecord → Type 0
Keeps r r' =
    (task_ids r'.tasks ≡ task_ids r.tasks) × (r'.plan ≡ r.plan) × (r'.tenant_id ≡ r.tenant_id)

pub Keeps-next : (r r' r'' : WorkflowExecutionRecord) → Keeps r r' → Keeps r' r'' → Keeps r r''
Keeps-next r r' r'' (ids, plan, tenant) (ids', plan', tenant') =
    (ids' ∙ ids, plan' ∙ plan, tenant' ∙ tenant)

module _ (codec : Codec) (policy : RetryPolicy) (outside : Outside) where
  pub Ran-ids :
      (ps : List (WorkflowTaskRecord × RemediationStep)) (ts : List WorkflowTaskRecord)
      → Ran codec policy outside ps ts
      → task_ids ts ≡ ready_ids ps
  Ran-ids [] [] h = refl
  Ran-ids (p ∷ ps) [] h = elim h [ ]
  Ran-ids [] (t ∷ ts) h = elim h [ ]
  Ran-ids (p ∷ ps) (t ∷ ts) ((named, ended, grew, bounded), h) =
      ground (arith, named, Ran-ids ps ts h)

  -- What holds of the identifiers in the dictionary holds of those of the results.
  pub Ran-All :
      (P : String → Type 0) (d : Dict String WorkflowTaskRecord)
      (ps : List (WorkflowTaskRecord × RemediationStep)) (ts : List WorkflowTaskRecord)
      → All (λ t. P t.step_id) (values d)
      → AreFrom (keep is_pending (values d)) ps
      → Ran codec policy outside ps ts
      → All (λ t. P t.step_id) ts
  Ran-All P d [] [] all among h = tt
  Ran-All P d (p ∷ ps) [] all among h = elim h [ ]
  Ran-All P d [] (t ∷ ts) all among h = elim h [ ]
  Ran-All P d (p ∷ ps) (t ∷ ts) known (i, among) ((named, ended, grew, bounded), h) = (
    subst P (sym named) (
        All-In (λ (u : WorkflowTaskRecord). P u.step_id) p.0 (values d) known
          (In-keep is_pending p.0 (values d) i).0),
    Ran-All P d ps ts known among h,
  )
