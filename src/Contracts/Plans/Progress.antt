-- ===== src/Contracts/Plans/Progress.antt =====
-- Why the steps of a validated plan can be executed one after another
-- (packages/contracts-python/src/changeops_contracts/models.py, `validate_step_graph`).
use enterprise_change_ops.Base.{
  ℕ, zero, suc, ◌<◌, String, string_eq, nat_eq, true, false, ◌≡◌, sym, inl, inr, none, some,
  Option-cases, Bool-cases, some_inj, List, [], ◌∷◌, contains, all, In, ok, ◌==◌, arith,
}
use enterprise_change_ops.Contracts.Models.{RemediationStep, RemediationPlan}
use enterprise_change_ops.Contracts.Plans.{
  by_id, dependency_fault, graph_fault, validate_step_graph,
}

graph_fault-none :
    (plan : RemediationPlan)
    → validate_step_graph plan ≡ ok plan
    → graph_fault plan.steps plan.steps ≡ none
unfolding validate_step_graph
graph_fault-none plan h = ground arith

step_fault-none :
    (steps more : List RemediationStep) (step : RemediationStep)
    → graph_fault steps more ≡ none
    → In step more
    → dependency_fault steps step step.depends_on ≡ none
step_fault-none steps [] step h i = elim i [ ]
step_fault-none steps (x ∷ more) step h (inl e) = rw e (ground arith)
step_fault-none steps (x ∷ more) step h (inr i) = step_fault-none steps more step (ground arith) i

by_id-found :
    (steps : List RemediationStep) (id : String) (p : RemediationStep)
    → by_id steps id ≡ some p
    → In p steps × (p.step_id ≡ id)
by_id-found [] id p h = absurd cc
by_id-found (x ∷ steps) id p h = elim (Bool-cases (x.step_id == id)) [
  | inl e ↦
      let same : x ≡ p = some_inj (ground arith) in
      (inl (sym same), rw (← same) ((string_eq.same_iff x.step_id id).0 e))
  | inr e ↦ let (i, named) = by_id-found steps id p (ground arith) in (inr i, named)
]

-- A dependency that is not done is an earlier step that is not done.
abbrev Earlier : List RemediationStep → RemediationStep → List String → Type 0
Earlier steps step done =
    (p : RemediationStep) × In p steps × (contains done p.step_id ≡ false) × (p.order < step.order)

earlier :
    (steps : List RemediationStep) (step : RemediationStep) (done ds : List String)
    → dependency_fault steps step ds ≡ none
    → all (contains done) ds ≡ false
    → Earlier steps step done
earlier steps step done [] h missing = absurd cc
earlier steps step done (d ∷ ds) h missing = elim (Option-cases (by_id steps d)) [
  | inl unknown ↦ absurd (ground arith)
  | inr (p, found) ↦ elim (Bool-cases (contains done d)) [
    | inl finished ↦ earlier steps step done ds (ground arith) (ground arith)
    | inr unfinished ↦
        let (i, named) = by_id-found steps d p found in (p, i, rw named unfinished, ground arith)
  ]
]

-- The step is in the plan, is not done, and all that it depends on is done.
abbrev pub IsReady : List RemediationStep → List String → RemediationStep → Type 0
IsReady steps done step =
    In step steps
    × (contains done step.step_id ≡ false)
    × (all (contains done) step.depends_on ≡ true)

ready_below :
    (steps : List RemediationStep) (done : List String) (n : ℕ) (step : RemediationStep)
    → graph_fault steps steps ≡ none
    → step.order < n
    → In step steps
    → contains done step.step_id ≡ false
    → (ready : RemediationStep) × IsReady steps done ready
ready_below steps done zero step h below i unfinished = absurd (omega (arith, below))
ready_below steps done (suc n) step h below i unfinished =
    elim (Bool-cases (all (contains done) step.depends_on)) [
      | inl satisfied ↦ (step, (i, unfinished, satisfied))
      | inr missing ↦
          let (p, ip, not_done, less) =
            earlier steps step done step.depends_on (step_fault-none steps steps step h i)
              missing in
          ready_below steps done n p h (omega (arith, less, below)) ip not_done
    ]

-- A validated plan never gets stuck: whatever steps are done, as long as one step is not, some step
-- that is not done has all its dependencies done.
pub validate_step_graph-progress :
    (plan : RemediationPlan) (done : List String) (step : RemediationStep)
    → validate_step_graph plan ≡ ok plan
    → In step plan.steps
    → contains done step.step_id ≡ false
    → (ready : RemediationStep) × IsReady plan.steps done ready
validate_step_graph-progress plan done step valid i unfinished =
    ready_below plan.steps done (suc step.order) step (graph_fault-none plan valid) (omega arith) i
      unfinished
