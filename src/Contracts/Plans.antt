-- ===== src/Contracts/Plans.antt =====
-- `RemediationPlan.validate_step_graph` of
-- packages/contracts-python/src/changeops_contracts/models.py.
pub mod Progress
use enterprise_change_ops.Base.{
  ℕ, zero, suc, ◌+◌, ◌<◌, ◌≤◌, String, string_eq, nat_eq, concat, Bool, true, false, not, ◌&&◌, leb,
  nat_eqb, ◌≡◌, refl, sym, ◌⊎◌, inl, inr, subst, Option, none, some, Option-cases, Bool-cases,
  some_inj, List, [], ◌∷◌, length, map, contains, all, find, In, Result, ok, err, if◌then◌else◌,
  ◌==◌, arith,
}
use enterprise_change_ops.Base.Sets.{to_set, is_subset}
use enterprise_change_ops.Contracts.Models.{RemediationStep, RemediationPlan}

-- `range(start, start + n)`
abbrev range_from : ℕ → ℕ → List ℕ
range_from start zero = []
range_from start (suc n) = start ∷ range_from (suc start) n

abbrev same_set : List ℕ → List ℕ → Bool
same_set xs ys = is_subset xs ys && is_subset ys xs

abbrev pub by_id : List RemediationStep → String → Option RemediationStep
by_id steps id = find (λ step. step.step_id == id) steps

-- The inner loop, over the dependencies of a step: the message that it raises, if it does.
abbrev pub dependency_fault : List RemediationStep → RemediationStep → List String → Option String
dependency_fault steps step [] = none
dependency_fault steps step (d ∷ ds) =
    let rest = dependency_fault steps step ds in
    elim (by_id steps d) [
      | none ↦ some (concat "unknown step dependency: " d)
      | some dependency ↦
          if leb step.order dependency.order
          then some "step dependencies must precede the dependent step"
          else rest
    ]

abbrev or_else : Option String → Option String → Option String
or_else (some message) rest = some message
or_else none rest = rest

-- The outer loop.
abbrev pub graph_fault : List RemediationStep → List RemediationStep → Option String
graph_fault steps [] = none
graph_fault steps (step ∷ more) =
    or_else (dependency_fault steps step step.depends_on) (graph_fault steps more)

abbrev raised : Option String → RemediationPlan → Result String RemediationPlan
raised none plan = ok plan
raised (some message) plan = err message

unfoldable pub validate_step_graph : RemediationPlan → Result String RemediationPlan
validate_step_graph plan =
    let ids = map (λ step. step.step_id) plan.steps in
    let orders = map (λ step. step.order) plan.steps in
    if not (nat_eqb (length (to_set ids)) (length plan.steps))
    then err "plan step_id values must be unique"
    else if not (nat_eqb (length (to_set orders)) (length plan.steps))
    then err "plan step order values must be unique"
    else if not (same_set orders (range_from 1 (length plan.steps)))
    then err "plan step order values must be contiguous and start at 1"
    else raised (graph_fault plan.steps plan.steps) plan
