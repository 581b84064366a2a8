-- ===== src/Coordinator/Versions.antt =====
-- What concurrent writers of a workflow record can rely on
-- (services/workflow-coordinator/src/changeops_workflow_coordinator/repository.py).
use enterprise_change_ops.Base.{
  ℕ, ◌+◌, ◌≤◌, ◌<◌, String, string_eq, nat_eq, triple_eq, ◌≡◌, ◌⊎◌, inl, inr, refl, sym, ◌∙◌, subst,
  true, ◌||◌, List, [], ◌∷◌, Option, none, some, Option-cases, Bool-cases, ◌↔◌, arith, Result, ok,
  err, ◌==◌, ◌/=◌, same_refl,
}
use enterprise_change_ops.Base.Dict.{lookup, lookup-insert}
use enterprise_change_ops.Coordinator.Models.{WorkflowExecutionRecord, DeadLetterRecord}
use enterprise_change_ops.Coordinator.Repository.{
  Store, WorkflowError, workflow_conflict, workflow_key, put_workflow, create_or_get, update,
  record_dead_letter,
}

-- What the outcome of an update says.
abbrev pub Updates :
    WorkflowExecutionRecord
    → ℕ
    → Store
    → Result WorkflowError WorkflowExecutionRecord × Store
    → Type 0
Updates r v s (err e, s') = s' ≡ s
Updates r v s (ok done, s') =
    (done ≡ r)
    × (s' ≡ put_workflow r s)
    × (r.version ≡ v + 1)
    × ((before : WorkflowExecutionRecord) × (lookup (workflow_key r) s.workflows ≡ some before)
        × (before.version ≡ v))

update_known :
    (r : WorkflowExecutionRecord) (v : ℕ) (s : Store) (o : Option WorkflowExecutionRecord)
    → lookup (workflow_key r) s.workflows ≡ o
    → Updates r v s (update r v s)
unfolding update
update_known r v s none h = ground arith
update_known r v s (some before) h = ground arith

pub update-Updates :
    (r : WorkflowExecutionRecord) (v : ℕ) (s : Store) → Updates r v s (update r v s)
update-Updates r v s = update_known r v s (lookup (workflow_key r) s.workflows) refl

put_here :
    (r : WorkflowExecutionRecord) (s : Store)
    → lookup (workflow_key r) (put_workflow r s).workflows ≡ some r
put_here r s =
    lookup-insert (workflow_key r) (workflow_key r) r s.workflows
    ∙ rw (same_refl (workflow_key r)) refl

update_stale :
    (r : WorkflowExecutionRecord) (v : ℕ) (s : Store) (current : WorkflowExecutionRecord)
    → lookup (workflow_key r) s.workflows ≡ some current
    → v < current.version
    → update r v s ≡ (err (workflow_conflict "The workflow version is stale."), s)
unfolding update
update_stale r v s current found h = ground arith

-- Of two writers that read the same version of a workflow, only the first one's update is stored:
-- the second one's raises and changes nothing.
pub update-exclusive :
    (r r' : WorkflowExecutionRecord) (v : ℕ) (s s' : Store) (done : WorkflowExecutionRecord)
    → update r v s ≡ (ok done, s')
    → workflow_key r' ≡ workflow_key r
    → update r' v s' ≡ (err (workflow_conflict "The workflow version is stale."), s')
update-exclusive r r' v s s' done h same_key =
    let facts = subst (Updates r v s) h (update-Updates r v s) in
    update_stale r' v s' r (rw (same_key, facts.1) (put_here r s)) (omega (arith, facts.2))

-- The methods that write.
pub data Call : Type 0 where
  creating : WorkflowExecutionRecord → Call
  updating : WorkflowExecutionRecord → ℕ → Call
  dead_lettering : DeadLetterRecord → Call

abbrev pub run : Call → Store → Store
run (creating r) s = (create_or_get r s).1
run (updating r v) s = (update r v s).1
run (dead_lettering r) s = (record_dead_letter r s).1

abbrev pub run_all : List Call → Store → Store
run_all [] s = s
run_all (call ∷ calls) s = run_all calls (run call s)

-- The version under a key, and zero where there is no record.
abbrev version_of : Option WorkflowExecutionRecord → ℕ
version_of none = 0
version_of (some r) = r.version

abbrev pub version_at : String × String × String → Store → ℕ
version_at k s = version_of (lookup k s.workflows)

key_iff : (j k : String × String × String) → ((j == k) ≡ true) ↔ (j ≡ k)
key_iff j k = triple_eq.same_iff j k

put-version_at :
    (k : String × String × String) (r : WorkflowExecutionRecord) (s : Store)
    → version_at (workflow_key r) s ≤ r.version
    → version_at k s ≤ version_at k (put_workflow r s)
put-version_at k r s h = elim (Bool-cases (workflow_key r == k)) [
  | inl e ↦
      rw (lookup-insert (workflow_key r) k r s.workflows, e)
        (subst (λ (j : String × String × String). version_at j s ≤ r.version)
          ((key_iff (workflow_key r) k).0 e) h)
  | inr e ↦ rw (lookup-insert (workflow_key r) k r s.workflows, e) (omega arith)
]

run-cases :
    (call : Call) (s : Store)
    → ((run call s).workflows ≡ s.workflows)
      ⊎ ((r : WorkflowExecutionRecord) × (run call s ≡ put_workflow r s)
          × (version_at (workflow_key r) s ≤ r.version))
unfolding create_or_get update record_dead_letter
run-cases (creating r) s = elim (Option-cases (lookup (workflow_key r) s.workflows)) [
  | inl absent ↦ inr (r, ground arith, ground arith)
  | inr (old, found) ↦ inl (ground arith)
]
run-cases (updating r v) s = elim (Option-cases (lookup (workflow_key r) s.workflows)) [
  | inl absent ↦ inl (ground arith)
  | inr (old, found) ↦ elim (Bool-cases (old.version /= v || r.version /= v + 1)) [
    | inl stale ↦ inl (ground arith)
    | inr fine ↦ inr (r, ground arith, ground arith)
  ]
]
run-cases (dead_lettering r) s = inl (ground arith)

run-grows :
    (call : Call) (k : String × String × String) (s : Store)
    → version_at k s ≤ version_at k (run call s)
run-grows call k s = elim (run-cases call s) [
  | inl same ↦ rw same (omega arith)
  | inr (r, written, h) ↦ rw written (put-version_at k r s h)
]

-- Whatever calls are made, the version of no workflow goes down, and no workflow with a version
-- above zero is lost.
pub run_all-grows :
    (calls : List Call) (k : String × String × String) (s : Store)
    → version_at k s ≤ version_at k (run_all calls s)
run_all-grows [] k s = omega arith
run_all-grows (call ∷ calls) k s =
    omega (arith, run-grows call k s, run_all-grows calls k (run call s))

-- What the outcome of `create_or_get` says.
abbrev Creates :
    WorkflowExecutionRecord → Result WorkflowError WorkflowExecutionRecord × Store → Type 0
Creates r (err e, s') = Unit
Creates r (ok made, s') =
    (lookup (workflow_key r) s'.workflows ≡ some made) × (made.event_id ≡ r.event_id)

create_or_get-Creates : (r : WorkflowExecutionRecord) (s : Store) → Creates r (create_or_get r s)
unfolding create_or_get
create_or_get-Creates r s = elim (Option-cases (lookup (workflow_key r) s.workflows)) [
  | inl absent ↦ rw absent (put_here r s, refl)
  | inr (old, found) ↦ ground (arith, string_eq.same_iff old.event_id r.event_id)
]

create_known_again :
    (r made : WorkflowExecutionRecord) (s : Store)
    → lookup (workflow_key r) s.workflows ≡ some made
    → made.event_id ≡ r.event_id
    → create_or_get r s ≡ (ok made, s)
unfolding create_or_get
create_known_again r made s found e = ground (arith, string_eq.same_iff made.event_id r.event_id)

-- A delivered event starts one workflow: when a call of `create_or_get` has returned a record, a
-- further call with a record of the same key and event returns the same record and changes nothing.
pub create_or_get-again :
    (r r' made : WorkflowExecutionRecord) (s s' : Store)
    → create_or_get r s ≡ (ok made, s')
    → workflow_key r' ≡ workflow_key r
    → r'.event_id ≡ r.event_id
    → create_or_get r' s' ≡ (ok made, s')
create_or_get-again r r' made s s' h same_key same_event =
    let (stored, event) = subst (Creates r) h (create_or_get-Creates r s) in
    create_known_again r' made s' (rw same_key stored) (event ∙ sym same_event)
