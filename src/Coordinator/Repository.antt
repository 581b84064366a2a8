-- ===== src/Coordinator/Repository.antt =====
-- `InMemoryWorkflowRepository` of
-- services/workflow-coordinator/src/changeops_workflow_coordinator/repository.py. Every method runs
-- under the lock, so it is one step of the state.
use enterprise_change_ops.Base.{
  ℕ, ◌+◌, String, string_eq, nat_eq, pair_eq, triple_eq, Bool, ◌||◌, ◌==◌, ◌/=◌, if◌then◌else◌,
  Option, none, some, List, [], ◌∷◌, take, Exec, pure, gets, or_raise, raise_if, modify, ◌>>=◌,
  ◌>>◌,
}
use enterprise_change_ops.Base.Dict.{Dict, lookup, insert}
use enterprise_change_ops.Base.Sort.{sort_descending, stamp_ltb}
use enterprise_change_ops.Coordinator.Models.{WorkflowExecutionRecord, DeadLetterRecord}

pub data WorkflowError : Type 0 where
  workflow_not_found : WorkflowError
  workflow_conflict : String → WorkflowError

pub record Store : Type 0 where
  pub workflows : Dict (String × String × String) WorkflowExecutionRecord
  pub dead_letters : Dict (String × String) DeadLetterRecord

abbrev pub Call : Type 0 → Type 0
Call A = Exec Store WorkflowError A

abbrev pub workflow_key : WorkflowExecutionRecord → String × String × String
workflow_key r = (r.tenant_id, r.change_id, r.workflow_execution_id)

abbrev pub put_workflow : WorkflowExecutionRecord → Store → Store
put_workflow r s = record s { workflows = insert (workflow_key r) r s.workflows }

abbrev create_known :
    WorkflowExecutionRecord → Option WorkflowExecutionRecord → Call WorkflowExecutionRecord
create_known r none = modify (put_workflow r) >> pure r
create_known r (some existing) = do
  raise_if (existing.event_id /= r.event_id) (workflow_conflict "Workflow identifier collision.")
  pure existing

unfoldable pub create_or_get : WorkflowExecutionRecord → Call WorkflowExecutionRecord
create_or_get r s = create_known r (lookup (workflow_key r) s.workflows) s

unfoldable pub get : String → String → String → Call WorkflowExecutionRecord
get tenant_id change_id workflow_execution_id s =
    or_raise (lookup (tenant_id, change_id, workflow_execution_id) s.workflows) workflow_not_found s

unfoldable pub update : WorkflowExecutionRecord → ℕ → Call WorkflowExecutionRecord
update r expected_version = do
  current ← λ s. or_raise (lookup (workflow_key r) s.workflows) workflow_not_found s
  raise_if (current.version /= expected_version || r.version /= expected_version + 1)
      (workflow_conflict "The workflow version is stale.")
  modify (put_workflow r)
  pure r

abbrev letter_key : DeadLetterRecord → String × String
letter_key r = (r.tenant_id, r.dead_letter_id)

abbrev record_known : DeadLetterRecord → Option DeadLetterRecord → Call DeadLetterRecord
record_known r none = do
  modify λ s. record s { dead_letters = insert (letter_key r) r s.dead_letters }
  pure r
record_known r (some existing) = do
  raise_if (existing.input_hash /= r.input_hash)
      (workflow_conflict "Dead-letter identifier collision.")
  pure existing

unfoldable pub record_dead_letter : DeadLetterRecord → Call DeadLetterRecord
record_dead_letter r s = record_known r (lookup (letter_key r) s.dead_letters) s

abbrev owned : String → Dict (String × String) DeadLetterRecord → List DeadLetterRecord
owned tenant_id [] = []
owned tenant_id (((owner, _), r) ∷ d) =
    let rest = owned tenant_id d in if owner == tenant_id then r ∷ rest else rest

abbrev letter_ltb : DeadLetterRecord → DeadLetterRecord → Bool
letter_ltb a b = stamp_ltb (a.created_at, a.dead_letter_id) (b.created_at, b.dead_letter_id)

unfoldable pub list_dead_letters : String → ℕ → Call (List DeadLetterRecord)
list_dead_letters tenant_id limit =
    gets λ s. take limit (sort_descending letter_ltb (owned tenant_id s.dead_letters))
