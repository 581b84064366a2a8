-- ===== src/Coordinator/Examples.antt =====
-- The theorems on the coordinator's repository at a concrete workflow.
use enterprise_change_ops.Base.{ℕ, ◌≤◌, string_eq, triple_eq, ◌≡◌, refl, [], ◌∷◌, none, ok, err}
use enterprise_change_ops.Base.Dict.{lookup, insert}
use enterprise_change_ops.Contracts.Samples.{sample_event}
use enterprise_change_ops.Coordinator.Models.{
  WorkflowRuntimeStatus, analyzing, executing, WorkflowExecutionRecord,
}
use enterprise_change_ops.Coordinator.Repository.{Store, workflow_conflict, create_or_get, update}
use enterprise_change_ops.Coordinator.Versions.{
  creating, updating, run_all, version_at, update-exclusive, run_all-grows, create_or_get-again,
}

abbrev workflow : WorkflowRuntimeStatus → ℕ → WorkflowExecutionRecord
workflow status version = record {
  workflow_execution_id = "wf-1";
  tenant_id = "acme";
  change_id = "chg-1";
  event_id = "evt-1";
  trace_id = "trace-1";
  event = sample_event;
  status = status;
  delivery_attempts = 1;
  plan = none;
  plan_hash = none;
  approval_id = none;
  approval_expires_at = none;
  tasks = [];
  last_error_code = none;
  started_at = 10;
  updated_at = 20;
  completed_at = none;
  version = version;
}

abbrev empty : Store
empty = record { workflows = []; dead_letters = [] }

abbrev stored : WorkflowExecutionRecord → Store
stored r = record { workflows = (("acme", "chg-1", "wf-1"), r) ∷ []; dead_letters = [] }

made :
    create_or_get (workflow analyzing 1) empty
    ≡ (ok (workflow analyzing 1), stored (workflow analyzing 1))
unfolding create_or_get lookup insert
made = refl

updated :
    update (workflow executing 2) 1 (stored (workflow analyzing 1))
    ≡ (ok (workflow executing 2), stored (workflow executing 2))
unfolding update lookup insert
updated = refl

update-exclusive_example :
    update (workflow analyzing 2) 1 (stored (workflow executing 2))
    ≡ (err (workflow_conflict "The workflow version is stale."), stored (workflow executing 2))
update-exclusive_example =
    update-exclusive (workflow executing 2) (workflow analyzing 2) 1 (stored (workflow analyzing 1))
      (stored (workflow executing 2)) (workflow executing 2) updated refl

run_all-grows_example :
    version_at ("acme", "chg-1", "wf-1") empty
    ≤ version_at
        ("acme", "chg-1", "wf-1")
        (run_all (creating (workflow analyzing 1) ∷ updating (workflow executing 2) 1 ∷ []) empty)
run_all-grows_example =
    run_all-grows (creating (workflow analyzing 1) ∷ updating (workflow executing 2) 1 ∷ [])
      ("acme", "chg-1", "wf-1") empty

create_or_get-again_example :
    create_or_get (workflow executing 5) (stored (workflow analyzing 1))
    ≡ (ok (workflow analyzing 1), stored (workflow analyzing 1))
create_or_get-again_example =
    create_or_get-again (workflow analyzing 1) (workflow executing 5) (workflow analyzing 1) empty
      (stored (workflow analyzing 1)) made refl refl
