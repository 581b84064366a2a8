-- ===== src/StateMachine/Examples.antt =====
-- The theorems on the state machine at concrete histories and over the in-memory store.
use enterprise_change_ops.Base.{
  String, true, ◌≡◌, refl, some, List, [], ◌∷◌, arith, any, if◌then◌else◌, ◌==◌, pair_eq, string_eq,
}
use enterprise_change_ops.Base.Dict.{lookup, insert}
use enterprise_change_ops.Contracts.Enums.{
  WorkflowState, WorkflowState-discrete, received, analyzing, plan_ready, awaiting_approval,
  executing, completed, failed, service,
}
use enterprise_change_ops.Contracts.Models.{AuditEvent}
use enterprise_change_ops.Contracts.ChangeRecords.{validate_state_and_timestamps}
use enterprise_change_ops.Contracts.Samples.{sample_codec, sample_change}
use enterprise_change_ops.Persistence.Memory.{Store, get, commit_transition}
use enterprise_change_ops.Persistence.Refinement.{memory}
use enterprise_change_ops.StateMachine.Table.{can_transition}
use enterprise_change_ops.StateMachine.Paths.{
  follows, last, is_screening, is_verifying, is_executing_or_attended, route, terminal-absorbs,
  completed-history, completed-reachable,
}
use enterprise_change_ops.StateMachine.Service.{
  TransitionRequest, Reading, transition, commit, acceptance, updated_record, plan_version,
}
use enterprise_change_ops.StateMachine.Outcomes.{IsReady}
use enterprise_change_ops.StateMachine.Guarantees.{
  permits, result_status, transition-stored, transition-audited, second_writer_stores_nothing,
}

terminal-absorbs_example : ◌≡◌ {A = List WorkflowState} [] []
unfolding follows
terminal-absorbs_example = terminal-absorbs failed [] refl refl

completed-history_example :
    (any is_screening (route received) ≡ true)
    × (any is_verifying (route received) ≡ true)
    × (any is_executing_or_attended (route received) ≡ true)
unfolding follows can_transition WorkflowState-discrete
completed-history_example = completed-history (route received) refl refl

completed-reachable_example :
    (ts : List WorkflowState) × (follows analyzing ts ≡ true) × (last analyzing ts ≡ completed)
completed-reachable_example = completed-reachable analyzing refl

abbrev stored_once : Store
stored_once = record {
  changes = (("acme", "chg-1"), sample_change plan_ready 3) ∷ [];
  tenants_by_change_id = ("chg-1", "acme" ∷ []) ∷ [];
  audit = [];
  audit_ids_by_change = [];
}

abbrev request : WorkflowState → TransitionRequest
request target = record {
  tenant_id = "acme";
  change_id = "chg-1";
  target = target;
  expected_version = 3;
  trace_id = "trace-1";
  actor_type = service;
  actor_id = "workflow-coordinator";
  record_updates = plan_version 2 ∷ [];
}

abbrev at_30 : Reading
at_30 = record { is_aware = true; instant = 30 }

ready :
    IsReady sample_codec memory
      (request awaiting_approval)
      at_30
      "audit-1"
      (sample_change plan_ready 3)
      stored_once
unfolding lookup
ready = record {
  found = refl;
  tenant = refl;
  change = refl;
  well_formed = record { phase = refl; times = omega arith };
  aware = refl;
  later = omega arith;
  supported = refl;
  fresh = refl;
}

transition-stored_example :
    lookup
      ("acme", "chg-1")
      (transition sample_codec memory
        (request awaiting_approval)
        at_30
        "audit-1"
        stored_once).1.changes
    ≡ some (updated_record (sample_change plan_ready 3) (request awaiting_approval) at_30)
unfolding can_transition WorkflowState-discrete
transition-stored_example =
    transition-stored sample_codec memory (request awaiting_approval) at_30 "audit-1"
      (sample_change plan_ready 3) stored_once ready ("acme", "chg-1")

abbrev after : Store
after = (transition sample_codec memory (request awaiting_approval) at_30 "audit-1" stored_once).1

transition-audited_example :
    (event : AuditEvent) × (event.status
      ≡ result_status (permits (sample_change plan_ready 3) (request awaiting_approval)))
    × ((k : String × String)
        → lookup k after.audit
          ≡ (if ("acme", "audit-1") == k then some event else lookup k stored_once.audit))
transition-audited_example =
    transition-audited sample_codec memory (request awaiting_approval) at_30 "audit-1"
      (sample_change plan_ready 3) stored_once ready

IsReady-again :
    IsReady sample_codec memory
      (request executing)
      at_30
      "audit-2"
      (updated_record (sample_change plan_ready 3) (request awaiting_approval) at_30)
      after
unfolding lookup transition commit acceptance insert get commit_transition can_transition
    updated_record validate_state_and_timestamps WorkflowState-discrete
IsReady-again = record {
  found = transition-stored_example;
  tenant = refl;
  change = refl;
  well_formed = record { phase = refl; times = omega arith };
  aware = refl;
  later = omega arith;
  supported = refl;
  fresh = refl;
}

second_writer_stores_nothing_example :
    lookup
      ("acme", "chg-1")
      (transition sample_codec memory (request executing) at_30 "audit-2" after).1.changes
    ≡ lookup ("acme", "chg-1") after.changes
unfolding can_transition WorkflowState-discrete
second_writer_stores_nothing_example =
    second_writer_stores_nothing sample_codec memory (request awaiting_approval) (request executing)
      at_30 at_30 "audit-1" "audit-2" (sample_change plan_ready 3)
      (updated_record (sample_change plan_ready 3) (request awaiting_approval) at_30) stored_once
      ready refl refl refl refl IsReady-again ("acme", "chg-1")
