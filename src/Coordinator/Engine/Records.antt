-- ===== src/Coordinator/Engine/Records.antt =====
-- The engine's writes: versioned updates of the workflow record, audit events and transitions of the
-- change (services/workflow-coordinator/src/changeops_workflow_coordinator/engine.py).
use enterprise_change_ops.Base.{
  ℕ, ◌+◌, String, string_eq, option_eq, concat, true, not, ◌&&◌, ◌==◌, if◌then◌else◌, Option, none,
  some, List, [], ◌∷◌, Result, ok, err, pure, or_raise, ◌>>=◌, ◌>>◌,
}
use enterprise_change_ops.Contracts.Json.{Json}
use enterprise_change_ops.Contracts.Enums.{WorkflowState, AuditStatus, service}
use enterprise_change_ops.Contracts.Models.{Timestamp, RemediationPlan, ChangeRecord, AuditEvent}
use enterprise_change_ops.Contracts.Plans.{validate_step_graph}
use enterprise_change_ops.Contracts.Canonical.{Codec, sha256_digest}
use enterprise_change_ops.Persistence.Memory
use enterprise_change_ops.Persistence.Refinement.{memory}
use enterprise_change_ops.StateMachine.Service.{RecordUpdate, transition}
use enterprise_change_ops.Coordinator.Models.{
  WorkflowRuntimeStatus, runtime_status_eq, WorkflowTaskRecord, WorkflowExecutionRecord, SystemId,
  crm, analytics, support, validate_artifacts, validate_lifecycle, is_none,
}
use enterprise_change_ops.Coordinator.Repository.{update, record_dead_letter}
use enterprise_change_ops.Coordinator.Engine.World.{
  permanent, validation_error, Outside, Call, reading, on_workflows, on_changes, on_service,
}

abbrev pub system_value : SystemId → String
system_value crm = "crm"
system_value analytics = "analytics"
system_value support = "support"

abbrev pub validated : {World A : Type 0} → Result String A → Call World A
validated (ok a) s = (ok a, s)
validated (err message) s = (err (validation_error message), s)

-- The arguments of `_record_audit` behind the record.
pub record Note : Type 0 where
  pub event_type : String
  pub action : String
  pub input_document : Json
  pub output_document : Json
  pub status : AuditStatus
  pub summary : String

abbrev validate_tasks : List WorkflowTaskRecord → Result String (List WorkflowTaskRecord)
validate_tasks [] = ok []
validate_tasks (t ∷ ts) =
    let rest = validate_tasks ts in
    elim (validate_artifacts t) [ ok _ ↦ rest | err message ↦ err message ]

abbrev validate_plan : Option RemediationPlan → Result String (Option RemediationPlan)
validate_plan none = ok none
validate_plan (some plan) = elim (validate_step_graph plan) [
  | ok p ↦ ok (some p)
  | err message ↦ err message
]

module _ (codec : Codec) where
  -- `WorkflowExecutionRecord.model_validate`, with the validators of the plan and of the tasks
  unfoldable pub model_validate : WorkflowExecutionRecord → Result String WorkflowExecutionRecord
  unfolding validate_artifacts validate_step_graph
  model_validate r = elim (validate_plan r.plan) [
    | err message ↦ err message
    | ok _ ↦ elim (validate_tasks r.tasks) [
      | err message ↦ err message
      | ok _ ↦ validate_lifecycle codec r
    ]
  ]

  module _ (outside : Outside) where
    open outside use {World, clock, new_id}

    -- The record with its updates, with the time of the update and the next version.
    abbrev pub versioned : WorkflowExecutionRecord → ℕ → Timestamp → WorkflowExecutionRecord
    versioned r version now = record r { updated_at = now; version = version + 1 }

    -- `_update_record`: the given record has the updates.
    unfoldable pub update_record :
        WorkflowExecutionRecord → WorkflowExecutionRecord → Call World WorkflowExecutionRecord
    unfolding model_validate
    update_record r updates = do
      now ← reading clock
      updated ← validated (model_validate (versioned updates r.version now))
      on_workflows (update updated r.version)

    unfoldable pub require_plan : WorkflowExecutionRecord → Call World RemediationPlan
    require_plan r = or_raise r.plan (permanent "PLAN_MISSING")

    unfoldable pub set_runtime_status :
        WorkflowExecutionRecord
        → WorkflowRuntimeStatus
        → Option String
        → Call World WorkflowExecutionRecord
    unfolding update_record
    set_runtime_status r status last_error_code =
        if r.status == status && r.last_error_code == last_error_code
        then pure r
        else update_record r (record r { status = status; last_error_code = last_error_code })

    unfoldable pub terminal :
        WorkflowExecutionRecord
        → WorkflowRuntimeStatus
        → Option String
        → Call World WorkflowExecutionRecord
    unfolding update_record
    terminal r status error_code =
        if r.status == status && not (is_none r.completed_at) then pure r else do
          now ← reading clock
          update_record r
              (record r { status = status; last_error_code = error_code; completed_at = some now })

    abbrev audit_event : WorkflowExecutionRecord → Note → String → Timestamp → AuditEvent
    audit_event r note id now = record {
      audit_event_id = concat "audit_" id;
      tenant_id = r.tenant_id;
      change_id = r.change_id;
      trace_id = r.trace_id;
      event_type = note.event_type;
      actor_type = service;
      actor_id = "workflow-coordinator";
      resource = concat "workflows/" r.workflow_execution_id;
      action = note.action;
      decision_id = none;
      input_hash = sha256_digest codec note.input_document;
      output_hash = sha256_digest codec note.output_document;
      status = note.status;
      redacted_summary = note.summary;
      created_at = now;
    }

    unfoldable pub audit : WorkflowExecutionRecord → Note → Call World AuditEvent
    audit r note = do id ← reading new_id; now ← reading clock; pure (audit_event r note id now)

    unfoldable pub record_audit : WorkflowExecutionRecord → Note → Call World (Unit {0})
    unfolding audit
    record_audit r note = do event ← audit r note; on_changes (Memory.record_audit event)

    -- The call of the service, from the change's version.
    abbrev pub move :
        WorkflowExecutionRecord
        → WorkflowState
        → List RecordUpdate
        → ChangeRecord
        → Timestamp
        → String
        → Call World ChangeRecord
    move r target record_updates current now id = on_service (
        transition codec memory
          (record {
            tenant_id = r.tenant_id;
            change_id = r.change_id;
            target = target;
            expected_version = current.version;
            trace_id = r.trace_id;
            actor_type = service;
            actor_id = "workflow-coordinator";
            record_updates = record_updates;
          })
          (record { is_aware = true; instant = now }) (concat "audit_" id))

    -- `_transition`. The identifier of the audit event is drawn before the service is called.
    unfoldable pub transition_to :
        WorkflowExecutionRecord → WorkflowState → List RecordUpdate → Call World ChangeRecord
    transition_to r target record_updates = do
      current ← on_changes (Memory.get r.tenant_id r.change_id)
      now ← reading clock
      id ← reading new_id
      move r target record_updates current now id

    unfoldable pub dead_letter :
        WorkflowExecutionRecord → String → Call World WorkflowExecutionRecord
    unfolding terminal
    dead_letter r error_code = do
      ended ← terminal r WorkflowRuntimeStatus.dead_lettered (some error_code)
      now ← reading clock
      on_workflows (
          record_dead_letter (record {
            dead_letter_id = concat "dlq_" r.workflow_execution_id;
            tenant_id = r.tenant_id;
            event_id = r.event_id;
            workflow_execution_id = r.workflow_execution_id;
            error_code = error_code;
            input_hash = sha256_digest codec (codec.dump_event r.event);
            created_at = now;
          }))
      pure ended
