-- ===== src/StateMachine/Service.antt =====
-- `StateTransitionService` of packages/changeops-core/src/changeops_core/state_machine.py over any
-- repository. The clock's reading and the new audit identifier are arguments of a call.
use enterprise_change_ops.Base.{
  ℕ, ◌+◌, String, concat, Bool, not, ltb, if◌then◌else◌, none, some, List, [], ◌∷◌, Result, ok, err,
  Exec, raise, raise_if, ◌>>=◌, ◌>>◌,
}
use enterprise_change_ops.Contracts.Json.{Json, Fields, null, num, str, obj, field, end}
use enterprise_change_ops.Contracts.Enums.{
  RiskLevel, WorkflowState, ActorType, AuditStatus, success,
}
use enterprise_change_ops.Contracts.Texts.{risk_value, state_value, audit_value}
use enterprise_change_ops.Contracts.Models.{Timestamp, ChangeRecord, AuditEvent}
use enterprise_change_ops.Contracts.ChangeRecords.{validate_state_and_timestamps}
use enterprise_change_ops.Contracts.Canonical.{Codec, sha256_digest}
use enterprise_change_ops.Persistence.Errors.{PersistenceError, optimistic_concurrency}
use enterprise_change_ops.Persistence.Protocol.{ChangeStateRepository}
use enterprise_change_ops.StateMachine.Table.{can_transition}

-- One entry of `record_updates`: a field that may be updated, with its value, or another key.
pub data RecordUpdate : Type 0 where
  workflow_execution_id : String → RecordUpdate
  plan_version : ℕ → RecordUpdate
  plan_hash : String → RecordUpdate
  risk_level : RiskLevel → RecordUpdate
  unsupported : String → RecordUpdate

-- The keyword arguments of `transition`.
pub record TransitionRequest : Type 0 where
  pub tenant_id : String
  pub change_id : String
  pub target : WorkflowState
  pub expected_version : ℕ
  pub trace_id : String
  pub actor_type : ActorType
  pub actor_id : String
  pub record_updates : List RecordUpdate

-- What the clock returns: an instant, and whether it carries a time zone.
pub record Reading : Type 0 where
  pub is_aware : Bool
  pub instant : Timestamp

pub data TransitionError : Type 0 where
  persistence : PersistenceError → TransitionError
  value_error : String → TransitionError
  unsupported_updates : List String → TransitionError
  validation_error : String → TransitionError
  invalid_state_transition : WorkflowState → WorkflowState → String → TransitionError

-- The keys that may not be updated. The code puts them into the error's text in sorted order.
abbrev pub unsupported_fields : List RecordUpdate → List String
unsupported_fields [] = []
unsupported_fields (unsupported k ∷ us) = k ∷ unsupported_fields us
unsupported_fields (workflow_execution_id _ ∷ us) = unsupported_fields us
unsupported_fields (plan_version _ ∷ us) = unsupported_fields us
unsupported_fields (plan_hash _ ∷ us) = unsupported_fields us
unsupported_fields (risk_level _ ∷ us) = unsupported_fields us

-- `updated_document.update(updates)`
abbrev pub apply_update : RecordUpdate → ChangeRecord → ChangeRecord
apply_update (workflow_execution_id w) r = record r { workflow_execution_id = some w }
apply_update (plan_version n) r = record r { plan_version = n }
apply_update (plan_hash h) r = record r { plan_hash = some h }
apply_update (risk_level l) r = record r { risk_level = l }
apply_update (unsupported _) r = r

abbrev pub apply_updates : List RecordUpdate → ChangeRecord → ChangeRecord
apply_updates [] r = r
apply_updates (u ∷ us) r = apply_updates us (apply_update u r)

abbrev pub updates_document : List RecordUpdate → Fields
updates_document [] = end
updates_document (workflow_execution_id w ∷ us) =
    field "workflow_execution_id" (str w) (updates_document us)
updates_document (plan_version n ∷ us) = field "plan_version" (num n) (updates_document us)
updates_document (plan_hash h ∷ us) = field "plan_hash" (str h) (updates_document us)
updates_document (risk_level l ∷ us) = field "risk_level" (str (risk_value l)) (updates_document us)
updates_document (unsupported k ∷ us) = field k null (updates_document us)

-- The hashed document of the input.
abbrev pub input_document : TransitionRequest → ChangeRecord → Json
input_document q current = obj (
    field "change_id" (str q.change_id) (
      field "current" (str (state_value current.status)) (
        field "expected_version" (num q.expected_version) (
          field "record_updates" (obj (updates_document q.record_updates)) (
            field "target" (str (state_value q.target))
              (field "tenant_id" (str q.tenant_id) end))))))

abbrev pub outcome : AuditStatus → String
outcome success = "SUCCEEDED"
outcome AuditStatus.rejected = "REJECTED"
outcome AuditStatus.failure = "REJECTED"

abbrev pub transition_summary : WorkflowState → WorkflowState → String
transition_summary current target =
    concat "Workflow transition "
      (concat (state_value current) (concat " to " (state_value target)))

unfoldable pub build_audit_event :
    ChangeRecord
    → TransitionRequest
    → String
    → String
    → String
    → AuditStatus
    → Timestamp
    → AuditEvent
build_audit_event current q audit_id input_hash output_hash status created_at = record {
  audit_event_id = audit_id;
  tenant_id = current.tenant_id;
  change_id = current.change_id;
  trace_id = q.trace_id;
  event_type = concat "WORKFLOW_STATE_TRANSITION_" (outcome status);
  actor_type = q.actor_type;
  actor_id = q.actor_id;
  resource = concat "changes/" current.change_id;
  action = "transition_state";
  decision_id = none;
  input_hash = input_hash;
  output_hash = output_hash;
  status = status;
  redacted_summary =
      concat (transition_summary current.status q.target)
        (concat " " (concat (audit_value status) "."));
  created_at = created_at;
}

-- The change that a permitted transition stores.
unfoldable pub updated_record : ChangeRecord → TransitionRequest → Reading → ChangeRecord
updated_record current q now =
    let r = apply_updates q.record_updates current in
    record r {
      status = q.target;
      current_phase = q.target;
      updated_at = now.instant;
      version = q.expected_version + 1;
    }

module _ (codec : Codec) where
  abbrev pub reason_hash : Json → String
  reason_hash = sha256_digest codec

  -- The audit event of a transition that the table does not permit.
  unfoldable pub rejection : ChangeRecord → TransitionRequest → Reading → String → AuditEvent
  unfolding build_audit_event
  rejection current q now audit_id =
      build_audit_event current q audit_id (reason_hash (input_document q current))
        (reason_hash (obj (field "reason" (str "invalid_transition") end))) AuditStatus.rejected
        now.instant

  unfoldable pub acceptance :
      ChangeRecord → TransitionRequest → Reading → String → ChangeRecord → AuditEvent
  unfolding build_audit_event
  acceptance current q now audit_id updated =
      build_audit_event current q audit_id (reason_hash (input_document q current))
        (reason_hash (codec.dump_change updated)) success now.instant

  -- The audit event of a commit that met another version.
  unfoldable pub conflict : ChangeRecord → TransitionRequest → AuditEvent → ℕ → ℕ → AuditEvent
  conflict current q event expected actual = record event {
    event_type = "WORKFLOW_STATE_TRANSITION_REJECTED";
    output_hash = reason_hash (
        obj (
          field "actual_version" (num actual) (
            field "expected_version" (num expected)
              (field "reason" (str "optimistic_concurrency_conflict") end))));
    status = AuditStatus.rejected;
    redacted_summary = concat (transition_summary current.status q.target) " rejected.";
  }

  module _ (repository : ChangeStateRepository) where
    open repository use {State, get, commit_transition, record_audit}

    abbrev pub Call : Type 0 → Type 0
    Call A = Exec State TransitionError A

    abbrev pub from_repository :
        {A : Type 0} → Result PersistenceError A × State → Result TransitionError A × State
    from_repository (ok a, s) = (ok a, s)
    from_repository (err e, s) = (err (persistence e), s)

    -- A call of the repository, whose errors pass through.
    abbrev pub call : {A : Type 0} → Exec State PersistenceError A → Call A
    call m s = from_repository (m s)

    -- The clock must be aware, and must not run backwards.
    abbrev pub check_clock : Reading → ChangeRecord → Call (Unit {0})
    check_clock now current = do
      raise_if (not now.is_aware)
          (value_error "State transition clock must return a timezone-aware datetime.")
      raise_if (ltb now.instant current.updated_at)
          (value_error "State transition clock cannot move updated_at backwards.")

    abbrev pub reject_unsupported : List String → Call (Unit {0})
    reject_unsupported [] s = (ok tt, s)
    reject_unsupported (k ∷ ks) s = (err (unsupported_updates (k ∷ ks)), s)

    abbrev pub validated : ChangeRecord → Call ChangeRecord
    validated r s = elim (validate_state_and_timestamps r) [
      | ok r' ↦ (ok r', s)
      | err message ↦ (err (validation_error message), s)
    ]

    -- The `try`/`except` around the commit.
    abbrev pub settle :
        ChangeRecord
        → TransitionRequest
        → AuditEvent
        → ChangeRecord
        → Result PersistenceError (Unit {0}) × State
        → Result TransitionError ChangeRecord × State
    settle current q event updated (ok _, s) = (ok updated, s)
    settle current q event updated (err (optimistic_concurrency c expected actual), s) =
        (call (record_audit (conflict current q event expected actual))
            >> raise (persistence (optimistic_concurrency c expected actual)))
          s
    settle current q event updated (err e, s) = (err (persistence e), s)

    unfoldable pub commit : ChangeRecord → TransitionRequest → Reading → String → Call ChangeRecord
    commit current q now audit_id = do
      updated ← validated (updated_record current q now)
      let event = acceptance current q now audit_id updated
      λ s. settle current q event updated (commit_transition updated event q.expected_version s)

    unfoldable pub transition : TransitionRequest → Reading → String → Call ChangeRecord
    transition q now audit_id = do
      current ← call (get q.tenant_id q.change_id)
      check_clock now current
      reject_unsupported (unsupported_fields q.record_updates)
      if can_transition current.status q.target
          then commit current q now audit_id
          else (call (record_audit (rejection current q now audit_id))
              >> raise (invalid_state_transition current.status q.target audit_id))
