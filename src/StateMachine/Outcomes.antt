-- ===== src/StateMachine/Outcomes.antt =====
-- What a call of `transition` does, case by case, over any repository that keeps its promises.
use enterprise_change_ops.Base.{
  ◌+◌, ◌≤◌, String, true, false, ◌≡◌, ◌≢◌, refl, none, some, List, [], ◌∷◌, ok, err, arith,
  if◌then◌else◌, pair_eq, string_eq, ◌>>◌, raise, le→ltb, ltb, raise_if-pass, ◌∙◌, sym,
}
use enterprise_change_ops.Contracts.Enums.{WorkflowState-discrete, state_eq}
use enterprise_change_ops.Contracts.Models.{ChangeRecord, AuditEvent}
use enterprise_change_ops.Contracts.ChangeRecords.{validate_state_and_timestamps}
use enterprise_change_ops.Contracts.Canonical.{Codec}
use enterprise_change_ops.Persistence.Errors.{optimistic_concurrency}
use enterprise_change_ops.Persistence.Protocol.{ChangeStateRepository}
use enterprise_change_ops.StateMachine.Table.{can_transition}
use enterprise_change_ops.StateMachine.Service.{
  TransitionRequest, Reading, RecordUpdate, workflow_execution_id, plan_version, plan_hash,
  risk_level, unsupported, unsupported_fields, apply_updates, apply_update, transition, commit,
  rejection, acceptance, updated_record, call, settle, validated, conflict, build_audit_event,
  persistence, invalid_state_transition,
}

-- The updates leave a change's keys and its creation time alone.
apply_updates-scope :
    (us : List RecordUpdate) (r : ChangeRecord)
    → ((apply_updates us r).tenant_id ≡ r.tenant_id)
      × ((apply_updates us r).change_id ≡ r.change_id)
      × ((apply_updates us r).created_at ≡ r.created_at)
apply_updates-scope [] r = (refl, refl, refl)
apply_updates-scope (workflow_execution_id w ∷ us) r =
    apply_updates-scope us (apply_update (workflow_execution_id w) r)
apply_updates-scope (plan_version n ∷ us) r =
    apply_updates-scope us (apply_update (plan_version n) r)
apply_updates-scope (plan_hash h ∷ us) r = apply_updates-scope us (apply_update (plan_hash h) r)
apply_updates-scope (risk_level l ∷ us) r = apply_updates-scope us (apply_update (risk_level l) r)
apply_updates-scope (unsupported k ∷ us) r = apply_updates-scope us r

pub updated_record-scope :
    (current : ChangeRecord) (q : TransitionRequest) (now : Reading)
    → ((updated_record current q now).tenant_id ≡ current.tenant_id)
      × ((updated_record current q now).change_id ≡ current.change_id)
      × ((updated_record current q now).created_at ≡ current.created_at)
unfolding updated_record
updated_record-scope current q now = apply_updates-scope q.record_updates current

-- A change as the repository keeps it.
pub record IsWellFormed (r : ChangeRecord) : Type 0 where
  pub phase : r.current_phase ≡ r.status
  pub times : r.created_at ≤ r.updated_at

updated_record-validated :
    (current : ChangeRecord) (q : TransitionRequest) (now : Reading)
    → IsWellFormed current
    → current.updated_at ≤ now.instant
    → validate_state_and_timestamps (updated_record current q now)
      ≡ ok (updated_record current q now)
unfolding validate_state_and_timestamps updated_record WorkflowState-discrete
updated_record-validated current q now w le =
    ground
      (arith, apply_updates-scope q.record_updates current, state_eq.same_iff q.target q.target)

-- What a call of `transition` needs, whatever the versions are.
pub record IsReady (codec : Codec) (repository : ChangeStateRepository) (q : TransitionRequest)
    (now : Reading) (audit_id : String) (current : ChangeRecord) (s : repository.State)
    : Type 0 where
  pub found : repository.stored s (q.tenant_id, q.change_id) ≡ some current
  pub tenant : current.tenant_id ≡ q.tenant_id
  pub change : current.change_id ≡ q.change_id
  pub well_formed : IsWellFormed current
  pub aware : now.is_aware ≡ true
  pub later : current.updated_at ≤ now.instant
  pub supported : unsupported_fields q.record_updates ≡ []
  pub fresh : repository.audited s (q.tenant_id, audit_id) ≡ none

module _ (codec : Codec) (repository : ChangeStateRepository) (q : TransitionRequest)
    (now : Reading) (audit_id : String) (current : ChangeRecord) (s : repository.State)
    (ready : IsReady codec repository q now audit_id current s) where
  at_table :
      transition codec repository q now audit_id s
      ≡ (if can_transition current.status q.target
            then commit codec repository current q now audit_id
            else (call codec repository
                  (repository.record_audit (rejection codec current q now audit_id))
                >> raise (invalid_state_transition current.status q.target audit_id)))
          s
  unfolding transition
  at_table =
      rw (repository.get_found q.tenant_id q.change_id s ready.found, ready.aware)
        (raise_if-pass (ltb now.instant current.updated_at) _ _ s (le→ltb _ _ ready.later)
          ∙ rw ready.supported)

  current_stored : repository.stored s (current.tenant_id, current.change_id) ≡ some current
  current_stored = simp (ready.tenant, ready.change) ready.found

  current_fresh : repository.audited s (current.tenant_id, audit_id) ≡ none
  current_fresh = rw ready.tenant ready.fresh

  -- A transition that the table does not permit raises, stores one audit event that says so, and
  -- leaves every change as it was.
  pub transition-rejected :
      can_transition current.status q.target ≡ false
      → transition codec repository q now audit_id s ≡ (
        err (invalid_state_transition current.status q.target audit_id),
        repository.noted (rejection codec current q now audit_id) s,
      )
  unfolding rejection build_audit_event
  transition-rejected no_edge =
      at_table
      ∙ rw (
        no_edge,
        repository.record_audit_new (rejection codec current q now audit_id) s current_stored
            current_fresh,
      )

  abbrev updated : ChangeRecord
  updated = updated_record current q now

  updated-tenant : updated.tenant_id ≡ current.tenant_id
  updated-tenant = (updated_record-scope current q now).0

  updated-change : updated.change_id ≡ current.change_id
  updated-change = (updated_record-scope current q now).1

  updated_stored : repository.stored s (updated.tenant_id, updated.change_id) ≡ some current
  updated_stored = simp (updated-tenant, updated-change) current_stored

  updated-version : updated.version ≡ q.expected_version + 1
  unfolding updated_record
  updated-version = refl

  abbrev event : AuditEvent
  event = acceptance codec current q now audit_id updated

  committing :
      can_transition current.status q.target ≡ true
      → transition codec repository q now audit_id s
        ≡ settle codec repository current q event updated
            (repository.commit_transition updated event q.expected_version s)
  unfolding commit
  committing edge =
      at_table
      ∙ rw (edge, updated_record-validated current q now ready.well_formed ready.later, validated)

  pub transition-accepted :
      can_transition current.status q.target ≡ true
      → current.version ≡ q.expected_version
      → transition codec repository q now audit_id s
        ≡ (ok updated, repository.committed updated event s)
  unfolding acceptance build_audit_event
  transition-accepted edge same =
      committing edge
      ∙ rw (
          repository.commit_current updated event q.expected_version s updated_stored
            (sym updated-tenant) (sym updated-change) current_fresh same updated-version)

  pub transition-stale :
      can_transition current.status q.target ≡ true
      → current.version ≢ q.expected_version
      → transition codec repository q now audit_id s ≡ (
        err (
            persistence
              (optimistic_concurrency current.change_id q.expected_version current.version)),
        repository.noted (conflict codec current q event q.expected_version current.version) s,
      )
  unfolding acceptance build_audit_event conflict
  transition-stale edge old =
      committing edge
      ∙ rw (
        repository.commit_stale updated event q.expected_version s updated_stored
            (sym updated-tenant) (sym updated-change) current_fresh old,
        updated-change,
        repository.record_audit_new
            (conflict codec current q event q.expected_version current.version) s current_stored
            current_fresh,
      )
