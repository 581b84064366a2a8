-- ===== src/StateMachine/Guarantees.antt =====
-- What the transition service guarantees of the stored changes, of the audit stream, and to two
-- writers of one change.
use enterprise_change_ops.Base.{
  ℕ, ◌∙◌, ◌+◌, String, Bool, true, false, ◌&&◌, ◌≡◌, refl, some, ok, err, arith, ◌==◌,
  if◌then◌else◌, nat_eq, pair_eq, string_eq, Bool-cases, inl, inr, sym, ap, same_refl, some_inj,
}
use enterprise_change_ops.Contracts.Enums.{AuditStatus, success}
use enterprise_change_ops.Contracts.Models.{ChangeRecord, AuditEvent}
use enterprise_change_ops.Contracts.Canonical.{Codec}
use enterprise_change_ops.Persistence.Errors.{optimistic_concurrency}
use enterprise_change_ops.Persistence.Protocol.{ChangeStateRepository}
use enterprise_change_ops.StateMachine.Table.{can_transition}
use enterprise_change_ops.StateMachine.Service.{
  TransitionRequest, Reading, transition, rejection, acceptance, conflict, updated_record,
  build_audit_event, persistence, invalid_state_transition,
}
use enterprise_change_ops.StateMachine.Outcomes.{
  IsReady, transition-accepted, transition-rejected, transition-stale, updated_record-scope,
}

-- The table permits the transition, and the caller has the stored version.
abbrev pub permits : ChangeRecord → TransitionRequest → Bool
permits current q = can_transition current.status q.target && current.version == q.expected_version

abbrev pub result_status : Bool → AuditStatus
result_status true = success
result_status false = AuditStatus.rejected

module _ (codec : Codec) (repository : ChangeStateRepository) (q : TransitionRequest)
    (now : Reading) (audit_id : String) (current : ChangeRecord) (s : repository.State)
    (ready : IsReady codec repository q now audit_id current s) where
  abbrev new : ChangeRecord
  new = updated_record current q now

  abbrev accepted : AuditEvent
  accepted = acceptance codec current q now audit_id new

  abbrev rejected_event : AuditEvent
  rejected_event = rejection codec current q now audit_id

  abbrev conflict_event : AuditEvent
  conflict_event = conflict codec current q accepted q.expected_version current.version

  rejected_run :
      can_transition current.status q.target ≡ false
      → transition codec repository q now audit_id s ≡ (
        err (invalid_state_transition current.status q.target audit_id),
        repository.noted rejected_event s,
      )
  rejected_run = transition-rejected codec repository q now audit_id current s ready

  accepted_run :
      can_transition current.status q.target ≡ true
      → (current.version == q.expected_version) ≡ true
      → transition codec repository q now audit_id s ≡ (ok new, repository.committed new accepted s)
  accepted_run edge same =
      transition-accepted codec repository q now audit_id current s ready edge
        ((nat_eq.same_iff _ _).0 same)

  stale_run :
      can_transition current.status q.target ≡ true
      → (current.version == q.expected_version) ≡ false
      → transition codec repository q now audit_id s ≡ (
        err (
            persistence
              (optimistic_concurrency current.change_id q.expected_version current.version)),
        repository.noted conflict_event s,
      )
  stale_run edge old =
      transition-stale codec repository q now audit_id current s ready edge
        (λ e. cc (old, (nat_eq.same_iff _ _).1 e))

  new_stored :
      (k : String × String)
      → repository.stored (repository.committed new accepted s) k
        ≡ (if (q.tenant_id, q.change_id) == k then some new else repository.stored s k)
  new_stored k = simp (
    repository.stored-committed,
    (updated_record-scope current q now).0,
    (updated_record-scope current q now).1,
    ready.tenant,
    ready.change,
  )

  -- A call is made for a stored, well-formed change, with an aware clock that has not gone back, with
  -- updates of supported fields only, and with a new audit identifier. Then, if the table permits the
  -- transition and the expected version is the stored one, the call stores the updated change under
  -- its key, and every other change stays as it was; otherwise all changes stay as they were.
  pub transition-stored :
      (k : String × String)
      → repository.stored (transition codec repository q now audit_id s).1 k ≡ (
          if permits current q && (q.tenant_id, q.change_id) == k
          then some new
          else repository.stored s k)
  transition-stored k = elim (Bool-cases (can_transition current.status q.target)) [
    | inr no_edge ↦ rw (no_edge, rejected_run no_edge) (repository.stored-noted _ s k)
    | inl edge ↦ elim (Bool-cases (current.version == q.expected_version)) [
      | inl same ↦ rw (edge, same, accepted_run edge same) (new_stored k)
      | inr old ↦ rw (edge, old, stale_run edge old) (repository.stored-noted _ s k)
    ]
  ]

  -- Under the same conditions, whether the transition is permitted or not, a call stores one new
  -- audit event under its own identifier and leaves the others as they were. The event's status is
  -- SUCCESS if the table permits the transition and the expected version is the stored one, and
  -- REJECTED otherwise.
  pub transition-audited :
      (event : AuditEvent) × (event.status ≡ result_status (permits current q))
      × ((k : String × String)
          → repository.audited (transition codec repository q now audit_id s).1 k
            ≡ (if (q.tenant_id, audit_id) == k then some event else repository.audited s k))
  unfolding rejection acceptance conflict build_audit_event
  transition-audited = elim (Bool-cases (can_transition current.status q.target)) [
    | inr no_edge ↦
        rw (no_edge, rejected_run no_edge)
          (rejected_event, refl, λ k. simp (repository.audited-noted, ready.tenant))
    | inl edge ↦ elim (Bool-cases (current.version == q.expected_version)) [
      | inl same ↦
          rw (edge, same, accepted_run edge same)
            (accepted, refl, λ k. simp (repository.audited-committed, ready.tenant))
      | inr old ↦
          rw (edge, old, stale_run edge old)
            (conflict_event, refl, λ k. simp (repository.audited-noted, ready.tenant))
    ]
  ]

new-version :
    (current : ChangeRecord) (q : TransitionRequest) (now : Reading)
    → (updated_record current q now).version ≡ q.expected_version + 1
unfolding updated_record
new-version current q now = refl

version_moved : (n m : ℕ) → n ≡ m + 1 → (n == m) ≡ false
version_moved n m h = ground arith

second_false : (a b : Bool) → b ≡ false → (a && b) ≡ false
second_false a b h = ground arith

-- Of two writers of one change that read the same version, only the first one's update is stored:
-- after a transition that the table and the stored version permit, a second call for the change with
-- the same expected version, made with an aware clock that has not gone back, supported updates and a
-- new audit identifier, leaves every change as it was.
pub second_writer_stores_nothing :
    (codec : Codec) (repository : ChangeStateRepository) (q q' : TransitionRequest)
    (now now' : Reading) (audit_id audit_id' : String) (current current' : ChangeRecord)
    (s : repository.State)
    → IsReady codec repository q now audit_id current s
    → permits current q ≡ true
    → q'.tenant_id ≡ q.tenant_id
    → q'.change_id ≡ q.change_id
    → q'.expected_version ≡ q.expected_version
    → IsReady codec repository q' now' audit_id' current'
        (transition codec repository q now audit_id s).1
    → (k : String × String)
    → let s' = (transition codec repository q now audit_id s).1 in
      repository.stored (transition codec repository q' now' audit_id' s').1 k
      ≡ repository.stored s' k
second_writer_stores_nothing codec repository q q' now now' audit_id audit_id' current current' s
      ready permitted t c v ready' k =
    transition-stored codec repository q' now' audit_id' current'
      (transition codec repository q now audit_id s).1 ready' k
    ∙ rw refused
  where
    found' :
        repository.stored
          (transition codec repository q now audit_id s).1
          (q.tenant_id, q.change_id)
        ≡ some current'
    found' = simp (← t, ← c) ready'.found

    stored_first :
        repository.stored
          (transition codec repository q now audit_id s).1
          (q.tenant_id, q.change_id)
        ≡ some (updated_record current q now)
    stored_first =
        transition-stored codec repository q now audit_id current s ready (q.tenant_id, q.change_id)
        ∙ rw (permitted, same_refl q.tenant_id, same_refl q.change_id)

    moved : current'.version ≡ q'.expected_version + 1
    moved =
        ap (λ (r : ChangeRecord). r.version) (sym (some_inj (sym stored_first ∙ found')))
        ∙ new-version current q now
        ∙ rw v

    refused : permits current' q' ≡ false
    refused =
        second_false (can_transition current'.status q'.target) _
          (version_moved current'.version q'.expected_version moved)
