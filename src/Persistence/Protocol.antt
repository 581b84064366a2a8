-- ===== src/Persistence/Protocol.antt =====
-- packages/persistence/src/changeops_persistence/protocols.py: the part of
-- `ChangeStateRepository` that the transition service calls, with what it promises. A state is
-- seen through the change and the audit event that stand under a key.
use enterprise_change_ops.Base.{
  ℕ, ◌+◌, String, ◌≡◌, ◌≢◌, Option, none, some, ok, err, Exec, ◌==◌, pair_eq, string_eq,
  if◌then◌else◌,
}
use enterprise_change_ops.Contracts.Models.{ChangeRecord, AuditEvent}
use enterprise_change_ops.Persistence.Errors.{PersistenceError, optimistic_concurrency}

pub record ChangeStateRepository : Type 1 where
  pub State : Type 0
  pub get : String → String → Exec State PersistenceError ChangeRecord
  pub commit_transition : ChangeRecord → AuditEvent → ℕ → Exec State PersistenceError (Unit {0})
  pub record_audit : AuditEvent → Exec State PersistenceError (Unit {0})
  pub stored : State → String × String → Option ChangeRecord
  pub audited : State → String × String → Option AuditEvent
  -- the state after a commit, and after an audit event alone
  pub committed : ChangeRecord → AuditEvent → State → State
  pub noted : AuditEvent → State → State
  -- what `get` raises where nothing is stored
  pub missing : String → String → State → PersistenceError
  pub get_found :
      (t c : String) (s : State) {r : ChangeRecord}
      → stored s (t, c) ≡ some r
      → get t c s ≡ (ok r, s)
  pub get_missing :
      (t c : String) (s : State) → stored s (t, c) ≡ none → get t c s ≡ (err (missing t c s), s)
  pub record_audit_new :
      (event : AuditEvent) (s : State) {r : ChangeRecord}
      → stored s (event.tenant_id, event.change_id) ≡ some r
      → audited s (event.tenant_id, event.audit_event_id) ≡ none
      → record_audit event s ≡ (ok tt, noted event s)
  pub commit_current :
      (change : ChangeRecord) (event : AuditEvent) (v : ℕ) (s : State) {r : ChangeRecord}
      → stored s (change.tenant_id, change.change_id) ≡ some r
      → event.tenant_id ≡ change.tenant_id
      → event.change_id ≡ change.change_id
      → audited s (event.tenant_id, event.audit_event_id) ≡ none
      → r.version ≡ v
      → change.version ≡ v + 1
      → commit_transition change event v s ≡ (ok tt, committed change event s)
  pub commit_stale :
      (change : ChangeRecord) (event : AuditEvent) (v : ℕ) (s : State) {r : ChangeRecord}
      → stored s (change.tenant_id, change.change_id) ≡ some r
      → event.tenant_id ≡ change.tenant_id
      → event.change_id ≡ change.change_id
      → audited s (event.tenant_id, event.audit_event_id) ≡ none
      → r.version ≢ v
      → commit_transition change event v s
        ≡ (err (optimistic_concurrency change.change_id v r.version), s)
  pub stored-committed :
      (change : ChangeRecord) (event : AuditEvent) (s : State) (k : String × String)
      → stored (committed change event s) k
        ≡ (if (change.tenant_id, change.change_id) == k then some change else stored s k)
  pub audited-committed :
      (change : ChangeRecord) (event : AuditEvent) (s : State) (k : String × String)
      → audited (committed change event s) k
        ≡ (if (event.tenant_id, event.audit_event_id) == k then some event else audited s k)
  pub stored-noted :
      (event : AuditEvent) (s : State) (k : String × String) → stored (noted event s) k ≡ stored s k
  pub audited-noted :
      (event : AuditEvent) (s : State) (k : String × String)
      → audited (noted event s) k
        ≡ (if (event.tenant_id, event.audit_event_id) == k then some event else audited s k)
