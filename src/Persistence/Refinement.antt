-- ===== src/Persistence/Refinement.antt =====
-- The in-memory store keeps the promises of `ChangeStateRepository`.
use enterprise_change_ops.Base.{
  ℕ, ◌+◌, String, string_eq, pair_eq, ◌≡◌, ◌≢◌, refl, arith, ok, err, none, some,
}
use enterprise_change_ops.Base.Dict.{lookup, lookup-insert}
use enterprise_change_ops.Contracts.Models.{ChangeRecord, AuditEvent}
use enterprise_change_ops.Persistence.Errors.{optimistic_concurrency}
use enterprise_change_ops.Persistence.Protocol.{ChangeStateRepository}
use enterprise_change_ops.Persistence.Memory.{
  Store, get, commit_transition, record_audit, append_audit, put_change, change_key, audit_key,
  missing, or_empty,
}

pub get_found :
    (t c : String) (s : Store) {r : ChangeRecord}
    → lookup (t, c) s.changes ≡ some r
    → get t c s ≡ (ok r, s)
unfolding get
get_found t c s h = ground arith

pub get_missing :
    (t c : String) (s : Store)
    → lookup (t, c) s.changes ≡ none
    → get t c s ≡ (err (missing (or_empty (lookup c s.tenants_by_change_id)) t c), s)
unfolding get
get_missing t c s h = ground arith

pub record_audit_new :
    (event : AuditEvent) (s : Store) {r : ChangeRecord}
    → lookup (event.tenant_id, event.change_id) s.changes ≡ some r
    → lookup (event.tenant_id, event.audit_event_id) s.audit ≡ none
    → record_audit event s ≡ (ok tt, append_audit event s)
unfolding record_audit
record_audit_new event s h n = ground arith

module _ (change : ChangeRecord) (event : AuditEvent) (v : ℕ) (s : Store) {r : ChangeRecord} where
  pub commit_current :
      lookup (change.tenant_id, change.change_id) s.changes ≡ some r
      → event.tenant_id ≡ change.tenant_id
      → event.change_id ≡ change.change_id
      → lookup (event.tenant_id, event.audit_event_id) s.audit ≡ none
      → r.version ≡ v
      → change.version ≡ v + 1
      → commit_transition change event v s ≡ (ok tt, append_audit event (put_change change s))
  unfolding commit_transition
  commit_current h t c n cur new = ground (
    arith,
    string_eq.same_iff event.tenant_id change.tenant_id,
    string_eq.same_iff event.change_id change.change_id,
  )

  pub commit_stale :
      lookup (change.tenant_id, change.change_id) s.changes ≡ some r
      → event.tenant_id ≡ change.tenant_id
      → event.change_id ≡ change.change_id
      → lookup (event.tenant_id, event.audit_event_id) s.audit ≡ none
      → r.version ≢ v
      → commit_transition change event v s
        ≡ (err (optimistic_concurrency change.change_id v r.version), s)
  unfolding commit_transition
  commit_stale h t c n old = ground (
    arith,
    string_eq.same_iff event.tenant_id change.tenant_id,
    string_eq.same_iff event.change_id change.change_id,
  )

-- The in-memory store as a repository.
abbrev pub memory : ChangeStateRepository
memory = record {
  State = Store;
  get = get;
  commit_transition = commit_transition;
  record_audit = record_audit;
  stored = λ s k. lookup k s.changes;
  audited = λ s k. lookup k s.audit;
  committed = λ change event s. append_audit event (put_change change s);
  noted = append_audit;
  missing = λ t c s. missing (or_empty (lookup c s.tenants_by_change_id)) t c;
  get_found = get_found;
  get_missing = get_missing;
  record_audit_new = record_audit_new;
  commit_current = commit_current;
  commit_stale = commit_stale;
  stored-committed = λ change event s k. lookup-insert (change_key change) k change s.changes;
  audited-committed = λ change event s k. lookup-insert (audit_key event) k event s.audit;
  stored-noted = λ event s k. refl;
  audited-noted = λ event s k. lookup-insert (audit_key event) k event s.audit;
}
