-- ===== src/Persistence/Consistency.antt =====
-- The four dictionaries of the in-memory store agree after any calls.
use enterprise_change_ops.Base.{
  String, Bool, true, false, ◌||◌, ◌≡◌, refl, Option, none, some, List, [], ◌∷◌, ◌++◌, contains,
  contains-append_one, arith, ◌==◌, if◌then◌else◌, pair_eq, string_eq, Comparable,
}
use enterprise_change_ops.Base.Dict.{lookup, insert, lookup-insert}
use enterprise_change_ops.Contracts.Models.{ChangeRecord, AuditEvent}
use enterprise_change_ops.Persistence.Memory.{
  Store, init, or_empty, is_some, add_tenant, put_change, index_tenant, append_audit, change_key,
  audit_key,
}

-- The event under a key belongs to the change.
abbrev pub is_of_change : String → Option AuditEvent → Bool
is_of_change c none = false
is_of_change c (some e) = e.change_id == c

pub record IsConsistent (s : Store) : Type 0 where
  -- a change stands under its own key
  pub keyed :
      (t c : String) (r : ChangeRecord)
      → lookup (t, c) s.changes ≡ some r
      → (r.tenant_id ≡ t) × (r.change_id ≡ c)
  -- the index holds just the tenants that have a change of the identifier
  pub indexed :
      (t c : String)
      → contains (or_empty (lookup c s.tenants_by_change_id)) t ≡ is_some (lookup (t, c) s.changes)
  -- an audit event stands under its own key, and its change is stored
  pub audited :
      (t i : String) (e : AuditEvent)
      → lookup (t, i) s.audit ≡ some e
      → (e.tenant_id ≡ t)
        × (e.audit_event_id ≡ i)
        × (is_some (lookup (t, e.change_id) s.changes) ≡ true)
  -- a change's list holds just the identifiers of its audit events
  pub listed :
      (t c i : String)
      → contains (or_empty (lookup (t, c) s.audit_ids_by_change)) i
        ≡ is_of_change c (lookup (t, i) s.audit)

contains-add_tenant :
    (t a : String) (ts : List String) → contains (add_tenant t ts) a ≡ (a == t || contains ts a)
contains-add_tenant t a ts = ground (arith, string_eq.same_iff a t)

pub or_empty-insert :
    {K : Type 0} ⦃e : Comparable K⦄ (k j : K) (v : List String) (d : List (K × List String))
    → or_empty (lookup j (insert k v d)) ≡ (if k == j then v else or_empty (lookup j d))
or_empty-insert k j v d = ground (arith, lookup-insert k j v d)

pub init-IsConsistent : IsConsistent init
unfolding init lookup
init-IsConsistent = record {
  keyed = λ t c r h. cc;
  indexed = λ t c. refl;
  audited = λ t i e h. cc;
  listed = λ t c i. refl;
}

-- A new change with its entry in the index.
pub put_new-IsConsistent :
    (change : ChangeRecord) (s : Store)
    → IsConsistent s
    → IsConsistent (index_tenant change (put_change change s))
put_new-IsConsistent change s v = record {
  keyed = λ t c r h. ground (
    arith,
    v.keyed t c r,
    lookup-insert (change_key change) (t, c) change s.changes,
    string_eq.same_iff change.tenant_id t,
    string_eq.same_iff change.change_id c,
  );
  indexed = λ t c. ground (
    arith,
    v.indexed t c,
    lookup-insert (change_key change) (t, c) change s.changes,
    or_empty-insert change.change_id c
        (add_tenant change.tenant_id (or_empty (lookup change.change_id s.tenants_by_change_id)))
        s.tenants_by_change_id,
    contains-add_tenant change.tenant_id t
        (or_empty (lookup change.change_id s.tenants_by_change_id)),
    string_eq.same_iff change.tenant_id t,
    string_eq.same_iff t change.tenant_id,
    string_eq.same_iff change.change_id c,
  );
  audited = λ t i e h. ground (
    arith,
    v.audited t i e h,
    lookup-insert (change_key change) (t, e.change_id) change s.changes,
  );
  listed = v.listed;
}

-- A stored change is replaced.
pub put_again-IsConsistent :
    (change : ChangeRecord) (s : Store)
    → IsConsistent s
    → is_some (lookup (change_key change) s.changes) ≡ true
    → IsConsistent (put_change change s)
put_again-IsConsistent change s v old = record {
  keyed = λ t c r h. ground (
    arith,
    v.keyed t c r,
    lookup-insert (change_key change) (t, c) change s.changes,
    string_eq.same_iff change.tenant_id t,
    string_eq.same_iff change.change_id c,
  );
  indexed = λ t c. ground (
    arith,
    v.indexed t c,
    lookup-insert (change_key change) (t, c) change s.changes,
    string_eq.same_iff change.tenant_id t,
    string_eq.same_iff change.change_id c,
  );
  audited = λ t i e h. ground (
    arith,
    v.audited t i e h,
    lookup-insert (change_key change) (t, e.change_id) change s.changes,
  );
  listed = v.listed;
}

-- An audit event with a new identifier, of a stored change.
pub append_audit-IsConsistent :
    (event : AuditEvent) (s : Store)
    → IsConsistent s
    → is_some (lookup (event.tenant_id, event.change_id) s.changes) ≡ true
    → lookup (audit_key event) s.audit ≡ none
    → IsConsistent (append_audit event s)
append_audit-IsConsistent event s v known fresh = record {
  keyed = v.keyed;
  indexed = v.indexed;
  audited = λ t i e h. ground (
    arith,
    v.audited t i e,
    lookup-insert (audit_key event) (t, i) event s.audit,
    string_eq.same_iff event.tenant_id t,
    string_eq.same_iff event.audit_event_id i,
  );
  listed = λ t c i. ground (
    arith,
    v.listed t c i,
    lookup-insert (audit_key event) (t, i) event s.audit,
    or_empty-insert (event.tenant_id, event.change_id) (t, c)
        (or_empty (lookup (event.tenant_id, event.change_id) s.audit_ids_by_change)
          ++ event.audit_event_id ∷ [])
        s.audit_ids_by_change,
    contains-append_one (or_empty (lookup (event.tenant_id, event.change_id) s.audit_ids_by_change))
        event.audit_event_id i,
    string_eq.same_iff event.tenant_id t,
    string_eq.same_iff event.change_id c,
    string_eq.same_iff event.audit_event_id i,
    string_eq.same_iff i event.audit_event_id,
  );
}
