-- ===== src/Persistence/Runs.antt =====
-- Any calls, one after another: the lock makes every interleaving of threads such a list. What
-- holds of the in-memory store after all of them, and what a call of one tenant leaves alone.
use enterprise_change_ops.Base.{
  ℕ, String, true, ◌≡◌, ◌⊎◌, inl, inr, Option, none, List, [], ◌∷◌, arith, pair_eq, string_eq,
  nat_eq,
}
use enterprise_change_ops.Base.Dict.{lookup, lookup-insert}
use enterprise_change_ops.Contracts.Models.{ChangeRecord, AuditEvent}
use enterprise_change_ops.Persistence.Memory.{
  Store, or_empty, is_some, add, add_with_audit, commit_transition, record_audit, list_audit_after,
  put_change, index_tenant, append_audit, change_key, audit_key, touch,
}
use enterprise_change_ops.Persistence.Consistency.{
  IsConsistent, put_new-IsConsistent, put_again-IsConsistent, append_audit-IsConsistent,
  or_empty-insert,
}

-- The methods that write. The other methods only read.
pub data Call : Type 0 where
  adding : ChangeRecord → Call
  adding_with_audit : ChangeRecord → AuditEvent → Call
  committing : ChangeRecord → AuditEvent → ℕ → Call
  recording : AuditEvent → Call
  paging : String → String → Option String → ℕ → Call

abbrev pub run : Call → Store → Store
run (adding change) s = (add change s).1
run (adding_with_audit change event) s = (add_with_audit change event s).1
run (committing change event v) s = (commit_transition change event v s).1
run (recording event) s = (record_audit event s).1
run (paging t c after n) s = (list_audit_after t c after n s).1

abbrev pub run_all : List Call → Store → Store
run_all [] s = s
run_all (call ∷ calls) s = run_all calls (run call s)

-- The tenant in whose scope a call is made.
abbrev pub caller : Call → String
caller (adding change) = change.tenant_id
caller (adding_with_audit change event) = change.tenant_id
caller (committing change event v) = change.tenant_id
caller (recording event) = event.tenant_id
caller (paging t c after n) = t

touch-IsConsistent : (t c : String) (s : Store) → IsConsistent s → IsConsistent (touch (t, c) s)
touch-IsConsistent t c s v = record {
  keyed = v.keyed;
  indexed = v.indexed;
  audited = v.audited;
  listed = λ t' c' i. ground (
    arith,
    v.listed t' c' i,
    or_empty-insert (t, c) (t', c') (or_empty (lookup (t, c) s.audit_ids_by_change))
        s.audit_ids_by_change,
    string_eq.same_iff t t',
    string_eq.same_iff c c',
  );
}

-- How each call ends: it raises and leaves the state alone, or it has written all that it writes.
pub add-run :
    (change : ChangeRecord) (s : Store)
    → (run (adding change) s ≡ s)
      ⊎ ((lookup (change_key change) s.changes ≡ none)
          × (run (adding change) s ≡ index_tenant change (put_change change s)))
unfolding add
add-run change s = ground arith

pub add_with_audit-run :
    (change : ChangeRecord) (event : AuditEvent) (s : Store)
    → (run (adding_with_audit change event) s ≡ s)
      ⊎ ((lookup (change_key change) s.changes ≡ none)
          × (event.tenant_id ≡ change.tenant_id)
          × (event.change_id ≡ change.change_id)
          × (lookup (audit_key event) s.audit ≡ none)
          × (run (adding_with_audit change event) s
              ≡ append_audit event (index_tenant change (put_change change s))))
unfolding add_with_audit
add_with_audit-run change event s = ground (
  arith,
  string_eq.same_iff event.tenant_id change.tenant_id,
  string_eq.same_iff event.change_id change.change_id,
)

pub commit-run :
    (change : ChangeRecord) (event : AuditEvent) (v : ℕ) (s : Store)
    → (run (committing change event v) s ≡ s)
      ⊎ ((is_some (lookup (change_key change) s.changes) ≡ true)
          × (event.tenant_id ≡ change.tenant_id)
          × (event.change_id ≡ change.change_id)
          × (lookup (audit_key event) s.audit ≡ none)
          × (run (committing change event v) s ≡ append_audit event (put_change change s)))
unfolding commit_transition
commit-run change event v s = ground (
  arith,
  string_eq.same_iff event.tenant_id change.tenant_id,
  string_eq.same_iff event.change_id change.change_id,
)

pub record_audit-run :
    (event : AuditEvent) (s : Store)
    → (run (recording event) s ≡ s)
      ⊎ ((is_some (lookup (event.tenant_id, event.change_id) s.changes) ≡ true)
          × (lookup (audit_key event) s.audit ≡ none)
          × (run (recording event) s ≡ append_audit event s))
unfolding record_audit
record_audit-run event s = ground arith

pub list_audit_after-run :
    (t c : String) (after : Option String) (n : ℕ) (s : Store)
    → (run (paging t c after n) s ≡ s) ⊎ (run (paging t c after n) s ≡ touch (t, c) s)
unfolding list_audit_after
list_audit_after-run t c after n s = ground arith

stored_here :
    (change : ChangeRecord) (s : Store)
    → is_some (lookup (change_key change) (put_change change s).changes) ≡ true
stored_here change s = ground (
  arith,
  lookup-insert (change_key change) (change_key change) change s.changes,
  string_eq.same_iff change.tenant_id change.tenant_id,
  string_eq.same_iff change.change_id change.change_id,
)

run-IsConsistent : (call : Call) (s : Store) → IsConsistent s → IsConsistent (run call s)
run-IsConsistent (adding change) s v = elim (add-run change s) [
  | inl same ↦ rw same v
  | inr (new, e) ↦ rw e (put_new-IsConsistent change s v)
]
run-IsConsistent (adding_with_audit change event) s v = elim (add_with_audit-run change event s) [
  | inl same ↦ rw same v
  | inr (new, t, c, fresh, e) ↦ rw e (
      append_audit-IsConsistent event (index_tenant change (put_change change s))
        (put_new-IsConsistent change s v) (simp (t, c) (stored_here change s)) fresh)
]
run-IsConsistent (committing change event n) s v = elim (commit-run change event n s) [
  | inl same ↦ rw same v
  | inr (old, t, c, fresh, e) ↦ rw e (
      append_audit-IsConsistent event (put_change change s) (put_again-IsConsistent change s v old)
        (simp (t, c) (stored_here change s)) fresh)
]
run-IsConsistent (recording event) s v = elim (record_audit-run event s) [
  | inl same ↦ rw same v
  | inr (known, fresh, e) ↦ rw e (append_audit-IsConsistent event s v known fresh)
]
run-IsConsistent (paging t c after n) s v = elim (list_audit_after-run t c after n s) [
  | inl same ↦ rw same v
  | inr e ↦ rw e (touch-IsConsistent t c s v)
]

-- If the dictionaries of the store agree (each change and audit event stands under its own key, the
-- tenant index has just the owners of a change identifier, each audit event's change is stored, and
-- each change's list has just the identifiers of its audit events), they agree after any list of
-- calls.
pub run_all-IsConsistent :
    (calls : List Call) (s : Store) → IsConsistent s → IsConsistent (run_all calls s)
run_all-IsConsistent [] s v = v
run_all-IsConsistent (call ∷ calls) s v =
    run_all-IsConsistent calls (run call s) (run-IsConsistent call s v)
