-- ===== src/Persistence/Atomic.antt =====
-- A write of the repository happens whole or not at all.
use enterprise_change_ops.Base.{ℕ, string_eq, pair_eq, ◌≡◌, arith, Result, ok, err}
use enterprise_change_ops.Contracts.Models.{ChangeRecord, AuditEvent}
use enterprise_change_ops.Persistence.Errors.{PersistenceError}
use enterprise_change_ops.Persistence.Memory.{
  Store, add_with_audit, commit_transition, append_audit, put_change, index_tenant,
}

-- How a call that began at `s` has ended: with the state `t`, or with an error and `s`.
abbrev pub IsAtomic : {A : Type 0} → Store → Store → Result PersistenceError A × Store → Type 0
IsAtomic s t (ok _, s') = s' ≡ t
IsAtomic s t (err _, s') = s' ≡ s

-- A commit writes the change and its audit event, or raises and writes nothing.
pub commit_transition-IsAtomic :
    (change : ChangeRecord) (event : AuditEvent) (v : ℕ) (s : Store)
    → IsAtomic s (append_audit event (put_change change s)) (commit_transition change event v s)
unfolding commit_transition
commit_transition-IsAtomic change event v s = ground arith

-- Accepting a change stores it, indexes its tenant and appends its audit event, or raises and
-- writes nothing.
pub add_with_audit-IsAtomic :
    (change : ChangeRecord) (event : AuditEvent) (s : Store)
    → IsAtomic s
        (append_audit event (index_tenant change (put_change change s)))
        (add_with_audit change event s)
unfolding add_with_audit
add_with_audit-IsAtomic change event s = ground arith
