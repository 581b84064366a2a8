-- ===== src/Persistence/Isolation.antt =====
-- What the store promises to each tenant: no other tenant's calls change what it sees, and a read
-- never shows it another tenant's change.
use enterprise_change_ops.Base.{
  String, true, false, ◌≡◌, ◌≢◌, refl, ap, ◌⊎◌, inl, inr, none, List, [], ◌∷◌, ◌++◌, arith, pair_eq,
  string_eq, Result, ok, err, Option-cases,
}
use enterprise_change_ops.Base.Dict.{lookup, lookup-insert}
use enterprise_change_ops.Contracts.Models.{ChangeRecord, AuditEvent}
use enterprise_change_ops.Persistence.Refinement.{get_found}
use enterprise_change_ops.Persistence.Errors.{
  PersistenceError, change_not_found, tenant_scope_violation,
}
use enterprise_change_ops.Persistence.Memory.{
  Store, or_empty, is_some, get, put_change, index_tenant, append_audit, change_key, audit_key,
  touch,
}
use enterprise_change_ops.Persistence.Consistency.{IsConsistent, or_empty-insert}
use enterprise_change_ops.Persistence.Runs.{
  Call, adding, adding_with_audit, committing, recording, paging, run, run_all, caller, add-run,
  add_with_audit-run, commit-run, record_audit-run, list_audit_after-run,
}

-- The two states look the same to a tenant.
pub record SameFor (t : String) (s s' : Store) : Type 0 where
  pub changes : (c : String) → lookup (t, c) s'.changes ≡ lookup (t, c) s.changes
  pub audit : (i : String) → lookup (t, i) s'.audit ≡ lookup (t, i) s.audit
  pub audit_ids :
      (c : String)
      → or_empty (lookup (t, c) s'.audit_ids_by_change)
        ≡ or_empty (lookup (t, c) s.audit_ids_by_change)

SameFor-refl : (t : String) (s : Store) → SameFor t s s
SameFor-refl t s = record { changes = λ c. refl; audit = λ i. refl; audit_ids = λ c. refl }

SameFor-trans :
    {t : String} {s s' s'' : Store} → SameFor t s s' → SameFor t s' s'' → SameFor t s s''
SameFor-trans p q = record {
  changes = λ c. cc (p.changes c, q.changes c);
  audit = λ i. cc (p.audit i, q.audit i);
  audit_ids = λ c. cc (p.audit_ids c, q.audit_ids c);
}

module _ (t : String) where
  put-SameFor :
      (change : ChangeRecord) (s : Store) → change.tenant_id ≢ t → SameFor t s (put_change change s)
  put-SameFor change s other = record {
    changes = λ c. ground (
      arith,
      lookup-insert (change_key change) (t, c) change s.changes,
      string_eq.same_iff change.tenant_id t,
    );
    audit = λ i. refl;
    audit_ids = λ c. refl;
  }

  index-SameFor : (change : ChangeRecord) (s : Store) → SameFor t s (index_tenant change s)
  index-SameFor change s = record { changes = λ c. refl; audit = λ i. refl; audit_ids = λ c. refl }

  append-SameFor :
      (event : AuditEvent) (s : Store) → event.tenant_id ≢ t → SameFor t s (append_audit event s)
  append-SameFor event s other = record {
    changes = λ c. refl;
    audit = λ i. ground (
      arith,
      lookup-insert (audit_key event) (t, i) event s.audit,
      string_eq.same_iff event.tenant_id t,
    );
    audit_ids = λ c. ground (
      arith,
      or_empty-insert (event.tenant_id, event.change_id) (t, c)
          (or_empty (lookup (event.tenant_id, event.change_id) s.audit_ids_by_change)
            ++ event.audit_event_id ∷ [])
          s.audit_ids_by_change,
      string_eq.same_iff event.tenant_id t,
    );
  }

  touch-SameFor : (t' c' : String) (s : Store) → SameFor t s (touch (t', c') s)
  touch-SameFor t' c' s = record {
    changes = λ c. refl;
    audit = λ i. refl;
    audit_ids = λ c. ground (
      arith,
      or_empty-insert (t', c') (t, c) (or_empty (lookup (t', c') s.audit_ids_by_change))
          s.audit_ids_by_change,
      string_eq.same_iff t' t,
      string_eq.same_iff c' c,
    );
  }

  run-SameFor : (call : Call) (s : Store) → caller call ≢ t → SameFor t s (run call s)
  run-SameFor (adding change) s other = elim (add-run change s) [
    | inl same ↦ rw same (SameFor-refl t s)
    | inr (new, e) ↦
        rw e
          (SameFor-trans (put-SameFor change s other) (index-SameFor change (put_change change s)))
  ]
  run-SameFor (adding_with_audit change event) s other = elim (add_with_audit-run change event s) [
    | inl same ↦ rw same (SameFor-refl t s)
    | inr (new, scope, c, fresh, e) ↦ rw e (
        SameFor-trans
          (SameFor-trans (put-SameFor change s other) (index-SameFor change (put_change change s)))
          (append-SameFor event (index_tenant change (put_change change s)) (simp scope other)))
  ]
  run-SameFor (committing change event n) s other = elim (commit-run change event n s) [
    | inl same ↦ rw same (SameFor-refl t s)
    | inr (old, scope, c, fresh, e) ↦ rw e (
        SameFor-trans (put-SameFor change s other)
          (append-SameFor event (put_change change s) (simp scope other)))
  ]
  run-SameFor (recording event) s other = elim (record_audit-run event s) [
    | inl same ↦ rw same (SameFor-refl t s)
    | inr (known, fresh, e) ↦ rw e (append-SameFor event s other)
  ]
  run-SameFor (paging t' c after n) s other = elim (list_audit_after-run t' c after n s) [
    | inl same ↦ rw same (SameFor-refl t s)
    | inr e ↦ rw e (touch-SameFor t' c s)
  ]

  -- None of the calls is the tenant's.
  abbrev pub NoneOf : List Call → Type 0
  NoneOf [] = Unit
  NoneOf (call ∷ calls) = (caller call ≢ t) × NoneOf calls

  -- Calls of other tenants, however many, leave a tenant's changes, its audit events and the lists
  -- of its audit identifiers as they were.
  pub run_all-SameFor :
      (calls : List Call) (s : Store) → NoneOf calls → SameFor t s (run_all calls s)
  run_all-SameFor [] s others = SameFor-refl t s
  run_all-SameFor (call ∷ calls) s others =
      SameFor-trans (run-SameFor call s others.0) (run_all-SameFor calls (run call s) others.1)

get-reads : (t c : String) (s : Store) → (get t c s).1 ≡ s
unfolding get
get-reads t c s = ground arith

-- What a caller learns from the error of `get`.
abbrev pub Misses : String → String → Store → Type 0
Misses t c s =
    ((get t c s).0 ≡ err (tenant_scope_violation t c))
      × ((t' : String) × (t' ≢ t) × (is_some (lookup (t', c) s.changes) ≡ true))
    ⊎ ((get t c s).0 ≡ err (change_not_found t c))
      × ((t' : String) → is_some (lookup (t', c) s.changes) ≡ false)

get-Misses :
    (t c : String) (s : Store) (owners : List String)
    → IsConsistent s
    → lookup (t, c) s.changes ≡ none
    → or_empty (lookup c s.tenants_by_change_id) ≡ owners
    → Misses t c s
unfolding get
get-Misses t c s [] v absent e = inr (ground arith, λ t'. ground (arith, v.indexed t' c))
get-Misses t c s (x ∷ xs) v absent e = inl (
  ground arith,
  (
    x,
    (λ same. ground (arith, v.indexed x c, string_eq.same_iff x x)),
    ground (arith, v.indexed x c, string_eq.same_iff x x),
  ),
)

-- In a consistent store `get` leaves the store alone. It returns a change of the tenant and the
-- identifier that were asked for; or it raises that the scope is violated, where another tenant has
-- a change of that identifier, or that there is none, where no tenant has one.
pub get-scoped :
    (t c : String) (s : Store)
    → IsConsistent s
    → ((get t c s).1 ≡ s)
      × (((r : ChangeRecord) × ((get t c s).0 ≡ ok r) × (r.tenant_id ≡ t) × (r.change_id ≡ c))
          ⊎ Misses t c s)
get-scoped t c s v = elim (Option-cases (lookup (t, c) s.changes)) [
  | inl absent ↦ (
    get-reads t c s,
    inr (get-Misses t c s (or_empty (lookup c s.tenants_by_change_id)) v absent refl),
  )
  | inr (r, e) ↦ (
    get-reads t c s,
    inl (
      r,
      ap (λ (p : Result PersistenceError ChangeRecord × Store). p.0) (get_found t c s e),
      (v.keyed t c r e).0,
      (v.keyed t c r e).1,
    ),
  )
]
