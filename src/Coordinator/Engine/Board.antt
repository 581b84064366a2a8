-- ===== src/Coordinator/Engine/Board.antt =====
-- The dictionary `by_step` of `_execute_dag`, from the identifier of a step to its task
-- (services/workflow-coordinator/src/changeops_workflow_coordinator/engine.py).
use enterprise_change_ops.Base.{
  ℕ, ◌≤◌, ◌<◌, String, string_eq, Bool, true, false, if◌then◌else◌, ◌≡◌, inl, inr, refl, sym, ◌∙◌,
  subst, ap, none, some, some_inj, Bool-cases, List, [], ◌∷◌, keep, length, All, In, ◌==◌,
  same_refl, arith,
}
use enterprise_change_ops.Base.Dict.{Dict, lookup, insert, values, lookup-insert}
use enterprise_change_ops.Coordinator.Models.{WorkflowTaskRecord}
use enterprise_change_ops.Coordinator.Engine.Dag.{put_tasks, is_pending}

-- Each task stands under the identifier of its step, and no identifier stands twice.
abbrev pub IsKeyed : Dict String WorkflowTaskRecord → Type 0
IsKeyed [] = Unit
IsKeyed ((k, t) ∷ d) = (t.step_id ≡ k) × (lookup k d ≡ none) × IsKeyed d

pub insert-IsKeyed :
    (t : WorkflowTaskRecord) (d : Dict String WorkflowTaskRecord)
    → IsKeyed d
    → IsKeyed (insert t.step_id t d)
unfolding insert lookup
insert-IsKeyed t [] h = (refl, refl, tt)
insert-IsKeyed t ((k, u) ∷ d) (named, fresh, rest) = elim (Bool-cases (k == t.step_id)) [
  | inl same ↦
      let e : k ≡ t.step_id = (string_eq.same_iff k t.step_id).0 same in
      rw same (refl, rw (← e) fresh, rest)
  | inr other ↦ rw other (
    named,
    ground (
      arith,
      lookup-insert t.step_id k t d,
      string_eq.same_iff k t.step_id,
      string_eq.same_iff t.step_id k,
      fresh,
      other,
    ),
    insert-IsKeyed t d rest,
  )
]

pub values-lookup :
    (t : WorkflowTaskRecord) (d : Dict String WorkflowTaskRecord)
    → IsKeyed d
    → In t (values d)
    → lookup t.step_id d ≡ some t
unfolding lookup
values-lookup t [] keyed i = elim i [ ]
values-lookup t ((k, u) ∷ d) (named, fresh, rest) (inl e) =
    ground (
      arith,
      string_eq.same_iff k t.step_id,
      ap (λ (x : WorkflowTaskRecord). x.step_id) e,
      named,
      e,
    )
values-lookup t ((k, u) ∷ d) (named, fresh, rest) (inr i) =
    ground (arith, string_eq.same_iff k t.step_id, values-lookup t d rest i, fresh)

pub lookup-values :
    (k : String) (t : WorkflowTaskRecord) (d : Dict String WorkflowTaskRecord)
    → IsKeyed d
    → lookup k d ≡ some t
    → In t (values d) × (t.step_id ≡ k)
unfolding lookup
lookup-values k t [] keyed h = absurd cc
lookup-values k t ((j, u) ∷ d) (named, fresh, rest) h = elim (Bool-cases (j == k)) [
  | inl same ↦
      let e : u ≡ t = some_inj (ground arith) in
      (
        inl (sym e),
        ap (λ (x : WorkflowTaskRecord). x.step_id) (sym e)
            ∙ named
            ∙ (string_eq.same_iff j k).0 same,
      )
  | inr other ↦ let (i, e) = lookup-values k t d rest (ground arith) in (inr i, e)
]

abbrev pub pending_count : Dict String WorkflowTaskRecord → ℕ
pending_count d = length (keep is_pending (values d))

-- Storing a task that is not pending adds no pending one.
pub insert-pending_count :
    (t : WorkflowTaskRecord) (k : String) (d : Dict String WorkflowTaskRecord)
    → is_pending t ≡ false
    → pending_count (insert k t d) ≤ pending_count d
unfolding insert
insert-pending_count t k [] h = ground arith
insert-pending_count t k ((j, u) ∷ d) h = ground (arith, insert-pending_count t k d h)

-- In place of a pending one it takes one away.
pub insert-pending_less :
    (t u : WorkflowTaskRecord) (k : String) (d : Dict String WorkflowTaskRecord)
    → is_pending t ≡ false
    → lookup k d ≡ some u
    → is_pending u ≡ true
    → pending_count (insert k t d) < pending_count d
unfolding insert lookup
insert-pending_less t u k [] h found p = absurd cc
insert-pending_less t u k ((j, x) ∷ d) h found p = elim (Bool-cases (j == k)) [
  | inl same ↦ let e : x ≡ u = some_inj (ground arith) in ground (arith, ap is_pending e)
  | inr other ↦ ground (arith, insert-pending_less t u k d h)
]

pub insert-All :
    (P : WorkflowTaskRecord → Type 0) (t : WorkflowTaskRecord) (k : String)
    (d : Dict String WorkflowTaskRecord)
    → P t
    → All P (values d)
    → All P (values (insert k t d))
unfolding insert
insert-All P t k [] p h = (p, tt)
insert-All P t k ((j, u) ∷ d) p (q, rest) = elim (Bool-cases (j == k)) [
  | inl same ↦ rw same (p, rest)
  | inr other ↦ rw other (q, insert-All P t k d p rest)
]

module _ {A : Type 0} where
  pub All-In : (P : A → Type 0) (a : A) (xs : List A) → All P xs → In a xs → P a
  All-In P a [] ps i = elim i [ ]
  All-In P a (x ∷ xs) (p, ps) (inl e) = subst P (sym e) p
  All-In P a (x ∷ xs) (p, ps) (inr i) = All-In P a xs ps i

  pub keep-In : (p : A → Bool) (a : A) (xs : List A) → In a xs → p a ≡ true → In a (keep p xs)
  keep-In p a [] i h = elim i [ ]
  keep-In p a (x ∷ xs) (inl e) h = rw (ap p (sym e) ∙ h) (inl e)
  keep-In p a (x ∷ xs) (inr i) h = elim (Bool-cases (p x)) [
    | inl held ↦ rw held (inr (keep-In p a xs i h))
    | inr failed ↦ rw failed (keep-In p a xs i h)
  ]

  In-kept :
      (p : A → Bool) (a x : A) (xs kept : List A) (b : Bool)
      → p x ≡ b
      → (In a kept → In a xs × (p a ≡ true))
      → In a (if b then x ∷ kept else kept)
      → In a (x ∷ xs) × (p a ≡ true)
  In-kept p a x xs kept true h below (inl e) = (inl e, ap p e ∙ h)
  In-kept p a x xs kept true h below (inr i) = let (j, q) = below i in (inr j, q)
  In-kept p a x xs kept false h below i = let (j, q) = below i in (inr j, q)

  pub In-keep : (p : A → Bool) (a : A) (xs : List A) → In a (keep p xs) → In a xs × (p a ≡ true)
  In-keep p a [] i = elim i [ ]
  In-keep p a (x ∷ xs) i = In-kept p a x xs (keep p xs) (p x) refl (In-keep p a xs) i

pub put_tasks-IsKeyed :
    (ts : List WorkflowTaskRecord) (d : Dict String WorkflowTaskRecord)
    → IsKeyed d
    → IsKeyed (put_tasks ts d)
put_tasks-IsKeyed [] d h = h
put_tasks-IsKeyed (t ∷ ts) d h = put_tasks-IsKeyed ts (insert t.step_id t d) (insert-IsKeyed t d h)

pub put_tasks-All :
    (P : WorkflowTaskRecord → Type 0) (ts : List WorkflowTaskRecord)
    (d : Dict String WorkflowTaskRecord)
    → All P ts
    → All P (values d)
    → All P (values (put_tasks ts d))
put_tasks-All P [] d ps h = h
put_tasks-All P (t ∷ ts) d (p, ps) h =
    put_tasks-All P ts (insert t.step_id t d) ps (insert-All P t t.step_id d p h)

pub put_tasks-pending_count :
    (ts : List WorkflowTaskRecord) (d : Dict String WorkflowTaskRecord)
    → All (λ t. is_pending t ≡ false) ts
    → pending_count (put_tasks ts d) ≤ pending_count d
put_tasks-pending_count [] d h = omega arith
put_tasks-pending_count (t ∷ ts) d (p, ps) = omega (
  arith,
  put_tasks-pending_count ts (insert t.step_id t d) ps,
  insert-pending_count t t.step_id d p,
)

-- A key stays.
abbrev pub Has : String → Dict String WorkflowTaskRecord → Type 0
Has k d = (t : WorkflowTaskRecord) × (lookup k d ≡ some t)

pub insert-Has :
    (k : String) (t : WorkflowTaskRecord) (d : Dict String WorkflowTaskRecord)
    → Has k d
    → Has k (insert t.step_id t d)
insert-Has k t d (u, h) = elim (Bool-cases (t.step_id == k)) [
  | inl same ↦ (t, lookup-insert t.step_id k t d ∙ rw same refl)
  | inr other ↦ (u, lookup-insert t.step_id k t d ∙ rw other h)
]

pub put_tasks-Has :
    (k : String) (ts : List WorkflowTaskRecord) (d : Dict String WorkflowTaskRecord)
    → Has k d
    → Has k (put_tasks ts d)
put_tasks-Has k [] d h = h
put_tasks-Has k (t ∷ ts) d h = put_tasks-Has k ts (insert t.step_id t d) (insert-Has k t d h)

pub put_tasks-Has_own :
    (t : WorkflowTaskRecord) (ts : List WorkflowTaskRecord) (d : Dict String WorkflowTaskRecord)
    → In t ts
    → Has t.step_id (put_tasks ts d)
put_tasks-Has_own t [] d i = elim i [ ]
put_tasks-Has_own t (u ∷ ts) d (inl e) =
    put_tasks-Has t.step_id ts (insert u.step_id u d)
      (rw e (u, lookup-insert u.step_id u.step_id u d ∙ rw (same_refl u.step_id) refl))
put_tasks-Has_own t (u ∷ ts) d (inr i) = put_tasks-Has_own t ts (insert u.step_id u d) i
