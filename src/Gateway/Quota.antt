-- ===== src/Gateway/Quota.antt =====
-- `ToolQuotaManager` of services/tool-gateway/src/changeops_tool_gateway/quota.py. The two blocks
-- under the lock are the steps; the body of `acquire` runs between them.
use enterprise_change_ops.Base.{
  ℕ, zero, suc, ◌+◌, ◌<◌, ◌≤◌, String, string_eq, pair_eq, ◌↔◌, ◌≡◌, refl, ap, true, false, Bool,
  leb, ◌==◌, if◌then◌else◌, Bool-cases, inl, inr, Option, none, some, List, [], ◌∷◌, Result, ok,
  err, arith, subst, ◌∙◌,
}
use enterprise_change_ops.Base.Dict.{Dict, lookup, insert, erase, lookup-insert, lookup-erase}
use enterprise_change_ops.Gateway.Errors.{GatewayError, rate_limited}

-- The tenant and the tool.
abbrev pub Key : Type 0
Key = String × String

-- The counts are Python's integers: one is not kept from going below zero by its type.
pub data ℤ : Type 0 where
  pos : ℕ → ℤ
  negsuc : ℕ → ℤ

abbrev or_zero : Option ℤ → ℤ
or_zero none = pos 0
or_zero (some n) = n

abbrev pub active : Key → Dict Key ℤ → ℤ
active k d = or_zero (lookup k d)

abbrev is_full : ℕ → ℤ → Bool
is_full maximum (pos n) = leb maximum n
is_full maximum (negsuc n) = false

abbrev increased : ℤ → ℤ
increased (pos n) = pos (n + 1)
increased (negsuc zero) = pos 0
increased (negsuc (suc n)) = negsuc n

abbrev decreased : ℤ → ℤ
decreased (pos zero) = negsuc 0
decreased (pos (suc n)) = pos n
decreased (negsuc n) = negsuc (suc n)

-- Before the body. Reading the count of a new key stores a zero, since the dictionary is a
-- `defaultdict`.
unfoldable pub enter : ℕ → Key → Dict Key ℤ → Result GatewayError (Unit {0}) × Dict Key ℤ
enter maximum k d =
    let n = active k d in
    if is_full maximum n
    then (err rate_limited, insert k n d)
    else (ok tt, insert k (increased n) d)

-- A count of zero is taken out.
abbrev keep_count : Key → ℤ → Dict Key ℤ → Dict Key ℤ
keep_count k (pos zero) d = erase k d
keep_count k n d = insert k n d

-- After the body.
unfoldable pub leave : Key → Dict Key ℤ → Dict Key ℤ
leave k d = keep_count k (decreased (active k d)) d

-- How many of the bodies that run are the key's.
abbrev pub held : Key → List Key → ℕ
held k [] = 0
held k (h ∷ hs) = let rest = held k hs in if h == k then suc rest else rest

abbrev pub without : Key → List Key → List Key
without k [] = []
without k (h ∷ hs) = let rest = without k hs in if h == k then hs else h ∷ rest

-- The counts, and the keys of the bodies that run.
pub data Reachable (maximum : ℕ) : Dict Key ℤ → List Key → Type 0 where
  started : Reachable maximum [] []
  entered :
      (k : Key) (d d' : Dict Key ℤ) (hs : List Key)
      → Reachable maximum d hs
      → enter maximum k d ≡ (ok tt, d')
      → Reachable maximum d' (k ∷ hs)
  refused :
      (k : Key) (e : GatewayError) (d d' : Dict Key ℤ) (hs : List Key)
      → Reachable maximum d hs
      → enter maximum k d ≡ (err e, d')
      → Reachable maximum d' hs
  left :
      (k : Key) (d : Dict Key ℤ) (hs : List Key)
      → Reachable maximum d hs
      → 0 < held k hs
      → Reachable maximum (leave k d) (without k hs)

key_iff : (j k : Key) → ((j == k) ≡ true) ↔ (j ≡ k)
key_iff j k = pair_eq.same_iff j k

held-without :
    (k j : Key) (hs : List Key)
    → 0 < held k hs
    → held j hs ≡ (if k == j then suc (held j (without k hs)) else held j (without k hs))
held-without k j [] h = absurd (omega arith)
held-without k j (x ∷ hs) h =
    ground (arith, key_iff x k, key_iff x j, key_iff k j, held-without k j hs)

active-insert :
    (k j : Key) (n : ℤ) (d : Dict Key ℤ)
    → active j (insert k n d) ≡ (if k == j then n else active j d)
active-insert k j n d = ground (arith, lookup-insert k j n d)

active-erase :
    (k j : Key) (d : Dict Key ℤ) → active j (erase k d) ≡ (if k == j then pos 0 else active j d)
active-erase k j d = ground (arith, lookup-erase k j d)

-- What entering does to the counts.
abbrev Enters : ℕ → Key → Key → Dict Key ℤ → Result GatewayError (Unit {0}) × Dict Key ℤ → Type 0
Enters maximum k j d (ok _, d') =
    (is_full maximum (active k d) ≡ false)
    × (active j d' ≡ (if k == j then increased (active k d) else active j d))
Enters maximum k j d (err _, d') = active j d' ≡ active j d

active-same : (k j : Key) (d : Dict Key ℤ) → (k == j) ≡ true → active j d ≡ active k d
active-same k j d h = rw ((key_iff k j).0 h) refl

enter-Enters : (maximum : ℕ) (k j : Key) (d : Dict Key ℤ) → Enters maximum k j d (enter maximum k d)
unfolding enter
enter-Enters maximum k j d = ground (
  arith,
  key_iff k j,
  active-same k j d,
  active-insert k j (active k d) d,
  active-insert k j (increased (active k d)) d,
)

room : (maximum n : ℕ) (c : ℤ) → c ≡ pos n → is_full maximum c ≡ false → n < maximum
room maximum n c h free = ground (arith, free, ap (is_full maximum) h)

keep_count-active :
    (k j : Key) (n : ℕ) (d : Dict Key ℤ)
    → active j (keep_count k (pos n) d) ≡ (if k == j then pos n else active j d)
keep_count-active k j zero d = active-erase k j d
keep_count-active k j (suc n) d = active-insert k j (pos (suc n)) d

-- What leaving does to them, where a body runs.
leave-active :
    (k j : Key) (n : ℕ) (d : Dict Key ℤ)
    → active k d ≡ pos (suc n)
    → active j (leave k d) ≡ (if k == j then pos n else active j d)
unfolding leave
leave-active k j n d h =
    ap (λ c. active j (keep_count k (decreased c) d)) h ∙ keep_count-active k j n d

entered_lem :
    (maximum : ℕ) (j k : Key) (d d' : Dict Key ℤ) (hs : List Key)
    → active k d ≡ pos (held k hs)
    → held k hs ≤ maximum
    → held j hs < maximum
    → increased (active j d) ≡ pos (held j hs + 1)
    → active k d' ≡ (if j == k then increased (active j d) else active k d)
    → (active k d' ≡ pos (held k (j ∷ hs))) × (held k (j ∷ hs) ≤ maximum)
entered_lem maximum j k d d' hs at_k below free counted facts = elim (Bool-cases (j == k)) [
  | inr other ↦ rw other ((facts ∙ rw other at_k), below)
  | inl e ↦
      let same : held j hs ≡ held k hs = ap (λ x. held x hs) ((key_iff j k).0 e) in
      rw e ((facts ∙ rw e (counted ∙ ap pos (omega (arith, same)))), omega (arith, free, same))
]

other_count :
    (j k : Key) (n : ℕ) (d : Dict Key ℤ)
    → active j d ≡ pos n
    → 0 < n
    → (j == k) ≡ false
    → active k (leave j d) ≡ active k d
other_count j k zero d h inside other = absurd (omega (arith, inside))
other_count j k (suc n) d h inside other = leave-active j k n d h ∙ rw other refl

left_lem :
    (maximum : ℕ) (j k : Key) (d : Dict Key ℤ) (hs : List Key)
    → active k d ≡ pos (held k hs)
    → active j d ≡ pos (held j hs)
    → held k hs ≤ maximum
    → 0 < held j hs
    → (active k (leave j d) ≡ pos (held k (without j hs))) × (held k (without j hs) ≤ maximum)
left_lem maximum j k d hs at_k at_j below inside = elim (Bool-cases (j == k)) [
  | inr other ↦
      let fewer : held k hs ≡ held k (without j hs) = held-without j k hs inside ∙ rw other refl in
      (
        other_count j k (held j hs) d at_j inside other ∙ at_k ∙ ap pos fewer,
        omega (arith, fewer, below),
      )
  | inl e ↦
      let fewer : held k hs ≡ suc (held k (without j hs)) =
        held-without j k hs inside ∙ rw e refl in
      let same : held j hs ≡ held k hs = ap (λ x. held x hs) ((key_iff j k).0 e) in
      (
        leave-active j k (held k (without j hs)) d (at_j ∙ ap pos (same ∙ fewer)) ∙ rw e refl,
        omega (arith, fewer, below),
      )
]

-- In every state that entering, being refused and leaving lead to, the count of a tenant and a tool
-- is the number of its bodies that run, and that is never above the maximum.
pub Reachable-counted :
    (maximum : ℕ) (k : Key) (d : Dict Key ℤ) (hs : List Key)
    → Reachable maximum d hs
    → (active k d ≡ pos (held k hs)) × (held k hs ≤ maximum)
unfolding lookup
Reachable-counted maximum k _ _ started = (refl, omega arith)
Reachable-counted maximum k _ _ (entered j d d' hs r h) =
    let (at_k, below) = Reachable-counted maximum k d hs r in
    let (at_j, below_j) = Reachable-counted maximum j d hs r in
    let facts = subst (Enters maximum j k d) h (enter-Enters maximum j k d) in
    let free = room maximum (held j hs) (active j d) at_j facts.0 in
    let counted : increased (active j d) ≡ pos (held j hs + 1) = ap increased at_j in
    entered_lem maximum j k d d' hs at_k below free counted facts.1
Reachable-counted maximum k _ _ (refused j e d d' hs r h) =
    let (at_k, below) = Reachable-counted maximum k d hs r in
    let facts = subst (Enters maximum j k d) h (enter-Enters maximum j k d) in (facts ∙ at_k, below)
Reachable-counted maximum k _ _ (left j d hs r inside) =
    let (at_k, below) = Reachable-counted maximum k d hs r in
    let (at_j, below_j) = Reachable-counted maximum j d hs r in
    left_lem maximum j k d hs at_k at_j below inside
