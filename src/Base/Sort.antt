-- ===== src/Base/Sort.antt =====
-- Python's stable `sort`, as an insertion sort by a strict order.
use mathlib.Core.Bool.{Bool, ◌&&◌, ◌||◌}
use mathlib.Core.List.{List, [], ◌∷◌, reverse}
use mathlib.Core.Path.{◌≡◌}
use mathlib.Core.Logic.{◌⊎◌, inl, inr}
use mathlib.Core.List.{reverse_aux}
use Prim.Native.Nat.{ℕ}
use Prim.Native.String.{String}
use enterprise_change_ops.Base.Lists.{In}
use enterprise_change_ops.Base.Tests.{Bool-cases, if◌then◌else◌, ltb, nat_eqb, text_ltb}

module _ {ℓ} {A : Type ℓ} (lt : A → A → Bool) where
  unfoldable pub insert_sorted : A → List A → List A
  insert_sorted x [] = x ∷ []
  insert_sorted x (y ∷ ys) = if lt y x then y ∷ insert_sorted x ys else x ∷ y ∷ ys

  -- `xs.sort(key=...)`
  unfoldable pub sort : List A → List A
  unfolding insert_sorted
  sort [] = []
  sort (x ∷ xs) = insert_sorted x (sort xs)

  -- `xs.sort(key=..., reverse=True)`: equal items keep their order
  unfoldable pub sort_descending : List A → List A
  unfolding sort
  sort_descending xs = reverse (sort (reverse xs))

-- Sorting loses no item.
module _ {A : Type 0} (lt : A → A → Bool) (a : A) where
  insert_sorted-In : (x : A) (xs : List A) → (a ≡ x) ⊎ In a xs → In a (insert_sorted lt x xs)
  unfolding insert_sorted
  insert_sorted-In x [] h = h
  insert_sorted-In x (y ∷ ys) h = elim (Bool-cases (lt y x)) [
    | inr later ↦ rw later h
    | inl before ↦ rw before (elim h [
      | inl e ↦ inr (insert_sorted-In x ys (inl e))
      | inr i ↦ elim i [ inl e ↦ inl e | inr j ↦ inr (insert_sorted-In x ys (inr j)) ]
    ])
  ]

  sort-In : (xs : List A) → In a xs → In a (sort lt xs)
  unfolding sort
  sort-In [] i = i
  sort-In (x ∷ xs) (inl e) = insert_sorted-In x (sort lt xs) (inl e)
  sort-In (x ∷ xs) (inr i) = insert_sorted-In x (sort lt xs) (inr (sort-In xs i))

  reverse_aux-In : (xs ys : List A) → In a xs ⊎ In a ys → In a (reverse_aux xs ys)
  reverse_aux-In [] ys (inl i) = elim i [ ]
  reverse_aux-In [] ys (inr i) = i
  reverse_aux-In (x ∷ xs) ys (inl (inl e)) = reverse_aux-In xs (x ∷ ys) (inr (inl e))
  reverse_aux-In (x ∷ xs) ys (inl (inr i)) = reverse_aux-In xs (x ∷ ys) (inl i)
  reverse_aux-In (x ∷ xs) ys (inr i) = reverse_aux-In xs (x ∷ ys) (inr (inr i))

  pub sort_descending-In : (xs : List A) → In a xs → In a (sort_descending lt xs)
  unfolding sort_descending
  sort_descending-In xs i =
      reverse_aux-In (sort lt (reverse xs)) []
        (inl (sort-In (reverse xs) (reverse_aux-In xs [] (inl i))))

-- A tuple of a number and a text is ordered by its number first.
abbrev pub stamp_ltb : ℕ × String → ℕ × String → Bool
stamp_ltb (m, s) (n, t) = ltb m n || (nat_eqb m n && text_ltb s t)
