-- ===== src/Base/Sets.antt =====
-- Python sets of values with decidable equality, as lists without repeated items.
use mathlib.Core.Bool.{Bool, true, ◌&&◌}
use mathlib.Core.List.{List, [], ◌∷◌}
use enterprise_change_ops.Base.Tests.{if◌then◌else◌, Comparable}
use enterprise_change_ops.Base.Lists.{contains}

module _ {ℓ} {A : Type ℓ} ⦃e : Comparable A⦄ where
  -- `set(xs)`
  abbrev pub to_set : List A → List A
  to_set [] = []
  to_set (x ∷ xs) = let rest = to_set xs in if contains rest x then rest else x ∷ rest

  -- `set(xs).issubset(ys)`
  abbrev pub is_subset : List A → List A → Bool
  is_subset [] ys = true
  is_subset (x ∷ xs) ys = contains ys x && is_subset xs ys
