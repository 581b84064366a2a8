-- ===== src/Base/Distinct.antt =====
-- Lists of keys without repetitions, and the dictionary that is made from items with such keys.
use mathlib.Core.Path.{◌≡◌, refl, ◌∙◌}
use mathlib.Core.Logic.{inl, inr}
use mathlib.Core.Bool.{false}
use mathlib.Core.Option.{some}
use mathlib.Core.List.{List, [], ◌∷◌, map}
use Prim.Native.Nat.{◌≤◌}
use native.Mathlib.Omega.{arith}
use enterprise_change_ops.Base.Tests.{Comparable, same_refl}
use enterprise_change_ops.Base.Lists.{contains, length, In}
use enterprise_change_ops.Base.Sets.{to_set}
use enterprise_change_ops.Base.Dict.{Dict, lookup, insert, put_all, lookup-insert}

module _ {A : Type 0} ⦃e : Comparable A⦄ where
  -- No key is given twice.
  abbrev pub IsDistinct : List A → Type 0
  IsDistinct [] = Unit
  IsDistinct (x ∷ xs) = (contains xs x ≡ false) × IsDistinct xs

  contains-to_set : (xs : List A) (a : A) → contains (to_set xs) a ≡ contains xs a
  contains-to_set [] a = refl
  contains-to_set (x ∷ xs) a =
      ground (arith, contains-to_set xs a, contains-to_set xs x, e.same_iff a x)

  length-to_set : (xs : List A) → length (to_set xs) ≤ length xs
  length-to_set [] = omega arith
  length-to_set (x ∷ xs) = ground (arith, length-to_set xs)

  pub to_set-IsDistinct : (xs : List A) → length (to_set xs) ≡ length xs → IsDistinct xs
  to_set-IsDistinct [] h = tt
  to_set-IsDistinct (x ∷ xs) h = (
    ground (arith, length-to_set xs, contains-to_set xs x),
    to_set-IsDistinct xs (ground (arith, length-to_set xs)),
  )

module _ {K V : Type 0} ⦃e : Comparable K⦄ (key : V → K) where
  put_all-other :
      (k : K) (xs : List V) (d : Dict K V)
      → contains (map key xs) k ≡ false
      → lookup k (put_all key xs d) ≡ lookup k d
  put_all-other k [] d h = refl
  put_all-other k (x ∷ xs) d h =
      put_all-other k xs (insert (key x) x d) (ground arith)
      ∙ lookup-insert (key x) k x d
      ∙ ground (arith, e.same_iff k (key x), e.same_iff (key x) k)

  -- Each item is found under its key.
  pub put_all-own :
      (z : V) (xs : List V) (d : Dict K V)
      → IsDistinct (map key xs)
      → In z xs
      → lookup (key z) (put_all key xs d) ≡ some z
  put_all-own z [] d h i = elim i [ ]
  put_all-own z (x ∷ xs) d (fresh, rest) (inl same) = rw same (
      put_all-other (key x) xs (insert (key x) x d) fresh
      ∙ lookup-insert (key x) (key x) x d
      ∙ rw (same_refl (key x)) refl)
  put_all-own z (x ∷ xs) d (fresh, rest) (inr i) = put_all-own z xs (insert (key x) x d) rest i
