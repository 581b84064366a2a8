-- ===== src/Contracts/Json.antt =====
-- `JsonValue` of the contracts, with Python's `==` on such values. A number is known by a code of
-- its value: equal values have equal codes, and 0 and 1 have the codes 0 and 1.
use enterprise_change_ops.Base.{
  nat_eqb, ◌&&◌, string_eq, ℕ, String, Bool, true, false, ◌==◌, Option, none, some, suc,
}

mutual
  pub data Json : Type 0 where
    null : Json
    bool : Bool → Json
    num : ℕ → Json
    str : String → Json
    arr : Items → Json
    obj : Fields → Json

  pub data Items : Type 0 where
    nil : Items
    cons : Json → Items → Items

  pub data Fields : Type 0 where
    end : Fields
    field : String → Json → Fields → Fields

-- `d.get(k)`
abbrev pub get_field : String → Fields → Option Json
get_field k end = none
get_field k (field j v d) = elim (j == k) [ true ↦ some v | false ↦ get_field k d ]

abbrev pub fields_length : Fields → ℕ
fields_length end = 0
fields_length (field _ _ d) = suc (fields_length d)

-- `True == 1` and `False == 0` hold in Python.
abbrev pub bool_code : Bool → ℕ
bool_code true = 1
bool_code false = 0

abbrev number_code : Json → Option ℕ
number_code (bool b) = some (bool_code b)
number_code (num n) = some n
number_code _ = none

abbrev same_number : Option ℕ → Option ℕ → Bool
same_number (some m) (some n) = nat_eqb m n
same_number _ _ = false

-- Python's `==`. Two dicts are equal if they have as many keys, and each key of the first one has
-- an equal value in the second one.
unfoldable mutual
  pub json_eqb : Json → Json → Bool
  json_eqb null null = true
  json_eqb (bool b) w = same_number (some (bool_code b)) (number_code w)
  json_eqb (num n) w = same_number (some n) (number_code w)
  json_eqb (str s) (str t) = s == t
  json_eqb (arr xs) (arr ys) = items_eqb xs ys
  json_eqb (obj f) (obj g) = nat_eqb (fields_length f) (fields_length g) && fields_within f g
  json_eqb _ _ = false

  pub items_eqb : Items → Items → Bool
  items_eqb nil nil = true
  items_eqb (cons x xs) (cons y ys) = json_eqb x y && items_eqb xs ys
  items_eqb _ _ = false

  pub fields_within : Fields → Fields → Bool
  fields_within end g = true
  fields_within (field k v f) g =
      elim (get_field k g) [ none ↦ false | some w ↦ json_eqb v w ] && fields_within f g

-- `==` of two dicts.
unfoldable pub fields_eqb : Fields → Fields → Bool
fields_eqb f g = nat_eqb (fields_length f) (fields_length g) && fields_within f g
