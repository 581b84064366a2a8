-- ===== src/Base/Tests.antt =====
-- Boolean tests on numbers, the conditional, and the equality test that Python's `==` is at each
-- type of value.
use Prim.Native.Nat.{ℕ, ◌<◌, ◌≤◌, compare, Ordering}
use text.Mathlib.TextEquality.{eq_iff}
use Prim.Native.String
use Prim.Native.String.{String}
use mathlib.Core.Path.{◌≡◌, refl}
use mathlib.Core.Logic.{◌↔◌, ◌⊎◌, inl, inr, ite}
use mathlib.Core.Bool.{Bool, true, false, not, ◌&&◌}
use mathlib.Core.Option.{Option, none, some}
use mathlib.Core.List.{List, [], ◌∷◌}
use native.Mathlib.Omega.{arith}
use text.Mathlib.Text.{◌==◌ as str_eq}

abbrev pub ltb : ℕ → ℕ → Bool
ltb a b = elim (compare a b) [ Ordering.lt ↦ true | _ ↦ false ]

abbrev pub leb : ℕ → ℕ → Bool
leb a b = elim (compare a b) [ Ordering.gt ↦ false | _ ↦ true ]

abbrev pub nat_eqb : ℕ → ℕ → Bool
nat_eqb a b = elim (compare a b) [ Ordering.eq ↦ true | _ ↦ false ]

infix 1 if◌then◌else◌
abbrev pub if◌then◌else◌ {ℓ} : {A : Type ℓ} → Bool → A → A → A
if true then x else _ = x
if false then _ else y = y

pub Bool-cases : (b : Bool) → (b ≡ true) ⊎ (b ≡ false)
Bool-cases true = inl refl
Bool-cases false = inr refl

pub Option-cases {ℓ} : {A : Type ℓ} (o : Option A) → (o ≡ none) ⊎ ((a : A) × (o ≡ some a))
Option-cases none = inl refl
Option-cases (some a) = inr (a, refl)

pub some_inj {ℓ} : {A : Type ℓ} {a b : A} → some a ≡ some b → a ≡ b
some_inj h = cc

pub ltb→lt : (a b : ℕ) → ltb a b ≡ true → a < b
ltb→lt a b h = ground arith

pub leb→le : (a b : ℕ) → leb a b ≡ true → a ≤ b
leb→le a b h = ground arith

pub le→ltb : (a b : ℕ) → a ≤ b → ltb b a ≡ false
le→ltb a b h = ground arith

pub lt→ltb : (a b : ℕ) → a < b → ltb a b ≡ true
lt→ltb a b h = ground arith

-- Equality with the test that decides it.
pub record Comparable {ℓ} (A : Type ℓ) : Type ℓ where
  pub same : A → A → Bool
  pub same_iff : (a b : A) → (same a b ≡ true) ↔ (a ≡ b)

infix 50 ◌==◌
infix 50 ◌/=◌
-- Python's `a == b`, at the type's own test.
abbrev pub ◌==◌ {ℓ} : {T : Type ℓ} ⦃test : Comparable T⦄ (a b : T) → Bool
◌==◌ ⦃test⦄ a b = test.same a b

abbrev pub ◌/=◌ {ℓ} : {A : Type ℓ} ⦃e : Comparable A⦄ → A → A → Bool
a /= b = not (a == b)

pub nat_eqb_iff : (a b : ℕ) → (nat_eqb a b ≡ true) ↔ (a ≡ b)
nat_eqb_iff a b = (λ h. ground arith, λ h. ground arith)

instance abbrev pub nat_eq : Comparable ℕ
nat_eq = record { same = nat_eqb; same_iff = nat_eqb_iff }

instance abbrev pub string_eq : Comparable String
string_eq = record { same = str_eq; same_iff = eq_iff }

module _ {ℓ} {A : Type ℓ} where
  abbrev pub decided_eqb : Discrete A → A → A → Bool
  decided_eqb d a b = ite (d a b) true false

  pub decided_eqb_iff : (d : Discrete A) (a b : A) → (decided_eqb d a b ≡ true) ↔ (a ≡ b)
  decided_eqb_iff d a b = (λ h. ground arith, λ h. ground arith)

  -- The test of an enumeration, from a decision of its equality.
  abbrev pub decided_eq : Discrete A → Comparable A
  decided_eq d = record { same = decided_eqb d; same_iff = decided_eqb_iff d }

module _ {ℓ} {A B : Type ℓ} ⦃e : Comparable A⦄ ⦃f : Comparable B⦄ where
  abbrev pair_eqb : A × B → A × B → Bool
  pair_eqb (a, b) (c, d) = e.same a c && f.same b d

  pub pair_eqb_iff : (p q : A × B) → (pair_eqb p q ≡ true) ↔ (p ≡ q)
  pair_eqb_iff p q = (
    λ h. ground (arith, e.same_iff p.0 q.0, f.same_iff p.1 q.1),
    λ h. ground (arith, e.same_iff p.0 q.0, f.same_iff p.1 q.1),
  )

  instance abbrev pub pair_eq : Comparable (A × B)
  pair_eq = record { same = pair_eqb; same_iff = pair_eqb_iff }

module _ {ℓ} {A : Type ℓ} ⦃e : Comparable A⦄ where
  pub same_refl : (a : A) → (a == a) ≡ true
  same_refl a = (e.same_iff a a).1 refl

  abbrev option_eqb : Option A → Option A → Bool
  option_eqb none none = true
  option_eqb (some a) (some b) = e.same a b
  option_eqb _ _ = false

  pub option_eqb_iff : (p q : Option A) → (option_eqb p q ≡ true) ↔ (p ≡ q)
  option_eqb_iff none none = (λ h. refl, λ h. refl)
  option_eqb_iff (some a) (some b) =
      (λ h. ground (arith, e.same_iff a b), λ h. ground (arith, e.same_iff a b))
  option_eqb_iff none (some b) = (λ h. cc, λ h. cc)
  option_eqb_iff (some a) none = (λ h. cc, λ h. cc)

  instance abbrev pub option_eq : Comparable (Option A)
  option_eq = record { same = option_eqb; same_iff = option_eqb_iff }

  abbrev list_eqb : List A → List A → Bool
  list_eqb [] [] = true
  list_eqb (a ∷ xs) (b ∷ ys) = e.same a b && list_eqb xs ys
  list_eqb _ _ = false

  pub list_eqb_iff : (p q : List A) → (list_eqb p q ≡ true) ↔ (p ≡ q)
  list_eqb_iff [] [] = (λ h. refl, λ h. refl)
  list_eqb_iff (a ∷ xs) (b ∷ ys) = (
    λ h. ground (arith, e.same_iff a b, list_eqb_iff xs ys),
    λ h. ground (arith, e.same_iff a b, list_eqb_iff xs ys),
  )
  list_eqb_iff [] (b ∷ ys) = (λ h. cc, λ h. cc)
  list_eqb_iff (a ∷ xs) [] = (λ h. cc, λ h. cc)

  instance abbrev pub list_eq : Comparable (List A)
  list_eq = record { same = list_eqb; same_iff = list_eqb_iff }

-- `a + b` on texts.
abbrev pub concat : String → String → String
concat = String.◌++◌

-- `a < b` on texts.
abbrev pub text_ltb : String → String → Bool
text_ltb a b = elim (String.compare a b) [ Ordering.lt ↦ true | _ ↦ false ]

-- The instance at optional texts, for the tactics.
pub optional_text_iff : (p q : Option String) → ((p == q) ≡ true) ↔ (p ≡ q)
optional_text_iff = option_eqb_iff

module _ {ℓ} {A B C : Type ℓ} ⦃e : Comparable A⦄ ⦃f : Comparable B⦄ ⦃g : Comparable C⦄ where
  abbrev triple_eqb : A × B × C → A × B × C → Bool
  triple_eqb (a, b, c) (x, y, z) = e.same a x && (f.same b y && g.same c z)

  pub triple_eqb_iff : (p q : A × B × C) → (triple_eqb p q ≡ true) ↔ (p ≡ q)
  triple_eqb_iff p q = (
    λ h. ground (arith, e.same_iff p.0 q.0, f.same_iff p.1 q.1, g.same_iff p.2 q.2),
    λ h. ground (arith, e.same_iff p.0 q.0, f.same_iff p.1 q.1, g.same_iff p.2 q.2),
  )

  instance abbrev pub triple_eq : Comparable (A × B × C)
  triple_eq = record { same = triple_eqb; same_iff = triple_eqb_iff }
