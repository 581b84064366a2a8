-- ===== src/Base/Calls.antt =====
-- Calls on an object with state that may raise. The state comes back beside the error, since what
-- was written before a raise stays written.
use mathlib.Core.Bool.{Bool, true, false}
use mathlib.Core.Path.{◌≡◌, refl}
use enterprise_change_ops.Base.Tests.{if◌then◌else◌}
use mathlib.Core.Option.{Option, none, some}

pub data Result {ℓ} (E A : Type ℓ) : Type ℓ where
  ok : A → Result E A
  err : E → Result E A

abbrev pub Exec : Type 0 → Type 0 → Type 0 → Type 0
Exec S E A = S → Result E A × S

module _ {S E A : Type 0} where
  abbrev pub pure : A → Exec S E A
  pure a s = (ok a, s)

  abbrev pub raise : E → Exec S E A
  raise e s = (err e, s)

  abbrev pub gets : (S → A) → Exec S E A
  gets f s = (ok (f s), s)

  abbrev pub or_raise : Option A → E → Exec S E A
  or_raise none e s = (err e, s)
  or_raise (some a) e s = (ok a, s)

module _ {S E : Type 0} where
  abbrev pub raise_if : Bool → E → Exec S E (Unit {0})
  raise_if true e s = (err e, s)
  raise_if false e s = (ok tt, s)

  abbrev pub modify : (S → S) → Exec S E (Unit {0})
  modify f s = (ok tt, f s)

module _ {S E A B : Type 0} where
  abbrev continue : Result E A → (A → Exec S E B) → Exec S E B
  continue (ok a) f s = f a s
  continue (err e) f s = (err e, s)

  infixl 5 ◌>>=◌ ◌>>◌
  abbrev pub ◌>>=◌ : Exec S E A → (A → Exec S E B) → Exec S E B
  ◌>>=◌ m f s = let (r, s') = m s in continue r f s'

  abbrev pub ◌>>◌ : Exec S E A → Exec S E B → Exec S E B
  m >> k = m >>= λ _. k

module _ {S E B : Type 0} where
  -- A guard whose test fails is passed.
  pub raise_if-pass :
      (b : Bool) (e : E) (k : Exec S E B) (s : S) → b ≡ false → (raise_if b e >> k) s ≡ k s
  raise_if-pass true e k s h = cc
  raise_if-pass false e k s h = refl

  -- A guard whose test holds raises, and the state is as it was.
  pub raise_if-raise :
      (b : Bool) (e : E) (k : Exec S E B) (s : S) → b ≡ true → (raise_if b e >> k) s ≡ (err e, s)
  raise_if-raise true e k s h = refl
  raise_if-raise false e k s h = cc

-- What a result says: `Q` of a value, `R` of an error.
abbrev pub Outcome : {E A : Type 0} → (A → Type 0) → (E → Type 0) → Result E A → Type 0
Outcome Q R (ok a) = Q a
Outcome Q R (err e) = R e

-- The call ends so from every state.
pub record Ends {S E A : Type 0} (Q : A → Type 0) (R : E → Type 0) (m : Exec S E A) : Type 0 where
  pub from : (s : S) → Outcome Q R (m s).0

module _ {S E A B : Type 0} {Q : A → Type 0} {Q' : B → Type 0} {R : E → Type 0} where
  continue-Outcome :
      (r : Result E A) (f : A → Exec S E B) (s : S)
      → Outcome Q R r
      → ((a : A) → Q a → Ends Q' R (f a))
      → Outcome Q' R (continue r f s).0
  continue-Outcome (ok a) f s q next = (next a q).from s
  continue-Outcome (err e) f s q next = q

  pub bind-Ends :
      {m : Exec S E A} {f : A → Exec S E B}
      → Ends Q R m
      → ((a : A) → Q a → Ends Q' R (f a))
      → Ends Q' R (m >>= f)
  bind-Ends {m = m} {f = f} h next = record {
    from = λ s. continue-Outcome (m s).0 f (m s).1 (h.from s) next;
  }

module _ {S E A : Type 0} {R : E → Type 0} where
  pub pure-Ends : {Q : A → Type 0} {a : A} → Q a → Ends {S = S} Q R (pure a)
  pure-Ends q = record { from = λ s. q }

  pub raise-Ends : {Q : A → Type 0} {e : E} → R e → Ends {S = S} Q R (raise e)
  raise-Ends q = record { from = λ s. q }

module _ {S E A : Type 0} (R : E → Type 0) where
  or_raise_lem :
      (o : Option A) (e : E) (s : S) → R e → Outcome (λ a. o ≡ some a) R (or_raise o e s).0
  or_raise_lem none e s h = h
  or_raise_lem (some a) e s h = refl

  pub or_raise-Ends : (o : Option A) (e : E) → R e → Ends {S = S} (λ a. o ≡ some a) R (or_raise o e)
  or_raise-Ends o e h = record { from = λ s. or_raise_lem o e s h }

module _ {S E A : Type 0} (Q : A → Type 0) (R : E → Type 0) {m m' : Exec S E A} where
  pub if-Ends :
      (b : Bool)
      → (b ≡ true → Ends Q R m)
      → (b ≡ false → Ends Q R m')
      → Ends Q R (if b then m else m')
  if-Ends true f g = f refl
  if-Ends false f g = g refl

module _ {E A : Type 0} {Q Q' : A → Type 0} (R : E → Type 0) where
  pub weaken_lem : ((a : A) → Q a → Q' a) → (r : Result E A) → Outcome Q R r → Outcome Q' R r
  weaken_lem f (ok a) q = f a q
  weaken_lem f (err e) q = q

module _ {S E A : Type 0} {Q Q' : A → Type 0} {R : E → Type 0} where
  pub weaken-Ends : {m : Exec S E A} → ((a : A) → Q a → Q' a) → Ends Q R m → Ends Q' R m
  weaken-Ends {m} f h = record { from = λ s. weaken_lem R f (m s).0 (h.from s) }

module _ {E A : Type 0} (Q Q' : A → Type 0) (R : E → Type 0) where
  both_lem : (r : Result E A) → Outcome Q R r → Outcome Q' R r → Outcome (λ a. Q a × Q' a) R r
  both_lem (ok a) q q' = (q, q')
  both_lem (err e) q q' = q

module _ {S E A : Type 0} {Q Q' : A → Type 0} {R : E → Type 0} where
  pub both-Ends : {m : Exec S E A} → Ends Q R m → Ends Q' R m → Ends (λ a. Q a × Q' a) R m
  both-Ends {m} h k = record { from = λ s. both_lem Q Q' R (m s).0 (h.from s) (k.from s) }
