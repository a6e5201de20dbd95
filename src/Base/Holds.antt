-- ===== src/Base/Holds.antt =====
-- What holds of the value that a computation returns, if it returns one.
use mathlib.Core.Path.{◌≡◌, refl, subst}
use mathlib.Core.Bool.{Bool, true, false}
use mathlib.Core.Option.{Option, none, some}
use neuclear.Base.Outcome.{Outcome, ok, err, panic, ◌>>=◌, assert, unwrap}

abbrev pub Holds {ℓ κ} : {A : Type ℓ} → (A → Type κ) → Outcome A → Type κ
Holds P (ok a) = P a
Holds P (err e) = Unit
Holds P panic = Unit

module _ {ℓ κ μ} {A : Type ℓ} {B : Type κ} where
  pub then-Holds :
      (P : B → Type μ) (m : Outcome A) (f : A → Outcome B)
      → ((a : A) → m ≡ ok a → Holds P (f a))
      → Holds P (m >>= f)
  then-Holds P (ok a) f h = h a refl
  then-Holds P (err e) f h = tt
  then-Holds P panic f h = tt

module _ {ℓ κ} {A : Type ℓ} where
  pub Holds-ok : (P : A → Type κ) (m : Outcome A) (a : A) → Holds P m → m ≡ ok a → P a
  Holds-ok P (ok b) a h e = subst P b_is_a h
    where
      b_is_a : b ≡ a
      b_is_a = cc
  Holds-ok P (err x) a h e = cc e
  Holds-ok P panic a h e = cc e

pub unwrap-ok {ℓ} : {A : Type ℓ} (o : Option A) (a : A) → unwrap o ≡ ok a → o ≡ some a
unwrap-ok none a e = cc e
unwrap-ok (some b) a e = cc

pub assert-ok : (b : Bool) (u : Unit {0}) → assert b ≡ ok u → b ≡ true
assert-ok true u e = refl
assert-ok false u e = cc e
