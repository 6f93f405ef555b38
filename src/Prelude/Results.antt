-- ===== src/Prelude/Results.antt =====
-- Errors as values: Go's results with an `error`, which is of a type of the caller's choice.
use mathlib.Core.Path.{◌≡◌, refl}
use mathlib.Core.Logic.{◌⊎◌, inl, inr}
use mathlib.Core.Bool.{Bool, true, false}
use mathlib.Core.Option.{Option, none, some}
use native.Mathlib.Omega.{arith}

pub data Result {ℓ} (E : Type 0) (A : Type ℓ) : Type ℓ where
  err : E → Result E A
  ok : A → Result E A

module _ {E : Type 0} where
  infixl 5 ◌>>=◌ ◌>>◌
  abbrev pub ◌>>=◌ {ℓ κ} : {A : Type ℓ} {B : Type κ} → Result E A → (A → Result E B) → Result E B
  err e >>= next = err e
  ok a >>= next = next a

  abbrev pub ◌>>◌ {ℓ} : {B : Type ℓ} → Result E (Unit {0}) → Result E B → Result E B
  err e >> next = err e
  ok a >> next = next

  abbrev pub require : Bool → E → Result E (Unit {0})
  require false e = err e
  require true e = ok tt

  abbrev pub or_error {ℓ} : {A : Type ℓ} → Option A → E → Result E A
  or_error (some a) e = ok a
  or_error none e = err e

  pub Result-cases {ℓ} :
      {A : Type ℓ} (r : Result E A) → ((a : A) × (r ≡ ok a)) ⊎ ((e : E) × (r ≡ err e))
  Result-cases (err e) = inr (e, refl)
  Result-cases (ok a) = inl (a, refl)

  -- The steps of a do block that succeeds.
  pub bind-ok {ℓ κ} :
      {A : Type ℓ} {B : Type κ} (r : Result E A) (next : A → Result E B) (b : B)
      → r >>= next ≡ ok b
      → (a : A) × (r ≡ ok a) × (next a ≡ ok b)
  bind-ok (err e) next b h = ground arith
  bind-ok (ok a) next b h = (a, refl, h)

  pub require-ok {ℓ} :
      {B : Type ℓ} (t : Bool) (e : E) (next : Result E B) (b : B)
      → require t e >> next ≡ ok b
      → (t ≡ true) × (next ≡ ok b)
  require-ok false e next b h = ground arith
  require-ok true e next b h = (refl, h)

  pub or_error-ok {ℓ} :
      {A : Type ℓ} (o : Option A) (e : E) (a : A) → or_error o e ≡ ok a → o ≡ some a
  or_error-ok none e a h = ground arith
  or_error-ok (some b) e a h = ground arith
