-- ===== src/Prelude/Results.antt =====
-- A computation that may fail: a panic's message, or an error value.
use mathlib.Core.Path.{◌≡◌, refl}
use mathlib.Core.Logic.{◌⊎◌, inl, inr}
use mathlib.Core.Bool.{Bool, true, false}

pub data Result {ι ℓ} (E : Type ι) (A : Type ℓ) : Type (ι ⊔ ℓ) where
  err : E → Result E A
  ok : A → Result E A

-- A guard: where the test fails, so does the computation.
abbrev pub require {ι} : {E : Type ι} → Bool → E → Result E (Unit {0})
require false reason = err reason
require true reason = ok tt

module _ {ι ℓ κ} {E : Type ι} {A : Type ℓ} {B : Type κ} where
  infixl 5 ◌>>=◌
  abbrev pub ◌>>=◌ : Result E A → (A → Result E B) → Result E B
  err reason >>= rest = err reason
  ok value >>= rest = rest value

  -- A chain that succeeds, by its two parts.
  pub >>=-eq-ok :
      (m : Result E A) (rest : A → Result E B) {b : B}
      → (m >>= rest) ≡ ok b
      → (a : A) × (m ≡ ok a) × (rest a ≡ ok b)
  >>=-eq-ok (err reason) rest h = cc
  >>=-eq-ok (ok value) rest h = (value, refl, h)

module _ {ι κ} {E : Type ι} {B : Type κ} where
  infixl 5 ◌>>◌
  abbrev pub ◌>>◌ : Result E (Unit {0}) → Result E B → Result E B
  first >> rest = first >>= λ _. rest

module _ {ι ℓ} {E : Type ι} {A : Type ℓ} where
  pub Result-cases : (m : Result E A) → ((e : E) × (m ≡ err e)) ⊎ ((a : A) × (m ≡ ok a))
  Result-cases (err reason) = inl (reason, refl)
  Result-cases (ok value) = inr (value, refl)
