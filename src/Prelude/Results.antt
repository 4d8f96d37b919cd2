-- ===== src/Prelude/Results.antt =====
-- A call that returns or throws.
use mathlib.Core.Path.{◌≡◌, refl}
use mathlib.Core.Logic.{◌⊎◌, inl, inr}

pub data Outcome {ℓ κ} (E : Type ℓ) (A : Type κ) : Type (ℓ ⊔ κ) where
  ok : A → Outcome E A
  err : E → Outcome E A

-- Either the call returned, or it threw.
pub Outcome-cases {ℓ κ} :
    {E : Type ℓ} {A : Type κ} (call : Outcome E A)
    → ((value : A) × (call ≡ ok value)) ⊎ ((thrown : E) × (call ≡ err thrown))
Outcome-cases (err thrown) = inr (thrown, refl)
Outcome-cases (ok value) = inl (value, refl)

module _ {ℓ κ μ} {E : Type ℓ} {A : Type κ} {B : Type μ} where
  -- What follows a call runs only when the call returned.
  infixl 5 ◌>>=◌
  abbrev pub ◌>>=◌ : Outcome E A → (A → Outcome E B) → Outcome E B
  err thrown >>= next = err thrown
  ok value >>= next = next value

  pub >>=-eq-ok :
      (call : Outcome E A) (next : A → Outcome E B) {result : B}
      → (call >>= next) ≡ ok result
      → (value : A) × (call ≡ ok value) × (next value ≡ ok result)
  >>=-eq-ok (err thrown) next returned = cc
  >>=-eq-ok (ok value) next returned = (value, refl, returned)
