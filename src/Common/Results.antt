-- ===== src/Common/Results.antt =====
-- A Python call that returns a value or raises: `return` and `raise`, with the error's type.
use mathlib.Core.Path.{◌≡◌, refl}
use mathlib.Core.Logic.{◌⊎◌, inl, inr}

pub data Call {ℓ} (E : Type 0) (A : Type ℓ) : Type ℓ where
  returned : A → Call E A
  raised : E → Call E A

module _ {E : Type 0} where
  infixl 5 ◌>>=◌
  abbrev pub ◌>>=◌ {ℓ κ} : {A : Type ℓ} {B : Type κ} → Call E A → (A → Call E B) → Call E B
  returned a >>= then_run = then_run a
  raised why >>= then_run = raised why

  -- A chain that returned ran both parts.
  pub >>=-returned {ℓ κ} :
      {A : Type ℓ} {B : Type κ} (first : Call E A) (then_run : A → Call E B) {b : B}
      → (first >>= then_run) ≡ returned b
      → (a : A) × (first ≡ returned a) × (then_run a ≡ returned b)
  >>=-returned (returned a) then_run h = (a, refl, h)
  >>=-returned (raised why) then_run h = cc

  pub Call-cases {ℓ} :
      {A : Type ℓ} (m : Call E A) → ((why : E) × (m ≡ raised why)) ⊎ ((a : A) × (m ≡ returned a))
  Call-cases (returned a) = inr (a, refl)
  Call-cases (raised why) = inl (why, refl)
