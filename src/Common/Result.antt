-- ===== src/Common/Result.antt =====
-- A Go function that returns a value and an error returns a `Result`.
use makidoku.Common.Tests.{if◌then◌else◌}
use mathlib.Core.Path.{◌≡◌, refl}
use mathlib.Core.Bool.{Bool}
use mathlib.Core.Logic.{◌⊎◌, inl, inr}

pub data Result {ℓ κ} (E : Type ℓ) (A : Type κ) : Type (ℓ ⊔ κ) where
  err : E → Result E A
  ok : A → Result E A

-- The test of a guard: `if !b { return e }`.
abbrev pub guard {ℓ} : {E : Type ℓ} → Bool → E → Result E (Unit {0})
guard passes e = if passes then ok tt else err e

module _ {ℓ κ} {E : Type ℓ} {B : Type κ} where
  infixl 5 ◌>>=◌ ◌>>◌
  abbrev pub ◌>>=◌ {μ} : {A : Type μ} → Result E A → (A → Result E B) → Result E B
  err e >>= next = err e
  ok a >>= next = next a

  abbrev pub ◌>>◌ : Result E (Unit {0}) → Result E B → Result E B
  first >> second = first >>= λ done. second

  -- A block that returns had a first step that returned, and went on from its value.
  pub >>=-eq-ok {μ} :
      {A : Type μ} (first : Result E A) (next : A → Result E B) {end : B}
      → (first >>= next) ≡ ok end
      → (given : A) × (first ≡ ok given) × (next given ≡ ok end)
  >>=-eq-ok (err e) next returned = absurd cc
  >>=-eq-ok (ok given) next returned = (given, refl, returned)

-- To split on a computed result and keep the equation.
pub Result-cases {ℓ κ} :
    {E : Type ℓ} {A : Type κ} (r : Result E A) → ((e : E) × (r ≡ err e)) ⊎ ((a : A) × (r ≡ ok a))
Result-cases (err e) = inl (e, refl)
Result-cases (ok a) = inr (a, refl)
