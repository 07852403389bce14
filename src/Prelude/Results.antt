-- ===== src/Prelude/Results.antt =====
-- An answer or the error that a handler throws in its place.
use mathlib.Core.Path.{◌≡◌, refl}
use mathlib.Core.Logic.{◌⊎◌, inl, inr}
use mathlib.Core.Bool.{Bool, true, false}
use mathlib.Core.Option.{Option, none, some}

pub data Result {ℓ} (E : Type 0) (A : Type ℓ) : Type ℓ where
  err : E → Result E A
  ok : A → Result E A

module _ {ℓ κ} {E : Type 0} {A : Type ℓ} {B : Type κ} where
  infixl 6 ◌>>=◌ ◌>>◌
  abbrev pub ◌>>=◌ : Result E A → (A → Result E B) → Result E B
  err thrown >>= next = err thrown
  ok answer >>= next = next answer

  abbrev pub ◌>>◌ : Result E A → Result E B → Result E B
  first >> second = first >>= λ _. second

module _ {E : Type 0} where
  -- `if (!test) throw error`
  abbrev pub guard : Bool → E → Result E (Unit {0})
  guard test error = elim test [ true ↦ ok tt | false ↦ err error ]

  abbrev pub required {ℓ} : {A : Type ℓ} → Option A → E → Result E A
  required found error = elim found [ none ↦ err error | some a ↦ ok a ]

  pub Result-cases {ℓ} :
      {A : Type ℓ} (m : Result E A) → ((a : A) × (m ≡ ok a)) ⊎ ((e : E) × (m ≡ err e))
  Result-cases (err e) = inr (e, refl)
  Result-cases (ok a) = inl (a, refl)
