-- ===== src/Base/Results.antt =====
-- Go's `(value, error)` results: a value or an error, and the early return on an error.
use mathlib.Core.Path.{◌≡◌, refl}
use mathlib.Core.Logic.{◌⊎◌, inl, inr}

pub data Result {ℓ} (E A : Type ℓ) : Type ℓ where
  ok : A → Result E A
  err : E → Result E A

module _ {ℓ} {E A : Type ℓ} where
  pub Result-cases : (r : Result E A) → ((a : A) × (r ≡ ok a)) ⊎ ((e : E) × (r ≡ err e))
  Result-cases (ok a) = inl (a, refl)
  Result-cases (err e) = inr (e, refl)

module _ {ℓ} {E A B : Type ℓ} where
  -- The next step of a chain of checks.
  abbrev pub and_then : Result E A → (A → Result E B) → Result E B
  and_then (ok a) f = f a
  and_then (err e) f = err e

-- What holds of the value of a result that has one.
abbrev pub WhenOk {ℓ} : {E A : Type ℓ} → (A → Type ℓ) → Result E A → Type ℓ
WhenOk P (ok a) = P a
WhenOk P (err e) = Unit

module _ {ℓ} {E A B : Type ℓ} where
  pub and_then-WhenOk :
      (P : A → Type ℓ) (Q : B → Type ℓ) (r : Result E A) (f : A → Result E B)
      → WhenOk P r
      → ((a : A) → P a → WhenOk Q (f a))
      → WhenOk Q (and_then r f)
  and_then-WhenOk P Q (ok a) f p h = h a p
  and_then-WhenOk P Q (err e) f p h = tt

module _ {ℓ} {E A : Type ℓ} where
  pub WhenOk-mono :
      (P Q : A → Type ℓ) (r : Result E A) → ((a : A) → P a → Q a) → WhenOk P r → WhenOk Q r
  WhenOk-mono P Q (ok a) h p = h a p
  WhenOk-mono P Q (err e) h p = tt
