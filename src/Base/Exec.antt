-- ===== src/Base/Exec.antt =====
-- Methods that change a state and may fail: what was changed before a failure stays changed.
pub mod Triple
use nstance.Base.Results.{Result, ok, err}

abbrev pub Exec {ℓ} : Type ℓ → Type ℓ → Type ℓ → Type ℓ
Exec E S A = S → Result E A × S

module _ {ℓ} {E S A : Type ℓ} where
  abbrev pub pure : A → Exec E S A
  pure a s = (ok a, s)

  abbrev pub raise : E → Exec E S A
  raise e s = (err e, s)

  -- The outcome as a value: what follows decides about a failure.
  abbrev pub outcome : Exec E S A → Exec E S (Result E A)
  outcome m s = let (r, s') = m s in (ok r, s')

  -- What the state tells.
  abbrev pub read : (S → A) → Exec E S A
  read f s = (ok (f s), s)

module _ {ℓ} {E S A B : Type ℓ} where
  abbrev pub continue : Result E A → (A → Exec E S B) → Exec E S B
  continue (ok a) f s = f a s
  continue (err e) f s = (err e, s)

  infixl 10 ◌>>=◌ ◌>>◌
  abbrev pub ◌>>=◌ : Exec E S A → (A → Exec E S B) → Exec E S B
  ◌>>=◌ m f s = let (r, s') = m s in continue r f s'

  abbrev pub ◌>>◌ : Exec E S A → Exec E S B → Exec E S B
  m >> n = m >>= λ _. n
