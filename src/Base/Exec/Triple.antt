-- ===== src/Base/Exec/Triple.antt =====
-- What holds before an action, after it returned a value, and after it failed; one rule for each way to
-- build an action.
use mathlib.Core.Path.{◌≡◌, refl}
use mathlib.Core.Bool.{Bool, true, false}
use nstance.Base.Results.{Result, ok, err}
use nstance.Base.Tests.{if◌then◌else◌}
use nstance.Base.Exec.{Exec, pure, raise, read, outcome, continue, ◌>>=◌}

abbrev pub After {ℓ} : {E S A : Type ℓ} → (A → S → Type ℓ) → (S → Type ℓ) → Result E A × S → Type ℓ
After Q R (ok a, s) = Q a s
After Q R (err e, s) = R s

pub record Triple {ℓ} {E S A : Type ℓ} (P : S → Type ℓ) (m : Exec E S A) (Q : A → S → Type ℓ)
    (R : S → Type ℓ) : Type ℓ where
  pub at : (s : S) → P s → After Q R (m s)

module _ {ℓ} {E S A : Type ℓ} {P : S → Type ℓ} {Q : A → S → Type ℓ} {R : S → Type ℓ} where
  pub Triple-mono :
      {P' : S → Type ℓ} {Q' : A → S → Type ℓ} {R' : S → Type ℓ} {m : Exec E S A}
      → ((s : S) → P' s → P s)
      → ((a : A) (s : S) → Q a s → Q' a s)
      → ((s : S) → R s → R' s)
      → Triple P m Q R
      → Triple P' m Q' R'
  Triple-mono {P'} {Q'} {R'} {m} before after failed t = record {
    at = λ s p. widen (m s) (t.at s (before s p));
  }
    where
      widen : (o : Result E A × S) → After Q R o → After Q' R' o
      widen (ok a, s) q = after a s q
      widen (err e, s) r = failed s r

  pub Triple-pure : (a : A) → ((s : S) → P s → Q a s) → Triple P (pure {E = E} a) Q R
  Triple-pure a h = record { at = h }

  pub Triple-read : (f : S → A) → ((s : S) → P s → Q (f s) s) → Triple P (read {E = E} f) Q R
  Triple-read f h = record { at = h }

  pub Triple-raise : (e : E) → ((s : S) → P s → R s) → Triple P (raise {A = A} e) Q R
  Triple-raise e h = record { at = h }

  pub Triple-if :
      (b : Bool) {m n : Exec E S A}
      → (b ≡ true → Triple P m Q R)
      → (b ≡ false → Triple P n Q R)
      → Triple P (if b then m else n) Q R
  Triple-if true tm tn = tm refl
  Triple-if false tm tn = tn refl

  pub Triple-outcome :
      {m : Exec E S A} → Triple P m Q R → Triple P (outcome m) (λ r s. After Q R (r, s)) R
  Triple-outcome {m} t = record { at = λ s p. keep (m s) (t.at s p) }
    where
      keep : (o : Result E A × S) → After Q R o → After Q R (o.0, o.1)
      keep (ok a, s) q = q
      keep (err e, s) r = r

module _ {ℓ} {E S A B : Type ℓ} {P : S → Type ℓ} {Q : A → S → Type ℓ} {Q' : B → S → Type ℓ}
    {R : S → Type ℓ} where
  pub Triple-bind :
      {m : Exec E S A} {f : A → Exec E S B}
      → Triple P m Q R
      → ((a : A) → Triple (Q a) (f a) Q' R)
      → Triple P (m >>= f) Q' R
  Triple-bind {m} {f} tm tf = record { at = λ s p. go (m s) (tm.at s p) }
    where
      go : (o : Result E A × S) → After Q R o → After Q' R (continue o.0 f o.1)
      go (ok a, s) q = (tf a).at s q
      go (err e, s) r = r
