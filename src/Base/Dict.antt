-- ===== src/Base/Dict.antt =====
-- Go's `map[string]V`: an association list with at most one live entry for each key. The order of
-- the list is the order of a `range` loop; it is arbitrary, as in Go.
use Prim.Native.String.{String}
use text.Mathlib.TextEquality.{eq_iff}
use text.Mathlib.TextPositions.{eq_refl}
use mathlib.Core.Path.{◌≡◌, refl}
use mathlib.Core.Logic.{◌≢◌, ◌⊎◌}
use mathlib.Core.List.{List, [], ◌∷◌}
use mathlib.Core.Option.{Option, none, some}
use native.Mathlib.Omega.{arith}
use nstance.Base.Tests.{◌==◌, if◌then◌else◌}

abbrev pub Dict {ℓ} : Type ℓ → Type ℓ
Dict V = List (String × V)

module _ {ℓ} {V : Type ℓ} where
  -- v, ok := m[k]
  unfoldable pub get : Dict V → String → Option V
  get [] k = none
  get ((j, v) ∷ m) k = if j == k then some v else get m k

  -- m[k] = v
  unfoldable pub put : Dict V → String → V → Dict V
  put [] k v = (k, v) ∷ []
  put ((j, w) ∷ m) k v = if j == k then (k, v) ∷ m else (j, w) ∷ put m k v

  -- delete(m, k)
  unfoldable pub delete : Dict V → String → Dict V
  delete [] k = []
  delete ((j, v) ∷ m) k = let rest = delete m k in if j == k then rest else (j, v) ∷ rest

  pub get-put :
      (m : Dict V) (k : String) (v : V) (j : String)
      → get (put m k v) j ≡ (if k == j then some v else get m j)
  unfolding get put
  get-put [] k v j = refl
  get-put ((i, w) ∷ m) k v j = ground (arith, eq_iff k j, eq_iff i k, eq_iff i j, get-put m k v j)

  pub get-delete :
      (m : Dict V) (k j : String) → get (delete m k) j ≡ (if k == j then none else get m j)
  unfolding get delete
  get-delete [] k j = ground arith
  get-delete ((i, w) ∷ m) k j = ground (arith, eq_iff k j, eq_iff i k, eq_iff i j, get-delete m k j)

  pub get-put_self : (m : Dict V) (k : String) (v : V) → get (put m k v) k ≡ some v
  get-put_self m k v = simp (get-put, eq_refl)

  pub get-delete_self : (m : Dict V) (k : String) → get (delete m k) k ≡ none
  get-delete_self m k = simp (get-delete, eq_refl)

  -- What a key holds after a write was written there, or was there before.
  pub get-put_cases :
      (m : Dict V) (k : String) (v : V) (j : String) (w : V)
      → get (put m k v) j ≡ some w
      → ((k ≡ j) × (v ≡ w)) ⊎ ((k ≢ j) × (get m j ≡ some w))
  get-put_cases m k v j w h = ground (arith, get-put m k v j, eq_iff k j)

  pub get-delete_cases :
      (m : Dict V) (k j : String) (w : V)
      → get (delete m k) j ≡ some w
      → (k ≢ j) × (get m j ≡ some w)
  get-delete_cases m k j w h = ground (arith, get-delete m k j, eq_iff k j)

  pub get-put_ne :
      (m : Dict V) (k : String) (v : V) (j : String) → k ≢ j → get (put m k v) j ≡ get m j
  get-put_ne m k v j h = ground (arith, get-put m k v j, eq_iff k j)

pub ruleset dict_laws = (get-put, get-delete, get-put_self, get-delete_self)
