-- ===== src/Config/Subnets/Validation/Recorded.antt =====
-- The subnet IDs of the pools that were checked are recorded as each pool's own.
use nstance.Base.{
  String, ◌≡◌, refl, Option, none, some, List, [], ◌∷◌, err, WhenOk, and_then-WhenOk, WhenOk-mono,
  All, All-mono, if_cases, arith, eq_iff,
}
use nstance.Base.Dict.{Dict, get, put, get-put, get-put_self}
use nstance.Config.{pool_overlap}
use nstance.Config.Subnets.Validation.{claim_ids, check_pool, check_pools}
use nstance.Identifiers.{validate}

-- What is recorded stays recorded.
unfoldable pub Grows : Dict String → Dict String → Type 0
Grows s t = (k v : String) → get s k ≡ some v → get t k ≡ some v

pub Grows-refl : (s : Dict String) → Grows s s
unfolding Grows
Grows-refl s k v h = h

pub Grows-trans : (s t u : Dict String) → Grows s t → Grows t u → Grows s u
unfolding Grows
Grows-trans s t u f g k v h = g k v (f k v h)

pub Grows-put : (s : Dict String) (k v : String) → get s k ≡ none → Grows s (put s k v)
unfolding Grows
Grows-put s k v n j w h = ground (arith, get-put s k v j, eq_iff k j)

pub Grows-put_same :
    (s : Dict String) (k v w : String) → get s k ≡ some w → w ≡ v → Grows s (put s k v)
unfolding Grows
Grows-put_same s k v w n e j x h = ground (arith, get-put s k v j, eq_iff k j)

-- Every subnet ID of the pool is recorded as the pool's.
unfoldable pub Recorded : Dict String → String → List String → Type 0
Recorded s key ids = All (λ id. get s id ≡ some key) ids

Recorded-Grows :
    (s t : Dict String) (key : String) (ids : List String)
    → Grows s t
    → Recorded s key ids
    → Recorded t key ids
unfolding Recorded Grows
Recorded-Grows s t key ids f p = All-mono _ _ ids (λ id. f id key) p

claim_ids-Recorded :
    (key : String) (ids : List String) (s : Dict String)
    → WhenOk (λ t. Grows s t × Recorded t key ids) (claim_ids key ids s)
unfolding claim_ids Recorded Grows
claim_ids-Recorded key [] s = (Grows-refl s, tt)
claim_ids-Recorded key (id ∷ ids) s =
    of_seen (get s id) refl (claim_ids-Recorded key ids (put s id key))
  where
    of_seen :
        (o : Option String)
        → get s id ≡ o
        → WhenOk
            (λ t. Grows (put s id key) t × Recorded t key ids)
            (claim_ids key ids (put s id key))
        → WhenOk
            (λ t. Grows s t × Recorded t key (id ∷ ids))
            (elim o [
              | some other ↦ err (pool_overlap id)
              | none ↦ claim_ids key ids (put s id key)
            ])
    of_seen (some other) e rest = tt
    of_seen none e rest =
        WhenOk-mono _ _ (claim_ids key ids (put s id key))
          (λ t (g, r). (
            Grows-trans s (put s id key) t (Grows-put s id key e) g,
            (g id key (get-put_self s id key), r),
          ))
          rest

check_pool-Recorded :
    (key : String) (ids : List String) (s : Dict String)
    → WhenOk (λ t. Grows s t × Recorded t key ids) (check_pool key ids s)
unfolding check_pool
check_pool-Recorded key [] s =
    if_cases (WhenOk (λ t. Grows s t × Recorded t key [])) (validate key) _ _ (λ _. tt) (λ _. tt)
check_pool-Recorded key (id ∷ ids) s =
    if_cases (WhenOk (λ t. Grows s t × Recorded t key (id ∷ ids))) (validate key) _ _
      (λ _. claim_ids-Recorded key (id ∷ ids) s) (λ _. tt)

-- Every pool's subnet IDs are recorded as its own.
unfoldable pub PoolsRecorded : Dict (List String) → Dict String → Type 0
PoolsRecorded pools s = All (λ (key, ids). Recorded s key ids) pools

pub check_pools-Recorded :
    (pools : Dict (List String)) (s : Dict String)
    → WhenOk (λ t. Grows s t × PoolsRecorded pools t) (check_pools pools s)
unfolding check_pools PoolsRecorded
check_pools-Recorded [] s = (Grows-refl s, tt)
check_pools-Recorded ((key, ids) ∷ pools) s =
    and_then-WhenOk (λ t. Grows s t × Recorded t key ids)
      (λ t. Grows s t × PoolsRecorded ((key, ids) ∷ pools) t) (check_pool key ids s) _
      (check_pool-Recorded key ids s)
      λ t (g, r).
        WhenOk-mono _ _ (check_pools pools t)
          (λ u (g', rs). (Grows-trans s t u g g', (Recorded-Grows t u key ids g' r, rs)))
          (check_pools-Recorded pools t)
