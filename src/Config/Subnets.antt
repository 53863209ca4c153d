-- ===== src/Config/Subnets.antt =====
-- internal/server/config/subnets.go: which subnet pools a request may name.
pub mod Validation
use nstance.Base.{
  String, Bool, true, false, ◌==◌, none, some, List, [], ◌∷◌, Result, ok, err, if◌then◌else◌,
}
use nstance.Base.Dict.{get}
use nstance.Config.{Config, ConfigError, not_an_identifier, pool_unknown, pool_not_allowed}
use nstance.Identifiers.{validate}

-- slices.Contains
unfoldable pub contains : String → List String → Bool
contains x [] = false
contains x (y ∷ ys) = let rest = contains x ys in if y == x then true else rest

-- Is the pool among those that requests may name? An empty list allows every pool.
unfoldable pub is_allowed : String → List String → Bool
unfolding contains
is_allowed key [] = true
is_allowed key (p ∷ ps) = contains key (p ∷ ps)

module _ {Value : Type 0} where
  -- `ResolveSubnetKey`
  unfoldable pub resolve_subnet_key : Config Value → String → Result ConfigError (List String)
  resolve_subnet_key c key =
      if key == ""
      then ok []
      else elim (get c.subnet_pools key) [ none ↦ err (pool_unknown key) | some ids ↦ ok ids ]

  -- `ValidateDynamicSubnetKey`
  unfoldable pub validate_dynamic_subnet_key : Config Value → String → Result ConfigError (Unit {0})
  unfolding validate is_allowed
  validate_dynamic_subnet_key c key =
      if key == ""
      then ok tt
      else if validate key
      then elim (get c.subnet_pools key) [
        | none ↦ err (pool_unknown key)
        | some _ ↦
            if is_allowed key c.dynamic_subnet_pools then ok tt else err (pool_not_allowed key)
      ]
      else err (not_an_identifier key)
