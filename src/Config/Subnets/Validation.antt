-- ===== src/Config/Subnets/Validation.antt =====
-- `ValidateSubnetConfig`: the subnet pools of a configuration, what refers to them, and which tenant's NAT
-- they are routed through.
pub mod Recorded
pub mod Isolated
use nstance.Base.{
  String, Bool, true, false, ◌==◌, ◌&&◌, not, Option, none, some, List, [], ◌∷◌, Result, ok, err,
  and_then, if◌then◌else◌, is_some,
}
use nstance.Base.Dict.{Dict, get, put}
use nstance.Config.{
  GroupConfig, Groups, groups_of, TemplateConfig, Config, ConfigError, not_an_identifier,
  pool_unknown, pool_empty, pool_overlap, pool_shared, no_pools,
}
use nstance.Identifiers.{validate}

-- The subnet IDs of a pool, each recorded with the pool that has it.
unfoldable pub claim_ids : String → List String → Dict String → Result ConfigError (Dict String)
claim_ids key [] seen = ok seen
claim_ids key (id ∷ ids) seen = elim (get seen id) [
  | some other ↦ err (pool_overlap id)
  | none ↦ claim_ids key ids (put seen id key)
]

check_pool : String → List String → Dict String → Result ConfigError (Dict String)
unfolding claim_ids
check_pool key [] seen = if validate key then err (pool_empty key) else err (not_an_identifier key)
check_pool key (id ∷ ids) seen =
    if validate key then claim_ids key (id ∷ ids) seen else err (not_an_identifier key)

pub check_pools : Dict (List String) → Dict String → Result ConfigError (Dict String)
unfolding check_pool
check_pools [] seen = ok seen
check_pools ((key, ids) ∷ pools) seen =
    and_then (check_pool key ids seen) λ seen'. check_pools pools seen'

-- A pool that is named has to exist.
check_known : Dict (List String) → String → Result ConfigError (Unit {0})
check_known pools key = elim (get pools key) [ none ↦ err (pool_unknown key) | some _ ↦ ok tt ]

check_dynamic : Dict (List String) → List String → Result ConfigError (Unit {0})
unfolding check_known
check_dynamic pools [] = ok tt
check_dynamic pools (key ∷ keys) =
    if validate key
    then (and_then (check_known pools key) λ _. check_dynamic pools keys)
    else err (not_an_identifier key)

-- An empty name stands for none.
check_reference : Dict (List String) → String → Result ConfigError (Unit {0})
unfolding check_known
check_reference pools key = if key == "" then ok tt else check_known pools key

check_templates : Dict (List String) → Dict TemplateConfig → Result ConfigError (Unit {0})
unfolding check_reference
check_templates pools [] = ok tt
check_templates pools ((name, t) ∷ ts) =
    and_then (check_reference pools t.subnet_pool) λ _. check_templates pools ts

-- A pool that is routed through a tenant's NAT becomes that tenant's.
own : String → String → Dict String → Result ConfigError (Dict String)
own tenant key owned = elim (get owned key) [
  | none ↦ ok (put owned key tenant)
  | some owner ↦ if owner == tenant then ok (put owned key tenant) else err (pool_shared key)
]

-- No group of another tenant is placed in a pool that a tenant owns.
check_owner : String → String → Option String → Result ConfigError (Unit {0})
check_owner tenant key none = ok tt
check_owner tenant key (some owner) =
    if owner == "" then ok tt else if owner == tenant then ok tt else err (pool_shared key)

has_pools : Dict (List String) → Result ConfigError (Unit {0})
has_pools [] = err no_pools
has_pools (_ ∷ _) = ok tt

module _ {Value : Type 0} where
  check_tenant_groups :
      Dict (List String) → Dict (GroupConfig Value) → Result ConfigError (Unit {0})
  unfolding check_reference
  check_tenant_groups pools [] = ok tt
  check_tenant_groups pools ((name, g) ∷ gs) =
      and_then (check_reference pools g.subnet_pool) λ _. check_tenant_groups pools gs

  check_groups : Dict (List String) → Groups Value → Result ConfigError (Unit {0})
  unfolding check_tenant_groups
  check_groups pools [] = ok tt
  check_groups pools ((tenant, gs) ∷ rest) =
      and_then (check_tenant_groups pools gs) λ _. check_groups pools rest

  -- The pool of a group: its own, or that of its template.
  unfoldable pub pool_of : Config Value → GroupConfig Value → String
  pool_of c g =
      if g.subnet_pool == ""
      then elim (get c.templates g.template) [ none ↦ "" | some t ↦ t.subnet_pool ]
      else g.subnet_pool

  own_pools :
      Config Value
      → String
      → String
      → Dict (GroupConfig Value)
      → Dict String
      → Result ConfigError (Dict String)
  unfolding own pool_of
  own_pools c tenant nat_group [] owned = ok owned
  own_pools c tenant nat_group ((name, g) ∷ gs) owned =
      and_then
        (if name == nat_group
          then ok owned
          else if pool_of c g == ""
          then ok owned
          else own tenant (pool_of c g) owned)
        λ owned'. own_pools c tenant nat_group gs owned'

  own_all : Config Value → Dict String → Dict String → Result ConfigError (Dict String)
  unfolding own_pools groups_of
  own_all c [] owned = ok owned
  own_all c ((tenant, nat_group) ∷ nat) owned =
      and_then (own_pools c tenant nat_group (groups_of tenant c.groups) owned)
        λ owned'. own_all c nat owned'

  -- Is the group the one of the tenant's NAT instances?
  unfoldable pub is_nat_group : Config Value → String → String → Bool
  is_nat_group c tenant name = elim (get c.nat tenant) [ none ↦ false | some g ↦ name == g ]

  check_placed :
      Config Value → String → Dict (GroupConfig Value) → Dict String → Result ConfigError (Unit {0})
  unfolding pool_of is_nat_group check_owner
  check_placed c tenant [] owned = ok tt
  check_placed c tenant ((name, g) ∷ gs) owned =
      and_then
        (if is_nat_group c tenant name
          then ok tt
          else if pool_of c g == ""
          then ok tt
          else check_owner tenant (pool_of c g) (get owned (pool_of c g)))
        λ _. check_placed c tenant gs owned

  check_all_placed : Config Value → Groups Value → Dict String → Result ConfigError (Unit {0})
  unfolding check_placed
  check_all_placed c [] owned = ok tt
  check_all_placed c ((tenant, gs) ∷ rest) owned =
      and_then (check_placed c tenant gs owned) λ _. check_all_placed c rest owned

  -- `ValidateSubnetConfig`
  unfoldable pub validate_subnet_config : Config Value → Result ConfigError (Unit {0})
  unfolding has_pools check_pools check_dynamic check_templates check_groups own_all
      check_all_placed
  validate_subnet_config c = and_then (has_pools c.subnet_pools) λ _.
      and_then (check_pools c.subnet_pools []) λ seen.
        and_then (check_dynamic c.subnet_pools c.dynamic_subnet_pools) λ _.
          and_then (check_templates c.subnet_pools c.templates) λ _.
            and_then (check_groups c.subnet_pools c.groups)
              λ _. and_then (own_all c c.nat []) λ owned. check_all_placed c c.groups owned
