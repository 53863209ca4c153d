-- ===== src/Config/Subnets/Validation/Isolated.antt =====
-- What a configuration that `ValidateSubnetConfig` accepts keeps apart.
use nstance.Base.{
  String, ◌≡◌, refl, sym, ap, subst, ◌∙◌, false, ◌==◌, Option, none, some, [], ◌∷◌, Result, ok, err,
  WhenOk, and_then-WhenOk, WhenOk-mono, All, All-mono, if◌then◌else◌, if_cases, arith, eq_iff,
}
use nstance.Base.Dict.{Dict, get, put, get-put_self}
use nstance.Config.{GroupConfig, Groups, groups_of, Config, ConfigError, pool_shared}
use nstance.Config.Subnets.Validation.{
  check_pools, pool_of, own, own_pools, own_all, is_nat_group, check_owner, check_placed,
  check_all_placed, has_pools, check_dynamic, check_templates, check_groups, validate_subnet_config,
}
use nstance.Config.Subnets.Validation.Recorded.{
  Grows, Grows-refl, Grows-trans, Grows-put, Grows-put_same, Recorded, PoolsRecorded,
  check_pools-Recorded,
}

same_text : {x y : String} → ◌≡◌ {A = Option String} (some x) (some y) → x ≡ y
same_text h = cc

own-Owns :
    (tenant key : String) (s : Dict String)
    → WhenOk (λ t. Grows s t × (get t key ≡ some tenant)) (own tenant key s)
unfolding own
own-Owns tenant key s = of_owner (get s key) refl
  where
    of_owner :
        (o : Option String)
        → get s key ≡ o
        → WhenOk
            (λ t. Grows s t × (get t key ≡ some tenant))
            (elim o as (λ _. Result ConfigError (Dict String)) [
              | none ↦ ok (put s key tenant)
              | some owner ↦
                  if owner == tenant then ok (put s key tenant) else err (pool_shared key)
            ])
    of_owner none e = (Grows-put s key tenant e, get-put_self s key tenant)
    of_owner (some owner) e =
        if_cases (WhenOk (λ t. Grows s t × (get t key ≡ some tenant))) (owner == tenant) _ _
          (λ h. (
            Grows-put_same s key tenant owner e ((eq_iff owner tenant).0 h),
            get-put_self s key tenant,
          ))
          (λ _. tt)

module _ {Value : Type 0} (c : Config Value) where
  -- A group that is routed through the NAT of its tenant has a pool that the tenant owns.
  unfoldable pub Routed : Dict String → String → String → String × GroupConfig Value → Type 0
  Routed s tenant nat_group (name, g) =
      (name == nat_group) ≡ false → (pool_of c g == "") ≡ false → get s (pool_of c g) ≡ some tenant

  -- A group that is placed in a pool which a tenant owns is one of that tenant's.
  unfoldable pub Kept : Dict String → String → String × GroupConfig Value → Type 0
  Kept s tenant (name, g) =
      is_nat_group c tenant name ≡ false
      → (pool_of c g == "") ≡ false
      → (owner : String) → get s (pool_of c g) ≡ some owner
      → (owner == "") ≡ false
      → owner ≡ tenant

  Routed-Grows :
      (tenant nat_group : String) (u v : Dict String) (x : String × GroupConfig Value)
      → Grows u v
      → Routed u tenant nat_group x
      → Routed v tenant nat_group x
  unfolding Routed Grows
  Routed-Grows tenant nat_group u v (name, g) f r other placed =
      f (pool_of c g) tenant (r other placed)

  own_pools-Routed :
      (tenant nat_group : String) (gs : Dict (GroupConfig Value)) (s : Dict String)
      → WhenOk
          (λ t. Grows s t × All (Routed t tenant nat_group) gs)
          (own_pools c tenant nat_group gs s)
  unfolding own_pools Routed
  own_pools-Routed tenant nat_group [] s = (Grows-refl s, tt)
  own_pools-Routed tenant nat_group ((name, g) ∷ gs) s =
      and_then-WhenOk (λ t. Grows s t × Routed t tenant nat_group (name, g))
        (λ t. Grows s t × All (Routed t tenant nat_group) ((name, g) ∷ gs)) _ _
        (if_cases (WhenOk (λ t. Grows s t × Routed t tenant nat_group (name, g)))
          (name == nat_group) _ _ (λ h. (Grows-refl s, λ other placed. cc))
          (λ h.
            if_cases (WhenOk (λ t. Grows s t × Routed t tenant nat_group (name, g)))
              (pool_of c g == "") _ _ (λ e. (Grows-refl s, λ other placed. cc))
              (λ e.
                WhenOk-mono _ _ (own tenant (pool_of c g) s) (λ t (f, o). (f, λ other placed. o))
                  (own-Owns tenant (pool_of c g) s))))
        λ t (f, r).
          WhenOk-mono _ _ (own_pools c tenant nat_group gs t)
            (λ u (f', rs).
              (Grows-trans s t u f f', (Routed-Grows tenant nat_group t u (name, g) f' r, rs)))
            (own_pools-Routed tenant nat_group gs t)

  -- Every group of a tenant with NAT is routed through it, but for the group of its NAT instances.
  AllRouted : Dict String → Dict String → Type 0
  AllRouted s nat =
      All (λ (tenant, nat_group). All (Routed s tenant nat_group) (groups_of tenant c.groups)) nat

  own_all-Routed :
      (nat s : Dict String) → WhenOk (λ t. Grows s t × AllRouted t nat) (own_all c nat s)
  unfolding own_all AllRouted
  own_all-Routed [] s = (Grows-refl s, tt)
  own_all-Routed ((tenant, nat_group) ∷ nat) s =
      let gs = groups_of tenant c.groups in
      and_then-WhenOk (λ t. Grows s t × All (Routed t tenant nat_group) gs)
        (λ t. Grows s t × AllRouted t ((tenant, nat_group) ∷ nat))
        (own_pools c tenant nat_group gs s) _ (own_pools-Routed tenant nat_group gs s)
        λ t (f, r).
          WhenOk-mono _ _ (own_all c nat t)
            (λ u (f', rs). (
              Grows-trans s t u f f',
              (All-mono _ _ gs (λ x. Routed-Grows tenant nat_group t u x f') r, rs),
            ))
            (own_all-Routed nat t)

  check_owner-Kept :
      (tenant key : String) (o : Option String)
      → WhenOk
          (λ _. (owner : String) → o ≡ some owner → (owner == "") ≡ false → owner ≡ tenant)
          (check_owner tenant key o)
  unfolding check_owner
  check_owner-Kept tenant key none = λ owner h. cc h
  check_owner-Kept tenant key (some owner) =
      let Q = λ (u : Unit {0}).
        (x : String)
        → ◌≡◌ {A = Option String} (some owner) (some x)
        → (x == "") ≡ false
        → x ≡ tenant in
      if_cases (WhenOk Q) (owner == "") _ _
        (λ e x h n. ground (arith, same_text h, ap (λ t. t == "") (same_text h)))
        (λ e.
          if_cases (WhenOk Q) (owner == tenant) _ _
            (λ t x h n. sym (same_text h) ∙ (eq_iff owner tenant).0 t) (λ t. tt))

  check_placed-Kept :
      (tenant : String) (gs : Dict (GroupConfig Value)) (s : Dict String)
      → WhenOk (λ _. All (Kept s tenant) gs) (check_placed c tenant gs s)
  unfolding check_placed Kept
  check_placed-Kept tenant [] s = tt
  check_placed-Kept tenant ((name, g) ∷ gs) s =
      and_then-WhenOk (λ _. Kept s tenant (name, g)) (λ _. All (Kept s tenant) ((name, g) ∷ gs)) _ _
        (if_cases (WhenOk (λ _. Kept s tenant (name, g))) (is_nat_group c tenant name) _ _
          (λ h. λ other. cc)
          (λ h.
            if_cases (WhenOk (λ _. Kept s tenant (name, g))) (pool_of c g == "") _ _
              (λ e. λ other placed. cc)
              (λ e.
                WhenOk-mono _ _ (check_owner tenant (pool_of c g) (get s (pool_of c g)))
                  (λ _ k. λ other placed. k)
                  (check_owner-Kept tenant (pool_of c g) (get s (pool_of c g))))))
        λ _ k.
          WhenOk-mono _ _ (check_placed c tenant gs s) (λ _ ks. (k, ks))
            (check_placed-Kept tenant gs s)

  -- Every group of the configuration is kept out of the pools that other tenants own.
  AllKept : Dict String → Groups Value → Type 0
  AllKept s all = All (λ (tenant, gs). All (Kept s tenant) gs) all

  check_all_placed-Kept :
      (all : Groups Value) (s : Dict String)
      → WhenOk (λ _. AllKept s all) (check_all_placed c all s)
  unfolding check_all_placed AllKept
  check_all_placed-Kept [] s = tt
  check_all_placed-Kept ((tenant, gs) ∷ rest) s =
      and_then-WhenOk (λ _. All (Kept s tenant) gs) (λ _. AllKept s ((tenant, gs) ∷ rest))
        (check_placed c tenant gs s) _ (check_placed-Kept tenant gs s)
        λ _ k.
          WhenOk-mono _ _ (check_all_placed c rest s) (λ _ ks. (k, ks))
            (check_all_placed-Kept rest s)

  -- The pools have no subnet in common, as each subnet ID has one pool, and no pool is shared between the
  -- tenants of managed NAT and others, as each pool that is routed through NAT has one tenant.
  pub record Isolated : Type 0 where
    pub pool_of_id : Dict String
    pub disjoint : All (λ (key, ids). All (λ id. get pool_of_id id ≡ some key) ids) c.subnet_pools
    pub owner_of : Dict String
    pub routed :
        All
          (λ (tenant, nat_group).
            All (Routed owner_of tenant nat_group) (groups_of tenant c.groups))
          c.nat
    pub kept : All (λ (tenant, gs). All (Kept owner_of tenant) gs) c.groups

  validated : WhenOk (λ _. Isolated) (validate_subnet_config c)
  unfolding validate_subnet_config PoolsRecorded Recorded AllRouted AllKept
  validated =
      and_then-WhenOk (λ _. Unit) (λ _. Isolated) (has_pools c.subnet_pools) _ (anything _)
        λ _ _.
          and_then-WhenOk (PoolsRecorded c.subnet_pools) (λ _. Isolated)
            (check_pools c.subnet_pools []) _
            (WhenOk-mono _ _ (check_pools c.subnet_pools []) (λ t (f, p). p)
              (check_pools-Recorded c.subnet_pools []))
            λ seen recorded.
              and_then-WhenOk (λ _. Unit) (λ _. Isolated)
                (check_dynamic c.subnet_pools c.dynamic_subnet_pools) _ (anything _)
                λ _ _.
                  and_then-WhenOk (λ _. Unit) (λ _. Isolated)
                    (check_templates c.subnet_pools c.templates) _ (anything _)
                    λ _ _.
                      and_then-WhenOk (λ _. Unit) (λ _. Isolated)
                        (check_groups c.subnet_pools c.groups) _ (anything _)
                        λ _ _.
                          and_then-WhenOk (λ s. AllRouted s c.nat) (λ _. Isolated)
                            (own_all c c.nat []) _
                            (WhenOk-mono _ _ (own_all c c.nat []) (λ t (f, p). p)
                              (own_all-Routed c.nat []))
                            λ owned routed.
                              WhenOk-mono _ _ (check_all_placed c c.groups owned)
                                (λ _ kept. record {
                                  pool_of_id = seen;
                                  disjoint = recorded;
                                  owner_of = owned;
                                  routed = routed;
                                  kept = kept;
                                })
                                (check_all_placed-Kept c.groups owned)
    where
      anything : (r : Result ConfigError (Unit {0})) → WhenOk (λ _. Unit) r
      anything (ok _) = tt
      anything (err e) = tt

  -- In a configuration that ValidateSubnetConfig accepts no subnet is in two pools; and there is one tenant
  -- for each pool that groups of a tenant with managed NAT are placed in, the group of its NAT instances
  -- aside, so that no group of another tenant is placed there, explicitly or by its template, unless the
  -- owner has the empty name or that group is the one of NAT instances.
  pub validate_subnet_config-Isolated : validate_subnet_config c ≡ ok tt → Isolated
  validate_subnet_config-Isolated h = subst (WhenOk (λ _. Isolated)) h validated
