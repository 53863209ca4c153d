-- ===== src/Config/Tests.antt =====
-- The groups of a shard at concrete inputs, with a store whose contents are the documents themselves.
use nstance.Base.{
  ℕ, ◌≡◌, refl, ◌≢◌, Option, none, some, [], ◌∷◌, ok, decide, decide_iff, text_discrete, ℕ_discrete,
}
use nstance.Base.Dict.{get, put}
use nstance.Base.Exec.Triple.{After}
use nstance.Storage.{Digest}
use nstance.Config.{groups_of, GroupConfig, no_group, Groups, Config}
use nstance.Identifiers.{validate}
use nstance.Config.Subnets.Validation.{validate_subnet_config}
use nstance.Config.Subnets.Validation.Isolated.{Isolated, validate_subnet_config-Isolated}
use nstance.Config.Groups.{merge_groups}
use nstance.Config.Groups.Merged.{MergedGroup, merge_groups-Overridden}
use nstance.Config.Groups.Upserted.{Effect}
use nstance.Config.Loader.{Loader, Codec, Env, get_group, upsert_group}
use nstance.Config.Loader.Roundtrip.{upsert_group-reads_back}

group_discrete : Discrete (GroupConfig ℕ)
unfolding text_discrete
group_discrete = hlevel (text_discrete, ℕ_discrete)

documents_discrete : Discrete (Groups ℕ)
unfolding text_discrete group_discrete
documents_discrete = hlevel (text_discrete, group_discrete)

tags_discrete : Discrete (Option (Groups ℕ))
unfolding documents_discrete
tags_discrete = hlevel documents_discrete

some_ne_none : (m : Groups ℕ) → ◌≢◌ {A = Option (Groups ℕ)} (some m) none
some_ne_none m = λ h. cc h

some_inj : (m n : Groups ℕ) → ◌≡◌ {A = Option (Groups ℕ)} (some m) (some n) → m ≡ n
some_inj m n h = cc h

-- The content is its own digest.
instance abbrev plain : Digest (Groups ℕ)
plain = record {
  Tag = Option (Groups ℕ);
  absent = none;
  tag_eq = λ a b. decide (tags_discrete a b);
  tag_eq_iff = λ a b. decide_iff (tags_discrete a b);
  sum = λ m. some m;
  sum-ne-absent = some_ne_none;
  sum-injective = some_inj;
}

abbrev plain_codec : Codec (Groups ℕ) ℕ
plain_codec = record { encode = λ m. m; decode = λ m. some m }

-- No faults, no other writers; the hash of the groups is their number of tenants.
abbrev calm : Env (Groups ℕ) ℕ (Groups ℕ)
calm = record {
  read_fault = none;
  write_fault = none;
  between = λ s. s;
  cache_read_fault = none;
  cache_write_fault = none;
  compute_hashes = λ c gs. ok gs;
  publish_fault = none;
}

abbrev web : GroupConfig ℕ
web = record no_group {
  template = "small";
  size = some 2;
  subnet_pool = "public";
  vars = ("tier", "front") ∷ [];
}

abbrev bigger : GroupConfig ℕ
bigger = record no_group { size = some 5; vars = ("tier", "edge") ∷ [] }

abbrev shard : Config ℕ
shard = record {
  templates = ("small", record { subnet_pool = "public" }) ∷ [];
  groups = ("acme", ("web", web) ∷ []) ∷ [];
  subnet_pools = ("public", "subnet-1" ∷ []) ∷ [];
  dynamic_subnet_pools = [];
  nat = [];
}

abbrev fresh : Loader (Groups ℕ) ℕ (Groups ℕ)
fresh = record { config = shard; groups = none; disk = []; cache = []; hashes = [] }

upsert_group-reads_back_example :
    After
      (λ _ v.
        (x : GroupConfig ℕ) × ((get_group calm plain_codec "acme" "web" v).0 ≡ ok x)
        × Effect (get (groups_of "acme" fresh.config.groups) "web") bigger x)
      (λ v. v.groups ≡ fresh.groups)
      (upsert_group calm plain_codec "acme" "web" bigger fresh)
upsert_group-reads_back_example =
    upsert_group-reads_back calm plain_codec "acme" "web" bigger fresh refl

merge_groups-Overridden_example :
    MergedGroup
      (get (("web", web) ∷ []) "web")
      (get (("web", bigger) ∷ []) "web")
      (get (merge_groups (("web", web) ∷ []) (("web", bigger) ∷ [])) "web")
merge_groups-Overridden_example =
    merge_groups-Overridden (("web", web) ∷ []) (("web", bigger) ∷ []) "web"

-- A shard in which a tenant's instances use a pool that is routed through its NAT.
abbrev routed_shard : Config ℕ
routed_shard = record shard {
  groups =
      (
        "acme",
        ("nat", record web { subnet_pool = "public" })
            ∷ ("web", record web { subnet_pool = "inner" })
            ∷ [],
      )
      ∷ ("other", ("web", web) ∷ [])
      ∷ [];
  subnet_pools = ("public", "subnet-1" ∷ []) ∷ ("inner", "subnet-2" ∷ "subnet-3" ∷ []) ∷ [];
  nat = ("acme", "nat") ∷ [];
}

validate_subnet_config-Isolated_example : Isolated routed_shard
unfolding validate_subnet_config get put groups_of validate
validate_subnet_config-Isolated_example = validate_subnet_config-Isolated routed_shard refl
