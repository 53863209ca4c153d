-- ===== src/Config.antt =====
-- internal/server/config: the groups of a shard. A group stands in the static configuration, in the
-- document of dynamic groups of the shard's storage, or in both; the dynamic entry of a static group
-- overrides some of its fields. Config.Groups is groups.go with the merged view and the upsert,
-- Config.Loader the part of loader.go that reads and writes the document.
pub mod Subnets
pub mod Groups
pub mod Loader
mod Tests
use nstance.Base.{ℕ, String, Option, none, some, List, []}
use nstance.Base.Dict.{Dict, get}
use nstance.Storage.{StorageError}

-- The values of `Args`, which are arbitrary JSON, are a parameter.
pub record GroupConfig (Value : Type 0) : Type 0 where
  pub template : String
  pub size : Option ℕ
  pub instance_type : String
  pub subnet_pool : String
  pub vars : Dict String
  pub args : Dict Value
  pub drain_timeout : Option ℕ
  pub load_balancers : List String

-- GroupConfig{}
abbrev pub no_group : {Value : Type 0} → GroupConfig Value
no_group = record {
  template = "";
  size = none;
  instance_type = "";
  subnet_pool = "";
  vars = [];
  args = [];
  drain_timeout = none;
  load_balancers = [];
}

-- The field of `TemplateConfig` that placement reads.
pub record TemplateConfig : Type 0 where
  pub subnet_pool : String

-- Groups by tenant and key.
abbrev pub Groups : Type 0 → Type 0
Groups Value = Dict (Dict (GroupConfig Value))

-- groups[tenant], the empty map for a tenant that is not there.
unfoldable pub groups_of : {Value : Type 0} → String → Groups Value → Dict (GroupConfig Value)
groups_of tenant gs = elim (get gs tenant) [ none ↦ [] | some m ↦ m ]

-- The fields of `Config` and `ShardConfig` that the groups are checked against.
pub record Config (Value : Type 0) : Type 0 where
  pub templates : Dict TemplateConfig
  pub groups : Groups Value
  pub subnet_pools : Dict (List String)
  pub dynamic_subnet_pools : List String
  -- The tenants with managed NAT, and the group of each that its NAT instances belong to.
  pub nat : Dict String

pub data ConfigError : Type 0 where
  tenant_required template_required modified_by_another undecodable : ConfigError
  not_an_identifier pool_unknown pool_not_allowed pool_empty : String → ConfigError
  pool_overlap pool_shared : String → ConfigError
  no_pools : ConfigError
  template_not_found template_without_pool : String → ConfigError
  cannot_override_template cannot_override_pool cannot_override_args cannot_override_drain_timeout :
      ConfigError
  group_not_found : String → String → ConfigError
  storage_failed : StorageError → ConfigError
  hashing_failed publishing_failed : ℕ → ConfigError
