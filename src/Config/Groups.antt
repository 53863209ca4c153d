-- ===== src/Config/Groups.antt =====
-- internal/server/config/groups.go: the merged view of static and dynamic groups, and what an upsert makes
-- of the dynamic entry.
pub mod Merged
pub mod Upserted
use nstance.Base.{
  ℕ, String, Bool, true, false, not, ◌&&◌, ◌||◌, ◌==◌, Option, none, some, List, [], ◌∷◌, Result,
  ok, err, if◌then◌else◌, is_some,
}
use nstance.Base.Dict.{Dict, get, put}
use nstance.Config.{
  GroupConfig, Config, ConfigError, template_required, template_not_found, template_without_pool,
  cannot_override_template, cannot_override_pool, cannot_override_args,
  cannot_override_drain_timeout,
}
use nstance.Config.Subnets.{validate_dynamic_subnet_key}

-- for k, v := range m { into[k] = v }
unfoldable pub put_all : {V : Type 0} → Dict V → Dict V → Dict V
put_all into [] = into
put_all into ((k, v) ∷ m) = let rest = put_all into m in put rest k v

abbrev pub is_empty : {V : Type 0} → Dict V → Bool
is_empty [] = true
is_empty (_ ∷ _) = false

-- A text of an update where there is one.
abbrev pub or_text : String → String → String
or_text old new = if new == "" then old else new

abbrev pub or_size : Option ℕ → Option ℕ → Option ℕ
or_size old none = old
or_size old (some n) = some n

module _ {Value : Type 0} where
  -- A static group with the overrides of its dynamic entry.
  unfoldable pub override : GroupConfig Value → GroupConfig Value → GroupConfig Value
  unfolding put_all
  override s d = record s {
    size = or_size s.size d.size;
    instance_type = or_text s.instance_type d.instance_type;
    vars = put_all s.vars d.vars;
  }

  apply_overrides :
      Dict (GroupConfig Value)
      → Dict (GroupConfig Value)
      → Dict (GroupConfig Value)
      → Dict (GroupConfig Value)
  unfolding override
  apply_overrides static [] merged = merged
  apply_overrides static ((key, d) ∷ dynamic) merged =
      let rest = apply_overrides static dynamic merged in
      put rest key (elim (get static key) [ none ↦ d | some s ↦ override s d ])

  -- `mergeGroups`
  unfoldable pub merge_groups :
      Dict (GroupConfig Value) → Dict (GroupConfig Value) → Dict (GroupConfig Value)
  unfolding put_all apply_overrides
  merge_groups static dynamic = apply_overrides static dynamic (put_all [] static)

  -- `mergeGroupConfig`
  unfoldable pub merge_group_config :
      GroupConfig Value → GroupConfig Value → Bool → GroupConfig Value
  unfolding put_all
  merge_group_config existing update is_static = record existing {
    template = if is_static then existing.template else or_text existing.template update.template;
    size = or_size existing.size update.size;
    instance_type = or_text existing.instance_type update.instance_type;
    subnet_pool =
        if is_static then existing.subnet_pool else or_text existing.subnet_pool update.subnet_pool;
    vars = put_all existing.vars update.vars;
    args = if is_static then existing.args else put_all existing.args update.args;
  }

  -- The overrides that a static group refuses.
  check_static : GroupConfig Value → GroupConfig Value → Result ConfigError (GroupConfig Value)
  check_static s group =
      if not (group.template == "") && not (group.template == s.template)
      then err cannot_override_template
      else if not (group.subnet_pool == "")
      then err cannot_override_pool
      else if not (is_empty group.args)
      then err cannot_override_args
      else if is_some group.drain_timeout
      then err cannot_override_drain_timeout
      else ok group

  -- A new group has a template, and its subnet pool or that of the template.
  check_new : Config Value → GroupConfig Value → Result ConfigError (GroupConfig Value)
  check_new c group =
      if group.template == ""
      then err template_required
      else if not (group.subnet_pool == "")
      then ok group
      else elim (get c.templates group.template) [
        | none ↦ err (template_not_found group.template)
        | some t ↦
            if t.subnet_pool == ""
            then err (template_without_pool group.template)
            else ok (record group { subnet_pool = t.subnet_pool })
      ]

  checked :
      Config Value
      → Option (GroupConfig Value)
      → Bool
      → GroupConfig Value
      → Result ConfigError (GroupConfig Value)
  unfolding check_static check_new
  checked c (some s) exists group = check_static s group
  checked c none true group = ok group
  checked c none false group = check_new c group

  -- The check of the subnet pool and the merge, after the checks of the group.
  placed :
      Config Value
      → Bool
      → GroupConfig Value
      → Result ConfigError (GroupConfig Value)
      → Result ConfigError (GroupConfig Value)
  unfolding validate_dynamic_subnet_key merge_group_config
  placed c is_static existing (err e) = err e
  placed c is_static existing (ok group) =
      if is_static
      then ok (merge_group_config existing group true)
      else elim (validate_dynamic_subnet_key c group.subnet_pool) [
        | err e ↦ err e
        | ok _ ↦ ok (merge_group_config existing group false)
      ]

  -- The closure of `UpsertGroup`: the new dynamic entry, by the static group and the existing entry.
  unfoldable pub upserted :
      Config Value
      → Option (GroupConfig Value)
      → GroupConfig Value
      → GroupConfig Value
      → Bool
      → Result ConfigError (GroupConfig Value)
  unfolding checked placed
  upserted c static group existing exists =
      placed c (is_some static) existing (checked c static exists group)
