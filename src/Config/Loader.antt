-- ===== src/Config/Loader.antt =====
-- internal/server/config/loader.go and groups.go: the document of dynamic groups. The world is the loader
-- with the shard's storage and the local cache. The environment answers for the faults of one operation,
-- for what other writers do between its read and its write, and for the hashes of the groups.
pub mod Upsert
pub mod Roundtrip
use nstance.Base.{
  ℕ, String, Bool, true, false, ◌==◌, Option, none, some, List, [], ◌∷◌, Result, ok, err,
  if◌then◌else◌, is_some,
}
use nstance.Base.Dict.{Dict, get, put, delete}
use nstance.Base.Exec.{Exec, pure, raise, read, ◌>>=◌, ◌>>◌}
use nstance.Storage.{StorageError, not_found, precondition, io, Digest}
use nstance.Storage.Mock
use nstance.Config.{
  GroupConfig, groups_of, no_group, Groups, Config, ConfigError, tenant_required,
  modified_by_another, undecodable, group_not_found, storage_failed, hashing_failed,
  publishing_failed,
}
use nstance.Config.Groups.{is_empty, put_all, merge_groups, upserted}

abbrev pub groups_key : String
groups_key = "groups.jsonc"

abbrev pub groups_cache_key : String
groups_cache_key = "groups.json"

pub record Loader (Data Value Hashes : Type 0) : Type 0 where
  pub config : Config Value
  -- `none` until they are loaded
  pub groups : Option (Groups Value)
  pub disk : Dict Data
  pub cache : Dict Data
  -- The table of the local database.
  pub hashes : Hashes

-- JSON and JSON with comments.
pub record Codec (Data Value : Type 0) : Type 0 where
  pub encode : Groups Value → Data
  pub decode : Data → Option (Groups Value)

pub record Env (Data Value Hashes : Type 0) : Type 0 where
  pub read_fault : Option ℕ
  pub write_fault : Option ℕ
  pub between : Dict Data → Dict Data
  pub cache_read_fault : Option ℕ
  pub cache_write_fault : Option ℕ
  pub compute_hashes : Config Value → Groups Value → Result ℕ Hashes
  pub publish_fault : Option ℕ

-- candidate[tenant][key] = group
unfoldable pub with_group :
    {Value : Type 0} → String → String → GroupConfig Value → Groups Value → Groups Value
unfolding groups_of
with_group tenant key g gs = put gs tenant (put (groups_of tenant gs) key g)

-- The candidate of `DeleteDynamicGroup`.
unfoldable pub without_group : {Value : Type 0} → String → String → Groups Value → Groups Value
unfolding groups_of
without_group tenant key gs =
    let rest = delete (groups_of tenant gs) key in
    if is_empty rest then delete gs tenant else put gs tenant rest

-- An operation of the loader.
abbrev pub Action : Type 0 → Type 0 → Type 0 → Type 0 → Type 0
Action Data Value Hashes A = Exec ConfigError (Loader Data Value Hashes) A

module _ {Data Value Hashes : Type 0} where
  -- A write of the local cache, whose failure is logged only.
  cached : Option ℕ → Data → Loader Data Value Hashes → Loader Data Value Hashes
  cached (some e) d l = l
  cached none d l = record l { cache = put l.cache groups_cache_key d }

  -- cacheStorage.Delete
  uncached : Option ℕ → Loader Data Value Hashes → Loader Data Value Hashes
  uncached (some e) l = l
  uncached none l = record l { cache = delete l.cache groups_cache_key }

  module _ ⦃md5 : Digest Data⦄ (env : Env Data Value Hashes) (codec : Codec Data Value) where
    parsed :
        Data → md5.Tag → Option (Groups Value) → Action Data Value Hashes (Groups Value × md5.Tag)
    unfolding cached
    parsed d etag none l = (err undecodable, l)
    parsed d etag (some gs) l = (ok (gs, etag), cached env.cache_write_fault d l)

    stored :
        Result StorageError (Data × md5.Tag) → Action Data Value Hashes (Groups Value × md5.Tag)
    unfolding parsed
    stored (err not_found) = pure ([], md5.absent)
    stored (err precondition) = raise (storage_failed precondition)
    stored (err (io e)) = raise (storage_failed (io e))
    stored (ok (d, etag)) = parsed d etag (codec.decode d)

    -- `loadDynamicGroupsFromStorage`
    unfoldable pub load_from_storage : Action Data Value Hashes (Groups Value × md5.Tag)
    unfolding stored
    load_from_storage l = stored (Mock.read env.read_fault l.disk groups_key) l

    publish_unless : Option ℕ → Groups Value → Data → Hashes → Action Data Value Hashes (Unit {0})
    unfolding cached
    publish_unless (some e) gs d hashes l = (err (publishing_failed e), l)
    publish_unless none gs d hashes l = (
      ok tt,
      record (cached env.cache_write_fault d (record l { hashes = hashes })) { groups = some gs },
    )

    -- `publishDynamicGroupsLocallyLocked`
    unfoldable pub publish_locally :
        Groups Value → Data → Hashes → Action Data Value Hashes (Unit {0})
    unfolding publish_unless
    publish_locally gs d hashes = publish_unless env.publish_fault gs d hashes

    -- What a save does after its conditional write: a failed publication takes the cached copy away.
    published :
        Result ConfigError (Unit {0}) × Loader Data Value Hashes
        → Result ConfigError (Unit {0}) × Loader Data Value Hashes
    unfolding uncached
    published (ok _, l) = (ok tt, l)
    published (err e, l) = (err e, uncached env.cache_write_fault l)

    put_answered :
        Groups Value
        → Hashes
        → Result StorageError (Dict Data)
        → Action Data Value Hashes (Unit {0})
    unfolding publish_locally published
    put_answered gs hashes (err precondition) l = (err modified_by_another, l)
    put_answered gs hashes (err not_found) l = (err (storage_failed not_found), l)
    put_answered gs hashes (err (io e)) l = (err (storage_failed (io e)), l)
    put_answered gs hashes (ok s) l =
        published (publish_locally gs (codec.encode gs) hashes (record l { disk = s }))

    save_hashed : Groups Value → md5.Tag → Result ℕ Hashes → Action Data Value Hashes (Unit {0})
    unfolding put_answered
    save_hashed gs etag (err e) l = (err (hashing_failed e), l)
    save_hashed gs etag (ok hashes) l =
        let t = env.between l.disk in
        put_answered gs hashes
          (Mock.put_if_match env.write_fault t groups_key (codec.encode gs) etag)
          (record l { disk = t })

    -- `saveDynamicGroupsLocked`
    unfoldable pub save : Groups Value → md5.Tag → Action Data Value Hashes (Unit {0})
    unfolding save_hashed
    save gs etag l = save_hashed gs etag (env.compute_hashes l.config gs) l

    publish_hashed : Groups Value → Result ℕ Hashes → Action Data Value Hashes (Unit {0})
    unfolding publish_locally
    publish_hashed gs (err e) l = (err (hashing_failed e), l)
    publish_hashed gs (ok hashes) l = publish_locally gs (codec.encode gs) hashes l

    -- `publishLoadedDynamicGroupsLocked`
    unfoldable pub publish_loaded : Groups Value → Action Data Value Hashes (Unit {0})
    unfolding publish_hashed
    publish_loaded gs l = publish_hashed gs (env.compute_hashes l.config gs) l

    -- The save that follows the change of a group, where the change succeeds.
    save_changed :
        String
        → String
        → Groups Value
        → md5.Tag
        → Result ConfigError (GroupConfig Value)
        → Action Data Value Hashes (Unit {0})
    unfolding with_group save
    save_changed tenant key gs etag (err e) = raise e
    save_changed tenant key gs etag (ok g) = save (with_group tenant key g gs) etag

    -- What a change makes of an entry, which may be missing.
    unfoldable pub changed :
        (GroupConfig Value → Bool → Result ConfigError (GroupConfig Value))
        → Option (GroupConfig Value)
        → Result ConfigError (GroupConfig Value)
    changed change none = change no_group false
    changed change (some g) = change g true

    -- `UpdateDynamicGroup`
    unfoldable pub update_dynamic_group :
        String
        → String
        → (GroupConfig Value → Bool → Result ConfigError (GroupConfig Value))
        → Action Data Value Hashes (Unit {0})
    unfolding load_from_storage save_changed groups_of changed
    update_dynamic_group tenant key change = do
      (gs, etag) ← load_from_storage
      save_changed tenant key gs etag (changed change (get (groups_of tenant gs) key))

    -- `SetDynamicGroup`
    unfoldable pub set_dynamic_group :
        String → String → GroupConfig Value → Action Data Value Hashes (Unit {0})
    unfolding update_dynamic_group
    set_dynamic_group tenant key group = update_dynamic_group tenant key λ existing exists. ok group

    -- `DeleteDynamicGroup`
    unfoldable pub delete_dynamic_group : String → String → Action Data Value Hashes (Unit {0})
    unfolding load_from_storage save publish_loaded without_group groups_of
    delete_dynamic_group tenant key = do
      (gs, etag) ← load_from_storage
      if is_some (get (groups_of tenant gs) key)
          then save (without_group tenant key gs) etag
          else publish_loaded gs

    -- `UpsertGroup`
    unfoldable pub upsert_group :
        String → String → GroupConfig Value → Action Data Value Hashes (Unit {0})
    unfolding update_dynamic_group upserted groups_of
    upsert_group tenant key group l =
        if tenant == ""
        then (err tenant_required, l)
        else update_dynamic_group tenant key
            (upserted l.config (get (groups_of tenant l.config.groups) key) group) l

    -- `DeleteGroup`
    unfoldable pub delete_group : String → String → Action Data Value Hashes (Unit {0})
    unfolding delete_dynamic_group
    delete_group tenant key =
        if tenant == "" then raise tenant_required else delete_dynamic_group tenant key

    cached_groups : Result StorageError (Data × md5.Tag) → Option (Groups Value)
    cached_groups (err e) = none
    cached_groups (ok (d, etag)) = codec.decode d

    -- `loadGroupsFromCache`
    unfoldable pub load_from_cache : Loader Data Value Hashes → Option (Groups Value)
    unfolding cached_groups
    load_from_cache l = cached_groups (Mock.read env.cache_read_fault l.cache groups_cache_key)

    -- Groups that become those of the loader.
    loaded :
        Result ConfigError (Groups Value × md5.Tag) × Loader Data Value Hashes
        → Result ConfigError (Groups Value) × Loader Data Value Hashes
    loaded (err e, l) = (err e, l)
    loaded (ok (gs, etag), l) = (ok gs, record l { groups = some gs })

    -- `LoadDynamicGroups`: the groups in memory, else those of the local cache, else those of the storage.
    unfoldable pub load_dynamic_groups : Action Data Value Hashes (Groups Value)
    unfolding load_from_cache load_from_storage loaded
    load_dynamic_groups l = elim l.groups [
      | some gs ↦ (ok gs, l)
      | none ↦ elim (load_from_cache l) [
        | some gs ↦ (ok gs, record l { groups = some gs })
        | none ↦ loaded (load_from_storage l)
      ]
    ]

    found : String → String → Option (GroupConfig Value) → Result ConfigError (GroupConfig Value)
    found tenant key none = err (group_not_found key tenant)
    found tenant key (some g) = ok g

    -- The group of the merged view.
    unfoldable pub merged_group :
        Config Value → String → String → Groups Value → Result ConfigError (GroupConfig Value)
    unfolding groups_of merge_groups found
    merged_group c tenant key gs =
        found tenant key (get (merge_groups (groups_of tenant c.groups) (groups_of tenant gs)) key)

    looked_up :
        String
        → String
        → Result ConfigError (Groups Value) × Loader Data Value Hashes
        → Result ConfigError (GroupConfig Value) × Loader Data Value Hashes
    unfolding merged_group
    looked_up tenant key (err e, l) = (err e, l)
    looked_up tenant key (ok gs, l) = (merged_group l.config tenant key gs, l)

    -- `GetGroup`
    unfoldable pub get_group : String → String → Action Data Value Hashes (GroupConfig Value)
    unfolding load_dynamic_groups looked_up
    get_group tenant key l =
        if tenant == ""
        then (err tenant_required, l)
        else looked_up tenant key (load_dynamic_groups l)
