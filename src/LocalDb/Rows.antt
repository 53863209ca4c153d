-- ===== src/LocalDb/Rows.antt =====
-- internal/server/localdb/instances.go.
use nstance.Base.{
  ℕ, ◌+◌, String, Bool, true, false, ◌&&◌, not, Option, none, some, List, [], ◌∷◌, ◌==◌,
  if◌then◌else◌, is_none, is_some, ltb, length,
}
use nstance.LocalDb.{Status, deleting, deleted, Instance, Table}

-- provider_state IS NULL OR its status NOT IN ('deleting', 'deleted')
abbrev pub is_present : Option Status → Bool
is_present (some deleting) = false
is_present (some deleted) = false
is_present _ = true

-- The condition that the queries over live instances share.
abbrev pub is_active : Instance → Bool
is_active i = is_none i.deleted_at && is_present i.provider_state

unfoldable pub select : (Instance → Bool) → Table → Table
select p [] = []
select p (i ∷ t) = let rest = select p t in if p i then i ∷ rest else rest

unfoldable pub ids : Table → List String
ids [] = []
ids (i ∷ t) = i.id ∷ ids t

-- UPDATE ... WHERE id = ? AND deleted_at IS NULL
unfoldable pub update_row : String → (Instance → Instance) → Table → Table
update_row id f [] = []
update_row id f (i ∷ t) =
    (if i.id == id && is_none i.deleted_at then f i else i) ∷ update_row id f t

-- `GetInstance`: none is sql.ErrNoRows.
unfoldable pub get_instance : String → Table → Option Instance
get_instance id [] = none
get_instance id (i ∷ t) = if i.id == id && is_none i.deleted_at then some i else get_instance id t

abbrev pub in_group : String → String → Bool → Instance → Bool
in_group tenant group exclude_on_demand i =
    (i.tenant == tenant)
    && ((i.group == group)
        && (is_active i && (if exclude_on_demand then not i.on_demand else true)))

-- `GetInstancesByGroup`
unfoldable pub get_instances_by_group : String → String → Bool → Table → List String
get_instances_by_group tenant group exclude_on_demand t =
    ids (select (in_group tenant group exclude_on_demand) t)

-- `GetInstanceCountByGroup`
unfoldable pub get_instance_count_by_group : String → String → Bool → Table → ℕ
get_instance_count_by_group tenant group exclude_on_demand t =
    length (select (in_group tenant group exclude_on_demand) t)

abbrev pub is_older : ℕ → ℕ → Bool → Instance → Bool
is_older now max_age on_demand i =
    ltb (i.created_at + max_age) now
    && (is_active i && (if on_demand then i.on_demand else not i.on_demand))

-- `GetInstancesOlderThan`: created_at < now - max_age.
unfoldable pub get_instances_older_than : ℕ → ℕ → Bool → Table → Table
get_instances_older_than now max_age on_demand t = select (is_older now max_age on_demand) t

abbrev pub first {ℓ} : {A : Type ℓ} → List A → Option A
first [] = none
first (x ∷ xs) = some x

abbrev pub is_undrained_in_group : String → String → Instance → Bool
is_undrained_in_group tenant group i = in_group tenant group true i && is_none i.drain_started_at

-- `GetOldestManagedInstanceByGroup`
unfoldable pub get_oldest_managed_instance_by_group : String → String → Table → Option Instance
get_oldest_managed_instance_by_group tenant group t =
    first (select (is_undrained_in_group tenant group) t)

abbrev pub drain_started : ℕ → Instance → Instance
drain_started now i = record i { drain_started_at = some now }

abbrev pub drain_acked : ℕ → Instance → Instance
drain_acked now i = record i { drain_acked_at = some now }

abbrev pub provider_state_set : Status → Instance → Instance
provider_state_set s i = record i { provider_state = some s }

-- `MarkDrainStarted`: none where no row is affected.
unfoldable pub mark_drain_started : ℕ → String → Table → Option Table
mark_drain_started now id t =
    if is_some (get_instance id t) then some (update_row id (drain_started now) t) else none

-- `MarkDrainAcked`
unfoldable pub mark_drain_acked : ℕ → String → Table → Option Table
mark_drain_acked now id t =
    if is_some (get_instance id t) then some (update_row id (drain_acked now) t) else none

-- `UpdateInstanceProviderState`
unfoldable pub update_instance_provider_state : Status → String → Table → Option Table
update_instance_provider_state s id t =
    if is_some (get_instance id t) then some (update_row id (provider_state_set s) t) else none

abbrev pub marked_deleted : ℕ → Instance → Instance
marked_deleted now i = record i { deleted_at = some now }

-- `DeleteInstance`
unfoldable pub delete_instance : ℕ → String → Table → Option Table
delete_instance now id t =
    if is_some (get_instance id t) then some (update_row id (marked_deleted now) t) else none
