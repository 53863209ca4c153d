-- ===== src/LocalDb/Collected.antt =====
-- internal/server/localdb/instances.go: the queries of the garbage collection, and the removal of rows.
use nstance.Base.{
  ℕ, ◌+◌, String, Bool, true, false, ◌&&◌, not, ◌==◌, Option, none, some, [], ◌∷◌, if◌then◌else◌,
  is_some, is_none, leb, ltb,
}
use nstance.LocalDb.{Status, is_unhealthy, Instance, Table}
use nstance.LocalDb.Rows.{select}

abbrev pub is_unhealthy_state : Option Status → Bool
is_unhealthy_state none = false
is_unhealthy_state (some s) = is_unhealthy s

-- Did it happen, and longer ago than so much?
abbrev pub is_past : ℕ → ℕ → Option ℕ → Bool
is_past now age none = false
is_past now age (some at) = ltb (at + age) now

-- Does a time come before another? An absent one comes first.
abbrev pub is_sooner : Option ℕ → Option ℕ → Bool
is_sooner none b = true
is_sooner (some a) none = false
is_sooner (some a) (some b) = leb a b

-- ORDER BY a time
unfoldable pub insert_by : (Instance → Option ℕ) → Instance → Table → Table
insert_by time i [] = i ∷ []
insert_by time i (j ∷ t) =
    let rest = insert_by time i t in if is_sooner (time i) (time j) then i ∷ j ∷ t else j ∷ rest

unfoldable pub order_by : (Instance → Option ℕ) → Table → Table
unfolding insert_by
order_by time [] = []
order_by time (i ∷ t) = insert_by time i (order_by time t)

abbrev pub is_unhealthy_row : Instance → Bool
is_unhealthy_row i =
    is_none i.deleted_at && (is_some i.provider_id && is_unhealthy_state i.provider_state)

abbrev pub is_dangling : ℕ → ℕ → Instance → Bool
is_dangling now max_age i =
    is_none i.registered_at && (is_none i.deleted_at && is_past now max_age i.issued_at)

abbrev pub is_stale_pre_insert : ℕ → ℕ → Instance → Bool
is_stale_pre_insert now max_age i =
    is_none i.provider_id && (is_past now max_age i.issued_at && is_none i.deleted_at)

abbrev pub has_stale_health : ℕ → ℕ → Instance → Bool
has_stale_health now interval i =
    is_none i.deleted_at && (is_some i.registered_at && is_past now interval i.health_at)

-- `FindUnhealthyProviderInstances`
unfoldable pub find_unhealthy_provider_instances : Table → Table
unfolding select
find_unhealthy_provider_instances t = select is_unhealthy_row t

-- `FindDanglingInstances`
unfoldable pub find_dangling_instances : ℕ → ℕ → Table → Table
unfolding select order_by
find_dangling_instances now max_age t =
    order_by (λ i. i.issued_at) (select (is_dangling now max_age) t)

-- `FindStalePreInserts`
unfoldable pub find_stale_pre_inserts : ℕ → ℕ → Table → Table
unfolding select
find_stale_pre_inserts now max_age t = select (is_stale_pre_insert now max_age) t

-- `QueryStaleHealthInstances`
unfoldable pub query_stale_health_instances : ℕ → ℕ → Table → Table
unfolding select order_by
query_stale_health_instances now interval t =
    order_by (λ i. i.health_at) (select (has_stale_health now interval) t)

-- `FindDeletedInstancesPastRetention`
unfoldable pub find_deleted_instances_past_retention : ℕ → ℕ → Table → Table
unfolding select
find_deleted_instances_past_retention now retention t =
    select (λ i. is_past now retention i.deleted_at) t

has_deleted : String → Table → Bool
has_deleted id [] = false
has_deleted id (i ∷ t) =
    let rest = has_deleted id t in if i.id == id && is_some i.deleted_at then true else rest

-- `PurgeDeletedInstance`: absent where there is no such row.
unfoldable pub purge_deleted_instance : String → Table → Option Table
unfolding select has_deleted
purge_deleted_instance id t =
    if has_deleted id t
    then some (select (λ i. not (i.id == id && is_some i.deleted_at)) t)
    else none
