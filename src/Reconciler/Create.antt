-- ===== src/Reconciler/Create.antt =====
-- `createInstanceForGroup` of scaling.go, and `deleteInstance` of health.go.
pub mod Cases
pub mod Size
use nstance.Base.{
  ℕ, ◌+◌, String, Bool, true, false, Option, none, some, Result, ok, err, leb, if◌then◌else◌,
}
use nstance.LocalDb.{Instance, Table}
use nstance.LocalDb.Rows.{get_instance, get_instance_count_by_group}
use nstance.Reconciler.{
  GroupConfig, CreateInstanceRequest, ReconcileError, tenant_asleep, group_full, database,
  instance_failure, instance_count_by_group, instance_row, Action, created, deleted, error_notified,
  World, Env, logged, notified,
}

-- `GetSize` of internal/server/config/types.go.
unfoldable pub get_size : GroupConfig → ℕ
get_size g = elim g.size [ none ↦ 0 | some n ↦ n ]

abbrev pub max_oversize_padding : ℕ
max_oversize_padding = 1

abbrev pub max_size : GroupConfig → Bool → ℕ
max_size g allow_oversize = if allow_oversize then get_size g + max_oversize_padding else get_size g

abbrev pub request_for : String → String → GroupConfig → CreateInstanceRequest
request_for tenant group g = record {
  tenant = tenant;
  group = group;
  template = g.template;
  instance_type = g.instance_type;
  subnet_pool = g.subnet_pool;
  on_demand = false;
}

-- How many managed instances of the group are alive.
abbrev pub managed_count : String → String → World → ℕ
managed_count tenant group w = get_instance_count_by_group tenant group true w.table

record_created :
    Env
    → CreateInstanceRequest
    → World
    → Result ℕ String × Table
    → Result ReconcileError String × World
record_created env r w (err e, t) = (err (instance_failure e), record w { table = t })
record_created env r w (ok id, t) =
    (ok id, logged (created r id) (record w { table = t; last_create_time = env.now }))

unfoldable pub create_instance_for_group :
    Env → String → String → GroupConfig → Bool → World → Result ReconcileError String × World
unfolding record_created
create_instance_for_group env tenant group g allow_oversize w =
    if env.asleep tenant
    then (err tenant_asleep, w)
    else if env.faulty instance_count_by_group
    then (err database, w)
    else if leb (max_size g allow_oversize) (managed_count tenant group w)
    then (err (group_full (managed_count tenant group w) (max_size g allow_oversize)), w)
    else if env.asleep_after_wait tenant
    then (err tenant_asleep, w)
    else record_created env (request_for tenant group g) w
        (env.create (request_for tenant group g) w.table)

-- What the instance manager changed before a failure stays. The notice of a failed deletion names the instance as the table has it.
notify_failed_delete : Env → String → World → World
notify_failed_delete env id w = elim (get_instance id w.table) [
  | none ↦ w
  | some i ↦
      if env.faulty (instance_row id)
      then w
      else notified env (error_notified i.tenant i.group id) w
]

unfoldable pub delete_instance : Env → String → String → World → World
unfolding notify_failed_delete
delete_instance env tenant id w =
    let (failure, t) = env.delete tenant id w.table in
    elim failure [
      | none ↦ logged (deleted tenant id) (record w { table = t })
      | some e ↦ notify_failed_delete env id (record w { table = t })
    ]
