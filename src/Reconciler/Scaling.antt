-- ===== src/Reconciler/Scaling.antt =====
-- internal/server/reconciler/scaling.go: a group is brought to its size.
pub mod Size
pub mod Converge
pub mod Rotation
use nstance.Base.{
  ℕ, zero, suc, ◌+◌, ◌-◌, String, Bool, true, false, ◌&&◌, Option, none, some, List, [], ◌∷◌,
  Result, ok, err, ◌==◌, ltb, if◌then◌else◌, length, nat_eq, is_some,
}
use nstance.LocalDb.{Instance, Table}
use nstance.LocalDb.Rows.{get_instance, get_instances_by_group}
use nstance.Reconciler.{
  GroupConfig, ReconcileError, tenant_asleep, delete_failures, database, instances_by_group,
  cached_group, deleted, error_notified, World, Env, logged, notified,
}
use nstance.Reconciler.Create.{create_instance_for_group, get_size}
use nstance.Reconciler.Drain.{replace_and_drain, is_nat_group}
use nstance.Reconciler.Expiry.{
  find_instance, check_group_expiry, schedule_group_expiry, cancel_group_expiry_timer,
}

-- A failed creation ends the loop; one that the sleep of the tenant stopped is no failure.
stop_scaling :
    Env → String → String → ReconcileError → World → Result ReconcileError (Unit {0}) × World
stop_scaling env tenant group tenant_asleep w = (ok tt, w)
stop_scaling env tenant group e w = (err e, notified env (error_notified tenant group "") w)

-- `count` more instances.
unfoldable pub scale_up :
    Env → String → String → GroupConfig → ℕ → World → Result ReconcileError (Unit {0}) × World
unfolding stop_scaling
scale_up env tenant group g zero w = (ok tt, w)
scale_up env tenant group g (suc count) w =
    let (result, w') = create_instance_for_group env tenant group g false w in
    elim result [
      | ok id ↦ scale_up env tenant group g count w'
      | err e ↦ stop_scaling env tenant group e w'
    ]

-- The deletions go on after a failure; the number of failures is returned.
unfoldable pub scale_down_from : Env → String → String → List String → ℕ → ℕ → World → ℕ × World
scale_down_from env tenant group [] count failures w = (failures, w)
scale_down_from env tenant group (id ∷ rest) zero failures w = (failures, w)
scale_down_from env tenant group (id ∷ rest) (suc count) failures w =
    let (failure, t) = env.delete tenant id w.table in
    elim failure [
      | none ↦
          scale_down_from env tenant group rest count failures
            (logged (deleted tenant id) (record w { table = t }))
      | some e ↦
          scale_down_from env tenant group rest count (suc failures)
            (notified env (error_notified tenant group id) (record w { table = t }))
    ]

abbrev pub joined : ℕ × World → Result ReconcileError (Unit {0}) × World
joined (failures, w) = (if nat_eq failures 0 then ok tt else err (delete_failures failures), w)

unfoldable pub scale_down :
    Env → String → String → List String → ℕ → World → Result ReconcileError (Unit {0}) × World
unfolding scale_down_from
scale_down env tenant group instances count w =
    joined (scale_down_from env tenant group instances count 0 w)

-- What the search for a drifted instance finds: that one drains already, or the first drifted one.
pub data Drift : Type 0 where
  draining : Drift
  first_drifted : Option String → Drift

abbrev pub hash_of : Instance → String
hash_of i = elim i.infra_config_hash [ none ↦ "" | some h ↦ h ]

unfoldable pub find_drift : Env → String → World → Option String → List String → Drift
find_drift env hash w found [] = first_drifted found
find_drift env hash w found (id ∷ rest) = elim (find_instance env id w) [
  | none ↦ find_drift env hash w found rest
  | some i ↦ elim i.drain_started_at [
    | some at ↦ draining
    | none ↦
        find_drift env hash w
          (elim found [ some d ↦ some d | none ↦ if hash_of i == hash then none else some id ]) rest
  ]
]

rotate : Env → String → String → GroupConfig → Drift → World → World
rotate env tenant group g draining w = w
rotate env tenant group g (first_drifted none) w = w
rotate env tenant group g (first_drifted (some id)) w =
    replace_and_drain env id tenant group g false w

unfoldable pub check_group_config_drift : Env → String → String → GroupConfig → World → World
unfolding rotate
check_group_config_drift env tenant group g w =
    elim (if env.faulty cached_group then none else env.cached_hash tenant group) [
      | none ↦ w
      | some hash ↦
          if env.faulty instances_by_group
          then w
          else rotate env tenant group g
              (find_drift env hash w none (get_instances_by_group tenant group true w.table)) w
    ]

-- What follows the scaling of a group that is there.
finish_group : Env → String → String → GroupConfig → World → World
finish_group env tenant group g w =
    if env.asleep tenant
    then cancel_group_expiry_timer tenant group w
    else schedule_group_expiry env tenant group
        (check_group_expiry env tenant group (check_group_config_drift env tenant group g w))

abbrev pub desired_count : Env → String → GroupConfig → ℕ
desired_count env tenant g = if env.asleep tenant then 0 else get_size g

-- Up or down to the desired count; `current` was read before.
unfoldable pub scale_group :
    Env
    → String
    → String
    → GroupConfig
    → List String
    → World
    → Result ReconcileError (Unit {0}) × World
scale_group env tenant group g current w =
    let desired = desired_count env tenant g in
    let have = length current in
    if ltb have desired
    then scale_up env tenant group g (desired - have) w
    else if ltb desired have
    then scale_down env tenant group current (have - desired) w
    else (ok tt, w)

finish_scaled :
    Env
    → String
    → String
    → GroupConfig
    → Result ReconcileError (Unit {0}) × World
    → Result ReconcileError (Unit {0}) × World
unfolding finish_group
finish_scaled env tenant group g (err e, w) = (err e, w)
finish_scaled env tenant group g (ok _, w) = (ok tt, finish_group env tenant group g w)

-- The group is known, or it was deleted and is emptied.
reconcile_group :
    Env
    → String
    → String
    → List String
    → Result ReconcileError GroupConfig
    → World
    → Result ReconcileError (Unit {0}) × World
unfolding finish_scaled scale_group
reconcile_group env tenant group current (err e) w =
    scale_down env tenant group current (length current) (cancel_group_expiry_timer tenant group w)
reconcile_group env tenant group current (ok g) w =
    finish_scaled env tenant group g (scale_group env tenant group g current w)

unfoldable pub handle_group_changed :
    Env → String → String → World → Result ReconcileError (Unit {0}) × World
unfolding reconcile_group
handle_group_changed env tenant group w =
    if is_nat_group env tenant group
    then (ok tt, w)
    else if env.faulty instances_by_group
    then (err database, w)
    else reconcile_group env tenant group (get_instances_by_group tenant group true w.table)
        (env.get_group tenant group) w
