-- ===== src/Gc.antt =====
-- internal/server/gc: instances whose provider reports them unhealthy, that never registered, or that were
-- never created are terminated and their rows deleted; stale health reports lead to checks; the records
-- of deleted instances are removed after a time. The world is the local table, the shard's storage and a log
-- of what was done, newest first. The environment answers for the database's and the storage's faults,
-- the deletion at the provider, what others do to the table and the storage before a call, and the clock.
-- A cutoff of now less an age is written on the other side of its comparison.
pub mod Careful
mod Tests
use nstance.Base.{
  ℕ, suc, String, Bool, true, false, ◌==◌, ◌&&◌, ◌||◌, not, Option, none, some, List, [], ◌∷◌,
  Result, ok, err, if◌then◌else◌, nat_eq, is_some,
}
use nstance.Base.Dict.{Dict}
use nstance.Storage.{StorageError, not_found, precondition, io}
use nstance.Storage.Mock
use nstance.LocalDb.{Instance, Table}
use nstance.LocalDb.Rows.{delete_instance}
use nstance.LocalDb.Collected.{
  find_unhealthy_provider_instances, find_dangling_instances, find_stale_pre_inserts,
  query_stale_health_instances, find_deleted_instances_past_retention, purge_deleted_instance,
}

-- What was done: a deletion at the provider and whether it succeeded, the removal of a record from the
-- storage and whether it is gone, the deletion of a row, events for the reconciler, and the removal of a deleted row.
pub data Deed : Type 0 where
  terminated : Instance → Bool → Deed
  record_removed : Instance → Bool → Deed
  row_deleted : Instance → Deed
  group_changed : String → String → Deed
  check_requested : String → Deed
  row_purged : Instance → Deed

pub record World (Data : Type 0) : Type 0 where
  pub table : Table
  pub disk : Dict Data
  pub clock : ℕ
  pub log : List Deed

pub record Env (Data : Type 0) : Type 0 where
  pub db_fault : ℕ → Bool
  pub storage_fault : ℕ → Option ℕ
  -- Absent where there is no withdrawal barrier for load balancers.
  pub deleter : Option (String → String → ℕ → Option ℕ)
  pub has_reconciler : Bool
  pub others_table : ℕ → Table → Table
  pub others_disk : ℕ → Dict Data → Dict Data
  pub now : ℕ → ℕ
  -- `instances.StorageKey` in the path of the record, which decodes an ID in the library's format.
  pub record_key : String → String → Option String

-- Thirty minutes.
abbrev pub default_deleted_record_retention : ℕ
default_deleted_record_retention = 1800000000000

module _ {Data : Type 0} where
  abbrev pub logged : Deed → World Data → World Data
  logged a w = record w { log = a ∷ w.log }

  module _ (env : Env Data) where
    -- A call takes a moment, in which others may act.
    unfoldable pub moment : World Data → World Data
    moment w = record w {
      clock = suc w.clock;
      table = env.others_table w.clock w.table;
      disk = env.others_disk w.clock w.disk;
    }

    abbrev pub clock_now : World Data → ℕ
    clock_now w = env.now w.clock

    removed_answered : Instance → World Data → Result StorageError (Dict Data) → World Data
    removed_answered i w (ok s) = logged (record_removed i true) (record w { disk = s })
    removed_answered i w (err e) = logged (record_removed i false) w

    remove_at : Instance → Option String → World Data → World Data
    unfolding moment removed_answered
    remove_at i none w = w
    remove_at i (some key) w =
        if i.tenant == ""
        then w
        else (let v = moment w in
            removed_answered i v (Mock.remove (env.storage_fault w.clock) v.disk key))

    -- The removal of an instance's record, unless its key cannot be told.
    unfoldable pub remove_record : Instance → World Data → World Data
    unfolding remove_at
    remove_record i w = remove_at i (env.record_key i.tenant i.id) w

    row_answered : Instance → World Data → Bool → Option Table → World Data
    row_answered i w true t = w
    row_answered i w false none = w
    row_answered i w false (some t) = logged (row_deleted i) (record w { table = t })

    -- `DeleteInstance` of the database.
    delete_row : Instance → World Data → World Data
    unfolding moment row_answered
    delete_row i w =
        let v = moment w in
        row_answered i v (env.db_fault w.clock) (delete_instance (env.now w.clock) i.id v.table)

    notify_group : Instance → World Data → World Data
    notify_group i w =
        if env.has_reconciler && (not (i.tenant == "") && not (i.group == ""))
        then logged (group_changed i.tenant i.group) w
        else w

    -- What follows once the instance is gone at the provider.
    clean_up : Instance → World Data → World Data
    unfolding remove_record delete_row notify_group
    clean_up i w = notify_group i (delete_row i (remove_record i w))

    deletion_answered : Instance → World Data → Option ℕ → World Data
    unfolding clean_up
    deletion_answered i w none = clean_up i (logged (terminated i true) w)
    deletion_answered i w (some e) = logged (terminated i false) w

    terminate : Instance → Option (String → String → ℕ → Option ℕ) → World Data → World Data
    unfolding moment deletion_answered
    terminate i none w = w
    terminate i (some delete) w = deletion_answered i (moment w) (delete i.tenant i.id w.clock)

    collect : Instance → Option String → World Data → World Data
    unfolding clean_up terminate
    collect i none w = clean_up i w
    collect i (some id) w = if id == "" then clean_up i w else terminate i env.deleter w

    -- `terminateAndCleanup`
    unfoldable pub terminate_and_cleanup : Table → World Data → World Data
    unfolding collect
    terminate_and_cleanup [] w = w
    terminate_and_cleanup (i ∷ t) w = terminate_and_cleanup t (collect i i.provider_id w)

    -- A query, unless the database fails: what it finds is terminated.
    collect_found : (Table → Table) → World Data → Bool × World Data
    unfolding moment terminate_and_cleanup
    collect_found query w =
        let v = moment w in
        if env.db_fault w.clock then (false, v) else (true, terminate_and_cleanup (query v.table) v)

    and_next : (World Data → Bool × World Data) → Bool × World Data → Bool × World Data
    and_next m (true, w) = m w
    and_next m (false, w) = (false, w)

    collect_dangling : ℕ → World Data → Bool × World Data
    unfolding collect_found
    collect_dangling max_age w = collect_found (find_dangling_instances (clock_now w) max_age) w

    collect_stale : ℕ → World Data → Bool × World Data
    unfolding collect_found
    collect_stale max_age w = collect_found (find_stale_pre_inserts (clock_now w) max_age) w

    -- `RunGarbageCollection`, and whether it succeeded.
    unfoldable pub run_garbage_collection : ℕ → World Data → Bool × World Data
    unfolding collect_found collect_dangling collect_stale and_next
    run_garbage_collection max_age w =
        and_next (collect_stale max_age)
          (and_next (collect_dangling max_age) (collect_found find_unhealthy_provider_instances w))

    request_checks : Table → World Data → World Data
    request_checks [] w = w
    request_checks (i ∷ t) w =
        request_checks t
          (if is_some i.health_at && env.has_reconciler then logged (check_requested i.id) w else w)

    -- `CheckInstanceHealth`
    unfoldable pub check_instance_health : ℕ → World Data → World Data
    unfolding moment request_checks
    check_instance_health interval w =
        let v = moment w in
        if env.db_fault w.clock
        then v
        else request_checks (query_stale_health_instances (clock_now w) interval v.table) v

    purge_answered : Instance → World Data → Bool → Option Table → World Data
    purge_answered i w true o = w
    purge_answered i w false none = w
    purge_answered i w false (some t) = logged (row_purged i) (record w { table = t })

    purge : Instance → World Data → World Data
    unfolding moment purge_answered
    purge i w =
        let v = moment w in
        purge_answered i v (env.db_fault w.clock) (purge_deleted_instance i.id v.table)

    record_answered : Instance → World Data → Result StorageError (Dict Data) → World Data
    unfolding purge
    record_answered i w (ok s) = purge i (logged (record_removed i true) (record w { disk = s }))
    record_answered i w (err not_found) = purge i (logged (record_removed i true) w)
    record_answered i w (err precondition) = logged (record_removed i false) w
    record_answered i w (err (io e)) = logged (record_removed i false) w

    remove_deleted_at : Instance → Option String → World Data → World Data
    unfolding moment record_answered
    remove_deleted_at i none w = w
    remove_deleted_at i (some key) w =
        if i.tenant == ""
        then w
        else (let v = moment w in
            record_answered i v (Mock.remove (env.storage_fault w.clock) v.disk key))

    -- The record of a deleted instance, and then its row.
    remove_deleted : Instance → World Data → World Data
    unfolding remove_deleted_at
    remove_deleted i w = remove_deleted_at i (env.record_key i.tenant i.id) w

    remove_all_deleted : Table → World Data → World Data
    unfolding remove_deleted
    remove_all_deleted [] w = w
    remove_all_deleted (i ∷ t) w = remove_all_deleted t (remove_deleted i w)

    -- `CleanupDeletedInstanceRecords`
    unfoldable pub cleanup_deleted_instance_records : ℕ → World Data → World Data
    unfolding moment remove_all_deleted
    cleanup_deleted_instance_records retention w =
        let v = moment w in
        let kept = if nat_eq retention 0 then default_deleted_record_retention else retention in
        if env.db_fault w.clock
        then v
        else remove_all_deleted (find_deleted_instances_past_retention (clock_now w) kept v.table) v

    -- `runCycle` of runner.go
    unfoldable pub run_cycle : Bool → ℕ → ℕ → ℕ → World Data → World Data
    unfolding run_garbage_collection check_instance_health cleanup_deleted_instance_records
    run_cycle is_leader max_age interval retention w =
        if is_leader
        then (let (succeeded, v) = run_garbage_collection max_age w in
            if succeeded
            then cleanup_deleted_instance_records retention (check_instance_health interval v)
            else v)
        else w
