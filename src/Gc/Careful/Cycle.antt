-- ===== src/Gc/Careful/Cycle.antt =====
-- A cycle of the garbage collection keeps the log careful.
use nstance.Base.{
  ℕ, String, refl, Bool, true, false, ◌==◌, ◌&&◌, Option, none, some, [], ◌∷◌, Result, ok, err,
  if◌then◌else◌, if_cases, is_some, nat_eq, All, All-mono,
}
use nstance.Base.Dict.{Dict}
use nstance.Storage.{StorageError, not_found, precondition, io}
use nstance.Storage.Mock
use nstance.LocalDb.{Instance, Table}
use nstance.LocalDb.Rows.{select}
use nstance.LocalDb.Collected.{
  is_unhealthy_row, is_dangling, is_stale_pre_insert, find_unhealthy_provider_instances,
  find_dangling_instances, find_stale_pre_inserts, query_stale_health_instances,
  find_deleted_instances_past_retention, purge_deleted_instance,
}
use nstance.Gc.{
  record_removed, World, Env, logged, moment, collect_found, collect_dangling, collect_stale,
  and_next, run_garbage_collection, request_checks, check_instance_health, purge_answered, purge,
  record_answered, remove_deleted_at, remove_deleted, remove_all_deleted,
  cleanup_deleted_instance_records, run_cycle, default_deleted_record_retention, clock_now,
}
use nstance.Gc.Careful.{
  Condemned, unhealthy-Condemned, dangling-Condemned, stale-Condemned, Careful, RecordGone,
  select-All, order_by-All, terminate_and_cleanup-Careful,
}

module _ {Data : Type 0} (env : Env Data) (max_age : ℕ) where
  collect_found-Careful :
      (query : Table → Table) (w : World Data)
      → ((t : Table) → All (Condemned env max_age) (query t))
      → Careful env max_age w.log
      → Careful env max_age (collect_found env query w).1.log
  unfolding collect_found moment
  collect_found-Careful query w cs p =
      if_cases (λ (x : Bool × World Data). Careful env max_age x.1.log) (env.db_fault w.clock) _ _
        (λ _. p)
        (λ _.
          terminate_and_cleanup-Careful env max_age (query (moment env w).table) (moment env w)
            (cs (moment env w).table) p)

  and_next-Careful :
      (m : World Data → Bool × World Data) (x : Bool × World Data)
      → ((v : World Data) → Careful env max_age v.log → Careful env max_age (m v).1.log)
      → Careful env max_age x.1.log
      → Careful env max_age (and_next env m x).1.log
  unfolding and_next
  and_next-Careful m (true, w) h p = h w p
  and_next-Careful m (false, w) h p = p

  collect_dangling-Careful :
      (w : World Data)
      → Careful env max_age w.log
      → Careful env max_age (collect_dangling env max_age w).1.log
  unfolding collect_dangling find_dangling_instances Condemned
  collect_dangling-Careful w p =
      collect_found-Careful (find_dangling_instances (clock_now env w) max_age) w
        (λ t.
          order_by-All (Condemned env max_age) (λ i. i.issued_at)
            (select (is_dangling (env.now w.clock) max_age) t)
            (All-mono _ _ (select (is_dangling (env.now w.clock) max_age) t)
              (dangling-Condemned env max_age w.clock)
              (select-All (is_dangling (env.now w.clock) max_age) t)))
        p

  collect_stale-Careful :
      (w : World Data)
      → Careful env max_age w.log
      → Careful env max_age (collect_stale env max_age w).1.log
  unfolding collect_stale find_stale_pre_inserts Condemned
  collect_stale-Careful w p =
      collect_found-Careful (find_stale_pre_inserts (clock_now env w) max_age) w
        (λ t.
          All-mono _ _ (select (is_stale_pre_insert (env.now w.clock) max_age) t)
            (stale-Condemned env max_age w.clock)
            (select-All (is_stale_pre_insert (env.now w.clock) max_age) t))
        p

  collect_unhealthy-Careful :
      (w : World Data)
      → Careful env max_age w.log
      → Careful env max_age (collect_found env find_unhealthy_provider_instances w).1.log
  unfolding find_unhealthy_provider_instances Condemned
  collect_unhealthy-Careful w p =
      collect_found-Careful find_unhealthy_provider_instances w
        (λ t.
          All-mono _ _ (select is_unhealthy_row t) (unhealthy-Condemned env max_age)
            (select-All is_unhealthy_row t))
        p

  run_garbage_collection-Careful :
      (w : World Data)
      → Careful env max_age w.log
      → Careful env max_age (run_garbage_collection env max_age w).1.log
  unfolding run_garbage_collection
  run_garbage_collection-Careful w p =
      let first = collect_found env find_unhealthy_provider_instances w in
      and_next-Careful (collect_stale env max_age)
        (and_next env (collect_dangling env max_age) first) collect_stale-Careful
        (and_next-Careful (collect_dangling env max_age) first collect_dangling-Careful
          (collect_unhealthy-Careful w p))

  request_checks-Careful :
      (t : Table) (w : World Data)
      → Careful env max_age w.log
      → Careful env max_age (request_checks env t w).log
  unfolding request_checks Careful
  request_checks-Careful [] w p = p
  request_checks-Careful (i ∷ t) w p = request_checks-Careful t _ (
      if_cases (λ (x : World Data). Careful env max_age x.log)
        (is_some i.health_at && env.has_reconciler) _ _ (λ _. p) (λ _. p))

  check_instance_health-Careful :
      (interval : ℕ) (w : World Data)
      → Careful env max_age w.log
      → Careful env max_age (check_instance_health env interval w).log
  unfolding check_instance_health moment
  check_instance_health-Careful interval w p =
      if_cases (λ (x : World Data). Careful env max_age x.log) (env.db_fault w.clock) _ _ (λ _. p)
        (λ _.
          request_checks-Careful
            (query_stale_health_instances (clock_now env w) interval (moment env w).table)
            (moment env w) p)

  purge-Careful :
      (i : Instance) (w : World Data)
      → RecordGone i w.log
      → Careful env max_age w.log
      → Careful env max_age (purge env i w).log
  unfolding purge purge_answered moment Careful
  purge-Careful i w g p =
      of_answer (env.db_fault w.clock) (purge_deleted_instance i.id (moment env w).table)
    where
      of_answer :
          (b : Bool) (o : Option Table)
          → Careful env max_age (purge_answered env i (moment env w) b o).log
      of_answer true o = p
      of_answer false none = p
      of_answer false (some t) = (g, p)

  record_answered-Careful :
      (i : Instance) (w : World Data) (r : Result StorageError (Dict Data))
      → Careful env max_age w.log
      → Careful env max_age (record_answered env i w r).log
  unfolding record_answered Careful RecordGone
  record_answered-Careful i w (ok s) p =
      purge-Careful i (logged (record_removed i true) (record w { disk = s })) (refl, refl) p
  record_answered-Careful i w (err not_found) p =
      purge-Careful i (logged (record_removed i true) w) (refl, refl) p
  record_answered-Careful i w (err precondition) p = p
  record_answered-Careful i w (err (io e)) p = p

  remove_deleted_at-Careful :
      (i : Instance) (o : Option String) (w : World Data)
      → Careful env max_age w.log
      → Careful env max_age (remove_deleted_at env i o w).log
  unfolding remove_deleted_at moment
  remove_deleted_at-Careful i none w p = p
  remove_deleted_at-Careful i (some key) w p =
      if_cases (λ (x : World Data). Careful env max_age x.log) (i.tenant == "") _ _ (λ _. p)
        (λ _.
          record_answered-Careful i (moment env w)
            (Mock.remove (env.storage_fault w.clock) (moment env w).disk key) p)

  remove_all_deleted-Careful :
      (t : Table) (w : World Data)
      → Careful env max_age w.log
      → Careful env max_age (remove_all_deleted env t w).log
  unfolding remove_all_deleted remove_deleted
  remove_all_deleted-Careful [] w p = p
  remove_all_deleted-Careful (i ∷ t) w p =
      remove_all_deleted-Careful t (remove_deleted env i w)
        (remove_deleted_at-Careful i (env.record_key i.tenant i.id) w p)

  cleanup-Careful :
      (retention : ℕ) (w : World Data)
      → Careful env max_age w.log
      → Careful env max_age (cleanup_deleted_instance_records env retention w).log
  unfolding cleanup_deleted_instance_records moment
  cleanup-Careful retention w p =
      if_cases (λ (x : World Data). Careful env max_age x.log) (env.db_fault w.clock) _ _ (λ _. p)
        (λ _.
          remove_all_deleted-Careful
            (find_deleted_instances_past_retention (clock_now env w)
              (if nat_eq retention 0 then default_deleted_record_retention else retention)
              (moment env w).table)
            (moment env w) p)

  -- A cycle of the garbage collection, of a leader or not, keeps the log careful, whatever faults the
  -- database and the storage report, whatever the provider answers and whatever others do to the table and
  -- the storage meanwhile. In a careful log an instance was deleted at the provider only where its row, as the
  -- query of the collection read it, was live and had a reason: the provider had reported a status that is not
  -- pending, running or unknown, or the instance was issued longer ago than the age and had not registered
  -- or had no provider ID. A row was deleted only where the row that was read has such a reason, and either the
  -- deletion at the provider succeeded just before or the row that was read had no provider ID, whatever it
  -- has got since. A deleted row was removed only right after its record was removed from the storage.
  pub run_cycle-Careful :
      (is_leader : Bool) (interval retention : ℕ) (w : World Data)
      → Careful env max_age w.log
      → Careful env max_age (run_cycle env is_leader max_age interval retention w).log
  unfolding run_cycle
  run_cycle-Careful false interval retention w p = p
  run_cycle-Careful true interval retention w p =
      of_run (run_garbage_collection env max_age w) (run_garbage_collection-Careful w p)
    where
      of_run :
          (x : Bool × World Data)
          → Careful env max_age x.1.log
          → Careful env max_age
              (if x.0
                then cleanup_deleted_instance_records env retention
                    (check_instance_health env interval x.1)
                else x.1).log
      of_run (true, v) q =
          cleanup-Careful retention (check_instance_health env interval v)
            (check_instance_health-Careful interval v q)
      of_run (false, v) q = q
