-- ===== src/TenantState/Operations/Safe/Requests.antt =====
-- Every request keeps the order of the cutover's calls, and so does every sequence of requests.
use nstance.Base.{
  ℕ, zero, suc, String, ◌≡◌, Bool, true, false, ◌||◌, not, Result, ok, err, [], ◌∷◌, List,
  if◌then◌else◌, is_some, if_both,
}
use nstance.Base.Exec.Triple.{
  After, Triple-mono, Triple-read, Triple-raise, Triple-bind, Triple-outcome,
}
use nstance.Storage.{Digest}
use nstance.TenantState.{
  StateDocument, TenantError, nil_transition, WakeTimer, World, Codec, Env, install_wake_path,
  wait_wake_path_ready,
}
use nstance.TenantState.Entries.{finish_resumed, sleeps}
use nstance.TenantState.Log.{Done, MayFollow, Prepared, OrderlyWorld, At, At-world}
use nstance.TenantState.Document.{Action, refresh}
use nstance.TenantState.Document.Steps.{Steady, update-Steady, load-Steady, install-Steady}
use nstance.TenantState.Document.Changes.{finish_resumed-Sound}
use nstance.TenantState.Cutover.{Calls}
use nstance.TenantState.Cutover.Order.{Anything, call-Order, transition-Order, continue_sleep-Order}
use nstance.TenantState.Operations.{
  stop, to_resume, wake, wake_and_wait, create_on_demand, resumed, resume_by, resume_tenant,
  attempted, resume_rounds, start, is_due, is_over, rearmed, wake_if_due, Request, start_term,
  stop_term, refresh_state, sleep_tenant, wake_tenant, wake_and_wait_tenant, create_for_tenant,
  resume_for_tenant, timer_expires, perform, perform_all,
}
use nstance.TenantState.Operations.Safe.{
  KeepsOrder, keeps, value, forgetting, run_for_tenant-KeepsOrder, restore-KeepsOrder,
  sleep-KeepsOrder, wake_locked-KeepsOrder, run_callback-KeepsOrder, notify_changed-KeepsOrder,
  moment-KeepsOrder,
}

module _ {Data : Type 0} where
  -- The world after an action that keeps the order.
  after :
      {A : Type 0} {m : Action Data A}
      → KeepsOrder m
      → (w : World Data) → OrderlyWorld w
      → OrderlyWorld (m w).1
  after {A} {m} t w o = world (m w) (t.at w o)
    where
      world :
          (r : Result TenantError A × World Data)
          → After (λ _. OrderlyWorld) OrderlyWorld r
          → OrderlyWorld r.1
      world (ok a, w) o = o
      world (err e, w) o = o

  module _ ⦃md5 : Digest Data⦄ (env : Env Data) (codec : Codec Data) where
    wake-KeepsOrder : (tenant : String) → KeepsOrder (wake env codec tenant)
    unfolding wake
    wake-KeepsOrder tenant =
        run_for_tenant-KeepsOrder env codec _ (wake_locked-KeepsOrder env codec tenant)

    wake_and_wait-KeepsOrder : (tenant : String) → KeepsOrder (wake_and_wait env codec tenant)
    unfolding wake_and_wait
    wake_and_wait-KeepsOrder tenant = run_for_tenant-KeepsOrder env codec _ (
        Triple-bind (wake_locked-KeepsOrder env codec tenant)
          λ awake. Triple-bind (run_callback-KeepsOrder env codec tenant) λ _. value awake)

    create_on_demand-KeepsOrder : (tenant : String) → KeepsOrder (create_on_demand env codec tenant)
    unfolding create_on_demand
    create_on_demand-KeepsOrder tenant = run_for_tenant-KeepsOrder env codec _ (
        Triple-bind (wake_locked-KeepsOrder env codec tenant)
          λ awake. run_callback-KeepsOrder env codec tenant)

    resumed-KeepsOrder :
        (tenant : String) (r : StateDocument × Bool) → KeepsOrder (resumed env codec tenant r)
    unfolding resumed
    resumed-KeepsOrder tenant (d, true) = notify_changed-KeepsOrder env codec tenant
    resumed-KeepsOrder tenant (d, false) = Triple-raise nil_transition λ w o. o

    resume_by-KeepsOrder :
        (cutover : Calls) (tenant : String) (restoring asleep : Bool)
        → KeepsOrder (resume_by env codec cutover tenant restoring asleep)
    unfolding resume_by Steady MayFollow At
    resume_by-KeepsOrder cutover tenant true asleep = restore-KeepsOrder env codec cutover tenant
    resume_by-KeepsOrder cutover tenant false true =
        forgetting tenant (Done wait_wake_path_ready) _ (
          Triple-mono (λ w o. (o, tt)) (λ a w p. p) (λ w r. r)
            (Triple-bind (call-Order tenant env Anything cutover install_wake_path λ x p. tt) λ _.
              call-Order tenant env (Done install_wake_path) cutover wait_wake_path_ready λ x p. p))
    resume_by-KeepsOrder cutover tenant false false =
        Triple-bind (continue_sleep-Order tenant env codec cutover) λ _.
          Triple-bind
            (update-Steady tenant Prepared env codec (finish_resumed tenant)
              (finish_resumed-Sound λ x p. p) false)
            λ r.
              Triple-mono (At-world tenant Prepared) (λ a w o. o) (λ w o. o)
                (resumed-KeepsOrder tenant r)

    resume_tenant-KeepsOrder :
        (cutover : Calls) (tenant : String) → KeepsOrder (resume_tenant env codec cutover tenant)
    unfolding resume_tenant
    resume_tenant-KeepsOrder cutover tenant = run_for_tenant-KeepsOrder env codec _ (
        Triple-bind (keeps tenant _ (transition-Order tenant env Anything)) λ p.
          Triple-bind (moment-KeepsOrder env codec) λ i.
            Triple-bind (Triple-read (λ w. sleeps tenant w.state) λ w o. o)
              λ asleep. resume_by-KeepsOrder cutover tenant p.restoring asleep)

    attempted-KeepsOrder :
        (again : Action Data Bool) (r : Result TenantError (Unit {0}))
        → KeepsOrder again
        → KeepsOrder (attempted env codec again r)
    unfolding attempted
    attempted-KeepsOrder again (ok _) t = value true
    attempted-KeepsOrder again (err e) t = t

    resume_rounds-KeepsOrder :
        (rounds : ℕ) (cutover : Calls) (tenant : String)
        → KeepsOrder (resume_rounds env codec rounds cutover tenant)
    unfolding resume_rounds
    resume_rounds-KeepsOrder zero cutover tenant = value false
    resume_rounds-KeepsOrder (suc rounds) cutover tenant =
        let t =
          Triple-bind
            (Triple-mono (λ w o. o) tried (λ w o. o)
              (Triple-outcome (resume_tenant-KeepsOrder cutover tenant)))
            λ r. attempted-KeepsOrder _ r (resume_rounds-KeepsOrder rounds cutover tenant) in
        record {
          at = λ w o.
              if_both (After (λ _. OrderlyWorld) OrderlyWorld)
                (not w.active || env.term_over w.clock) o (t.at w o);
        }
      where
        tried :
            (r : Result TenantError (Unit {0})) (w : World Data)
            → After (λ _. OrderlyWorld) OrderlyWorld (r, w)
            → OrderlyWorld w
        tried (ok _) w o = o
        tried (err e) w o = o

    refresh-KeepsOrder : KeepsOrder (refresh env codec)
    unfolding refresh Steady
    refresh-KeepsOrder = keeps "" _ (
        Triple-bind (load-Steady "" Anything env codec)
          λ (d, etag). install-Steady "" Anything env d)

    start-orderly : (w : World Data) → OrderlyWorld w → OrderlyWorld (start env codec w).1
    unfolding start stop OrderlyWorld
    start-orderly w o =
        started (refresh env codec (record (stop w) { active = true; term = suc w.term }))
          (after refresh-KeepsOrder (record (stop w) { active = true; term = suc w.term }) o)
      where
        started :
            (r : Result TenantError (Unit {0}) × World Data)
            → OrderlyWorld r.1
            → OrderlyWorld
                (elim r.0 as (λ _. Result TenantError (List String) × World Data) [
                  | err e ↦ (err e, stop r.1)
                  | ok _ ↦ (ok (if is_some env.cutover then to_resume r.1.state else []), r.1)
                ]).1
        started (ok _, w') o = o
        started (err e, w') o = o

    rearmed-orderly :
        (t : WakeTimer) (r : Result TenantError Bool) (w : World Data)
        → OrderlyWorld w
        → OrderlyWorld (rearmed env codec t r w)
    unfolding rearmed OrderlyWorld
    rearmed-orderly t (ok _) w o = o
    rearmed-orderly t (err e) w o = if_both OrderlyWorld (is_over env codec t w) o o

    wake_if_due-orderly :
        (t : WakeTimer) (w : World Data) → OrderlyWorld w → OrderlyWorld (wake_if_due env codec t w)
    unfolding wake_if_due
    wake_if_due-orderly t w o = if_both OrderlyWorld (is_over env codec t w) o (
        if_both OrderlyWorld (is_due env codec (env.now w.clock) t.tenant t.expected w.state)
          (rearmed-orderly t (wake env codec t.tenant w).0 (wake env codec t.tenant w).1
            (after (wake-KeepsOrder t.tenant) w o))
          o)

    module _ (has_cutover : is_some env.cutover ≡ true) where
      perform-orderly :
          (r : Request) (w : World Data) → OrderlyWorld w → OrderlyWorld (perform env codec r w)
      unfolding perform stop OrderlyWorld
      perform-orderly start_term w o = start-orderly w o
      perform-orderly stop_term w o = o
      perform-orderly refresh_state w o = after refresh-KeepsOrder w o
      perform-orderly (sleep_tenant tenant wake_at guarded checked) w o =
          after (sleep-KeepsOrder env codec tenant wake_at guarded checked has_cutover) w o
      perform-orderly (wake_tenant tenant) w o = after (wake-KeepsOrder tenant) w o
      perform-orderly (wake_and_wait_tenant tenant) w o =
          after (wake_and_wait-KeepsOrder tenant) w o
      perform-orderly (create_for_tenant tenant) w o =
          after (create_on_demand-KeepsOrder tenant) w o
      perform-orderly (resume_for_tenant rounds cutover tenant) w o =
          after (resume_rounds-KeepsOrder rounds cutover tenant) w o
      perform-orderly (timer_expires t) w o = wake_if_due-orderly t w o

      -- Where the manager has a cutover: if the log of what was done is in order, it is in order after any
      -- sequence of requests, whatever the storage, other writers, the cutover, the clock and the contexts
      -- answer. In an orderly log every call of the cutover follows one that allows it for the same tenant:
      -- targets are withdrawn only once the wake path is ready, and the wake path is removed only once the
      -- restored targets are ready. And every write of the document changes one tenant's entry only, and
      -- puts that tenant to sleep only where the last call made for it is a successful one that readied the
      -- wake path, or that began or finished the withdrawal.
      pub perform_all-orderly :
          (rs : List Request) (w : World Data)
          → OrderlyWorld w
          → OrderlyWorld (perform_all env codec rs w)
      unfolding perform_all
      perform_all-orderly [] w o = o
      perform_all-orderly (r ∷ rs) w o =
          perform_all-orderly rs (perform env codec r w) (perform-orderly r w o)
