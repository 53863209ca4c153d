-- ===== src/TenantState/Operations.antt =====
-- The operations of the manager: each enters the term and has its tenant to itself.
pub mod Safe
pub mod Results
pub mod Stopped
pub mod Quiet
use nstance.Base.{
  ℕ, zero, suc, ◌+◌, String, Bool, true, false, ◌&&◌, ◌||◌, not, Option, none, some, List, [], ◌∷◌,
  Result, ok, err, if◌then◌else◌, is_some, is_none, leb, nat_eq, ◌==◌,
}
use nstance.Base.Dict.{get}
use nstance.Base.Exec.{Exec, pure, raise, read, outcome, ◌>>=◌, ◌>>◌}
use nstance.Storage.{Digest}
use nstance.TenantState.{
  TenantEntry, TransitionProgress, StateDocument, entry_of, install_wake_path, wait_wake_path_ready,
  TenantError, inactive, cancelled, nil_transition, callback_failed, ran, WakeTimer, World, Codec,
  Env, logged,
}
use nstance.TenantState.Entries.{
  sleeps, wake_time, equal_time, sleep_now, begin_sleep, finish_sleep, finish_resumed, wake_now,
  begin_wake, no_change,
}
use nstance.TenantState.Document.{Action, moment, update, refresh, notify_changed, check_context}
use nstance.TenantState.Cutover.{Calls, call, transition, restore, continue_sleep}

-- `stop`
unfoldable pub stop : {Data : Type 0} → World Data → World Data
stop w = record w { active = false; timers = [] }

-- delete(m.timers, tenant)
without : String → List WakeTimer → List WakeTimer
without tenant [] = []
without tenant (t ∷ ts) =
    let rest = without tenant ts in if t.tenant == tenant then rest else t ∷ rest

-- The tenants whose cutover `resumeTransitions` continues.
unfoldable pub to_resume : StateDocument → List String
to_resume [] = []
to_resume ((tenant, e) ∷ d) =
    let rest = to_resume d in
    if is_some e.transition || is_some e.sleep then tenant ∷ rest else rest

module _ {Data : Type 0} ⦃md5 : Digest Data⦄ (env : Env Data) (codec : Codec Data) where
  -- `runForTenant`, once the tenant's lock is taken.
  with_lock : {A : Type 0} → Action Data A → Action Data A
  unfolding moment check_context update
  with_lock m = do
    i ← moment env
    check_context env
    update env codec no_change tt
    a ← m
    check_context env
    pure a

  -- `runForTenant`: only in a term, and on the document as it is now.
  unfoldable pub run_for_tenant : {A : Type 0} → Action Data A → Action Data A
  unfolding check_context with_lock
  run_for_tenant m = do
    check_context env
    λ w. if not w.active || env.term_over w.clock then (err inactive, w) else with_lock m w

  -- A function of the caller, which may fail.
  called_back : String → Option ℕ → Action Data (Unit {0})
  called_back tenant none w = (ok tt, logged (ran tenant) w)
  called_back tenant (some e) w = (err (callback_failed e), logged (ran tenant) w)

  unfoldable pub run_callback : String → Action Data (Unit {0})
  unfolding moment called_back
  run_callback tenant = do i ← moment env; called_back tenant (env.callback i)

  -- The rest of `Sleep` with a cutover, for a tenant that slept and for one that did not.
  sleep_on :
      Calls
      → String
      → Option ℕ
      → StateDocument × (Bool × Bool)
      → Action Data (StateDocument × (Bool × Bool))
  unfolding continue_sleep update
  sleep_on cutover tenant wake_at (d, (true, changed)) = pure (d, (true, changed))
  sleep_on cutover tenant wake_at (d, (false, changed)) = do
    continue_sleep env codec cutover tenant
    (d', _) ← update env codec (finish_sleep tenant wake_at) tt
    pure (d', (false, true))

  sleep_body : Option Calls → String → Option ℕ → Bool → Action Data (StateDocument × (Bool × Bool))
  unfolding update sleep_on
  sleep_body none tenant wake_at guarded =
      update env codec (sleep_now tenant wake_at) (false, false)
  sleep_body (some cutover) tenant wake_at guarded = do
    r ← update env codec (begin_sleep tenant wake_at guarded) (false, false)
    sleep_on cutover tenant wake_at r

  -- The caller's check, where there is one.
  run_check : Bool → String → Action Data (Unit {0})
  unfolding run_callback
  run_check true tenant = run_callback tenant
  run_check false tenant = pure tt

  -- `Sleep`: whether the tenant slept before, and the deadline that is stored now.
  unfoldable pub sleep : String → Option ℕ → Bool → Bool → Action Data (Bool × Option ℕ)
  unfolding run_for_tenant sleep_body run_check notify_changed
  sleep tenant wake_at guarded checked = do
    (d, (slept, changed)) ←
        run_for_tenant do run_check checked tenant; sleep_body env.cutover tenant wake_at guarded
    if changed then notify_changed env tenant else pure tt
    pure (slept, wake_time tenant d)

  -- What follows the first change of `wake`: whether the tenant was awake.
  woken : Option Calls → String → Bool → Action Data Bool
  unfolding restore notify_changed
  woken cutover tenant true = pure true
  woken none tenant false = do notify_changed env tenant; pure false
  woken (some cutover) tenant false = do
    notify_changed env tenant
    restore env codec cutover tenant
    pure false

  wake_change : Option Calls → String → Bool → StateDocument → Option StateDocument × Bool
  unfolding wake_now begin_wake
  wake_change none tenant = wake_now tenant
  wake_change (some cutover) tenant = begin_wake tenant

  -- `wake`
  unfoldable pub wake_locked : String → Action Data Bool
  unfolding update woken wake_change
  wake_locked tenant = do
    (d, awake) ← update env codec (wake_change env.cutover tenant) true
    woken env.cutover tenant awake

  -- `Wake`
  unfoldable pub wake : String → Action Data Bool
  unfolding run_for_tenant wake_locked
  wake tenant = run_for_tenant (wake_locked tenant)

  -- `WakeAndWait`
  unfoldable pub wake_and_wait : String → Action Data Bool
  unfolding run_for_tenant wake_locked run_callback
  wake_and_wait tenant =
      run_for_tenant do awake ← wake_locked tenant; run_callback tenant; pure awake

  -- `CreateOnDemand`
  unfoldable pub create_on_demand : String → Action Data (Unit {0})
  unfolding run_for_tenant wake_locked run_callback
  create_on_demand tenant = run_for_tenant do awake ← wake_locked tenant; run_callback tenant

  -- A tenant that falls asleep again in its transition.
  resumed : String → StateDocument × Bool → Action Data (Unit {0})
  unfolding notify_changed
  resumed tenant (d, true) = notify_changed env tenant
  resumed tenant (d, false) = raise nil_transition

  -- What an interrupted operation goes on with, by the facts of the manager's copy.
  unfoldable pub resume_by : Calls → String → Bool → Bool → Action Data (Unit {0})
  unfolding restore call continue_sleep update resumed
  resume_by cutover tenant true asleep = restore env codec cutover tenant
  resume_by cutover tenant false true = do
    call env cutover install_wake_path tenant
    call env cutover wait_wake_path_ready tenant
  resume_by cutover tenant false false = do
    continue_sleep env codec cutover tenant
    r ← update env codec (finish_resumed tenant) false
    resumed tenant r

  -- `resumeTenant`
  unfoldable pub resume_tenant : Calls → String → Action Data (Unit {0})
  unfolding run_for_tenant transition resume_by moment
  resume_tenant cutover tenant = run_for_tenant do
    p ← transition env tenant
    i ← moment env
    asleep ← read λ w. sleeps tenant w.state
    resume_by cutover tenant p.restoring asleep

  -- After an attempt: the loop returns, or it waits and tries again.
  attempted : Action Data Bool → Result TenantError (Unit {0}) → Action Data Bool
  attempted again (ok _) = pure true
  attempted again (err e) = again

  -- The loop of `resumeTransitions` for one tenant, over at most so many rounds: whether it resumed.
  unfoldable pub resume_rounds : ℕ → Calls → String → Action Data Bool
  unfolding resume_tenant attempted
  resume_rounds zero cutover tenant = pure false
  resume_rounds (suc rounds) cutover tenant = λ w.
      if not w.active || env.term_over w.clock
      then (ok false, w)
      else (outcome (resume_tenant cutover tenant)
            >>= attempted (resume_rounds rounds cutover tenant))
          w

  -- `Start`: the tenants to resume, where there is a cutover.
  unfoldable pub start : Action Data (List String)
  unfolding refresh to_resume stop
  start w =
      let (r, w') = refresh env codec (record (stop w) { active = true; term = suc w.term }) in
      elim r [
        | err e ↦ (err e, stop w')
        | ok _ ↦ (ok (if is_some env.cutover then to_resume w'.state else []), w')
      ]

  -- Is the deadline still the one that the timer was set for, and has it come?
  unfoldable pub is_due : ℕ → String → ℕ → StateDocument → Bool
  unfolding wake_time
  is_due now tenant expected d = elim (wake_time tenant d) [
    | none ↦ false
    | some at ↦ nat_eq at expected && leb at now
  ]

  -- Has the term of a timer ended? Each term has a context of its own, which `stop` cancels.
  is_over : WakeTimer → World Data → Bool
  is_over t w = not w.active || (not (nat_eq t.term w.term) || env.term_over w.clock)

  -- A wake that failed is tried again by another timer, while the term lasts.
  rearmed : WakeTimer → Result TenantError Bool → World Data → World Data
  unfolding is_over without
  rearmed t (ok _) w = w
  rearmed t (err e) w =
      if is_over t w
      then w
      else record w { timers = record t { delay = env.timer_retry } ∷ without t.tenant w.timers }

  -- `wakeIfDue`
  unfoldable pub wake_if_due : WakeTimer → World Data → World Data
  unfolding wake is_due rearmed is_over
  wake_if_due t w =
      if is_over t w
      then w
      else if is_due (env.now w.clock) t.tenant t.expected w.state
      then (let (r, w') = wake t.tenant w in rearmed t r w')
      else w

-- What may happen to the manager: a call of one of its methods, a round of the retries of an interrupted
-- transition, or the expiry of a timer.
pub data Request : Type 0 where
  start_term stop_term refresh_state : Request
  sleep_tenant : String → Option ℕ → Bool → Bool → Request
  wake_tenant wake_and_wait_tenant create_for_tenant : String → Request
  resume_for_tenant : ℕ → Calls → String → Request
  timer_expires : WakeTimer → Request

module _ {Data : Type 0} ⦃md5 : Digest Data⦄ (env : Env Data) (codec : Codec Data) where
  unfoldable pub perform : Request → World Data → World Data
  unfolding start stop refresh sleep wake wake_and_wait create_on_demand resume_rounds wake_if_due
  perform start_term w = (start env codec w).1
  perform stop_term w = stop w
  perform refresh_state w = (refresh env codec w).1
  perform (sleep_tenant tenant wake_at guarded checked) w =
      (sleep env codec tenant wake_at guarded checked w).1
  perform (wake_tenant tenant) w = (wake env codec tenant w).1
  perform (wake_and_wait_tenant tenant) w = (wake_and_wait env codec tenant w).1
  perform (create_for_tenant tenant) w = (create_on_demand env codec tenant w).1
  perform (resume_for_tenant rounds cutover tenant) w =
      (resume_rounds env codec rounds cutover tenant w).1
  perform (timer_expires t) w = wake_if_due env codec t w

  unfoldable pub perform_all : List Request → World Data → World Data
  unfolding perform
  perform_all [] w = w
  perform_all (r ∷ rs) w = perform_all rs (perform r w)
