-- ===== src/TenantState/Operations/Safe.antt =====
-- Every operation keeps the order of the cutover's calls.
pub mod Requests
use nstance.Base.{
  ℕ, zero, suc, String, ◌≡◌, refl, sym, subst, Bool, true, false, ◌||◌, not, Option, none, some,
  Result, ok, err, ◌∷◌, [], List, if◌then◌else◌, is_some, if_both, Bool-cases, inl, inr,
}
use nstance.Base.Exec.{Exec, pure, raise, read, outcome, ◌>>=◌, ◌>>◌}
use nstance.Base.Exec.Triple.{
  After, Triple, Triple-mono, Triple-pure, Triple-read, Triple-raise, Triple-bind, Triple-if,
  Triple-outcome,
}
use nstance.Storage.{Digest}
use nstance.TenantState.{
  StateDocument, TenantError, inactive, nil_transition, callback_failed, ran, WakeTimer, World,
  Codec, Env, logged, remove_wake_path, TransitionProgress,
}
use nstance.TenantState.Entries.{
  begin_sleep, finish_sleep, finish_resumed, begin_wake, no_change, wake_time,
}
use nstance.TenantState.Log.{
  LastCall, last_call, Done, MayFollow, Prepared, Orderly, OrderlyWorld, At, At-world, At-weaken,
  At-log, MayFollow,
}
use nstance.TenantState.Document.{Action, moment, update, notify_changed, check_context, refresh}
use nstance.TenantState.Document.Steps.{
  Steady, moment-Steady, notify_changed-Steady, update-Steady, Sound, check_context-Steady,
  load-Steady, install-Steady,
}
use nstance.TenantState.Document.Changes.{
  begin_sleep-Sound, begin_wake-Sound, finish_sleep-Sound, finish_resumed-Sound, no_change-Sound,
  wake_now-Sound,
}
use nstance.TenantState.Cutover.{Calls, call, transition, restore, continue_sleep}
use nstance.TenantState.Cutover.Order.{
  Anything, call-Order, transition-Order, restore-Order, continue_sleep-Order,
}
use nstance.TenantState.Operations.{
  stop, with_lock, run_for_tenant, called_back, run_callback, sleep_on, sleep_body, run_check,
  sleep, woken, wake_change, wake_locked, wake, wake_and_wait, create_on_demand, resumed, resume_by,
  resume_tenant, attempted, resume_rounds, start, is_due, rearmed, wake_if_due,
}

-- An action that keeps the order of the log.
abbrev pub KeepsOrder : {Data A : Type 0} → Action Data A → Type 0
KeepsOrder m = Triple OrderlyWorld m (λ _. OrderlyWorld) OrderlyWorld

module _ {Data : Type 0} where
  -- What keeps any last call of the tenant keeps the order.
  pub keeps :
      {A : Type 0} (tenant : String) (m : Action Data A) → Steady tenant Anything m → KeepsOrder m
  unfolding Steady At
  keeps tenant m t = Triple-mono (λ w o. (o, tt)) (λ a. At-world tenant Anything) (λ w r. r) t

  pub value : {A : Type 0} (a : A) → KeepsOrder {Data = Data} (pure a)
  value a = Triple-pure a λ w o. o

  pub forgetting :
      {A : Type 0} (tenant : String) (P : LastCall → Type 0) (m : Action Data A)
      → Triple OrderlyWorld m (λ _. At tenant P) OrderlyWorld
      → KeepsOrder m
  forgetting tenant P m t = Triple-mono (λ w o. o) (λ a. At-world tenant P) (λ w r. r) t

  branch :
      {A : Type 0} (b : Bool) (m n : Action Data A)
      → KeepsOrder m
      → KeepsOrder n
      → KeepsOrder (if b then m else n)
  branch b m n tm tn = Triple-if b (λ _. tm) (λ _. tn)

  module _ ⦃md5 : Digest Data⦄ (env : Env Data) (codec : Codec Data) where
    pub notify_changed-KeepsOrder : (tenant : String) → KeepsOrder (notify_changed env tenant)
    notify_changed-KeepsOrder tenant =
        keeps tenant _ (notify_changed-Steady tenant Anything env tenant)

    check_context-KeepsOrder : KeepsOrder (check_context env)
    check_context-KeepsOrder = keeps "" _ (check_context-Steady "" Anything env)

    pub moment-KeepsOrder : KeepsOrder (moment env)
    moment-KeepsOrder = keeps "" _ (moment-Steady "" Anything env)

    with_lock-KeepsOrder :
        {A : Type 0} (m : Action Data A) → KeepsOrder m → KeepsOrder (with_lock env codec m)
    unfolding with_lock
    with_lock-KeepsOrder m t = Triple-bind moment-KeepsOrder λ i.
        Triple-bind check_context-KeepsOrder λ _.
          Triple-bind
            (keeps "" _ (update-Steady "" Anything env codec no_change no_change-Sound tt))
            λ _. Triple-bind t λ a. Triple-bind check_context-KeepsOrder λ _. value a

    pub run_for_tenant-KeepsOrder :
        {A : Type 0} (m : Action Data A) → KeepsOrder m → KeepsOrder (run_for_tenant env codec m)
    unfolding run_for_tenant
    run_for_tenant-KeepsOrder m t = Triple-bind check_context-KeepsOrder λ _. record {
      at = λ w o.
          if_both (After (λ _. OrderlyWorld) OrderlyWorld) (not w.active || env.term_over w.clock) o
            ((with_lock-KeepsOrder m t).at w o);
    }

    called_back-KeepsOrder :
        (tenant : String) (o : Option ℕ) → KeepsOrder (called_back env codec tenant o)
    unfolding called_back OrderlyWorld Orderly
    called_back-KeepsOrder tenant none = record { at = λ w o. o }
    called_back-KeepsOrder tenant (some e) = record { at = λ w o. o }

    pub run_callback-KeepsOrder : (tenant : String) → KeepsOrder (run_callback env codec tenant)
    unfolding run_callback
    run_callback-KeepsOrder tenant =
        Triple-bind moment-KeepsOrder λ i. called_back-KeepsOrder tenant (env.callback i)

    changed-KeepsOrder :
        (b : Bool) (tenant : String) → KeepsOrder (if b then notify_changed env tenant else pure tt)
    changed-KeepsOrder b tenant = branch b _ _ (notify_changed-KeepsOrder tenant) (value tt)

    pub restore-KeepsOrder :
        (cutover : Calls) (tenant : String) → KeepsOrder (restore env codec cutover tenant)
    unfolding Done
    restore-KeepsOrder cutover tenant =
        forgetting tenant (Done remove_wake_path) _ (restore-Order tenant env codec cutover)

    sleep_on-KeepsOrder :
        (cutover : Calls) (tenant : String) (wake_at : Option ℕ) (d : StateDocument)
        (slept changed : Bool)
        → KeepsOrder (sleep_on env codec cutover tenant wake_at (d, (slept, changed)))
    unfolding sleep_on Steady
    sleep_on-KeepsOrder cutover tenant wake_at d true changed = value (d, (true, changed))
    sleep_on-KeepsOrder cutover tenant wake_at d false changed =
        Triple-bind (continue_sleep-Order tenant env codec cutover) λ _.
          Triple-bind
            (update-Steady tenant Prepared env codec (finish_sleep tenant wake_at)
              (finish_sleep-Sound (λ x p. p) wake_at) tt)
            λ (d', _). Triple-pure (d', (false, true)) (At-world tenant Prepared)

    sleep_body-KeepsOrder :
        (o : Option Calls) (tenant : String) (wake_at : Option ℕ) (guarded : Bool)
        → is_some o ≡ true
        → KeepsOrder (sleep_body env codec o tenant wake_at guarded)
    unfolding sleep_body
    sleep_body-KeepsOrder none tenant wake_at guarded h = cc h
    sleep_body-KeepsOrder (some cutover) tenant wake_at guarded h =
        Triple-bind
          (keeps tenant _ (
            update-Steady tenant Anything env codec (begin_sleep tenant wake_at guarded)
              (begin_sleep-Sound wake_at guarded) (false, false)))
          λ (d, (slept, changed)). sleep_on-KeepsOrder cutover tenant wake_at d slept changed

    run_check-KeepsOrder :
        (checked : Bool) (tenant : String) → KeepsOrder (run_check env codec checked tenant)
    unfolding run_check
    run_check-KeepsOrder true tenant = run_callback-KeepsOrder tenant
    run_check-KeepsOrder false tenant = value tt

    pub sleep-KeepsOrder :
        (tenant : String) (wake_at : Option ℕ) (guarded checked : Bool)
        → is_some env.cutover ≡ true
        → KeepsOrder (sleep env codec tenant wake_at guarded checked)
    unfolding sleep
    sleep-KeepsOrder tenant wake_at guarded checked h =
        Triple-bind
          (run_for_tenant-KeepsOrder _ (
            Triple-bind (run_check-KeepsOrder checked tenant)
              λ _. sleep_body-KeepsOrder env.cutover tenant wake_at guarded h))
          λ (d, (slept, changed)).
            Triple-bind (changed-KeepsOrder changed tenant) λ _. value (slept, wake_time tenant d)

    woken-KeepsOrder :
        (o : Option Calls) (tenant : String) (awake : Bool)
        → KeepsOrder (woken env codec o tenant awake)
    unfolding woken
    woken-KeepsOrder o tenant true = value true
    woken-KeepsOrder none tenant false =
        Triple-bind (notify_changed-KeepsOrder tenant) λ _. value false
    woken-KeepsOrder (some cutover) tenant false =
        Triple-bind (notify_changed-KeepsOrder tenant)
          λ _. Triple-bind (restore-KeepsOrder cutover tenant) λ _. value false

    wake_change-Sound :
        (o : Option Calls) (tenant : String)
        → Sound tenant Anything (wake_change env codec o tenant)
    unfolding wake_change
    wake_change-Sound none tenant = wake_now-Sound
    wake_change-Sound (some cutover) tenant = begin_wake-Sound

    pub wake_locked-KeepsOrder : (tenant : String) → KeepsOrder (wake_locked env codec tenant)
    unfolding wake_locked
    wake_locked-KeepsOrder tenant =
        Triple-bind
          (keeps tenant _ (
            update-Steady tenant Anything env codec (wake_change env codec env.cutover tenant)
              (wake_change-Sound env.cutover tenant) true))
          λ (d, awake). woken-KeepsOrder env.cutover tenant awake
