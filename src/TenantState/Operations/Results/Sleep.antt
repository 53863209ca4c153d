-- ===== src/TenantState/Operations/Results/Sleep.antt =====
-- What `Sleep` has achieved when it succeeds.
use nstance.Base.{ℕ, String, ◌≡◌, refl, ap, ◌∙◌, Bool, true, false, Option, none, some}
use nstance.Base.Exec.Triple.{After, Triple, Triple-mono, Triple-pure, Triple-bind, Triple-if}
use nstance.Storage.{Digest}
use nstance.TenantState.{StateDocument, World, Codec, Env}
use nstance.TenantState.Entries.{sleeps, wake_time, sleep_now, begin_sleep, finish_sleep}
use nstance.TenantState.Document.{update}
use nstance.TenantState.Document.Results.{Always, Always-after}
use nstance.TenantState.Cutover.{Calls, continue_sleep}
use nstance.TenantState.Operations.{sleep_on, sleep_body, run_check, sleep}
use nstance.TenantState.Operations.Results.{
  AsleepUntil, update-leaves, run_for_tenant-Achieves, notify_changed-Keeps, sleep_now-result,
  begin_sleep-result, finish_sleep-result,
}

module _ {Data : Type 0} ⦃md5 : Digest Data⦄ (tenant : String) (env : Env Data)
    (codec : Codec Data) where
  -- What `Sleep` leaves, with its document.
  FellAsleep : Option ℕ → {B : Type 0} → StateDocument × B → World Data → Type 0
  FellAsleep wake_at (d, b) w = (w.state ≡ d) × AsleepUntil tenant wake_at d

  finish_sleep-Asleep :
      (wake_at : Option ℕ)
      → Triple Always
          (update env codec (finish_sleep tenant wake_at) tt)
          (FellAsleep wake_at)
          Always
  unfolding FellAsleep
  finish_sleep-Asleep wake_at =
      update-leaves tenant env codec (finish_sleep tenant wake_at)
        (λ d _. AsleepUntil tenant wake_at d) (finish_sleep-result tenant wake_at) tt

  sleep_on-Asleep :
      (cutover : Calls) (wake_at : Option ℕ) (d : StateDocument) (slept changed : Bool)
      → Triple
          (λ w. (w.state ≡ d) × (slept ≡ true → AsleepUntil tenant wake_at d))
          (sleep_on env codec cutover tenant wake_at (d, (slept, changed)))
          (FellAsleep wake_at)
          Always
  unfolding sleep_on FellAsleep
  sleep_on-Asleep cutover wake_at d true changed =
      Triple-pure (d, (true, changed)) λ w (e, h). (e, h refl)
  sleep_on-Asleep cutover wake_at d false changed =
      Triple-bind
        (Triple-mono (λ w p. tt) (λ a w p. p) (λ w p. p)
          (Always-after (continue_sleep env codec cutover tenant)))
        λ _.
          Triple-bind (finish_sleep-Asleep wake_at)
            λ (d', _). Triple-pure (d', (false, true)) λ w p. p

  sleep_body-Asleep :
      (o : Option Calls) (wake_at : Option ℕ) (guarded : Bool)
      → Triple Always (sleep_body env codec o tenant wake_at guarded) (FellAsleep wake_at) Always
  unfolding sleep_body FellAsleep
  sleep_body-Asleep none wake_at guarded =
      update-leaves tenant env codec (sleep_now tenant wake_at)
        (λ d _. AsleepUntil tenant wake_at d) (sleep_now-result tenant wake_at) (false, false)
  sleep_body-Asleep (some cutover) wake_at guarded =
      Triple-bind
        (update-leaves tenant env codec (begin_sleep tenant wake_at guarded)
          (λ d b. b.0 ≡ true → AsleepUntil tenant wake_at d)
          (begin_sleep-result tenant wake_at guarded) (false, false))
        λ (d, (slept, changed)). sleep_on-Asleep cutover wake_at d slept changed

  sleep-Asleep :
      (wake_at : Option ℕ) (guarded checked : Bool)
      → Triple Always
          (sleep env codec tenant wake_at guarded checked)
          (λ (slept, at) w.
            (sleeps tenant w.state ≡ true) × (wake_time tenant w.state ≡ wake_at) × (at ≡ wake_at))
          Always
  unfolding sleep FellAsleep AsleepUntil
  sleep-Asleep wake_at guarded checked =
      Triple-bind
        (run_for_tenant-Achieves tenant env codec _ (FellAsleep wake_at) (
          Triple-bind (Always-after (run_check env codec checked tenant))
            λ _. sleep_body-Asleep env.cutover wake_at guarded))
        λ (d, (slept, changed)).
          Triple-bind
            (Triple-if changed
              (λ _.
                notify_changed-Keeps tenant env codec
                  (λ state. (state ≡ d) × AsleepUntil tenant wake_at d) tenant)
              (λ _. Triple-pure tt λ w p. p))
            λ _.
              Triple-pure (slept, wake_time tenant d)
                λ w (e, (asleep, at)).
                  (ap (sleeps tenant) e ∙ asleep, ap (wake_time tenant) e ∙ at, at)

  -- `Sleep`, where it succeeds, leaves the tenant asleep in the manager's copy of the document with the
  -- deadline that was asked for, and answers with that deadline: whatever the storage, other writers, the
  -- cutover, the clock and the contexts answered meanwhile, and whether there is a cutover or not.
  pub sleep-falls_asleep :
      (wake_at : Option ℕ) (guarded checked : Bool) (w : World Data)
      → After
          (λ (slept, at) v.
            (sleeps tenant v.state ≡ true) × (wake_time tenant v.state ≡ wake_at) × (at ≡ wake_at))
          Always
          (sleep env codec tenant wake_at guarded checked w)
  sleep-falls_asleep wake_at guarded checked w = (sleep-Asleep wake_at guarded checked).at w tt
