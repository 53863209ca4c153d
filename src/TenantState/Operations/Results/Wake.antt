-- ===== src/TenantState/Operations/Results/Wake.antt =====
-- What `Wake` and a resumed transition have achieved when they succeed.
use nstance.Base.{String, ◌≡◌, ap, ◌∙◌, Bool, true, false, Option, none, some}
use nstance.Base.Exec.Triple.{After, Triple, Triple-mono, Triple-pure, Triple-bind}
use nstance.Storage.{Digest}
use nstance.TenantState.{
  restore_targets, wait_targets_ready, remove_wake_path, StateDocument, World, Codec, Env,
}
use nstance.TenantState.Entries.{sleeps, forget, begin_restore}
use nstance.TenantState.Document.{update}
use nstance.TenantState.Document.Results.{Always, Always-after}
use nstance.TenantState.Cutover.{Calls, call, restore}
use nstance.TenantState.Operations.{woken, wake_change, wake_locked, wake}
use nstance.TenantState.Operations.Results.{
  left_by, update-leaves, run_for_tenant-Achieves, notify_changed-Keeps, wake_now-result,
  begin_wake-result, forget-result,
}

module _ {Data : Type 0} ⦃md5 : Digest Data⦄ (tenant : String) (env : Env Data)
    (codec : Codec Data) where
  -- The tenant does not sleep.
  Awake : StateDocument → Type 0
  Awake d = sleeps tenant d ≡ false

  restore-Awake :
      (cutover : Calls)
      → Triple Always (restore env codec cutover tenant) (λ _ w. Awake w.state) Always
  unfolding restore Awake
  restore-Awake cutover =
      Triple-bind (Always-after (update env codec (begin_restore tenant) tt)) λ _.
        Triple-bind (Always-after (call env cutover restore_targets tenant)) λ _.
          Triple-bind (Always-after (call env cutover wait_targets_ready tenant)) λ _.
            Triple-bind (Always-after (call env cutover remove_wake_path tenant)) λ _.
              Triple-bind
                (update-leaves tenant env codec (forget tenant) (λ d b. Awake d)
                  (forget-result tenant) tt)
                λ (d, b).
                  Triple-mono (λ w (e, h). ap (sleeps tenant) e ∙ h) (λ a w p. p) (λ w p. p)
                    (notify_changed-Keeps tenant env codec Awake tenant)

  woken-Awake :
      (o : Option Calls) (d : StateDocument) (awake : Bool)
      → Triple (λ w. Awake w.state) (woken env codec o tenant awake) (λ _ w. Awake w.state) Always
  unfolding woken
  woken-Awake o d true = Triple-pure true λ w p. p
  woken-Awake none d false =
      Triple-bind (notify_changed-Keeps tenant env codec Awake tenant)
        λ _. Triple-pure false λ w p. p
  woken-Awake (some cutover) d false =
      Triple-bind (notify_changed-Keeps tenant env codec Awake tenant) λ _.
        Triple-bind (Triple-mono (λ w p. tt) (λ a w p. p) (λ w p. p) (restore-Awake cutover))
          λ _. Triple-pure false λ w p. p

  wake_change-result :
      (o : Option Calls) (b : Bool) (d : StateDocument)
      → Awake (left_by tenant (wake_change env codec o tenant b d) d)
  unfolding wake_change Awake
  wake_change-result none = wake_now-result tenant
  wake_change-result (some cutover) = begin_wake-result tenant

  wake_locked-Awake : Triple Always (wake_locked env codec tenant) (λ _ w. Awake w.state) Always
  unfolding wake_locked Awake
  wake_locked-Awake =
      Triple-bind
        (update-leaves tenant env codec (wake_change env codec env.cutover tenant) (λ d b. Awake d)
          (wake_change-result env.cutover) true)
        λ (d, awake).
          Triple-mono (λ w (e, h). ap (sleeps tenant) e ∙ h) (λ a w p. p) (λ w p. p)
            (woken-Awake env.cutover d awake)

  -- `Wake`, where it succeeds, leaves the tenant awake in the manager's copy of the document: whatever the
  -- storage, other writers, the cutover, the clock and the contexts answered meanwhile, whether there is a
  -- cutover or not, and whether the tenant slept or not.
  pub wake-wakes_up :
      (w : World Data)
      → After (λ _ v. sleeps tenant v.state ≡ false) Always (wake env codec tenant w)
  unfolding wake Awake
  wake-wakes_up w =
      (run_for_tenant-Achieves tenant env codec (wake_locked env codec tenant)
          (λ _ v. Awake v.state) wake_locked-Awake).at
        w tt
