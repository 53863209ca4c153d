-- ===== src/TenantState/Operations/Quiet.antt =====
-- In a quiet term `Wake` succeeds.
use nstance.Base.{
  ℕ, String, ◌≡◌, refl, Bool, true, false, ◌||◌, not, Option, none, some, Result, ok, err, if_cases,
  arith,
}
use nstance.Base.Exec.{pure}
use nstance.Base.Exec.Triple.{After, Triple-pure, Triple-bind}
use nstance.Storage.{Digest}
use nstance.TenantState.{
  CutoverCall, TenantError, World, Codec, Env, restore_targets, wait_targets_ready,
  remove_wake_path,
}
use nstance.TenantState.Entries.{sleeps, begin_restore, forget, no_change}
use nstance.TenantState.Document.{Action}
use nstance.TenantState.Document.Results.{Always}
use nstance.TenantState.Document.Quiet.{
  Quiet, Never, Ready, Succeeds, moment-Succeeds, notify_changed-Succeeds, check_context-Succeeds,
  update-Succeeds,
}
use nstance.TenantState.Cutover.{Calls, answered, call, restore}
use nstance.TenantState.Operations.{
  with_lock, run_for_tenant, woken, wake_change, wake_locked, wake,
}
use nstance.TenantState.Operations.Results.Wake.{wake-wakes_up}

-- Every call of the cutover succeeds.
unfoldable pub CallsSucceed : Calls → Type 0
CallsSucceed cutover = (c : CutoverCall) (tenant : String) (i : ℕ) → cutover c tenant i ≡ none

module _ {Data : Type 0} ⦃md5 : Digest Data⦄ (codec : Codec Data) (env : Env Data)
    (q : Quiet env codec) where
  value : {A : Type 0} (a : A) → Succeeds codec (pure a)
  value a = Triple-pure a λ w p. p

  answered-Succeeds :
      (c : CutoverCall) (tenant : String) (o : Option ℕ)
      → o ≡ none
      → Succeeds codec (answered c tenant o)
  unfolding answered Ready
  answered-Succeeds c tenant none h = record { at = λ w p. p }
  answered-Succeeds c tenant (some e) h = cc h

  call-Succeeds :
      (cutover : Calls)
      → CallsSucceed cutover
      → (c : CutoverCall) (tenant : String) → Succeeds codec (call env cutover c tenant)
  unfolding call CallsSucceed
  call-Succeeds cutover good c tenant =
      Triple-bind (moment-Succeeds codec env q)
        λ i. answered-Succeeds c tenant (cutover c tenant i) (good c tenant i)

  restore-Succeeds :
      (cutover : Calls)
      → CallsSucceed cutover
      → (tenant : String) → Succeeds codec (restore env codec cutover tenant)
  unfolding restore
  restore-Succeeds cutover good tenant =
      Triple-bind (update-Succeeds codec env q (begin_restore tenant) tt) λ _.
        Triple-bind (call-Succeeds cutover good restore_targets tenant) λ _.
          Triple-bind (call-Succeeds cutover good wait_targets_ready tenant) λ _.
            Triple-bind (call-Succeeds cutover good remove_wake_path tenant) λ _.
              Triple-bind (update-Succeeds codec env q (forget tenant) tt)
                λ _. notify_changed-Succeeds codec env q tenant

  with_lock-Succeeds :
      {A : Type 0} (m : Action Data A) → Succeeds codec m → Succeeds codec (with_lock env codec m)
  unfolding with_lock
  with_lock-Succeeds m t = Triple-bind (moment-Succeeds codec env q) λ i.
      Triple-bind (check_context-Succeeds codec env q) λ _.
        Triple-bind (update-Succeeds codec env q no_change tt)
          λ _. Triple-bind t λ a. Triple-bind (check_context-Succeeds codec env q) λ _. value a

  run_for_tenant-Succeeds :
      {A : Type 0} (m : Action Data A)
      → Succeeds codec m
      → Succeeds codec (run_for_tenant env codec m)
  unfolding run_for_tenant Ready
  run_for_tenant-Succeeds {A} m t = Triple-bind (check_context-Succeeds codec env q) λ _. record {
    at = λ w p.
        if_cases (λ (r : Result TenantError A × World Data). After (λ _. Ready codec) Never r)
          (not w.active || env.term_over w.clock) _ _ (λ h. in_term w p h)
          (λ _. (with_lock-Succeeds m t).at w p);
  }
    where
      in_term :
          (w : World Data)
          → Ready codec w
          → (not w.active || env.term_over w.clock) ≡ true
          → true ≡ false
      in_term w p h = ground (arith, p.0, q.in_term w.clock)

  woken-Succeeds :
      (o : Option Calls) (tenant : String) (awake : Bool)
      → ((cutover : Calls) → o ≡ some cutover → CallsSucceed cutover)
      → Succeeds codec (woken env codec o tenant awake)
  unfolding woken
  woken-Succeeds o tenant true good = value true
  woken-Succeeds none tenant false good =
      Triple-bind (notify_changed-Succeeds codec env q tenant) λ _. value false
  woken-Succeeds (some cutover) tenant false good =
      Triple-bind (notify_changed-Succeeds codec env q tenant)
        λ _. Triple-bind (restore-Succeeds cutover (good cutover refl) tenant) λ _. value false

  module _ (good : (cutover : Calls) → env.cutover ≡ some cutover → CallsSucceed cutover)
      (tenant : String) where
    wake-Succeeds : Succeeds codec (wake env codec tenant)
    unfolding wake wake_locked
    wake-Succeeds = run_for_tenant-Succeeds _ (
        Triple-bind (update-Succeeds codec env q (wake_change env codec env.cutover tenant) true)
          λ (d, awake). woken-Succeeds env.cutover tenant awake good)

    both :
        (r : Result TenantError Bool × World Data)
        → After (λ _. Ready codec) Never r
        → After (λ _ v. sleeps tenant v.state ≡ false) Always r
        → (b : Bool) × (r.0 ≡ ok b) × (sleeps tenant r.1.state ≡ false)
    both (ok b, v) p a = (b, refl, a)
    both (err e, v) p a = cc p

    -- In a quiet term `Wake` succeeds and the tenant is awake afterwards: where no storage operation and no
    -- call of the cutover fails, nobody else writes the store, no context ends and an encoded document can
    -- be decoded, for a manager that has a term and whose stored document is absent or can be decoded.
    pub wake-succeeds :
        (w : World Data)
        → Ready codec w
        → (b : Bool) × ((wake env codec tenant w).0 ≡ ok b)
          × (sleeps tenant (wake env codec tenant w).1.state ≡ false)
    wake-succeeds w p =
        both (wake env codec tenant w) (wake-Succeeds.at w p) (wake-wakes_up tenant env codec w)
