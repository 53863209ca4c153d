-- ===== src/TenantState/Cutover/Order.antt =====
-- `restore` and `continueSleep` keep the order of the cutover's calls.
use nstance.Base.{ℕ, String, ◌⊎◌, inl, inr, Option, none, some, Result, ok, err, eq_refl}
use nstance.Base.Exec.Triple.{
  After, Triple, Triple-mono, Triple-pure, Triple-read, Triple-raise, Triple-bind, Triple-if,
  Triple-outcome,
}
use nstance.Storage.{Digest}
use nstance.TenantState.{
  TransitionProgress, entry_of, CutoverCall, install_wake_path, wait_wake_path_ready,
  begin_target_withdrawal, check_activity, finish_target_withdrawal, restore_targets,
  wait_targets_ready, remove_wake_path, TenantError, no_withdrawal_time, joined, World, Codec, Env,
}
use nstance.TenantState.Entries.{
  begin_restore, block_target_registration, mark_withdrawal, forget, progress_of,
}
use nstance.TenantState.Log.{
  LastCall, last_call, Done, MayFollow, Prepared, Orderly, OrderlyWorld, At, At-world, At-weaken,
}
use nstance.TenantState.Document.{Action}
use nstance.TenantState.Document.Steps.{Steady, moment-Steady, notify_changed-Steady, update-Steady}
use nstance.TenantState.Document.Changes.{
  forget-Sound, begin_restore-Sound, block_target_registration-Sound, mark_withdrawal-Sound,
}
use nstance.TenantState.Cutover.{
  Calls, answered, call, transition, restore, rolled_back, on_failure, or_restore,
  record_withdrawal, withdraw, guard_since, guard, continue_sleep,
}

-- Nothing is known of the last call.
abbrev pub Anything : LastCall → Type 0
Anything x = Unit

-- The tenant's targets may be withdrawn, and they may have been.
abbrev Withdrawn : LastCall → Type 0
Withdrawn x = Done wait_wake_path_ready x ⊎ Done begin_target_withdrawal x

module _ {Data : Type 0} (tenant : String) where
  answered-After :
      (P : LastCall → Type 0) (c : CutoverCall) (o : Option ℕ) (w : World Data)
      → ((x : LastCall) → P x → MayFollow c x)
      → At tenant P w
      → After (λ _. At tenant (Done c)) OrderlyWorld (answered c tenant o w)
  unfolding answered At OrderlyWorld Orderly last_call Done
  answered-After P c none w may (o, p) = ((may (last_call tenant w.log) p, o), simp (eq_refl))
  answered-After P c (some e) w may (o, p) = (may (last_call tenant w.log) p, o)

  module _ (env : Env Data) where
    pub call-Order :
        (P : LastCall → Type 0) (cutover : Calls) (c : CutoverCall)
        → ((x : LastCall) → P x → MayFollow c x)
        → Triple (At tenant P) (call env cutover c tenant) (λ _. At tenant (Done c)) OrderlyWorld
    unfolding call Steady
    call-Order P cutover c may =
        Triple-bind (moment-Steady tenant P env)
          λ i. record { at = λ w. answered-After P c (cutover c tenant i) w may }

    pub transition-Order : (P : LastCall → Type 0) → Steady tenant P (transition env tenant)
    unfolding transition Steady entry_of
    transition-Order P =
        Triple-bind (moment-Steady tenant P env)
          λ i. Triple-read (λ w. progress_of (entry_of tenant w.state)) λ w p. p

    module _ ⦃md5 : Digest Data⦄ (codec : Codec Data) (cutover : Calls) where
      pub restore-Order :
          Triple OrderlyWorld
            (restore env codec cutover tenant)
            (λ _. At tenant (Done remove_wake_path))
            OrderlyWorld
      unfolding restore Steady MayFollow At
      restore-Order =
          Triple-mono (λ w o. (o, tt)) (λ a w p. p) (λ w r. r)
            (Triple-bind
              (update-Steady tenant Anything env codec (begin_restore tenant) begin_restore-Sound
                tt)
              λ _. Triple-bind (call-Order Anything cutover restore_targets λ x p. tt) λ _.
                Triple-bind (call-Order (Done restore_targets) cutover wait_targets_ready λ x p. p)
                  λ _.
                    Triple-bind
                      (call-Order (Done wait_targets_ready) cutover remove_wake_path λ x p. p)
                      λ _.
                        Triple-bind
                          (update-Steady tenant (Done remove_wake_path) env codec (forget tenant)
                            forget-Sound tt)
                          λ _. notify_changed-Steady tenant (Done remove_wake_path) env tenant)

      rolled_back-Order :
          (P : LastCall → Type 0) (e : TenantError) (r : Result TenantError (Unit {0}))
          → Triple OrderlyWorld (rolled_back env codec cutover e r) (λ _. At tenant P) OrderlyWorld
      unfolding rolled_back
      rolled_back-Order P e (ok _) = Triple-raise e λ w o. o
      rolled_back-Order P e (err e') = Triple-raise (joined e e') λ w o. o

      on_failure-Order :
          (P : LastCall → Type 0) (r : Result TenantError (Unit {0}))
          → Triple
              (λ w. After (λ _. At tenant P) OrderlyWorld (r, w))
              (on_failure env codec cutover tenant r)
              (λ _. At tenant P)
              OrderlyWorld
      unfolding on_failure
      on_failure-Order P (ok _) = Triple-pure tt λ w p. p
      on_failure-Order P (err e) =
          Triple-bind
            (Triple-mono (λ w p. p) after_restore (λ w r. r) (Triple-outcome restore-Order))
            (rolled_back-Order P e)
        where
          after_restore :
              (r : Result TenantError (Unit {0})) (w : World Data)
              → After (λ _. At tenant (Done remove_wake_path)) OrderlyWorld (r, w)
              → OrderlyWorld w
          after_restore (ok _) w p = At-world tenant (Done remove_wake_path) w p
          after_restore (err _) w p = p

      pub or_restore-Order :
          (P Q : LastCall → Type 0) (m : Action Data (Unit {0}))
          → Triple (At tenant P) m (λ _. At tenant Q) OrderlyWorld
          → Triple
              (At tenant P)
              (or_restore env codec cutover tenant m)
              (λ _. At tenant Q)
              OrderlyWorld
      unfolding or_restore
      or_restore-Order P Q m t = Triple-bind (Triple-outcome t) (on_failure-Order Q)

      record_withdrawal-Order :
          (P : LastCall → Type 0) → Steady tenant P (record_withdrawal env codec cutover tenant)
      unfolding record_withdrawal Steady
      record_withdrawal-Order P = Triple-bind (Triple-read (λ w. env.now w.clock) λ w p. p) λ at.
          Triple-bind
            (update-Steady tenant P env codec (mark_withdrawal tenant at) (mark_withdrawal-Sound at)
              tt)
            λ _. Triple-pure tt λ w p. p

      withdraw-Order :
          (o : Option ℕ)
          → Triple
              (At tenant (Done wait_wake_path_ready))
              (withdraw env codec cutover tenant o)
              (λ _. At tenant Withdrawn)
              OrderlyWorld
      unfolding withdraw Steady MayFollow
      withdraw-Order (some at) = Triple-pure tt (At-weaken tenant λ x p. inl p)
      withdraw-Order none =
          Triple-bind
            (update-Steady tenant (Done wait_wake_path_ready) env codec
              (block_target_registration tenant) block_target_registration-Sound tt)
            λ _.
              Triple-bind
                (or_restore-Order (Done wait_wake_path_ready) (Done begin_target_withdrawal) _
                  (call-Order (Done wait_wake_path_ready) cutover begin_target_withdrawal λ x p. p))
                λ _.
                  Triple-mono (λ w p. p) (λ a. At-weaken tenant λ x p. inr p) (λ w r. r)
                    (or_restore-Order (Done begin_target_withdrawal) (Done begin_target_withdrawal)
                      _ (record_withdrawal-Order (Done begin_target_withdrawal)))

      guard_since-Order :
          (o : Option ℕ)
          → Triple
              (At tenant Withdrawn)
              (guard_since env codec cutover tenant o)
              (λ _. At tenant Prepared)
              OrderlyWorld
      unfolding guard_since MayFollow Prepared
      guard_since-Order none = Triple-raise no_withdrawal_time (At-world tenant Withdrawn)
      guard_since-Order (some at) =
          Triple-bind
            (or_restore-Order Withdrawn (Done check_activity) _
              (call-Order Withdrawn cutover check_activity λ x p. p))
            λ _.
              Triple-mono (λ w p. p) (λ a. At-weaken tenant λ x p. inr (inr p)) (λ w r. r)
                (or_restore-Order (Done check_activity) (Done finish_target_withdrawal) _
                  (call-Order (Done check_activity) cutover finish_target_withdrawal λ x p. p))

      Withdrawn-Prepared : (x : LastCall) → Withdrawn x → Prepared x
      unfolding Prepared
      Withdrawn-Prepared x (inl p) = inl p
      Withdrawn-Prepared x (inr p) = inr (inl p)

      guard-Order :
          (p : TransitionProgress)
          → Triple
              (At tenant Withdrawn)
              (guard env codec cutover tenant p)
              (λ _. At tenant Prepared)
              OrderlyWorld
      unfolding guard
      guard-Order p =
          Triple-if p.guarded (λ _. guard_since-Order p.withdrawal_at)
            (λ _. Triple-pure tt (At-weaken tenant Withdrawn-Prepared))

      pub continue_sleep-Order :
          Triple OrderlyWorld
            (continue_sleep env codec cutover tenant)
            (λ _. At tenant Prepared)
            OrderlyWorld
      unfolding continue_sleep Steady MayFollow At
      continue_sleep-Order =
          Triple-mono (λ w o. (o, tt)) (λ a w p. p) (λ w r. r)
            (Triple-bind (call-Order Anything cutover install_wake_path λ x p. tt) λ _.
              Triple-bind
                (call-Order (Done install_wake_path) cutover wait_wake_path_ready λ x p. p)
                λ _. Triple-bind (transition-Order (Done wait_wake_path_ready)) λ p.
                  Triple-bind (withdraw-Order p.withdrawal_at)
                    λ _. Triple-bind (transition-Order Withdrawn) guard-Order)
