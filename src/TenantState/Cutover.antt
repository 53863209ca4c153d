-- ===== src/TenantState/Cutover.antt =====
-- `restore` and `continueSleep`: the ordered calls of the cutover, with what is recorded between them.
pub mod Order
use nstance.Base.{
  ℕ, String, Bool, true, false, Option, none, some, List, ◌∷◌, Result, ok, err, if◌then◌else◌,
  is_some,
}
use nstance.Base.Exec.{Exec, pure, raise, read, outcome, ◌>>=◌, ◌>>◌}
use nstance.Storage.{Digest}
use nstance.TenantState.{
  TransitionProgress, StateDocument, entry_of, CutoverCall, install_wake_path, wait_wake_path_ready,
  begin_target_withdrawal, check_activity, finish_target_withdrawal, restore_targets,
  wait_targets_ready, remove_wake_path, TenantError, no_withdrawal_time, cutover_failed, joined,
  called, World, Codec, Env, logged,
}
use nstance.TenantState.Entries.{
  progress_of, begin_restore, block_target_registration, mark_withdrawal, forget,
}
use nstance.TenantState.Document.{Action, moment, update, notify_changed}

abbrev pub Calls : Type 0
Calls = CutoverCall → String → ℕ → Option ℕ

module _ {Data : Type 0} where
  unfoldable pub answered : CutoverCall → String → Option ℕ → Action Data (Unit {0})
  answered c tenant none w = (ok tt, logged (called c tenant true) w)
  answered c tenant (some e) w = (err (cutover_failed c e), logged (called c tenant false) w)

  module _ (env : Env Data) where
    -- One call of the cutover.
    unfoldable pub call : Calls → CutoverCall → String → Action Data (Unit {0})
    unfolding answered moment
    call cutover c tenant = do i ← moment env; answered c tenant (cutover c tenant i)

    -- `transition`: the facts that the manager's copy holds.
    unfoldable pub transition : String → Action Data TransitionProgress
    unfolding moment entry_of
    transition tenant = do i ← moment env; read λ w. progress_of (entry_of tenant w.state)

    module _ ⦃md5 : Digest Data⦄ (codec : Codec Data) (cutover : Calls) where
      unfoldable pub restore : String → Action Data (Unit {0})
      unfolding call update notify_changed
      restore tenant = do
        update env codec (begin_restore tenant) tt
        call cutover restore_targets tenant
        call cutover wait_targets_ready tenant
        call cutover remove_wake_path tenant
        update env codec (forget tenant) tt
        notify_changed env tenant

      -- The failure after which the targets were restored, joined with that of the restoration.
      rolled_back : TenantError → Result TenantError (Unit {0}) → Action Data (Unit {0})
      rolled_back e (ok _) = raise e
      rolled_back e (err e') = raise (joined e e')

      on_failure : String → Result TenantError (Unit {0}) → Action Data (Unit {0})
      unfolding restore rolled_back
      on_failure tenant (ok _) = pure tt
      on_failure tenant (err e) = do r ← outcome (restore tenant); rolled_back e r

      -- A step whose failure restores the targets.
      unfoldable pub or_restore : String → Action Data (Unit {0}) → Action Data (Unit {0})
      unfolding on_failure
      or_restore tenant m = do r ← outcome m; on_failure tenant r

      record_withdrawal : String → Action Data (Unit {0})
      unfolding moment update
      record_withdrawal tenant = do
        at ← read λ w. env.now w.clock
        update env codec (mark_withdrawal tenant at) tt
        pure tt

      -- The withdrawal of the targets, unless it is recorded as begun.
      withdraw : String → Option ℕ → Action Data (Unit {0})
      unfolding update call or_restore record_withdrawal
      withdraw tenant (some at) = pure tt
      withdraw tenant none = do
        update env codec (block_target_registration tenant) tt
        or_restore tenant (call cutover begin_target_withdrawal tenant)
        or_restore tenant (record_withdrawal tenant)

      -- A guarded transition checks for activity since the withdrawal, and finishes it.
      guard_since : String → Option ℕ → Action Data (Unit {0})
      unfolding call or_restore
      guard_since tenant none = raise no_withdrawal_time
      guard_since tenant (some at) = do
        or_restore tenant (call cutover check_activity tenant)
        or_restore tenant (call cutover finish_target_withdrawal tenant)

      guard : String → TransitionProgress → Action Data (Unit {0})
      unfolding guard_since
      guard tenant p = if p.guarded then guard_since tenant p.withdrawal_at else pure tt

      unfoldable pub continue_sleep : String → Action Data (Unit {0})
      unfolding call transition withdraw guard
      continue_sleep tenant = do
        call cutover install_wake_path tenant
        call cutover wait_wake_path_ready tenant
        p ← transition tenant
        withdraw tenant p.withdrawal_at
        p' ← transition tenant
        guard tenant p'
