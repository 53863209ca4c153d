-- ===== src/TenantState/Log.antt =====
-- The order that the calls of a cutover must keep, as an invariant of the log of what was done.
use nstance.Base.{
  String, ◌≡◌, sym, subst, ◌≢◌, ◌⊎◌, Bool, true, false, Option, none, some, List, [], ◌∷◌,
  if◌then◌else◌, ◌==◌,
}
use nstance.Base.Dict.{get}
use nstance.TenantState.{
  StateDocument, CutoverCall, install_wake_path, wait_wake_path_ready, begin_target_withdrawal,
  check_activity, finish_target_withdrawal, restore_targets, wait_targets_ready, remove_wake_path,
  Deed, called, stored, notified, ran, World, logged,
}
use nstance.TenantState.Entries.{sleeps}

abbrev pub LastCall : Type 0
LastCall = Option (CutoverCall × Bool)

-- The last call of the cutover for a tenant, and whether it succeeded.
unfoldable pub last_call : String → List Deed → LastCall
last_call tenant [] = none
last_call tenant (called c t b ∷ past) =
    let rest = last_call tenant past in if t == tenant then some (c, b) else rest
last_call tenant (stored _ _ ∷ past) = last_call tenant past
last_call tenant (notified _ ∷ past) = last_call tenant past
last_call tenant (ran _ ∷ past) = last_call tenant past

unfoldable pub Done : CutoverCall → LastCall → Type 0
Done c x = x ≡ some (c, true)

-- Which call may follow which: a tenant's targets are withdrawn only once its wake path is ready, and its
-- wake path is removed only once its targets are ready.
unfoldable pub MayFollow : CutoverCall → LastCall → Type 0
unfolding Done
MayFollow install_wake_path x = Unit {0}
MayFollow wait_wake_path_ready x = Done install_wake_path x
MayFollow begin_target_withdrawal x = Done wait_wake_path_ready x
MayFollow check_activity x = Done wait_wake_path_ready x ⊎ Done begin_target_withdrawal x
MayFollow finish_target_withdrawal x = Done check_activity x
MayFollow restore_targets x = Unit {0}
MayFollow wait_targets_ready x = Done restore_targets x
MayFollow remove_wake_path x = Done wait_targets_ready x

-- What must have been done last for a tenant that falls asleep.
unfoldable pub Prepared : LastCall → Type 0
unfolding Done
Prepared x =
    Done wait_wake_path_ready x ⊎ (Done begin_target_withdrawal x ⊎ Done finish_target_withdrawal x)

-- A write of the document changes the entry of one tenant, which falls asleep only when it is prepared.
pub record OneTenant (past : List Deed) (before after : StateDocument) : Type 0 where
  pub tenant : String
  pub elsewhere : (k : String) → tenant ≢ k → get after k ≡ get before k
  pub prepared :
      sleeps tenant before ≡ false → sleeps tenant after ≡ true → Prepared (last_call tenant past)

-- Every call and every write of the log kept the order, with what was done before it.
unfoldable pub Orderly : List Deed → Type 0
unfolding last_call MayFollow Prepared
Orderly [] = Unit {0}
Orderly (called c t b ∷ past) = MayFollow c (last_call t past) × Orderly past
Orderly (stored before after ∷ past) = OneTenant past before after × Orderly past
Orderly (notified t ∷ past) = Orderly past
Orderly (ran t ∷ past) = Orderly past

unfoldable pub OrderlyWorld : {Data : Type 0} → World Data → Type 0
unfolding Orderly
OrderlyWorld w = Orderly w.log

module _ {Data : Type 0} (tenant : String) where
  -- An orderly world in which the tenant's last call is as told.
  unfoldable pub At : (LastCall → Type 0) → World Data → Type 0
  unfolding OrderlyWorld
  At P w = OrderlyWorld w × P (last_call tenant w.log)

  pub At-world : (P : LastCall → Type 0) (w : World Data) → At P w → OrderlyWorld w
  unfolding At
  At-world P w p = p.0

  pub At-weaken :
      {P Q : LastCall → Type 0} → ((x : LastCall) → P x → Q x) → (w : World Data) → At P w → At Q w
  unfolding At
  At-weaken f w (o, p) = (o, f (last_call tenant w.log) p)

  pub At-log : (P : LastCall → Type 0) (w w' : World Data) → w'.log ≡ w.log → At P w → At P w'
  unfolding At OrderlyWorld
  At-log P w w' e p = subst (λ past. Orderly past × P (last_call tenant past)) (sym e) p

  pub At-notified :
      (P : LastCall → Type 0) (k : String) (w : World Data) → At P w → At P (logged (notified k) w)
  unfolding At OrderlyWorld Orderly last_call
  At-notified P k w p = p
