-- ===== src/Reconciler/Drain.antt =====
-- internal/server/reconciler/drain.go: a replacement first, then the drain of the old instance.
pub mod Size
pub mod Order
use nstance.Base.{
  ℕ, ◌+◌, String, Bool, true, false, ◌||◌, Option, none, some, Result, ok, err, ◌==◌, nat_eq,
  if◌then◌else◌,
}
use nstance.LocalDb.{Table}
use nstance.LocalDb.Rows.{mark_drain_started}
use nstance.Reconciler.{
  ReconcileEvent, check_instance, unspecified, GroupConfig, ReconcileError, nat_handler_missing,
  nat_failure, start_drain, drain_notified, nat_replaced, World, Env, logged,
}
use nstance.Reconciler.Create.{create_instance_for_group, delete_instance}
use nstance.Reconciler.Retry.{schedule_event}

-- The drain timeout of the group, or the default of the server.
abbrev pub drain_timeout_of : Env → GroupConfig → ℕ
drain_timeout_of env g = elim g.drain_timeout [ none ↦ env.default_drain_timeout | some d ↦ d ]

-- Does the NAT manager own the group?
abbrev pub is_nat_group : Env → String → String → Bool
is_nat_group env tenant group = elim (env.nat_group tenant) [ none ↦ false | some g ↦ g == group ]

-- How `replaceNATInstance` ends: not handled, handled, or handled with an error.
pub data NatHandling : Type 0 where
  not_handled handled : NatHandling
  handled_with : ReconcileError → NatHandling

call_nat_handler : String → World → Option (String → Option ℕ) → NatHandling × World
call_nat_handler id w none = (handled_with nat_handler_missing, w)
call_nat_handler id w (some h) = elim (h id) [
  | none ↦ (handled, logged (nat_replaced id) w)
  | some e ↦ (handled_with (nat_failure e), logged (nat_replaced id) w)
]

unfoldable pub replace_nat_instance : Env → String → String → String → World → NatHandling × World
unfolding call_nat_handler
replace_nat_instance env id tenant group w =
    if is_nat_group env tenant group
    then call_nat_handler id w env.nat_handler
    else (not_handled, w)

-- The drain is marked before the operator is told.
start_draining : Env → String → String → ℕ → World → Option Table → Bool × World
start_draining env id group timeout w none = (false, w)
start_draining env id group timeout w (some t) =
    (true, logged (drain_notified id group env.now (env.now + timeout)) (record w { table = t }))

unfoldable pub initiate_instance_drain : Env → String → String → ℕ → Bool → World → Bool × World
unfolding start_draining
initiate_instance_drain env id group timeout already_draining w =
    if already_draining || env.faulty (start_drain id)
    then (false, w)
    else start_draining env id group timeout w (mark_drain_started env.now id w.table)

abbrev pub check_event : Env → String → ReconcileEvent
check_event env id = record {
  type = check_instance;
  tenant = "";
  group_key = "";
  instance_id = id;
  timestamp = env.now;
  prevent_duplicate = false;
  cause = unspecified;
  attempt = 0;
}

-- What follows the creation of the replacement.
abbrev pub retire_old : Env → String → String → String → ℕ → Bool → World → World
retire_old env id tenant group timeout skip_drain w =
    if skip_drain || nat_eq timeout 0
    then delete_instance env tenant id w
    else schedule_event timeout (check_event env id)
        (initiate_instance_drain env id group timeout false w).1

create_then_retire :
    Env → String → String → String → ℕ → Bool → Result ReconcileError String → World → World
create_then_retire env id tenant group timeout skip_drain (err e) w = w
create_then_retire env id tenant group timeout skip_drain (ok new_id) w =
    retire_old env id tenant group timeout skip_drain w

replace_unless_handled :
    Env → String → String → String → GroupConfig → Bool → NatHandling → World → World
unfolding create_then_retire
replace_unless_handled env id tenant group g skip_drain not_handled w =
    let (result, w') = create_instance_for_group env tenant group g true w in
    create_then_retire env id tenant group (drain_timeout_of env g) skip_drain result w'
replace_unless_handled env id tenant group g skip_drain _ w = w

unfoldable pub replace_and_drain :
    Env → String → String → String → GroupConfig → Bool → World → World
unfolding replace_unless_handled
replace_and_drain env id tenant group g skip_drain w =
    let (handling, w') = replace_nat_instance env id tenant group w in
    replace_unless_handled env id tenant group g skip_drain handling w'
