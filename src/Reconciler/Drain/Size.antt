-- ===== src/Reconciler/Drain/Size.antt =====
-- A replacement and a drain keep every group within its cap.
use nstance.Base.{
  ℕ, String, ◌≡◌, refl, Bool, true, false, not, ◌||◌, Option, none, some, Result, ok, err, inl, inr,
  arith, Bool-cases, Option-cases, nat_eq,
}
use nstance.LocalDb.{Table}
use nstance.LocalDb.Rows.{mark_drain_started}
use nstance.Reconciler.{GroupConfig, ReconcileError, ReconcileEvent, World, Env, start_drain}
use nstance.Reconciler.Create.{create_instance_for_group}
use nstance.Reconciler.Create.Size.{
  Lawful, Sized, Roomy, create-Sized, delete-Sized, count-mark_drain_started,
}
use nstance.Reconciler.Retry.{schedule_event}
use nstance.Reconciler.Drain.{
  replace_and_drain, initiate_instance_drain, retire_old, check_event, create_then_retire,
  replace_unless_handled, replace_nat_instance, is_nat_group, NatHandling, not_handled, handled,
  handled_with, drain_timeout_of, call_nat_handler, start_draining,
}

-- Only the table counts.
pub same_table-Sized :
    (cap : String → String → ℕ) (w w' : World) → w'.table ≡ w.table → Sized cap w → Sized cap w'
same_table-Sized cap w w' same s = λ tn gr. rw same (s tn gr)

pub schedule_event-table :
    (delay : ℕ) (e : ReconcileEvent) (w : World) → (schedule_event delay e w).table ≡ w.table
unfolding schedule_event
schedule_event-table delay e w = elim (Bool-cases (not w.started || w.cancelled)) [
  | inl h ↦ ground (arith, h)
  | inr h ↦ ground (arith, h)
]

call_nat_handler-table :
    (id : String) (w : World) (h : Option (String → Option ℕ))
    → (call_nat_handler id w h).1.table ≡ w.table
unfolding call_nat_handler
call_nat_handler-table id w none = refl
call_nat_handler-table id w (some h) = elim (Option-cases (h id)) [
  | inl q ↦ rw (q, call_nat_handler) refl
  | inr (e, q) ↦ rw (q, call_nat_handler) refl
]

pub replace_nat_instance-table :
    (env : Env) (id tenant group : String) (w : World)
    → (replace_nat_instance env id tenant group w).1.table ≡ w.table
unfolding replace_nat_instance
replace_nat_instance-table env id tenant group w =
    elim (Bool-cases (is_nat_group env tenant group)) [
      | inl h ↦ rw h (call_nat_handler-table id w env.nat_handler)
      | inr h ↦ rw h refl
    ]

module _ (env : Env) (lawful : Lawful env) (cap : String → String → ℕ) (roomy : Roomy env cap) where
  start_draining-Sized :
      (id group : String) (timeout : ℕ) (w : World) (t : Option Table)
      → mark_drain_started env.now id w.table ≡ t
      → Sized cap w
      → Sized cap (start_draining env id group timeout w t).1
  unfolding start_draining
  start_draining-Sized id group timeout w none q s = s
  start_draining-Sized id group timeout w (some t) q s =
      λ tn gr. ground (arith, count-mark_drain_started tn gr id env.now w.table t q, s tn gr)

  pub initiate-Sized :
      (id group : String) (timeout : ℕ) (draining : Bool) (w : World)
      → Sized cap w
      → Sized cap (initiate_instance_drain env id group timeout draining w).1
  unfolding initiate_instance_drain
  initiate-Sized id group timeout draining w s =
      elim (Bool-cases (draining || env.faulty (start_drain id))) [
        | inl h ↦ rw h s
        | inr h ↦
            rw h (
              start_draining-Sized id group timeout w (mark_drain_started env.now id w.table) refl
                s)
      ]

  retire-Sized :
      (id tenant group : String) (timeout : ℕ) (skip : Bool) (w : World)
      → Sized cap w
      → Sized cap (retire_old env id tenant group timeout skip w)
  retire-Sized id tenant group timeout skip w s = elim (Bool-cases (skip || nat_eq timeout 0)) [
    | inl h ↦ rw h (delete-Sized env lawful cap roomy tenant id w s)
    | inr h ↦ rw h (
        same_table-Sized cap (initiate_instance_drain env id group timeout false w).1
          (schedule_event timeout (check_event env id)
            (initiate_instance_drain env id group timeout false w).1)
          (schedule_event-table timeout (check_event env id)
            (initiate_instance_drain env id group timeout false w).1)
          (initiate-Sized id group timeout false w s))
  ]

  create_then_retire-Sized :
      (id tenant group : String) (timeout : ℕ) (skip : Bool) (r : Result ReconcileError String)
      (w : World)
      → Sized cap w
      → Sized cap (create_then_retire env id tenant group timeout skip r w)
  unfolding create_then_retire
  create_then_retire-Sized id tenant group timeout skip (err e) w s = s
  create_then_retire-Sized id tenant group timeout skip (ok n) w s =
      retire-Sized id tenant group timeout skip w s

  replace_unless_handled-Sized :
      (id tenant group : String) (g : GroupConfig) (skip : Bool) (handling : NatHandling)
      (w : World)
      → env.get_group tenant group ≡ ok g
      → Sized cap w
      → Sized cap (replace_unless_handled env id tenant group g skip handling w)
  unfolding replace_unless_handled
  replace_unless_handled-Sized id tenant group g skip not_handled w known s =
      create_then_retire-Sized id tenant group (drain_timeout_of env g) skip
        (create_instance_for_group env tenant group g true w).0
        (create_instance_for_group env tenant group g true w).1
        (create-Sized env lawful cap roomy tenant group g true w known s)
  replace_unless_handled-Sized id tenant group g skip handled w known s = s
  replace_unless_handled-Sized id tenant group g skip (handled_with e) w known s = s

  pub replace_and_drain-Sized :
      (id tenant group : String) (g : GroupConfig) (skip : Bool) (w : World)
      → env.get_group tenant group ≡ ok g
      → Sized cap w
      → Sized cap (replace_and_drain env id tenant group g skip w)
  unfolding replace_and_drain
  replace_and_drain-Sized id tenant group g skip w known s =
      replace_unless_handled-Sized id tenant group g skip
        (replace_nat_instance env id tenant group w).0
        (replace_nat_instance env id tenant group w).1 known
        (same_table-Sized cap w (replace_nat_instance env id tenant group w).1
          (replace_nat_instance-table env id tenant group w) s)
