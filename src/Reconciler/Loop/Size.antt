-- ===== src/Reconciler/Loop/Size.antt =====
-- The loop keeps every group within its cap.
use nstance.Base.{
  Option, none, some, subst, sym, ℕ, String, ◌≡◌, refl, not, ok, err, inl, inr, Bool-cases, if_both,
  ltb, leb, length,
}
use nstance.Reconciler.{
  EventType, check_instance, group_changed, instance_deleted, drain_acked, termination_notice,
  initial_reconcile, tenant_changed, other_type, ReconcileEvent, World, Env,
}
use nstance.Reconciler.Create.Size.{Lawful, Sized, Roomy}
use nstance.Reconciler.Drain.Size.{same_table-Sized, schedule_event-table}
use nstance.Reconciler.Retry.{
  schedule_event, schedule_retry, is_permanent_error, policy_for, backoff_delay, retry_of,
}
use nstance.Reconciler.Scaling.Size.{handle_group_changed-Sized}
use nstance.Reconciler.Events.{Outcome}
use nstance.Reconciler.Events.Size.{
  handle_spot_terminating-Sized, handle_instance_deleted-Sized, handle_drain_acked-Sized,
  handle_initial_reconcile-Sized, handle_tenant_changed-Sized,
}
use nstance.Reconciler.Health.Size.{Present, handle_check_instance-Sized}
use nstance.Reconciler.Loop.{handle_event, dispatch, settle, remembered, cleaned, is_duplicate}

schedule_retry-table :
    (env : Env) (e : ReconcileEvent) (w : World) → (schedule_retry env e w).table ≡ w.table
unfolding schedule_retry
schedule_retry-table env e w = elim (Bool-cases (leb (policy_for e.type).max_attempts e.attempt)) [
  | inl h ↦ rw h refl
  | inr h ↦ rw h (planned (backoff_delay env.jitter (policy_for e.type) e.attempt))
]
  where
    planned :
        (o : Option ℕ)
        → (elim o as (λ _. World) [
          | none ↦ w
          | some delay ↦ schedule_event delay (retry_of e) w
        ]).table
          ≡ w.table
    planned none = refl
    planned (some delay) = schedule_event-table delay (retry_of e) w

remembered-table :
    (env : Env) (e : ReconcileEvent) (w : World) → (remembered env e w).table ≡ w.table
remembered-table env e w = elim (Bool-cases e.prevent_duplicate) [
  | inl h ↦ rw h refl
  | inr h ↦ rw h refl
]

cleaned-table : (env : Env) (w : World) → (cleaned env w).table ≡ w.table
cleaned-table env w = elim (Bool-cases (ltb 100 (length w.recent_events))) [
  | inl h ↦ rw h refl
  | inr h ↦ rw h refl
]

settle-Sized :
    (env : Env) (cap : String → String → ℕ) (e : ReconcileEvent) (o : Outcome)
    → Sized cap o.1
    → Sized cap (settle env e o)
unfolding settle
settle-Sized env cap e (ok u, w) s =
    same_table-Sized cap w (remembered env e w) (remembered-table env e w) s
settle-Sized env cap e (err x, w) s = elim (Bool-cases (is_permanent_error x)) [
  | inl h ↦ rw h s
  | inr h ↦ rw h (same_table-Sized cap w (schedule_retry env e w) (schedule_retry-table env e w) s)
]

module _ (env : Env) (lawful : Lawful env) (cap : String → String → ℕ) (roomy : Roomy env cap) where
  dispatch-Sized :
      (type : EventType) (e : ReconcileEvent) (w : World)
      → (type ≡ check_instance → Present e.instance_id w.table)
      → Sized cap w
      → Sized cap (dispatch env type e w).1
  unfolding dispatch
  dispatch-Sized initial_reconcile e w other s =
      handle_initial_reconcile-Sized env lawful cap roomy w s
  dispatch-Sized tenant_changed e w other s =
      handle_tenant_changed-Sized env lawful cap roomy e.tenant w s
  dispatch-Sized group_changed e w other s =
      handle_group_changed-Sized env lawful cap roomy e.tenant e.group_key w s
  dispatch-Sized check_instance e w other s =
      handle_check_instance-Sized env lawful cap roomy e w (other refl) s
  dispatch-Sized termination_notice e w other s =
      handle_spot_terminating-Sized env lawful cap roomy e.instance_id w s
  dispatch-Sized instance_deleted e w other s =
      handle_instance_deleted-Sized env lawful cap roomy e.tenant e.group_key w s
  dispatch-Sized drain_acked e w other s =
      handle_drain_acked-Sized env lawful cap roomy e.tenant e.instance_id w s
  dispatch-Sized other_type e w other s = s

  -- The handling of an event lets no group grow past its cap, where the cap allows each group one instance
  -- more than its size, the instance manager adds no more than it is asked for, whether it succeeds or fails, and
  -- an instance that is to be checked is, if it is there, in a state that counts among those of its group.
  pub handle_event-Sized :
      (e : ReconcileEvent) (w : World)
      → (e.type ≡ check_instance → Present e.instance_id w.table)
      → Sized cap w
      → Sized cap (handle_event env e w)
  unfolding handle_event
  handle_event-Sized e w other s =
      let act : (x : World)
          → x.table ≡ w.table
          → Sized cap x
          → Sized cap (settle env e (dispatch env e.type e x)) =
        λ x same sx. settle-Sized env cap e (dispatch env e.type e x) (
          dispatch-Sized e.type e x
            (λ check. subst (Present e.instance_id) (sym same) (other check)) sx) in
      let s' = same_table-Sized cap w (cleaned env w) (cleaned-table env w) s in
      if_both (Sized cap) (not env.is_leader) s (
        if_both (Sized cap) (not env.config_loaded) s (
          if_both (Sized cap) e.prevent_duplicate
            (if_both (Sized cap) (is_duplicate env e (cleaned env w)) s'
              (act (cleaned env w) (cleaned-table env w) s'))
            (act w refl s)))
