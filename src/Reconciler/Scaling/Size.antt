-- ===== src/Reconciler/Scaling/Size.antt =====
-- Bringing a group to its size keeps every group within its cap.
use nstance.Base.{
  ℕ, zero, suc, ◌-◌, String, ◌≡◌, refl, true, false, none, some, Result, ok, err, inl, inr, arith,
  Bool-cases, Option-cases, Result-cases, if◌then◌else◌, ltb, List, [], ◌∷◌, length,
}
use nstance.LocalDb.Rows.{get_instances_by_group}
use nstance.Reconciler.{
  GroupConfig, ReconcileError, tenant_asleep, World, Env, instances_by_group, cached_group, logged,
  notified, deleted, error_notified,
}
use nstance.Reconciler.Create.{create_instance_for_group}
use nstance.Reconciler.Create.Size.{Lawful, Sized, Roomy, create-Sized, removed}
use nstance.Reconciler.Drain.{is_nat_group}
use nstance.Reconciler.Drain.Size.{replace_and_drain-Sized, same_table-Sized}
use nstance.Reconciler.Expiry.{check_group_expiry, schedule_group_expiry, cancel_group_expiry_timer}
use nstance.Reconciler.Expiry.Size.{check_group_expiry-Sized, schedule_group_expiry-table}
use nstance.Reconciler.Scaling.{
  stop_scaling, scale_up, scale_down_from, scale_down, Drift, draining, first_drifted, rotate,
  find_drift, check_group_config_drift, finish_group, scale_group, finish_scaled, reconcile_group,
  handle_group_changed, desired_count,
}

stop_scaling-table :
    (env : Env) (tenant group : String) (e : ReconcileError) (w : World)
    → (stop_scaling env tenant group e w).1.table ≡ w.table
unfolding stop_scaling
stop_scaling-table env tenant group tenant_asleep w = refl
stop_scaling-table env tenant group e w = elim (Bool-cases env.notifies) [
  | inl h ↦ ground (arith, h)
  | inr h ↦ ground (arith, h)
]

pub notified-Sized :
    (env : Env) (cap : String → String → ℕ) (tenant group id : String) (w : World)
    → Sized cap w
    → Sized cap (notified env (error_notified tenant group id) w)
notified-Sized env cap tenant group id w s = elim (Bool-cases env.notifies) [
  | inl h ↦ rw h s
  | inr h ↦ rw h s
]

module _ (env : Env) (lawful : Lawful env) (cap : String → String → ℕ) (roomy : Roomy env cap) where
  pub scale_up-Sized :
      (tenant group : String) (g : GroupConfig) (count : ℕ) (w : World)
      → env.get_group tenant group ≡ ok g
      → Sized cap w
      → Sized cap (scale_up env tenant group g count w).1
  unfolding scale_up
  scale_up-Sized tenant group g zero w known s = s
  scale_up-Sized tenant group g (suc count) w known s =
      let s' = create-Sized env lawful cap roomy tenant group g false w known s in
      let w' = (create_instance_for_group env tenant group g false w).1 in
      elim (Result-cases (create_instance_for_group env tenant group g false w).0) [
        | inl (id, h) ↦ rw (h, scale_up) (scale_up-Sized tenant group g count w' known s')
        | inr (e, h) ↦
            rw (h, scale_up)
              (same_table-Sized cap w' (stop_scaling env tenant group e w').1
                (stop_scaling-table env tenant group e w') s')
      ]

  pub scale_down_from-Sized :
      (tenant group : String) (instances : List String) (count failures : ℕ) (w : World)
      → Sized cap w
      → Sized cap (scale_down_from env tenant group instances count failures w).1
  unfolding scale_down_from
  scale_down_from-Sized tenant group [] count failures w s = s
  scale_down_from-Sized tenant group (id ∷ rest) zero failures w s = s
  scale_down_from-Sized tenant group (id ∷ rest) (suc count) failures w s =
      let t = (env.delete tenant id w.table).1 in
      let s' = removed env lawful cap roomy tenant id w s t refl in
      elim (Option-cases (env.delete tenant id w.table).0) [
        | inl h ↦
            rw (h, scale_down_from)
              (scale_down_from-Sized tenant group rest count failures
                (logged (deleted tenant id) (record w { table = t })) s')
        | inr (e, h) ↦
            rw (h, scale_down_from)
              (scale_down_from-Sized tenant group rest count (suc failures)
                (notified env (error_notified tenant group id) (record w { table = t }))
                (notified-Sized env cap tenant group id (record w { table = t }) s'))
      ]

  rotate-Sized :
      (tenant group : String) (g : GroupConfig) (d : Drift) (w : World)
      → env.get_group tenant group ≡ ok g
      → Sized cap w
      → Sized cap (rotate env tenant group g d w)
  unfolding rotate
  rotate-Sized tenant group g draining w known s = s
  rotate-Sized tenant group g (first_drifted none) w known s = s
  rotate-Sized tenant group g (first_drifted (some id)) w known s =
      replace_and_drain-Sized env lawful cap roomy id tenant group g false w known s

  pub drift-Sized :
      (tenant group : String) (g : GroupConfig) (w : World)
      → env.get_group tenant group ≡ ok g
      → Sized cap w
      → Sized cap (check_group_config_drift env tenant group g w)
  unfolding check_group_config_drift
  drift-Sized tenant group g w known s =
      elim (Option-cases (if env.faulty cached_group then none else env.cached_hash tenant group)) [
        | inl h ↦ rw (h, check_group_config_drift) s
        | inr (hash, h) ↦ elim (Bool-cases (env.faulty instances_by_group)) [
          | inl f ↦ rw (h, f, check_group_config_drift) s
          | inr f ↦
              rw (h, f, check_group_config_drift)
                (rotate-Sized tenant group g
                  (find_drift env hash w none (get_instances_by_group tenant group true w.table)) w
                  known s)
        ]
      ]

  finish_group-Sized :
      (tenant group : String) (g : GroupConfig) (w : World)
      → env.get_group tenant group ≡ ok g
      → Sized cap w
      → Sized cap (finish_group env tenant group g w)
  unfolding finish_group cancel_group_expiry_timer
  finish_group-Sized tenant group g w known s =
      let w' =
        check_group_expiry env tenant group (check_group_config_drift env tenant group g w) in
      elim (Bool-cases (env.asleep tenant)) [
        | inl h ↦ rw h s
        | inr h ↦ rw h (
            same_table-Sized cap w' (schedule_group_expiry env tenant group w')
              (schedule_group_expiry-table env tenant group w')
              (check_group_expiry-Sized env lawful cap roomy tenant group
                (check_group_config_drift env tenant group g w)
                (drift-Sized tenant group g w known s)))
      ]

  scale_group-Sized :
      (tenant group : String) (g : GroupConfig) (current : List String) (w : World)
      → env.get_group tenant group ≡ ok g
      → Sized cap w
      → Sized cap (scale_group env tenant group g current w).1
  unfolding scale_group scale_down
  scale_group-Sized tenant group g current w known s =
      let desired = desired_count env tenant g in
      elim (Bool-cases (ltb (length current) desired)) [
        | inl h ↦ rw h (scale_up-Sized tenant group g (desired - length current) w known s)
        | inr h ↦ elim (Bool-cases (ltb desired (length current))) [
          | inl d ↦
              rw (h, d)
                (scale_down_from-Sized tenant group current (length current - desired) 0 w s)
          | inr d ↦ rw (h, d) s
        ]
      ]

  finish_scaled-Sized :
      (tenant group : String) (g : GroupConfig) (o : Result ReconcileError (Unit {0}) × World)
      → env.get_group tenant group ≡ ok g
      → Sized cap o.1
      → Sized cap (finish_scaled env tenant group g o).1
  unfolding finish_scaled
  finish_scaled-Sized tenant group g (err e, w) known s = s
  finish_scaled-Sized tenant group g (ok u, w) known s = finish_group-Sized tenant group g w known s

  reconcile_group-Sized :
      (tenant group : String) (current : List String) (g : Result ReconcileError GroupConfig)
      (w : World)
      → env.get_group tenant group ≡ g
      → Sized cap w
      → Sized cap (reconcile_group env tenant group current g w).1
  unfolding reconcile_group scale_down cancel_group_expiry_timer
  reconcile_group-Sized tenant group current (err e) w q s =
      scale_down_from-Sized tenant group current (length current) 0
        (cancel_group_expiry_timer tenant group w) s
  reconcile_group-Sized tenant group current (ok g) w q s =
      finish_scaled-Sized tenant group g (scale_group env tenant group g current w) q
        (scale_group-Sized tenant group g current w q s)

  -- Whatever a group's reconciliation does, scaling up or down, rotating a drifted instance or replacing an
  -- old one, no group grows past its cap, which allows one instance more than the size of a group, given
  -- that the instance manager creates no more than what it is asked for.
  pub handle_group_changed-Sized :
      (tenant group : String) (w : World)
      → Sized cap w
      → Sized cap (handle_group_changed env tenant group w).1
  unfolding handle_group_changed
  handle_group_changed-Sized tenant group w s = elim (Bool-cases (is_nat_group env tenant group)) [
    | inl h ↦ rw h s
    | inr h ↦ elim (Bool-cases (env.faulty instances_by_group)) [
      | inl f ↦ rw (h, f) s
      | inr f ↦
          rw (h, f)
            (reconcile_group-Sized tenant group (get_instances_by_group tenant group true w.table)
              (env.get_group tenant group) w refl s)
    ]
  ]
