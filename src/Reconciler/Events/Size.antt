-- ===== src/Reconciler/Events/Size.antt =====
-- The events that concern groups, tenants, drains and terminations keep every group within its cap.
use nstance.Base.{
  ℕ, String, ◌≡◌, refl, true, ◌||◌, Result, ok, err, inl, inr, arith, ◌==◌, Bool-cases,
  Option-cases, Result-cases, ltb, List, [], ◌∷◌, is_some,
}
use nstance.LocalDb.{Instance}
use nstance.LocalDb.Rows.{mark_drain_acked}
use nstance.Reconciler.{
  GroupIdentity, GroupConfig, ReconcileError, tenant_asleep, World, Env, ack_drain,
  active_identities,
}
use nstance.Reconciler.Create.{create_instance_for_group}
use nstance.Reconciler.Create.Size.{
  Lawful, Sized, Roomy, create-Sized, removed, count-mark_drain_acked,
}
use nstance.Reconciler.Drain.{
  NatHandling, not_handled, handled, handled_with, replace_nat_instance, drain_timeout_of,
}
use nstance.Reconciler.Drain.Size.{initiate-Sized, same_table-Sized, replace_nat_instance-table}
use nstance.Reconciler.Expiry.{find_instance}
use nstance.Reconciler.Expiry.Size.{check_on_demand_expiry-Sized}
use nstance.Reconciler.Scaling.{handle_group_changed}
use nstance.Reconciler.Scaling.Size.{handle_group_changed-Sized, notified-Sized}
use nstance.Reconciler.Events.{
  spot_created, spot_replace, spot_unless_handled, handle_spot_terminating, handle_instance_deleted,
  ack_marked, delete_acked, handle_drain_acked, reconcile_all, after_all, handle_initial_reconcile,
  handle_tenant_changed, add_all, active_managed, of_tenant,
}

module _ (env : Env) (lawful : Lawful env) (cap : String → String → ℕ) (roomy : Roomy env cap) where
  spot_created-Sized :
      (i : Instance) (o : Result ReconcileError String × World)
      → Sized cap o.1
      → Sized cap (spot_created env i o).1
  unfolding spot_created
  spot_created-Sized i (ok id, w) s = s
  spot_created-Sized i (err tenant_asleep, w) s = s
  spot_created-Sized i (err e, w) s = notified-Sized env cap i.tenant i.group i.id w s

  spot_replace-Sized :
      (i : Instance) (g : Result ReconcileError GroupConfig) (w : World)
      → env.get_group i.tenant i.group ≡ g
      → Sized cap w
      → Sized cap (spot_replace env i g w).1
  unfolding spot_replace
  spot_replace-Sized i (err e) w q s = s
  spot_replace-Sized i (ok g) w q s =
      let create_on : (x : World)
          → Sized cap x
          → Sized cap
              (spot_created env i (create_instance_for_group env i.tenant i.group g true x)).1 =
        λ x sx.
          spot_created-Sized i (create_instance_for_group env i.tenant i.group g true x)
            (create-Sized env lawful cap roomy i.tenant i.group g true x q sx) in
      elim (Bool-cases (ltb 0 (drain_timeout_of env g))) [
        | inl h ↦ rw h (
            create_on _ (
              initiate-Sized env lawful cap roomy i.id i.group (drain_timeout_of env g)
                (is_some i.drain_started_at) w s))
        | inr h ↦ rw h (create_on w s)
      ]

  spot_unless_handled-Sized :
      (i : Instance) (o : NatHandling × World)
      → Sized cap o.1
      → Sized cap (spot_unless_handled env i o).1
  unfolding spot_unless_handled
  spot_unless_handled-Sized i (not_handled, w) s =
      spot_replace-Sized i (env.get_group i.tenant i.group) w refl s
  spot_unless_handled-Sized i (handled, w) s = s
  spot_unless_handled-Sized i (handled_with e, w) s = s

  pub handle_spot_terminating-Sized :
      (id : String) (w : World) → Sized cap w → Sized cap (handle_spot_terminating env id w).1
  unfolding handle_spot_terminating
  handle_spot_terminating-Sized id w s = elim (Option-cases (find_instance env id w)) [
    | inl h ↦ rw (h, handle_spot_terminating) s
    | inr (i, h) ↦ elim (Bool-cases (env.asleep i.tenant)) [
      | inl a ↦ rw (h, a, handle_spot_terminating) s
      | inr a ↦
          rw (h, a, handle_spot_terminating)
            (spot_unless_handled-Sized i (replace_nat_instance env id i.tenant i.group w) (
              same_table-Sized cap w (replace_nat_instance env id i.tenant i.group w).1
                (replace_nat_instance-table env id i.tenant i.group w) s))
    ]
  ]

  pub handle_instance_deleted-Sized :
      (tenant group : String) (w : World)
      → Sized cap w
      → Sized cap (handle_instance_deleted env tenant group w).1
  unfolding handle_instance_deleted
  handle_instance_deleted-Sized tenant group w s = elim (Bool-cases (tenant == "" || group == "")) [
    | inl h ↦ rw h s
    | inr h ↦ rw h (handle_group_changed-Sized env lawful cap roomy tenant group w s)
  ]

  ack_marked-Sized : (id : String) (w : World) → Sized cap w → Sized cap (ack_marked env id w)
  ack_marked-Sized id w s = elim (Bool-cases (env.faulty (ack_drain id))) [
    | inl h ↦ rw h s
    | inr h ↦ elim (Option-cases (mark_drain_acked env.now id w.table)) [
      | inl m ↦ rw (h, m) s
      | inr (t, m) ↦
          rw (h, m)
            (λ tn gr. ground (arith, count-mark_drain_acked tn gr id env.now w.table t m, s tn gr))
    ]
  ]

  delete_acked-Sized :
      (tenant id : String) (w : World) → Sized cap w → Sized cap (delete_acked env tenant id w).1
  unfolding delete_acked
  delete_acked-Sized tenant id w s =
      let w' : World = record w { table = (env.delete tenant id w.table).1 } in
      let s' = removed env lawful cap roomy tenant id w s w'.table refl in
      elim (Option-cases (env.delete tenant id w.table).0) [
        | inl h ↦ rw (h, delete_acked) s'
        | inr (e, h) ↦ elim (Option-cases (find_instance env id w')) [
          | inl n ↦ rw (h, n, delete_acked) s'
          | inr (i, n) ↦ rw (h, n, delete_acked) (notified-Sized env cap i.tenant i.group id w' s')
        ]
      ]

  pub handle_drain_acked-Sized :
      (tenant id : String) (w : World)
      → Sized cap w
      → Sized cap (handle_drain_acked env tenant id w).1
  unfolding handle_drain_acked
  handle_drain_acked-Sized tenant id w s =
      delete_acked-Sized tenant id (ack_marked env id w) (ack_marked-Sized id w s)

  pub reconcile_all-Sized :
      (groups : List GroupIdentity) (w : World)
      → Sized cap w
      → Sized cap (reconcile_all env groups w).1
  unfolding reconcile_all
  reconcile_all-Sized [] w s = s
  reconcile_all-Sized (g ∷ gs) w s =
      reconcile_all-Sized gs (handle_group_changed env g.tenant g.group w).1
        (handle_group_changed-Sized env lawful cap roomy g.tenant g.group w s)

  pub handle_initial_reconcile-Sized :
      (w : World) → Sized cap w → Sized cap (handle_initial_reconcile env w).1
  unfolding handle_initial_reconcile after_all
  handle_initial_reconcile-Sized w s = elim (Result-cases env.all_groups) [
    | inr (e, h) ↦ rw (h, handle_initial_reconcile) s
    | inl (groups, h) ↦ elim (Bool-cases (env.faulty active_identities)) [
      | inl f ↦ rw (h, f, handle_initial_reconcile) s
      | inr f ↦
          let all = add_all (active_managed w.table) (add_all groups []) in
          rw (h, f, handle_initial_reconcile)
            (check_on_demand_expiry-Sized env lawful cap roomy (reconcile_all env all w).1
              (reconcile_all-Sized all w s))
    ]
  ]

  pub handle_tenant_changed-Sized :
      (tenant : String) (w : World) → Sized cap w → Sized cap (handle_tenant_changed env tenant w).1
  unfolding handle_tenant_changed
  handle_tenant_changed-Sized tenant w s = elim (Result-cases env.all_groups) [
    | inr (e, h) ↦ rw (h, handle_tenant_changed) s
    | inl (groups, h) ↦ elim (Bool-cases (env.faulty active_identities)) [
      | inl f ↦ rw (h, f, handle_tenant_changed) s
      | inr f ↦
          rw (h, f, handle_tenant_changed)
            (reconcile_all-Sized
              (add_all (of_tenant tenant (active_managed w.table))
                (add_all (of_tenant tenant groups) []))
              w s)
    ]
  ]
