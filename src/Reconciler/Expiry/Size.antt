-- ===== src/Reconciler/Expiry/Size.antt =====
-- The replacement of old instances keeps every group within its cap.
use nstance.Base.{
  ℕ, String, ◌≡◌, refl, sym, subst, true, false, ◌&&◌, ◌||◌, Option, none, some, Result, ok, err,
  inl, inr, Bool-cases, Option-cases, if◌then◌else◌, nat_eq, ltb,
}
use nstance.LocalDb.{Instance}
use nstance.LocalDb.Rows.{
  get_instances_by_group, get_instances_older_than, get_oldest_managed_instance_by_group, first,
}
use nstance.Reconciler.{
  GroupConfig, ReconcileError, World, Env, older_than, instances_by_group, oldest_managed,
}
use nstance.Reconciler.Create.Size.{Lawful, Sized, Roomy}
use nstance.Reconciler.Drain.Size.{replace_and_drain-Sized}
use nstance.Reconciler.Expiry.{
  expire_instance, expire_found, find_instance, expire_first, check_group_expiry, check_forced,
  check_eligible, draining_count, first_in_group, check_on_demand_expiry, schedule_group_expiry,
  cancel_group_expiry_timer, set_timer,
}

set_timer-table :
    (env : Env) (tenant group : String) (i : Option Instance) (w : World)
    → (set_timer env tenant group i w).table ≡ w.table
unfolding set_timer cancel_group_expiry_timer
set_timer-table env tenant group none w = refl
set_timer-table env tenant group (some i) w = refl

pub schedule_group_expiry-table :
    (env : Env) (tenant group : String) (w : World)
    → (schedule_group_expiry env tenant group w).table ≡ w.table
unfolding schedule_group_expiry
schedule_group_expiry-table env tenant group w =
    elim (Bool-cases
      ((nat_eq env.eligible_age 0 && nat_eq env.forced_age 0) || env.faulty oldest_managed)) [
        | inl h ↦ rw h refl
        | inr h ↦ rw h (
            set_timer-table env tenant group
              (get_oldest_managed_instance_by_group tenant group w.table) w)
      ]

module _ (env : Env) (lawful : Lawful env) (cap : String → String → ℕ) (roomy : Roomy env cap) where
  expire_found-Sized :
      (id : String) (i : Instance) (g : Result ReconcileError GroupConfig) (w : World)
      → env.get_group i.tenant i.group ≡ g
      → Sized cap w
      → Sized cap (expire_found env id i g w)
  unfolding expire_found
  expire_found-Sized id i (err e) w q s = s
  expire_found-Sized id i (ok g) w q s =
      replace_and_drain-Sized env lawful cap roomy id i.tenant i.group g false w q s

  pub expire-Sized : (id : String) (w : World) → Sized cap w → Sized cap (expire_instance env id w)
  unfolding expire_instance
  expire-Sized id w s = elim (Option-cases (find_instance env id w)) [
    | inl h ↦ rw (h, expire_instance) s
    | inr (i, h) ↦
        rw (h, expire_instance) (expire_found-Sized id i (env.get_group i.tenant i.group) w refl s)
  ]

  expire_first-Sized :
      (i : Option Instance) (otherwise w : World)
      → Sized cap otherwise
      → Sized cap w
      → Sized cap (expire_first env i otherwise w)
  unfolding expire_first
  expire_first-Sized none otherwise w o s = o
  expire_first-Sized (some i) otherwise w o s = expire-Sized i.id w s

  check_eligible-Sized :
      (tenant group : String) (draining : ℕ) (w : World)
      → Sized cap w
      → Sized cap (check_eligible env tenant group draining w)
  unfolding check_eligible
  check_eligible-Sized tenant group draining w s =
      elim (Bool-cases (nat_eq draining 0 && ltb 0 env.eligible_age)) [
        | inr h ↦ rw h s
        | inl h ↦ elim (Bool-cases (env.faulty older_than)) [
          | inl f ↦ rw (h, f) s
          | inr f ↦
              rw (h, f)
                (expire_first-Sized
                  (first_in_group tenant group
                    (get_instances_older_than env.now env.eligible_age false w.table))
                  w w s s)
        ]
      ]

  check_forced-Sized :
      (tenant group : String) (draining : ℕ) (w : World)
      → Sized cap w
      → Sized cap (check_forced env tenant group draining w)
  unfolding check_forced
  check_forced-Sized tenant group draining w s = elim (Bool-cases (ltb 0 env.forced_age)) [
    | inr h ↦ rw h (check_eligible-Sized tenant group draining w s)
    | inl h ↦ elim (Bool-cases (env.faulty older_than)) [
      | inl f ↦ rw (h, f) s
      | inr f ↦
          let old =
            first_in_group tenant group
              (get_instances_older_than env.now env.forced_age false w.table) in
          let rest = check_eligible env tenant group draining w in
          rw h (
            subst (λ b. Sized cap (if b then w else expire_first env old rest w)) (sym f)
              (expire_first-Sized old rest w (check_eligible-Sized tenant group draining w s) s))
    ]
  ]

  pub check_group_expiry-Sized :
      (tenant group : String) (w : World)
      → Sized cap w
      → Sized cap (check_group_expiry env tenant group w)
  unfolding check_group_expiry
  check_group_expiry-Sized tenant group w s =
      elim (Bool-cases
        ((nat_eq env.eligible_age 0 && nat_eq env.forced_age 0) || env.faulty instances_by_group)) [
          | inl h ↦ rw h s
          | inr h ↦ rw h (
              check_forced-Sized tenant group
                (draining_count env w (get_instances_by_group tenant group true w.table)) w s)
        ]

  pub check_on_demand_expiry-Sized :
      (w : World) → Sized cap w → Sized cap (check_on_demand_expiry env w)
  unfolding check_on_demand_expiry
  check_on_demand_expiry-Sized w s =
      elim (Bool-cases (nat_eq env.ondemand_age 0 || env.faulty older_than)) [
        | inl h ↦ rw h s
        | inr h ↦ rw h (
            expire_first-Sized
              (first (get_instances_older_than env.now env.ondemand_age true w.table)) w w s s)
      ]
