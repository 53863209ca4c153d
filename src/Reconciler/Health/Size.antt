-- ===== src/Reconciler/Health/Size.antt =====
-- The check of an instance keeps every group within its cap, if the instance counts already.
use nstance.Base.{
  ℕ, ◌+◌, ◌≤◌, String, ◌≡◌, refl, sym, subst, Bool, true, false, ◌&&◌, Option, none, some, Result,
  ok, err, [], ◌∷◌, inl, inr, arith, Bool-cases, Option-cases, if_both, leb, is_none, ◌==◌, All,
  eq_iff,
}
use nstance.LocalDb.{Instance, Status, Table, is_unhealthy, deleted}
use nstance.LocalDb.Rows.{
  get_instance, is_present, get_instance_count_by_group, select, update_row, provider_state_set,
  update_instance_provider_state,
}
use nstance.Reconciler.{
  ReconcileEvent, ReconcileError, GroupConfig, Cause, unspecified, disconnect, ProviderAnswer,
  status, instance_not_found, failed, instance_row, update_provider_state, World, Env, notified,
  error_notified,
}
use nstance.Reconciler.Create.Size.{Lawful, Sized, Roomy, delete-Sized}
use nstance.Reconciler.Drain.{drain_timeout_of}
use nstance.Reconciler.Drain.Size.{replace_and_drain-Sized, same_table-Sized, schedule_event-table}
use nstance.Reconciler.Scaling.Size.{notified-Sized}
use nstance.Reconciler.Expiry.{find_instance}
use nstance.Reconciler.Retry.{schedule_event, backoff_delay}
use nstance.Reconciler.Health.{
  handle_check_instance, check_found, check_provider, act_on, follow_up_if, follow_up,
  schedule_disconnect_follow_up, has_reconnected, has_missed_reports, provider_id_of,
  disconnect_follow_up_policy, handle_drain_completion, complete_drain, replace_known,
  replace_instance, record_state, provider_says_gone,
}

-- The live rows with the ID are in a state that counts.
abbrev pub Present : String → Table → Type 0
Present id = All (λ (j : Instance).
    (j.id == id && is_none j.deleted_at) ≡ true → is_present j.provider_state ≡ true)

count-state_set :
    (tenant group id : String) (s : Status) (t : Table)
    → Present id t
    → get_instance_count_by_group tenant group true (update_row id (provider_state_set s) t)
      ≤ get_instance_count_by_group tenant group true t
unfolding get_instance_count_by_group select update_row
count-state_set tenant group id s [] p = ground arith
count-state_set tenant group id s (i ∷ t) p =
    elim (Bool-cases (i.id == id && is_none i.deleted_at)) [
      | inr e ↦ ground (arith, e, count-state_set tenant group id s t p.1)
      | inl e ↦ ground (arith, e, p.0 e, count-state_set tenant group id s t p.1)
    ]

get_instance-id : (id : String) (t : Table) (i : Instance) → get_instance id t ≡ some i → i.id ≡ id
unfolding get_instance
get_instance-id id [] i h = ground (arith, h)
get_instance-id id (j ∷ t) i h = elim (Bool-cases (j.id == id && is_none j.deleted_at)) [
  | inl e ↦ ground (arith, e, simp e at h, eq_iff j.id id)
  | inr e ↦ get_instance-id id t i (simp e at h)
]

find_instance-id :
    (env : Env) (id : String) (w : World) (i : Instance)
    → find_instance env id w ≡ some i
    → i.id ≡ id
find_instance-id env id w i h = elim (Bool-cases (env.faulty (instance_row id))) [
  | inl f ↦ ground (arith, f, h)
  | inr f ↦ get_instance-id id w.table i (simp f at h)
]

module _ (env : Env) (lawful : Lawful env) (cap : String → String → ℕ) (roomy : Roomy env cap) where
  record_state-Sized :
      (s : Status) (id : String) (w : World)
      → Present id w.table
      → Sized cap w
      → Sized cap (record_state env s id w)
  unfolding update_instance_provider_state
  record_state-Sized s id w p z = elim (Bool-cases (env.faulty update_provider_state)) [
    | inl f ↦ rw f z
    | inr f ↦ elim (Option-cases (update_instance_provider_state s id w.table)) [
      | inl n ↦ rw (f, n) z
      | inr (t, n) ↦
          rw (f, n) (λ tn gr. ground (arith, count-state_set tn gr id s w.table p, z tn gr, n))
    ]
  ]

  completion-Sized :
      (i : Instance) (started timeout : ℕ) (w : World)
      → Sized cap w
      → Sized cap (handle_drain_completion env i started timeout w)
  unfolding handle_drain_completion
  completion-Sized i started timeout w z =
      let gone = delete-Sized env lawful cap roomy i.tenant i.id w z in
      elim (Option-cases i.drain_acked_at) [
        | inr (at, n) ↦ rw (n, handle_drain_completion) gone
        | inl n ↦
            rw (n, handle_drain_completion)
              (if_both (Sized cap) (leb (started + timeout) env.now) gone
                (if_both (Sized cap) (provider_says_gone env i) gone z))
      ]

  complete_drain-Sized :
      (i : Instance) (started : ℕ) (g : Result ReconcileError GroupConfig) (w : World)
      → Sized cap w
      → Sized cap (complete_drain env i started g w)
  unfolding complete_drain
  complete_drain-Sized i started (err e) w z = z
  complete_drain-Sized i started (ok g) w z =
      completion-Sized i started (drain_timeout_of env g) w z

  replace_known-Sized :
      (i : Instance) (drain : Option ℕ) (skip : Bool) (g : Result ReconcileError GroupConfig)
      (w : World)
      → env.get_group i.tenant i.group ≡ g
      → Sized cap w
      → Sized cap (replace_known env i drain skip g w)
  unfolding replace_known
  replace_known-Sized i (some started) skip g w q z = complete_drain-Sized i started g w z
  replace_known-Sized i none skip (err e) w q z = z
  replace_known-Sized i none skip (ok g) w q z =
      replace_and_drain-Sized env lawful cap roomy i.id i.tenant i.group g skip w q z

  replace_instance-Sized :
      (id : String) (skip : Bool) (w : World)
      → Sized cap w
      → Sized cap (replace_instance env id skip w)
  unfolding replace_instance
  replace_instance-Sized id skip w z = elim (Option-cases (find_instance env id w)) [
    | inl n ↦ rw (n, replace_instance) z
    | inr (i, n) ↦
        rw (n, replace_instance)
          (replace_known-Sized i i.drain_started_at skip (env.get_group i.tenant i.group) w refl z)
  ]

  schedule-Sized :
      (e : ReconcileEvent) (i : Instance) (w : World)
      → Sized cap w
      → Sized cap (schedule_disconnect_follow_up env e i w)
  unfolding schedule_disconnect_follow_up
  schedule-Sized e i w z = if_both (Sized cap) (has_reconnected i e) z (
      if_both (Sized cap) (leb disconnect_follow_up_policy.max_attempts e.attempt) z
        (planned (backoff_delay env.jitter disconnect_follow_up_policy e.attempt)))
    where
      planned :
          (o : Option ℕ)
          → Sized cap (elim o [ none ↦ w | some delay ↦ schedule_event delay (follow_up e) w ])
      planned none = z
      planned (some delay) =
          same_table-Sized cap w (schedule_event delay (follow_up e) w)
            (schedule_event-table delay (follow_up e) w) z

  follow_up_if-Sized :
      (c : Cause) (e : ReconcileEvent) (i : Instance) (w : World)
      → Sized cap w
      → Sized cap (follow_up_if env c e i w)
  unfolding follow_up_if
  follow_up_if-Sized unspecified e i w z = z
  follow_up_if-Sized disconnect e i w z = schedule-Sized e i w z

  act_on-Sized :
      (e : ReconcileEvent) (i : Instance) (a : ProviderAnswer) (w : World)
      → Present i.id w.table
      → Sized cap w
      → Sized cap (act_on env e i a w)
  unfolding act_on
  act_on-Sized e i instance_not_found w p z =
      replace_instance-Sized i.id true (record_state env deleted i.id w)
        (record_state-Sized deleted i.id w p z)
  act_on-Sized e i (failed code) w p z =
      schedule-Sized e i (notified env (error_notified i.tenant i.group i.id) w)
        (notified-Sized env cap i.tenant i.group i.id w z)
  act_on-Sized e i (status s) w p z =
      if_both (Sized cap) (is_unhealthy s)
        (replace_instance-Sized i.id true (record_state env s i.id w)
          (record_state-Sized s i.id w p z))
        (if_both (Sized cap) (has_missed_reports env i) (replace_instance-Sized i.id false w z)
          (follow_up_if-Sized e.cause e i w z))

  check_provider-Sized :
      (e : ReconcileEvent) (i : Instance) (o : Option String) (w : World)
      → Present i.id w.table
      → Sized cap w
      → Sized cap (check_provider env e i o w)
  unfolding check_provider
  check_provider-Sized e i none w p z = z
  check_provider-Sized e i (some id) w p z = act_on-Sized e i (env.provider_status i.id id) w p z

  check_found-Sized :
      (e : ReconcileEvent) (i : Instance) (drain : Option ℕ) (w : World)
      → Present i.id w.table
      → Sized cap w
      → Sized cap (check_found env e i drain w)
  unfolding check_found
  check_found-Sized e i (some started) w p z =
      complete_drain-Sized i started (env.get_group i.tenant i.group) w z
  check_found-Sized e i none w p z = check_provider-Sized e i (provider_id_of i) w p z

  pub handle_check_instance-Sized :
      (e : ReconcileEvent) (w : World)
      → Present e.instance_id w.table
      → Sized cap w
      → Sized cap (handle_check_instance env e w)
  unfolding handle_check_instance
  handle_check_instance-Sized e w p z = elim (Option-cases (find_instance env e.instance_id w)) [
    | inl n ↦ rw (n, handle_check_instance) z
    | inr (i, n) ↦
        rw (n, handle_check_instance)
          (check_found-Sized e i i.drain_started_at w
            (subst (λ id. Present id w.table) (sym (find_instance-id env e.instance_id w i n)) p) z)
  ]
