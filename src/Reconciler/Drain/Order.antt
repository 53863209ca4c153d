-- ===== src/Reconciler/Drain/Order.antt =====
-- A replacement is made before the old instance is retired.
use nstance.Base.{
  ℕ, ◌+◌, String, ◌≡◌, refl, ◌⊎◌, Bool, true, false, not, ◌||◌, Option, none, some, inl, inr, err,
  arith, Bool-cases, nat_eq, List, [], ◌∷◌, ◌++◌,
}
use nstance.LocalDb.{Table}
use nstance.LocalDb.Rows.{mark_drain_started}
use nstance.Reconciler.{
  GroupConfig, ReconcileEvent, World, Env, start_drain, Action, created, deleted, drain_notified,
  error_notified, logged,
}
use nstance.Reconciler.Create.{request_for}
use nstance.Reconciler.Create.Cases.{Refused, create_cases, delete_cases}
use nstance.Reconciler.Retry.{schedule_event}
use nstance.Reconciler.Drain.{
  replace_and_drain, initiate_instance_drain, retire_old, create_then_retire,
  replace_unless_handled, replace_nat_instance, is_nat_group, drain_timeout_of, start_draining,
}

-- What retiring an instance may add to the log: its deletion or the notice that it failed, where there
-- is nothing to wait for, and the notice of its drain otherwise.
abbrev pub Retirement : Env → String → String → String → ℕ → Bool → List Action → Type 0
Retirement env id tenant group timeout skip later =
    (((skip || nat_eq timeout 0) ≡ true)
      × ((later ≡ [])
          ⊎ ((later ≡ deleted tenant id ∷ [])
              ⊎ ((a b : String) × (later ≡ error_notified a b id ∷ [])))))
    ⊎ (((skip || nat_eq timeout 0) ≡ false)
        × ((later ≡ []) ⊎ (later ≡ drain_notified id group env.now (env.now + timeout) ∷ [])))

schedule_event-log :
    (delay : ℕ) (e : ReconcileEvent) (w : World) → (schedule_event delay e w).log ≡ w.log
unfolding schedule_event
schedule_event-log delay e w = elim (Bool-cases (not w.started || w.cancelled)) [
  | inl h ↦ ground (arith, h)
  | inr h ↦ ground (arith, h)
]

start_draining-log :
    (env : Env) (id group : String) (timeout : ℕ) (w : World) (t : Option Table)
    → ((start_draining env id group timeout w t).1.log ≡ w.log)
      ⊎ ((start_draining env id group timeout w t).1.log
          ≡ drain_notified id group env.now (env.now + timeout) ∷ w.log)
unfolding start_draining
start_draining-log env id group timeout w none = inl refl
start_draining-log env id group timeout w (some t) = inr refl

initiate-log :
    (env : Env) (id group : String) (timeout : ℕ) (w : World)
    → ((initiate_instance_drain env id group timeout false w).1.log ≡ w.log)
      ⊎ ((initiate_instance_drain env id group timeout false w).1.log
          ≡ drain_notified id group env.now (env.now + timeout) ∷ w.log)
unfolding initiate_instance_drain
initiate-log env id group timeout w = elim (Bool-cases (env.faulty (start_drain id))) [
  | inl h ↦ rw h (inl refl)
  | inr h ↦ rw h (start_draining-log env id group timeout w (mark_drain_started env.now id w.table))
]

retire-log :
    (env : Env) (id tenant group : String) (timeout : ℕ) (skip : Bool) (w : World)
    → (later : List Action) × ((retire_old env id tenant group timeout skip w).log ≡ later ++ w.log)
      × Retirement env id tenant group timeout skip later
retire-log env id tenant group timeout skip w = elim (Bool-cases (skip || nat_eq timeout 0)) [
  | inl h ↦ elim (delete_cases env tenant id w) [
    | inl (t, made, q) ↦ (deleted tenant id ∷ [], rw (h, q) refl, inl (h, inr (inl refl)))
    | inr (e, t, made, inl q) ↦ ([], rw (h, q) refl, inl (h, inl refl))
    | inr (e, t, made, inr (i, found, q)) ↦ (
      error_notified i.tenant i.group id ∷ [],
      rw (h, q) refl,
      inl (h, inr (inr (i.tenant, i.group, refl))),
    )
  ]
  | inr h ↦ elim (initiate-log env id group timeout w) [
    | inl q ↦ ([], rw (h, schedule_event-log, q) refl, inr (h, inl refl))
    | inr q ↦ (
      drain_notified id group env.now (env.now + timeout) ∷ [],
      rw (h, schedule_event-log, q) refl,
      inr (h, inr refl),
    )
  ]
]

-- In a group that the NAT manager does not own, an instance is replaced before it is retired. Where the
-- creation of the replacement is refused, nothing happens at all; where the instance manager fails to make
-- it, the table becomes what the manager left and nothing else happens: nothing is deleted, drained, told or
-- planned. Else the log gets the creation of an instance for the group first, and after it at most one
-- entry, which for an instance that has to drain is never its deletion.
pub replace_and_drain-creates_first :
    (env : Env) (id tenant group : String) (g : GroupConfig) (skip : Bool) (w : World)
    → is_nat_group env tenant group ≡ false
    → ((replace_and_drain env id tenant group g skip w ≡ w) × Refused env tenant group g true w)
      ⊎ (((e : ℕ) × (t : Table) × (env.create (request_for tenant group g) w.table ≡ (err e, t))
            × (replace_and_drain env id tenant group g skip w ≡ record w { table = t }))
          ⊎ ((new_id : String) × (later : List Action) × ((replace_and_drain env id tenant group g
                  skip w).log
                ≡ later ++ created (request_for tenant group g) new_id ∷ w.log)
              × Retirement env id tenant group (drain_timeout_of env g) skip later))
unfolding replace_and_drain replace_nat_instance replace_unless_handled create_then_retire
replace_and_drain-creates_first env id tenant group g skip w outside =
    elim (create_cases env tenant group g true w) [
      | inl (e, why, q) ↦ inl (rw (outside, q) refl, why)
      | inr (room, a, b, inl (e, t, made, q)) ↦ inr (inl (e, t, made, rw (outside, q) refl))
      | inr (room, a, b, inr (new_id, t, made, q)) ↦
          let (later, e, r) = retire-log env id tenant group (drain_timeout_of env g) skip (
            logged (created (request_for tenant group g) new_id)
              (record w { table = t; last_create_time = env.now })) in
          inr (inr (new_id, later, rw (outside, q) e, r))
    ]
