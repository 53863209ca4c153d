-- ===== src/Reconciler/Create/Cases.antt =====
-- What the creation and the deletion of an instance do to the world.
use nstance.Base.{
  ℕ, ◌<◌, ◌≤◌, String, ◌≡◌, refl, ap, ◌⊎◌, Bool, true, false, none, some, ok, err, inl, inr, arith,
  Bool-cases, Result-cases, Option-cases, leb,
}
use nstance.LocalDb.{Instance, Table}
use nstance.LocalDb.Rows.{get_instance}
use nstance.Reconciler.{
  tenant_asleep, database, group_full, instance_failure, instance_count_by_group, instance_row,
  GroupConfig, ReconcileError, created, deleted, error_notified, World, Env, logged,
}
use nstance.Reconciler.Create.{
  create_instance_for_group, delete_instance, max_size, managed_count, request_for,
}

leb-false : {a b : ℕ} → leb a b ≡ false → b < a
leb-false {a} {b} h = ground arith

-- Why a creation is refused before the instance manager is asked: the tenant sleeps, at the start or after
-- the wait of the rate limit, the instances cannot be counted, or the group has its greatest size.
abbrev pub Refused : Env → String → String → GroupConfig → Bool → World → Type 0
Refused env tenant group g over w =
    (env.asleep tenant ≡ true)
    ⊎ ((env.faulty instance_count_by_group ≡ true)
        ⊎ ((max_size g over ≤ managed_count tenant group w)
            ⊎ (env.asleep_after_wait tenant ≡ true)))

pub create_cases :
    (env : Env) (tenant group : String) (g : GroupConfig) (over : Bool) (w : World)
    → ((e : ReconcileError) × Refused env tenant group g over w
        × (create_instance_for_group env tenant group g over w ≡ (err e, w)))
      ⊎ ((managed_count tenant group w < max_size g over)
          × (env.asleep tenant ≡ false)
          × (env.asleep_after_wait tenant ≡ false)
          × (((e : ℕ) × (t : Table) × (env.create (request_for tenant group g) w.table ≡ (err e, t))
                × (create_instance_for_group env tenant group g over w
                    ≡ (err (instance_failure e), record w { table = t })))
              ⊎ ((id : String) × (t : Table) × (env.create (request_for tenant group g) w.table
                    ≡ (ok id, t))
                  × (create_instance_for_group env tenant group g over w ≡ (
                    ok id,
                    logged
                        (created (request_for tenant group g) id)
                        (record w { table = t; last_create_time = env.now }),
                  )))))
unfolding create_instance_for_group
create_cases env tenant group g over w = elim (Bool-cases (env.asleep tenant)) [
  | inl a ↦ inl (tenant_asleep, inl a, ground (arith, a))
  | inr a ↦ elim (Bool-cases (env.faulty instance_count_by_group)) [
    | inl f ↦ inl (database, inr (inl f), ground (arith, a, f))
    | inr f ↦ elim (Bool-cases (leb (max_size g over) (managed_count tenant group w))) [
      | inl c ↦ inl (
        group_full (managed_count tenant group w) (max_size g over),
        inr (inr (inl (ground (arith, c)))),
        ground (arith, a, f, c),
      )
      | inr c ↦ elim (Bool-cases (env.asleep_after_wait tenant)) [
        | inl b ↦ inl (tenant_asleep, inr (inr (inr b)), ground (arith, a, f, c, b))
        | inr b ↦
            let answer = env.create (request_for tenant group g) w.table in
            elim (Result-cases answer.0) [
              | inr (e, q) ↦
                  let made : answer ≡ (err e, answer.1) = ap (λ x. (x, answer.1)) q in
                  inr (
                    leb-false c,
                    a,
                    b,
                    inl (e, answer.1, made, rw (a, f, c, b, q, create_instance_for_group) refl),
                  )
              | inl (id, q) ↦
                  let made : answer ≡ (ok id, answer.1) = ap (λ x. (x, answer.1)) q in
                  inr (
                    leb-false c,
                    a,
                    b,
                    inr (id, answer.1, made, rw (a, f, c, b, q, create_instance_for_group) refl),
                  )
            ]
      ]
    ]
  ]
]

pub delete_cases :
    (env : Env) (tenant id : String) (w : World)
    → ((t : Table) × (env.delete tenant id w.table ≡ (none, t))
        × (delete_instance env tenant id w ≡ logged (deleted tenant id) (record w { table = t })))
      ⊎ ((e : ℕ) × (t : Table) × (env.delete tenant id w.table ≡ (some e, t))
          × ((delete_instance env tenant id w ≡ record w { table = t })
              ⊎ ((i : Instance) × (get_instance id t ≡ some i)
                  × (delete_instance env tenant id w
                      ≡ logged (error_notified i.tenant i.group id) (record w { table = t })))))
unfolding delete_instance
delete_cases env tenant id w =
    let answer = env.delete tenant id w.table in
    elim (Option-cases answer.0) [
      | inl q ↦ inl (answer.1, ap (λ x. (x, answer.1)) q, ground (arith, q))
      | inr (e, q) ↦
          let made : answer ≡ (some e, answer.1) = ap (λ x. (x, answer.1)) q in
          inr (
            e,
            answer.1,
            made,
            elim (Option-cases (get_instance id answer.1)) [
              | inl n ↦ inl (ground (arith, q, n))
              | inr (i, n) ↦ elim (Bool-cases (env.faulty (instance_row id))) [
                | inl f ↦ inl (ground (arith, q, n, f))
                | inr f ↦ elim (Bool-cases env.notifies) [
                  | inr v ↦ inl (ground (arith, q, n, f, v))
                  | inl v ↦ inr (i, n, ground (arith, q, n, f, v))
                ]
              ]
            ],
          )
    ]
