-- ===== src/Reconciler/Scaling/Converge.antt =====
-- Scaling reaches the size that is wanted.
use nstance.Base.{
  ℕ, zero, suc, ◌+◌, ◌-◌, ◌≤◌, ◌<◌, String, ◌≡◌, refl, sym, ap, ◌∙◌, true, false, none, some, ok,
  err, inl, inr, arith, Bool-cases, ltb, leb, List, [], ◌∷◌, length,
}
use nstance.LocalDb.{Table}
use nstance.LocalDb.Rows.{get_instances_by_group, get_instance_count_by_group, ids}
use nstance.Reconciler.{
  GroupConfig, instance_count_by_group, World, Env, logged, notified, deleted, error_notified,
  created,
}
use nstance.Reconciler.Create.{create_instance_for_group, managed_count, request_for, get_size}
use nstance.Reconciler.Scaling.{
  stop_scaling, scale_up, scale_down_from, scale_down, joined, scale_group, desired_count,
}

-- A provider that does what it is asked in one group: a creation adds one managed instance to it, and the
-- deletion of its oldest one leaves the others. The tenant does not fall asleep while the rate limit waits.
pub record Willing (env : Env) (tenant group : String) (g : GroupConfig) : Type 0 where
  pub creates :
      (t : Table)
      → (id : String) × (t' : Table) × (env.create (request_for tenant group g) t ≡ (ok id, t'))
        × (get_instance_count_by_group tenant group true t'
            ≡ suc (get_instance_count_by_group tenant group true t))
  pub deletes :
      (t : Table) (id : String) (rest : List String)
      → get_instances_by_group tenant group true t ≡ id ∷ rest
      → (t' : Table) × (env.delete tenant id t ≡ (none, t'))
        × (get_instances_by_group tenant group true t' ≡ rest)
  pub counts : env.faulty instance_count_by_group ≡ false
  pub stays_awake : env.asleep_after_wait tenant ≡ env.asleep tenant

length-ids : (t : Table) → length (ids t) ≡ length t
unfolding ids
length-ids [] = refl
length-ids (i ∷ t) = ap suc (length-ids t)

unfoldable pub drop : ℕ → List String → List String
drop zero xs = xs
drop (suc n) [] = []
drop (suc n) (x ∷ xs) = drop n xs

length-drop : (n : ℕ) (xs : List String) → length (drop n xs) ≡ length xs - n
unfolding drop
length-drop zero xs = ground arith
length-drop (suc n) [] = ground arith
length-drop (suc n) (x ∷ xs) = ground (arith, length-drop n xs)

count-length :
    (tenant group : String) (t : Table)
    → get_instance_count_by_group tenant group true t
      ≡ length (get_instances_by_group tenant group true t)
unfolding get_instance_count_by_group get_instances_by_group
count-length tenant group t = sym (length-ids _)

module _ (env : Env) (tenant group : String) (g : GroupConfig)
    (willing : Willing env tenant group g) where
  creates_below :
      (w : World)
      → env.asleep tenant ≡ false
      → managed_count tenant group w < get_size g
      → (id : String) × (w' : World) × (create_instance_for_group env tenant group g false w
          ≡ (ok id, w'))
        × (managed_count tenant group w' ≡ suc (managed_count tenant group w))
  unfolding create_instance_for_group
  creates_below w awake room =
      let (id, t, made, more) = willing.creates w.table in
      let wait : env.asleep_after_wait tenant ≡ false = willing.stays_awake ∙ awake in
      let below : leb (get_size g) (managed_count tenant group w) ≡ false = ground arith in
      (
        id,
        logged (created (request_for tenant group g) id)
            (record w { table = t; last_create_time = env.now }),
        simp (awake, willing.counts, below, wait, made),
        more,
      )

  scale_up_next :
      (count : ℕ) (w w' : World) (id : String)
      → create_instance_for_group env tenant group g false w ≡ (ok id, w')
      → scale_up env tenant group g (suc count) w ≡ scale_up env tenant group g count w'
  unfolding scale_up
  scale_up_next count w w' id q =
      ap
        (λ x. elim x.0 [
          | ok id' ↦ scale_up env tenant group g count x.1
          | err e ↦ stop_scaling env tenant group e x.1
        ])
        q

  room_for :
      (w : World) (count : ℕ)
      → managed_count tenant group w + suc count ≤ get_size g
      → managed_count tenant group w < get_size g
  room_for w count h = ground arith

  room_after :
      (w w' : World) (count : ℕ)
      → managed_count tenant group w + suc count ≤ get_size g
      → managed_count tenant group w' ≡ suc (managed_count tenant group w)
      → managed_count tenant group w' + count ≤ get_size g
  room_after w w' count h more = ground arith

  total_after :
      (w w' : World) (count : ℕ)
      → managed_count tenant group w' ≡ suc (managed_count tenant group w)
      → managed_count tenant group w' + count ≡ managed_count tenant group w + suc count
  total_after w w' count more = ground arith

  pub scale_up-reaches :
      (count : ℕ) (w : World)
      → env.asleep tenant ≡ false
      → managed_count tenant group w + count ≤ get_size g
      → ((scale_up env tenant group g count w).0 ≡ ok tt)
        × (managed_count tenant group (scale_up env tenant group g count w).1
            ≡ managed_count tenant group w + count)
  unfolding scale_up
  scale_up-reaches zero w awake room = (refl, ground arith)
  scale_up-reaches (suc count) w awake room =
      let (id, w', q, more) = creates_below w awake (room_for w count room) in
      let (done, total) = scale_up-reaches count w' awake (room_after w w' count room more) in
      let next = scale_up_next count w w' id q in
      (
        ap (λ x. x.0) next ∙ done,
        ap (λ x. managed_count tenant group x.1) next ∙ total ∙ total_after w w' count more,
      )

  scale_down_next :
      (id : String) (rest : List String) (count : ℕ) (w : World) (t : Table)
      → env.delete tenant id w.table ≡ (none, t)
      → scale_down env tenant group (id ∷ rest) (suc count) w
        ≡ scale_down env tenant group rest count
            (logged (deleted tenant id) (record w { table = t }))
  unfolding scale_down scale_down_from
  scale_down_next id rest count w t made =
      ap
        (λ x. joined (elim x.0 [
          | none ↦
              scale_down_from env tenant group rest count 0
                (logged (deleted tenant id) (record w { table = x.1 }))
          | some e ↦
              scale_down_from env tenant group rest count 1
                (notified env (error_notified tenant group id) (record w { table = x.1 }))
        ]))
        made

  -- Where the provider does what it is asked to, scaling down deletes the oldest instances of the group
  -- and leaves exactly the others, in their order, without an error.
  pub scale_down-drops_oldest :
      (current : List String) (count : ℕ) (w : World)
      → get_instances_by_group tenant group true w.table ≡ current
      → ((scale_down env tenant group current count w).0 ≡ ok tt)
        × (get_instances_by_group tenant group true
              (scale_down env tenant group current count w).1.table
            ≡ drop count current)
  unfolding scale_down scale_down_from drop
  scale_down-drops_oldest [] zero w q = (refl, q)
  scale_down-drops_oldest [] (suc count) w q = (refl, q)
  scale_down-drops_oldest (id ∷ rest) zero w q = (refl, q)
  scale_down-drops_oldest (id ∷ rest) (suc count) w q =
      let (t, made, left) = willing.deletes w.table id rest q in
      let (done, kept) =
        scale_down-drops_oldest rest count (logged (deleted tenant id) (record w { table = t }))
          left in
      let next = scale_down_next id rest count w t made in
      (
        ap (λ x. x.0) next ∙ done,
        ap (λ x. get_instances_by_group tenant group true x.1.table) next ∙ kept,
      )

  awake_below :
      (w : World)
      → ltb (length (get_instances_by_group tenant group true w.table)) (desired_count env tenant g)
        ≡ true
      → env.asleep tenant ≡ false
  awake_below w h = ground arith

  room_below :
      (w : World)
      → ltb (length (get_instances_by_group tenant group true w.table)) (desired_count env tenant g)
        ≡ true
      → managed_count tenant group w
          + (desired_count env tenant g - length (get_instances_by_group tenant group true w.table))
        ≤ get_size g
  room_below w h = ground (arith, count-length tenant group w.table)

  -- Where the provider does what it is asked to, a group is brought to the count that is wanted, up or down:
  -- the size of its configuration, or none while its tenant sleeps. There is no error.
  pub scale_group-converges :
      (w : World)
      → ((scale_group env tenant group g (get_instances_by_group tenant group true w.table) w).0
          ≡ ok tt)
        × (managed_count tenant group
              (scale_group env tenant group g
                (get_instances_by_group tenant group true w.table)
                w).1
            ≡ desired_count env tenant g)
  unfolding scale_group
  scale_group-converges w =
      let current = get_instances_by_group tenant group true w.table in
      let desired = desired_count env tenant g in
      let have = count-length tenant group w.table in
      elim (Bool-cases (ltb (length current) desired)) [
        | inl h ↦
            let (done, total) =
              scale_up-reaches (desired - length current) w (awake_below w h) (room_below w h) in
            (rw h done, rw h (total ∙ ground (arith, have)))
        | inr h ↦ elim (Bool-cases (ltb desired (length current))) [
          | inl d ↦
              let (done, kept) =
                scale_down-drops_oldest current (length current - desired) w refl in
              (
                rw (h, d) done,
                rw (h, d)
                    (count-length tenant group _
                      ∙ ap length kept
                      ∙ length-drop (length current - desired) current
                      ∙ ground arith),
              )
          | inr d ↦ (rw (h, d) refl, rw (h, d) (ground (arith, have)))
        ]
      ]
