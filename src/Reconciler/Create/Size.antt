-- ===== src/Reconciler/Create/Size.antt =====
-- No group grows past its size by more than the padding for a replacement, whatever is created.
use nstance.Base.{
  ℕ, suc, ◌+◌, ◌≤◌, String, ◌≡◌, refl, sym, subst, ap, ◌<◌, ◌⊎◌, Bool, true, false, ◌&&◌, [], ◌∷◌,
  some, ok, inl, inr, arith, ◌==◌, Bool-cases, is_none,
}
use nstance.LocalDb.{Instance, Table}
use nstance.LocalDb.Rows.{
  get_instance_count_by_group, select, update_row, in_group, mark_drain_started, drain_started,
  mark_drain_acked, drain_acked,
}
use nstance.Reconciler.{GroupConfig, CreateInstanceRequest, World, Env}
use nstance.Reconciler.Create.{
  create_instance_for_group, delete_instance, get_size, managed_count, max_size, request_for,
}
use nstance.Reconciler.Create.Cases.{create_cases, delete_cases}

-- What the reconciler relies on: the instance manager adds at most one managed instance, to the group
-- that it was asked for, whether it succeeds or fails, and a deletion adds none either way.
pub record Lawful (env : Env) : Type 0 where
  pub create_adds_one :
      (r : CreateInstanceRequest) (t : Table) (tenant group : String)
      → (get_instance_count_by_group tenant group true (env.create r t).1
          ≤ get_instance_count_by_group tenant group true t)
        ⊎ ((tenant ≡ r.tenant)
            × (group ≡ r.group)
            × (get_instance_count_by_group tenant group true (env.create r t).1
                ≤ suc (get_instance_count_by_group tenant group true t)))
  pub delete_adds_none :
      (owner id : String) (t : Table) (tenant group : String)
      → get_instance_count_by_group tenant group true (env.delete owner id t).1
        ≤ get_instance_count_by_group tenant group true t

-- No group has more managed instances alive than its cap.
abbrev pub Sized : (String → String → ℕ) → World → Type 0
Sized cap w = (tenant group : String) → managed_count tenant group w ≤ cap tenant group

-- The cap leaves room for one instance beyond the size of each group.
abbrev pub Roomy : Env → (String → String → ℕ) → Type 0
Roomy env cap =
    (tenant group : String) (g : GroupConfig)
    → env.get_group tenant group ≡ ok g
    → get_size g + 1 ≤ cap tenant group

below : (g : GroupConfig) (n : ℕ) (over : Bool) → n < max_size g over → n < get_size g + 1
below g n true room = room
below g n false room = ground arith

module _ (env : Env) (lawful : Lawful env) (cap : String → String → ℕ) (roomy : Roomy env cap) where
  -- The table that the instance manager leaves, from a group with room for one more.
  added :
      (tenant group : String) (g : GroupConfig) (w : World)
      → env.get_group tenant group ≡ ok g
      → Sized cap w
      → managed_count tenant group w < get_size g + 1
      → (t : Table) → (env.create (request_for tenant group g) w.table).1 ≡ t
      → Sized cap (record w { table = t })
  added tenant group g w known s room t e = λ tn gr. ground (
    arith,
    e,
    lawful.create_adds_one (request_for tenant group g) w.table tn gr,
    s tn gr,
    roomy tenant group g known,
  )

  pub removed :
      (tenant id : String) (w : World)
      → Sized cap w
      → (t : Table) → (env.delete tenant id w.table).1 ≡ t
      → Sized cap (record w { table = t })
  removed tenant id w s t e =
      λ tn gr. ground (arith, e, lawful.delete_adds_none tenant id w.table tn gr, s tn gr)

  pub create-Sized :
      (tenant group : String) (g : GroupConfig) (over : Bool) (w : World)
      → env.get_group tenant group ≡ ok g
      → Sized cap w
      → Sized cap (create_instance_for_group env tenant group g over w).1
  create-Sized tenant group g over w known s = elim (create_cases env tenant group g over w) [
    | inl (e, why, q) ↦ subst (λ x. Sized cap x.1) (sym q) s
    | inr (room, a, b, inl (e, t, made, q)) ↦
        subst (λ x. Sized cap x.1) (sym q)
          (added tenant group g w known s (below g (managed_count tenant group w) over room) t
            (ap (λ x. x.1) made))
    | inr (room, a, b, inr (id, t, made, q)) ↦
        subst (λ x. Sized cap x.1) (sym q)
          (added tenant group g w known s (below g (managed_count tenant group w) over room) t
            (ap (λ x. x.1) made))
  ]

  pub delete-Sized :
      (tenant id : String) (w : World) → Sized cap w → Sized cap (delete_instance env tenant id w)
  delete-Sized tenant id w s = elim (delete_cases env tenant id w) [
    | inl (t, made, q) ↦ subst (Sized cap) (sym q) (removed tenant id w s t (ap (λ x. x.1) made))
    | inr (e, t, made, inl q) ↦
        subst (Sized cap) (sym q) (removed tenant id w s t (ap (λ x. x.1) made))
    | inr (e, t, made, inr (i, found, q)) ↦
        subst (Sized cap) (sym q) (removed tenant id w s t (ap (λ x. x.1) made))
  ]

-- Changes of a row that the counts do not see.
pub count-update_row :
    (tenant group id : String) (f : Instance → Instance) (t : Table)
    → ((i : Instance) → in_group tenant group true (f i) ≡ in_group tenant group true i)
    → get_instance_count_by_group tenant group true (update_row id f t)
      ≡ get_instance_count_by_group tenant group true t
unfolding get_instance_count_by_group select update_row
count-update_row tenant group id f [] same = refl
count-update_row tenant group id f (i ∷ t) same =
    elim (Bool-cases (i.id == id && is_none i.deleted_at)) [
      | inl e ↦ ground (arith, e, same i, count-update_row tenant group id f t same)
      | inr e ↦ ground (arith, e, count-update_row tenant group id f t same)
    ]

pub count-mark_drain_started :
    (tenant group id : String) (now : ℕ) (t t' : Table)
    → mark_drain_started now id t ≡ some t'
    → get_instance_count_by_group tenant group true t'
      ≡ get_instance_count_by_group tenant group true t
unfolding mark_drain_started
count-mark_drain_started tenant group id now t t' h =
    ground (arith, count-update_row tenant group id (drain_started now) t (λ i. refl))

pub count-mark_drain_acked :
    (tenant group id : String) (now : ℕ) (t t' : Table)
    → mark_drain_acked now id t ≡ some t'
    → get_instance_count_by_group tenant group true t'
      ≡ get_instance_count_by_group tenant group true t
unfolding mark_drain_acked
count-mark_drain_acked tenant group id now t t' h =
    ground (arith, count-update_row tenant group id (drain_acked now) t (λ i. refl))
