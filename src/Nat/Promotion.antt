-- ===== src/Nat/Promotion.antt =====
-- `Promote`: the hand-over of a public address from an assignment to its replacement.
use nstance.Base.{
  ℕ, String, ◌≡◌, refl, subst, ◌≢◌, ◌⊎◌, true, false, some, ok, ◌==◌, inl, inr, arith, eq_iff,
  Option-cases, Bool-cases,
}
use nstance.Base.Dict.{get, put, get-put_cases, get-put_ne, get-put_self}
use nstance.Nat.{Assignment, Assignments}
use nstance.Nat.Changes.{promote, retired, promoted}
use nstance.Nat.Owners.{OneOwner}

abbrev after : ℕ → Assignments → Assignment → Assignment → Assignments
after now m r p = put (put m p.instance_id (retired p)) r.instance_id (promoted r now)

module _ (id : String) (now : ℕ) (m : Assignments) (v : OneOwner m) (r p : Assignment)
    (found : get m id ≡ some r) (pending : r.replaces ≢ "")
    (previous : get m r.replaces ≡ some p) where
  -- An entry after the promotion is the promoted one, the retired one, or one of before.
  after_cases :
      (k : String) (a : Assignment)
      → get (after now m r p) k ≡ some a
      → ((k ≡ id) × (a ≡ promoted r now))
        ⊎ ((k ≡ r.replaces) × (k ≢ id) × (a ≡ retired p))
        ⊎ ((k ≢ r.replaces) × (k ≢ id) × (get m k ≡ some a))
  after_cases k a h = ground (
    arith,
    get-put_cases (put m p.instance_id (retired p)) r.instance_id (promoted r now) k a h,
    get-put_cases m p.instance_id (retired p) k a,
    v.keyed id r found,
    v.keyed r.replaces p previous,
  )

  after-OneOwner : OneOwner (after now m r p)
  after-OneOwner = record {
    keyed = λ k a h.
        ground (
          arith,
          after_cases k a h,
          v.keyed k a,
          v.keyed id r found,
          v.keyed r.replaces p previous,
        );
    linked = λ k a q h ne g. ground (
      arith,
      after_cases k a h,
      after_cases a.replaces q g,
      v.linked id r p found pending previous,
      v.linked k a q,
      v.linked k a r,
      v.linked k a p,
      v.single id k r a found,
    );
    single = λ k j a b h g ne e. ground (
      arith,
      after_cases k a h,
      after_cases j b g,
      v.linked id r p found pending previous,
      v.single k j a b,
    );
    exclusive = λ k j a b ip h g oa ob ha hb. ground (
      arith,
      after_cases k a h,
      after_cases j b g,
      v.linked id r p found pending previous,
      v.exclusive k j a b ip,
      v.exclusive r.replaces j p b ip previous,
      v.exclusive k r.replaces a p ip,
    );
  }

  promote-after : promote id now m ≡ ok (after now m r p, tt)
  unfolding promote
  promote-after = ground (arith, eq_iff r.replaces "")

  after-promoted : get (after now m r p) id ≡ some (promoted r now)
  after-promoted = ground (
    arith,
    v.keyed id r found,
    get-put_self (put m p.instance_id (retired p)) r.instance_id (promoted r now),
  )

  after-retired : get (after now m r p) r.replaces ≡ some (retired p)
  after-retired = ground (
    arith,
    v.keyed id r found,
    v.keyed r.replaces p previous,
    v.linked id r p found pending previous,
    get-put_ne (put m p.instance_id (retired p)) r.instance_id (promoted r now) r.replaces,
    get-put_self m p.instance_id (retired p),
  )

  after-others : (k : String) → k ≢ id → k ≢ r.replaces → get (after now m r p) k ≡ get m k
  after-others k ne nr = ground (
    arith,
    v.keyed id r found,
    v.keyed r.replaces p previous,
    get-put_ne (put m p.instance_id (retired p)) r.instance_id (promoted r now) k,
    get-put_ne m p.instance_id (retired p) k,
  )

-- An assignment after the promotion that put it in charge.
abbrev pub InCharge : Assignment → Assignment → Assignment → ℕ → Type 0
InCharge old new predecessor now =
    (new.replaces ≡ "")
    × (new.routed ≡ true)
    × (new.public_address ≡ predecessor.public_address)
    × (new.last_scale_at ≡ some now)
    × (record new {
      replaces = old.replaces;
      routed = old.routed;
      last_scale_at = old.last_scale_at;
    }
        ≡ old)

-- An assignment after the promotion of its replacement.
abbrev pub Retired : Assignment → Assignment → Type 0
Retired old new =
    (new.retiring ≡ true)
    × (new.routed ≡ false)
    × (record new { retiring = old.retiring; routed = old.routed } ≡ old)

-- A successful promotion was of a pending replacement whose predecessor is assigned still. After it the
-- replacement has no predecessor any more, is routed, has the address of its predecessor and the given time
-- as that of its last scaling; the predecessor is retiring and not routed; nothing else of the two and no
-- other assignment has changed, and there is still one owner for each address.
pub promote-hands_over :
    (id : String) (now : ℕ) (m n : Assignments)
    → OneOwner m
    → promote id now m ≡ ok (n, tt)
    → (r : Assignment) × (p : Assignment) × (r' : Assignment) × (p' : Assignment) × (get m id
        ≡ some r)
      × (r.replaces ≢ "")
      × (get m r.replaces ≡ some p)
      × (get n id ≡ some r')
      × InCharge r r' p now
      × (get n r.replaces ≡ some p')
      × Retired p p'
      × ((k : String) → k ≢ id → k ≢ r.replaces → get n k ≡ get m k)
      × OneOwner n
unfolding promote
promote-hands_over id now m n v h = elim (Option-cases (get m id)) [
  | inl e ↦ ground (arith, e)
  | inr (r, found) ↦ elim (Bool-cases (r.replaces == "")) [
    | inl e ↦ ground (arith, found, e)
    | inr e ↦ elim (Option-cases (get m r.replaces)) [
      | inl gone ↦ ground (arith, found, e, gone)
      | inr (p, previous) ↦
          let pending : r.replaces ≢ "" = ground (arith, eq_iff r.replaces "") in
          let link = v.linked id r p found pending previous in
          let same : after now m r p ≡ n = ground (arith, found, e, previous) in
          (
            r,
            p,
            promoted r now,
            retired p,
            found,
            pending,
            previous,
            subst (λ l. get l id ≡ some (promoted r now)) same
                (after-promoted id now m v r p found pending previous),
            (refl, refl, link.0, refl, refl),
            subst (λ l. get l r.replaces ≡ some (retired p)) same
                (after-retired id now m v r p found pending previous),
            (refl, refl, refl),
            subst (λ l. (k : String) → k ≢ id → k ≢ r.replaces → get l k ≡ get m k) same
                (after-others id now m v r p found pending previous),
            subst OneOwner same (after-OneOwner id now m v r p found pending previous),
          )
    ]
  ]
]
