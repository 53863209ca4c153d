-- ===== src/Nat/Manager/Steps.antt =====
-- The steps of the ladder: what asks for them, and that a replacement is one of them.
use nstance.Base.{
  ℕ, suc, ◌+◌, ◌-◌, ◌≤◌, ◌<◌, String, ◌≡◌, subst, ap, ◌∙◌, ◌⊎◌, inl, inr, Bool, true, false, ◌&&◌,
  Option, none, some, List, [], ◌∷◌, ◌==◌, leb, ltb, arith, eq_iff, Bool-cases, Option-cases,
}
use nstance.Base.Dict.{get}
use nstance.Nat.{Assignment, Assignments, AssignmentError}
use nstance.Nat.Manager.{
  Floats, MetricSample, NatConfig, Manager, nothing, unknown_type, failed, replace, index_of,
  get_elem?, find_scaled, is_scaled, wants_up, wants_down, step_to, toward_larger, toward_smaller,
}

pub index_of-get_elem? :
    (xs : List String) (x : String) (i : ℕ) → index_of xs x ≡ some i → get_elem? xs i ≡ some x
unfolding index_of get_elem?
index_of-get_elem? [] x i h = ground (arith, h)
index_of-get_elem? (y ∷ ys) x i h = elim (Bool-cases (y == x)) [
  | inl e ↦
      subst (λ j. get_elem? (y ∷ ys) j ≡ some x) (at_head (simp e at h))
        (ap some ((eq_iff y x).0 e))
  | inr e ↦ elim (Option-cases (index_of ys x)) [
    | inl n ↦ absurd (no_place (simp (e, n) at h))
    | inr (j, n) ↦
        subst (λ k. get_elem? (y ∷ ys) k ≡ some x) (at_head (simp (e, n) at h))
          (index_of-get_elem? ys x j n)
  ]
]
  where
    at_head : {a b : ℕ} → ◌≡◌ {A = Option ℕ} (some a) (some b) → a ≡ b
    at_head h = cc h

    no_place : {a : ℕ} → ◌≡◌ {A = Option ℕ} none (some a) → ⊥
    no_place h = ground (arith, h)

module _ {F : Type 0} ⦃float64 : Floats F⦄ where
  -- A measured value above its threshold for a larger type.
  abbrev pub Overloaded : NatConfig F → MetricSample F → MetricSample F → Type 0
  Overloaded c current previous =
      (float64.lt c.scale_up_thresholds.cpu_percent current.cpu ≡ true)
      ⊎ ((float64.lt c.scale_up_thresholds.conntrack_percent current.conntrack ≡ true)
          ⊎ (float64.lt c.scale_up_thresholds.packet_drops_per_second (
                float64.quotient (float64.of_nat (current.drops - previous.drops))
                  (float64.seconds (current.at - previous.at)))
              ≡ true))

  -- Every measured value at or below its threshold for a smaller type.
  abbrev pub Underloaded : NatConfig F → MetricSample F → MetricSample F → Type 0
  Underloaded c current previous =
      (float64.le current.cpu c.scale_down_thresholds.cpu_percent ≡ true)
      × (float64.le current.conntrack c.scale_down_thresholds.conntrack_percent ≡ true)
      × (float64.le
            (float64.quotient (float64.of_nat (current.drops - previous.drops))
              (float64.seconds (current.at - previous.at)))
            c.scale_down_thresholds.packet_drops_per_second
          ≡ true)

  -- The measurements ask for the step, the wish for it is on record for the window of its direction, and the
  -- type is the neighbour on that side.
  abbrev pub Stepped :
      NatConfig F → String → ℕ → MetricSample F → MetricSample F → ℕ → String → Manager F → Type 0
  Stepped c id now current previous i kind m =
      (Overloaded c current previous
        × ((since : ℕ) × (get m.scale_up_since id ≡ some since)
            × (since + c.scale_up_window ≤ now)
            × (get_elem? c.instance_type_ladder (suc i) ≡ some kind)))
      ⊎ (Underloaded c current previous
          × ((since : ℕ) × (get m.scale_down_since id ≡ some since)
              × (since + c.scale_down_window ≤ now)
              × (0 < i)
              × (get_elem? c.instance_type_ladder (i - 1) ≡ some kind)))

pub find_scaled-active :
    (id : String) (m : Assignments) (a : Assignment)
    → find_scaled id m ≡ some a
    → (a.instance_id ≡ id) × (a.replaces ≡ "") × (a.deleting ≡ false)
unfolding find_scaled
find_scaled-active id [] a h = ground (arith, h)
find_scaled-active id ((k, b) ∷ m) a h = elim (Bool-cases (is_scaled id b)) [
  | inr e ↦ find_scaled-active id m a (simp e at h)
  | inl e ↦
      subst (λ (x : Assignment). (x.instance_id ≡ id) × (x.replaces ≡ "") × (x.deleting ≡ false))
        (found (simp e at h)) (active_lem id b e)
]
  where
    found : {x y : Assignment} → ◌≡◌ {A = Option Assignment} (some x) (some y) → x ≡ y
    found h = cc h

    active_lem :
        (id : String) (b : Assignment)
        → is_scaled id b ≡ true
        → (b.instance_id ≡ id) × (b.replaces ≡ "") × (b.deleting ≡ false)
    active_lem id b e = ground (arith, e, eq_iff b.instance_id id, eq_iff b.replaces "")

pub step_to_lem :
    (a b : Assignment) (o : Option String) (kind : String)
    → step_to a o ≡ replace b kind
    → (a ≡ b) × (o ≡ some kind)
step_to_lem a b none kind h = ground (arith, h)
step_to_lem a b (some x) kind h = (cc h, cc h)

pub idle : {b : Assignment} {kind : String} → nothing ≡ replace b kind → ⊥
idle h = ground (arith, h)

pub refused : {x : AssignmentError} {b : Assignment} {kind : String} → failed x ≡ replace b kind → ⊥
refused h = ground (arith, h)

pub unknown : {x : String} {b : Assignment} {kind : String} → unknown_type x ≡ replace b kind → ⊥
unknown h = ground (arith, h)

pub both : (a b : Bool) → (a && b) ≡ true → a ≡ true
both a b h = ground (arith, h)

module _ {F : Type 0} ⦃float64 : Floats F⦄ where
  pub wants_up-Overloaded :
      (c : NatConfig F) (current previous : MetricSample F)
      → wants_up c current previous ≡ true
      → Overloaded c current previous
  wants_up-Overloaded c current previous h = ground (arith, h)

  pub wants_down-Underloaded :
      (c : NatConfig F) (current previous : MetricSample F)
      → wants_down c current previous ≡ true
      → Underloaded c current previous
  wants_down-Underloaded c current previous h =
      (ground (arith, h), ground (arith, h), ground (arith, h))

  pub toward_larger_lem :
      (c : NatConfig F) (id : String) (now : ℕ) (current previous : MetricSample F)
      (a b : Assignment) (i : ℕ) (m : Manager F) (kind : String)
      → wants_up c current previous ≡ true
      → (toward_larger c id now a i m).0 ≡ replace b kind
      → (a ≡ b) × Stepped c id now current previous i kind m
  unfolding toward_larger
  toward_larger_lem c id now current previous a b i m kind u h =
      elim (Option-cases (get m.scale_up_since id)) [
        | inl n ↦ absurd (idle (simp (n, toward_larger) at h))
        | inr (since, n) ↦ elim (Bool-cases (leb (since + c.scale_up_window) now)) [
          | inr l ↦ absurd (idle (simp (n, l, toward_larger) at h))
          | inl l ↦
              let (same, next) =
                step_to_lem a b (get_elem? c.instance_type_ladder (suc i)) kind
                  (simp (n, l, toward_larger) at h) in
              (same, inl (wants_up-Overloaded c current previous u, (since, n, ground arith, next)))
        ]
      ]

  pub toward_smaller_lem :
      (c : NatConfig F) (id : String) (now : ℕ) (current previous : MetricSample F)
      (a b : Assignment) (i : ℕ) (down : Bool) (m : Manager F) (kind : String)
      → wants_down c current previous ≡ down
      → (toward_smaller c id now a i down m).0 ≡ replace b kind
      → (a ≡ b) × Stepped c id now current previous i kind m
  unfolding toward_smaller
  toward_smaller_lem c id now current previous a b i down m kind w h =
      elim (Bool-cases (down && ltb 0 i)) [
        | inr d ↦ absurd (idle (simp d at h))
        | inl d ↦ elim (Option-cases (get m.scale_down_since id)) [
          | inl n ↦ absurd (idle (simp (d, n) at h))
          | inr (since, n) ↦ elim (Bool-cases (leb (since + c.scale_down_window) now)) [
            | inr l ↦ absurd (idle (simp (d, n, l) at h))
            | inl l ↦
                let (same, next) =
                  step_to_lem a b (get_elem? c.instance_type_ladder (i - 1)) kind
                    (simp (d, n, l) at h) in
                (
                  same,
                  inr (
                    wants_down-Underloaded c current previous (w ∙ both down (ltb 0 i) d),
                    (since, n, ground arith, ground arith, next),
                  ),
                )
          ]
        ]
      ]
