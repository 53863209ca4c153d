-- ===== src/Nat/Manager/Scaling.antt =====
-- When an observation replaces a NAT instance by one of another type.
use nstance.Base.{
  ℕ, ◌+◌, ◌≤◌, ◌<◌, String, ◌≡◌, refl, sym, subst, inl, inr, false, ◌&&◌, ◌||◌, Option, none, some,
  ◌==◌, leb, ltb, arith, Bool-cases, Option-cases, Result, ok, Result-cases, length,
}
use nstance.Base.Dict.{get, put}
use nstance.Nat.{Assignment, Assignments, AssignmentError}
use nstance.Nat.Manager.{
  Floats, Metrics, MetricSample, NatConfig, Manager, replace, index_of, get_elem?, find_scaled,
  cools, sample_of, wants_up, wants_down, on_ladder, with_assignment, compare_samples, observe,
}
use nstance.Nat.Manager.Steps.{
  index_of-get_elem?, Stepped, find_scaled-active, idle, refused, unknown, both, toward_larger_lem,
  toward_smaller_lem,
}

module _ {F : Type 0} ⦃float64 : Floats F⦄ where
  -- What makes an observation replace an instance: its assignment replaces no other and is not being
  -- deleted, its tenant has a group for NAT, its type stands on the ladder, it does not cool down, and a
  -- step of the ladder is due.
  pub record Due (nat : String → Option (NatConfig F)) (stored : Result AssignmentError Assignments)
      (id : String) (now : ℕ) (current previous : MetricSample F) (m : Manager F) (a : Assignment)
      (kind : String) : Type 0 where
    pub assignments : Assignments
    pub loaded : stored ≡ ok assignments
    pub config : NatConfig F
    pub place : ℕ
    pub found : find_scaled id assignments ≡ some a
    pub active : (a.instance_id ≡ id) × (a.replaces ≡ "") × (a.deleting ≡ false)
    pub configured : nat a.tenant ≡ some config
    pub has_group : (config.group == "") ≡ false
    pub on_the_ladder : get_elem? config.instance_type_ladder place ≡ some a.instance_type
    pub rested : cools now config.cooldown a ≡ false
    pub stepped : Stepped config id now current previous place kind m

  on_ladder_lem :
      (c : NatConfig F) (id : String) (now : ℕ) (a b : Assignment)
      (current previous : MetricSample F) (o : Option ℕ) (m : Manager F) (kind : String)
      → (on_ladder c id now a current previous o m).0 ≡ replace b kind
      → (a ≡ b)
        × (cools now c.cooldown a ≡ false)
        × ((i : ℕ) × (o ≡ some i) × Stepped c id now current previous i kind m)
  unfolding on_ladder
  on_ladder_lem c id now a b current previous none m kind h = absurd (unknown h)
  on_ladder_lem c id now a b current previous (some i) m kind h =
      elim (Bool-cases (cools now c.cooldown a)) [
        | inl r ↦ absurd (idle (simp r at h))
        | inr r ↦
            elim (Bool-cases
              (wants_up c current previous && ltb (i + 1) (length c.instance_type_ladder))) [
                | inl u ↦
                    let (same, s) =
                      toward_larger_lem c id now current previous a b i m kind (both _ _ u)
                        (simp (r, u) at h) in
                    (same, r, (i, refl, s))
                | inr u ↦
                    let (same, s) =
                      toward_smaller_lem c id now current previous a b i
                        (wants_down c current previous) m kind refl (simp (r, u) at h) in
                    (same, r, (i, refl, s))
              ]
      ]

  with_assignment_lem :
      (nat : String → Option (NatConfig F)) (assignments : Assignments) (id : String) (now : ℕ)
      (current previous : MetricSample F) (o : Option Assignment) (m : Manager F) (b : Assignment)
      (kind : String)
      → find_scaled id assignments ≡ o
      → (with_assignment nat id now current previous o m).0 ≡ replace b kind
      → Due nat (ok assignments) id now current previous m b kind
  unfolding with_assignment
  with_assignment_lem nat assignments id now current previous none m b kind found h =
      absurd (idle h)
  with_assignment_lem nat assignments id now current previous (some a) m b kind found h =
      elim (Option-cases (nat a.tenant)) [
        | inl n ↦ absurd (idle (simp (n, with_assignment) at h))
        | inr (c, n) ↦ elim (Bool-cases (a.instance_id == "" || c.group == "")) [
          | inl g ↦ absurd (idle (simp (n, g, with_assignment) at h))
          | inr g ↦
              let (same, r, (i, p, s)) =
                on_ladder_lem c id now a b current previous
                  (index_of c.instance_type_ladder a.instance_type) m kind
                  (simp (n, g, with_assignment) at h) in
              subst (λ x. Due nat (ok assignments) id now current previous m x kind) same
                (record {
                  assignments = assignments;
                  loaded = refl;
                  config = c;
                  place = i;
                  found = found;
                  active = find_scaled-active id assignments a found;
                  configured = n;
                  has_group = ground (arith, g);
                  on_the_ladder = index_of-get_elem? c.instance_type_ladder a.instance_type i p;
                  rested = r;
                  stepped = s;
                })
        ]
      ]

  compare_samples_lem :
      (nat : String → Option (NatConfig F)) (stored : Result AssignmentError Assignments)
      (id : String) (now : ℕ) (current previous : MetricSample F) (m : Manager F) (b : Assignment)
      (kind : String)
      → (compare_samples nat stored id now current (some previous) m).0 ≡ replace b kind
      → (previous.at < current.at)
        × (previous.drops ≤ current.drops)
        × Due nat stored id now current previous m b kind
  unfolding compare_samples
  compare_samples_lem nat stored id now current previous m b kind h =
      elim (Bool-cases (leb current.at previous.at || ltb current.drops previous.drops)) [
        | inl s ↦ absurd (idle (simp s at h))
        | inr s ↦ elim (Result-cases stored) [
          | inr (e, q) ↦ absurd (refused (simp (s, q, compare_samples) at h))
          | inl (assignments, q) ↦ (
            ground (arith, s),
            ground (arith, s),
            subst (λ x. Due nat x id now current previous m b kind) (sym q)
                (with_assignment_lem nat assignments id now current previous
                  (find_scaled id assignments) m b kind refl (simp (s, q, compare_samples) at h)),
          )
        ]
      ]

  same_windows :
      (nat : String → Option (NatConfig F)) (stored : Result AssignmentError Assignments)
      (id : String) (now : ℕ) (current previous : MetricSample F) (m m' : Manager F)
      (b : Assignment) (kind : String)
      → m.scale_up_since ≡ m'.scale_up_since
      → m.scale_down_since ≡ m'.scale_down_since
      → Due nat stored id now current previous m b kind
      → Due nat stored id now current previous m' b kind
  same_windows nat stored id now current previous m m' b kind up down d = record {
    assignments = d.assignments;
    loaded = d.loaded;
    config = d.config;
    place = d.place;
    found = d.found;
    active = d.active;
    configured = d.configured;
    has_group = d.has_group;
    on_the_ladder = d.on_the_ladder;
    rested = d.rested;
    stepped = ground (arith, d.stepped, up, down);
  }

  -- An observation replaces an instance by one of another type only where the report is complete, an older
  -- sample with no more drops is there, the assignment replaces no other and is not being deleted, its tenant
  -- has a NAT group and the cooldown since the last change has passed. The type becomes the next of the
  -- ladder only where the CPU, the connections or the drops per second are above their thresholds and the
  -- wish for a larger type is on record since a whole window or longer, and the one before it only where all
  -- three are at or below theirs and the wish for a smaller type is on record for the window of that direction.
  pub observe-Due :
      (nat : String → Option (NatConfig F)) (stored : Result AssignmentError Assignments)
      (id : String) (report : Metrics F) (now : ℕ) (m : Manager F) (b : Assignment) (kind : String)
      → (observe nat stored id report now m).0 ≡ replace b kind
      → (current : MetricSample F) × (previous : MetricSample F) × (sample_of report now
          ≡ some current)
        × (get m.metrics id ≡ some previous)
        × (previous.at < current.at)
        × (previous.drops ≤ current.drops)
        × Due nat stored id now current previous m b kind
  unfolding observe put compare_samples
  observe-Due nat stored id report now m b kind h = elim (Option-cases (sample_of report now)) [
    | inl n ↦ absurd (idle (simp (n, observe) at h))
    | inr (current, n) ↦
        let m' = record m { metrics = put m.metrics id current } in
        elim (Option-cases (get m.metrics id)) [
          | inl none_before ↦ absurd (idle (simp (n, none_before, observe) at h))
          | inr (previous, before) ↦
              let (sooner, fewer, due) =
                compare_samples_lem nat stored id now current previous m' b kind
                  (simp (n, before, observe) at h) in
              (
                current,
                previous,
                n,
                before,
                sooner,
                fewer,
                same_windows nat stored id now current previous m' m b kind refl refl due,
              )
        ]
  ]
