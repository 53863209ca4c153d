-- ===== src/Config/Groups/Merged.antt =====
-- The merged view, group by group.
use nstance.Base.{
  ℕ, String, ◌≡◌, ◌≢◌, refl, sym, subst, ap, ◌∙◌, Option, none, some, [], ◌∷◌, if◌then◌else◌, ◌==◌,
  arith, eq_iff, Option-cases, Bool-cases, inl, inr,
}
use nstance.Base.Dict.{Dict, get, get-put}
use nstance.Config.{GroupConfig}
use nstance.Config.Groups.{put_all, or_size, override, apply_overrides, merge_groups}

-- What a key holds after a loop of assignments: the assigned value, or what it held before.
unfoldable pub or_old : {V : Type 0} → Option V → Option V → Option V
or_old old none = old
or_old old (some v) = some v

pub new_size : (old new : Option ℕ) (n : ℕ) → new ≡ some n → or_size old new ≡ some n
new_size old none n h = cc h
new_size old (some m) n h = h

module _ {V : Type 0} where
  or_old-put :
      (k j : String) (v : V) (x y : Option V)
      → (if k == j then some v else or_old x y) ≡ or_old x (if k == j then some v else y)
  unfolding or_old
  or_old-put k j v x y = ground arith

  pub get-put_all :
      (into m : Dict V) (k : String) → get (put_all into m) k ≡ or_old (get into k) (get m k)
  unfolding put_all get or_old
  get-put_all into [] k = refl
  get-put_all into ((j, v) ∷ m) k =
      get-put (put_all into m) j v k
      ∙ ap (λ x. if j == k then some v else x) (get-put_all into m k)
      ∙ or_old-put j k v (get into k) (get m k)

module _ {Value : Type 0} where
  -- The effective group by its static and its dynamic entry.
  unfoldable pub effective :
      Option (GroupConfig Value) → Option (GroupConfig Value) → Option (GroupConfig Value)
  effective s none = s
  effective none (some d) = some d
  effective (some s) (some d) = some (override s d)

  get-apply_overrides :
      (static dynamic merged : Dict (GroupConfig Value)) (k : String)
      → get (apply_overrides static dynamic merged) k
        ≡ elim (get dynamic k) [ none ↦ get merged k | some d ↦ effective (get static k) (some d) ]
  unfolding apply_overrides get effective
  get-apply_overrides static [] merged k = refl
  get-apply_overrides static ((j, d) ∷ dynamic) merged k = elim (Bool-cases (j == k)) [
    | inl e ↦ elim (Option-cases (get static k)) [
      | inl n ↦ ground (
        arith,
        e,
        n,
        eq_iff j k,
        get-put (apply_overrides static dynamic merged) j
            (elim (get static j) [ none ↦ d | some s ↦ override s d ]) k,
      )
      | inr (s, n) ↦ ground (
        arith,
        e,
        n,
        eq_iff j k,
        get-put (apply_overrides static dynamic merged) j
            (elim (get static j) [ none ↦ d | some s ↦ override s d ]) k,
      )
    ]
    | inr e ↦ ground (
      arith,
      e,
      get-apply_overrides static dynamic merged k,
      get-put (apply_overrides static dynamic merged) j
          (elim (get static j) [ none ↦ d | some s ↦ override s d ]) k,
    )
  ]

  -- The merged view, key by key, by the override of a static group.
  pub get-merge_groups :
      (static dynamic : Dict (GroupConfig Value)) (k : String)
      → get (merge_groups static dynamic) k ≡ effective (get static k) (get dynamic k)
  unfolding merge_groups effective or_old get
  get-merge_groups static dynamic k = elim (Option-cases (get dynamic k)) [
    | inl n ↦ elim (Option-cases (get static k)) [
      | inl m ↦ ground (
        arith,
        n,
        m,
        get-apply_overrides static dynamic (put_all [] static) k,
        get-put_all [] static k,
      )
      | inr (s, m) ↦ ground (
        arith,
        n,
        m,
        get-apply_overrides static dynamic (put_all [] static) k,
        get-put_all [] static k,
      )
    ]
    | inr (d, n) ↦ ground (arith, n, get-apply_overrides static dynamic (put_all [] static) k)
  ]

  -- A static group with the overrides of its dynamic entry: size, instance type and variables are those of the
  -- entry where it gives them and the static ones where it does not, and all else is static.
  pub record Overridden (s d g : GroupConfig Value) : Type 0 where
    pub size : (n : ℕ) → d.size ≡ some n → g.size ≡ some n
    pub size_kept : d.size ≡ none → g.size ≡ s.size
    pub instance_type : d.instance_type ≢ "" → g.instance_type ≡ d.instance_type
    pub instance_type_kept : d.instance_type ≡ "" → g.instance_type ≡ s.instance_type
    pub vars : (k v : String) → get d.vars k ≡ some v → get g.vars k ≡ some v
    pub vars_kept : (k : String) → get d.vars k ≡ none → get g.vars k ≡ get s.vars k
    pub others_kept : record g { size = s.size; instance_type = s.instance_type; vars = s.vars } ≡ s

  -- What the merged view holds under a key, by what is static and what is dynamic there.
  abbrev pub MergedGroup :
      Option (GroupConfig Value) → Option (GroupConfig Value) → Option (GroupConfig Value) → Type 0
  MergedGroup static none merged = merged ≡ static
  MergedGroup none (some d) merged = merged ≡ some d
  MergedGroup (some s) (some d) merged =
      (g : GroupConfig Value) × (merged ≡ some g) × Overridden s d g

  override-Overridden : (s d : GroupConfig Value) → Overridden s d (override s d)
  unfolding override or_old
  override-Overridden s d = record {
    size = λ n h. new_size s.size d.size n h;
    size_kept = λ h. ap (or_size s.size) h;
    instance_type = λ h. ground (arith, h, eq_iff d.instance_type "");
    instance_type_kept = λ h. ground (arith, h, eq_iff d.instance_type "");
    vars = λ k v h. get-put_all s.vars d.vars k ∙ ap (or_old (get s.vars k)) h;
    vars_kept = λ k h. get-put_all s.vars d.vars k ∙ ap (or_old (get s.vars k)) h;
    others_kept = refl;
  }

  effective-MergedGroup :
      (static dynamic : Option (GroupConfig Value))
      → MergedGroup static dynamic (effective static dynamic)
  unfolding effective
  effective-MergedGroup static none = refl
  effective-MergedGroup none (some d) = refl
  effective-MergedGroup (some s) (some d) = (override s d, refl, override-Overridden s d)

  -- The merged view holds, under every key, the static group where there is no dynamic entry, the dynamic
  -- entry where there is no static group, and where there are both a group that has the size, the instance
  -- type and the variables of the entry where that gives them, and all else of the static group.
  pub merge_groups-Overridden :
      (static dynamic : Dict (GroupConfig Value)) (k : String)
      → MergedGroup (get static k) (get dynamic k) (get (merge_groups static dynamic) k)
  merge_groups-Overridden static dynamic k =
      subst (MergedGroup (get static k) (get dynamic k)) (sym (get-merge_groups static dynamic k))
        (effective-MergedGroup (get static k) (get dynamic k))
