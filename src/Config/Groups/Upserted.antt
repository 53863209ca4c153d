-- ===== src/Config/Groups/Upserted.antt =====
-- What an upsert makes of the dynamic entry, and of the effective group.
use nstance.Base.{
  ℕ, String, ◌≡◌, ◌≢◌, refl, sym, ap, subst, ◌∙◌, Bool, true, false, ◌==◌, not, ◌&&◌, Option, none,
  some, Result, ok, err, if◌then◌else◌, is_some, arith, if_cases,
}
use nstance.Base.Dict.{Dict, get}
use nstance.Config.{
  GroupConfig, Config, ConfigError, TemplateConfig, template_not_found, template_without_pool,
}
use nstance.Config.Subnets.{validate_dynamic_subnet_key}
use nstance.Config.Groups.{
  is_empty, put_all, or_text, or_size, override, merge_group_config, check_static, check_new,
  checked, placed, upserted,
}
use nstance.Config.Groups.Merged.{new_size, or_old, get-put_all, effective}

new_text : (old new : String) → (new == "") ≡ false → or_text old new ≡ new
new_text old new h = ground (arith, h)

new_var :
    {V : Type 0} (old new : Dict V) (k : String) (v : V)
    → get new k ≡ some v
    → get (put_all old new) k ≡ some v
unfolding or_old
new_var old new k v h = get-put_all old new k ∙ ap (or_old (get old k)) h

module _ {Value : Type 0} where
  -- An update that differs in its subnet pool at most, and there only where it gives none.
  pub record SameUpdate (u v : GroupConfig Value) : Type 0 where
    pub size : v.size ≡ u.size
    pub instance_type : v.instance_type ≡ u.instance_type
    pub vars : v.vars ≡ u.vars
    pub template : v.template ≡ u.template
    pub args : v.args ≡ u.args
    pub subnet_pool : (u.subnet_pool == "") ≡ false → v.subnet_pool ≡ u.subnet_pool

  -- A check that succeeds leaves the update as it is but for its subnet pool.
  Passes : GroupConfig Value → Result ConfigError (GroupConfig Value) → Type 0
  Passes u (ok v) = SameUpdate u v
  Passes u (err e) = Unit

  same : (u : GroupConfig Value) → Passes u (ok u)
  unfolding Passes
  same u = record {
    size = refl;
    instance_type = refl;
    vars = refl;
    template = refl;
    args = refl;
    subnet_pool = λ h. refl;
  }

  check_static-Passes : (s u : GroupConfig Value) → Passes u (check_static s u)
  unfolding check_static Passes
  check_static-Passes s u =
      if_cases (Passes u) (not (u.template == "") && not (u.template == s.template)) _ _ (λ _. tt)
        λ _.
          if_cases (Passes u) (not (u.subnet_pool == "")) _ _ (λ _. tt)
            λ _.
              if_cases (Passes u) (not (is_empty u.args)) _ _ (λ _. tt)
                λ _. if_cases (Passes u) (is_some u.drain_timeout) _ _ (λ _. tt) λ _. same u

  check_new-Passes : (c : Config Value) (u : GroupConfig Value) → Passes u (check_new c u)
  unfolding check_new Passes
  check_new-Passes c u =
      if_cases (Passes u) (u.template == "") _ _ (λ _. tt)
        λ _.
          if_cases (Passes u) (not (u.subnet_pool == "")) _ _ (λ _. same u)
            λ missing. of_template missing (get c.templates u.template)
    where
      of_template :
          not (u.subnet_pool == "") ≡ false
          → (o : Option TemplateConfig)
          → Passes u (elim o [
            | none ↦ err (template_not_found u.template)
            | some t ↦
                if t.subnet_pool == ""
                then err (template_without_pool u.template)
                else ok (record u { subnet_pool = t.subnet_pool })
          ])
      of_template missing none = tt
      of_template missing (some t) =
          if_cases (Passes u) (t.subnet_pool == "") _ _ (λ _. tt)
            (λ _. record {
              size = refl;
              instance_type = refl;
              vars = refl;
              template = refl;
              args = refl;
              subnet_pool = λ given. ground (arith, given, missing);
            })

  checked-Passes :
      (c : Config Value) (o : Option (GroupConfig Value)) (exists : Bool) (u : GroupConfig Value)
      → Passes u (checked c o exists u)
  unfolding checked
  checked-Passes c (some s) exists u = check_static-Passes s u
  checked-Passes c none true u = same u
  checked-Passes c none false u = check_new-Passes c u

  -- An upsert that succeeds merges the update, but for its subnet pool, into the existing entry.
  pub record MergedFrom (u existing : GroupConfig Value) (is_static : Bool) (g : GroupConfig Value)
      : Type 0 where
    pub update : GroupConfig Value
    pub same_update : SameUpdate u update
    pub merged : g ≡ merge_group_config existing update is_static

  unfoldable pub Merges :
      GroupConfig Value → GroupConfig Value → Bool → Result ConfigError (GroupConfig Value) → Type 0
  Merges u existing is_static (ok g) = MergedFrom u existing is_static g
  Merges u existing is_static (err e) = Unit

  placed-Merges :
      (c : Config Value) (is_static : Bool) (u existing : GroupConfig Value)
      (r : Result ConfigError (GroupConfig Value))
      → Passes u r
      → Merges u existing is_static (placed c is_static existing r)
  unfolding placed Merges Passes
  placed-Merges c is_static u existing (err e) p = tt
  placed-Merges c true u existing (ok v) p = record { update = v; same_update = p; merged = refl }
  placed-Merges c false u existing (ok v) p = of_check (validate_dynamic_subnet_key c v.subnet_pool)
    where
      of_check :
          (r : Result ConfigError (Unit {0}))
          → Merges u existing false
              (elim r [ err e ↦ err e | ok _ ↦ ok (merge_group_config existing v false) ])
      of_check (err e) = tt
      of_check (ok _) = record { update = v; same_update = p; merged = refl }

  pub upserted-Merges :
      (c : Config Value) (static : Option (GroupConfig Value)) (u existing : GroupConfig Value)
      (exists : Bool)
      → Merges u existing (is_some static) (upserted c static u existing exists)
  unfolding upserted
  upserted-Merges c static u existing exists =
      placed-Merges c (is_some static) u existing (checked c static exists u)
        (checked-Passes c static exists u)

  -- What an effective group has of an update: the size, the instance type and the variables that the update
  -- gives, and of a group that is not static also the template, the subnet pool and the arguments; and all
  -- else of a static group.
  pub record Effect (static : Option (GroupConfig Value)) (u g : GroupConfig Value) : Type 0 where
    pub size : (n : ℕ) → u.size ≡ some n → g.size ≡ some n
    pub instance_type : (u.instance_type == "") ≡ false → g.instance_type ≡ u.instance_type
    pub vars : (k v : String) → get u.vars k ≡ some v → get g.vars k ≡ some v
    pub template : static ≡ none → (u.template == "") ≡ false → g.template ≡ u.template
    pub subnet_pool : static ≡ none → (u.subnet_pool == "") ≡ false → g.subnet_pool ≡ u.subnet_pool
    pub args :
        static ≡ none → (k : String) (v : Value) → get u.args k ≡ some v → get g.args k ≡ some v
    pub template_kept : (s : GroupConfig Value) → static ≡ some s → g.template ≡ s.template
    pub subnet_pool_kept : (s : GroupConfig Value) → static ≡ some s → g.subnet_pool ≡ s.subnet_pool
    pub args_kept : (s : GroupConfig Value) → static ≡ some s → g.args ≡ s.args
    pub drain_timeout_kept :
        (s : GroupConfig Value) → static ≡ some s → g.drain_timeout ≡ s.drain_timeout
    pub load_balancers_kept :
        (s : GroupConfig Value) → static ≡ some s → g.load_balancers ≡ s.load_balancers

  some_ne_none : (s : GroupConfig Value) → ◌≢◌ {A = Option (GroupConfig Value)} none (some s)
  some_ne_none s h = cc h

  some_inj :
      {s t : GroupConfig Value} → ◌≡◌ {A = Option (GroupConfig Value)} (some s) (some t) → s ≡ t
  some_inj h = cc

  merged-Effect :
      (u existing v : GroupConfig Value)
      → SameUpdate u v
      → Effect none u (merge_group_config existing v false)
  unfolding merge_group_config
  merged-Effect u existing v p = record {
    size = λ n h. new_size existing.size v.size n (p.size ∙ h);
    instance_type = λ h.
        new_text existing.instance_type v.instance_type (ap (λ t. t == "") p.instance_type ∙ h)
        ∙ p.instance_type;
    vars = λ k x h. new_var existing.vars v.vars k x (ap (λ m. get m k) p.vars ∙ h);
    template = λ n h.
        new_text existing.template v.template (ap (λ t. t == "") p.template ∙ h) ∙ p.template;
    subnet_pool = λ n h.
        new_text existing.subnet_pool v.subnet_pool (ap (λ t. t == "") (p.subnet_pool h) ∙ h)
        ∙ p.subnet_pool h;
    args = λ n k x h. new_var existing.args v.args k x (ap (λ m. get m k) p.args ∙ h);
    template_kept = λ s h. elim (some_ne_none s h) [ ];
    subnet_pool_kept = λ s h. elim (some_ne_none s h) [ ];
    args_kept = λ s h. elim (some_ne_none s h) [ ];
    drain_timeout_kept = λ s h. elim (some_ne_none s h) [ ];
    load_balancers_kept = λ s h. elim (some_ne_none s h) [ ];
  }

  override-Effect :
      (s u existing v : GroupConfig Value)
      → SameUpdate u v
      → Effect (some s) u (override s (merge_group_config existing v true))
  unfolding merge_group_config override
  override-Effect s u existing v p = record {
    size = λ n h.
        new_size s.size (or_size existing.size v.size) n
          (new_size existing.size v.size n (p.size ∙ h));
    instance_type = λ h.
        let given = ap (λ t. t == "") p.instance_type ∙ h in
        let entry = new_text existing.instance_type v.instance_type given in
        new_text s.instance_type (or_text existing.instance_type v.instance_type)
          (ap (λ t. t == "") (entry ∙ p.instance_type) ∙ h)
        ∙ entry
        ∙ p.instance_type;
    vars = λ k x h.
        new_var s.vars (put_all existing.vars v.vars) k x
          (new_var existing.vars v.vars k x (ap (λ m. get m k) p.vars ∙ h));
    template = λ n. absurd (some_ne_none s (sym n));
    subnet_pool = λ n. absurd (some_ne_none s (sym n));
    args = λ n. absurd (some_ne_none s (sym n));
    template_kept = λ t h. ap (λ g. g.template) (some_inj h);
    subnet_pool_kept = λ t h. ap (λ g. g.subnet_pool) (some_inj h);
    args_kept = λ t h. ap (λ g. g.args) (some_inj h);
    drain_timeout_kept = λ t h. ap (λ g. g.drain_timeout) (some_inj h);
    load_balancers_kept = λ t h. ap (λ g. g.load_balancers) (some_inj h);
  }

  -- The effective group after an upsert.
  pub effective-Effect :
      (static : Option (GroupConfig Value)) (u existing g : GroupConfig Value)
      → MergedFrom u existing (is_some static) g
      → (e : GroupConfig Value) × (effective static (some g) ≡ some e) × Effect static u e
  unfolding effective
  effective-Effect none u existing g m = (
    g,
    refl,
    subst (Effect none u) (sym m.merged) (merged-Effect u existing m.update m.same_update),
  )
  effective-Effect (some s) u existing g m = (
    override s g,
    refl,
    subst (λ x. Effect (some s) u (override s x)) (sym m.merged)
        (override-Effect s u existing m.update m.same_update),
  )
