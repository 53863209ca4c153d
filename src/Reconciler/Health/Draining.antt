-- ===== src/Reconciler/Health/Draining.antt =====
-- The checks of an instance that drains.
use mathlib.Core.Bool.{true≢false}
use nstance.Base.{
  ℕ, ◌+◌, ◌≤◌, String, ◌≡◌, ◌≢◌, ◌⊎◌, refl, sym, ap, ◌∙◌, Bool, true, false, ◌||◌, Option, none,
  some, ok, inl, inr, arith, eq_iff, ◌==◌, Bool-cases, Option-cases, if◌then◌else◌, leb, is_some,
}
use nstance.LocalDb.{Instance, Status, pending, running, unknown, is_unhealthy}
use nstance.Reconciler.{
  ReconcileEvent, GroupConfig, World, Env, ProviderAnswer, status, instance_not_found, failed,
}
use nstance.Reconciler.Create.{delete_instance}
use nstance.Reconciler.Drain.{drain_timeout_of}
use nstance.Reconciler.Expiry.{find_instance}
use nstance.Reconciler.Health.{
  handle_check_instance, check_found, complete_drain, handle_drain_completion, is_gone,
  provider_says_gone,
}

-- The reasons for which a draining instance is deleted: the operator acknowledged, its time is up, or the
-- provider says that it is gone.
abbrev pub may_delete : Env → Instance → ℕ → ℕ → Bool
may_delete env i started timeout =
    is_some i.drain_acked_at || leb (started + timeout) env.now || provider_says_gone env i

handle_drain_completion_lem :
    (env : Env) (i : Instance) (started timeout : ℕ) (w : World)
    → handle_drain_completion env i started timeout w
      ≡ (if may_delete env i started timeout then delete_instance env i.tenant i.id w else w)
unfolding handle_drain_completion
handle_drain_completion_lem env i started timeout w = elim (Option-cases i.drain_acked_at) [
  | inr (at, q) ↦ rw (q, handle_drain_completion) refl
  | inl q ↦ elim (Bool-cases (leb (started + timeout) env.now)) [
    | inl h ↦ rw (q, h, handle_drain_completion) refl
    | inr h ↦ elim (Bool-cases (provider_says_gone env i)) [
      | inl p ↦ rw (q, h, p, handle_drain_completion) refl
      | inr p ↦ rw (q, h, p, handle_drain_completion) refl
    ]
  ]
]

-- The provider was asked about the instance by its ID there, and answered that there is none, or with a
-- status that is not pending, running or unknown.
abbrev pub ProviderGone : Env → Instance → Type 0
ProviderGone env i =
    (p : String) × (i.provider_id ≡ some p)
    × (p ≢ "")
    × ((env.provider_status i.id p ≡ instance_not_found)
        ⊎ ((s : Status) × (env.provider_status i.id p ≡ status s)
            × (s ≢ pending)
            × (s ≢ running)
            × (s ≢ unknown)))

-- The operator has acknowledged, the time is up, or the instance is gone.
abbrev pub Done : Env → Instance → ℕ → ℕ → Type 0
Done env i started timeout =
    ((at : ℕ) × (i.drain_acked_at ≡ some at)) ⊎ ((started + timeout ≤ env.now) ⊎ ProviderGone env i)

unhealthy_status :
    (s : Status) → is_unhealthy s ≡ true → (s ≢ pending) × (s ≢ running) × (s ≢ unknown)
unfolding is_unhealthy
unhealthy_status s h = (
  λ e. true≢false (sym h ∙ ap is_unhealthy e),
  λ e. true≢false (sym h ∙ ap is_unhealthy e),
  λ e. true≢false (sym h ∙ ap is_unhealthy e),
)

healthy_status :
    (s : Status) → is_unhealthy s ≡ false → (s ≡ pending) ⊎ ((s ≡ running) ⊎ (s ≡ unknown))
unfolding is_unhealthy
healthy_status pending h = inl refl
healthy_status running h = inr (inl refl)
healthy_status unknown h = inr (inr refl)
healthy_status _ h = absurd (true≢false h)

-- The answers that mean it, and those that do not.
is_gone_means :
    (a : ProviderAnswer)
    → is_gone a ≡ true
    → (a ≡ instance_not_found)
      ⊎ ((s : Status) × (a ≡ status s) × (s ≢ pending) × (s ≢ running) × (s ≢ unknown))
is_gone_means instance_not_found h = inl refl
is_gone_means (status s) h = (let (p, r, u) = unhealthy_status s h in inr (s, refl, p, r, u))
is_gone_means (failed e) h = absurd (true≢false (sym h))

is_gone_not :
    (a : ProviderAnswer)
    → is_gone a ≡ false
    → (a ≡ instance_not_found)
      ⊎ ((s : Status) × (a ≡ status s) × (s ≢ pending) × (s ≢ running) × (s ≢ unknown))
    → ⊥
is_gone_not a h (inl e) = true≢false (ap is_gone (sym e) ∙ h)
is_gone_not a h (inr (s, e, p, r, u)) = elim (healthy_status s (ap is_gone (sym e) ∙ h)) [
  | inl x ↦ p x
  | inr (inl x) ↦ r x
  | inr (inr x) ↦ u x
]

-- What the provider says of an ID that the row may have.
says_gone : Env → Instance → Option String → Bool
says_gone env i o =
    let known : Option String = elim o [
      | none ↦ none
      | some p ↦ if p == "" then none else some p
    ] in
    elim known [ none ↦ false | some p ↦ is_gone (env.provider_status i.id p) ]

gone_means :
    (env : Env) (i : Instance) (o : Option String)
    → i.provider_id ≡ o
    → says_gone env i o ≡ true
    → ProviderGone env i
unfolding says_gone
gone_means env i none n h = absurd (true≢false (sym h))
gone_means env i (some p) n h = elim (Bool-cases (p == "")) [
  | inl b ↦ absurd (ground (arith, h, b))
  | inr b ↦ (
    p,
    n,
    λ e. true≢false (sym ((eq_iff p "").1 e) ∙ b),
    is_gone_means (env.provider_status i.id p) (ground (arith, h, b)),
  )
]

gone_not :
    (env : Env) (i : Instance) (p : String) (o : Option String)
    → o ≡ some p
    → says_gone env i o ≡ false
    → p ≢ ""
    → (env.provider_status i.id p ≡ instance_not_found)
      ⊎ ((s : Status) × (env.provider_status i.id p ≡ status s)
          × (s ≢ pending)
          × (s ≢ running)
          × (s ≢ unknown))
    → ⊥
unfolding says_gone
gone_not env i p o n h named answer = elim (Bool-cases (p == "")) [
  | inl b ↦ named ((eq_iff p "").0 b)
  | inr b ↦ is_gone_not (env.provider_status i.id p) (ground (arith, h, n, b)) answer
]

may_delete-Done :
    (env : Env) (i : Instance) (started timeout : ℕ)
    → ((may_delete env i started timeout ≡ true) × Done env i started timeout)
      ⊎ ((may_delete env i started timeout ≡ false) × (Done env i started timeout → ⊥))
unfolding says_gone
may_delete-Done env i started timeout = elim (Option-cases i.drain_acked_at) [
  | inr (at, q) ↦ inl (rw q refl, inl (at, q))
  | inl q ↦ elim (Bool-cases (leb (started + timeout) env.now)) [
    | inl l ↦ inl (rw (q, l) refl, inr (inl (ground (arith, l))))
    | inr l ↦ elim (Bool-cases (provider_says_gone env i)) [
      | inl g ↦ inl (rw (q, l) g, inr (inr (gone_means env i i.provider_id refl g)))
      | inr g ↦ inr (
        rw (q, l) g,
        λ d. elim d [
          | inl (at, e) ↦ ground (arith, q, e)
          | inr (inl le) ↦ ground (arith, l, le)
          | inr (inr (p, n, named, answer)) ↦ gone_not env i p i.provider_id n g named answer
        ],
      )
    ]
  ]
]

-- The check of an instance that drains, in a group that is known, deletes it exactly if the operator has
-- acknowledged the drain, the drain timeout has passed since its start, or the provider, asked about the
-- instance by a provider ID that is not empty, answers that there is no such instance or reports any status
-- but pending, running and unknown; in every other case the check changes nothing at all.
pub check-drains_exactly :
    (env : Env) (e : ReconcileEvent) (w : World) (i : Instance) (started : ℕ) (g : GroupConfig)
    → find_instance env e.instance_id w ≡ some i
    → i.drain_started_at ≡ some started
    → env.get_group i.tenant i.group ≡ ok g
    → (Done env i started (drain_timeout_of env g)
        × (handle_check_instance env e w ≡ delete_instance env i.tenant i.id w))
      ⊎ ((Done env i started (drain_timeout_of env g) → ⊥) × (handle_check_instance env e w ≡ w))
unfolding handle_check_instance check_found complete_drain handle_drain_completion
check-drains_exactly env e w i started g found draining known =
    let decided : handle_check_instance env e w ≡ (
        if may_delete env i started (drain_timeout_of env g)
        then delete_instance env i.tenant i.id w
        else w) =
      rw (found, draining, known, handle_check_instance)
        (handle_drain_completion_lem env i started (drain_timeout_of env g) w) in
    elim (may_delete-Done env i started (drain_timeout_of env g)) [
      | inl (m, d) ↦
          inl (d, decided ∙ ap (λ b. if b then delete_instance env i.tenant i.id w else w) m)
      | inr (m, n) ↦
          inr (n, decided ∙ ap (λ b. if b then delete_instance env i.tenant i.id w else w) m)
    ]
