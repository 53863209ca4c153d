-- ===== src/Reconciler/Health/Healthy.antt =====
-- The checks of an instance that is well.
use nstance.Base.{ℕ, suc, ◌+◌, ◌*◌, ◌≤◌, ◌<◌, ◌≡◌, ◌⊎◌, true, false, none, some, ◌∷◌}
use nstance.LocalDb.{Instance}
use nstance.Reconciler.{
  ReconcileEvent, check_instance, unspecified, disconnect, Delayed, World, Env,
}
use nstance.Reconciler.Retry.{second}

-- The event of one more check of the same instance after a disconnect.
abbrev pub IsFollowUp : ReconcileEvent → ReconcileEvent → Type 0
IsFollowUp e f =
    (f.type ≡ check_instance)
    × (f.instance_id ≡ e.instance_id)
    × (f.timestamp ≡ e.timestamp)
    × (f.cause ≡ disconnect)
    × (f.attempt ≡ suc e.attempt)
    × (f.attempt ≤ 8)

-- What speaks against one more check: the event came from no disconnect, the agent has reported since, eight
-- checks were made, or the loop does not run.
abbrev pub NoFollowUp : ReconcileEvent → Instance → World → Type 0
NoFollowUp e i w =
    (e.cause ≡ unspecified)
    ⊎ (((at : ℕ) × (i.health_at ≡ some at) × (e.timestamp < at))
        ⊎ ((8 ≤ e.attempt) ⊎ ((w.started ≡ false) ⊎ (w.cancelled ≡ true))))

-- Nothing is done where something speaks against it; else one more check is planned for this term, from
-- three to less than thirty-eight seconds ahead where the random numbers stay below their bounds.
abbrev pub OnlyFollowsUp : Env → ReconcileEvent → Instance → World → World → Type 0
OnlyFollowsUp env e i w w' =
    ((w' ≡ w) × NoFollowUp e i w)
    ⊎ ((d : Delayed) × (w' ≡ record w { delayed = d ∷ w.delayed })
        × IsFollowUp e d.queued.event
        × (d.queued.term ≡ w.term)
        × (3 * second ≤ d.delay)
        × (((n : ℕ) → 0 < n → env.jitter n < n) → d.delay < 38 * second)
        × (e.cause ≡ disconnect)
        × (w.started ≡ true)
        × (w.cancelled ≡ false))

-- Fewer than three health reports of the agent are missing, as far as there are any to miss.
abbrev pub KeepsReporting : Env → Instance → Type 0
KeepsReporting env i =
    (i.health_at ≡ none)
    ⊎ ((env.health_check_interval ≡ 0)
        ⊎ ((at : ℕ) × (i.health_at ≡ some at) × (env.now < at + 3 * env.health_check_interval)))
