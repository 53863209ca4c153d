-- ===== src/Reconciler/Expiry/Timers.antt =====
-- When the expiry timer of a group fires.
use nstance.Base.{ℕ, ◌+◌, ◌<◌, ◌≡◌, ◌⊎◌, arith, if◌then◌else◌, ltb}
use nstance.Reconciler.{Env}
use nstance.Reconciler.Expiry.{next_expiry, padded, expiry_timer_padding}

-- When the timer for an instance fires, if it is set now.
abbrev pub fires_at : Env → ℕ → ℕ
fires_at env created_at = env.now + padded (next_expiry env created_at)

abbrev earlier_of : ℕ → ℕ → ℕ
earlier_of a b = if ltb a b then a else b

abbrev later_of : ℕ → ℕ → ℕ
later_of a b = if ltb a b then b else a

-- A timer is never early: when it fires, the instance for which it was set is past one of the ages that are
-- configured, where at least one is.
pub timer_is_never_early :
    (env : Env) (created_at : ℕ)
    → (0 < env.eligible_age) ⊎ (0 < env.forced_age)
    → ((0 < env.eligible_age) × (created_at + env.eligible_age < fires_at env created_at))
      ⊎ ((0 < env.forced_age) × (created_at + env.forced_age < fires_at env created_at))
timer_is_never_early env created_at set = ground arith

-- Where both ages are configured and the instance does not become eligible at this very nanosecond, the
-- timer fires a second after the sooner of the two, or after now if that has passed.
pub timer_is_punctual :
    (env : Env) (created_at : ℕ)
    → 0 < env.eligible_age
    → 0 < env.forced_age
    → ((created_at + env.eligible_age < env.now) ⊎ (env.now < created_at + env.eligible_age))
    → fires_at env created_at
      ≡ later_of env.now (earlier_of (created_at + env.eligible_age) (created_at + env.forced_age))
        + expiry_timer_padding
timer_is_punctual env created_at e f due = ground arith

-- An instance that becomes eligible at this very nanosecond gets a timer for its forced age instead, where
-- one is configured that is greater than the eligible age: a remaining time of zero is taken for an age that is not configured.
pub timer_is_late_when_due_now :
    (env : Env) (created_at : ℕ)
    → 0 < env.eligible_age
    → env.eligible_age < env.forced_age
    → created_at + env.eligible_age ≡ env.now
    → fires_at env created_at ≡ created_at + env.forced_age + expiry_timer_padding
timer_is_late_when_due_now env created_at e f due = ground arith
