-- ===== src/Reconciler/Retry.antt =====
-- internal/server/reconciler/retry.go, and `scheduleEvent` of reconciler.go.
pub mod Bounds
use nstance.Base.{
  ℕ, suc, ◌+◌, ◌*◌, ◌/◌, ◌^◌, ◌%◌, Bool, true, false, ◌&&◌, ◌||◌, not, nat_eq, Option, none, some,
  List, ◌∷◌, leb, ltb, if◌then◌else◌,
}
use nstance.Reconciler.{
  EventType, group_changed, initial_reconcile, instance_deleted, termination_notice, drain_acked,
  ReconcileEvent, ReconcileError, permanent, Delayed, World, Env,
}

-- The jitter is a quarter of the delay in every policy.
pub record RetryPolicy : Type 0 where
  pub base_delay : ℕ
  pub max_delay : ℕ
  pub max_attempts : ℕ
  pub jitter_divisor : ℕ

abbrev pub second : ℕ
second = 1_000_000_000

abbrev pub event_policy : RetryPolicy
event_policy = record {
  base_delay = 5 * second;
  max_delay = 120 * second;
  max_attempts = 8;
  jitter_divisor = 4;
}

-- Both branches of the switch give the same policy.
unfoldable pub policy_for : EventType → RetryPolicy
policy_for group_changed = event_policy
policy_for initial_reconcile = event_policy
policy_for instance_deleted = event_policy
policy_for termination_notice = event_policy
policy_for drain_acked = event_policy
policy_for _ = event_policy

-- The product of a Duration, as the two's complement of its 64 bits.
abbrev pub exponential : RetryPolicy → ℕ → ℕ
exponential p attempt = (p.base_delay * 2 ^ attempt) % 2 ^ 64

-- From 2 ^ 63 on the number is negative, and no more than the greatest delay.
abbrev pub capped_delay : RetryPolicy → ℕ → ℕ
capped_delay p attempt =
    let delay = exponential p attempt in
    if ltb p.max_delay delay && ltb delay (2 ^ 63) then p.max_delay else delay

-- `random n` is rand.Int63n(n), which panics where n is not positive: where the delay is negative, or
-- its quarter is 0. `none` is that panic.
unfoldable pub backoff_delay : (ℕ → ℕ) → RetryPolicy → ℕ → Option ℕ
backoff_delay random p attempt =
    let delay = capped_delay p attempt in
    let range = delay / p.jitter_divisor in
    if leb (2 ^ 63) delay || nat_eq range 0 then none else some (delay + random range)

unfoldable pub is_permanent_error : ReconcileError → Bool
is_permanent_error (permanent e) = true
is_permanent_error _ = false

-- The event is put on the queue after the delay, for the leadership term of now.
unfoldable pub schedule_event : ℕ → ReconcileEvent → World → World
schedule_event delay e w = if not w.started || w.cancelled then w else record w {
  delayed = record { delay = delay; queued = record { event = e; term = w.term } } ∷ w.delayed;
}

abbrev pub retry_of : ReconcileEvent → ReconcileEvent
retry_of e = record e { attempt = e.attempt + 1; prevent_duplicate = false }

-- A panic plans nothing.
unfoldable pub schedule_retry : Env → ReconcileEvent → World → World
unfolding schedule_event backoff_delay policy_for
schedule_retry env e w =
    let p = policy_for e.type in
    if leb p.max_attempts e.attempt then w else elim (backoff_delay env.jitter p e.attempt) [
      | none ↦ w
      | some delay ↦ schedule_event delay (retry_of e) w
    ]
