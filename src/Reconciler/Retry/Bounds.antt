-- ===== src/Reconciler/Retry/Bounds.antt =====
-- The delays and the number of retries.
use nstance.Base.{
  ℕ, zero, suc, ◌+◌, ◌*◌, ◌/◌, ◌^◌, ◌≤◌, ◌<◌, ◌≡◌, refl, ◌⊎◌, ◌∷◌, true, false, not, ◌||◌, inl, inr,
  some, Bool-cases, arith, leb,
}
use nstance.Reconciler.{EventType, check_instance, ReconcileEvent, Delayed, World, Env}
use nstance.Reconciler.Retry.{
  event_policy, second, capped_delay, backoff_delay, schedule_retry, retry_of, policy_for,
}

policy_for_lem : (t : EventType) → policy_for t ≡ event_policy
unfolding policy_for
policy_for_lem check_instance = refl
policy_for_lem _ = refl

-- The powers that a retry uses.
pub small_power : (a : ℕ) → a < 8 → (1 ≤ 2 ^ a) × (2 ^ a ≤ 128)
small_power zero h = (omega arith, omega arith)
small_power (suc zero) h = (omega arith, omega arith)
small_power (suc (suc zero)) h = (omega arith, omega arith)
small_power (suc (suc (suc zero))) h = (omega arith, omega arith)
small_power (suc (suc (suc (suc zero)))) h = (omega arith, omega arith)
small_power (suc (suc (suc (suc (suc zero))))) h = (omega arith, omega arith)
small_power (suc (suc (suc (suc (suc (suc zero)))))) h = (omega arith, omega arith)
small_power (suc (suc (suc (suc (suc (suc (suc zero))))))) h = (omega arith, omega arith)
small_power (suc (suc (suc (suc (suc (suc (suc (suc a)))))))) h = (omega arith, omega arith)

-- With few attempts the delay does not wrap.
few_delay :
    (a : ℕ)
    → a < 8
    → (5 * second ≤ capped_delay event_policy a)
      × (capped_delay event_policy a ≤ 120 * second)
      × (capped_delay event_policy a ≤ 5 * second * 2 ^ a)
      × ((capped_delay event_policy a ≡ 5 * second * 2 ^ a)
          ⊎ (capped_delay event_policy a ≡ 120 * second))
few_delay a h = let (low, high) = small_power a h in ground (arith, low, high)

-- For the attempts that are made, the eight from 0 on, the delay before a retry is there: nothing wraps
-- and the random generator is asked for a number below a positive one. It is the base delay of five
-- seconds, doubled for each attempt and at most two minutes, with up to a quarter of that on top.
pub backoff_bounds :
    (random : ℕ → ℕ) (type : EventType) (a : ℕ)
    → ((n : ℕ) → 0 < n → random n < n)
    → a < 8
    → (d : ℕ) × (backoff_delay random (policy_for type) a ≡ some d)
      × (5 * second ≤ d)
      × (d < 150 * second)
      × (4 * d < 5 * (5 * second * 2 ^ a))
      × ((5 * second * 2 ^ a ≤ d) ⊎ (120 * second ≤ d))
unfolding backoff_delay
backoff_bounds random type a r h = rw policy_for_lem (
    let (low, high, slow, which) = few_delay a h in
    let delay = capped_delay event_policy a in
    let less = r (delay / 4) (ground arith) in
    (
      delay + random (delay / 4),
      ground arith,
      ground arith,
      ground arith,
      ground arith,
      ground arith,
    ))

some_delay :
    (random : ℕ → ℕ) (type : EventType) (a : ℕ)
    → a < 8
    → (d : ℕ) × (backoff_delay random (policy_for type) a ≡ some d)
unfolding backoff_delay
some_delay random type a h = rw policy_for_lem (
    let (low, high, slow, which) = few_delay a h in
    let delay = capped_delay event_policy a in (delay + random (delay / 4), ground arith))

-- A failed event is retried at most eight times: either nothing is planned, and then eight attempts are
-- used up or the loop is not running, or exactly one event is planned for the present term, after the delay
-- of the attempt: the failed one in all that it names, with its attempt one higher and so at most eight, and
-- no longer subject to the check for duplicates.
pub schedule_retry_cases :
    (env : Env) (e : ReconcileEvent) (w : World)
    → ((schedule_retry env e w ≡ w)
        × ((8 ≤ e.attempt) ⊎ (w.started ≡ false) ⊎ (w.cancelled ≡ true)))
      ⊎ ((d : Delayed) × (schedule_retry env e w ≡ record w { delayed = d ∷ w.delayed })
          × (backoff_delay env.jitter (policy_for e.type) e.attempt ≡ some d.delay)
          × (d.queued.event.attempt ≡ suc e.attempt)
          × (d.queued.event.attempt ≤ 8)
          × (d.queued.event.prevent_duplicate ≡ false)
          × (record d.queued.event { attempt = e.attempt; prevent_duplicate = e.prevent_duplicate }
              ≡ e)
          × (d.queued.term ≡ w.term)
          × (w.started ≡ true)
          × (w.cancelled ≡ false))
unfolding schedule_retry
schedule_retry_cases env e w = elim (Bool-cases (leb (policy_for e.type).max_attempts e.attempt)) [
  | inl over ↦ inl (ground (arith, over), ground (arith, over, policy_for_lem e.type))
  | inr under ↦
      let few : e.attempt < 8 = ground (arith, under, policy_for_lem e.type) in
      let (delay, made) = some_delay env.jitter e.type e.attempt few in
      elim (Bool-cases (not w.started || w.cancelled)) [
        | inl idle ↦ inl (ground (arith, under, made, idle), ground (arith, idle))
        | inr live ↦ inr (
          record { delay = delay; queued = record { event = retry_of e; term = w.term } },
          ground (arith, under, made, live),
          made,
          ground arith,
          ground arith,
          refl,
          refl,
          refl,
          ground (arith, live),
          ground (arith, live),
        )
      ]
]
