-- ===== src/Reconciler/Tests/Cases.antt =====
-- More of the reconciler at concrete inputs: duplicates, rotation, timers, retries, single creations,
-- deletions and checks.
use nstance.Base.{
  ℕ, ◌+◌, ◌-◌, ◌*◌, ◌^◌, ◌≤◌, ◌<◌, ◌≡◌, refl, ◌⊎◌, true, false, some, [], ◌∷◌, arith, inl, inr, All,
}
use nstance.Base.Dict.{get}
use nstance.LocalDb.Rows.{get_instance}
use nstance.Reconciler.{
  World, ReconcileEvent, group_changed, Env, disconnect, Delayed, instance_deleted,
}
use nstance.Reconciler.Scaling.{find_drift}
use nstance.Reconciler.Scaling.Rotation.{Undrained, Oldest, find_drift-finds-Oldest}
use nstance.Reconciler.Expiry.Timers.{
  fires_at, timer_is_never_early, timer_is_punctual, timer_is_late_when_due_now,
}
use nstance.Reconciler.Retry.{backoff_delay, second, schedule_retry, policy_for}
use nstance.Reconciler.Retry.Bounds.{backoff_bounds, schedule_retry_cases}
use nstance.Reconciler.Events.{handle_instance_deleted}
use nstance.Reconciler.Loop.Duplicates.{handle_event-once}
use nstance.Reconciler.Loop.{handle_event, is_duplicate, cleaned, dispatch}
use nstance.Reconciler.Tests.{row, tiny, world_of, web_changed, crowd, check_old}

-- An event and its repetition ten units later, which falls in the cooldown.
abbrev later : Env
later = record tiny { now = 110 }

abbrev dropped_event : ReconcileEvent
dropped_event = record web_changed { type = instance_deleted; tenant = "" }

abbrev repeated_event : ReconcileEvent
repeated_event = record dropped_event { timestamp = 105 }

-- The world in between has got another table.
abbrev meanwhile : World
meanwhile = record (handle_event tiny dropped_event (world_of [])) { table = crowd }

handle_event-once_example : handle_event later repeated_event meanwhile ≡ cleaned later meanwhile
unfolding is_duplicate dispatch handle_instance_deleted get
handle_event-once_example =
    handle_event-once tiny later dropped_event repeated_event (world_of []) meanwhile refl refl refl
      refl refl refl refl refl refl refl refl refl (ground arith)

-- Two instances without a hash, of which the first is the oldest.
find_drift-finds-Oldest_example :
    All (Undrained tiny (world_of crowd)) ("a" ∷ "b" ∷ [])
    × Oldest tiny "h" (world_of crowd) ("a" ∷ "b" ∷ []) (some "a")
unfolding find_drift get_instance
find_drift-finds-Oldest_example =
    find_drift-finds-Oldest tiny "h" (world_of crowd) ("a" ∷ "b" ∷ []) (some "a") refl

-- Ages of fifty and eighty units.
abbrev aging : Env
aging = record tiny { eligible_age = 50; forced_age = 80 }

timer_is_never_early_example :
    ((0 < 50) × (70 + 50 < fires_at aging 70)) ⊎ ((0 < 80) × (70 + 80 < fires_at aging 70))
timer_is_never_early_example = timer_is_never_early aging 70 (inl (ground arith))

timer_is_punctual_example : fires_at aging 70 ≡ 120 + second
timer_is_punctual_example =
    timer_is_punctual aging 70 (ground arith) (ground arith) (inr (ground arith))

timer_is_late_when_due_now_example : fires_at aging 50 ≡ 50 + 80 + second
timer_is_late_when_due_now_example =
    timer_is_late_when_due_now aging 50 (ground arith) (ground arith) refl

backoff_bounds_example :
    (d : ℕ) × (backoff_delay (λ n. n - 1) (policy_for group_changed) 3 ≡ some d)
    × (5 * second ≤ d)
    × (d < 150 * second)
    × (4 * d < 5 * (5 * second * 2 ^ 3))
    × ((5 * second * 2 ^ 3 ≤ d) ⊎ (120 * second ≤ d))
backoff_bounds_example =
    backoff_bounds (λ n. n - 1) group_changed 3 (λ n h. ground arith) (ground arith)

schedule_retry_cases_example :
    ((schedule_retry tiny web_changed (world_of []) ≡ world_of [])
      × ((8 ≤ 0) ⊎ (true ≡ false) ⊎ (false ≡ true)))
    ⊎ ((d : Delayed) × (schedule_retry tiny web_changed (world_of [])
          ≡ record (world_of []) { delayed = d ∷ [] })
        × (backoff_delay tiny.jitter (policy_for group_changed) 0 ≡ some d.delay)
        × (d.queued.event.attempt ≡ 1)
        × (d.queued.event.attempt ≤ 8)
        × (d.queued.event.prevent_duplicate ≡ false)
        × (record d.queued.event { attempt = 0; prevent_duplicate = true } ≡ web_changed)
        × (d.queued.term ≡ 3)
        × (true ≡ true)
        × (false ≡ false))
schedule_retry_cases_example = schedule_retry_cases tiny web_changed (world_of [])

-- A manager whose provider fails: it has marked the start of the drain when it does.
abbrev failing : Env
failing = record tiny {
  delete =
      λ owner id t. (some 7, record (row "a" "acme" "web") { drain_started_at = some 100 } ∷ t);
}

-- A disconnect of an instance that runs.
abbrev disconnected : ReconcileEvent
disconnected = record check_old { cause = disconnect }
