-- ===== src/TenantState/Entries.antt =====
-- The changes that the operations make to the document: the closures that they pass to `update`.
-- A change takes the variables that the closure captures, and answers with the changed document, or
-- `none` where it returns false, and with those variables after it.
use nstance.Base.{
  ℕ, String, Bool, true, false, ◌&&◌, Option, none, some, is_some, is_none, if◌then◌else◌, nat_eq,
}
use nstance.Base.Dict.{put, delete}
use nstance.TenantState.{TransitionProgress, TenantEntry, StateDocument, entry_of}

abbrev pub Edited : Type 0 → Type 0
Edited B = Option StateDocument × B

abbrev pub Change : Type 0 → Type 0
Change B = B → StateDocument → Edited B

-- `equalTime`
abbrev pub equal_time : Option ℕ → Option ℕ → Bool
equal_time none none = true
equal_time (some a) (some b) = nat_eq a b
equal_time _ _ = false

-- `IsAsleep`, on a document.
unfoldable pub sleeps : String → StateDocument → Bool
unfolding entry_of
sleeps tenant d = is_some (entry_of tenant d).sleep

-- The deadline of a tenant's sleep.
unfoldable pub wake_time : String → StateDocument → Option ℕ
unfolding entry_of
wake_time tenant d = elim (entry_of tenant d).sleep [ none ↦ none | some s ↦ s.wake_at ]

-- Asleep already, with this very deadline.
abbrev pub same_sleep : Option ℕ → TenantEntry → Bool
same_sleep wake_at e = elim e.sleep [ none ↦ false | some s ↦ equal_time s.wake_at wake_at ]

abbrev pub fell_asleep : Option ℕ → TenantEntry → TenantEntry
fell_asleep wake_at e = record e { sleep = some (record { wake_at = wake_at }) }

-- `Sleep` without a cutover: whether the tenant slept, and whether anything has changed, which stays
-- true once it is.
unfoldable pub sleep_now : String → Option ℕ → Change (Bool × Bool)
unfolding entry_of
sleep_now tenant wake_at (slept, changed) d =
    let e = entry_of tenant d in
    if same_sleep wake_at e
    then (none, (is_some e.sleep, changed))
    else (some (put d tenant (fell_asleep wake_at e)), (is_some e.sleep, true))

abbrev pub no_progress : TransitionProgress
no_progress = record { wake_at = none; withdrawal_at = none; guarded = false; restoring = false }

abbrev pub progress_of : TenantEntry → TransitionProgress
progress_of e = elim e.transition [ none ↦ no_progress | some p ↦ p ]

abbrev pub with_progress : TransitionProgress → TenantEntry → TenantEntry
with_progress p e = record e { transition = some p }

-- The first step of `Sleep` with a cutover: a new deadline, or the start of a transition.
unfoldable pub begin_sleep : String → Option ℕ → Bool → Change (Bool × Bool)
unfolding entry_of
begin_sleep tenant wake_at guarded (slept, changed) d =
    let e = entry_of tenant d in
    if same_sleep wake_at e
    then (none, (is_some e.sleep, changed))
    else if is_some e.sleep
    then (some (put d tenant (fell_asleep wake_at e)), (true, true))
    else (
      some (
          put d tenant
            (with_progress (record (progress_of e) { wake_at = wake_at; guarded = guarded }) e)),
      (false, changed),
    )

-- The last step of `Sleep` with a cutover.
unfoldable pub finish_sleep : String → Option ℕ → Change (Unit {0})
unfolding entry_of
finish_sleep tenant wake_at b d = (
  some (put d tenant (record (fell_asleep wake_at (entry_of tenant d)) { transition = none })),
  tt,
)

-- The last step of a transition that is resumed. Where there is no transition any more the source
-- follows a nil pointer: `false`.
unfoldable pub finish_resumed : String → Change Bool
unfolding entry_of
finish_resumed tenant b d =
    let e = entry_of tenant d in
    elim e.transition [
      | none ↦ (none, false)
      | some p ↦
          (some (put d tenant (record (fell_asleep p.wake_at e) { transition = none })), true)
    ]

-- `Wake` without a cutover; whether the tenant was awake.
unfoldable pub wake_now : String → Change Bool
unfolding sleeps
wake_now tenant b d = if sleeps tenant d then (some (delete d tenant), false) else (none, true)

-- The first step of `Wake` with a cutover.
unfoldable pub begin_wake : String → Change Bool
unfolding entry_of
begin_wake tenant b d =
    let e = entry_of tenant d in
    if is_none e.sleep && is_none e.transition
    then (none, true)
    else (some (put d tenant (with_progress (progress_of e) (record e { sleep = none }))), false)

unfoldable pub forget : String → Change (Unit {0})
forget tenant b d = (some (delete d tenant), tt)

-- `beginRestore`
unfoldable pub begin_restore : String → Change (Unit {0})
unfolding entry_of
begin_restore tenant b d =
    let e = entry_of tenant d in
    (
      some (
          put d tenant (record (with_progress (record (progress_of e) { restoring = true }) e) {
            target_registration_blocked = false;
          })),
      tt,
    )

-- `blockTargetRegistration`
unfoldable pub block_target_registration : String → Change (Unit {0})
unfolding entry_of
block_target_registration tenant b d =
    let e = entry_of tenant d in
    if e.target_registration_blocked
    then (none, tt)
    else (some (put d tenant (record e { target_registration_blocked = true })), tt)

-- `markTransition`, with the time of the withdrawal.
unfoldable pub mark_withdrawal : String → ℕ → Change (Unit {0})
unfolding entry_of
mark_withdrawal tenant at b d =
    let e = entry_of tenant d in
    (some (put d tenant (with_progress (record (progress_of e) { withdrawal_at = some at }) e)), tt)

-- The change of a mere reading.
unfoldable pub no_change : Change (Unit {0})
no_change b d = (none, tt)
