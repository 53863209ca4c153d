-- ===== src/Reconciler/Health.antt =====
-- internal/server/reconciler/health.go: the check of one instance.
pub mod Draining
pub mod Size
pub mod Healthy
use nstance.Base.{
  ℕ, suc, ◌+◌, ◌-◌, ◌*◌, ◌/◌, String, Bool, true, false, ◌&&◌, Option, none, some, Result, ok, err,
  ◌==◌, leb, ltb, if◌then◌else◌,
}
use nstance.LocalDb.{Status, deleted, Instance, Table, is_unhealthy}
use nstance.LocalDb.Rows.{update_instance_provider_state}
use nstance.Reconciler.{
  ReconcileEvent, check_instance, disconnect, unspecified, Cause, GroupConfig, ReconcileError,
  ProviderAnswer, status, instance_not_found, failed, update_provider_state, error_notified, World,
  Env, notified,
}
use nstance.Reconciler.Create.{delete_instance}
use nstance.Reconciler.Drain.{replace_and_drain, drain_timeout_of}
use nstance.Reconciler.Expiry.{find_instance}
use nstance.Reconciler.Retry.{RetryPolicy, backoff_delay, schedule_event, second}

-- A row without a provider ID, or with an empty one, is not provisioned yet.
abbrev pub provider_id_of : Instance → Option String
provider_id_of i = elim i.provider_id [ none ↦ none | some p ↦ if p == "" then none else some p ]

-- Is the answer of the provider a reason to delete a draining instance at once?
abbrev pub is_gone : ProviderAnswer → Bool
is_gone (status s) = is_unhealthy s
is_gone instance_not_found = true
is_gone (failed e) = false

abbrev pub provider_says_gone : Env → Instance → Bool
provider_says_gone env i = elim (provider_id_of i) [
  | none ↦ false
  | some p ↦ is_gone (env.provider_status i.id p)
]

unfoldable pub handle_drain_completion : Env → Instance → ℕ → ℕ → World → World
handle_drain_completion env i started timeout w = elim i.drain_acked_at [
  | some at ↦ delete_instance env i.tenant i.id w
  | none ↦
      if leb (started + timeout) env.now
      then delete_instance env i.tenant i.id w
      else if provider_says_gone env i
      then delete_instance env i.tenant i.id w
      else w
]

complete_drain : Env → Instance → ℕ → Result ReconcileError GroupConfig → World → World
complete_drain env i started (err e) w = w
complete_drain env i started (ok g) w =
    handle_drain_completion env i started (drain_timeout_of env g) w

replace_known : Env → Instance → Option ℕ → Bool → Result ReconcileError GroupConfig → World → World
unfolding complete_drain
replace_known env i (some started) skip_drain g w = complete_drain env i started g w
replace_known env i none skip_drain (err e) w = w
replace_known env i none skip_drain (ok g) w =
    replace_and_drain env i.id i.tenant i.group g skip_drain w

unfoldable pub replace_instance : Env → String → Bool → World → World
unfolding replace_known
replace_instance env id skip_drain w = elim (find_instance env id w) [
  | none ↦ w
  | some i ↦ replace_known env i i.drain_started_at skip_drain (env.get_group i.tenant i.group) w
]

abbrev pub disconnect_follow_up_policy : RetryPolicy
disconnect_follow_up_policy = record {
  base_delay = 3 * second;
  max_delay = 30 * second;
  max_attempts = 8;
  jitter_divisor = 4;
}

-- The agent has reported since the event.
abbrev pub has_reconnected : Instance → ReconcileEvent → Bool
has_reconnected i e = elim i.health_at [ none ↦ false | some h ↦ ltb e.timestamp h ]

abbrev pub follow_up : ReconcileEvent → ReconcileEvent
follow_up e = record {
  type = check_instance;
  tenant = "";
  group_key = "";
  instance_id = e.instance_id;
  timestamp = e.timestamp;
  prevent_duplicate = false;
  cause = disconnect;
  attempt = e.attempt + 1;
}

unfoldable pub schedule_disconnect_follow_up : Env → ReconcileEvent → Instance → World → World
schedule_disconnect_follow_up env e i w =
    if has_reconnected i e
    then w
    else if leb disconnect_follow_up_policy.max_attempts e.attempt
    then w
    else elim (backoff_delay env.jitter disconnect_follow_up_policy e.attempt) [
      | none ↦ w
      | some delay ↦ schedule_event delay (follow_up e) w
    ]

-- A failure to record the state is only logged.
abbrev pub record_state : Env → Status → String → World → World
record_state env s id w =
    if env.faulty update_provider_state
    then w
    else elim (update_instance_provider_state s id w.table) [
      | none ↦ w
      | some t ↦ record w { table = t }
    ]

-- Three health reports or more are missing.
abbrev pub has_missed_reports : Env → Instance → Bool
has_missed_reports env i = elim i.health_at [
  | none ↦ false
  | some h ↦ ltb 0 env.health_check_interval && leb 3 ((env.now - h) / env.health_check_interval)
]

follow_up_if : Env → Cause → ReconcileEvent → Instance → World → World
follow_up_if env unspecified e i w = w
follow_up_if env disconnect e i w = schedule_disconnect_follow_up env e i w

act_on : Env → ReconcileEvent → Instance → ProviderAnswer → World → World
unfolding follow_up_if
act_on env e i instance_not_found w =
    replace_instance env i.id true (record_state env deleted i.id w)
act_on env e i (failed code) w =
    schedule_disconnect_follow_up env e i (notified env (error_notified i.tenant i.group i.id) w)
act_on env e i (status s) w =
    if is_unhealthy s
    then replace_instance env i.id true (record_state env s i.id w)
    else if has_missed_reports env i
    then replace_instance env i.id false w
    else follow_up_if env e.cause e i w

check_provider : Env → ReconcileEvent → Instance → Option String → World → World
unfolding act_on
check_provider env e i none w = w
check_provider env e i (some p) w = act_on env e i (env.provider_status i.id p) w

check_found : Env → ReconcileEvent → Instance → Option ℕ → World → World
unfolding check_provider complete_drain
check_found env e i (some started) w =
    complete_drain env i started (env.get_group i.tenant i.group) w
check_found env e i none w = check_provider env e i (provider_id_of i) w

unfoldable pub handle_check_instance : Env → ReconcileEvent → World → World
unfolding check_found
handle_check_instance env e w = elim (find_instance env e.instance_id w) [
  | none ↦ w
  | some i ↦ check_found env e i i.drain_started_at w
]
