-- ===== src/Reconciler.antt =====
-- internal/server/reconciler: the loop of the shard leader that holds the groups of instances at
-- their sizes. A handler takes the world (the local table, the timers, the delayed events and a log
-- of what was done, newest first) to the world after it. The environment answers for everything
-- outside: configuration, cloud provider, instance manager, tenant state, the clock and the database.
-- Times and durations are numbers of nanoseconds. Logging is left out.
pub mod Create
pub mod Retry
pub mod Drain
pub mod Scaling
pub mod Expiry
pub mod Health
pub mod Events
pub mod Loop
mod Tests
use nstance.Base.{
  ℕ, String, Bool, true, false, Option, none, some, List, ◌∷◌, Result, if◌then◌else◌,
}
use nstance.Base.Dict.{Dict}
use nstance.LocalDb.{Status, Instance, Table}

pub data EventType : Type 0 where
  check_instance group_changed instance_deleted drain_acked termination_notice : EventType
  initial_reconcile tenant_changed other_type : EventType

-- `Cause` is empty or "disconnect".
pub data Cause : Type 0 where
  unspecified disconnect : Cause

pub record ReconcileEvent : Type 0 where
  pub type : EventType
  pub tenant : String
  pub group_key : String
  pub instance_id : String
  pub timestamp : ℕ
  pub prevent_duplicate : Bool
  pub cause : Cause
  pub attempt : ℕ

pub record QueuedEvent : Type 0 where
  pub event : ReconcileEvent
  pub term : ℕ

pub record GroupIdentity : Type 0 where
  pub tenant : String
  pub group : String

-- The fields of `config.GroupConfig` that the reconciler reads or passes on, but `Vars` and `Args`,
-- which go to the instance manager unread.
pub record GroupConfig : Type 0 where
  pub size : Option ℕ
  pub template : String
  pub instance_type : String
  pub subnet_pool : String
  pub drain_timeout : Option ℕ

-- `CreateInstanceRequest`, without `Vars` and `Args`.
pub record CreateInstanceRequest : Type 0 where
  pub tenant : String
  pub group : String
  pub template : String
  pub instance_type : String
  pub subnet_pool : String
  pub on_demand : Bool

pub data ReconcileError : Type 0 where
  tenant_asleep nat_handler_missing not_found database : ReconcileError
  group_full : ℕ → ℕ → ReconcileError
  instance_failure nat_failure : ℕ → ReconcileError
  delete_failures : ℕ → ReconcileError
  permanent : ℕ → ReconcileError

-- An answer of the provider about one instance.
pub data ProviderAnswer : Type 0 where
  status : Status → ProviderAnswer
  instance_not_found : ProviderAnswer
  failed : ℕ → ProviderAnswer

-- The calls of the local database that can fail.
pub data Query : Type 0 where
  instances_by_group instance_count_by_group oldest_managed older_than : Query
  active_identities cached_group update_provider_state : Query
  instance_row start_drain ack_drain : String → Query

-- What a handler does outside the table, for the log.
pub data Action : Type 0 where
  created : CreateInstanceRequest → String → Action
  deleted : String → String → Action
  drain_notified : String → String → ℕ → ℕ → Action
  error_notified : String → String → String → Action
  nat_replaced : String → Action

pub record Delayed : Type 0 where
  pub delay : ℕ
  pub queued : QueuedEvent

-- A group's expiry timer, of the term in which it was set.
pub record ExpiryTimer : Type 0 where
  pub identity : GroupIdentity
  pub delay : ℕ
  pub term : ℕ

pub record World : Type 0 where
  pub table : Table
  pub log : List Action
  pub last_create_time : ℕ
  pub recent_events : Dict ℕ
  pub expiry_timers : List ExpiryTimer
  pub delayed : List Delayed
  pub queue : List QueuedEvent
  pub started : Bool
  pub term : ℕ
  pub cancelled : Bool

pub record Env : Type 0 where
  pub now : ℕ
  pub is_leader : Bool
  pub config_loaded : Bool
  -- `IsAsleep`, at the start of a creation and after the wait of its rate limit.
  pub asleep : String → Bool
  pub asleep_after_wait : String → Bool
  pub get_group : String → String → Result ReconcileError GroupConfig
  pub all_groups : Result ReconcileError (List GroupIdentity)
  pub nat_group : String → Option String
  pub nat_handler : Option (String → Option ℕ)
  pub cached_hash : String → String → Option String
  pub default_drain_timeout : ℕ
  pub eligible_age : ℕ
  pub forced_age : ℕ
  pub ondemand_age : ℕ
  pub health_check_interval : ℕ
  pub provider_status : String → String → ProviderAnswer
  -- The instance manager may change the table before it fails: a creation inserts the row of the instance
  -- before the provider is asked, a deletion marks the start of the drain. `none` is no error.
  pub create : CreateInstanceRequest → Table → Result ℕ String × Table
  pub delete : String → String → Table → Option ℕ × Table
  pub faulty : Query → Bool
  -- Is there a callback for errors?
  pub notifies : Bool
  -- The random part of a retry's delay.
  pub jitter : ℕ → ℕ

abbrev pub logged : Action → World → World
logged a w = record w { log = a ∷ w.log }

abbrev pub notified : Env → Action → World → World
notified env a w = if env.notifies then logged a w else w
