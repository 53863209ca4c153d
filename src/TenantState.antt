-- ===== src/TenantState.antt =====
-- internal/server/tenantstate/manager.go: which tenants sleep, kept in one document of the shard's
-- storage, and the cutover of a tenant's traffic when it falls asleep or wakes. A method takes the world
-- (the disk, the manager's copy of the document, its wake timers and a log of what was done, newest
-- first) to the world after it. The environment answers for the storage's faults, other writers, the
-- provider's cutover, the clock and the ends of contexts; each answer is for one point in time, which is
-- the number of the call. Times are numbers, and an absent time is `none`. Logging is left out.
pub mod Entries
pub mod Document
pub mod Log
pub mod Cutover
pub mod Operations
mod Tests
use nstance.Base.{
  ℕ, String, Bool, true, false, Option, none, some, List, ◌∷◌, if◌then◌else◌, is_some,
}
use nstance.Base.Dict.{Dict, get}
use nstance.Storage.{StorageError}

pub record SleepState : Type 0 where
  pub wake_at : Option ℕ

pub record TransitionProgress : Type 0 where
  pub wake_at : Option ℕ
  pub withdrawal_at : Option ℕ
  pub guarded : Bool
  pub restoring : Bool

pub record TenantEntry : Type 0 where
  pub sleep : Option SleepState
  pub transition : Option TransitionProgress
  pub target_registration_blocked : Bool

-- `stateDocument`
abbrev pub StateDocument : Type 0
StateDocument = Dict TenantEntry

abbrev pub no_entry : TenantEntry
no_entry = record { sleep = none; transition = none; target_registration_blocked = false }

-- state[tenant]: the zero entry for a tenant that is not there.
unfoldable pub entry_of : String → StateDocument → TenantEntry
entry_of tenant d = elim (get d tenant) [ none ↦ no_entry | some e ↦ e ]

-- The methods of `Cutover`.
pub data CutoverCall : Type 0 where
  install_wake_path wait_wake_path_ready begin_target_withdrawal check_activity : CutoverCall
  finish_target_withdrawal restore_targets wait_targets_ready remove_wake_path : CutoverCall

pub data TenantError : Type 0 where
  inactive cancelled cas_conflict undecodable no_withdrawal_time : TenantError
  nil_transition : TenantError
  storage_failed : StorageError → TenantError
  cutover_failed : CutoverCall → ℕ → TenantError
  callback_failed : ℕ → TenantError
  joined : TenantError → TenantError → TenantError

-- What was done outside the manager: a call of the cutover and whether it succeeded, a write of the
-- document over the one that was read, a notice of a change, a run of the caller's operation.
pub data Deed : Type 0 where
  called : CutoverCall → String → Bool → Deed
  stored : StateDocument → StateDocument → Deed
  notified : String → Deed
  ran : String → Deed

-- A wake timer, with the term and the deadline that it was set for.
pub record WakeTimer : Type 0 where
  pub term : ℕ
  pub tenant : String
  pub expected : ℕ
  pub delay : ℕ

pub record World (Data : Type 0) : Type 0 where
  pub disk : Dict Data
  pub state : StateDocument
  pub timers : List WakeTimer
  -- Is there a term, and the number of the last one.
  pub active : Bool
  pub term : ℕ
  pub clock : ℕ
  pub log : List Deed

-- The JSON with comments of the document.
pub record Codec (Data : Type 0) : Type 0 where
  pub encode : StateDocument → Data
  pub decode : Data → Option StateDocument

pub record Env (Data : Type 0) : Type 0 where
  pub read_fault : ℕ → Option ℕ
  pub write_fault : ℕ → Option ℕ
  -- What other processes write before a call, and what other tenants' operations install.
  pub others : ℕ → Dict Data → Dict Data
  pub refreshed : ℕ → StateDocument → StateDocument
  -- The context of the operation has ended; the term has.
  pub is_cancelled : ℕ → Bool
  pub term_over : ℕ → Bool
  pub now : ℕ → ℕ
  pub cutover : Option (CutoverCall → String → ℕ → Option ℕ)
  pub callback : ℕ → Option ℕ
  pub has_on_changed : Bool
  pub timer_retry : ℕ

abbrev pub logged : {D : Type 0} → Deed → World D → World D
logged a w = record w { log = a ∷ w.log }
