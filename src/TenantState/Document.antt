-- ===== src/TenantState/Document.antt =====
-- `update`, `load`, `install` and the timers: the document is changed by a loop of conditional writes,
-- and what was read or written becomes the manager's copy.
pub mod Steps
pub mod Changes
pub mod Results
pub mod Quiet
use nstance.Base.{
  ℕ, zero, suc, ◌+◌, ◌-◌, String, Bool, true, false, ◌||◌, not, Option, none, some, List, [], ◌∷◌,
  Result, ok, err, if◌then◌else◌,
}
use nstance.Base.Dict.{Dict, get}
use nstance.Base.Exec.{Exec, pure, raise, ◌>>=◌, ◌>>◌}
use nstance.Storage.{StorageError, not_found, precondition, io, Digest}
use nstance.Storage.Mock
use nstance.TenantState.{
  SleepState, TenantEntry, StateDocument, TenantError, cancelled, cas_conflict, undecodable,
  storage_failed, stored, notified, WakeTimer, World, Codec, Env, logged,
}
use nstance.TenantState.Entries.{Change}

abbrev pub state_key : String
state_key = "tenants.jsonc"

abbrev pub max_cas_retries : ℕ
max_cas_retries = 4

-- The timers of a document, set in a term at a time: one for each tenant that sleeps with a deadline.
unfoldable pub timers_of : ℕ → ℕ → StateDocument → List WakeTimer
timers_of term now [] = []
timers_of term now ((tenant, e) ∷ d) =
    let rest = timers_of term now d in
    elim e.sleep [
      | none ↦ rest
      | some s ↦ elim s.wake_at [
        | none ↦ rest
        | some at ↦ record { term = term; tenant = tenant; expected = at; delay = at - now } ∷ rest
      ]
    ]

abbrev pub Action : Type 0 → Type 0 → Type 0
Action Data A = Exec TenantError (World Data) A

module _ {Data : Type 0} where
  module _ (env : Env Data) where
    -- Every call takes a moment, in which others may write the disk and the manager's copy.
    unfoldable pub moment : Action Data ℕ
    moment w = (
      ok w.clock,
      record w {
        clock = suc w.clock;
        disk = env.others w.clock w.disk;
        state = env.refreshed w.clock w.state;
      },
    )

    -- `install`: the timers are those of the document, while the term lasts.
    unfoldable pub install : StateDocument → Action Data (Unit {0})
    unfolding timers_of
    install d w = (
      ok tt,
      record w {
        state = d;
        timers =
            if not w.active || env.term_over w.clock
            then []
            else timers_of w.term (env.now w.clock) d;
      },
    )

    -- `notifyChanged`
    unfoldable pub notify_changed : String → Action Data (Unit {0})
    notify_changed tenant w = (ok tt, if env.has_on_changed then logged (notified tenant) w else w)

    -- ctx.Err()
    unfoldable pub check_context : Action Data (Unit {0})
    check_context w = (if env.is_cancelled w.clock then err cancelled else ok tt, w)

    module _ ⦃md5 : Digest Data⦄ (codec : Codec Data) where
      decoded : Data → Option StateDocument → Result TenantError (StateDocument × md5.Tag)
      decoded d none = err undecodable
      decoded d (some m) = ok (m, md5.sum d)

      -- `load`: an absent object is the empty document.
      loaded_from : Option ℕ → Dict Data → Result TenantError (StateDocument × md5.Tag)
      unfolding decoded
      loaded_from fault s = elim (Mock.read fault s state_key) [
        | ok (d, etag) ↦ decoded d (codec.decode d)
        | err not_found ↦ ok ([], md5.absent)
        | err precondition ↦ err (storage_failed precondition)
        | err (io e) ↦ err (storage_failed (io e))
      ]

      unfoldable pub load : Action Data (StateDocument × md5.Tag)
      unfolding loaded_from moment
      load = do i ← moment; λ w. (loaded_from (env.read_fault i) w.disk, w)

      -- The conditional write, whose answer says whether it went through.
      written :
          StateDocument
          → StateDocument
          → World Data
          → Result StorageError (Dict Data)
          → Result TenantError Bool × World Data
      written before after w (ok s) =
          (ok true, logged (stored before after) (record w { disk = s }))
      written before after w (err precondition) = (ok false, w)
      written before after w (err not_found) = (err (storage_failed not_found), w)
      written before after w (err (io e)) = (err (storage_failed (io e)), w)

      unfoldable pub commit : StateDocument → StateDocument → md5.Tag → Action Data Bool
      unfolding written moment
      commit before after etag = do
        i ← moment
        λ w.
            written before after w
              (Mock.put_if_match (env.write_fault i) w.disk state_key (codec.encode after) etag)

      module _ {B : Type 0} where
        -- What follows a conditional write.
        settled :
            StateDocument
            → B
            → (B → Action Data (StateDocument × B))
            → Bool
            → Action Data (StateDocument × B)
        unfolding install
        settled after b again true = do install after; pure (after, b)
        settled after b again false = again b

        -- What follows the change of a document that was read.
        changed_from :
            StateDocument
            → md5.Tag
            → (B → Action Data (StateDocument × B))
            → Option StateDocument × B
            → Action Data (StateDocument × B)
        unfolding install settled commit
        changed_from before etag again (none, b) = do install before; pure (before, b)
        changed_from before etag again (some after, b) = do
          through ← commit before after etag
          settled after b again through

        update_from : ℕ → Change B → B → Action Data (StateDocument × B)
        unfolding check_context load changed_from
        update_from zero change b = raise cas_conflict
        update_from (suc rounds) change b = do
          check_context
          (before, etag) ← load
          changed_from before etag (update_from rounds change) (change b before)

        -- `update`, with the captured variables at the start.
        unfoldable pub update : Change B → B → Action Data (StateDocument × B)
        unfolding update_from
        update change b = update_from max_cas_retries change b

      -- `Refresh`
      unfoldable pub refresh : Action Data (Unit {0})
      unfolding load install
      refresh = do (d, etag) ← load; install d
