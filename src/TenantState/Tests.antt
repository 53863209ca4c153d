-- ===== src/TenantState/Tests.antt =====
-- The tenant state at concrete inputs, with a store whose contents are the documents themselves and a
-- cutover that always succeeds.
use nstance.Base.{
  ◌≡◌, refl, ◌≢◌, Bool, true, false, Option, none, some, List, [], ◌∷◌, ok, decide, decide_iff,
  text_discrete, ℕ_discrete, subst, inr,
}
use nstance.Base.Dict.{get, put}
use nstance.Base.Exec.Triple.{After}
use nstance.Storage.{Digest}
use nstance.TenantState.{
  SleepState, TransitionProgress, TenantEntry, StateDocument, World, Codec, Env, CutoverCall,
  install_wake_path, wait_wake_path_ready, begin_target_withdrawal, check_activity, restore_targets,
  wait_targets_ready, Deed, called, stored, notified, ran,
}
use nstance.Storage.Mock
use nstance.TenantState.Entries.{
  finish_resumed, sleeps, wake_time, no_change, begin_sleep, block_target_registration,
  mark_withdrawal, begin_restore, finish_sleep,
}
use nstance.TenantState.Document.{state_key}
use nstance.TenantState.Document.Results.{Always}
use nstance.TenantState.Document.Quiet.{Quiet, Ready, Readable}
use nstance.TenantState.Operations.Quiet.{CallsSucceed, wake-succeeds}
use nstance.TenantState.Log.{OrderlyWorld}
use nstance.TenantState.Cutover.{Calls}
use nstance.TenantState.Operations.{
  sleep, wake, resume_tenant, Request, start_term, sleep_tenant, wake_tenant, resume_for_tenant,
  perform_all,
}
use nstance.TenantState.Operations.Safe.Requests.{perform_all-orderly}
use nstance.TenantState.Operations.Stopped.{are_operations, perform_all-stopped}
use nstance.TenantState.Operations.Results.Sleep.{sleep-falls_asleep}
use nstance.TenantState.Operations.Results.Wake.{wake-wakes_up}

sleep_discrete : Discrete SleepState
sleep_discrete = hlevel ℕ_discrete

progress_discrete : Discrete TransitionProgress
progress_discrete = hlevel ℕ_discrete

entry_discrete : Discrete TenantEntry
unfolding sleep_discrete progress_discrete
entry_discrete = hlevel (sleep_discrete, progress_discrete)

documents_discrete : Discrete StateDocument
unfolding text_discrete entry_discrete
documents_discrete = hlevel (text_discrete, entry_discrete)

tags_discrete : Discrete (Option StateDocument)
unfolding documents_discrete
tags_discrete = hlevel documents_discrete

some_ne_none : (m : StateDocument) → ◌≢◌ {A = Option StateDocument} (some m) none
some_ne_none m = λ h. cc h

some_inj : (m n : StateDocument) → ◌≡◌ {A = Option StateDocument} (some m) (some n) → m ≡ n
some_inj m n h = cc h

-- The content is its own digest.
instance abbrev plain : Digest StateDocument
plain = record {
  Tag = Option StateDocument;
  absent = none;
  tag_eq = λ a b. decide (tags_discrete a b);
  tag_eq_iff = λ a b. decide_iff (tags_discrete a b);
  sum = λ m. some m;
  sum-ne-absent = some_ne_none;
  sum-injective = some_inj;
}

abbrev plain_codec : Codec StateDocument
plain_codec = record { encode = λ m. m; decode = λ m. some m }

abbrev succeeds : Calls
succeeds c tenant i = none

-- Nothing fails, nobody else writes, and the term lasts.
abbrev quiet : Env StateDocument
quiet = record {
  read_fault = λ i. none;
  write_fault = λ i. none;
  others = λ i s. s;
  refreshed = λ i d. d;
  is_cancelled = λ i. false;
  term_over = λ i. false;
  now = λ i. i;
  cutover = some succeeds;
  callback = λ i. none;
  has_on_changed = true;
  timer_retry = 1;
}

abbrev empty_world : World StateDocument
empty_world = record {
  disk = [];
  state = [];
  timers = [];
  active = false;
  term = 0;
  clock = 0;
  log = [];
}

abbrev term_world : World StateDocument
term_world = record empty_world { active = true; term = 1 }

abbrev requests : List Request
requests = start_term ∷ sleep_tenant "acme" (some 90) true false ∷ wake_tenant "acme" ∷ []

perform_all-orderly_example : OrderlyWorld (perform_all quiet plain_codec requests empty_world)
unfolding OrderlyWorld
perform_all-orderly_example = perform_all-orderly quiet plain_codec refl requests empty_world tt

abbrev stop_requests : List Request
stop_requests =
    sleep_tenant "acme" none false true
    ∷ wake_tenant "acme"
    ∷ resume_for_tenant 3 succeeds "acme"
    ∷ []

perform_all-stopped_example : perform_all quiet plain_codec stop_requests empty_world ≡ empty_world
unfolding are_operations
perform_all-stopped_example =
    perform_all-stopped quiet plain_codec stop_requests empty_world refl refl

sleep-falls_asleep_example :
    After
      (λ (slept, at) v.
        (sleeps "acme" v.state ≡ true) × (wake_time "acme" v.state ≡ some 90) × (at ≡ some 90))
      Always
      (sleep quiet plain_codec "acme" (some 90) true false term_world)
sleep-falls_asleep_example =
    sleep-falls_asleep "acme" quiet plain_codec (some 90) true false term_world

wake-wakes_up_example :
    After (λ _ v. sleeps "acme" v.state ≡ false) Always (wake quiet plain_codec "acme" term_world)
wake-wakes_up_example = wake-wakes_up "acme" quiet plain_codec term_world

-- A tenant that is awake: the document has no entry for it.
resume_tenant_without_entry :
    (sleeps "acme" term_world.state ≡ false)
    × ((resume_tenant quiet plain_codec succeeds "acme" term_world).0 ≡ ok tt)
    × (sleeps "acme" (resume_tenant quiet plain_codec succeeds "acme" term_world).1.state ≡ true)
unfolding sleeps get resume_tenant Mock.read no_change block_target_registration Mock.put_if_match
    decide tags_discrete put mark_withdrawal finish_resumed ℕ_discrete
resume_tenant_without_entry = (refl, refl, refl)

-- The tenant is active, and the restored targets do not become ready.
abbrev busy : Env StateDocument
busy = record quiet {
  cutover =
      some λ c t i. elim c [ check_activity ↦ some 1 | wait_targets_ready ↦ some 2 | _ ↦ none ];
}

abbrev calls_of : List Deed → List CutoverCall
calls_of [] = []
calls_of (called c t b ∷ past) = c ∷ calls_of past
calls_of (stored _ _ ∷ past) = calls_of past
calls_of (notified _ ∷ past) = calls_of past
calls_of (ran _ ∷ past) = calls_of past

abbrev slept_twice : World StateDocument
slept_twice =
    perform_all busy plain_codec
      (start_term ∷ sleep_tenant "acme" none true false ∷ sleep_tenant "acme" none false false ∷ [])
      empty_world

-- A tenant whose rollback was interrupted after its targets were restored is put to sleep by the next
-- request without their withdrawal: its targets are restored last, and may be registered.
restored_targets_stay :
    (calls_of slept_twice.log
      ≡ wait_wake_path_ready ∷ install_wake_path ∷ wait_targets_ready ∷ restore_targets
        ∷ check_activity ∷ begin_target_withdrawal ∷ wait_wake_path_ready ∷ install_wake_path ∷ [])
    × (slept_twice.state
        ≡ (
          "acme",
          record {
            sleep = some (record { wake_at = none });
            transition = none;
            target_registration_blocked = false;
          },
        )
          ∷ [])
unfolding perform_all Mock.read get no_change begin_sleep Mock.put_if_match decide tags_discrete put
    block_target_registration mark_withdrawal begin_restore ℕ_discrete finish_sleep
restored_targets_stay = (refl, refl)

quiet_is_quiet : Quiet quiet plain_codec
quiet_is_quiet = record {
  reads = λ i. refl;
  writes = λ i. refl;
  alone = λ i s. refl;
  lasts = λ i. refl;
  in_term = λ i. refl;
  decodes = λ d. refl;
}

calls_some_inj : (c d : Calls) → ◌≡◌ {A = Option Calls} (some c) (some d) → c ≡ d
calls_some_inj c d h = cc h

quiet-CallsSucceed :
    (cutover : Calls) → ◌≡◌ {A = Option Calls} (some succeeds) (some cutover) → CallsSucceed cutover
unfolding CallsSucceed
quiet-CallsSucceed cutover h = subst CallsSucceed (calls_some_inj succeeds cutover h) λ c t i. refl

-- A term in which the tenant sleeps.
abbrev asleep_document : StateDocument
asleep_document =
    (
      "acme",
      record {
        sleep = some (record { wake_at = none });
        transition = none;
        target_registration_blocked = true;
      },
    )
    ∷ []

abbrev asleep_world : World StateDocument
asleep_world = record term_world {
  disk = (state_key, asleep_document) ∷ [];
  state = asleep_document;
}

asleep_world-Ready : Ready plain_codec asleep_world
unfolding Ready Readable get
asleep_world-Ready = (refl, inr (asleep_document, asleep_document, refl, refl))

wake-succeeds_example :
    (b : Bool) × ((wake quiet plain_codec "acme" asleep_world).0 ≡ ok b)
    × (sleeps "acme" (wake quiet plain_codec "acme" asleep_world).1.state ≡ false)
wake-succeeds_example =
    wake-succeeds plain_codec quiet quiet_is_quiet quiet-CallsSucceed "acme" asleep_world
      asleep_world-Ready
