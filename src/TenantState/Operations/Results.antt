-- ===== src/TenantState/Operations/Results.antt =====
-- What the changes leave, and the rules by which an operation achieves it in the manager's copy of the
-- document.
pub mod Sleep
pub mod Wake
use nstance.Base.{
  ℕ, zero, suc, String, ◌≡◌, refl, sym, ap, subst, ◌∙◌, Bool, true, false, ◌||◌, not, Option, none,
  some, Result, ok, err, if◌then◌else◌, is_some, is_none, if_cases, arith, ◌&&◌, Bool-cases,
  Option-cases, inl, inr, nat_eq,
}
use nstance.Base.Dict.{Dict, get, put, delete}
use nstance.Base.Exec.{Exec, pure, raise, read, outcome, ◌>>=◌, ◌>>◌}
use nstance.Base.Exec.Triple.{
  After, Triple, Triple-mono, Triple-pure, Triple-read, Triple-raise, Triple-bind, Triple-if,
}
use nstance.Storage.{Digest}
use nstance.TenantState.{
  SleepState, StateDocument, TenantEntry, TransitionProgress, entry_of, TenantError, inactive,
  nil_transition, World, Codec, Env,
}
use nstance.TenantState.Entries.{
  Change, Edited, sleeps, wake_time, equal_time, same_sleep, fell_asleep, sleep_now, begin_sleep,
  finish_sleep, finish_resumed, wake_now, begin_wake, forget, no_change,
}
use nstance.TenantState.Document.{Action, moment, update, notify_changed, check_context}
use nstance.TenantState.Document.Changes.{sleeps-put, wake_time-put, sleeps-delete}
use nstance.TenantState.Document.Results.{Changed, Always, Always-after, update-Installed}
use nstance.TenantState.Cutover.{Calls, call, transition, restore, continue_sleep}
use nstance.TenantState.Operations.{
  with_lock, run_for_tenant, run_callback, sleep_on, sleep_body, run_check, sleep, woken,
  wake_change, wake_locked, wake, resumed, resume_by,
}

equal_time-eq : (a b : Option ℕ) → equal_time a b ≡ true → a ≡ b
equal_time-eq none none h = refl
equal_time-eq none (some b) h = cc h
equal_time-eq (some a) none h = cc h
equal_time-eq (some a) (some b) h = ground arith

-- The tenant sleeps, with this deadline.
unfoldable pub AsleepUntil : String → Option ℕ → StateDocument → Type 0
AsleepUntil tenant wake_at d = (sleeps tenant d ≡ true) × (wake_time tenant d ≡ wake_at)

same_deadline :
    (wake_at : Option ℕ) (o : Option SleepState)
    → elim o [ none ↦ false | some s ↦ equal_time s.wake_at wake_at ] ≡ true
    → (is_some o ≡ true) × (elim o [ none ↦ none | some s ↦ s.wake_at ] ≡ wake_at)
same_deadline wake_at none h = cc h
same_deadline wake_at (some s) h = (refl, equal_time-eq s.wake_at wake_at h)

same_sleep-AsleepUntil :
    (tenant : String) (wake_at : Option ℕ) (d : StateDocument)
    → same_sleep wake_at (entry_of tenant d) ≡ true
    → AsleepUntil tenant wake_at d
unfolding AsleepUntil sleeps wake_time
same_sleep-AsleepUntil tenant wake_at d h = same_deadline wake_at (entry_of tenant d).sleep h

put-AsleepUntil :
    (tenant : String) (wake_at : Option ℕ) (d : StateDocument) (e : TenantEntry)
    → AsleepUntil tenant wake_at (put d tenant (fell_asleep wake_at e))
unfolding AsleepUntil
put-AsleepUntil tenant wake_at d e = (sleeps-put tenant d _, wake_time-put tenant d _)

module _ {B : Type 0} where
  -- What holds of every outcome of a change holds of the one that was installed.
  Changed-holds :
      (change : Change B) (P : StateDocument → B → Type 0)
      → ((b : B) (d : StateDocument)
          → P (elim (change b d).0 [ none ↦ d | some d' ↦ d' ]) (change b d).1)
      → (d : StateDocument) (b : B) → Changed change d b
      → P d b
  Changed-holds change P h d b c =
      subst (λ x. P x b) (sym c.result)
        (subst (λ r. P (elim r.0 [ none ↦ c.before | some d' ↦ d' ]) r.1) c.changes
          (h c.started c.before))

module _ (tenant : String) where
  -- The document that a change leaves.
  unfoldable pub left_by : {B : Type 0} → Edited B → StateDocument → StateDocument
  left_by r d = elim r.0 [ none ↦ d | some d' ↦ d' ]

  pub sleep_now-result :
      (wake_at : Option ℕ) (b : Bool × Bool) (d : StateDocument)
      → AsleepUntil tenant wake_at (left_by (sleep_now tenant wake_at b d) d)
  unfolding sleep_now left_by
  sleep_now-result wake_at (slept, changed) d =
      if_cases (λ (r : Edited (Bool × Bool)). AsleepUntil tenant wake_at (left_by r d))
        (same_sleep wake_at (entry_of tenant d)) _ _ (same_sleep-AsleepUntil tenant wake_at d)
        (λ _. put-AsleepUntil tenant wake_at d (entry_of tenant d))

  -- A tenant that slept before keeps sleeping, with the new deadline.
  pub begin_sleep-result :
      (wake_at : Option ℕ) (guarded : Bool) (b : Bool × Bool) (d : StateDocument)
      → (begin_sleep tenant wake_at guarded b d).1.0 ≡ true
      → AsleepUntil tenant wake_at (left_by (begin_sleep tenant wake_at guarded b d) d)
  unfolding begin_sleep left_by
  begin_sleep-result wake_at guarded (slept, changed) d =
      if_cases
        (λ (r : Edited (Bool × Bool)). r.1.0 ≡ true → AsleepUntil tenant wake_at (left_by r d))
        (same_sleep wake_at (entry_of tenant d)) _ _
        (λ h. λ _. same_sleep-AsleepUntil tenant wake_at d h)
        (λ _.
          if_cases
            (λ (r : Edited (Bool × Bool)). r.1.0 ≡ true → AsleepUntil tenant wake_at (left_by r d))
            (is_some (entry_of tenant d).sleep) _ _
            (λ _. λ _. put-AsleepUntil tenant wake_at d (entry_of tenant d)) (λ _. λ h. cc h))

  pub finish_sleep-result :
      (wake_at : Option ℕ) (b : Unit {0}) (d : StateDocument)
      → AsleepUntil tenant wake_at (left_by (finish_sleep tenant wake_at b d) d)
  unfolding finish_sleep left_by
  finish_sleep-result wake_at b d =
      put-AsleepUntil tenant wake_at d (record (entry_of tenant d) { transition = none })

  pub forget-result :
      (b : Unit {0}) (d : StateDocument) → sleeps tenant (left_by (forget tenant b d) d) ≡ false
  unfolding forget left_by
  forget-result b d = sleeps-delete tenant d

  pub wake_now-result :
      (b : Bool) (d : StateDocument) → sleeps tenant (left_by (wake_now tenant b d) d) ≡ false
  unfolding wake_now left_by
  wake_now-result b d =
      if_cases (λ (r : Edited Bool). sleeps tenant (left_by r d) ≡ false) (sleeps tenant d) _ _
        (λ _. sleeps-delete tenant d) (λ h. h)

  pub begin_wake-result :
      (b : Bool) (d : StateDocument) → sleeps tenant (left_by (begin_wake tenant b d) d) ≡ false
  unfolding begin_wake left_by sleeps
  begin_wake-result b d =
      if_cases (λ (r : Edited Bool). sleeps tenant (left_by r d) ≡ false)
        (is_none (entry_of tenant d).sleep && is_none (entry_of tenant d).transition) _ _
        (λ h. no_sleep (entry_of tenant d) h) (λ _. sleeps-put tenant d _)
    where
      no_sleep :
          (e : TenantEntry)
          → (is_none e.sleep && is_none e.transition) ≡ true
          → is_some e.sleep ≡ false
      no_sleep e h = ground arith

  module _ {Data : Type 0} ⦃md5 : Digest Data⦄ (env : Env Data) (codec : Codec Data) where
    -- What an update leaves, by what its change leaves.
    pub update-leaves :
        {B : Type 0} (change : Change B) (P : StateDocument → B → Type 0)
        → ((b : B) (d : StateDocument) → P (left_by (change b d) d) (change b d).1)
        → (b : B)
        → Triple Always (update env codec change b) (λ (d, b) w. (w.state ≡ d) × P d b) Always
    unfolding left_by
    update-leaves change P h b =
        Triple-mono (λ w p. p) (λ (d, b) w (e, c). (e, Changed-holds change P h d b c)) (λ w p. p)
          (update-Installed env codec change b)

    check_context-Keeps : (P : World Data → Type 0) → Triple P (check_context env) (λ _. P) Always
    unfolding check_context
    check_context-Keeps P = record {
      at = λ w p.
          if_cases (λ (r : Result TenantError (Unit {0})). After (λ _. P) Always (r, w))
            (env.is_cancelled w.clock) _ _ (λ _. tt) (λ _. p);
    }

    with_lock-Achieves :
        {A : Type 0} (m : Action Data A) (Q : A → World Data → Type 0)
        → Triple Always m Q Always
        → Triple Always (with_lock env codec m) Q Always
    unfolding with_lock
    with_lock-Achieves m Q t = Triple-bind (Always-after (moment env)) λ i.
        Triple-bind (check_context-Keeps Always) λ _.
          Triple-bind (Always-after (update env codec no_change tt)) λ _.
            Triple-bind t λ a. Triple-bind (check_context-Keeps (Q a)) λ _. Triple-pure a λ w q. q

    -- What an operation achieves while it has the tenant's lock, it achieves.
    pub run_for_tenant-Achieves :
        {A : Type 0} (m : Action Data A) (Q : A → World Data → Type 0)
        → Triple Always m Q Always
        → Triple Always (run_for_tenant env codec m) Q Always
    unfolding run_for_tenant
    run_for_tenant-Achieves {A} m Q t = Triple-bind (check_context-Keeps Always) λ _. record {
      at = λ w p.
          if_cases (λ (r : Result TenantError A × World Data). After Q Always r)
            (not w.active || env.term_over w.clock) _ _ (λ _. tt)
            (λ _. (with_lock-Achieves m Q t).at w p);
    }

    pub notify_changed-Keeps :
        (P : StateDocument → Type 0) (k : String)
        → Triple (λ w. P w.state) (notify_changed env k) (λ _ w. P w.state) Always
    unfolding notify_changed
    notify_changed-Keeps P k = record {
      at = λ w p. if_cases (λ (v : World Data). P v.state) env.has_on_changed _ _ (λ _. p) (λ _. p);
    }
