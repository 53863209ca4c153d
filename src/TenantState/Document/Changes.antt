-- ===== src/TenantState/Document/Changes.antt =====
-- The changes that the operations make keep the order.
use nstance.Base.{
  String, ◌≡◌, refl, ap, sym, ◌∙◌, ◌≢◌, Bool, true, false, Option, none, some, is_some, is_none,
  arith, ◌&&◌, if_cases, ℕ, eq_iff, subst,
}
use nstance.Base.Dict.{get, put, delete, get-put_self, get-put_ne, get-delete_self, get-delete}
use nstance.TenantState.{StateDocument, TenantEntry, entry_of, TransitionProgress}
use nstance.TenantState.Entries.{
  Change, Edited, sleeps, wake_time, fell_asleep, same_sleep, begin_sleep, finish_sleep,
  finish_resumed, wake_now, begin_wake, forget, begin_restore, block_target_registration,
  mark_withdrawal, no_change,
}
use nstance.TenantState.Log.{LastCall, Prepared}
use nstance.TenantState.Document.Steps.{Sound}

pub sleeps-put :
    (t : String) (d : StateDocument) (e : TenantEntry) → sleeps t (put d t e) ≡ is_some e.sleep
unfolding sleeps entry_of
sleeps-put t d e = ground (arith, get-put_self d t e)

pub wake_time-put :
    (t : String) (d : StateDocument) (e : TenantEntry)
    → wake_time t (put d t e) ≡ elim e.sleep [ none ↦ none | some s ↦ s.wake_at ]
unfolding wake_time entry_of
wake_time-put t d e = ground (arith, get-put_self d t e)

pub sleeps-delete : (t : String) (d : StateDocument) → sleeps t (delete d t) ≡ false
unfolding sleeps entry_of
sleeps-delete t d = ground (arith, get-delete_self d t)

delete_elsewhere :
    (t : String) (d : StateDocument) (k : String) → t ≢ k → get (delete d t) k ≡ get d k
delete_elsewhere t d k ne = ground (arith, get-delete d t k, eq_iff t k)

some_inj : {A : Type 0} {x y : A} → ◌≡◌ {A = Option A} (some x) (some y) → x ≡ y
some_inj h = cc

false_ne_true : false ≢ true
false_ne_true h = cc

-- What a change makes of a document: nothing, a new entry of the tenant, or the end of its entry. A new
-- entry may be asleep where the old one was, or where the tenant is prepared.
data Edit (tenant : String) (P : LastCall → Type 0) (d : StateDocument)
    : Option StateDocument → Type 0 where
  untouched : Edit tenant P d none
  entry_put :
      (e : TenantEntry)
      → (sleeps tenant d ≡ false → is_some e.sleep ≡ true → (x : LastCall) → P x → Prepared x)
      → Edit tenant P d (some (put d tenant e))
  entry_deleted : Edit tenant P d (some (delete d tenant))

module _ {tenant : String} {P : LastCall → Type 0} where
  Edit-elsewhere :
      (d d' : StateDocument) (o : Option StateDocument)
      → Edit tenant P d o
      → o ≡ some d'
      → (k : String) → tenant ≢ k
      → get d' k ≡ get d k
  Edit-elsewhere d d' none untouched h k ne = cc h
  Edit-elsewhere d d' (some _) (entry_put e f) h k ne =
      subst (λ x. get x k ≡ get d k) (some_inj h) (get-put_ne d tenant e k ne)
  Edit-elsewhere d d' (some _) entry_deleted h k ne =
      subst (λ x. get x k ≡ get d k) (some_inj h) (delete_elsewhere tenant d k ne)

  Edit-Prepared :
      (d d' : StateDocument) (o : Option StateDocument)
      → Edit tenant P d o
      → o ≡ some d'
      → sleeps tenant d ≡ false
      → sleeps tenant d' ≡ true
      → (x : LastCall) → P x
      → Prepared x
  Edit-Prepared d d' none untouched h awake asleep x p = cc h
  Edit-Prepared d d' (some _) (entry_put e f) h awake asleep x p =
      f awake (sym (sleeps-put tenant d e) ∙ ap (sleeps tenant) (some_inj h) ∙ asleep) x p
  Edit-Prepared d d' (some _) entry_deleted h awake asleep x p =
      elim (false_ne_true
        (sym (sleeps-delete tenant d) ∙ ap (sleeps tenant) (some_inj h) ∙ asleep)) [ ]

  Sound-edits :
      {B : Type 0} {change : Change B}
      → ((b : B) (d : StateDocument) → Edit tenant P d (change b d).0)
      → Sound tenant P change
  Sound-edits {change} edits = record {
    elsewhere = λ b d d'. Edit-elsewhere d d' (change b d).0 (edits b d);
    prepared = λ b d d'. Edit-Prepared d d' (change b d).0 (edits b d);
  }

  -- A new entry that sleeps only if the old one did.
  as_before :
      (d : StateDocument) (e : TenantEntry)
      → is_some e.sleep ≡ sleeps tenant d
      → Edit tenant P d (some (put d tenant e))
  as_before d e same = entry_put e λ awake asleep x p. cc

  pub no_change-Sound : Sound tenant P no_change
  unfolding no_change
  no_change-Sound = Sound-edits λ b d. untouched

  pub forget-Sound : Sound tenant P (forget tenant)
  unfolding forget
  forget-Sound = Sound-edits λ b d. entry_deleted

  pub begin_restore-Sound : Sound tenant P (begin_restore tenant)
  unfolding begin_restore sleeps
  begin_restore-Sound = Sound-edits λ b d. as_before d _ refl

  pub block_target_registration-Sound : Sound tenant P (block_target_registration tenant)
  unfolding block_target_registration sleeps
  block_target_registration-Sound = Sound-edits λ b d.
      if_cases (λ (r : Edited (Unit {0})). Edit tenant P d r.0)
        (entry_of tenant d).target_registration_blocked _ _ (λ _. untouched)
        (λ _. as_before d _ refl)

  pub mark_withdrawal-Sound : (at : ℕ) → Sound tenant P (mark_withdrawal tenant at)
  unfolding mark_withdrawal sleeps
  mark_withdrawal-Sound at = Sound-edits λ b d. as_before d _ refl

  -- The changes with a cutover of `Sleep` and `Wake`.
  pub begin_sleep-Sound :
      (wake_at : Option ℕ) (guarded : Bool) → Sound tenant P (begin_sleep tenant wake_at guarded)
  unfolding begin_sleep sleeps
  begin_sleep-Sound wake_at guarded = Sound-edits λ (slept, changed) d.
      let e = entry_of tenant d in
      if_cases (λ (r : Edited (Bool × Bool)). Edit tenant P d r.0) (same_sleep wake_at e) _ _
        (λ _. untouched)
        λ _.
          if_cases (λ (r : Edited (Bool × Bool)). Edit tenant P d r.0) (is_some e.sleep) _ _
            (λ h. as_before d _ (sym h)) (λ _. as_before d _ refl)

  pub begin_wake-Sound : Sound tenant P (begin_wake tenant)
  unfolding begin_wake
  begin_wake-Sound = Sound-edits λ b d.
      if_cases (λ (r : Edited Bool). Edit tenant P d r.0)
        (is_none (entry_of tenant d).sleep && is_none (entry_of tenant d).transition) _ _
        (λ _. untouched) (λ _. entry_put _ λ awake asleep x p. elim (false_ne_true asleep) [ ])

  pub wake_now-Sound : Sound tenant P (wake_now tenant)
  unfolding wake_now
  wake_now-Sound = Sound-edits λ b d.
      if_cases (λ (r : Edited Bool). Edit tenant P d r.0) (sleeps tenant d) _ _ (λ _. entry_deleted)
        (λ _. untouched)

  module _ (ready : (x : LastCall) → P x → Prepared x) where
    pub finish_sleep-Sound : (wake_at : Option ℕ) → Sound tenant P (finish_sleep tenant wake_at)
    unfolding finish_sleep
    finish_sleep-Sound wake_at = Sound-edits λ b d. entry_put _ λ awake asleep. ready

    finish-Edit :
        (d : StateDocument) (o : Option TransitionProgress)
        → Edit tenant P d
            (elim o as (λ _. Option StateDocument × Bool) [
              | none ↦ (none, false)
              | some p ↦ (
                some (
                    put d tenant
                      (record (fell_asleep p.wake_at (entry_of tenant d)) { transition = none })),
                true,
              )
            ]).0
    finish-Edit d none = untouched
    finish-Edit d (some p) = entry_put _ λ awake asleep. ready

    pub finish_resumed-Sound : Sound tenant P (finish_resumed tenant)
    unfolding finish_resumed
    finish_resumed-Sound = Sound-edits λ b d. finish-Edit d (entry_of tenant d).transition
