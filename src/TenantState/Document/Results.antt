-- ===== src/TenantState/Document/Results.antt =====
-- What `update` answers: the document that it changed or left, which is now the manager's copy.
use nstance.Base.{ℕ, zero, suc, ◌≡◌, refl, Bool, true, false, Option, none, some, Result, ok, err}
use nstance.Base.Exec.{pure, ◌>>=◌}
use nstance.Base.Exec.Triple.{After, Triple, Triple-raise, Triple-bind}
use nstance.Storage.{Digest}
use nstance.TenantState.{StateDocument, TenantError, World, Codec, Env, cas_conflict}
use nstance.TenantState.Entries.{Change}
use nstance.TenantState.Document.{
  Action, install, check_context, load, commit, settled, changed_from, update_from, update,
  max_cas_retries,
}

-- The change made this document, from one that it was given, or left it as it is.
pub record Changed {B : Type 0} (change : Change B) (d : StateDocument) (b : B) : Type 0 where
  pub started : B
  pub before : StateDocument
  pub outcome : Option StateDocument
  pub changes : change started before ≡ (outcome, b)
  pub result : d ≡ elim outcome [ none ↦ before | some after ↦ after ]

abbrev pub Always : {Data : Type 0} → World Data → Type 0
Always w = Unit

module _ {Data : Type 0} where
  pub Always-after : {A : Type 0} (m : Action Data A) → Triple Always m (λ _. Always) Always
  Always-after {A} m = record { at = λ w p. after (m w) }
    where
      after : (r : Result TenantError A × World Data) → After (λ _. Always) Always r
      after (ok a, w) = tt
      after (err e, w) = tt

  module _ (env : Env Data) ⦃md5 : Digest Data⦄ (codec : Codec Data) {B : Type 0}
      (change : Change B) where
    -- The manager's copy is the document that was returned.
    abbrev Installed : StateDocument × B → World Data → Type 0
    Installed (d, b) w = (w.state ≡ d) × Changed change d b

    installed :
        (d : StateDocument) (b : B)
        → Changed change d b
        → Triple Always (install env d >>= λ _. pure (d, b)) Installed Always
    unfolding install
    installed d b c = record { at = λ w p. (refl, c) }

    changed_from-Installed :
        (d : StateDocument) (b : B) (etag : md5.Tag) (again : B → Action Data (StateDocument × B))
        → ((b : B) → Triple Always (again b) Installed Always)
        → (r : Option StateDocument × B) → change b d ≡ r
        → Triple Always (changed_from env codec d etag again r) Installed Always
    unfolding changed_from settled
    changed_from-Installed d b etag again h (none, b') e =
        installed d b'
          (record { started = b; before = d; outcome = none; changes = e; result = refl })
    changed_from-Installed d b etag again h (some d', b') e =
        Triple-bind (Always-after (commit env codec d d' etag)) through
      where
        through : (t : Bool) → Triple Always (settled env codec d' b' again t) Installed Always
        through true =
            installed d' b'
              (record { started = b; before = d; outcome = some d'; changes = e; result = refl })
        through false = h b'

    update_from-Installed :
        (rounds : ℕ) (b : B)
        → Triple Always (update_from env codec rounds change b) Installed Always
    unfolding update_from
    update_from-Installed zero b = Triple-raise cas_conflict λ w p. tt
    update_from-Installed (suc rounds) b = Triple-bind (Always-after (check_context env)) λ _.
        Triple-bind (Always-after (load env codec)) λ (d, etag).
          changed_from-Installed d b etag (update_from env codec rounds change)
            (update_from-Installed rounds) (change b d) refl

    -- Where `update` succeeds, the manager's copy is the document that it returned, and that document is
    -- what the change made of one that was stored, or that one where the change declined.
    pub update-Installed :
        (b : B)
        → Triple Always
            (update env codec change b)
            (λ (d, b) w. (w.state ≡ d) × Changed change d b)
            Always
    unfolding update
    update-Installed b = update_from-Installed max_cas_retries b
