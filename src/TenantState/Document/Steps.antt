-- ===== src/TenantState/Document/Steps.antt =====
-- `update` and its steps keep the order of the log.
use nstance.Base.{
  ℕ, zero, suc, String, ◌≡◌, refl, ap, sym, ◌≢◌, Bool, true, false, Option, none, some, Result, ok,
  err, if◌then◌else◌, if_both,
}
use nstance.Base.Dict.{Dict, get}
use nstance.Base.Exec.Triple.{After, Triple, Triple-pure, Triple-raise, Triple-bind}
use nstance.Storage.{StorageError, not_found, precondition, io, Digest}
use nstance.Storage.Mock
use nstance.TenantState.{StateDocument, TenantError, World, Codec, Env, cancelled, cas_conflict}
use nstance.TenantState.Entries.{Change, sleeps}
use nstance.TenantState.Log.{
  LastCall, last_call, Prepared, OneTenant, Orderly, OrderlyWorld, At, At-world, At-log,
  At-notified,
}
use nstance.TenantState.Document.{
  state_key, Action, moment, install, notify_changed, check_context, loaded_from, load, written,
  commit, settled, changed_from, update_from, update, max_cas_retries,
}

-- A change that keeps the order when the tenant's last call is as told: it changes that tenant's entry
-- only, and puts the tenant to sleep only when it is prepared.
pub record Sound {B : Type 0} (tenant : String) (P : LastCall → Type 0) (change : Change B)
    : Type 0 where
  pub elsewhere :
      (b : B) (d d' : StateDocument)
      → (change b d).0 ≡ some d'
      → (k : String) → tenant ≢ k
      → get d' k ≡ get d k
  pub prepared :
      (b : B) (d d' : StateDocument)
      → (change b d).0 ≡ some d'
      → sleeps tenant d ≡ false
      → sleeps tenant d' ≡ true
      → (x : LastCall) → P x
      → Prepared x

module _ {Data : Type 0} (tenant : String) (P : LastCall → Type 0) where
  -- An action that keeps what is known of the tenant's last call.
  unfoldable pub Steady : {A : Type 0} → Action Data A → Type 0
  Steady m = Triple (At tenant P) m (λ _. At tenant P) OrderlyWorld

  -- Any outcome of a step that leaves the world as it is.
  either :
      {A : Type 0} (r : Result TenantError A) (w : World Data)
      → At tenant P w
      → After (λ _. At tenant P) OrderlyWorld (r, w)
  either (ok a) w p = p
  either (err e) w p = At-world tenant P w p

  module _ (env : Env Data) where
    pub moment-Steady : Steady (moment env)
    unfolding Steady moment
    moment-Steady = record { at = λ w p. At-log tenant P w ((moment env w).1) refl p }

    pub install-Steady : (d : StateDocument) → Steady (install env d)
    unfolding Steady install
    install-Steady d = record { at = λ w p. At-log tenant P w ((install env d w).1) refl p }

    pub check_context-Steady : Steady (check_context env)
    unfolding Steady check_context
    check_context-Steady = record {
      at = λ w p. either (if env.is_cancelled w.clock then err cancelled else ok tt) w p;
    }

    pub notify_changed-Steady : (k : String) → Steady (notify_changed env k)
    unfolding Steady notify_changed
    notify_changed-Steady k = record {
      at = λ w p. if_both (At tenant P) env.has_on_changed (At-notified tenant P k w p) p;
    }

    module _ ⦃md5 : Digest Data⦄ (codec : Codec Data) where
      pub load-Steady : Steady (load env codec)
      unfolding Steady load
      load-Steady =
          Triple-bind (moment-Steady)
            λ i. record { at = λ w p. either (loaded_from env codec (env.read_fault i) w.disk) w p }

      written-After :
          (before after : StateDocument) (w : World Data) (r : Result StorageError (Dict Data))
          → At tenant P w
          → OneTenant w.log before after
          → After (λ _. At tenant P) OrderlyWorld (written env codec before after w r)
      unfolding written At OrderlyWorld Orderly last_call
      written-After before after w (ok s) (o, p) one = ((one, o), p)
      written-After before after w (err precondition) p one = p
      written-After before after w (err not_found) p one = p.0
      written-After before after w (err (io e)) p one = p.0

      commit-Steady :
          (before after : StateDocument) (etag : md5.Tag)
          → ((w : World Data) → At tenant P w → OneTenant w.log before after)
          → Steady (commit env codec before after etag)
      unfolding Steady commit
      commit-Steady before after etag one = Triple-bind (moment-Steady) λ i. record {
        at = λ w p.
            written-After before after w
              (Mock.put_if_match (env.write_fault i) w.disk state_key (codec.encode after) etag) p
              (one w p);
      }

      module _ {B : Type 0} (change : Change B) (sound : Sound tenant P change) where
        one_tenant :
            (b : B) (d d' : StateDocument) (w : World Data)
            → (change b d).0 ≡ some d'
            → At tenant P w
            → OneTenant w.log d d'
        unfolding At
        one_tenant b d d' w h p = record {
          tenant = tenant;
          elsewhere = sound.elsewhere b d d' h;
          prepared =
              λ awake asleep. sound.prepared b d d' h awake asleep (last_call tenant w.log) p.1;
        }

        settled-Steady :
            (d : StateDocument) (b : B) (again : B → Action Data (StateDocument × B))
            (through : Bool)
            → ((b : B) → Steady (again b))
            → Steady (settled env codec d b again through)
        unfolding Steady settled
        settled-Steady d b again true h =
            Triple-bind (install-Steady d) λ _. Triple-pure (d, b) λ w p. p
        settled-Steady d b again false h = h b

        changed_from-Steady :
            (d : StateDocument) (b : B) (etag : md5.Tag)
            (again : B → Action Data (StateDocument × B))
            → ((b : B) → Steady (again b))
            → (r : Option StateDocument × B) → r ≡ change b d
            → Steady (changed_from env codec d etag again r)
        unfolding Steady changed_from
        changed_from-Steady d b etag again h (none, b') e =
            Triple-bind (install-Steady d) λ _. Triple-pure (d, b') λ w p. p
        changed_from-Steady d b etag again h (some d', b') e =
            Triple-bind
              (commit-Steady d d' etag λ w p. one_tenant b d d' w (ap (λ r. r.0) (sym e)) p)
              λ through. settled-Steady d' b' again through h

        update_from-Steady : (rounds : ℕ) (b : B) → Steady (update_from env codec rounds change b)
        unfolding Steady update_from
        update_from-Steady zero b = Triple-raise cas_conflict (At-world tenant P)
        update_from-Steady (suc rounds) b = Triple-bind check_context-Steady λ _.
            Triple-bind load-Steady λ (d, etag).
              changed_from-Steady d b etag (update_from env codec rounds change)
                (update_from-Steady rounds) (change b d) refl

        pub update-Steady : (b : B) → Steady (update env codec change b)
        unfolding update
        update-Steady b = update_from-Steady max_cas_retries b
