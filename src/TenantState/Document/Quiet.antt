-- ===== src/TenantState/Document/Quiet.antt =====
-- In a quiet term the document can be read and changed.
use nstance.Base.{
  ℕ, String, ◌≡◌, refl, sym, ap, subst, ◌∙◌, ◌⊎◌, inl, inr, Bool, true, false, none, some, Result,
  ok, [], if_cases, arith,
}
use nstance.Base.Dict.{Dict, get, put, get-put_self}
use nstance.Base.Exec.Triple.{After, Triple, Triple-mono, Triple-pure, Triple-bind}
use nstance.Storage.{Digest, current_etag}
use nstance.Storage.Laws.{put_if_match_current}
use nstance.Storage.Mock
use nstance.TenantState.{StateDocument, TenantError, World, Codec, Env}
use nstance.TenantState.Entries.{Change, Edited}
use nstance.TenantState.Document.{
  state_key, Action, moment, install, notify_changed, check_context, decoded, loaded_from, load,
  written, commit, settled, changed_from, update_from, update,
}

-- Nothing fails, nobody else writes, no context ends, and what is encoded can be decoded.
pub record Quiet {Data : Type 0} (env : Env Data) (codec : Codec Data) : Type 0 where
  pub reads : (i : ℕ) → env.read_fault i ≡ none
  pub writes : (i : ℕ) → env.write_fault i ≡ none
  pub alone : (i : ℕ) (s : Dict Data) → env.others i s ≡ s
  pub lasts : (i : ℕ) → env.is_cancelled i ≡ false
  pub in_term : (i : ℕ) → env.term_over i ≡ false
  pub decodes : (d : StateDocument) → codec.decode (codec.encode d) ≡ some d

abbrev pub Never : {Data : Type 0} → World Data → Type 0
Never w = true ≡ false

module _ {Data : Type 0} (codec : Codec Data) where
  -- The object of the document is absent or can be decoded.
  unfoldable pub Readable : Dict Data → Type 0
  Readable s =
      (get s state_key ≡ none)
      ⊎ ((content : Data) × (d : StateDocument) × (get s state_key ≡ some content)
          × (codec.decode content ≡ some d))

  -- There is a term, and the document can be read.
  unfoldable pub Ready : World Data → Type 0
  Ready w = (w.active ≡ true) × Readable w.disk

  -- An action that succeeds in a ready world, and leaves it ready.
  abbrev pub Succeeds : {A : Type 0} → Action Data A → Type 0
  Succeeds m = Triple Ready m (λ _. Ready) Never

  module _ (env : Env Data) (q : Quiet env codec) where
    pub moment-Succeeds : Succeeds (moment env)
    unfolding moment Ready
    moment-Succeeds = record {
      at = λ w (a, r). (a, subst Readable (sym (q.alone w.clock w.disk)) r);
    }

    install-Succeeds : (d : StateDocument) → Succeeds (install env d)
    unfolding install Ready
    install-Succeeds d = record { at = λ w p. p }

    pub notify_changed-Succeeds : (k : String) → Succeeds (notify_changed env k)
    unfolding notify_changed Ready
    notify_changed-Succeeds k = record {
      at = λ w p. if_cases (λ (v : World Data). Ready v) env.has_on_changed _ _ (λ _. p) (λ _. p);
    }

    pub check_context-Succeeds : Succeeds (check_context env)
    unfolding check_context
    check_context-Succeeds = record {
      at = λ w p.
          if_cases (λ (r : Result TenantError (Unit {0})). After (λ _. Ready) Never (r, w))
            (env.is_cancelled w.clock) _ _ (λ h. sym h ∙ q.lasts w.clock) (λ _. p);
    }

    module _ ⦃md5 : Digest Data⦄ where
      -- What was read has the entity tag of what is stored.
      Loaded : StateDocument × md5.Tag → World Data → Type 0
      Loaded (d, etag) w = Ready w × (etag ≡ current_etag w.disk state_key)

      loaded-ok :
          (s : Dict Data)
          → Readable s
          → (d : StateDocument) × (loaded_from env codec none s ≡ ok (d, current_etag s state_key))
      unfolding loaded_from decoded Mock.read Readable current_etag
      loaded-ok s (inl e) = ([], ground (arith, e))
      loaded-ok s (inr (content, d, e, h)) = (d, ground (arith, e, h))

      Loaded-After :
          (i : ℕ) (w : World Data)
          → Ready w
          → After Loaded Never (loaded_from env codec (env.read_fault i) w.disk, w)
      unfolding Ready Loaded
      Loaded-After i w (a, r) =
          let (d, e) = loaded-ok w.disk r in
          subst (λ (x : Result TenantError (StateDocument × md5.Tag)). After Loaded Never (x, w))
            (sym (ap (λ f. loaded_from env codec f w.disk) (q.reads i) ∙ e)) ((a, r), refl)

      load-Succeeds : Triple Ready (load env codec) Loaded Never
      unfolding load
      load-Succeeds = Triple-bind moment-Succeeds λ i. record { at = Loaded-After i }

      -- The conditional write goes through.
      Through : Bool → World Data → Type 0
      Through b w = Ready w × (b ≡ true)

      written-Readable :
          (s : Dict Data) (d : StateDocument) → Readable (put s state_key (codec.encode d))
      unfolding Readable
      written-Readable s d =
          inr (codec.encode d, d, get-put_self s state_key (codec.encode d), q.decodes d)

      written-After :
          (before after : StateDocument) (etag : md5.Tag) (i : ℕ) (w : World Data)
          → Loaded (before, etag) w
          → After Through Never (
              written env codec before after w
                (Mock.put_if_match (env.write_fault i) w.disk state_key (codec.encode after) etag))
      unfolding written Loaded Through Ready
      written-After before after etag i w ((a, r), e) =
          subst (λ x. After Through Never (written env codec before after w x))
            (sym (
              ap (λ f. Mock.put_if_match f w.disk state_key (codec.encode after) etag) (q.writes i)
              ∙ put_if_match_current w.disk state_key (codec.encode after) etag e))
            ((a, written-Readable w.disk after), refl)

      moment-Loaded :
          (r : StateDocument × md5.Tag) → Triple (Loaded r) (moment env) (λ _. Loaded r) Never
      unfolding moment Loaded Ready
      moment-Loaded (d, etag) = record {
        at = λ w ((a, r), e).
            subst (λ s. ((w.active ≡ true) × Readable s) × (etag ≡ current_etag s state_key))
              (sym (q.alone w.clock w.disk)) ((a, r), e);
      }

      commit-Through :
          (before after : StateDocument) (etag : md5.Tag)
          → Triple (Loaded (before, etag)) (commit env codec before after etag) Through Never
      unfolding commit
      commit-Through before after etag =
          Triple-bind (moment-Loaded (before, etag))
            λ i. record { at = written-After before after etag i }

      module _ {B : Type 0} (change : Change B) where
        settled-Succeeds :
            (d : StateDocument) (b : B) (again : B → Action Data (StateDocument × B))
            (through : Bool)
            → Triple (Through through) (settled env codec d b again through) (λ _. Ready) Never
        unfolding settled Through
        settled-Succeeds d b again true =
            Triple-mono (λ w p. p.0) (λ a w p. p) (λ w p. p)
              (Triple-bind (install-Succeeds d) λ _. Triple-pure (d, b) λ w p. p)
        settled-Succeeds d b again false = record { at = λ w (p, h). cc h }

        changed_from-Succeeds :
            (d : StateDocument) (etag : md5.Tag) (again : B → Action Data (StateDocument × B))
            (r : Edited B)
            → Triple (Loaded (d, etag)) (changed_from env codec d etag again r) (λ _. Ready) Never
        unfolding changed_from Loaded
        changed_from-Succeeds d etag again (none, b) =
            Triple-mono (λ w p. p.0) (λ a w p. p) (λ w p. p)
              (Triple-bind (install-Succeeds d) λ _. Triple-pure (d, b) λ w p. p)
        changed_from-Succeeds d etag again (some d', b) =
            Triple-bind (commit-Through d d' etag) (settled-Succeeds d' b again)

        -- One round is enough.
        pub update-Succeeds : (b : B) → Succeeds (update env codec change b)
        unfolding update update_from
        update-Succeeds b =
            Triple-bind check_context-Succeeds λ _.
              Triple-bind load-Succeeds λ (d, etag). changed_from-Succeeds d etag _ (change b d)
