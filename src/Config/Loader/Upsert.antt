-- ===== src/Config/Loader/Upsert.antt =====
-- What an update of a dynamic group leaves, and what is read afterwards.
use nstance.Base.{ℕ, String, ◌≡◌, refl, Bool, Option, none, some, Result, ok, err}
use nstance.Base.Dict.{Dict, get}
use nstance.Base.Exec.Triple.{After, Triple, Triple-bind}
use nstance.Storage.{StorageError, not_found, precondition, io, Digest}
use nstance.Storage.Mock
use nstance.Config.{groups_of, GroupConfig, Groups, Config, ConfigError}
use nstance.Config.Loader.{
  Loader, Codec, Env, groups_key, with_group, cached, uncached, parsed, stored, load_from_storage,
  publish_locally, publish_unless, published, put_answered, save_hashed, save, save_changed,
  changed, update_dynamic_group,
}

module _ {Data Value Hashes : Type 0} ⦃md5 : Digest Data⦄ (env : Env Data Value Hashes)
    (codec : Codec Data Value) where
  -- The loader still has this configuration and serves these groups.
  unfoldable pub Serves : Config Value → Option (Groups Value) → Loader Data Value Hashes → Type 0
  Serves c o l = (l.config ≡ c) × (l.groups ≡ o)

  cached-Serves :
      (c : Config Value) (o : Option (Groups Value)) (fault : Option ℕ) (d : Data)
      (l : Loader Data Value Hashes)
      → Serves c o l
      → Serves c o (cached fault d l)
  unfolding cached Serves
  cached-Serves c o none d l s = s
  cached-Serves c o (some e) d l s = s

  uncached-Serves :
      (c : Config Value) (o : Option (Groups Value)) (fault : Option ℕ)
      (l : Loader Data Value Hashes)
      → Serves c o l
      → Serves c o (uncached fault l)
  unfolding uncached Serves
  uncached-Serves c o none l s = s
  uncached-Serves c o (some e) l s = s

  stored-Serves :
      (c : Config Value) (o : Option (Groups Value)) (r : Result StorageError (Data × md5.Tag))
      (l : Loader Data Value Hashes)
      → Serves c o l
      → After (λ _. Serves c o) (Serves c o) (stored env codec r l)
  unfolding stored
  stored-Serves c o (err not_found) l s = s
  stored-Serves c o (err precondition) l s = s
  stored-Serves c o (err (io e)) l s = s
  stored-Serves c o (ok (d, etag)) l s = of_document (codec.decode d)
    where
      of_document :
          (x : Option (Groups Value))
          → After (λ _. Serves c o) (Serves c o) (parsed env codec d etag x l)
      of_document none = s
      of_document (some gs) = cached-Serves c o env.cache_write_fault d l s

  load-Serves :
      (c : Config Value) (o : Option (Groups Value))
      → Triple (Serves c o) (load_from_storage env codec) (λ _. Serves c o) (Serves c o)
  unfolding load_from_storage
  load-Serves c o = record {
    at = λ l s. stored-Serves c o (Mock.read env.read_fault l.disk groups_key) l s;
  }

  publish-Serves :
      (c : Config Value) (o : Option (Groups Value)) (fault : Option ℕ) (gs : Groups Value)
      (d : Data) (hashes : Hashes) (l : Loader Data Value Hashes)
      → Serves c o l
      → After (λ _. Serves c (some gs)) (Serves c o) (publish_unless env codec fault gs d hashes l)
  unfolding publish_unless Serves
  publish-Serves c o (some e) gs d hashes l s = s
  publish-Serves c o none gs d hashes l s =
      ((cached-Serves c o env.cache_write_fault d (record l { hashes = hashes }) s).0, refl)

  published-Serves :
      (c : Config Value) (o p : Option (Groups Value))
      (r : Result ConfigError (Unit {0}) × Loader Data Value Hashes)
      → After (λ _. Serves c p) (Serves c o) r
      → After (λ _. Serves c p) (Serves c o) (published env codec r)
  unfolding published
  published-Serves c o p (ok _, l) s = s
  published-Serves c o p (err e, l) s = uncached-Serves c o env.cache_write_fault l s

  put_answered-Serves :
      (c : Config Value) (o : Option (Groups Value)) (gs : Groups Value) (hashes : Hashes)
      (r : Result StorageError (Dict Data)) (l : Loader Data Value Hashes)
      → Serves c o l
      → After (λ _. Serves c (some gs)) (Serves c o) (put_answered env codec gs hashes r l)
  unfolding put_answered publish_locally Serves
  put_answered-Serves c o gs hashes (err precondition) l s = s
  put_answered-Serves c o gs hashes (err not_found) l s = s
  put_answered-Serves c o gs hashes (err (io e)) l s = s
  put_answered-Serves c o gs hashes (ok t) l s =
      published-Serves c o (some gs) _
        (publish-Serves c o env.publish_fault gs (codec.encode gs) hashes (record l { disk = t }) s)

  save_hashed-Serves :
      (c : Config Value) (o : Option (Groups Value)) (gs : Groups Value) (etag : md5.Tag)
      (r : Result ℕ Hashes) (l : Loader Data Value Hashes)
      → Serves c o l
      → After (λ _. Serves c (some gs)) (Serves c o) (save_hashed env codec gs etag r l)
  unfolding save_hashed Serves
  save_hashed-Serves c o gs etag (err e) l s = s
  save_hashed-Serves c o gs etag (ok hashes) l s =
      let t = env.between l.disk in
      put_answered-Serves c o gs hashes
        (Mock.put_if_match env.write_fault t groups_key (codec.encode gs) etag)
        (record l { disk = t }) s

  -- A change of one entry that was saved: the groups that are served now are those that were read, with the
  -- changed entry.
  pub record Saved (c : Config Value) (tenant key : String)
      (change : GroupConfig Value → Bool → Result ConfigError (GroupConfig Value))
      (l : Loader Data Value Hashes) : Type 0 where
    pub before : Groups Value
    pub group : GroupConfig Value
    pub changes : changed env codec change (get (groups_of tenant before) key) ≡ ok group
    pub serves : Serves c (some (with_group tenant key group before)) l

  module _ (c : Config Value) (o : Option (Groups Value)) (tenant key : String)
      (change : GroupConfig Value → Bool → Result ConfigError (GroupConfig Value)) where
    save_changed-Saved :
        (gs : Groups Value) (etag : md5.Tag) (r : Result ConfigError (GroupConfig Value))
        (l : Loader Data Value Hashes)
        → changed env codec change (get (groups_of tenant gs) key) ≡ r
        → Serves c o l
        → After
            (λ _. Saved c tenant key change)
            (Serves c o)
            (save_changed env codec tenant key gs etag r l)
    unfolding save_changed save
    save_changed-Saved gs etag (err e) l h s = s
    save_changed-Saved gs etag (ok g) l h s =
        saved
          (save_hashed env codec (with_group tenant key g gs) etag
            (env.compute_hashes l.config (with_group tenant key g gs)) l)
          (save_hashed-Serves c o (with_group tenant key g gs) etag
            (env.compute_hashes l.config (with_group tenant key g gs)) l s)
      where
        saved :
            (x : Result ConfigError (Unit {0}) × Loader Data Value Hashes)
            → After (λ _. Serves c (some (with_group tenant key g gs))) (Serves c o) x
            → After (λ _. Saved c tenant key change) (Serves c o) x
        saved (ok _, l') q = record { before = gs; group = g; changes = h; serves = q }
        saved (err e, l') q = q

    pub update-Saved :
        Triple
          (Serves c o)
          (update_dynamic_group env codec tenant key change)
          (λ _. Saved c tenant key change)
          (Serves c o)
    unfolding update_dynamic_group
    update-Saved = Triple-bind (load-Serves c o) λ (gs, etag). record {
      at = λ l s.
          save_changed-Saved gs etag (changed env codec change (get (groups_of tenant gs) key)) l
            refl s;
    }
