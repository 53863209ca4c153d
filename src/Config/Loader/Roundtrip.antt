-- ===== src/Config/Loader/Roundtrip.antt =====
-- A group that was upserted is read back.
use nstance.Base.{
  String, ◌≡◌, refl, sym, ap, subst, ◌∙◌, true, false, ◌==◌, Option, none, some, Result, ok, err,
  is_some, [],
}
use nstance.Base.Dict.{Dict, get, put, get-put_self}
use nstance.Base.Exec.Triple.{After}
use nstance.Storage.{Digest}
use nstance.Config.{groups_of, GroupConfig, no_group, Groups, Config, ConfigError}
use nstance.Config.Groups.{upserted}
use nstance.Config.Groups.Merged.{effective, get-merge_groups}
use nstance.Config.Groups.Upserted.{Merges, MergedFrom, upserted-Merges, Effect, effective-Effect}
use nstance.Config.Loader.{
  Loader, Codec, Env, with_group, changed, update_dynamic_group, upsert_group, found, merged_group,
  looked_up, load_dynamic_groups, get_group,
}
use nstance.Config.Loader.Upsert.{Serves, Saved, update-Saved}

module _ {Value : Type 0} where
  groups_of-with_group :
      (tenant key : String) (g : GroupConfig Value) (gs : Groups Value)
      → groups_of tenant (with_group tenant key g gs) ≡ put (groups_of tenant gs) key g
  unfolding groups_of with_group
  groups_of-with_group tenant key g gs =
      ap (λ o. elim o as (λ _. Dict (GroupConfig Value)) [ none ↦ [] | some m ↦ m ])
        (get-put_self gs tenant (put (groups_of tenant gs) key g))

module _ {Data Value Hashes : Type 0} ⦃md5 : Digest Data⦄ (env : Env Data Value Hashes)
    (codec : Codec Data Value) (tenant key : String) (group : GroupConfig Value) where
  static_of : Config Value → Option (GroupConfig Value)
  static_of c = get (groups_of tenant c.groups) key

  -- The entry that an upsert merged into.
  changed-MergedFrom :
      (c : Config Value) (o : Option (GroupConfig Value)) (g : GroupConfig Value)
      → changed env codec (upserted c (static_of c) group) o ≡ ok g
      → (existing : GroupConfig Value) × MergedFrom group existing (is_some (static_of c)) g
  unfolding changed Merges
  changed-MergedFrom c none g h = (
    no_group,
    subst (Merges group no_group (is_some (static_of c))) h
        (upserted-Merges c (static_of c) group no_group false),
  )
  changed-MergedFrom c (some e) g h = (
    e,
    subst (Merges group e (is_some (static_of c))) h (upserted-Merges c (static_of c) group e true),
  )

  -- What the merged view has for the tenant and the key.
  merged_group-upserted :
      (c : Config Value) (gs : Groups Value) (existing g : GroupConfig Value)
      → MergedFrom group existing (is_some (static_of c)) g
      → (x : GroupConfig Value) × (merged_group env codec c tenant key (with_group tenant key g gs)
          ≡ ok x)
        × Effect (static_of c) group x
  unfolding merged_group static_of found
  merged_group-upserted c gs existing g m =
      let (x, e, effect) = effective-Effect (static_of c) group existing g m in
      let entry =
        ap (λ d. get d key) (groups_of-with_group tenant key g gs)
        ∙ get-put_self (groups_of tenant gs) key g in
      let view =
        get-merge_groups (groups_of tenant c.groups) (groups_of tenant (with_group tenant key g gs))
          key
        ∙ ap (effective (static_of c)) entry
        ∙ e in
      (x, ap (found env codec tenant key) view, effect)

  -- A loader that has its groups in memory reads them from there.
  get_group-served :
      (c : Config Value) (gs : Groups Value) (l : Loader Data Value Hashes)
      → (tenant == "") ≡ false
      → Serves env codec c (some gs) l
      → (get_group env codec tenant key l).0 ≡ merged_group env codec c tenant key gs
  unfolding get_group load_dynamic_groups looked_up Serves
  get_group-served c gs l h (e, s) = rw (h, s, e)

  -- The group is read back with what it was given.
  ReadsBack : Config Value → Loader Data Value Hashes → Type 0
  ReadsBack c l =
      (x : GroupConfig Value) × ((get_group env codec tenant key l).0 ≡ ok x)
      × Effect (get (groups_of tenant c.groups) key) group x

  Saved-ReadsBack :
      (c : Config Value) (l : Loader Data Value Hashes)
      → (tenant == "") ≡ false
      → Saved env codec c tenant key (upserted c (static_of c) group) l
      → ReadsBack c l
  unfolding ReadsBack static_of
  Saved-ReadsBack c l h saved =
      let (existing, m) =
        changed-MergedFrom c (get (groups_of tenant saved.before) key) saved.group saved.changes in
      let (x, e, effect) = merged_group-upserted c saved.before existing saved.group m in
      (
        x,
        get_group-served c (with_group tenant key saved.group saved.before) l h saved.serves ∙ e,
        effect,
      )

  outcome-ReadsBack :
      (l : Loader Data Value Hashes) (r : Result ConfigError (Unit {0}) × Loader Data Value Hashes)
      → (tenant == "") ≡ false
      → After
          (λ _. Saved env codec l.config tenant key (upserted l.config (static_of l.config) group))
          (Serves env codec l.config l.groups)
          r
      → After (λ _. ReadsBack l.config) (λ v. v.groups ≡ l.groups) r
  unfolding Serves
  outcome-ReadsBack l (ok _, v) h saved = Saved-ReadsBack l.config v h saved
  outcome-ReadsBack l (err e, v) h (_, same) = same

  -- UpsertGroup for a tenant that is not the empty text, whatever faults the storage, the cache and the
  -- local database report, and whatever other writers do between its read and its write: where it succeeds,
  -- GetGroup answers, from the groups in the loader's memory, with a group that has the size, the instance
  -- type and the variables that the update gives; where the group is not static, it has also the template, the
  -- subnet pool and the arguments that the update gives; where it is, it keeps the template, the subnet pool,
  -- the arguments, the drain timeout and the load balancers of the static group. Where it fails, the loader
  -- serves the groups that it served before.
  pub upsert_group-reads_back :
      (l : Loader Data Value Hashes)
      → (tenant == "") ≡ false
      → After
          (λ _ v.
            (x : GroupConfig Value) × ((get_group env codec tenant key v).0 ≡ ok x)
            × Effect (get (groups_of tenant l.config.groups) key) group x)
          (λ v. v.groups ≡ l.groups)
          (upsert_group env codec tenant key group l)
  unfolding upsert_group ReadsBack static_of Serves
  upsert_group-reads_back l h =
      subst (λ r. After (λ _. ReadsBack l.config) (λ v. v.groups ≡ l.groups) r) (sym (skip l h))
        (outcome-ReadsBack l _ h (
          (update-Saved env codec l.config l.groups tenant key
              (upserted l.config (static_of l.config) group)).at
            l (refl, refl)))
    where
      skip :
          (l : Loader Data Value Hashes)
          → (tenant == "") ≡ false
          → upsert_group env codec tenant key group l
            ≡ update_dynamic_group env codec tenant key
                (upserted l.config (static_of l.config) group)
                l
      skip l h = rw (h)
