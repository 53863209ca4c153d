-- ===== src/Gc/Careful.antt =====
-- The garbage collection deletes nothing that it has no reason to, and forgets nothing too early.
pub mod Cycle
use mathlib.Core.Bool.{true≢false}
use nstance.Base.{
  ℕ, String, ◌≡◌, ◌≢◌, ◌+◌, ◌<◌, Option-cases, refl, sym, ap, subst, ◌∙◌, ◌⊎◌, inl, inr, Bool, true,
  false, ◌==◌, ◌&&◌, not, Option, none, some, List, [], ◌∷◌, Result, ok, err, if◌then◌else◌,
  if_cases, is_some, nat_eq, All, All-mono, arith,
}
use nstance.Base.Dict.{Dict}
use nstance.Storage.{StorageError, not_found, precondition, io}
use nstance.Storage.Mock
use nstance.LocalDb.{Instance, Table, Status, pending, running, unknown, is_unhealthy}
use nstance.LocalDb.Rows.{select, delete_instance}
use nstance.LocalDb.Collected.{
  is_unhealthy_row, is_dangling, is_stale_pre_insert, is_sooner, insert_by, order_by,
  find_unhealthy_provider_instances, find_dangling_instances, find_stale_pre_inserts,
  query_stale_health_instances, find_deleted_instances_past_retention,
}
use nstance.Gc.{
  Deed, terminated, record_removed, row_deleted, group_changed, check_requested, row_purged, World,
  Env, logged, moment, removed_answered, remove_at, remove_record, row_answered, delete_row,
  notify_group, clean_up, deletion_answered, terminate, collect, terminate_and_cleanup,
  collect_found, collect_dangling, collect_stale, and_next, run_garbage_collection, request_checks,
  check_instance_health, purge_answered, purge, record_answered, remove_deleted_at, remove_deleted,
  remove_all_deleted, cleanup_deleted_instance_records, run_cycle, default_deleted_record_retention,
  clock_now,
}

-- Had the row no provider ID, or an empty one?
unfoldable pub is_bare : Option String → Bool
is_bare none = true
is_bare (some id) = id == ""

-- The instance is gone at the provider, by the last thing that was done but for the removal of records, or
-- it had no provider ID when its row was read.
unfoldable pub Freed : Instance → List Deed → Type 0
unfolding is_bare
Freed i (record_removed j b ∷ past) = Freed i past
Freed i (terminated j b ∷ past) = (is_bare i.provider_id ≡ true) ⊎ ((j ≡ i) × (b ≡ true))
Freed i past = is_bare i.provider_id ≡ true

-- The instance's record was removed last.
unfoldable pub RecordGone : Instance → List Deed → Type 0
RecordGone i (record_removed j b ∷ past) = (j ≡ i) × (b ≡ true)
RecordGone i past = true ≡ false

select-All : (p : Instance → Bool) (t : Table) → All (λ i. p i ≡ true) (select p t)
unfolding select
select-All p [] = tt
select-All p (i ∷ t) =
    if_cases (All (λ i. p i ≡ true)) (p i) _ _ (λ h. (h, select-All p t)) (λ h. select-All p t)

insert_by-All :
    (P : Instance → Type 0) (time : Instance → Option ℕ) (i : Instance) (t : Table)
    → P i
    → All P t
    → All P (insert_by time i t)
unfolding insert_by
insert_by-All P time i [] p ps = (p, tt)
insert_by-All P time i (j ∷ t) p (q, ps) =
    if_cases (All P) (is_sooner (time i) (time j)) _ _ (λ _. (p, (q, ps)))
      (λ _. (q, insert_by-All P time i t p ps))

order_by-All :
    (P : Instance → Type 0) (time : Instance → Option ℕ) (t : Table)
    → All P t
    → All P (order_by time t)
unfolding order_by
order_by-All P time [] ps = tt
order_by-All P time (i ∷ t) (p, ps) =
    insert_by-All P time i (order_by time t) p (order_by-All P time t ps)

-- An instance without a provider ID is not deleted there.
bare-Freed : (i : Instance) (past : List Deed) → is_bare i.provider_id ≡ true → Freed i past
unfolding Freed
bare-Freed i [] h = h
bare-Freed i (terminated j b ∷ past) h = inl h
bare-Freed i (record_removed j b ∷ past) h = bare-Freed i past h
bare-Freed i (row_deleted j ∷ past) h = h
bare-Freed i (group_changed t g ∷ past) h = h
bare-Freed i (check_requested id ∷ past) h = h
bare-Freed i (row_purged j ∷ past) h = h

unhealthy_status :
    (s : Status) → is_unhealthy s ≡ true → (s ≢ pending) × (s ≢ running) × (s ≢ unknown)
unfolding is_unhealthy
unhealthy_status s h = (
  λ e. true≢false (sym h ∙ ap is_unhealthy e),
  λ e. true≢false (sym h ∙ ap is_unhealthy e),
  λ e. true≢false (sym h ∙ ap is_unhealthy e),
)

module _ {Data : Type 0} (env : Env Data) (max_age : ℕ) where
  -- A reason to collect an instance by its row, at a reading of the clock. The row is live, and either
  -- the provider knows the instance and has reported a status that is not pending, running or unknown, or
  -- its certificate was issued longer ago than the age and it has not registered or has no provider ID.
  unfoldable pub Condemned : Instance → Type 0
  Condemned i =
      (i.deleted_at ≡ none)
      × (((p : String) × (s : Status) × (i.provider_id ≡ some p)
            × (i.provider_state ≡ some s)
            × (s ≢ pending)
            × (s ≢ running)
            × (s ≢ unknown))
          ⊎ ((n : ℕ) × (at : ℕ) × (i.issued_at ≡ some at)
              × (at + max_age < env.now n)
              × ((i.registered_at ≡ none) ⊎ (i.provider_id ≡ none))))

  pub unhealthy-Condemned : (i : Instance) → is_unhealthy_row i ≡ true → Condemned i
  unfolding Condemned
  unhealthy-Condemned i h = elim (Option-cases i.provider_state) [
    | inl n ↦ ground (arith, h, n)
    | inr (s, e) ↦ elim (Option-cases i.provider_id) [
      | inl n ↦ ground (arith, h, n)
      | inr (p, n) ↦
          let (a, b, c) = unhealthy_status s (ground (arith, h, e)) in
          (ground (arith, h), inl (p, s, n, e, a, b, c))
    ]
  ]

  pub dangling-Condemned :
      (n : ℕ) (i : Instance) → is_dangling (env.now n) max_age i ≡ true → Condemned i
  unfolding Condemned
  dangling-Condemned n i h = elim (Option-cases i.issued_at) [
    | inl e ↦ ground (arith, h, e)
    | inr (at, e) ↦
        (ground (arith, h), inr (n, at, e, ground (arith, h, e), inl (ground (arith, h))))
  ]

  pub stale-Condemned :
      (n : ℕ) (i : Instance) → is_stale_pre_insert (env.now n) max_age i ≡ true → Condemned i
  unfolding Condemned
  stale-Condemned n i h = elim (Option-cases i.issued_at) [
    | inl e ↦ ground (arith, h, e)
    | inr (at, e) ↦
        (ground (arith, h), inr (n, at, e, ground (arith, h, e), inr (ground (arith, h))))
  ]

  -- Only condemned instances were deleted at the provider; a row was deleted only of a condemned instance
  -- that is gone at the provider or had no provider ID when its row was read; a deleted row was removed only after its record.
  unfoldable pub Careful : List Deed → Type 0
  unfolding Freed RecordGone Condemned
  Careful [] = Unit
  Careful (terminated i b ∷ past) = Condemned i × Careful past
  Careful (record_removed i b ∷ past) = Careful past
  Careful (row_deleted i ∷ past) = (Condemned i × Freed i past) × Careful past
  Careful (group_changed t g ∷ past) = Careful past
  Careful (check_requested id ∷ past) = Careful past
  Careful (row_purged i ∷ past) = RecordGone i past × Careful past

  -- Careful so far, and the instance is gone at the provider.
  Ready : Instance → World Data → Type 0
  Ready i w = Careful w.log × Freed i w.log

  removed_answered-Ready :
      (i : Instance) (w : World Data) (r : Result StorageError (Dict Data))
      → Ready i w
      → Ready i (removed_answered env i w r)
  unfolding removed_answered Ready Careful Freed
  removed_answered-Ready i w (ok s) p = p
  removed_answered-Ready i w (err e) p = p

  remove_at-Ready :
      (i : Instance) (o : Option String) (w : World Data)
      → Ready i w
      → Ready i (remove_at env i o w)
  unfolding remove_at moment Ready
  remove_at-Ready i none w p = p
  remove_at-Ready i (some key) w p =
      if_cases (Ready i) (i.tenant == "") _ _ (λ _. p)
        λ _.
          removed_answered-Ready i (moment env w)
            (Mock.remove (env.storage_fault w.clock) (moment env w).disk key) p

  row_answered-Careful :
      (i : Instance) (w : World Data) (b : Bool) (o : Option Table)
      → Condemned i
      → Ready i w
      → Careful (row_answered env i w b o).log
  unfolding row_answered Ready Careful
  row_answered-Careful i w true o c p = p.0
  row_answered-Careful i w false none c p = p.0
  row_answered-Careful i w false (some t) c p = ((c, p.1), p.0)

  clean_up-Careful :
      (i : Instance) (w : World Data) → Condemned i → Ready i w → Careful (clean_up env i w).log
  unfolding clean_up remove_record delete_row notify_group moment Careful Ready
  clean_up-Careful i w c p =
      let v = remove_at env i (env.record_key i.tenant i.id) w in
      let deleted =
        row_answered-Careful i (moment env v) (env.db_fault v.clock)
          (delete_instance (env.now v.clock) i.id (moment env v).table) c
          (remove_at-Ready i (env.record_key i.tenant i.id) w p) in
      if_cases (λ (x : World Data). Careful x.log)
        (env.has_reconciler && (not (i.tenant == "") && not (i.group == ""))) _ _ (λ _. deleted)
        (λ _. deleted)

  terminate-Careful :
      (i : Instance) (o : Option (String → String → ℕ → Option ℕ)) (w : World Data)
      → Condemned i
      → Careful w.log
      → Careful (terminate env i o w).log
  unfolding terminate deletion_answered moment Careful Ready Freed
  terminate-Careful i none w c p = p
  terminate-Careful i (some delete) w c p = of_answer (delete i.tenant i.id w.clock)
    where
      of_answer : (o : Option ℕ) → Careful (deletion_answered env i (moment env w) o).log
      of_answer none =
          clean_up-Careful i (logged (terminated i true) (moment env w)) c
            ((c, p), inr (refl, refl))
      of_answer (some e) = (c, p)

  collect-Careful :
      (i : Instance) (o : Option String) (w : World Data)
      → o ≡ i.provider_id
      → Condemned i
      → Careful w.log
      → Careful (collect env i o w).log
  unfolding collect Ready is_bare
  collect-Careful i none w e c p =
      clean_up-Careful i w c (p, bare-Freed i w.log (subst (λ x. is_bare x ≡ true) e refl))
  collect-Careful i (some id) w e c p =
      if_cases (λ (x : World Data). Careful x.log) (id == "") _ _
        (λ h. clean_up-Careful i w c (p, bare-Freed i w.log (subst (λ x. is_bare x ≡ true) e h)))
        (λ h. terminate-Careful i env.deleter w c p)

  terminate_and_cleanup-Careful :
      (t : Table) (w : World Data)
      → All Condemned t
      → Careful w.log
      → Careful (terminate_and_cleanup env t w).log
  unfolding terminate_and_cleanup
  terminate_and_cleanup-Careful [] w cs p = p
  terminate_and_cleanup-Careful (i ∷ t) w (c, cs) p =
      terminate_and_cleanup-Careful t (collect env i i.provider_id w) cs
        (collect-Careful i i.provider_id w refl c p)
