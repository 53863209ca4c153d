-- ===== src/Reconciler/Loop/Duplicates.antt =====
-- Events that were handled a short time ago are not handled again.
use nstance.Base.{
  ap, ◌∙◌, ℕ, ◌+◌, ◌≤◌, ◌<◌, String, ◌≡◌, refl, sym, subst, true, false, some, [], ◌∷◌, inl, inr,
  arith, Bool-cases, ltb, length, ok, err, ◌==◌,
}
use nstance.Base.Dict.{Dict, get, get-put_self}
use nstance.Reconciler.{ReconcileEvent, World, Env}
use nstance.Reconciler.Events.{Outcome}
use nstance.Reconciler.Loop.{
  handle_event, is_duplicate, cleaned, settle, cooldown, event_key, dispatch, drop_stale,
}

-- The cleaning of the cache keeps every entry that is not older than the cooldown.
get-drop_stale :
    (now cool : ℕ) (m : Dict ℕ) (k : String) (at : ℕ)
    → get m k ≡ some at
    → now ≤ at + cool
    → get (drop_stale now cool m) k ≡ some at
unfolding get drop_stale
get-drop_stale now cool [] k at h le = h
get-drop_stale now cool ((j, b) ∷ m) k at h le = elim (Bool-cases (j == k)) [
  | inl e ↦ ground (arith, e)
  | inr e ↦ ground (arith, e, get-drop_stale now cool m k at)
]

get-cleaned :
    (env : Env) (w : World) (k : String) (at : ℕ)
    → get w.recent_events k ≡ some at
    → env.now ≤ at + cooldown env
    → get (cleaned env w).recent_events k ≡ some at
get-cleaned env w k at h le = elim (Bool-cases (ltb 100 (length w.recent_events))) [
  | inl c ↦ ground (arith, c, get-drop_stale env.now (cooldown env) w.recent_events k at h le)
  | inr c ↦ ground (arith, c)
]

fresh-is_duplicate :
    (env : Env) (e : ReconcileEvent) (w : World) (at : ℕ)
    → get w.recent_events (event_key e) ≡ some at
    → env.now < at + cooldown env
    → is_duplicate env e (cleaned env w) ≡ true
unfolding is_duplicate
fresh-is_duplicate env e w at h lt =
    ground (arith, get-cleaned env w (event_key e) at h (ground arith))

-- A duplicate of a fresh entry of the cache does no more than clean the cache.
duplicate-ignored :
    (env : Env) (e : ReconcileEvent) (w : World) (at : ℕ)
    → env.is_leader ≡ true
    → env.config_loaded ≡ true
    → e.prevent_duplicate ≡ true
    → get w.recent_events (event_key e) ≡ some at
    → env.now < at + cooldown env
    → handle_event env e w ≡ cleaned env w
unfolding handle_event
duplicate-ignored env e w at l c p h lt = simp (l, c, p, fresh-is_duplicate env e w at h lt)

settle-remembers :
    (env : Env) (e : ReconcileEvent) (o : Outcome)
    → o.0 ≡ ok tt
    → e.prevent_duplicate ≡ true
    → get (settle env e o).recent_events (event_key e) ≡ some env.now
unfolding settle
settle-remembers env e (ok u, w) done p =
    simp (p, get-put_self w.recent_events (event_key e) env.now)
settle-remembers env e (err x, w) done p = ground (arith, done)

same_key :
    (e e' : ReconcileEvent)
    → e'.type ≡ e.type
    → e'.group_key ≡ e.group_key
    → e'.instance_id ≡ e.instance_id
    → event_key e' ≡ event_key e
unfolding event_key
same_key e e' t g i = rw (t, g, i) refl

handle_event-settles :
    (env : Env) (e : ReconcileEvent) (w : World)
    → env.is_leader ≡ true
    → env.config_loaded ≡ true
    → e.prevent_duplicate ≡ true
    → is_duplicate env e (cleaned env w) ≡ false
    → handle_event env e w ≡ settle env e (dispatch env e.type e (cleaned env w))
unfolding handle_event
handle_event-settles env e w l c p fresh = simp (l, c, p, fresh)

-- An event that asks not to be repeated was handled with success. Where the next event that is handled has
-- the same type, group and instance, asks the same and comes before two intervals of the health check have
-- passed since, nothing is done about it, whatever else it says and whatever has become of the rest of the
-- world in between: all that it does is to clean the cache of recent events. This server leads and has its
-- configuration both times, and the first event is no duplicate itself.
pub handle_event-once :
    (env later : Env) (e e' : ReconcileEvent) (w w' : World)
    → env.is_leader ≡ true
    → env.config_loaded ≡ true
    → later.is_leader ≡ true
    → later.config_loaded ≡ true
    → e.prevent_duplicate ≡ true
    → e'.prevent_duplicate ≡ true
    → e'.type ≡ e.type
    → e'.group_key ≡ e.group_key
    → e'.instance_id ≡ e.instance_id
    → is_duplicate env e (cleaned env w) ≡ false
    → (dispatch env e.type e (cleaned env w)).0 ≡ ok tt
    → w'.recent_events ≡ (handle_event env e w).recent_events
    → later.now < env.now + cooldown later
    → handle_event later e' w' ≡ cleaned later w'
handle_event-once env later e e' w w' l c l' c' p p' t g i fresh done cache lt =
    duplicate-ignored later e' w' env.now l' c' p'
      (ap (λ m. get m (event_key e')) cache
        ∙ subst (λ k. get (handle_event env e w).recent_events k ≡ some env.now)
            (sym (same_key e e' t g i))
            (subst (λ x. get x.recent_events (event_key e) ≡ some env.now)
              (sym (handle_event-settles env e w l c p fresh))
              (settle-remembers env e (dispatch env e.type e (cleaned env w)) done p)))
      lt
