-- ===== src/Reconciler/Events.antt =====
-- internal/server/reconciler/events.go: termination notices, deletions, drain acknowledgements; and
-- the reconciliation of all groups of expiry.go.
pub mod Size
use nstance.Base.{
  ℕ, String, Bool, true, false, ◌&&◌, ◌||◌, Option, none, some, List, [], ◌∷◌, ◌++◌, Result, ok,
  err, ◌==◌, ltb, is_some, if◌then◌else◌,
}
use nstance.LocalDb.{Instance, Table}
use nstance.LocalDb.Rows.{get_instance, mark_drain_acked, is_active}
use nstance.Reconciler.{
  GroupIdentity, GroupConfig, ReconcileError, tenant_asleep, not_found, database, instance_failure,
  ack_drain, instance_row, active_identities, deleted, error_notified, World, Env, logged, notified,
}
use nstance.Reconciler.Create.{create_instance_for_group}
use nstance.Reconciler.Drain.{
  NatHandling, not_handled, handled, handled_with, replace_nat_instance, initiate_instance_drain,
  drain_timeout_of,
}
use nstance.Reconciler.Expiry.{find_instance, same_group, check_on_demand_expiry}
use nstance.Reconciler.Scaling.{handle_group_changed}

abbrev pub Outcome : Type 0
Outcome = Result ReconcileError (Unit {0}) × World

spot_created : Env → Instance → Result ReconcileError String × World → Outcome
spot_created env i (ok id, w) = (ok tt, w)
spot_created env i (err tenant_asleep, w) = (ok tt, w)
spot_created env i (err e, w) = (err e, notified env (error_notified i.tenant i.group i.id) w)

-- The drain begins first, while the instance still runs; then the replacement is created.
spot_replace : Env → Instance → Result ReconcileError GroupConfig → World → Outcome
unfolding spot_created
spot_replace env i (err e) w = (err e, w)
spot_replace env i (ok g) w =
    let timeout = drain_timeout_of env g in
    let w' =
      if ltb 0 timeout
      then (initiate_instance_drain env i.id i.group timeout (is_some i.drain_started_at) w).1
      else w in
    spot_created env i (create_instance_for_group env i.tenant i.group g true w')

spot_unless_handled : Env → Instance → NatHandling × World → Outcome
unfolding spot_replace
spot_unless_handled env i (not_handled, w) = spot_replace env i (env.get_group i.tenant i.group) w
spot_unless_handled env i (handled, w) = (ok tt, w)
spot_unless_handled env i (handled_with e, w) = (err e, w)

unfoldable pub handle_spot_terminating : Env → String → World → Outcome
unfolding spot_unless_handled
handle_spot_terminating env id w = elim (find_instance env id w) [
  | none ↦ (err not_found, w)
  | some i ↦
      if env.asleep i.tenant
      then (ok tt, w)
      else spot_unless_handled env i (replace_nat_instance env id i.tenant i.group w)
]

unfoldable pub handle_instance_deleted : Env → String → String → World → Outcome
handle_instance_deleted env tenant group w =
    if tenant == "" || group == "" then (ok tt, w) else handle_group_changed env tenant group w

-- A failure to mark the acknowledgement is only logged.
abbrev pub ack_marked : Env → String → World → World
ack_marked env id w =
    if env.faulty (ack_drain id)
    then w
    else elim (mark_drain_acked env.now id w.table) [ none ↦ w | some t ↦ record w { table = t } ]

delete_acked : Env → String → String → World → Outcome
delete_acked env tenant id w =
    let (failure, t) = env.delete tenant id w.table in
    let w' : World = record w { table = t } in
    elim failure [
      | none ↦ (ok tt, logged (deleted tenant id) w')
      | some e ↦ elim (find_instance env id w') [
        | none ↦ (err (instance_failure e), w')
        | some i ↦ (err (instance_failure e), notified env (error_notified i.tenant i.group id) w')
      ]
    ]

unfoldable pub handle_drain_acked : Env → String → String → World → Outcome
unfolding delete_acked
handle_drain_acked env tenant id w = delete_acked env tenant id (ack_marked env id w)

-- Is the identity in the set?
unfoldable pub has_group : GroupIdentity → List GroupIdentity → Bool
has_group g [] = false
has_group g (h ∷ hs) = same_group g h || has_group g hs

-- The set of both lists, without repetitions.
unfoldable pub add_all : List GroupIdentity → List GroupIdentity → List GroupIdentity
add_all [] acc = acc
add_all (g ∷ gs) acc = add_all gs (if has_group g acc then acc else acc ++ g ∷ [])

-- `GetActiveManagedGroupIdentities`
unfoldable pub active_managed : Table → List GroupIdentity
active_managed [] = []
active_managed (i ∷ t) =
    let rest = active_managed t in
    let g : GroupIdentity = record { tenant = i.tenant; group = i.group } in
    if is_active i && (if i.on_demand then false else if i.group == "" then false else true)
    then g ∷ rest
    else rest

unfoldable pub of_tenant : String → List GroupIdentity → List GroupIdentity
of_tenant tenant [] = []
of_tenant tenant (g ∷ gs) =
    let rest = of_tenant tenant gs in if g.tenant == tenant then g ∷ rest else rest

abbrev pub first_error :
    Result ReconcileError (Unit {0})
    → Result ReconcileError (Unit {0})
    → Result ReconcileError (Unit {0})
first_error (err e) later = err e
first_error (ok _) later = later

-- Every group is reconciled; the first error is returned.
unfoldable pub reconcile_all : Env → List GroupIdentity → World → Outcome
reconcile_all env [] w = (ok tt, w)
reconcile_all env (g ∷ gs) w =
    let (result, w') = handle_group_changed env g.tenant g.group w in
    let (rest, w'') = reconcile_all env gs w' in (first_error result rest, w'')

after_all : Env → Outcome → Outcome
after_all env (result, w) = (result, check_on_demand_expiry env w)

unfoldable pub handle_initial_reconcile : Env → World → Outcome
unfolding after_all
handle_initial_reconcile env w = elim env.all_groups [
  | err e ↦ (err e, w)
  | ok groups ↦
      if env.faulty active_identities
      then (err database, w)
      else after_all env
          (reconcile_all env (add_all (active_managed w.table) (add_all groups [])) w)
]

unfoldable pub handle_tenant_changed : Env → String → World → Outcome
handle_tenant_changed env tenant w = elim env.all_groups [
  | err e ↦ (err e, w)
  | ok groups ↦
      if env.faulty active_identities
      then (err database, w)
      else reconcile_all env
          (add_all (of_tenant tenant (active_managed w.table))
            (add_all (of_tenant tenant groups) []))
          w
]
