-- ===== src/Reconciler/Tests.antt =====
-- The reconciler at concrete inputs: a manager that keeps its word or always fails, one group of two instances.
mod Cases
use nstance.Base.{
  ℕ, suc, ◌+◌, ◌*◌, ◌/◌, ◌≤◌, ◌<◌, String, ◌≡◌, refl, ap, subst, ◌⊎◌, true, false, ◌&&◌, none, some,
  List, [], ◌∷◌, ◌++◌, Result, ok, err, ◌==◌, arith, eq_iff, Bool-cases, inl, inr, if◌then◌else◌,
  All,
}
use nstance.Base.Dict.{get}
use nstance.LocalDb.{Instance, Table, running, is_unhealthy}
use nstance.LocalDb.Rows.{
  select, ids, in_group, get_instance, get_instances_by_group, get_instance_count_by_group,
}
use nstance.Reconciler.{
  GroupConfig, CreateInstanceRequest, ReconcileEvent, World, Env, Action, created, status,
  check_instance, group_changed, unspecified, disconnect, ReconcileError, Delayed, instance_deleted,
  logged, deleted, error_notified,
}
use nstance.Reconciler.Create.{
  get_size, create_instance_for_group, delete_instance, max_size, managed_count, request_for,
}
use nstance.Reconciler.Create.Cases.{Refused, create_cases, delete_cases}
use nstance.Reconciler.Create.Size.{Lawful, Sized, Roomy}
use nstance.Reconciler.Drain.{replace_and_drain}
use nstance.Reconciler.Drain.Order.{Retirement, replace_and_drain-creates_first}
use nstance.Reconciler.Health.{handle_check_instance}
use nstance.Reconciler.Health.Draining.{Done, check-drains_exactly}
use nstance.Reconciler.Health.Healthy.{OnlyFollowsUp}
use nstance.Reconciler.Scaling.{handle_group_changed, scale_up, scale_group, scale_down, find_drift}
use nstance.Reconciler.Scaling.Converge.{
  Willing, drop, scale_group-converges, scale_down-drops_oldest,
}
use nstance.Reconciler.Scaling.Rotation.{Undrained, Oldest, find_drift-finds-Oldest}
use nstance.Reconciler.Expiry.Timers.{
  fires_at, timer_is_never_early, timer_is_punctual, timer_is_late_when_due_now,
}
use nstance.Reconciler.Retry.{
  backoff_delay, event_policy, second, capped_delay, schedule_retry, retry_of,
}
use nstance.Reconciler.Retry.Bounds.{backoff_bounds, schedule_retry_cases}
use nstance.Reconciler.Events.{handle_instance_deleted}
use nstance.Reconciler.Loop.Duplicates.{handle_event-once}
use nstance.Reconciler.Loop.Terms.{restart-drops_old_events}
use nstance.Reconciler.Retry.{is_permanent_error, schedule_retry}
use nstance.Reconciler.Loop.{handle_event, is_duplicate, cleaned, dispatch, start, stop, run}
use nstance.Reconciler.Loop.Size.{handle_event-Sized}

abbrev row : String → String → String → Instance
row id tenant group = record {
  id = id;
  tenant = tenant;
  group = group;
  on_demand = false;
  provider_id = some "p";
  provider_state = none;
  health_at = none;
  issued_at = none;
  registered_at = none;
  infra_config_hash = none;
  drain_started_at = none;
  drain_acked_at = none;
  created_at = 10;
  deleted_at = none;
}

abbrev group_of_two : GroupConfig
group_of_two = record {
  size = some 2;
  template = "base";
  instance_type = "small";
  subnet_pool = "pool";
  drain_timeout = some 30;
}

-- The row with the ID is taken out of the owner's group "web".
without : String → String → Table → Table
without owner id [] = []
without owner id (i ∷ t) =
    let rest = without owner id t in
    if in_group owner "web" true i && i.id == id then t else i ∷ rest

abbrev tiny : Env
tiny = record {
  now = 100;
  is_leader = true;
  config_loaded = true;
  asleep = λ t. false;
  asleep_after_wait = λ t. false;
  get_group = λ t g. ok group_of_two;
  all_groups = ok [];
  nat_group = λ t. none;
  nat_handler = none;
  cached_hash = λ t g. none;
  default_drain_timeout = 60;
  eligible_age = 0;
  forced_age = 0;
  ondemand_age = 0;
  health_check_interval = 20;
  provider_status = λ i p. status running;
  create = λ r t. (ok "new", row "new" r.tenant r.group ∷ t);
  delete = λ owner id t. (none, without owner id t);
  faulty = λ q. false;
  notifies = true;
  jitter = λ n. 0;
}

abbrev world_of : Table → World
world_of t = record {
  table = t;
  log = [];
  last_create_time = 0;
  recent_events = [];
  expiry_timers = [];
  delayed = [];
  queue = [];
  started = true;
  term = 3;
  cancelled = false;
}

abbrev web_changed : ReconcileEvent
web_changed = record {
  type = group_changed;
  tenant = "acme";
  group_key = "web";
  instance_id = "";
  timestamp = 90;
  prevent_duplicate = true;
  cause = unspecified;
  attempt = 0;
}

create_row_counts :
    (r : CreateInstanceRequest) (t : Table) (tenant group : String)
    → (get_instance_count_by_group tenant group true (row "new" r.tenant r.group ∷ t)
        ≤ get_instance_count_by_group tenant group true t)
      ⊎ ((tenant ≡ r.tenant)
          × (group ≡ r.group)
          × (get_instance_count_by_group tenant group true (row "new" r.tenant r.group ∷ t)
              ≤ suc (get_instance_count_by_group tenant group true t)))
unfolding get_instance_count_by_group select
create_row_counts r t tenant group = ground (arith, eq_iff r.tenant tenant, eq_iff r.group group)

without_counts :
    (owner id : String) (t : Table) (tenant group : String)
    → get_instance_count_by_group tenant group true (without owner id t)
      ≤ get_instance_count_by_group tenant group true t
unfolding get_instance_count_by_group select without
without_counts owner id [] tenant group = ground arith
without_counts owner id (i ∷ t) tenant group =
    elim (Bool-cases (in_group owner "web" true i && i.id == id)) [
      | inl h ↦ elim (Bool-cases (in_group tenant group true i)) [
        | inl b ↦ simp (h, b) (ground arith)
        | inr b ↦ simp (h, b) (ground arith)
      ]
      | inr h ↦ elim (Bool-cases (in_group tenant group true i)) [
        | inl b ↦ simp (h, b) (ground (arith, without_counts owner id t tenant group))
        | inr b ↦ simp (h, b) (ground (arith, without_counts owner id t tenant group))
      ]
    ]

config_inj : {x y : GroupConfig} → ◌≡◌ {A = Result ReconcileError GroupConfig} (ok x) (ok y) → x ≡ y
config_inj h = cc h

-- A manager whose provider fails every time: the row that it inserted before stays.
abbrev flaky : Env
flaky = record tiny { create = λ r t. (err 7, row "new" r.tenant r.group ∷ t) }

flaky-Lawful : Lawful flaky
flaky-Lawful = record {
  create_adds_one = λ r t tenant group. create_row_counts r t tenant group;
  delete_adds_none = λ owner id t tenant group. without_counts owner id t tenant group;
}

abbrev three : String → String → ℕ
three tenant group = 3

flaky-Roomy : Roomy flaky three
unfolding get_size
flaky-Roomy tenant group g known =
    subst (λ (x : GroupConfig). get_size x + 1 ≤ 3) (config_inj known) (ground arith)

empty-Sized : Sized three (world_of [])
unfolding get_instance_count_by_group select
empty-Sized tenant group = ground arith

handle_event-Sized_example : Sized three (handle_event flaky web_changed (world_of []))
handle_event-Sized_example =
    handle_event-Sized flaky flaky-Lawful three flaky-Roomy web_changed (world_of []) (λ check. tt)
      empty-Sized

-- The failed creation has left its row, and the operator is told.
flaky_leaves_row :
    (managed_count "acme" "web" (handle_event flaky web_changed (world_of [])) ≡ 1)
    × ((handle_event flaky web_changed (world_of [])).log ≡ error_notified "acme" "web" "" ∷ [])
unfolding get_instance_count_by_group select handle_event is_duplicate get dispatch
    handle_group_changed get_instances_by_group ids get_size scale_up create_instance_for_group
    is_permanent_error schedule_retry
flaky_leaves_row = (refl, refl)

replace_and_drain-creates_first_example :
    ((replace_and_drain tiny "old" "acme" "web" group_of_two false (world_of []) ≡ world_of [])
      × Refused tiny "acme" "web" group_of_two true (world_of []))
    ⊎ (((e : ℕ) × (t : Table) × (tiny.create (request_for "acme" "web" group_of_two) []
            ≡ (err e, t))
          × (replace_and_drain tiny "old" "acme" "web" group_of_two false (world_of [])
              ≡ record (world_of []) { table = t }))
        ⊎ ((new_id : String) × (later : List Action) × ((replace_and_drain tiny "old" "acme" "web"
                group_of_two false
                (world_of [])).log
              ≡ later ++ created (request_for "acme" "web" group_of_two) new_id ∷ [])
            × Retirement tiny "old" "acme" "web" 30 false later))
replace_and_drain-creates_first_example =
    replace_and_drain-creates_first tiny "old" "acme" "web" group_of_two false (world_of []) refl

-- An instance whose drain began at 60, with thirty units to drain.
abbrev draining_row : Instance
draining_row = record (row "old" "acme" "web") { drain_started_at = some 60 }

abbrev check_old : ReconcileEvent
check_old = record web_changed { type = check_instance; instance_id = "old" }

check-drains_exactly_example :
    (Done tiny draining_row 60 30
      × (handle_check_instance tiny check_old (world_of (draining_row ∷ []))
          ≡ delete_instance tiny "acme" "old" (world_of (draining_row ∷ []))))
    ⊎ ((Done tiny draining_row 60 30 → ⊥)
        × (handle_check_instance tiny check_old (world_of (draining_row ∷ []))
            ≡ world_of (draining_row ∷ [])))
unfolding get_instance
check-drains_exactly_example =
    check-drains_exactly tiny check_old (world_of (draining_row ∷ [])) draining_row 60 group_of_two
      refl refl refl

create_row_adds_one :
    (t : Table)
    → get_instance_count_by_group "acme" "web" true (row "new" "acme" "web" ∷ t)
      ≡ suc (get_instance_count_by_group "acme" "web" true t)
unfolding get_instance_count_by_group select
create_row_adds_one t = refl

cons_inj : {x y : String} {xs ys : List String} → x ∷ xs ≡ y ∷ ys → (x ≡ y) × (xs ≡ ys)
cons_inj h = (cc h, cc h)

without_leaves :
    (t : Table) (id : String) (rest : List String)
    → get_instances_by_group "acme" "web" true t ≡ id ∷ rest
    → get_instances_by_group "acme" "web" true (without "acme" id t) ≡ rest
unfolding get_instances_by_group select without ids
without_leaves [] id rest h = ground (arith, h)
without_leaves (i ∷ t) id rest h = elim (Bool-cases (in_group "acme" "web" true i)) [
  | inl b ↦ let (same, tail) = cons_inj (simp b at h) in simp (b, (eq_iff i.id id).1 same) tail
  | inr b ↦ simp b (without_leaves t id rest (simp b at h))
]

tiny-Willing : Willing tiny "acme" "web" group_of_two
tiny-Willing = record {
  creates = λ t. ("new", row "new" "acme" "web" ∷ t, refl, create_row_adds_one t);
  deletes = λ t id rest h. (without "acme" id t, refl, without_leaves t id rest h);
  counts = refl;
  stays_awake = refl;
}

abbrev crowd : Table
crowd = row "a" "acme" "web" ∷ row "b" "acme" "web" ∷ row "c" "acme" "web" ∷ []

scale_group-converges_example :
    ((scale_group tiny "acme" "web" group_of_two
        (get_instances_by_group "acme" "web" true crowd)
        (world_of crowd)).0
      ≡ ok tt)
    × (managed_count "acme" "web"
          (scale_group tiny "acme" "web" group_of_two
            (get_instances_by_group "acme" "web" true crowd)
            (world_of crowd)).1
        ≡ 2)
unfolding get_size
scale_group-converges_example =
    scale_group-converges tiny "acme" "web" group_of_two tiny-Willing (world_of crowd)

scale_down-drops_oldest_example :
    ((scale_down tiny "acme" "web" ("a" ∷ "b" ∷ "c" ∷ []) 2 (world_of crowd)).0 ≡ ok tt)
    × (get_instances_by_group "acme" "web" true
          (scale_down tiny "acme" "web" ("a" ∷ "b" ∷ "c" ∷ []) 2 (world_of crowd)).1.table
        ≡ "c" ∷ [])
unfolding get_instances_by_group select ids drop
scale_down-drops_oldest_example =
    scale_down-drops_oldest tiny "acme" "web" group_of_two tiny-Willing ("a" ∷ "b" ∷ "c" ∷ []) 2
      (world_of crowd) refl

abbrev queued_world : World
queued_world = record (world_of []) { queue = record { event = web_changed; term = 3 } ∷ [] }

restart-drops_old_events_example :
    run tiny 1 (start (stop queued_world)) ≡ record (start (stop queued_world)) { queue = [] }
restart-drops_old_events_example =
    restart-drops_old_events tiny queued_world refl (ground arith, tt)
