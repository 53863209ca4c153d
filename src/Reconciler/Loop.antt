-- ===== src/Reconciler/Loop.antt =====
-- internal/server/reconciler/reconciler.go: the life of the loop, its queue, and the handling of one
-- event.
pub mod Size
pub mod Terms
pub mod Duplicates
use Prim.Native.String.{◌++◌ as text_append}
use nstance.Base.{
  ℕ, zero, suc, ◌+◌, ◌-◌, ◌*◌, String, Bool, true, false, ◌&&◌, ◌||◌, not, Option, none, some, List,
  [], ◌∷◌, ◌++◌, Result, ok, err, ltb, leb, nat_eq, length, if◌then◌else◌,
}
use nstance.Base.Dict.{Dict, get, put}
use nstance.Reconciler.{
  EventType, check_instance, group_changed, instance_deleted, drain_acked, termination_notice,
  initial_reconcile, tenant_changed, other_type, unspecified, ReconcileEvent, QueuedEvent,
  ExpiryTimer, Delayed, World, Env, ReconcileError,
}
use nstance.Reconciler.Retry.{is_permanent_error, schedule_retry}
use nstance.Reconciler.Expiry.{stop_all_expiry_timers}
use nstance.Reconciler.Scaling.{handle_group_changed}
use nstance.Reconciler.Health.{handle_check_instance}
use nstance.Reconciler.Events.{
  Outcome, handle_spot_terminating, handle_instance_deleted, handle_drain_acked,
  handle_initial_reconcile, handle_tenant_changed,
}

abbrev pub queue_capacity : ℕ
queue_capacity = 1000

-- `Start`
unfoldable pub start : World → World
start w = if w.started then w else record w { started = true; cancelled = false; term = w.term + 1 }

-- `Stop`: the term moves on, so what is queued for the old one is never handled.
unfoldable pub stop : World → World
unfolding stop_all_expiry_timers
stop w =
    if w.started
    then record (stop_all_expiry_timers (record w { term = w.term + 1; cancelled = true })) {
      started = false;
    }
    else w

-- A send that does not wait: dropped where the queue is full or the term is over. Where both the
-- queue and the end of the term are ready Go may choose either; what is then queued belongs to a term
-- that is over, and the loop drops it.
unfoldable pub offer : QueuedEvent → World → World
offer q w =
    if w.cancelled
    then w
    else if ltb (length w.queue) queue_capacity
    then record w { queue = w.queue ++ q ∷ [] }
    else w

-- `Enqueue`
unfoldable pub enqueue : ReconcileEvent → World → World
unfolding offer
enqueue e w = offer (record { event = e; term = w.term }) w

abbrev pub group_event : ExpiryTimer → QueuedEvent
group_event t = record {
  event = record {
    type = group_changed;
    tenant = t.identity.tenant;
    group_key = t.identity.group;
    instance_id = "";
    timestamp = 0;
    prevent_duplicate = false;
    cause = unspecified;
    attempt = 0;
  };
  term = t.term;
}

-- When its time comes, an expiry timer or a delayed event is offered to the queue.
unfoldable pub fire_timer : ExpiryTimer → World → World
unfolding offer
fire_timer t w = offer (group_event t) w

unfoldable pub fire_delayed : Delayed → World → World
unfolding offer
fire_delayed d w = offer d.queued w

abbrev pub tenant_event : Env → String → ReconcileEvent
tenant_event env tenant = record {
  type = tenant_changed;
  tenant = tenant;
  group_key = "";
  instance_id = "";
  timestamp = env.now;
  prevent_duplicate = false;
  cause = unspecified;
  attempt = 0;
}

-- `EnqueueTenantChanged` waits for room in the queue while the term lasts.
unfoldable pub enqueue_tenant_changed : Env → String → World → World
enqueue_tenant_changed env tenant w = if not w.started || w.cancelled then w else record w {
  queue = w.queue ++ record { event = tenant_event env tenant; term = w.term } ∷ [];
}

unfoldable pub type_name : EventType → String
type_name check_instance = "CheckInstance"
type_name group_changed = "GroupChanged"
type_name instance_deleted = "InstanceDeleted"
type_name drain_acked = "DrainAcked"
type_name termination_notice = "TerminationNotice"
type_name initial_reconcile = "InitialReconcile"
type_name tenant_changed = "TenantChanged"
type_name other_type = ""

infixr 65 ◌+++◌
abbrev ◌+++◌ : String → String → String
◌+++◌ = text_append

-- The key under which an event is known: its type, group and instance.
unfoldable pub event_key : ReconcileEvent → String
unfolding type_name
event_key e = type_name e.type +++ ":" +++ e.group_key +++ ":" +++ e.instance_id

abbrev pub cooldown : Env → ℕ
cooldown env = 2 * env.health_check_interval

-- Entries from before the cooldown are dropped once there are more than a hundred.
unfoldable pub drop_stale : ℕ → ℕ → Dict ℕ → Dict ℕ
drop_stale now cool [] = []
drop_stale now cool ((k, at) ∷ m) =
    let rest = drop_stale now cool m in if ltb (at + cool) now then rest else (k, at) ∷ rest

abbrev pub cleaned : Env → World → World
cleaned env w =
    if ltb 100 (length w.recent_events)
    then record w { recent_events = drop_stale env.now (cooldown env) w.recent_events }
    else w

-- The same event was handled less than a cooldown ago.
unfoldable pub is_duplicate : Env → ReconcileEvent → World → Bool
is_duplicate env e w = elim (get w.recent_events (event_key e)) [
  | none ↦ false
  | some at ↦ ltb env.now (at + cooldown env)
]

unfoldable pub dispatch : Env → EventType → ReconcileEvent → World → Outcome
dispatch env initial_reconcile e w = handle_initial_reconcile env w
dispatch env tenant_changed e w = handle_tenant_changed env e.tenant w
dispatch env group_changed e w = handle_group_changed env e.tenant e.group_key w
dispatch env check_instance e w = (ok tt, handle_check_instance env e w)
dispatch env termination_notice e w = handle_spot_terminating env e.instance_id w
dispatch env instance_deleted e w = handle_instance_deleted env e.tenant e.group_key w
dispatch env drain_acked e w = handle_drain_acked env e.tenant e.instance_id w
dispatch env other_type e w = (ok tt, w)

abbrev pub remembered : Env → ReconcileEvent → World → World
remembered env e w =
    if e.prevent_duplicate
    then record w { recent_events = put w.recent_events (event_key e) env.now }
    else w

-- Only what succeeded is remembered; what failed is tried again, unless the error is permanent.
settle : Env → ReconcileEvent → Outcome → World
settle env e (ok _, w) = remembered env e w
settle env e (err x, w) = if is_permanent_error x then w else schedule_retry env e w

unfoldable pub handle_event : Env → ReconcileEvent → World → World
unfolding settle
handle_event env e w =
    if not env.is_leader
    then w
    else if not env.config_loaded
    then w
    else if e.prevent_duplicate
    then (let w' = cleaned env w in
        if is_duplicate env e w' then w' else settle env e (dispatch env e.type e w'))
    else settle env e (dispatch env e.type e w)

-- One turn of `reconcileLoop`: the oldest event of the queue, if it belongs to this term.
unfoldable pub loop_once : Env → World → World
loop_once env w = if w.cancelled then w else elim w.queue [
  | [] ↦ w
  | q ∷ rest ↦
      let w' = record w { queue = rest } in
      if nat_eq q.term w.term then handle_event env q.event w' else w'
]

-- `count` turns of the loop.
unfoldable pub run : Env → ℕ → World → World
run env zero w = w
run env (suc count) w = run env count (loop_once env w)
