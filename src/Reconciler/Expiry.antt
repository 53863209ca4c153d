-- ===== src/Reconciler/Expiry.antt =====
-- internal/server/reconciler/expiry.go: instances that have grown too old are replaced, one at a time.
pub mod Size
pub mod Timers
use nstance.Base.{
  ℕ, suc, ◌+◌, String, Bool, true, false, ◌&&◌, ◌||◌, Option, none, some, List, [], ◌∷◌, Result, ok,
  err, ◌==◌, nat_eq, ltb, if◌then◌else◌, is_some,
}
use nstance.Base.Int.{ℤ, pos, negsuc, sub_ℕ, is_zero, is_positive, lt_ℤ, pos_part}
use nstance.LocalDb.{Instance, Table}
use nstance.LocalDb.Rows.{
  get_instance, get_instances_by_group, get_instances_older_than, first,
  get_oldest_managed_instance_by_group,
}
use nstance.Reconciler.{
  GroupIdentity, GroupConfig, ReconcileError, instances_by_group, older_than, oldest_managed,
  instance_row, ExpiryTimer, World, Env,
}
use nstance.Reconciler.Drain.{replace_and_drain}
use nstance.Reconciler.Retry.{second}

-- GetInstance, none where it fails.
abbrev pub find_instance : Env → String → World → Option Instance
find_instance env id w = if env.faulty (instance_row id) then none else get_instance id w.table

expire_found : Env → String → Instance → Result ReconcileError GroupConfig → World → World
expire_found env id i (err e) w = w
expire_found env id i (ok g) w = replace_and_drain env id i.tenant i.group g false w

unfoldable pub expire_instance : Env → String → World → World
unfolding expire_found
expire_instance env id w = elim (find_instance env id w) [
  | none ↦ w
  | some i ↦ expire_found env id i (env.get_group i.tenant i.group) w
]

-- The instances of the group that are draining; one that cannot be read counts as not draining.
unfoldable pub draining_count : Env → World → List String → ℕ
draining_count env w [] = 0
draining_count env w (id ∷ rest) =
    let n = draining_count env w rest in
    elim (find_instance env id w) [
      | none ↦ n
      | some i ↦ if is_some i.drain_started_at then suc n else n
    ]

-- The first instance of the group in a list.
unfoldable pub first_in_group : String → String → Table → Option Instance
first_in_group tenant group [] = none
first_in_group tenant group (i ∷ t) =
    if i.tenant == tenant && i.group == group then some i else first_in_group tenant group t

expire_first : Env → Option Instance → World → World → World
expire_first env none otherwise w = otherwise
expire_first env (some i) otherwise w = expire_instance env i.id w

-- Instances past the eligible age, once nothing in the group drains.
check_eligible : Env → String → String → ℕ → World → World
unfolding expire_first
check_eligible env tenant group draining w =
    if nat_eq draining 0 && ltb 0 env.eligible_age
    then (if env.faulty older_than
        then w
        else expire_first env
            (first_in_group tenant group
              (get_instances_older_than env.now env.eligible_age false w.table))
            w w)
    else w

-- Instances past the forced age come first, whatever drains.
check_forced : Env → String → String → ℕ → World → World
unfolding check_eligible
check_forced env tenant group draining w =
    if ltb 0 env.forced_age
    then (if env.faulty older_than
        then w
        else expire_first env
            (first_in_group tenant group
              (get_instances_older_than env.now env.forced_age false w.table))
            (check_eligible env tenant group draining w) w)
    else check_eligible env tenant group draining w

unfoldable pub check_group_expiry : Env → String → String → World → World
unfolding check_forced
check_group_expiry env tenant group w =
    if (nat_eq env.eligible_age 0 && nat_eq env.forced_age 0) || env.faulty instances_by_group
    then w
    else check_forced env tenant group
        (draining_count env w (get_instances_by_group tenant group true w.table)) w

-- The oldest on-demand instance past its age.
unfoldable pub check_on_demand_expiry : Env → World → World
unfolding expire_first
check_on_demand_expiry env w =
    if nat_eq env.ondemand_age 0 || env.faulty older_than
    then w
    else expire_first env (first (get_instances_older_than env.now env.ondemand_age true w.table)) w
        w

abbrev pub same_group : GroupIdentity → GroupIdentity → Bool
same_group a b = a.tenant == b.tenant && a.group == b.group

unfoldable pub without_timer : GroupIdentity → List ExpiryTimer → List ExpiryTimer
without_timer g [] = []
without_timer g (t ∷ ts) =
    let rest = without_timer g ts in if same_group t.identity g then rest else t ∷ rest

unfoldable pub cancel_group_expiry_timer : String → String → World → World
unfolding without_timer
cancel_group_expiry_timer tenant group w = record w {
  expiry_timers = without_timer (record { tenant = tenant; group = group }) w.expiry_timers;
}

unfoldable pub stop_all_expiry_timers : World → World
stop_all_expiry_timers w = record w { expiry_timers = [] }

abbrev pub expiry_timer_padding : ℕ
expiry_timer_padding = second

-- How long until the oldest instance is eligible; 0 where no such age is configured.
abbrev pub eligible_in : Env → ℕ → ℤ
eligible_in env created_at =
    if ltb 0 env.eligible_age then sub_ℕ (created_at + env.eligible_age) env.now else pos 0

abbrev pub forced_in : Env → ℕ → ℤ
forced_in env created_at = sub_ℕ (created_at + env.forced_age) env.now

-- The sooner of the two ages that are configured.
abbrev pub next_expiry : Env → ℕ → ℤ
next_expiry env created_at =
    let eligible = eligible_in env created_at in
    if ltb 0 env.forced_age
    then (if is_zero eligible || lt_ℤ (forced_in env created_at) eligible
        then forced_in env created_at
        else eligible)
    else eligible

abbrev pub padded : ℤ → ℕ
padded n = if is_positive n then pos_part n + expiry_timer_padding else expiry_timer_padding

set_timer : Env → String → String → Option Instance → World → World
unfolding cancel_group_expiry_timer
set_timer env tenant group none w = cancel_group_expiry_timer tenant group w
set_timer env tenant group (some i) w =
    let identity : GroupIdentity = record { tenant = tenant; group = group } in
    record w {
      expiry_timers =
          record {
            identity = identity;
            delay = padded (next_expiry env i.created_at);
            term = w.term;
          }
          ∷ without_timer identity w.expiry_timers;
    }

unfoldable pub schedule_group_expiry : Env → String → String → World → World
unfolding set_timer
schedule_group_expiry env tenant group w =
    if (nat_eq env.eligible_age 0 && nat_eq env.forced_age 0) || env.faulty oldest_managed
    then w
    else set_timer env tenant group (get_oldest_managed_instance_by_group tenant group w.table) w
