-- ===== src/Nat/Manager.antt =====
-- internal/server/nat/manager.go: the vertical scaling of a NAT instance by its health reports. The
-- floating-point numbers are a parameter with the operations that the source uses.
pub mod Steps
pub mod Scaling
mod Tests
use nstance.Base.{
  ℕ, zero, suc, ◌+◌, ◌-◌, ◌%◌, ◌^◌, String, Bool, true, false, ◌&&◌, ◌||◌, not, Option, none, some,
  List, [], ◌∷◌, ◌==◌, Result, ok, err, leb, ltb, nat_eq, is_some, if◌then◌else◌, length,
}
use nstance.Base.Dict.{Dict, get, put, delete}
use nstance.Nat.{Assignment, Assignments, AssignmentError}

-- float64: comparisons, quotient and product, and the conversions of counters and durations.
pub record Floats (F : Type 0) : Type 0 where
  pub lt : F → F → Bool
  pub le : F → F → Bool
  pub quotient : F → F → F
  pub product : F → F → F
  pub of_nat : ℕ → F
  pub seconds : ℕ → F

-- The fields of `proto.Metrics` that are read; `none` is a nil pointer.
pub record Metrics (F : Type 0) : Type 0 where
  pub drops : Option (ℕ × ℕ)
  pub network_interface_error : Option String
  pub cpu_usage : Option F
  pub conntrack_count : Option ℕ
  pub conntrack_max : Option ℕ

pub record MetricSample (F : Type 0) : Type 0 where
  pub at : ℕ
  pub drops : ℕ
  pub cpu : F
  pub conntrack : F

-- `config.NATThresholds`
pub record Thresholds (F : Type 0) : Type 0 where
  pub conntrack_percent : F
  pub cpu_percent : F
  pub packet_drops_per_second : F

-- The fields of `config.NATConfig` that scaling reads.
pub record NatConfig (F : Type 0) : Type 0 where
  pub group : String
  pub instance_type_ladder : List String
  pub scale_up_thresholds : Thresholds F
  pub scale_down_thresholds : Thresholds F
  pub scale_up_window : ℕ
  pub scale_down_window : ℕ
  pub cooldown : ℕ

-- The fields of `Manager` that scaling keeps.
pub record Manager (F : Type 0) : Type 0 where
  pub metrics : Dict (MetricSample F)
  pub scale_up_since : Dict ℕ
  pub scale_down_since : Dict ℕ

-- What an observation leads to: nothing, the error of the store, an instance type that is not in the ladder, or a replacement.
pub data Decision : Type 0 where
  nothing : Decision
  unknown_type : String → Decision
  failed : AssignmentError → Decision
  replace : Assignment → String → Decision

-- The place of the first occurrence of a type in the ladder.
unfoldable pub index_of : List String → String → Option ℕ
index_of [] x = none
index_of (y ∷ ys) x =
    let rest = index_of ys x in
    if y == x then some 0 else elim rest [ none ↦ none | some i ↦ some (suc i) ]

unfoldable pub get_elem? : List String → ℕ → Option String
get_elem? [] i = none
get_elem? (x ∷ xs) zero = some x
get_elem? (x ∷ xs) (suc i) = get_elem? xs i

-- The assignment of the instance that replaces no other and is not being deleted.
abbrev pub is_scaled : String → Assignment → Bool
is_scaled id a = (a.instance_id == id) && ((a.replaces == "") && not a.deleting)

unfoldable pub find_scaled : String → Assignments → Option Assignment
find_scaled id [] = none
find_scaled id ((k, a) ∷ m) = if is_scaled id a then some a else find_scaled id m

-- The cooldown after the last change of the instance type lasts.
abbrev pub cools : ℕ → ℕ → Assignment → Bool
cools now cooldown a = elim a.last_scale_at [ none ↦ false | some t ↦ ltb now (t + cooldown) ]

-- A step of the ladder once the wish has lasted for its window.
abbrev pub step_to : Assignment → Option String → Decision
step_to a none = nothing
step_to a (some kind) = replace a kind

module _ {F : Type 0} ⦃float64 : Floats F⦄ where
  -- The sample of a complete report.
  unfoldable pub sample_of : Metrics F → ℕ → Option (MetricSample F)
  sample_of r now = elim r.drops [
    | none ↦ none
    | some (rx, tx) ↦ if is_some r.network_interface_error then none else elim r.cpu_usage [
      | none ↦ none
      | some cpu ↦ elim r.conntrack_count [
        | none ↦ none
        | some count ↦ elim r.conntrack_max [
          | none ↦ none
          | some max ↦
              if nat_eq max 0
              then none
              else some (record {
                at = now;
                drops = (rx + tx) % 2 ^ 64;
                cpu = cpu;
                conntrack =
                    float64.quotient (float64.product (float64.of_nat 100) (float64.of_nat count))
                      (float64.of_nat max);
              })
        ]
      ]
    ]
  ]

  abbrev pub drop_rate : MetricSample F → MetricSample F → F
  drop_rate current previous =
      float64.quotient (float64.of_nat (current.drops - previous.drops))
        (float64.seconds (current.at - previous.at))

  abbrev pub wants_up : NatConfig F → MetricSample F → MetricSample F → Bool
  wants_up c current previous =
      let t = c.scale_up_thresholds in
      float64.lt t.cpu_percent current.cpu
      || (float64.lt t.conntrack_percent current.conntrack
          || float64.lt t.packet_drops_per_second (drop_rate current previous))

  abbrev pub wants_down : NatConfig F → MetricSample F → MetricSample F → Bool
  wants_down c current previous =
      let t = c.scale_down_thresholds in
      float64.le current.cpu t.cpu_percent
      && (float64.le current.conntrack t.conntrack_percent
          && float64.le (drop_rate current previous) t.packet_drops_per_second)

  unfoldable pub toward_larger :
      NatConfig F → String → ℕ → Assignment → ℕ → Manager F → Decision × Manager F
  toward_larger c id now a i m =
      let m' = record m { scale_down_since = delete m.scale_down_since id } in
      elim (get m.scale_up_since id) [
        | none ↦ (nothing, record m' { scale_up_since = put m.scale_up_since id now })
        | some since ↦
            if leb (since + c.scale_up_window) now
            then (step_to a (get_elem? c.instance_type_ladder (suc i)), m')
            else (nothing, m')
      ]

  -- The wish for a larger type has ended; there may be one for a smaller.
  unfoldable pub toward_smaller :
      NatConfig F → String → ℕ → Assignment → ℕ → Bool → Manager F → Decision × Manager F
  toward_smaller c id now a i down m =
      let m' = record m { scale_up_since = delete m.scale_up_since id } in
      if down && ltb 0 i
      then (elim (get m.scale_down_since id) [
        | none ↦ (nothing, record m' { scale_down_since = put m.scale_down_since id now })
        | some since ↦
            if leb (since + c.scale_down_window) now
            then (step_to a (get_elem? c.instance_type_ladder (i - 1)), m')
            else (nothing, m')
      ])
      else (nothing, record m' { scale_down_since = delete m.scale_down_since id })

  unfoldable pub on_ladder :
      NatConfig F
      → String
      → ℕ
      → Assignment
      → MetricSample F
      → MetricSample F
      → Option ℕ
      → Manager F
      → Decision × Manager F
  on_ladder c id now a current previous none m = (unknown_type a.instance_type, m)
  on_ladder c id now a current previous (some i) m =
      if cools now c.cooldown a
      then (nothing, m)
      else if wants_up c current previous && ltb (i + 1) (length c.instance_type_ladder)
      then toward_larger c id now a i m
      else toward_smaller c id now a i (wants_down c current previous) m

  unfoldable pub with_assignment :
      (String → Option (NatConfig F))
      → String
      → ℕ
      → MetricSample F
      → MetricSample F
      → Option Assignment
      → Manager F
      → Decision × Manager F
  with_assignment nat id now current previous none m = (nothing, m)
  with_assignment nat id now current previous (some a) m = elim (nat a.tenant) [
    | none ↦ (nothing, m)
    | some c ↦
        if a.instance_id == "" || c.group == ""
        then (nothing, m)
        else on_ladder c id now a current previous (index_of c.instance_type_ladder a.instance_type)
            m
  ]

  -- A sample is compared with the one before, unless that is missing, not older, or had more drops.
  unfoldable pub compare_samples :
      (String → Option (NatConfig F))
      → Result AssignmentError Assignments
      → String
      → ℕ
      → MetricSample F
      → Option (MetricSample F)
      → Manager F
      → Decision × Manager F
  compare_samples nat stored id now current none m = (nothing, m)
  compare_samples nat stored id now current (some previous) m =
      if leb current.at previous.at || ltb current.drops previous.drops
      then (nothing, m)
      else elim stored [
        | err e ↦ (failed e, m)
        | ok assignments ↦
            with_assignment nat id now current previous (find_scaled id assignments) m
      ]

  -- `Observe`, up to the replacement that it starts, with what the store answers for the assignments.
  unfoldable pub observe :
      (String → Option (NatConfig F))
      → Result AssignmentError Assignments
      → String
      → Metrics F
      → ℕ
      → Manager F
      → Decision × Manager F
  observe nat stored id report now m = elim (sample_of report now) [
    | none ↦ (
      nothing,
      record m {
        scale_up_since = delete m.scale_up_since id;
        scale_down_since = delete m.scale_down_since id;
      },
    )
    | some current ↦
        compare_samples nat stored id now current (get m.metrics id)
          (record m { metrics = put m.metrics id current })
  ]
