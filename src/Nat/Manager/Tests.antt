-- ===== src/Nat/Manager/Tests.antt =====
-- The scaling of a NAT instance at concrete inputs, with whole numbers for the floating-point ones.
use nstance.Base.{
  ℕ, ◌*◌, ◌/◌, ◌≤◌, ◌<◌, String, ◌≡◌, refl, true, false, Option, none, some, [], ◌∷◌, leb, ltb, ok,
}
use nstance.Base.Dict.{get, put, delete}
use nstance.Nat.{Assignment}
use nstance.Nat.Manager.{
  Floats, Metrics, MetricSample, NatConfig, Manager, replace, find_scaled, index_of, get_elem?,
  sample_of, toward_larger, on_ladder, with_assignment, compare_samples, observe,
}
use nstance.Nat.Manager.Scaling.{Due, observe-Due}

instance abbrev whole : Floats ℕ
whole = record {
  lt = ltb;
  le = leb;
  quotient = λ a b. a / b;
  product = λ a b. a * b;
  of_nat = λ n. n;
  seconds = λ n. n;
}

abbrev busy_report : Metrics ℕ
busy_report = record {
  drops = some (5, 6);
  network_interface_error = none;
  cpu_usage = some 95;
  conntrack_count = some 10;
  conntrack_max = some 100;
}

abbrev scaled : Assignment
scaled = record {
  tenant = "acme";
  instance_subnet_id = "subnet-1";
  instance_id = "nat-1";
  instance_type = "small";
  provider_id = "p";
  public_address = none;
  empty_since = none;
  deleting = false;
  retiring = false;
  routed = true;
  replaces = "";
  created_at = 1;
  last_scale_at = none;
}

abbrev ladder_of : String → Option (NatConfig ℕ)
ladder_of tenant = some (record {
  group = "nat";
  instance_type_ladder = "small" ∷ "large" ∷ [];
  scale_up_thresholds = record {
    conntrack_percent = 80;
    cpu_percent = 90;
    packet_drops_per_second = 10;
  };
  scale_down_thresholds = record {
    conntrack_percent = 20;
    cpu_percent = 20;
    packet_drops_per_second = 0;
  };
  scale_up_window = 60;
  scale_down_window = 60;
  cooldown = 300;
})

-- The wish for a larger type has stood since 100.
abbrev watched : Manager ℕ
watched = record {
  metrics = ("nat-1", record { at = 150; drops = 0; cpu = 95; conntrack = 10 }) ∷ [];
  scale_up_since = ("nat-1", 100) ∷ [];
  scale_down_since = [];
}

observe-Due_example :
    (current : MetricSample ℕ) × (previous : MetricSample ℕ) × (sample_of busy_report 170
      ≡ some current)
    × (get watched.metrics "nat-1" ≡ some previous)
    × (previous.at < current.at)
    × (previous.drops ≤ current.drops)
    × Due ladder_of
        (ok (("nat-1", scaled) ∷ []))
        "nat-1"
        170
        current
        previous
        watched
        scaled
        "large"
unfolding observe compare_samples with_assignment on_ladder toward_larger sample_of find_scaled
    index_of get_elem? get delete put
observe-Due_example =
    observe-Due ladder_of (ok (("nat-1", scaled) ∷ [])) "nat-1" busy_report 170 watched scaled
      "large" refl

abbrev retiring : Assignment
retiring = record scaled { retiring = true }

-- An instance that retires is replaced like any other.
retiring_is_replaced :
    (observe ladder_of (ok (("nat-1", retiring) ∷ [])) "nat-1" busy_report 170 watched).0
    ≡ replace retiring "large"
unfolding observe compare_samples with_assignment on_ladder toward_larger sample_of find_scaled
    index_of get_elem? get delete put
retiring_is_replaced = refl
