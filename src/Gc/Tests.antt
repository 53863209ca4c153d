-- ===== src/Gc/Tests.antt =====
-- The garbage collection at a concrete table: an instance that never registered.
use nstance.Base.{ℕ, true, false, none, some, [], ◌∷◌}
use nstance.LocalDb.{Instance, running}
use nstance.Gc.{World, Env, run_cycle}
use nstance.Gc.Careful.{Careful}
use nstance.Gc.Careful.Cycle.{run_cycle-Careful}

abbrev lost : Instance
lost = record {
  id = "i-1";
  tenant = "acme";
  group = "web";
  on_demand = false;
  provider_id = some "vm-1";
  provider_state = some running;
  issued_at = some 1;
  registered_at = none;
  health_at = none;
  infra_config_hash = none;
  drain_started_at = none;
  drain_acked_at = none;
  created_at = 1;
  deleted_at = none;
}

abbrev calm : Env ℕ
calm = record {
  db_fault = λ i. false;
  storage_fault = λ i. none;
  deleter = some λ tenant id i. none;
  has_reconciler = true;
  others_table = λ i t. t;
  others_disk = λ i s. s;
  now = λ i. 100;
  record_key = λ tenant id. some id;
}

abbrev before : World ℕ
before = record { table = lost ∷ []; disk = ("i-1", 7) ∷ []; clock = 0; log = [] }

run_cycle-Careful_example : Careful calm 60 (run_cycle calm true 60 10 50 before).log
unfolding Careful
run_cycle-Careful_example = run_cycle-Careful calm 60 true 10 50 before tt
