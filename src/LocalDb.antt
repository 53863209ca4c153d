-- ===== src/LocalDb.antt =====
-- internal/server/localdb: the table of instances that a server keeps, and the queries that the
-- reconciler asks of it. The table is the list of its rows in the order of their creation, so an
-- `ORDER BY created_at ASC` is the order of the list. SQLite itself is not modelled: a call that
-- fails is a fault of the caller's surroundings.
pub mod Rows
pub mod Collected
use nstance.Base.{ℕ, String, Bool, true, false, Option, List}

-- internal/server/infra/provider/types.go.
pub data Status : Type 0 where
  pending running stopping stopped suspending suspended deleting deleted repairing unknown : Status

unfoldable pub is_unhealthy : Status → Bool
is_unhealthy pending = false
is_unhealthy running = false
is_unhealthy unknown = false
is_unhealthy _ = true

pub record Instance : Type 0 where
  pub id : String
  pub tenant : String
  pub group : String
  pub on_demand : Bool
  pub provider_id : Option String
  pub provider_state : Option Status
  pub issued_at : Option ℕ
  pub registered_at : Option ℕ
  pub health_at : Option ℕ
  pub infra_config_hash : Option String
  pub drain_started_at : Option ℕ
  pub drain_acked_at : Option ℕ
  pub created_at : ℕ
  pub deleted_at : Option ℕ

abbrev pub Table : Type 0
Table = List Instance
