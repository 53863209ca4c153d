-- ===== src/Nat.antt =====
-- internal/server/nat/assignments.go: the durable record of the managed NAT instances of a shard, and
-- of the public addresses that they hold. Times are numbers; an absent time is `none`, and the empty
-- text is an absent name, as in the source.
pub mod Changes
pub mod Store
pub mod Methods
mod Tests
pub mod Owners
pub mod Promotion
pub mod Manager
use nstance.Base.{ℕ, String, Bool, Option, List}
use nstance.Base.Dict.{Dict}
use nstance.Storage.{StorageError}

-- internal/server/config/types.go.
pub record PublicAddress : Type 0 where
  pub ipv4 : String
  pub allocation_id : String

pub record Assignment : Type 0 where
  pub tenant : String
  pub instance_subnet_id : String
  pub instance_id : String
  pub instance_type : String
  pub provider_id : String
  pub public_address : Option PublicAddress
  pub empty_since : Option ℕ
  pub deleting : Bool
  pub retiring : Bool
  pub routed : Bool
  pub replaces : String
  pub created_at : ℕ
  pub last_scale_at : Option ℕ

abbrev pub Assignments : Type 0
Assignments = Dict Assignment

pub data AssignmentError : Type 0 where
  invalid_argument public_addresses_exhausted too_many_updates undecodable : AssignmentError
  not_assigned not_a_replacement replaced_not_assigned : String → AssignmentError
  storage_failed : StorageError → AssignmentError
