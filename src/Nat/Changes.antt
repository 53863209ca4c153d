-- ===== src/Nat/Changes.antt =====
-- The changes that the methods of `AssignmentStore` make to the assignments: the closures that they
-- pass to `update`, each with the value that it captures.
use nstance.Base.{
  ℕ, String, Bool, true, false, ◌||◌, Option, none, some, List, [], ◌∷◌, Result, ok, err, ◌==◌,
  if◌then◌else◌,
}
use nstance.Base.Dict.{get, put, delete}
use nstance.Nat.{
  PublicAddress, Assignment, Assignments, AssignmentError, public_addresses_exhausted, not_assigned,
  not_a_replacement, replaced_not_assigned,
}

-- Does this assignment hold the address?
abbrev pub holds : Option PublicAddress → String → Bool
holds none ip = false
holds (some a) ip = a.ipv4 == ip

-- used[ip]
unfoldable pub used : Assignments → String → Bool
used [] ip = false
used ((k, a) ∷ m) ip = holds a.public_address ip || used m ip

-- The first address of the list that no assignment holds.
unfoldable pub first_unused :
    List PublicAddress → Assignments → Result AssignmentError (Option PublicAddress)
first_unused [] m = err public_addresses_exhausted
first_unused (a ∷ rest) m = if used m a.ipv4 then first_unused rest m else ok (some a)

-- `availableAddress`: with no address configured there is none to assign.
unfoldable pub available_address :
    List PublicAddress → Assignments → Result AssignmentError (Option PublicAddress)
unfolding first_unused
available_address [] m = ok none
available_address (a ∷ rest) m = first_unused (a ∷ rest) m

-- The first pending replacement of an instance, in the order of the map.
unfoldable pub replacement_of : Assignments → String → Option Assignment
replacement_of [] id = none
replacement_of ((k, a) ∷ m) id = if a.replaces == id then some a else replacement_of m id

pub record ClaimRequest : Type 0 where
  pub addresses : List PublicAddress
  pub tenant : String
  pub instance_subnet_id : String
  pub instance_id : String
  pub instance_type : String
  pub created_at : ℕ

abbrev pub new_assignment : ClaimRequest → Option PublicAddress → Assignment
new_assignment r address = record {
  tenant = r.tenant;
  instance_subnet_id = r.instance_subnet_id;
  instance_id = r.instance_id;
  instance_type = r.instance_type;
  provider_id = "";
  public_address = address;
  empty_since = none;
  deleting = false;
  retiring = false;
  routed = false;
  replaces = "";
  created_at = r.created_at;
  last_scale_at = none;
}

record_claim :
    ClaimRequest
    → Assignments
    → Result AssignmentError (Option PublicAddress)
    → Result AssignmentError (Assignments × Assignment)
record_claim r m (err e) = err e
record_claim r m (ok address) =
    ok (put m r.instance_id (new_assignment r address), new_assignment r address)

-- The change of `Claim`.
unfoldable pub claim :
    ClaimRequest → Assignments → Result AssignmentError (Assignments × Assignment)
unfolding record_claim
claim r m = elim (get m r.instance_id) [
  | some existing ↦ ok (m, existing)
  | none ↦ record_claim r m (available_address r.addresses m)
]

-- The guard of `Claim`, before any storage is read.
unfoldable pub claim_is_valid : ClaimRequest → Bool
claim_is_valid r =
    if r.tenant == "" || (r.instance_subnet_id == "" || r.instance_id == "") then false else true

abbrev pub new_replacement : Assignment → String → String → ℕ → Assignment
new_replacement current id instance_type created_at = record {
  tenant = current.tenant;
  instance_subnet_id = current.instance_subnet_id;
  instance_id = id;
  instance_type = instance_type;
  provider_id = "";
  public_address = current.public_address;
  empty_since = none;
  deleting = false;
  retiring = false;
  routed = false;
  replaces = current.instance_id;
  created_at = created_at;
  last_scale_at = none;
}

-- The change of `ClaimReplacement`. `current` is the caller's snapshot.
unfoldable pub claim_replacement :
    Assignment
    → String
    → String
    → ℕ
    → Assignments
    → Result AssignmentError (Assignments × Assignment)
claim_replacement current id instance_type created_at m = elim (get m id) [
  | some existing ↦ ok (m, existing)
  | none ↦ elim (replacement_of m current.instance_id) [
    | some pending ↦ ok (m, pending)
    | none ↦ elim (get m current.instance_id) [
      | none ↦ err (not_assigned current.instance_id)
      | some _ ↦
          let replacement = new_replacement current id instance_type created_at in
          ok (put m id replacement, replacement)
    ]
  ]
]

-- The change of `Update`.
unfoldable pub update_one :
    String
    → (Assignment → Assignment)
    → Assignments
    → Result AssignmentError (Assignments × Unit {0})
update_one id apply m = elim (get m id) [
  | none ↦ err (not_assigned id)
  | some a ↦ ok (put m id (apply a), tt)
]

abbrev pub retired : Assignment → Assignment
retired a = record a { retiring = true; routed = false }

abbrev pub promoted : Assignment → ℕ → Assignment
promoted a scaled_at = record a { replaces = ""; routed = true; last_scale_at = some scaled_at }

promote_over :
    ℕ
    → Assignment
    → Assignments
    → Option Assignment
    → Result AssignmentError (Assignments × Unit {0})
promote_over scaled_at replacement m none = err (replaced_not_assigned replacement.replaces)
promote_over scaled_at replacement m (some previous) = ok (
  put (put m previous.instance_id (retired previous)) replacement.instance_id
      (promoted replacement scaled_at),
  tt,
)

promote_found :
    String → ℕ → Assignments → Option Assignment → Result AssignmentError (Assignments × Unit {0})
unfolding promote_over
promote_found id scaled_at m none = err (not_a_replacement id)
promote_found id scaled_at m (some replacement) =
    if replacement.replaces == ""
    then err (not_a_replacement id)
    else promote_over scaled_at replacement m (get m replacement.replaces)

-- The change of `Promote`.
unfoldable pub promote : String → ℕ → Assignments → Result AssignmentError (Assignments × Unit {0})
unfolding promote_found
promote id scaled_at m = promote_found id scaled_at m (get m id)

-- The change of `Release`.
unfoldable pub release : String → Assignments → Result AssignmentError (Assignments × Unit {0})
release id m = ok (delete m id, tt)
