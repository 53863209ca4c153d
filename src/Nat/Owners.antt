-- ===== src/Nat/Owners.antt =====
-- Who owns a public address. An assignment is in charge of its subnet when it replaces nothing that
-- is still to be replaced and is not retiring; a pending replacement shares the address of the
-- assignment that it replaces.
pub mod Updates
use nstance.Base.{
  ℕ, String, ◌≡◌, ◌≢◌, true, false, Option, none, some, List, [], ◌∷◌, ok, inl, inr, arith, eq_iff,
  ◌∙◌, ap, subst, Option-cases, Result-cases,
}
use nstance.Base.Dict.{get, put, delete, get-put_cases, get-delete_cases}
use nstance.Nat.{PublicAddress, Assignment, Assignments}
use nstance.Nat.Changes.{
  holds, used, first_unused, available_address, replacement_of, ClaimRequest, new_assignment, claim,
  new_replacement, claim_replacement, update_one, release,
}

abbrev pub IsOwner : Assignment → Type 0
IsOwner a = (a.replaces ≡ "") × (a.retiring ≡ false)

pub record OneOwner (m : Assignments) : Type 0 where
  pub keyed : (k : String) (a : Assignment) → get m k ≡ some a → a.instance_id ≡ k
  pub linked :
      (k : String) (a p : Assignment)
      → get m k ≡ some a
      → a.replaces ≢ ""
      → get m a.replaces ≡ some p
      → (a.public_address ≡ p.public_address) × IsOwner p
  pub single :
      (k j : String) (a b : Assignment)
      → get m k ≡ some a
      → get m j ≡ some b
      → a.replaces ≢ ""
      → a.replaces ≡ b.replaces
      → k ≡ j
  pub exclusive :
      (k j : String) (a b : Assignment) (ip : String)
      → get m k ≡ some a
      → get m j ≡ some b
      → IsOwner a
      → IsOwner b
      → holds a.public_address ip ≡ true
      → holds b.public_address ip ≡ true
      → k ≡ j

-- `used` sees every entry of the map.
used_of_get :
    (m : Assignments) (k : String) (a : Assignment) (ip : String)
    → get m k ≡ some a
    → holds a.public_address ip ≡ true
    → used m ip ≡ true
unfolding get used
used_of_get [] k a ip h t = cc
used_of_get ((i, b) ∷ m) k a ip h t = ground (arith, used_of_get m k a ip)

-- So does the search for a pending replacement.
pub replacement_of-get :
    (m : Assignments) (id k : String) (a : Assignment)
    → replacement_of m id ≡ none
    → get m k ≡ some a
    → a.replaces ≢ id
unfolding get replacement_of
replacement_of-get [] id k a e h = cc
replacement_of-get ((i, b) ∷ m) id k a e h =
    ground (arith, eq_iff b.replaces id, replacement_of-get m id k a)

-- The address that is handed out is held by no assignment.
first_unused-unused :
    (xs : List PublicAddress) (m : Assignments) (x : PublicAddress)
    → first_unused xs m ≡ ok (some x)
    → used m x.ipv4 ≡ false
unfolding first_unused
first_unused-unused [] m x h = cc
first_unused-unused (a ∷ rest) m x h = ground (arith, first_unused-unused rest m x)

pub available_address-unused :
    (xs : List PublicAddress) (m : Assignments) (x : PublicAddress)
    → available_address xs m ≡ ok (some x)
    → used m x.ipv4 ≡ false
unfolding available_address
available_address-unused [] m x h = cc
available_address-unused (a ∷ rest) m x h = first_unused-unused (a ∷ rest) m x h

module _ (r : ClaimRequest) (m : Assignments) (v : OneOwner m) (address : Option PublicAddress)
    (free : (x : PublicAddress) → address ≡ some x → used m x.ipv4 ≡ false)
    (fresh : get m r.instance_id ≡ none) (unreplaced : replacement_of m r.instance_id ≡ none) where
  new_holds : (ip : String) → holds address ip ≡ true → used m ip ≡ false
  new_holds ip h = elim (Option-cases address) [
    | inl e ↦ ground (arith, e)
    | inr (x, e) ↦ ground (arith, e, eq_iff x.ipv4 ip, free x e)
  ]

  put_new-OneOwner : OneOwner (put m r.instance_id (new_assignment r address))
  put_new-OneOwner = record {
    keyed = λ k a h. ground (arith, get-put_cases m id new k a h, v.keyed k a);
    linked = λ k a p h n g. ground (
      arith,
      get-put_cases m id new k a h,
      get-put_cases m id new a.replaces p g,
      replacement_of-get m id k a unreplaced,
      v.linked k a p,
    );
    single = λ k j a b h g n e.
        ground
          (arith, get-put_cases m id new k a h, get-put_cases m id new j b g, v.single k j a b);
    exclusive = λ k j a b ip h g oa ob ha hb. ground (
      arith,
      get-put_cases m id new k a h,
      get-put_cases m id new j b g,
      new_holds ip,
      used_of_get m k a ip,
      used_of_get m j b ip,
      v.exclusive k j a b ip,
    );
  }
    where
      id : String
      id = r.instance_id

      new : Assignment
      new = new_assignment r address

available_free :
    (xs : List PublicAddress) (m : Assignments) (address : Option PublicAddress)
    → available_address xs m ≡ ok address
    → (x : PublicAddress) → address ≡ some x
    → used m x.ipv4 ≡ false
available_free xs m address e x h = available_address-unused xs m x (e ∙ ap ok h)

-- `Claim` keeps the addresses apart: whatever it returns, if the identifier of the new instance is
-- named by no pending replacement, the assignments still have one owner for each address.
pub claim-OneOwner :
    (r : ClaimRequest) (m n : Assignments) (a : Assignment)
    → OneOwner m
    → replacement_of m r.instance_id ≡ none
    → claim r m ≡ ok (n, a)
    → OneOwner n
unfolding claim
claim-OneOwner r m n a v u h = elim (Option-cases (get m r.instance_id)) [
  | inr (x, e) ↦ subst OneOwner (ground (arith, e)) v
  | inl fresh ↦ elim (Result-cases (available_address r.addresses m)) [
    | inl (address, e) ↦
        subst OneOwner (ground (arith, fresh, e))
          (put_new-OneOwner r m v address (available_free r.addresses m address e) fresh u)
    | inr (x, e) ↦ ground (arith, fresh, e)
  ]
]

-- `ClaimReplacement` keeps them apart too, where the caller's snapshot is of an assignment that is in
-- charge and holds the same address still.
pub claim_replacement-OneOwner :
    (current stored : Assignment) (id kind : String) (now : ℕ) (m n : Assignments) (a : Assignment)
    → OneOwner m
    → replacement_of m id ≡ none
    → current.instance_id ≢ ""
    → get m current.instance_id ≡ some stored
    → stored.public_address ≡ current.public_address
    → IsOwner stored
    → claim_replacement current id kind now m ≡ ok (n, a)
    → OneOwner n
unfolding claim_replacement
claim_replacement-OneOwner current stored id kind now m n a v u named held same owner h =
    elim (Option-cases (get m id)) [
      | inr (x, e) ↦ subst OneOwner (ground (arith, e)) v
      | inl fresh ↦ elim (Option-cases (replacement_of m current.instance_id)) [
        | inr (x, e) ↦ subst OneOwner (ground (arith, fresh, e)) v
        | inl none_pending ↦
            subst OneOwner (ground (arith, fresh, none_pending, held)) (recorded fresh none_pending)
      ]
    ]
  where
    new : Assignment
    new = new_replacement current id kind now

    recorded :
        get m id ≡ none → replacement_of m current.instance_id ≡ none → OneOwner (put m id new)
    recorded fresh alone = record {
      keyed = λ k b g. ground (arith, get-put_cases m id new k b g, v.keyed k b);
      linked = λ k b p g ne f. ground (
        arith,
        get-put_cases m id new k b g,
        get-put_cases m id new b.replaces p f,
        replacement_of-get m id k b u,
        v.linked k b p,
      );
      single = λ k j b c g f ne e. ground (
        arith,
        get-put_cases m id new k b g,
        get-put_cases m id new j c f,
        replacement_of-get m current.instance_id k b alone,
        replacement_of-get m current.instance_id j c alone,
        v.single k j b c,
      );
      exclusive = λ k j b c ip g f ob oc hb hc. ground (
        arith,
        get-put_cases m id new k b g,
        get-put_cases m id new j c f,
        v.exclusive k j b c ip,
      );
    }
