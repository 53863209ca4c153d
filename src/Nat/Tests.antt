-- ===== src/Nat/Tests.antt =====
-- The NAT assignments at concrete inputs, with a store whose contents are the assignments themselves.
mod Updates
use nstance.Base.{
  true, false, ◌⊎◌, text_ne, ℕ, suc, zero, String, ◌≡◌, refl, ◌≢◌, Option, none, some, [], ◌∷◌, ok,
  err, arith, eq_iff, subst, decide, decide_iff, text_discrete, ℕ_discrete,
}
use nstance.Base.Dict.{Dict, get, put}
use nstance.Storage.{Digest, precondition}
use nstance.Storage.File
use nstance.Storage.File.{contains_dots, is_absolute, invalid_key}
use nstance.Storage.Laws.{put_if_match_agrees, put_if_match-swaps, put_if_match-creates}
use nstance.Storage.Mock
use nstance.Nat.{PublicAddress, Assignment, Assignments}
use nstance.Nat.Changes.{
  ClaimRequest, claim, new_assignment, new_replacement, claim_replacement, retired, promoted,
  replacement_of, available_address, promote, used,
}
use nstance.Nat.Owners.{OneOwner, claim-OneOwner, claim_replacement-OneOwner}
use nstance.Nat.Promotion.{InCharge, Retired, promote-hands_over}
use nstance.Nat.Store.{Codec, Surroundings, update, load, assignment_state_key}
use nstance.Nat.Store.Atomic.{
  Others, Loads, Loads-unique, value_of, Commits, update-Commits, update_alone,
}
use nstance.Nat.Methods
use nstance.Nat.Methods.Safe.{Holds, claim-Holds}

address_discrete : Discrete PublicAddress
unfolding text_discrete
address_discrete = hlevel text_discrete

assignments_discrete : Discrete Assignments
unfolding address_discrete
assignments_discrete = hlevel (text_discrete, address_discrete, ℕ_discrete)

tags_discrete : Discrete (Option Assignments)
unfolding assignments_discrete
tags_discrete = hlevel assignments_discrete

some_ne_none : (m : Assignments) → ◌≢◌ {A = Option Assignments} (some m) none
some_ne_none m = λ h. cc h

some_inj : (m n : Assignments) → ◌≡◌ {A = Option Assignments} (some m) (some n) → m ≡ n
some_inj m n h = cc h

-- The content is its own digest.
instance abbrev plain : Digest Assignments
plain = record {
  Tag = Option Assignments;
  absent = none;
  tag_eq = λ a b. decide (tags_discrete a b);
  tag_eq_iff = λ a b. decide_iff (tags_discrete a b);
  sum = λ m. some m;
  sum-ne-absent = some_ne_none;
  sum-injective = some_inj;
}

abbrev plain_codec : Codec Assignments
plain_codec = record {
  encode = λ m. m;
  decode = λ m. some m;
  same = λ m n. decide (assignments_discrete m n);
  same→eq = λ m n. (decide_iff (assignments_discrete m n)).0;
  decode-encode = λ m. (m, refl, λ k. refl);
}

abbrev request : String → ClaimRequest
request id = record {
  addresses =
      record { ipv4 = "192.0.2.1"; allocation_id = "a" }
      ∷ record { ipv4 = "192.0.2.2"; allocation_id = "b" }
      ∷ [];
  tenant = "acme";
  instance_subnet_id = "subnet-1";
  instance_id = id;
  instance_type = "small";
  created_at = 5;
}

abbrev first_address : Option PublicAddress
first_address = some (record { ipv4 = "192.0.2.1"; allocation_id = "a" })

-- Another process claims an address between the first read and the first write.
abbrev busy : Surroundings Assignments
busy = record {
  read_fault = λ i. none;
  write_fault = λ i. none;
  others = elim [
    | zero ↦ λ s.
        put s assignment_state_key (("nat-0", new_assignment (request "nat-0") first_address) ∷ [])
    | suc i ↦ λ s. s
  ];
}

abbrev claimed : String → Assignments
claimed id = (id, new_assignment (request id) first_address) ∷ []

claim_runs :
    (Methods.claim plain_codec busy (request "nat-1") []).0
    ≡ ok (
        new_assignment
          (request "nat-1")
          (some (record { ipv4 = "192.0.2.2"; allocation_id = "b" })))
unfolding Methods.claim update load claim available_address Mock.put_if_match Mock.read
    tags_discrete used get put text_discrete ℕ_discrete decide
claim_runs = refl

abbrev second : Assignment
second =
    new_assignment (request "nat-1") (some (record { ipv4 = "192.0.2.2"; allocation_id = "b" }))

abbrev both : Dict Assignments
both =
    (
      assignment_state_key,
      ("nat-0", new_assignment (request "nat-0") first_address) ∷ ("nat-1", second) ∷ [],
    )
    ∷ []

update-Commits_example :
    (t : Dict Assignments) × Others busy 0 [] t
    × Commits plain_codec (claim (request "nat-1")) second t both
unfolding Methods.claim update load claim available_address Mock.put_if_match Mock.read
    tags_discrete used get put text_discrete ℕ_discrete decide
update-Commits_example =
    update-Commits plain_codec busy (claim (request "nat-1")) [] both second refl

-- A disk that cannot be read.
abbrev solo : Surroundings Assignments
solo = record { read_fault = λ i. none; write_fault = λ i. none; others = λ i s. s }

one-OneOwner :
    (k : String) (a : Assignment) → a.instance_id ≡ k → a.replaces ≡ "" → OneOwner ((k, a) ∷ [])
unfolding get
one-OneOwner k a named alone = record {
  keyed = λ j b h. ground (arith, eq_iff k j);
  linked = λ j b p h ne g. ground (arith, eq_iff k j);
  single = λ j i b c h g ne e. ground (arith, eq_iff k j, eq_iff k i);
  exclusive = λ j i b c ip h g ob oc hb hc. ground (arith, eq_iff k j, eq_iff k i);
}

abbrev disk : Dict Assignments
disk = (assignment_state_key, claimed "nat-0") ∷ []

solo_others : {i : ℕ} {s t : Dict Assignments} → Others solo i s t → t ≡ s
solo_others (Others.read_at e) = e
solo_others (Others.written_at e) = e
solo_others (Others.later o) = solo_others o

disk-Loads : Loads plain_codec disk (claimed "nat-0")
unfolding load Mock.read get
disk-Loads = (some (claimed "nat-0"), refl)

disk-Holds : Holds plain_codec solo disk
disk-Holds m l =
    subst OneOwner (Loads-unique plain_codec disk (claimed "nat-0") m disk-Loads l)
      (one-OneOwner "nat-0" (new_assignment (request "nat-0") first_address) refl refl)

nat_1_fresh :
    (t : Dict Assignments) (m : Assignments)
    → Others solo 0 disk t
    → Loads plain_codec t m
    → replacement_of m "nat-1" ≡ none
unfolding replacement_of
nat_1_fresh t m o l =
    subst (λ n. replacement_of n "nat-1" ≡ none)
      (Loads-unique plain_codec disk (claimed "nat-0") m disk-Loads
        (subst (λ s. Loads plain_codec s m) (solo_others o) l))
      refl

update_alone_example :
    (update plain_codec solo (claim (request "nat-1")) disk).0
    ≡ value_of (claim (request "nat-1") (claimed "nat-0"))
update_alone_example =
    update_alone plain_codec solo (claim (request "nat-1")) disk (claimed "nat-0") refl refl refl
      disk-Loads

claim-Holds_example :
    OneOwner (("nat-0", new_assignment (request "nat-0") first_address) ∷ ("nat-1", second) ∷ [])
unfolding Methods.claim update load claim available_address Mock.put_if_match Mock.read
    tags_discrete used get put text_discrete ℕ_discrete decide
claim-Holds_example =
    claim-Holds plain_codec solo (λ i s h. h) (request "nat-1") disk nat_1_fresh disk-Holds _
      (
        some (("nat-0", new_assignment (request "nat-0") first_address) ∷ ("nat-1", second) ∷ []),
        refl,
      )

abbrev held : Assignments
held = claimed "nat-0"

held-OneOwner : OneOwner held
held-OneOwner = one-OneOwner "nat-0" (new_assignment (request "nat-0") first_address) refl refl

abbrev two_held : Assignments
two_held = ("nat-0", new_assignment (request "nat-0") first_address) ∷ ("nat-1", second) ∷ []

claim-OneOwner_example : OneOwner two_held
unfolding claim available_address used get put replacement_of
claim-OneOwner_example =
    claim-OneOwner (request "nat-1") held two_held second held-OneOwner refl refl

abbrev bigger : Assignment
bigger = new_replacement (new_assignment (request "nat-0") first_address) "nat-2" "large" 9

abbrev replacing : Assignments
replacing = ("nat-0", new_assignment (request "nat-0") first_address) ∷ ("nat-2", bigger) ∷ []

nat_0_is_named : ◌≢◌ {A = String} "nat-0" ""
nat_0_is_named = text_ne "nat-0" "" refl

claim_replacement-OneOwner_example : OneOwner replacing
unfolding claim_replacement get put replacement_of
claim_replacement-OneOwner_example =
    claim_replacement-OneOwner (new_assignment (request "nat-0") first_address)
      (new_assignment (request "nat-0") first_address) "nat-2" "large" 9 held replacing bigger
      held-OneOwner refl nat_0_is_named refl refl (refl, refl) refl

replacing-OneOwner : OneOwner replacing
unfolding claim_replacement get put replacement_of
replacing-OneOwner =
    claim_replacement-OneOwner (new_assignment (request "nat-0") first_address)
      (new_assignment (request "nat-0") first_address) "nat-2" "large" 9 held replacing bigger
      held-OneOwner refl nat_0_is_named refl refl (refl, refl) refl

abbrev handed_over : Assignments
handed_over =
    ("nat-0", retired (new_assignment (request "nat-0") first_address))
    ∷ ("nat-2", promoted bigger 20)
    ∷ []

promote-hands_over_example :
    (r : Assignment) × (p : Assignment) × (r' : Assignment) × (p' : Assignment) × (get replacing
        "nat-2"
      ≡ some r)
    × (r.replaces ≢ "")
    × (get replacing r.replaces ≡ some p)
    × (get handed_over "nat-2" ≡ some r')
    × InCharge r r' p 20
    × (get handed_over r.replaces ≡ some p')
    × Retired p p'
    × ((k : String) → k ≢ "nat-2" → k ≢ r.replaces → get handed_over k ≡ get replacing k)
    × OneOwner handed_over
unfolding promote get put
promote-hands_over_example =
    promote-hands_over "nat-2" 20 replacing handed_over replacing-OneOwner refl

put_if_match-swaps_example :
    ((get disk assignment_state_key ≡ some held)
      × (Mock.put_if_match none disk assignment_state_key two_held (some held)
          ≡ ok (put disk assignment_state_key two_held)))
    ⊎ ((get disk assignment_state_key ≢ some held)
        × (Mock.put_if_match none disk assignment_state_key two_held (some held)
            ≡ err precondition))
put_if_match-swaps_example = put_if_match-swaps disk assignment_state_key two_held held

put_if_match-creates_example :
    ((get {V = Assignments} [] assignment_state_key ≡ none)
      × (Mock.put_if_match none [] assignment_state_key held none
          ≡ ok (put {V = Assignments} [] assignment_state_key held)))
    ⊎ ((get {V = Assignments} [] assignment_state_key ≢ none)
        × (Mock.put_if_match none [] assignment_state_key held none ≡ err precondition))
put_if_match-creates_example = put_if_match-creates [] assignment_state_key held

put_if_match_agrees_example :
    ((contains_dots assignment_state_key ≡ false)
      × (is_absolute assignment_state_key ≡ false)
      × (File.put_if_match none none disk assignment_state_key two_held (some two_held)
          ≡ Mock.put_if_match none disk assignment_state_key two_held (some two_held)))
    ⊎ (((contains_dots assignment_state_key ≡ true) ⊎ (is_absolute assignment_state_key ≡ true))
        × (File.put_if_match none none disk assignment_state_key two_held (some two_held)
            ≡ err invalid_key))
put_if_match_agrees_example = put_if_match_agrees disk assignment_state_key two_held (some two_held)
