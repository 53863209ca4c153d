-- ===== src/Nat/Store.antt =====
-- `AssignmentStore`: the durable envelope, and the compare-and-swap loop through which every method
-- changes it. JSON is a parameter, and so is what happens around the calls of the storage: its
-- faults, and the writes of other processes between a read and the conditional write that follows.
pub mod Atomic
use nstance.Base.{
  ℕ, suc, zero, ◌+◌, String, ◌≡◌, refl, sym, ◌∙◌, ap, subst, ◌≢◌, ◌⊎◌, Bool, true, false, Option,
  none, some, List, [], Result, ok, err, if◌then◌else◌, inl, inr, arith, Option-cases, Bool-cases,
  Result-cases,
}
use nstance.Base.Dict.{Dict, get, put, get-put, get-put_self, get-put_ne}
use nstance.Storage.{StorageError, not_found, precondition, io, Digest, current_etag}
use nstance.Storage.Mock
use nstance.Storage.Laws.{put_if_match-swaps}
use nstance.Nat.{
  Assignment, Assignments, AssignmentError, invalid_argument, too_many_updates, undecodable,
  storage_failed,
}
use nstance.Nat.Changes.{
  ClaimRequest, claim, claim_is_valid, claim_replacement, update_one, promote, release,
}

abbrev pub assignment_state_key : String
assignment_state_key = "nat/assignments.json"

abbrev pub max_rounds : ℕ
max_rounds = 8

-- Two maps with the same entries: JSON does not keep the order of a map.
abbrev pub SameEntries : Assignments → Assignments → Type 0
SameEntries m n = (k : String) → get m k ≡ get n k

-- encoding/json over the envelope: what was written is read back, whatever the order of its entries.
pub record Codec (Data : Type 0) : Type 0 where
  pub encode : Assignments → Data
  pub decode : Data → Option Assignments
  pub same : Data → Data → Bool
  pub same→eq : (d e : Data) → same d e ≡ true → d ≡ e
  pub decode-encode :
      (m : Assignments) → (n : Assignments) × (decode (encode m) ≡ some n) × SameEntries n m

-- What surrounds round i of the loop.
pub record Surroundings (Data : Type 0) : Type 0 where
  pub read_fault : ℕ → Option ℕ
  pub write_fault : ℕ → Option ℕ
  pub others : ℕ → Dict Data → Dict Data

-- How one round of the loop ends.
pub data Round (Data B : Type 0) : Type 0 where
  returned : Result AssignmentError B → Dict Data → Round Data B
  conflict : Dict Data → Round Data B

module _ {Data : Type 0} ⦃md5 : Digest Data⦄ (codec : Codec Data) where
  -- An absent object is the empty envelope, with the empty entity tag.
  decoded : Data → Option Assignments → Result AssignmentError (Assignments × md5.Tag)
  decoded d none = err undecodable
  decoded d (some m) = ok (m, md5.sum d)

  unfoldable pub load : Option ℕ → Dict Data → Result AssignmentError (Assignments × md5.Tag)
  unfolding decoded Mock.read
  load fault s = elim (Mock.read fault s assignment_state_key) [
    | err not_found ↦ ok ([], md5.absent)
    | err precondition ↦ err (storage_failed precondition)
    | err (io e) ↦ err (storage_failed (io e))
    | ok (d, etag) ↦ decoded d (codec.decode d)
  ]

  module _ (env : Surroundings Data) {B : Type 0} where
    -- The conditional write at the end of a round, on the disk as the others left it.
    commit : ℕ → Assignments → B → md5.Tag → Dict Data → Round Data B
    commit i m b etag t =
        elim (Mock.put_if_match (env.write_fault i) t assignment_state_key (codec.encode m) etag) [
          | ok t' ↦ returned (ok b) t'
          | err precondition ↦ conflict t
          | err not_found ↦ returned (err (storage_failed not_found)) t
          | err (io e) ↦ returned (err (storage_failed (io e))) t
        ]

    -- One round: read, change, and write what has changed.
    attempt :
        ℕ → (Assignments → Result AssignmentError (Assignments × B)) → Dict Data → Round Data B
    attempt i change s = elim (load (env.read_fault i) s) [
      | err e ↦ returned (err e) s
      | ok (m, etag) ↦ elim (change m) [
        | err e ↦ returned (err e) s
        | ok (m', b) ↦
            if codec.same (codec.encode m) (codec.encode m')
            then returned (ok b) s
            else commit i m' b etag (env.others i s)
      ]
    ]

    -- `rounds` more rounds, the first of which is round i.
    update_from :
        ℕ
        → ℕ
        → (Assignments → Result AssignmentError (Assignments × B))
        → Dict Data
        → Result AssignmentError B × Dict Data
    update_from zero i change s = (err too_many_updates, s)
    update_from (suc rounds) i change s = elim (attempt i change s) [
      | returned r s' ↦ (r, s')
      | conflict s' ↦ update_from rounds (suc i) change s'
    ]

    unfoldable pub update :
        (Assignments → Result AssignmentError (Assignments × B))
        → Dict Data
        → Result AssignmentError B × Dict Data
    unfolding update_from attempt commit
    update change s = update_from max_rounds 0 change s
