-- ===== src/Nat/Methods.antt =====
-- The methods of `AssignmentStore`: a change, run through the loop of `update`.
pub mod Safe
use nstance.Base.{
  ℕ, String, Bool, true, false, Option, none, some, List, Result, ok, err, if◌then◌else◌,
}
use nstance.Base.Dict.{Dict}
use nstance.Storage.{Digest}
use nstance.Nat.{Assignment, Assignments, AssignmentError, invalid_argument}
use nstance.Nat.Changes
use nstance.Nat.Changes.{ClaimRequest}
use nstance.Nat.Store.{Codec, Surroundings, load, update}

abbrev pub state_only {ℓ} : {E A B : Type ℓ} → Result E (A × B) → Result E A
state_only (ok (a, b)) = ok a
state_only (err e) = err e

module _ {Data : Type 0} ⦃md5 : Digest Data⦄ (codec : Codec Data) (env : Surroundings Data) where
  unfoldable pub claim : ClaimRequest → Dict Data → Result AssignmentError Assignment × Dict Data
  unfolding Changes.claim_is_valid
  claim r s =
      if Changes.claim_is_valid r
      then update codec env (Changes.claim r) s
      else (err invalid_argument, s)

  unfoldable pub claim_replacement :
      Assignment → String → String → ℕ → Dict Data → Result AssignmentError Assignment × Dict Data
  claim_replacement current id kind now s =
      update codec env (Changes.claim_replacement current id kind now) s

  unfoldable pub update_assignment :
      String → (Assignment → Assignment) → Dict Data → Result AssignmentError (Unit {0}) × Dict Data
  update_assignment id apply s = update codec env (Changes.update_one id apply) s

  unfoldable pub promote : String → ℕ → Dict Data → Result AssignmentError (Unit {0}) × Dict Data
  promote id now s = update codec env (Changes.promote id now) s

  unfoldable pub release : String → Dict Data → Result AssignmentError (Unit {0}) × Dict Data
  release id s = update codec env (Changes.release id) s

  -- `Assignments`
  unfoldable pub assignments : Dict Data → Result AssignmentError Assignments
  assignments s = state_only (load codec (env.read_fault 0) s)
