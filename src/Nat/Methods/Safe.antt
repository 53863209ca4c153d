-- ===== src/Nat/Methods/Safe.antt =====
-- The methods under concurrency: one owner for each address, whatever other writers that keep to the
-- rule do in the meantime.
use nstance.Base.{ℕ, ◌≡◌, ◌∙◌, sym, subst, none, Result, ok, Bool-cases, Result-cases, inl, inr}
use nstance.Base.Dict.{Dict}
use nstance.Storage.{Digest}
use nstance.Nat.{Assignments, AssignmentError}
use nstance.Nat.Changes
use nstance.Nat.Changes.{ClaimRequest, replacement_of, claim_is_valid}
use nstance.Nat.Owners.{OneOwner, claim-OneOwner}
use nstance.Nat.Store.{SameEntries, Codec, Surroundings, update}
use nstance.Nat.Store.Atomic.{
  Loads, Loads-unique, Commits, Others, read_at, written_at, later, update-Commits, update-err,
}
use nstance.Nat.Methods.{claim}

SameEntries-OneOwner : (m n : Assignments) → SameEntries n m → OneOwner m → OneOwner n
SameEntries-OneOwner m n same v = record {
  keyed = λ k a g. v.keyed k a (sym (same k) ∙ g);
  linked = λ k a p g ne f. v.linked k a p (sym (same k) ∙ g) ne (sym (same a.replaces) ∙ f);
  single = λ k j a b g f. v.single k j a b (sym (same k) ∙ g) (sym (same j) ∙ f);
  exclusive = λ k j a b ip g f. v.exclusive k j a b ip (sym (same k) ∙ g) (sym (same j) ∙ f);
}

module _ {Data : Type 0} ⦃md5 : Digest Data⦄ (codec : Codec Data) (env : Surroundings Data) where
  -- What is on the disk, if it can be read, has one owner for each address.
  abbrev pub Holds : Dict Data → Type 0
  Holds s = (m : Assignments) → Loads codec s m → OneOwner m

  module _ (considerate : (i : ℕ) (s : Dict Data) → Holds s → Holds (env.others i s)) where
    Others-Holds : {i : ℕ} {s t : Dict Data} → Others env i s t → Holds s → Holds t
    Others-Holds (read_at e) h = subst Holds (sym e) h
    Others-Holds {i} {s} (written_at e) h = subst Holds (sym e) (considerate i s h)
    Others-Holds {i} {s} (later o) h = Others-Holds o (considerate i s h)

    Commits-Holds :
        {B : Type 0} (change : Assignments → Result AssignmentError (Assignments × B)) (b : B)
        (t u : Dict Data)
        → ((m n : Assignments) → Loads codec t m → OneOwner m → change m ≡ ok (n, b) → OneOwner n)
        → Holds t
        → Commits codec change b t u
        → Holds u
    Commits-Holds change b t u keeps h c m l =
        subst OneOwner (Loads-unique codec u c.stored m c.loads_stored l) (
          SameEntries-OneOwner c.after c.stored c.same_entries
            (keeps c.before c.after c.loads_before (h c.before c.loads_before) c.changes))

    -- Whatever an update returns, and however its rounds interleave with considerate writers, the disk
    -- keeps one owner for each address, if the change does on every disk that it may meet.
    pub update-Holds :
        {B : Type 0} (change : Assignments → Result AssignmentError (Assignments × B))
        (s : Dict Data)
        → ((t : Dict Data) (m n : Assignments) (b : B)
            → Others env 0 s t
            → Loads codec t m
            → OneOwner m
            → change m ≡ ok (n, b)
            → OneOwner n)
        → Holds s
        → Holds (update codec env change s).1
    update-Holds change s keeps h = elim (Result-cases (update codec env change s).0) [
      | inl (b, e) ↦
          let (t, o, c) =
            update-Commits codec env change s (update codec env change s).1 b (pair e) in
          Commits-Holds change b t _ (λ m n l. keeps t m n b o l) (Others-Holds o h) c
      | inr (x, e) ↦
          Others-Holds (update-err codec env change s (update codec env change s).1 x (pair e)) h
    ]
      where
        pair :
            {r : Result AssignmentError _}
            → (update codec env change s).0 ≡ r
            → update codec env change s ≡ (r, (update codec env change s).1)
        pair e = λ i. (e i, (update codec env change s).1)

    -- `Claim`, which creates an instance under an identifier that no pending replacement names, keeps one
    -- owner for each public address on the disk, on every path: claimed, known already, exhausted,
    -- refused, faulty or given up after eight conflicts, if the other writers keep it too.
    pub claim-Holds :
        (r : ClaimRequest) (s : Dict Data)
        → ((t : Dict Data) (m : Assignments)
            → Others env 0 s t
            → Loads codec t m
            → replacement_of m r.instance_id ≡ none)
        → Holds s
        → Holds (claim codec env r s).1
    unfolding claim
    claim-Holds r s fresh h = elim (Bool-cases (claim_is_valid r)) [
      | inr e ↦ rw (e, claim) h
      | inl e ↦
          rw (e, claim)
            (update-Holds (Changes.claim r) s
              (λ t m n b o l v. claim-OneOwner r m n b v (fresh t m o l)) h)
    ]
