-- ===== src/Reconciler/Scaling/Rotation.antt =====
-- Which instance the check of a group's configuration rotates.
use nstance.Base.{
  ℕ, String, ◌≡◌, refl, sym, subst, ap, ◌∙◌, ◌⊎◌, Bool, true, false, Option, none, some, ◌==◌, inl,
  inr, arith, Bool-cases, Option-cases, if◌then◌else◌, List, [], ◌∷◌, ◌++◌, All,
}
use nstance.LocalDb.{Instance}
use nstance.Reconciler.{World, Env}
use nstance.Reconciler.Expiry.{find_instance}
use nstance.Reconciler.Scaling.{Drift, draining, first_drifted, find_drift, hash_of}

-- The instance is not draining, or cannot be read.
abbrev pub Undrained : Env → World → String → Type 0
Undrained env w id = (i : Instance) → find_instance env id w ≡ some i → i.drain_started_at ≡ none

-- The instance has the configuration, or cannot be read.
abbrev pub UpToDate : Env → String → World → String → Type 0
UpToDate env hash w id =
    (i : Instance) → find_instance env id w ≡ some i → (hash_of i == hash) ≡ true

-- What a search that did not find a draining instance says: nothing drains, and what it found is the first
-- instance of the list whose configuration is not the one that is wanted.
abbrev pub Oldest : Env → String → World → List String → Option String → Type 0
Oldest env hash w all none = All (UpToDate env hash w) all
Oldest env hash w all (some id) =
    (before : List String) × (after : List String) × (i : Instance) × (all ≡ before ++ id ∷ after)
    × All (UpToDate env hash w) before
    × (find_instance env id w ≡ some i)
    × ((hash_of i == hash) ≡ false)

next_found : String → Instance → String → Option String → Option String
next_found hash i id (some d) = some d
next_found hash i id none = if hash_of i == hash then none else some id

stops : {r : Option String} → draining ≡ first_drifted r → ⊥
stops h = ground arith

unread : (env : Env) (w : World) (id : String) → find_instance env id w ≡ none → Undrained env w id
unread env w id n i h = ground (arith, n, h)

read :
    (env : Env) (w : World) (id : String) (i : Instance)
    → find_instance env id w ≡ some i
    → i.drain_started_at ≡ none
    → Undrained env w id
read env w id i n d j h = ground (arith, n, h, d)

-- What the search does at an instance, by what the table and the row say.
at_row : Env → String → World → Option String → String → List String → Instance → Option ℕ → Drift
at_row env hash w found id rest i (some at) = draining
at_row env hash w found id rest i none = find_drift env hash w (next_found hash i id found) rest

row_lem :
    (env : Env) (hash : String) (w : World) (found : Option String) (id : String)
    (rest : List String) (i : Instance) (at : Option ℕ)
    → (elim at [
      | some t ↦ draining
      | none ↦
          find_drift env hash w
            (elim found [ some d ↦ some d | none ↦ if hash_of i == hash then none else some id ])
            rest
    ])
      ≡ at_row env hash w found id rest i at
unfolding at_row next_found
row_lem env hash w found id rest i (some t) = refl
row_lem env hash w (some d) id rest i none = refl
row_lem env hash w none id rest i none = refl

find_drift_row :
    (env : Env) (hash : String) (w : World) (found : Option String) (id : String)
    (rest : List String) (i : Instance)
    → find_instance env id w ≡ some i
    → find_drift env hash w found (id ∷ rest) ≡ at_row env hash w found id rest i i.drain_started_at
unfolding find_drift at_row next_found
find_drift_row env hash w found id rest i n =
    rw (n, find_drift) (row_lem env hash w found id rest i i.drain_started_at)

-- A step of the search that does not stop: the instance cannot be read, or it does not drain.
step_cases :
    (env : Env) (hash : String) (w : World) (found : Option String) (id : String)
    (rest : List String) (r : Option String)
    → find_drift env hash w found (id ∷ rest) ≡ first_drifted r
    → ((find_instance env id w ≡ none) × (find_drift env hash w found rest ≡ first_drifted r))
      ⊎ ((i : Instance) × (find_instance env id w ≡ some i)
          × (i.drain_started_at ≡ none)
          × (find_drift env hash w (next_found hash i id found) rest ≡ first_drifted r))
unfolding find_drift at_row
step_cases env hash w found id rest r h = elim (Option-cases (find_instance env id w)) [
  | inl n ↦ inl (n, sym (rw (n, find_drift) refl) ∙ h)
  | inr (i, n) ↦
      let q = sym (find_drift_row env hash w found id rest i n) ∙ h in
      elim (Option-cases i.drain_started_at) [
        | inl d ↦
            inr (i, n, d, subst (λ x. at_row env hash w found id rest i x ≡ first_drifted r) d q)
        | inr (at, d) ↦
            absurd (stops (subst (λ x. at_row env hash w found id rest i x ≡ first_drifted r) d q))
      ]
]

find_drift-Undrained :
    (env : Env) (hash : String) (w : World) (found : Option String) (all : List String)
    (r : Option String)
    → find_drift env hash w found all ≡ first_drifted r
    → All (Undrained env w) all
find_drift-Undrained env hash w found [] r h = tt
find_drift-Undrained env hash w found (id ∷ rest) r h =
    elim (step_cases env hash w found id rest r h) [
      | inl (n, q) ↦ (unread env w id n, find_drift-Undrained env hash w found rest r q)
      | inr (i, n, d, q) ↦ (
        read env w id i n d,
        find_drift-Undrained env hash w (next_found hash i id found) rest r q,
      )
    ]

found_stays :
    (env : Env) (hash : String) (w : World) (d : String) (all : List String) (r : Option String)
    → find_drift env hash w (some d) all ≡ first_drifted r
    → r ≡ some d
unfolding find_drift next_found
found_stays env hash w d [] r h = ground (arith, h)
found_stays env hash w d (id ∷ rest) r h = elim (step_cases env hash w (some d) id rest r h) [
  | inl (n, q) ↦ found_stays env hash w d rest r q
  | inr (i, n, e, q) ↦ found_stays env hash w d rest r q
]

found_none : {r : Option String} → first_drifted none ≡ first_drifted r → none ≡ r
found_none h = ground (arith, h)

vacuous :
    (env : Env) (hash : String) (w : World) (id : String)
    → find_instance env id w ≡ none
    → UpToDate env hash w id
vacuous env hash w id n i h = ground (arith, n, h)

current :
    (env : Env) (hash : String) (w : World) (id : String) (i : Instance)
    → find_instance env id w ≡ some i
    → (hash_of i == hash) ≡ true
    → UpToDate env hash w id
current env hash w id i n e j h = subst (λ (x : Instance). (hash_of x == hash) ≡ true) (same h) e
  where
    same : {j : Instance} → find_instance env id w ≡ some j → i ≡ j
    same h = ground (arith, n, h)

push :
    (env : Env) (hash : String) (w : World) (id : String) (rest : List String) (r : Option String)
    → UpToDate env hash w id
    → Oldest env hash w rest r
    → Oldest env hash w (id ∷ rest) r
push env hash w id rest none u o = (u, o)
push env hash w id rest (some d) u (before, after, i, split, up, n, e) =
    (id ∷ before, after, i, ap (λ xs. id ∷ xs) split, (u, up), n, e)

search_lem :
    (env : Env) (hash : String) (w : World) (all : List String) (r : Option String)
    → find_drift env hash w none all ≡ first_drifted r
    → Oldest env hash w all r
unfolding find_drift next_found
search_lem env hash w [] r h = subst (Oldest env hash w []) (found_none h) tt
search_lem env hash w (id ∷ rest) r h = elim (step_cases env hash w none id rest r h) [
  | inl (n, q) ↦
      push env hash w id rest r (vacuous env hash w id n) (search_lem env hash w rest r q)
  | inr (i, n, d, q) ↦
      let family : Bool → Type 0 =
        λ b. find_drift env hash w (if b then none else some id) rest ≡ first_drifted r in
      elim (Bool-cases (hash_of i == hash)) [
        | inl e ↦
            push env hash w id rest r (current env hash w id i n e)
              (search_lem env hash w rest r (subst family e q))
        | inr e ↦
            subst (Oldest env hash w (id ∷ rest))
              (sym (found_stays env hash w id rest r (subst family e q)))
              ([], rest, i, refl, tt, n, e)
      ]
]

-- A search through the instances of a group for one to rotate that does not stop at a draining one: none of
-- those that can be read is draining, and what it returns is the first of the list, which is the oldest,
-- whose configuration differs from the group's, or none where each has the group's configuration.
pub find_drift-finds-Oldest :
    (env : Env) (hash : String) (w : World) (all : List String) (r : Option String)
    → find_drift env hash w none all ≡ first_drifted r
    → All (Undrained env w) all × Oldest env hash w all r
find_drift-finds-Oldest env hash w all r h =
    (find_drift-Undrained env hash w none all r h, search_lem env hash w all r h)
