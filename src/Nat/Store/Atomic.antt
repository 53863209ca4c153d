-- ===== src/Nat/Store/Atomic.antt =====
-- The compare-and-swap loop is atomic: an update that succeeds takes effect at one moment, on what is
-- stored at that moment.
use nstance.Base.{
  ℕ, suc, zero, String, ◌≡◌, refl, sym, ◌∙◌, ap, subst, ◌≢◌, ◌⊎◌, true, Option, none, some, Result,
  ok, err, inl, inr, arith, Option-cases, Bool-cases, Result-cases,
}
use nstance.Base.Dict.{Dict, get, put, get-put_self, get-put_ne}
use nstance.Storage.{Digest, current_etag}
use nstance.Storage.Mock
use nstance.Storage.Laws.{put_if_match_current}
use nstance.Nat.{Assignments, AssignmentError}
use nstance.Nat.Store.{
  assignment_state_key, SameEntries, Codec, Surroundings, Round, returned, conflict, load, commit,
  attempt, update_from, update,
}

-- What a change hands to the caller.
abbrev pub value_of :
    {B : Type 0} → Result AssignmentError (Assignments × B) → Result AssignmentError B
value_of (ok (m, b)) = ok b
value_of (err e) = err e

module _ {Data : Type 0} (env : Surroundings Data) where
  -- From round i on the disk `s` becomes `t` by the writes of others alone.
  pub data Others : ℕ → Dict Data → Dict Data → Type 0 where
    read_at : {i : ℕ} {s t : Dict Data} → t ≡ s → Others i s t
    written_at : {i : ℕ} {s t : Dict Data} → t ≡ env.others i s → Others i s t
    later : {i : ℕ} {s t : Dict Data} → Others (suc i) (env.others i s) t → Others i s t

module _ {Data : Type 0} ⦃md5 : Digest Data⦄ (codec : Codec Data) where
  -- The disk holds these assignments.
  abbrev pub Loads : Dict Data → Assignments → Type 0
  Loads s m = (etag : md5.Tag) × (load codec none s ≡ ok (m, etag))

  -- What a read returns is what the disk holds, with its entity tag.
  load-current :
      (fault : Option ℕ) (s : Dict Data) (m : Assignments) (etag : md5.Tag)
      → load codec fault s ≡ ok (m, etag)
      → (load codec none s ≡ ok (m, etag)) × (etag ≡ current_etag s assignment_state_key)
  unfolding load current_etag Mock.read
  load-current (some e) s m etag h = cc
  load-current none s m etag h = elim (Option-cases (get s assignment_state_key)) [
    | inl e ↦ (h, ground (arith, e))
    | inr (d, e) ↦ elim (Option-cases (codec.decode d)) [
      | inl g ↦ ground (arith, e, g)
      | inr (n, g) ↦ (h, ground (arith, e, g))
    ]
  ]

  same_tag :
      (s t : Dict Data) (key : String)
      → current_etag s key ≡ current_etag t key
      → get s key ≡ get t key
  unfolding current_etag
  same_tag s t key h = elim (Option-cases (get s key)) [
    | inl e ↦ elim (Option-cases (get t key)) [
      | inl g ↦ e ∙ sym g
      | inr (d, g) ↦ ground (arith, e, g, md5.sum-ne-absent d)
    ]
    | inr (c, e) ↦ elim (Option-cases (get t key)) [
      | inl g ↦ ground (arith, e, g, md5.sum-ne-absent c)
      | inr (d, g) ↦ ground (arith, e, g, md5.sum-injective c d)
    ]
  ]

  load-same :
      (s t : Dict Data)
      → get s assignment_state_key ≡ get t assignment_state_key
      → load codec none s ≡ load codec none t
  unfolding load Mock.read
  load-same s t h = rw (h, load)

  put_if_match-tag :
      (fault : Option ℕ) (t u : Dict Data) (key : String) (d : Data) (etag : md5.Tag)
      → Mock.put_if_match fault t key d etag ≡ ok u
      → (current_etag t key ≡ etag) × (u ≡ put t key d)
  unfolding Mock.put_if_match
  put_if_match-tag (some e) t u key d etag h = cc
  put_if_match-tag none t u key d etag h = ground (
    arith,
    md5.tag_eq_iff etag md5.absent,
    md5.tag_eq_iff (current_etag t key) md5.absent,
    md5.tag_eq_iff (current_etag t key) etag,
  )

  load-written :
      (t : Dict Data) (m : Assignments)
      → (n : Assignments) × Loads (put t assignment_state_key (codec.encode m)) n × SameEntries n m
  unfolding load Mock.read
  load-written t m =
      let (n, e, same) = codec.decode-encode m in
      (
        n,
        (
          md5.sum (codec.encode m),
          ground (arith, get-put_self t assignment_state_key (codec.encode m), e),
        ),
        same,
      )

  -- A disk holds one map of assignments only.
  pub Loads-unique : (s : Dict Data) (m n : Assignments) → Loads s m → Loads s n → m ≡ n
  Loads-unique s m n (e, h) (f, g) = ground arith

  -- What it means that an update happened at once, between the disk `t` and the disk `u`: `change`
  -- was applied to the assignments that `t` holds, the result is what `u` holds, and nothing else
  -- on the disk has changed.
  pub record Commits {B : Type 0} (change : Assignments → Result AssignmentError (Assignments × B))
      (b : B) (t u : Dict Data) : Type 0 where
    pub before : Assignments
    pub after : Assignments
    pub stored : Assignments
    pub loads_before : Loads t before
    pub changes : change before ≡ ok (after, b)
    pub loads_stored : Loads u stored
    pub same_entries : SameEntries stored after
    pub others_kept : (key : String) → assignment_state_key ≢ key → get u key ≡ get t key

  module _ (env : Surroundings Data) {B : Type 0}
      (change : Assignments → Result AssignmentError (Assignments × B)) where
    written :
        (i : ℕ) (m : Assignments) (b b' : B) (etag : md5.Tag) (t u : Dict Data)
        → commit codec env i m b etag t ≡ returned (ok b') u
        → (b ≡ b')
          × (Mock.put_if_match (env.write_fault i) t assignment_state_key (codec.encode m) etag
              ≡ ok u)
    unfolding commit
    written i m b b' etag t u h = ground arith

    -- A conditional write that goes through commits the change on what the disk then held.
    commit-Commits :
        (i : ℕ) (s t u : Dict Data) (m m' : Assignments) (b b' : B) (etag : md5.Tag)
        → load codec none s ≡ ok (m, etag)
        → etag ≡ current_etag s assignment_state_key
        → change m ≡ ok (m', b)
        → commit codec env i m' b etag t ≡ returned (ok b') u
        → Commits change b' t u
    commit-Commits i s t u m m' b b' etag l current c h =
        let (same_b, put_ok) = written i m' b b' etag t u h in
        let (tag, whole) =
          put_if_match-tag (env.write_fault i) t u assignment_state_key (codec.encode m') etag
            put_ok in
        let (n, loads, same) = load-written t m' in
        let unmoved = load-same t s (same_tag t s assignment_state_key (tag ∙ current)) in
        record {
          before = m;
          after = m';
          stored = n;
          loads_before = (etag, unmoved ∙ l);
          changes = c ∙ ap (λ x. ok (m', x)) same_b;
          loads_stored = subst (λ x. Loads x n) (sym whole) loads;
          same_entries = same;
          others_kept = λ key ne.
              ap (λ x. get x key) whole
              ∙ get-put_ne t assignment_state_key (codec.encode m') key ne;
        }

    -- A round in which nothing changes commits on the disk as it was read.
    keep-Commits :
        (s : Dict Data) (m m' : Assignments) (b : B) (etag : md5.Tag)
        → load codec none s ≡ ok (m, etag)
        → change m ≡ ok (m', b)
        → codec.same (codec.encode m) (codec.encode m') ≡ true
        → Commits change b s s
    keep-Commits s m m' b etag l c h =
        let (n, e, same) = codec.decode-encode m in
        let (n', e', same') = codec.decode-encode m' in
        let equal : codec.encode m ≡ codec.encode m' = codec.same→eq _ _ h in
        let one : n ≡ n' = ground (arith, e, e', equal) in
        record {
          before = m;
          after = m';
          stored = m;
          loads_before = (etag, l);
          changes = c;
          loads_stored = (etag, l);
          same_entries = λ k. sym (same k) ∙ ap (λ x. get x k) one ∙ same' k;
          others_kept = λ key ne. refl;
        }

    attempt-Commits :
        (i : ℕ) (s u : Dict Data) (b : B)
        → attempt codec env i change s ≡ returned (ok b) u
        → (t : Dict Data) × ((t ≡ s) ⊎ (t ≡ env.others i s)) × Commits change b t u
    unfolding attempt
    attempt-Commits i s u b h = elim (Result-cases (load codec (env.read_fault i) s)) [
      | inr (e, g) ↦ ground (arith, g)
      | inl ((m, etag), g) ↦
          let (l, current) = load-current (env.read_fault i) s m etag g in
          elim (Result-cases (change m)) [
            | inr (e, c) ↦ ground (arith, g, c)
            | inl ((m', b'), c) ↦
                elim (Bool-cases (codec.same (codec.encode m) (codec.encode m'))) [
                  | inl unchanged ↦
                      let same_b : b' ≡ b = ground (arith, g, c, unchanged) in
                      let same_u : s ≡ u = ground (arith, g, c, unchanged) in
                      (
                        s,
                        inl refl,
                        subst (Commits change b s) same_u (
                            subst (λ x. Commits change x s s) same_b
                              (keep-Commits s m m' b' etag l c unchanged)),
                      )
                  | inr changed ↦ (
                    env.others i s,
                    inr refl,
                    commit-Commits i s (env.others i s) u m m' b' b etag l current c
                        (ground (arith, g, c, changed)),
                  )
                ]
          ]
    ]

    attempt-conflict :
        (i : ℕ) (s u : Dict Data) → attempt codec env i change s ≡ conflict u → u ≡ env.others i s
    unfolding attempt commit
    attempt-conflict i s u h = ground arith

    attempt-err :
        (i : ℕ) (s u : Dict Data) (e : AssignmentError)
        → attempt codec env i change s ≡ returned (err e) u
        → (u ≡ s) ⊎ (u ≡ env.others i s)
    unfolding attempt commit
    attempt-err i s u e h = ground arith

    Round-cases :
        (r : Round Data B)
        → ((b : B) × (u : Dict Data) × (r ≡ returned (ok b) u))
          ⊎ ((e : AssignmentError) × (u : Dict Data) × (r ≡ returned (err e) u))
          ⊎ ((u : Dict Data) × (r ≡ conflict u))
    Round-cases (returned (ok b) u) = inl (b, u, refl)
    Round-cases (returned (err e) u) = inr (inl (e, u, refl))
    Round-cases (conflict u) = inr (inr (u, refl))

    update_from-Commits :
        (rounds i : ℕ) (s u : Dict Data) (b : B)
        → update_from codec env rounds i change s ≡ (ok b, u)
        → (t : Dict Data) × Others env i s t × Commits change b t u
    unfolding update_from
    update_from-Commits zero i s u b h = ground arith
    update_from-Commits (suc rounds) i s u b h = elim (Round-cases (attempt codec env i change s)) [
      | inl (b', w, e) ↦
          let done : attempt codec env i change s ≡ returned (ok b) u = e ∙ ground (arith, e) in
          let (t, at, c) = attempt-Commits i s u b done in
          elim at [ inl q ↦ (t, read_at q, c) | inr q ↦ (t, written_at q, c) ]
      | inr (inl (e, w, g)) ↦ ground (arith, g)
      | inr (inr (w, g)) ↦
          let left : w ≡ env.others i s = attempt-conflict i s w g in
          let (t, o, c) =
            update_from-Commits rounds (suc i) (env.others i s) u b (ground (arith, g, left)) in
          (t, later o, c)
    ]

    update_from-err :
        (rounds i : ℕ) (s u : Dict Data) (e : AssignmentError)
        → update_from codec env rounds i change s ≡ (err e, u)
        → Others env i s u
    unfolding update_from
    update_from-err zero i s u e h = read_at (ground arith)
    update_from-err (suc rounds) i s u e h = elim (Round-cases (attempt codec env i change s)) [
      | inl (b, w, g) ↦ ground (arith, g)
      | inr (inl (x, w, g)) ↦
          let done : attempt codec env i change s ≡ returned (err e) u = g ∙ ground (arith, g) in
          elim (attempt-err i s u e done) [ inl q ↦ read_at q | inr q ↦ written_at q ]
      | inr (inr (w, g)) ↦
          let left : w ≡ env.others i s = attempt-conflict i s w g in
          later (update_from-err rounds (suc i) (env.others i s) u e (ground (arith, g, left)))
    ]

    -- An update that succeeds took effect at one moment: some disk that the writes of others alone
    -- led to held assignments to which the change was applied, the result is what is stored now, and
    -- no other object was touched. No update of another process is lost in between.
    pub update-Commits :
        (s u : Dict Data) (b : B)
        → update codec env change s ≡ (ok b, u)
        → (t : Dict Data) × Others env 0 s t × Commits change b t u
    unfolding update
    update-Commits s u b h = update_from-Commits 8 0 s u b h

    -- After an update that fails the disk is what the others made of it, as a write that fails is taken to
    -- leave the disk as it was.
    pub update-err :
        (s u : Dict Data) (e : AssignmentError)
        → update codec env change s ≡ (err e, u)
        → Others env 0 s u
    unfolding update
    update-err s u e h = update_from-err 8 0 s u e h

    -- With no fault and no other writer the first round decides: the update answers with what the change
    -- says of the stored assignments, its value or its error, and never gives up.
    pub update_alone :
        (s : Dict Data) (m : Assignments)
        → env.read_fault 0 ≡ none
        → env.write_fault 0 ≡ none
        → env.others 0 s ≡ s
        → Loads s m
        → (update codec env change s).0 ≡ value_of (change m)
    unfolding update
    update_alone s m nr nw alone (etag, l) = elim (Result-cases (change m)) [
      | inr (e, c) ↦ ground (arith, nr, l, c)
      | inl ((n, b), c) ↦ ground (
        arith,
        nr,
        nw,
        alone,
        l,
        c,
        load-current none s m etag l,
        put_if_match_current s assignment_state_key (codec.encode n) etag,
      )
    ]
