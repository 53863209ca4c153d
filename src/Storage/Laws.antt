-- ===== src/Storage/Laws.antt =====
-- Compare and swap: what the conditional write promises, and that the two backends agree on it.
use nstance.Base.{
  String, ◌≡◌, ◌≢◌, ◌⊎◌, refl, true, false, Bool-cases, none, some, ok, err, inl, inr, arith,
  Option-cases,
}
use nstance.Base.Dict.{Dict, get, put}
use nstance.Storage.{precondition, Digest, current_etag}
use nstance.Storage.Mock
use nstance.Storage.File
use nstance.Storage.File.{contains_dots, is_absolute, invalid_key, put_if_match_locked}

module _ {Data : Type 0} ⦃md5 : Digest Data⦄ where
  -- Where the operating system reports no fault, the file backend and the mock backend answer every
  -- conditional write of a valid key alike: with the same new disk, or with the same refusal. The file backend
  -- refuses an invalid key, one that contains two dots or begins with a slash, whatever is stored.
  pub put_if_match_agrees :
      (s : Dict Data) (key : String) (d : Data) (etag : md5.Tag)
      → ((contains_dots key ≡ false)
          × (is_absolute key ≡ false)
          × (File.put_if_match none none s key d etag ≡ Mock.put_if_match none s key d etag))
        ⊎ (((contains_dots key ≡ true) ⊎ (is_absolute key ≡ true))
            × (File.put_if_match none none s key d etag ≡ err invalid_key))
  unfolding File.put_if_match Mock.put_if_match
  put_if_match_agrees s key d etag = elim (Bool-cases (contains_dots key)) [
    | inl c ↦ inr (inl c, rw c refl)
    | inr c ↦ elim (Bool-cases (is_absolute key)) [
      | inl a ↦ inr (inr a, rw (c, a) refl)
      | inr a ↦ inl (c, a, rw (c, a) (locked_agrees s key d etag))
    ]
  ]
    where
      locked_agrees :
          (s : Dict Data) (key : String) (d : Data) (etag : md5.Tag)
          → put_if_match_locked none none s key d etag ≡ Mock.put_if_match none s key d etag
      locked_agrees s key d etag = elim (Option-cases (get s key)) [
        | inl e ↦
            ground (arith, e, md5.tag_eq_iff etag md5.absent, md5.tag_eq_iff md5.absent md5.absent)
        | inr (x, e) ↦ ground (
          arith,
          e,
          md5.tag_eq_iff etag md5.absent,
          md5.tag_eq_iff (md5.sum x) md5.absent,
          md5.sum-ne-absent x,
        )
      ]

  -- A conditional write with the entity tag of some content succeeds exactly when that content is
  -- what the object holds now, and is refused with `precondition` when it holds anything else or
  -- nothing.
  pub put_if_match-swaps :
      (s : Dict Data) (key : String) (d old : Data)
      → ((get s key ≡ some old) × (Mock.put_if_match none s key d (md5.sum old) ≡ ok (put s key d)))
        ⊎ ((get s key ≢ some old)
            × (Mock.put_if_match none s key d (md5.sum old) ≡ err precondition))
  unfolding Mock.put_if_match
  put_if_match-swaps s key d old = elim (Option-cases (get s key)) [
    | inl e ↦ ground (
      arith,
      e,
      md5.tag_eq_iff (md5.sum old) md5.absent,
      md5.tag_eq_iff md5.absent (md5.sum old),
      md5.sum-ne-absent old,
    )
    | inr (x, e) ↦ ground (
      arith,
      e,
      md5.tag_eq_iff (md5.sum old) md5.absent,
      md5.tag_eq_iff (md5.sum x) (md5.sum old),
      md5.sum-injective x old,
      md5.sum-ne-absent old,
    )
  ]

  -- With the empty entity tag the write succeeds exactly when there is no object.
  pub put_if_match-creates :
      (s : Dict Data) (key : String) (d : Data)
      → ((get s key ≡ none) × (Mock.put_if_match none s key d md5.absent ≡ ok (put s key d)))
        ⊎ ((get s key ≢ none) × (Mock.put_if_match none s key d md5.absent ≡ err precondition))
  unfolding Mock.put_if_match
  put_if_match-creates s key d = elim (Option-cases (get s key)) [
    | inl e ↦ ground (arith, e, md5.tag_eq_iff (current_etag s key) md5.absent)
    | inr (x, e) ↦ ground (arith, e, md5.tag_eq_iff (md5.sum x) md5.absent, md5.sum-ne-absent x)
  ]

  -- With the entity tag of what is there now, the write goes through.
  pub put_if_match_current :
      (s : Dict Data) (key : String) (d : Data) (etag : md5.Tag)
      → etag ≡ current_etag s key
      → Mock.put_if_match none s key d etag ≡ ok (put s key d)
  unfolding Mock.put_if_match
  put_if_match_current s key d etag h = ground (
    arith,
    md5.tag_eq_iff etag md5.absent,
    md5.tag_eq_iff (current_etag s key) md5.absent,
    md5.tag_eq_iff (current_etag s key) etag,
  )
