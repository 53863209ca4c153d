-- ===== src/Storage/Mock.antt =====
-- internal/server/storage/mock.go: objects as files under one directory.
use nstance.Base.{ℕ, String, Bool, Option, none, some, Result, ok, err, if◌then◌else◌, is_some}
use nstance.Base.Dict.{Dict, get, put, delete}
use nstance.Storage.{StorageError, not_found, precondition, io, Digest, current_etag}

module _ {Data : Type 0} ⦃md5 : Digest Data⦄ where
  unfoldable pub read : Option ℕ → Dict Data → String → Result StorageError (Data × md5.Tag)
  read (some e) s key = err (io e)
  read none s key = elim (get s key) [ none ↦ err not_found | some d ↦ ok (d, md5.sum d) ]

  unfoldable pub put_if_match :
      Option ℕ → Dict Data → String → Data → md5.Tag → Result StorageError (Dict Data)
  unfolding current_etag
  put_if_match (some e) s key d etag = err (io e)
  put_if_match none s key d etag =
      let current = current_etag s key in
      if md5.tag_eq etag md5.absent
      then (if md5.tag_eq current md5.absent then ok (put s key d) else err precondition)
      else (if md5.tag_eq current etag then ok (put s key d) else err precondition)

module _ {Data : Type 0} where
  unfoldable pub write : Option ℕ → Dict Data → String → Data → Result StorageError (Dict Data)
  write (some e) s key d = err (io e)
  write none s key d = ok (put s key d)

  -- Removing what is not there succeeds.
  unfoldable pub remove : Option ℕ → Dict Data → String → Result StorageError (Dict Data)
  remove fault s key = elim (get s key) [
    | none ↦ ok s
    | some _ ↦ elim fault [ none ↦ ok (delete s key) | some e ↦ err (io e) ]
  ]

  unfoldable pub exists : Option ℕ → Dict Data → String → Result StorageError Bool
  exists (some e) s key = err (io e)
  exists none s key = ok (is_some (get s key))
