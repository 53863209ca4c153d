-- ===== src/Storage/File.antt =====
-- internal/server/storage/file.go: the conditional write of the file backend, which publishes a new
-- file by a hard link and replaces an old one by a rename.
use Prim.Native.String.{[], ◌∷◌}
use text.Mathlib.Text.{starts_with}
use nstance.Base.{
  ℕ, String, Bool, true, false, not, Option, none, some, Result, ok, err, if◌then◌else◌,
}
use nstance.Base.Dict.{Dict, get, put}
use nstance.Storage.{StorageError, not_found, precondition, io, Digest}

-- Does the text contain "..", as strings.Contains says?
unfoldable pub contains_dots : String → Bool
contains_dots [] = false
contains_dots (c ∷ s) =
    let rest = contains_dots s in if starts_with (c ∷ s) ".." then true else rest

-- filepath.Clean keeps the root, so on Unix the clean path is absolute where the key begins with a slash.
unfoldable pub is_absolute : String → Bool
is_absolute key = starts_with key "/"

-- `validateKey`
unfoldable pub validate_key : String → Bool
unfolding contains_dots is_absolute
validate_key key = if contains_dots key then false else not (is_absolute key)

-- The error of an invalid key is one of fmt.Errorf, like those of the operating system.
abbrev pub invalid_key : StorageError
invalid_key = io 0

module _ {Data : Type 0} ⦃md5 : Digest Data⦄ where
  -- `GetMetadata`: the entity tag is read back from the content.
  unfoldable pub metadata_etag : Option ℕ → Dict Data → String → Result StorageError md5.Tag
  metadata_etag (some e) s key = err (io e)
  metadata_etag none s key = elim (get s key) [ none ↦ err not_found | some d ↦ ok (md5.sum d) ]

  -- os.Link fails where the name exists.
  unfoldable pub link : Option ℕ → Dict Data → String → Data → Result StorageError (Dict Data)
  link (some e) s key d = err (io e)
  link none s key d = elim (get s key) [ none ↦ ok (put s key d) | some _ ↦ err precondition ]

  -- os.Rename replaces what is there.
  unfoldable pub rename : Option ℕ → Dict Data → String → Data → Result StorageError (Dict Data)
  rename (some e) s key d = err (io e)
  rename none s key d = ok (put s key d)

  -- A missing object has the empty entity tag here.
  compare_and_rename :
      Option ℕ → Dict Data → String → Data → md5.Tag → md5.Tag → Result StorageError (Dict Data)
  unfolding rename
  compare_and_rename fault s key d current etag =
      if md5.tag_eq current etag then rename fault s key d else err precondition

  -- `putIfMatchLocked`, with the faults of reading the metadata and of publishing.
  unfoldable pub put_if_match_locked :
      Option ℕ → Option ℕ → Dict Data → String → Data → md5.Tag → Result StorageError (Dict Data)
  unfolding link metadata_etag compare_and_rename
  put_if_match_locked read_fault write_fault s key d etag =
      if md5.tag_eq etag md5.absent
      then link write_fault s key d
      else elim (metadata_etag read_fault s key) [
        | ok current ↦ compare_and_rename write_fault s key d current etag
        | err not_found ↦ compare_and_rename write_fault s key d md5.absent etag
        | err precondition ↦ err precondition
        | err (io e) ↦ err (io e)
      ]

  -- `PutIfMatch`
  unfoldable pub put_if_match :
      Option ℕ → Option ℕ → Dict Data → String → Data → md5.Tag → Result StorageError (Dict Data)
  unfolding validate_key put_if_match_locked
  put_if_match read_fault write_fault s key d etag =
      if validate_key key
      then put_if_match_locked read_fault write_fault s key d etag
      else err invalid_key
