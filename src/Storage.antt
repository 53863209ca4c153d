-- ===== src/Storage.antt =====
-- internal/server/storage: the object store that holds the durable state of clusters and shards,
-- with the conditional write on an entity tag. The disk is a dictionary from keys to contents;
-- the MD5 digest that both implementations use for the entity tag is a parameter, and so is the
-- fault that the operating system may report (`none` where it reports none). `Mock` is mock.go
-- and `File` is file.go.
pub mod Mock
pub mod File
pub mod Laws
use nstance.Base.{ℕ, String, ◌≡◌, ◌≢◌, ◌↔◌, Bool, true, none, some}
use nstance.Base.Dict.{Dict, get}

pub data StorageError : Type 0 where
  not_found precondition : StorageError
  io : ℕ → StorageError

-- crypto/md5 printed in hexadecimal: a tag that is never the empty text (`absent`), and that is taken
-- to be free of collisions. The store only compares tags.
pub record Digest (Data : Type 0) : Type 1 where
  pub Tag : Type 0
  pub absent : Tag
  pub tag_eq : Tag → Tag → Bool
  pub tag_eq_iff : (a b : Tag) → (tag_eq a b ≡ true) ↔ (a ≡ b)
  pub sum : Data → Tag
  pub sum-ne-absent : (d : Data) → sum d ≢ absent
  pub sum-injective : (d e : Data) → sum d ≡ sum e → d ≡ e

module _ {Data : Type 0} ⦃md5 : Digest Data⦄ where
  -- The entity tag of the content under a key, the empty one where there is no object.
  unfoldable pub current_etag : Dict Data → String → md5.Tag
  current_etag s key = elim (get s key) [ none ↦ md5.absent | some d ↦ md5.sum d ]
