-- ===== src/Metadata/Schema.antt =====
-- metadata/schema.py: the rows of the tables, and the constraints that SQLite checks. A digest is the
-- number that its hexadecimal text stands for.
use ztierfs.Common.{
  ℕ, Bool, true, false, not, ◌&&◌, ◌||◌, Option, none, some, List, ltb, ◌==◌, if◌then◌else◌, any_of,
  length, contains, is_some, Result, ok, err, Error,
}
use ztierfs.Common.Dict.{Dict, lookup, insert}
use ztierfs.Common.Bytes.{Bytes}
use ztierfs.Handles.{Kind}

-- blocks.storage_kind
pub data Storage : Type 0 where
  inline tiered : Storage

abbrev pub is_tiered : Storage → Bool
is_tiered inline = false
is_tiered tiered = true

-- A row of `blocks`, under its primary key `hash`.
pub record Block : Type 0 where
  pub storage : Storage
  pub preferred_tier : ℕ
  pub hot_present : Bool
  pub cold_present : Bool
  pub compressed : Bool
  pub raw_size : ℕ
  pub stored_size : ℕ
  pub refcount : ℕ
  pub atime_ns : ℕ
  pub read_count : ℕ
  pub last_promoted_ns : Option ℕ
  pub last_demoted_ns : Option ℕ
  pub cold_verified_ns : Option ℕ
  pub cold_gc_enqueued_ns : Option ℕ

-- A row of `file_chunks`; its primary key is the pair of the first two columns.
pub record Chunk : Type 0 where
  pub file_id : ℕ
  pub chunk_index : ℕ
  pub hash : ℕ
  pub size : ℕ

-- A row of `pending_deletions`.
pub record Pending : Type 0 where
  pub id : ℕ
  pub digest : ℕ
  pub tier : ℕ
  pub enqueued_ns : ℕ

-- A row of `inodes`, under its primary key `id`.
pub record Inode : Type 0 where
  pub kind : Kind
  pub mode : ℕ
  pub uid : ℕ
  pub gid : ℕ
  pub size : ℕ
  pub symlink_target : Option Bytes
  pub nlink : ℕ
  pub atime_ns : ℕ
  pub mtime_ns : ℕ
  pub ctime_ns : ℕ

-- The text of a name, as its bytes in UTF-8; SQLite compares these.
abbrev pub Name : Type 0
Name = Bytes

-- A row of `dir_entries`; its primary key is the pair of the first two columns.
pub record Entry : Type 0 where
  pub parent_id : ℕ
  pub name : Name
  pub inode_id : ℕ

-- A row of `inode_xattrs`; its primary key is the pair of the first two columns.
pub record Xattr : Type 0 where
  pub inode_id : ℕ
  pub name : Name
  pub value : Bytes

pub record Db : Type 0 where
  pub inodes : Dict Inode
  pub dir_entries : List Entry
  pub inode_xattrs : List Xattr
  pub blocks : Dict Block
  pub block_payloads : Dict Bytes
  pub file_chunks : List Chunk
  pub pending_deletions : List Pending

-- The CHECK over `storage_kind`, `preferred_tier`, `hot_present` and `cold_present`.
abbrev pub placement_ok : Storage → ℕ → Bool → Bool → Bool
placement_ok inline tier hot cold = tier == 0 && (not hot && not cold)
placement_ok tiered tier hot cold = (tier == 1 || tier == 2) && (hot || cold)

-- The CHECK constraints of `blocks`. Those on the sign of a counter hold of every natural number.
unfoldable pub row_ok : Block → Bool
row_ok b =
    placement_ok b.storage b.preferred_tier b.hot_present b.cold_present
    && (ltb 0 b.raw_size && ltb 0 b.stored_size)

-- The CHECK of `dir_entries` on a name: it is not empty and has no slash.
unfoldable pub name_ok : Name → Bool
name_ok name = ltb 0 (length name) && not (contains 47 name)

-- The CHECK of `inodes` on `symlink_target`.
abbrev pub target_ok : Kind → Option Bytes → Bool
target_ok Kind.symlink target = is_some target
target_ok Kind.dir target = not (is_some target)
target_ok Kind.file target = not (is_some target)

-- `UPDATE blocks SET ... WHERE hash = digest`: no row is no error, a broken CHECK is one.
unfoldable pub update_block : ℕ → (Block → Block) → Db → Result Db
unfolding row_ok
update_block digest f db = elim (lookup digest db.blocks) [
  | none ↦ ok db
  | some b ↦
      if row_ok (f b)
      then ok (record db { blocks = insert digest (f b) db.blocks })
      else err Error.integrity
]

-- Some row of `file_chunks` refers to the block.
abbrev pub is_referenced : ℕ → List Chunk → Bool
is_referenced digest = any_of (λ r. r.hash == digest)
