-- ===== src/Tests.antt =====
-- A small file system for the tests of metadata/, file_content.py and block_store.py: chunks of four
-- bytes, file 1 with a hole, file 2 that shares its first block, and a block that nothing refers to.
mod OfMetadata
mod OfStore
mod OfFiles
mod OfWrites
mod OfRwLock
mod OfFuse
use ztierfs.Common.{
  ℕ, ◌+◌, ◌≡◌, refl, true, false, Option, none, some, List, [], ◌∷◌, ◌==◌, if◌then◌else◌, arith,
  inl, Bool-cases,
}
use ztierfs.Common.Dict.{lookup}
use ztierfs.Common.Bytes.{Bytes}
use ztierfs.Handles.{Kind}
use ztierfs.Metadata.Schema.{Storage, inline, tiered, Block, Chunk, Inode, Db, row_ok}
use ztierfs.Metadata.Chunks.{Row}
use ztierfs.Metadata.Deltas.{IsConsistent}
use ztierfs.Store.Disk.{Disk}
use ztierfs.Store.Cache.{Cache}
use ztierfs.Store.Cache.Bounds.{IsValid}
use ztierfs.Store.Snapshot.Reading.{IsFaithful}
use ztierfs.Store.Codec.{Config, Zstd}

-- A codec that puts a byte in front, and a digest that adds the bytes up.
abbrev unpack : Bytes → Option Bytes
unpack [] = none
unpack (x ∷ d) = if x == 40 then some d else none

abbrev sum : Bytes → ℕ
sum [] = 0
sum (x ∷ d) = x + sum d

abbrev pub codec : Zstd
codec = record { compress = λ d. 40 ∷ d; decompress = unpack; digest = sum; round_trip = λ d. refl }

abbrev pub config : Config
config = record {
  compression_min_bytes = 3;
  inline_max_bytes = 2;
  read_cache_bytes = 16;
  hot_max_bytes = 100;
}

abbrev pub content : ℕ → Bytes
content d =
    if d == 10
    then 1 ∷ 2 ∷ 3 ∷ 4 ∷ []
    else if d == 11
    then 5 ∷ 6 ∷ []
    else if d == 18
    then 0 ∷ 0 ∷ 9 ∷ 9 ∷ []
    else if d == 15
    then 8 ∷ 7 ∷ []
    else if d == 0
    then 0 ∷ 0 ∷ []
    else 7 ∷ 7 ∷ 7 ∷ []

abbrev pub hot_block : Block
hot_block = record {
  storage = tiered;
  preferred_tier = 1;
  hot_present = true;
  cold_present = false;
  compressed = true;
  raw_size = 4;
  stored_size = 5;
  refcount = 2;
  atime_ns = 0;
  read_count = 0;
  last_promoted_ns = none;
  last_demoted_ns = none;
  cold_verified_ns = none;
  cold_gc_enqueued_ns = none;
}

abbrev pub inline_block : Block
inline_block = record hot_block {
  storage = inline;
  preferred_tier = 0;
  hot_present = false;
  compressed = false;
  raw_size = 2;
  stored_size = 2;
  refcount = 1;
}

abbrev pub fresh_block : Block
fresh_block = record hot_block { compressed = false; raw_size = 3; stored_size = 3; refcount = 0 }

abbrev pub node : Inode
node = record {
  kind = Kind.file;
  mode = 420;
  uid = 501;
  gid = 20;
  size = 10;
  symlink_target = none;
  nlink = 1;
  atime_ns = 0;
  mtime_ns = 0;
  ctime_ns = 0;
}

abbrev pub db : Db
db = record {
  inodes = (1, node) ∷ (2, record node { size = 4 }) ∷ [];
  dir_entries = [];
  inode_xattrs = [];
  blocks = (10, hot_block) ∷ (11, inline_block) ∷ (21, fresh_block) ∷ [];
  block_payloads = (11, 5 ∷ 6 ∷ []) ∷ [];
  file_chunks =
      record { file_id = 1; chunk_index = 0; hash = 10; size = 4 }
      ∷ record { file_id = 1; chunk_index = 2; hash = 11; size = 2 }
      ∷ record { file_id = 2; chunk_index = 0; hash = 10; size = 4 }
      ∷ [];
  pending_deletions = [];
}

pub db-IsConsistent : IsConsistent db
unfolding row_ok
db-IsConsistent = record { counts = λ d. ground arith; rows = λ d b h. ground (arith, h) }

abbrev pub disk : Disk
disk = record {
  hot = (10, 40 ∷ 1 ∷ 2 ∷ 3 ∷ 4 ∷ []) ∷ (21, 7 ∷ 7 ∷ 7 ∷ []) ∷ [];
  cold = [];
  hot_down = false;
  cold_down = true;
  hot_denied = false;
  cold_denied = false;
}

abbrev pub cache : Cache
cache = record { entries = (11, 5 ∷ 6 ∷ []) ∷ []; size = 2 }

pub cache-IsValid : IsValid 16 cache
cache-IsValid = record { unique = (refl, tt); counted = refl; bounded = omega arith }

pub cache-IsFaithful : IsFaithful content cache
cache-IsFaithful d b h = ground (arith, h)

abbrev pub hot_row : Row
hot_row = record { size = 4; hash = 10; block = hot_block; inline_payload = none }

abbrev pub inline_row : Row
inline_row = record {
  size = 2;
  hash = 11;
  block = inline_block;
  inline_payload = some (5 ∷ 6 ∷ []);
}
