-- ===== src/Store/Writes.antt =====
-- block_store.py and file_content.py: prepared blocks are stored, and then mapped to chunks.
pub mod Backing
pub mod HotFiles
pub mod Promoting
pub mod Ensuring
pub mod Looping
pub mod Inserting
pub mod Supplying
pub mod Gathering
pub mod Storing
pub mod Committing
pub mod NewChunks
pub mod ReadBack
use ztierfs.Common.{
  ℕ, ◌+◌, Bool, true, false, not, ◌&&◌, Option, none, some, List, [], ◌∷◌, ◌++◌, leb, ◌==◌,
  if◌then◌else◌, map, length, Result, ok, err, Error, ◌>>=◌,
}
use ztierfs.Common.Dict.{Dict, lookup, contains_key, modify}
use ztierfs.Common.Bytes.{Bytes, same_bytes}
use ztierfs.Metadata.Namespace.{set_node_size}
use ztierfs.Metadata.Schema.{Block, Inode, Db, inline, tiered}
use ztierfs.Metadata.Blocks.{BlockInsert, Presence, insert_blocks, set_block_presence}
use ztierfs.Metadata.Chunks.{ChunkReplacement, Replacements, Row, replace_file_chunks}
use ztierfs.Files.{plan_write_file, pending_chunks}
use ztierfs.Store.Cache.{Cache}
use ztierfs.Store.Disk.{Disk, write_atomic}
use ztierfs.Store.Codec.{
  Config, Zstd, PreparedBlock, prepared_insert, payload_matching, prepare_blocks,
}

-- What a write of blocks changes: the database, the files, `_hot_bytes_added_since_check` and
-- `_demotion_requested`.
pub record StoreState : Type 0 where
  pub db : Db
  pub disk : Disk
  pub hot_bytes_added : ℕ
  pub demotion_requested : Bool

unfoldable pub note_hot_write : Config → ℕ → StoreState → StoreState
note_hot_write config stored_size s =
    let added = s.hot_bytes_added + stored_size in
    if config.hot_max_bytes == 0
    then s
    else if leb config.hot_max_bytes added
    then record s { hot_bytes_added = 0; demotion_requested = true }
    else record s { hot_bytes_added = added }

abbrev pub same_inline : Option Bytes → Option Bytes → Bool
same_inline none none = true
same_inline none (some e) = false
same_inline (some d) none = false
same_inline (some d) (some e) = same_bytes d e

abbrev pub same_flag : Bool → Bool → Bool
same_flag a b = if a then b else not b

-- `_validate_matching_prepared_blocks` raises nothing.
unfoldable pub is_matching : PreparedBlock → PreparedBlock → Bool
is_matching a b =
    a.digest == b.digest
    && (same_flag a.compressed b.compressed
        && (a.raw_size == b.raw_size
            && (same_inline a.inline_payload b.inline_payload && same_bytes a.payload b.payload)))

abbrev pub find_prepared : ℕ → List PreparedBlock → Option PreparedBlock
find_prepared digest [] = none
find_prepared digest (b ∷ bs) = if digest == b.digest then some b else find_prepared digest bs

-- The loop that fills `unique`.
unfoldable pub unique_blocks : List PreparedBlock → List PreparedBlock → Result (List PreparedBlock)
unique_blocks [] unique = ok unique
unique_blocks (b ∷ bs) unique = elim (find_prepared b.digest unique) [
  | none ↦ unique_blocks bs (unique ++ b ∷ [])
  | some existing ↦ if is_matching existing b then unique_blocks bs unique else err Error.runtime
]

-- The keyword arguments with which a block is recorded as hot again.
abbrev pub promoted : ℕ → Presence
promoted now = record {
  hot_present = some true;
  cold_present = none;
  preferred_tier = some 1;
  last_promoted_ns = some now;
  last_demoted_ns = none;
  cold_verified_ns = none;
}

-- `write_block_file` on the hot tier and `note_hot_write`.
unfoldable pub write_hot : Config → ℕ → Bytes → StoreState → Result StoreState
write_hot config digest payload s = do
  disk' ← write_atomic digest 1 payload s.disk
  ok (note_hot_write config (length payload) (record s { disk = disk' }))

-- The part of `_ensure_existing_block_hot_from_write` below its early returns.
unfoldable pub promote_from_write :
    Zstd → Config → PreparedBlock → Block → ℕ → StoreState → Result StoreState
promote_from_write zstd config block row now s = do
  payload ← payload_matching zstd block row
  s' ← write_hot config block.digest payload s
  db' ← set_block_presence block.digest (promoted now) s'.db
  ok (record s' { db = db' })

-- `_ensure_existing_block_hot_from_write`
unfoldable pub ensure_existing :
    Zstd → Config → PreparedBlock → Block → ℕ → StoreState → Result StoreState
ensure_existing zstd config block row now s = elim row.storage [
  | inline ↦ ok s
  | tiered ↦ if row.hot_present then ok s else promote_from_write zstd config block row now s
]

-- A block without a row: its payload is written before the row.
unfoldable pub ensure_payload : Config → PreparedBlock → StoreState → Result StoreState
ensure_payload config block s = elim block.inline_payload [
  | none ↦ write_hot config block.digest block.payload s
  | some _ ↦ ok s
]

-- The loop over `unique`, with the rows that were read before it; it collects `new_blocks`.
unfoldable pub ensure_each :
    Zstd
    → Config
    → Dict Block
    → ℕ
    → List PreparedBlock
    → StoreState
    → Result (StoreState × List BlockInsert)
ensure_each zstd config rows now [] s = ok (s, [])
ensure_each zstd config rows now (block ∷ blocks) s = elim (lookup block.digest rows) [
  | some row ↦ ensure_existing zstd config block row now s >>= λ s'.
      ensure_each zstd config rows now blocks s'
  | none ↦ ensure_payload config block s >>= λ s'.
      ensure_each zstd config rows now blocks s' >>= λ r. ok (r.0, prepared_insert block ∷ r.1)
]

-- `insert_blocks`, if there are new blocks.
unfoldable pub insert_new : List BlockInsert → ℕ → StoreState → Result StoreState
insert_new [] now s = ok s
insert_new (b ∷ bs) now s = do db' ← insert_blocks (b ∷ bs) now s.db; ok (record s { db = db' })

-- With no block the loops do nothing.
unfoldable pub ensure_prepared_blocks :
    Zstd → Config → List PreparedBlock → ℕ → StoreState → Result StoreState
ensure_prepared_blocks zstd config blocks now s = do
  unique ← unique_blocks blocks []
  r ← ensure_each zstd config s.db.blocks now unique s
  insert_new r.1 now r.0

-- The dictionary `replacements`: of two blocks for one chunk the later counts.
unfoldable pub replacements : Dict PreparedBlock → Replacements
replacements [] = []
replacements ((i, b) ∷ chunks) =
    let later = replacements chunks in
    if contains_key i later
    then later
    else (i, record { digest = some b.digest; size = b.raw_size }) ∷ later

-- `FileContentService.set_prepared_chunks`
unfoldable pub set_prepared_chunks :
    Zstd → Config → ℕ → Dict PreparedBlock → ℕ → StoreState → Result StoreState
set_prepared_chunks zstd config file_id [] now s = ok s
set_prepared_chunks zstd config file_id (c ∷ chunks) now s = do
  s' ← ensure_prepared_blocks zstd config (map (λ e. e.1) (c ∷ chunks)) now s
  r ← replace_file_chunks file_id (replacements (c ∷ chunks)) none now s'.db
  ok (record s' { db = r.1 })

-- `commit_prepared_write` for a PreparedFileWrite of so many bytes, with the new size of the file.
unfoldable pub commit_prepared_write :
    Zstd → Config → ℕ → ℕ → ℕ → Dict PreparedBlock → ℕ → StoreState → Result StoreState
commit_prepared_write zstd config file_id bytes_written new_size chunks now s =
    if bytes_written == 0
    then ok s
    else set_prepared_chunks zstd config file_id chunks now s >>= λ s'.
        ok (record s' { db = set_node_size file_id new_size now s'.db })

-- `write_file`: plan, prepare, commit. A write of nothing has no chunks. The cache after the call is
-- left out.
unfoldable pub write_file :
    Zstd
    → Config
    → (Row → ℕ → Result Bytes)
    → ℕ
    → ℕ
    → Inode
    → Bool
    → Bytes
    → ℕ
    → ℕ
    → Cache
    → StoreState
    → Result StoreState
write_file zstd config read_block chunk_size file_id node compress bytes offset now cache s = do
  plan ← plan_write_file chunk_size file_id node compress bytes offset s.db
  new ← pending_chunks read_block plan.bytes plan.chunks
  let prepared = (prepare_blocks zstd config new plan.compress cache).0
  commit_prepared_write zstd config file_id plan.bytes_written plan.new_size prepared now s
