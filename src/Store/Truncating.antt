-- ===== src/Store/Truncating.antt =====
-- file_content.py: `truncate_file`, and the removal of chunks.
pub mod Removing
pub mod Cutting
pub mod Resizing
use ztierfs.Common.{
  ℕ, ◌+◌, ◌-◌, ◌*◌, ◌/◌, ◌%◌, Bool, true, false, not, ◌&&◌, Option, none, some, List, [], ◌∷◌, ltb,
  ◌==◌, if◌then◌else◌, min, take, Result, ok, err, Error, ◌>>=◌,
}
use ztierfs.Common.Dict.{lookup}
use ztierfs.Common.Bytes.{Bytes, zeros}
use ztierfs.Metadata.Schema.{Inode, Db}
use ztierfs.Metadata.Namespace.{set_node_size}
use ztierfs.Metadata.Chunks.{ChunkReplacement, Row, chunk_block, replace_file_chunks}
use ztierfs.Store.Cache.{Cache}
use ztierfs.Store.Codec.{Config, Zstd, PreparedBlock, prepare_blocks}
use ztierfs.Store.Writes.{StoreState, set_prepared_chunks}

unfoldable pub remove_file_chunks : ℕ → ℕ → ℕ → Db → Result Db
remove_file_chunks file_id first_index now db = do
  r ← replace_file_chunks file_id [] (some first_index) now db
  ok r.1

unfoldable pub remove_chunk : ℕ → ℕ → ℕ → Db → Result Db
remove_chunk file_id chunk_index now db = do
  r ←
      replace_file_chunks file_id ((chunk_index, record { digest = none; size = 0 }) ∷ []) none now
        db
  ok r.1

abbrev pub read_row : (Row → ℕ → Result Bytes) → Option Row → ℕ → Result Bytes
read_row read_block none expected_size = ok (zeros expected_size)
read_row read_block (some row) expected_size = read_block row expected_size

unfoldable pub read_chunk : (Row → ℕ → Result Bytes) → ℕ → ℕ → ℕ → Db → Result Bytes
read_chunk read_block file_id chunk_index expected_size db =
    if expected_size == 0
    then ok []
    else read_row read_block (chunk_block file_id chunk_index db) expected_size

unfoldable pub set_chunk :
    Zstd → Config → ℕ → ℕ → Bytes → Bool → ℕ → Cache → StoreState → Result StoreState
set_chunk zstd config file_id chunk_index [] compress now cache s = do
  db' ← remove_chunk file_id chunk_index now s.db
  ok (record s { db = db' })
set_chunk zstd config file_id chunk_index (b ∷ bytes) compress now cache s =
    set_prepared_chunks zstd config file_id
      ((prepare_blocks zstd config ((chunk_index, b ∷ bytes) ∷ []) compress cache).0) now s

-- The chunk in which a shorter file ends keeps the bytes before the end.
unfoldable pub cut_chunk :
    Zstd
    → Config
    → (Row → ℕ → Result Bytes)
    → ℕ
    → ℕ
    → Bool
    → ℕ
    → ℕ
    → ℕ
    → Cache
    → StoreState
    → Result StoreState
cut_chunk zstd config read_block chunk_size file_id compress old_size size now cache s =
    let last_index = size / chunk_size in
    if ltb size old_size && not (size % chunk_size == 0)
    then (read_chunk read_block file_id last_index
          (min chunk_size (old_size - last_index * chunk_size)) s.db
        >>= λ chunk.
            set_chunk zstd config file_id last_index (take (size - last_index * chunk_size) chunk)
              compress now cache s)
    else ok s

-- The first chunk that is behind the new end.
abbrev pub first_removed : ℕ → ℕ → ℕ
first_removed chunk_size size = if size == 0 then 0 else (size + chunk_size - 1) / chunk_size

-- The chunks of a file that gets another size.
unfoldable pub cut_chunks :
    Zstd
    → Config
    → (Row → ℕ → Result Bytes)
    → ℕ
    → ℕ
    → Bool
    → ℕ
    → ℕ
    → ℕ
    → Cache
    → StoreState
    → Result StoreState
cut_chunks zstd config read_block chunk_size file_id compress old_size size now cache s =
    remove_file_chunks file_id (first_removed chunk_size size) now s.db >>= λ db'.
    (if size == 0
      then ok (record s { db = db' })
      else cut_chunk zstd config read_block chunk_size file_id compress old_size size now cache
          (record s { db = db' }))

-- The inode of the file, if it is there.
unfoldable pub truncate_node :
    Zstd
    → Config
    → (Row → ℕ → Result Bytes)
    → ℕ
    → ℕ
    → Bool
    → ℕ
    → ℕ
    → Cache
    → Option Inode
    → StoreState
    → Result StoreState
truncate_node zstd config read_block chunk_size file_id compress size now cache none s =
    err Error.enoent
truncate_node zstd config read_block chunk_size file_id compress size now cache (some node) s =
    if size == node.size
    then ok s
    else (cut_chunks zstd config read_block chunk_size file_id compress node.size size now cache s
        >>= λ s'. ok (record s' { db = set_node_size file_id size now s'.db }))

unfoldable pub truncate_file :
    Zstd
    → Config
    → (Row → ℕ → Result Bytes)
    → ℕ
    → ℕ
    → Bool
    → ℕ
    → ℕ
    → Cache
    → StoreState
    → Result StoreState
truncate_file zstd config read_block chunk_size file_id compress size now cache s =
    truncate_node zstd config read_block chunk_size file_id compress size now cache
      (lookup file_id s.db.inodes) s
