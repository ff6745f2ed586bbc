-- ===== src/Files.antt =====
-- file_content.py: the bytes of a regular file, cut into chunks of `chunk_size` bytes. The offsets and
-- sizes that reach it are not negative.
pub mod Reading
pub mod Writing
use mathlib.Core.Option
use ztierfs.Common.{
  ℕ, zero, suc, ◌+◌, ◌-◌, ◌*◌, ◌/◌, Bool, true, false, not, ◌&&◌, ◌||◌, Option, none, some, List,
  [], ◌∷◌, ◌++◌, leb, ltb, ◌==◌, if◌then◌else◌, length, min, max, map, Result, ok, err, Error,
  ◌>>=◌, ◌>>◌, raise_if,
}
use ztierfs.Common.Dict.{Dict, lookup}
use ztierfs.Common.Bytes.{Bytes, zeros, slice, splice, ljust}
use ztierfs.Handles.{Kind}
use ztierfs.Metadata.Schema.{Inode, Db}
use ztierfs.Metadata.Chunks.{Row, chunk_block, chunk_blocks}

-- ChunkRead
pub record ChunkRead : Type 0 where
  pub row : Option Row
  pub chunk_index : ℕ
  pub expected_size : ℕ
  pub start : ℕ
  pub stop : ℕ

abbrev pub is_file : Kind → Bool
is_file Kind.file = true
is_file _ = false

-- One round of the loop of `plan_read`.
abbrev pub plan_chunk : ℕ → ℕ → ℕ → ℕ → (ℕ → Option Row) → ℕ → ChunkRead
plan_chunk chunk_size file_size offset end row_at i =
    let chunk_start = i * chunk_size in
    let expected_size = min (chunk_start + chunk_size) file_size - chunk_start in
    record {
      row = row_at i;
      chunk_index = i;
      expected_size = expected_size;
      start = offset - chunk_start;
      stop = min (end - chunk_start) expected_size;
    }

-- `for chunk_index in range(i, i + n)`
unfoldable pub each_index {ℓ} : {A : Type ℓ} → (ℕ → A) → ℕ → ℕ → List A
each_index f i zero = []
each_index f i (suc n) = f i ∷ each_index f (suc i) n

-- `block_rows`: one row by itself, more of them by one query.
abbrev pub row_at : ℕ → ℕ → ℕ → Db → ℕ → Option Row
row_at file_id first last db i =
    if first == last
    then chunk_block file_id i db
    else lookup i (chunk_blocks file_id first last db)

-- The part of `plan_read` behind its guards.
unfoldable pub plan_range : ℕ → ℕ → ℕ → ℕ → ℕ → Db → List ChunkRead
plan_range chunk_size file_id file_size offset end db =
    let first = offset / chunk_size in
    let last = (end - 1) / chunk_size in
    each_index (plan_chunk chunk_size file_size offset end (row_at file_id first last db)) first
      (last + 1 - first)

unfoldable pub plan_read : ℕ → ℕ → Inode → ℕ → ℕ → Db → Result (List ChunkRead)
plan_read chunk_size file_id node size offset db =
    if size == 0
    then ok []
    else if not (is_file node.kind)
    then err Error.eisdir
    else if leb node.size offset
    then ok []
    else ok (plan_range chunk_size file_id node.size offset (min (offset + size) node.size) db)

-- FileWriteChunkKind
pub data WriteKind : Type 0 where
  full_chunk_replace partial_existing_replace sparse_extend_partial : WriteKind

-- FileWriteChunkPlan
pub record ChunkWrite : Type 0 where
  pub chunk_index : ℕ
  pub chunk_len : ℕ
  pub existing_len : ℕ
  pub write_start : ℕ
  pub write_stop : ℕ
  pub source_start : ℕ
  pub row : Option Row
  pub kind : WriteKind

-- FileWritePlan, without the path.
pub record WritePlan : Type 0 where
  pub file_id : ℕ
  pub bytes_written : ℕ
  pub old_size : ℕ
  pub new_size : ℕ
  pub compress : Bool
  pub bytes : Bytes
  pub chunks : List ChunkWrite

unfoldable pub write_chunk_kind : ℕ → ℕ → ℕ → ℕ → WriteKind
write_chunk_kind chunk_len existing_len write_start write_stop =
    if write_start == 0 && write_stop == chunk_len
    then full_chunk_replace
    else if ltb existing_len chunk_len
    then sparse_extend_partial
    else partial_existing_replace

-- One round of the loop of `plan_write_file`, where `data_pos` bytes of the bytes are used up and
-- `stop` is `offset + len(bytes)`.
abbrev pub plan_write_chunk : ℕ → ℕ → ℕ → ℕ → ℕ → Dict Row → ℕ → ℕ → ChunkWrite
plan_write_chunk chunk_size old_size new_size offset stop block_rows data_pos i =
    let chunk_start = i * chunk_size in
    let chunk_len = min (chunk_start + chunk_size) new_size - chunk_start in
    let existing_len = min chunk_size (old_size - chunk_start) in
    let write_start = offset - chunk_start in
    let write_stop = min (stop - chunk_start) chunk_len in
    record {
      chunk_index = i;
      chunk_len = chunk_len;
      existing_len = existing_len;
      write_start = write_start;
      write_stop = write_stop;
      source_start = data_pos;
      row = lookup i block_rows;
      kind = write_chunk_kind chunk_len existing_len write_start write_stop;
    }

-- The loop over `range(i, i + n)`; `take` bytes go into each chunk.
unfoldable pub plan_write_chunks : ℕ → ℕ → ℕ → ℕ → ℕ → Dict Row → ℕ → ℕ → ℕ → List ChunkWrite
plan_write_chunks chunk_size old_size new_size offset stop block_rows data_pos i zero = []
plan_write_chunks chunk_size old_size new_size offset stop block_rows data_pos i (suc n) =
    let chunk = plan_write_chunk chunk_size old_size new_size offset stop block_rows data_pos i in
    chunk
    ∷ plan_write_chunks chunk_size old_size new_size offset stop block_rows
        (data_pos + (chunk.write_stop - chunk.write_start)) (suc i) n

abbrev pub plan_write_range : ℕ → ℕ → ℕ → ℕ → Bytes → Db → List ChunkWrite
plan_write_range chunk_size file_id old_size offset bytes db =
    let first = offset / chunk_size in
    let last = (offset + length bytes - 1) / chunk_size in
    plan_write_chunks chunk_size old_size (max old_size (offset + length bytes)) offset
      (offset + length bytes) (chunk_blocks file_id first last db) 0 first (last + 1 - first)

-- `compress` is what `compression_allowed` says of the path.
unfoldable pub plan_write_file : ℕ → ℕ → Inode → Bool → Bytes → ℕ → Db → Result WritePlan
plan_write_file chunk_size file_id node compress [] offset db = ok (record {
  file_id = file_id;
  bytes_written = 0;
  old_size = node.size;
  new_size = node.size;
  compress = false;
  bytes = [];
  chunks = [];
})
plan_write_file chunk_size file_id node compress (b ∷ rest) offset db =
    let bytes = b ∷ rest in
    if not (is_file node.kind)
    then err Error.eisdir
    else ok (record {
      file_id = file_id;
      bytes_written = length bytes;
      old_size = node.size;
      new_size = max node.size (offset + length bytes);
      compress = compress;
      bytes = bytes;
      chunks = plan_write_range chunk_size file_id node.size offset bytes db;
    })

-- `BlockStore.read_block_snapshot`, for what it reads: the bytes, cut off or filled up to a size.
module _ (read_block : Row → ℕ → Result Bytes) where
  -- What one round of the loop of `execute_read_plan` appends.
  abbrev pub read_piece : ChunkRead → Result Bytes
  read_piece read = elim read.row [
    | none ↦ ok (zeros (read.stop - read.start))
    | some row ↦
        read_block row read.expected_size >>= λ chunk. ok (slice read.start read.stop chunk)
  ]

  unfoldable pub execute_read_plan : List ChunkRead → Result Bytes
  execute_read_plan [] = ok []
  execute_read_plan (read ∷ reads) = do
    piece ← read_piece read
    rest ← execute_read_plan reads
    ok (piece ++ rest)

  unfoldable pub read_planned_chunk : ChunkWrite → Result Bytes
  read_planned_chunk chunk = if chunk.existing_len == 0 then ok [] else elim chunk.row [
    | none ↦ ok (zeros chunk.existing_len)
    | some row ↦ read_block row chunk.existing_len
  ]

  abbrev pub is_full : WriteKind → Bool
  is_full full_chunk_replace = true
  is_full _ = false

  -- The new bytes of one chunk, in the loop of `prepare_file_write`.
  unfoldable pub pending_chunk : Bytes → ChunkWrite → Result Bytes
  pending_chunk bytes chunk =
      let taken = chunk.write_stop - chunk.write_start in
      let source = slice chunk.source_start (chunk.source_start + taken) bytes in
      if is_full chunk.kind
      then ok source
      else read_planned_chunk chunk >>= λ old.
          ok (splice chunk.write_start chunk.write_stop source (ljust chunk.chunk_len old))

  unfoldable pub pending_chunks : Bytes → List ChunkWrite → Result (Dict Bytes)
  pending_chunks bytes [] = ok []
  pending_chunks bytes (chunk ∷ chunks) = do
    new ← pending_chunk bytes chunk
    rest ← pending_chunks bytes chunks
    ok ((chunk.chunk_index, new) ∷ rest)

  unfoldable pub read_chunk : ℕ → ℕ → ℕ → Db → Result Bytes
  read_chunk file_id i expected_size db =
      if expected_size == 0 then ok [] else elim (chunk_block file_id i db) [
        | none ↦ ok (zeros expected_size)
        | some row ↦ read_block row expected_size
      ]
