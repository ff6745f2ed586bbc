-- ===== src/Metadata/Chunks.antt =====
-- metadata/chunks.py: which block stands at which place of a file. `replace_file_chunks` is the one
-- primitive that changes it, together with the reference counts.
pub mod Rows
pub mod Mapping
use mathlib.Core.Option
use ztierfs.Common.{
  ℕ, ◌+◌, ◌≤◌, Bool, true, false, not, ◌&&◌, ◌||◌, Option, none, some, List, [], ◌∷◌, ◌++◌, leb,
  ltb, ◌==◌, if◌then◌else◌, keep, total, any_of, contains, map, Result, ok, err, Error, ◌>>=◌, ◌>>◌,
  raise_if, is_some,
}
use ztierfs.Common.Dict.{Dict, lookup, insert, contains_key}
use ztierfs.Common.Int.{ℤ, pos, sub_ℕ}
use ztierfs.Common.Bytes.{Bytes}
use ztierfs.Metadata.Schema.{Block, Chunk, Db}
use ztierfs.Metadata.Blocks.{Deltas, block_record, apply_block_refcount_deltas}

-- ChunkReplacement: no digest stands for the removal of the chunk.
pub record ChunkReplacement : Type 0 where
  pub digest : Option ℕ
  pub size : ℕ

-- A mapping from chunk indexes; they are natural numbers, so none is negative.
abbrev pub Replacements : Type 0
Replacements = Dict ChunkReplacement

abbrev pub keys {ℓ} : {V : Type ℓ} → Dict V → List ℕ
keys = map (λ e. e.0)

-- `WHERE file_id = ? AND chunk_index = ?`
abbrev pub at_index : ℕ → ℕ → Chunk → Bool
at_index file_id i r = r.file_id == file_id && r.chunk_index == i

abbrev pub find_chunk : ℕ → ℕ → List Chunk → Option Chunk
find_chunk file_id i [] = none
find_chunk file_id i (r ∷ rows) = if at_index file_id i r then some r else find_chunk file_id i rows

-- A row of the JOIN of `file_chunks` with BLOCK_RECORD_SELECT.
pub record Row : Type 0 where
  pub size : ℕ
  pub hash : ℕ
  pub block : Block
  pub inline_payload : Option Bytes

-- What the JOIN makes of one row of `file_chunks`.
abbrev pub join : Db → Chunk → Option Row
join db r =
    Option.map
      (λ rec. record { size = r.size; hash = r.hash; block = rec.0; inline_payload = rec.1 })
      (block_record r.hash db)

unfoldable pub find_row : ℕ → ℕ → Db → List Chunk → Option Row
find_row file_id i db [] = none
find_row file_id i db (r ∷ rows) =
    let rest = find_row file_id i db rows in
    if at_index file_id i r then elim (join db r) [ none ↦ rest | some row ↦ some row ] else rest

unfoldable pub chunk_block : ℕ → ℕ → Db → Option Row
chunk_block file_id i db = find_row file_id i db db.file_chunks

-- `file_id = ? AND chunk_index BETWEEN ? AND ?`
abbrev pub between : ℕ → ℕ → ℕ → Chunk → Bool
between file_id first last r =
    r.file_id == file_id && (leb first r.chunk_index && leb r.chunk_index last)

unfoldable pub find_rows : ℕ → ℕ → ℕ → Db → List Chunk → Dict Row
find_rows file_id first last db [] = []
find_rows file_id first last db (r ∷ rows) =
    let rest = find_rows file_id first last db rows in
    if between file_id first last r
    then elim (join db r) [ none ↦ rest | some row ↦ (r.chunk_index, row) ∷ rest ]
    else rest

-- The dictionary from chunk indexes to rows.
unfoldable pub chunk_blocks : ℕ → ℕ → ℕ → Db → Dict Row
chunk_blocks file_id first last db = find_rows file_id first last db db.file_chunks

unfoldable pub file_allocated_size : ℕ → Db → ℕ
file_allocated_size file_id db =
    total (λ r. r.size) (keep (λ r. r.file_id == file_id) db.file_chunks)

-- `chunk_index IN (...)`
abbrev pub at_indexes : ℕ → List ℕ → Chunk → Bool
at_indexes file_id is r = r.file_id == file_id && contains r.chunk_index is

-- `chunk_index >= ?`
abbrev pub from_index : ℕ → ℕ → Chunk → Bool
from_index file_id first r = r.file_id == file_id && leb first r.chunk_index

-- The indexes of `extra_indexes`: below `delete_from` and not among the rows that are there.
abbrev pub extra_indexes : ℕ → List Chunk → List ℕ → List ℕ
extra_indexes delete_from rows =
    keep (λ i. ltb i delete_from && not (contains i (map (λ r. r.chunk_index) rows)))

-- `_old_chunk_rows`; with no extra index the last query would find nothing.
unfoldable pub old_chunk_rows : ℕ → Replacements → Option ℕ → List Chunk → List Chunk
old_chunk_rows file_id rs none chunks = keep (at_indexes file_id (keys rs)) chunks
old_chunk_rows file_id rs (some delete_from) chunks =
    let rows = keep (from_index file_id delete_from) chunks in
    rows ++ keep (at_indexes file_id (extra_indexes delete_from rows (keys rs))) chunks

-- `delete_from is None or chunk_index < delete_from`
abbrev pub below_cut : Option ℕ → ℕ → Bool
below_cut none i = true
below_cut (some delete_from) i = ltb i delete_from

unfoldable pub delete_indexes : Option ℕ → Replacements → List ℕ
delete_indexes cut [] = []
delete_indexes cut ((i, r) ∷ rs) =
    if not (is_some r.digest) && below_cut cut i
    then i ∷ delete_indexes cut rs
    else delete_indexes cut rs

-- The replacements with a digest: the index, the digest and the size.
unfoldable pub upserts : Replacements → Dict (ℕ × ℕ)
upserts [] = []
upserts ((i, r) ∷ rs) = elim r.digest [
  | none ↦ upserts rs
  | some digest ↦ (i, (digest, r.size)) ∷ upserts rs
]

-- `_delete_file_chunks_from`, if there is a first index.
unfoldable pub delete_file_chunks_from : ℕ → Option ℕ → List Chunk → List Chunk
delete_file_chunks_from file_id none chunks = chunks
delete_file_chunks_from file_id (some first) chunks =
    keep (λ r. not (from_index file_id first r)) chunks

abbrev pub delete_chunk : ℕ → ℕ → List Chunk → List Chunk
delete_chunk file_id i chunks = keep (λ r. not (at_index file_id i r)) chunks

unfoldable pub delete_chunks : ℕ → List ℕ → List Chunk → List Chunk
delete_chunks file_id [] chunks = chunks
delete_chunks file_id (i ∷ is) chunks = delete_chunks file_id is (delete_chunk file_id i chunks)

-- INSERT ... ON CONFLICT DO UPDATE: the row of the key is replaced. The foreign keys ask for the inode
-- and the block, a CHECK for a positive size.
unfoldable pub upsert_chunk : ℕ → ℕ → ℕ → ℕ → Db → Result Db
upsert_chunk file_id i digest size db =
    if is_some (lookup file_id db.inodes) && (is_some (lookup digest db.blocks) && ltb 0 size)
    then ok (record db {
      file_chunks =
          record { file_id = file_id; chunk_index = i; hash = digest; size = size }
          ∷ delete_chunk file_id i db.file_chunks;
    })
    else err Error.integrity

unfoldable pub upsert_chunks : ℕ → Dict (ℕ × ℕ) → Db → Result Db
upsert_chunks file_id [] db = ok db
upsert_chunks file_id ((i, (digest, size)) ∷ ups) db = do
  db' ← upsert_chunk file_id i digest size db
  upsert_chunks file_id ups db'

-- `Counter(...)[digest]`
abbrev pub count_of : ℕ → List ℕ → ℕ
count_of d = total (λ x. if x == d then 1 else 0)

-- The keys of a Counter, each once. The order of a Python set is not fixed; this is one of them.
unfoldable pub distinct : List ℕ → List ℕ
distinct [] = []
distinct (x ∷ xs) = if contains x xs then distinct xs else x ∷ distinct xs

-- The dictionary `deltas`, over the digests of both counters.
unfoldable pub deltas_over : List ℕ → List ℕ → List ℕ → Deltas
deltas_over old new [] = []
deltas_over old new (d ∷ ds) =
    if count_of d new == count_of d old
    then deltas_over old new ds
    else (d, sub_ℕ (count_of d new) (count_of d old)) ∷ deltas_over old new ds

unfoldable pub chunk_deltas : List ℕ → List ℕ → Deltas
chunk_deltas old new = deltas_over old new (distinct (old ++ new))

-- A replacement with a digest and a size that is not positive.
abbrev pub is_empty_chunk : ℕ × ChunkReplacement → Bool
is_empty_chunk (_, r) = is_some r.digest && r.size == 0

-- The three statements that change `file_chunks`.
unfoldable pub rewrite_chunks : ℕ → Replacements → Option ℕ → Db → Result Db
rewrite_chunks file_id rs delete_from db = upsert_chunks file_id (upserts rs) (record db {
  file_chunks =
      delete_chunks file_id (delete_indexes delete_from rs)
        (delete_file_chunks_from file_id delete_from db.file_chunks);
})

-- The counts are taken from the rows before the change; `now` is the time of a physical deletion.
unfoldable pub replace_file_chunks : ℕ → Replacements → Option ℕ → ℕ → Db → Result (Deltas × Db)
replace_file_chunks file_id rs delete_from now db = do
  raise_if (any_of is_empty_chunk rs) Error.value
  let old = map (λ r. r.hash) (old_chunk_rows file_id rs delete_from db.file_chunks)
  let new = map (λ e. e.1.0) (upserts rs)
  db' ← rewrite_chunks file_id rs delete_from db
  db'' ← apply_block_refcount_deltas (chunk_deltas old new) now db'
  ok (chunk_deltas old new, db'')
