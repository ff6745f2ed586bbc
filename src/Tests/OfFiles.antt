-- ===== src/Tests/OfFiles.antt =====
-- file_content.py on the small file system, reading through block_store.py.
use ztierfs.Common.{
  ℕ, ◌+◌, ◌-◌, ◌/◌, ◌≤◌, ◌<◌, ◌≡◌, refl, Bool, true, false, none, some, List, [], ◌∷◌, length, min,
  max, Result, ok, ◌>>=◌, ◌==◌, ◌&&◌, leb, if◌then◌else◌, arith,
}
use ztierfs.Common.Dict.{Dict, lookup}
use ztierfs.Common.Bytes.{Bytes, byte}
use ztierfs.Metadata.Blocks.{block_record}
use ztierfs.Metadata.Chunks.{keys, Row, find_row, chunk_block, chunk_blocks}
use ztierfs.Files.{
  ChunkRead, WritePlan, each_index, plan_read, execute_read_plan, plan_write_file, pending_chunks,
}
use ztierfs.Files.Reading.{
  BlockReader, AllReadable, file_byte, lookup-chunk_blocks, plan_read-execute_read_plan,
}
use ztierfs.Files.Writing.{ChunkOk, plan_write_file-pending_chunks}
use ztierfs.Store.Codec.{decode_payload}
use ztierfs.Store.Snapshot.{read_block_snapshot}
use ztierfs.Store.Snapshot.Reading.{Inlined, snapshot_reader}
use ztierfs.Tests.{
  codec, config, content, node, db, disk, cache, cache-IsValid, cache-IsFaithful, hot_row,
  inline_row,
}
use ztierfs.Tests.OfStore.{hot_row-OnTier}

abbrev pub read_block : Row → ℕ → Result Bytes
read_block row n = read_block_snapshot codec config disk row n cache >>= λ r. ok r.bytes

abbrev pub reader : BlockReader read_block
reader = snapshot_reader content codec config disk cache cache-IsValid cache-IsFaithful

pub rows_of_file :
    (j : ℕ)
    → chunk_block 1 j db
      ≡ (if 0 == j then some hot_row else if 2 == j then some inline_row else none)
unfolding chunk_block find_row block_record
rows_of_file j = ground arith

inline_row-Inlined : Inlined content codec inline_row
unfolding decode_payload
inline_row-Inlined = record { payload = 5 ∷ 6 ∷ []; stored = refl; decodes = refl }

readable_one :
    (a b : Bool)
    → AllReadable reader.IsReadable
        (if a then some hot_row else if b then some inline_row else none)
readable_one true b = hot_row-OnTier
readable_one false true = inline_row-Inlined
readable_one false false = tt

pub readable : (j : ℕ) → AllReadable reader.IsReadable (chunk_block 1 j db)
readable j = rw (rows_of_file j) (readable_one (0 == j) (2 == j))

lookup-chunk_blocks_example :
    lookup 1 (chunk_blocks 1 0 2 db) ≡ (if leb 0 1 && leb 1 2 then chunk_block 1 1 db else none)
lookup-chunk_blocks_example = lookup-chunk_blocks 1 0 2 1 db

-- Nine bytes from the place 2 on, over the hole and the end.
plan_read-execute_read_plan_example :
    (plan : List ChunkRead) × (d : Bytes) × (plan_read 4 1 node 9 2 db ≡ ok plan)
    × (execute_read_plan read_block plan ≡ ok d)
    × (length d ≡ min (2 + 9) 10 - 2)
    × ((k : ℕ) → k < length d → byte k d ≡ file_byte content 4 1 db (2 + k))
plan_read-execute_read_plan_example =
    plan_read-execute_read_plan reader 4 1 9 2 node db (omega arith) refl readable

-- Four bytes at the place 6, over the rest of the hole and into the last chunk.
plan_write_file-pending_chunks_example :
    (plan : WritePlan) × (new : Dict Bytes) × (plan_write_file 4 1 node true
        (9 ∷ 9 ∷ 9 ∷ 9 ∷ [])
        6
        db
      ≡ ok plan)
    × (plan.new_size ≡ max 10 (6 + 4))
    × (pending_chunks read_block plan.bytes plan.chunks ≡ ok new)
    × (keys new ≡ each_index (λ x. x) (6 / 4) ((6 + 4 - 1) / 4 + 1 - 6 / 4))
    × ((j : ℕ)
        → 6 / 4 ≤ j
        → j ≤ (6 + 4 - 1) / 4
        → (d : Bytes) × (lookup j new ≡ some d)
          × ChunkOk reader 4 10 6 (9 ∷ 9 ∷ 9 ∷ 9 ∷ []) (file_byte content 4 1 db) j d)
plan_write_file-pending_chunks_example =
    plan_write_file-pending_chunks reader 4 1 6 true 9 (9 ∷ 9 ∷ 9 ∷ []) node db (omega arith) refl
      readable
