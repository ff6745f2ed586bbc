-- ===== src/Tests/OfWrites.antt =====
-- file_content.py and block_store.py: a write to file 1 of the small file system, over the rest of its
-- hole and into its last chunk.
use mathlib.Core.Path.{subst}
use ztierfs.Common.{
  ◌-◌, ◌*◌, min, take, ℕ, ◌/◌, ◌%◌, ◌≤◌, ◌≡◌, refl, ap, ◌∙◌, Bool, true, false, none, some, [], ◌∷◌,
  All, ok, ◌==◌, is_some, if◌then◌else◌, arith, contains, Bool-cases, inl, inr,
}
use ztierfs.Common.Dict.{Dict, lookup}
use ztierfs.Common.Bytes.{Bytes, byte_past}
use ztierfs.Metadata.Schema.{Db, Block}
use ztierfs.Metadata.Blocks.{
  block_record, apply_block_refcount_deltas, raise_counts, lower_counts, lower_one, settle,
  drop_block, delete_block,
}
use ztierfs.Metadata.Chunks.{
  chunk_block, find_row, chunk_blocks, find_rows, replace_file_chunks, rewrite_chunks,
  old_chunk_rows, chunk_deltas, delete_file_chunks_from, upserts, upsert_chunks, deltas_over,
  distinct, delete_chunks, delete_indexes,
}
use ztierfs.Metadata.Chunks.Mapping.{chunk_at}
use ztierfs.Metadata.Deltas.{IsConsistent}
use ztierfs.Files.{
  plan_write_range, plan_write_chunks, write_chunk_kind, read_planned_chunk, pending_chunk,
  pending_chunks,
}
use ztierfs.Files.Reading.{AllReadable, chunk_byte, file_byte, chunk_of}
use ztierfs.Store.Cache.{cache_get, cache_put, evict}
use ztierfs.Store.Codec.{PreparedBlock, encode_block, decode_payload, prepared_block}
use ztierfs.Store.Snapshot.{read_block_snapshot, read_inline, read_tiered}
use ztierfs.Store.Writes.{StoreState, ensure_prepared_blocks, set_prepared_chunks, write_file}
use ztierfs.Store.Writes.HotFiles.{Kept}
use ztierfs.Store.Writes.Looping.{digests_of}
use ztierfs.Store.Writes.Backing.{IsBacked, IsBackedStore, IsEncoded}
use ztierfs.Store.Writes.Storing.{IsPrepared, ensure_prepared_blocks_lem}
use ztierfs.Store.Writes.Committing.{blocks_of, committed, set_prepared_chunks_lem}
use ztierfs.Store.Writes.NewChunks.{prepared_of, IsNew, All-IsEncoded}
use ztierfs.Store.Writes.ReadBack.{IsZeroBehind, IsWritten, write_file_lem}
use ztierfs.Store.Truncating.{remove_file_chunks, read_chunk, first_removed, truncate_file}
use ztierfs.Store.Truncating.Resizing.{IsTruncated, truncate_file_lem}
use ztierfs.Tests.{
  codec, config, content, hot_block, inline_block, fresh_block, node, db, db-IsConsistent, disk,
  cache, hot_row, inline_row,
}
use ztierfs.Tests.OfFiles.{read_block, reader, readable, rows_of_file}

abbrev state : StoreState
state = record { db = db; disk = disk; hot_bytes_added = 0; demotion_requested = false }

abbrev given_bytes : Bytes
given_bytes = 9 ∷ 9 ∷ 8 ∷ 7 ∷ []

abbrev new : Dict Bytes
new = (1, 0 ∷ 0 ∷ 9 ∷ 9 ∷ []) ∷ (2, 8 ∷ 7 ∷ []) ∷ []

pending : pending_chunks read_block given_bytes (plan_write_range 4 1 10 6 given_bytes db) ≡ ok new
unfolding pending_chunks pending_chunk plan_write_chunks write_chunk_kind read_planned_chunk
    chunk_blocks find_rows block_record read_block_snapshot read_inline read_tiered cache_get
    cache_put evict decode_payload
pending = refl

abbrev canon : ℕ → PreparedBlock
canon d =
    if d == 18
    then prepared_of codec config true (0 ∷ 0 ∷ 9 ∷ 9 ∷ [])
    else prepared_of codec config true (8 ∷ 7 ∷ [])

long_chunk-IsPrepared :
    IsPrepared codec canon db.blocks disk.hot (prepared_of codec config true (0 ∷ 0 ∷ 9 ∷ 9 ∷ []))
unfolding prepared_block encode_block
long_chunk-IsPrepared = record {
  canonical = refl;
  storable = (omega arith, omega arith);
  matches = λ row h t c. cc;
  unstored = λ x. refl;
}

short_chunk-IsPrepared :
    IsPrepared codec canon db.blocks disk.hot (prepared_of codec config true (8 ∷ 7 ∷ []))
unfolding prepared_block encode_block
short_chunk-IsPrepared = record {
  canonical = refl;
  storable = (omega arith, omega arith);
  matches = λ row h t c. cc;
  unstored = λ x. refl;
}

new-IsNew : All (IsNew codec config true canon content db.blocks disk.hot) new
new-IsNew = ((long_chunk-IsPrepared, refl), ((short_chunk-IsPrepared, refl), tt))

-- Behind the ten bytes of file 1 there are only zeros.
row_behind :
    (a b : Bool) (k : ℕ)
    → a ≡ false
    → (b ≡ true → 2 ≤ k)
    → chunk_byte content (if a then some hot_row else if b then some inline_row else none) k ≡ 0
row_behind true b k h l = cc
row_behind false true k h l = byte_past k (5 ∷ 6 ∷ []) (l refl)
row_behind false false k h l = refl

db-IsZeroBehind : IsZeroBehind 10 (file_byte content 4 1 db)
db-IsZeroBehind p h =
    let c = chunk_of p 4 (omega arith) in
    ap (λ o. chunk_byte content o (p % 4)) (rows_of_file (p / 4))
    ∙ row_behind (0 == p / 4) (2 == p / 4) (p % 4) (ground (arith, h, c.1))
        (λ e. ground (arith, h, c.2, e))

-- Each of the three rows has its payload where it says.
block_at :
    (d e : ℕ) (known row : Block)
    → d == e ≡ true
    → known ≡ row
    → IsBacked codec (content e) e known db.block_payloads disk
    → IsBacked codec (content d) d row db.block_payloads disk
block_at d e known row here same b =
    let p : e ≡ d = ground (arith, here) in
    subst (λ k. IsBacked codec (content k) k row db.block_payloads disk) p
      (subst (λ r. IsBacked codec (content e) e r db.block_payloads disk) same b)

db-IsBackedStore : IsBackedStore codec content db disk
unfolding decode_payload
db-IsBackedStore d row h = elim (Bool-cases (d == 10)) [
  | inl first ↦ block_at d 10 hot_block row first (ground (arith, first, h)) (record {
    within = λ s. cc;
    hot = λ s x. (40 ∷ 1 ∷ 2 ∷ 3 ∷ 4 ∷ [], refl, refl);
    cold = λ s x. cc;
  })
  | inr a ↦ elim (Bool-cases (d == 11)) [
    | inl second ↦
        block_at d 11 inline_block row second (ground (arith, a, second, h))
          (record { within = λ s. (5 ∷ 6 ∷ [], refl, refl); hot = λ s x. cc; cold = λ s x. cc })
    | inr b ↦ elim (Bool-cases (d == 21)) [
      | inl third ↦
          block_at d 21 fresh_block row third (ground (arith, a, b, third, h)) (record {
            within = λ s. cc;
            hot = λ s x. (7 ∷ 7 ∷ 7 ∷ [], refl, refl);
            cold = λ s x. cc;
          })
      | inr c ↦ absurd (ground (arith, a, b, c, h))
    ]
  ]
]

write_file_lem_example :
    (s' : StoreState) × (write_file codec config read_block 4 1 node true given_bytes 6 99 cache
        state
      ≡ ok s')
    × IsWritten codec content 4 1 6 99 given_bytes node db s'
write_file_lem_example =
    write_file_lem reader codec config canon 4 1 6 99 true 9 (9 ∷ 8 ∷ 7 ∷ []) node cache state new
      (omega arith) refl refl db-IsConsistent refl db-IsBackedStore readable db-IsZeroBehind pending
      new-IsNew

abbrev chunks : Dict PreparedBlock
chunks = (1, canon 18) ∷ (2, canon 15) ∷ []

chunks-IsEncoded : All (IsEncoded codec content) (blocks_of chunks)
chunks-IsEncoded = All-IsEncoded codec config true canon content db.blocks disk.hot new new-IsNew

set_prepared_chunks_lem_example :
    (s' : StoreState) × (set_prepared_chunks codec config 1 chunks 99 state ≡ ok s')
    × IsConsistent s'.db
    × (s'.db.inodes ≡ db.inodes)
    × IsBackedStore codec content s'.db s'.disk
    × ((g j : ℕ)
        → chunk_at g j s'.db.file_chunks ≡ (
            if 1 == g
            then committed chunks j (chunk_at g j db.file_chunks)
            else chunk_at g j db.file_chunks))
set_prepared_chunks_lem_example =
    set_prepared_chunks_lem codec config canon content 1 chunks 99 state db-IsConsistent refl
      db-IsBackedStore refl (refl, (refl, tt)) (long_chunk-IsPrepared, (short_chunk-IsPrepared, tt))
      chunks-IsEncoded

ensure_prepared_blocks_lem_example :
    (s' : StoreState) × (ensure_prepared_blocks codec config (blocks_of chunks) 99 state ≡ ok s')
    × Kept db s'.db
    × ((d : ℕ)
        → contains d (digests_of (blocks_of chunks)) ≡ true
        → is_some (lookup d s'.db.blocks) ≡ true)
    × IsBackedStore codec content s'.db s'.disk
ensure_prepared_blocks_lem_example =
    ensure_prepared_blocks_lem codec config canon content (blocks_of chunks) 99 state
      db-IsConsistent.rows refl db-IsBackedStore
      (long_chunk-IsPrepared, (short_chunk-IsPrepared, tt)) chunks-IsEncoded

-- File 1 is cut to six bytes, within its hole: the chunk behind goes, and with it its block.
abbrev shorter : Db
shorter = record db {
  blocks = (10, hot_block) ∷ (21, fresh_block) ∷ [];
  block_payloads = [];
  file_chunks =
      record { file_id = 1; chunk_index = 0; hash = 10; size = 4 }
      ∷ record { file_id = 2; chunk_index = 0; hash = 10; size = 4 }
      ∷ [];
}

gone : remove_file_chunks 1 (first_removed 4 6) 99 db ≡ ok shorter
unfolding remove_file_chunks replace_file_chunks rewrite_chunks old_chunk_rows chunk_deltas
    apply_block_refcount_deltas delete_file_chunks_from upserts upsert_chunks raise_counts
    deltas_over distinct lower_counts lower_one settle drop_block delete_block delete_chunks
    delete_indexes
gone = refl

abbrev empty_canon : ℕ → PreparedBlock
empty_canon d = prepared_of codec config true (0 ∷ 0 ∷ [])

zero_chunk-IsPrepared :
    IsPrepared codec empty_canon shorter.blocks disk.hot
      (prepared_of codec config true (0 ∷ 0 ∷ []))
unfolding prepared_block encode_block
zero_chunk-IsPrepared = record {
  canonical = refl;
  storable = (omega arith, omega arith);
  matches = λ row h t c. cc;
  unstored = λ x. refl;
}

kept_bytes :
    (d : Bytes)
    → read_chunk read_block 1 (6 / 4) (min 4 (10 - 6 / 4 * 4)) shorter ≡ ok d
    → IsNew codec config true empty_canon content shorter.blocks disk.hot
        (6 / 4, take (6 - 6 / 4 * 4) d)
unfolding read_chunk chunk_block find_row block_record
kept_bytes d h =
    let same : 0 ∷ 0 ∷ 0 ∷ 0 ∷ [] ≡ d = ground (arith, h) in
    subst (λ x. IsNew codec config true empty_canon content shorter.blocks disk.hot (1, take 2 x))
      same (zero_chunk-IsPrepared, refl)

hole : AllReadable reader.IsReadable (chunk_block 1 1 shorter)
unfolding chunk_block find_row block_record
hole = tt

truncate_file_lem_example :
    (s' : StoreState) × (truncate_file codec config read_block 4 1 true 6 99 cache state ≡ ok s')
    × IsTruncated codec content 4 1 6 99 node db s'
truncate_file_lem_example =
    truncate_file_lem reader codec config empty_canon 4 1 6 99 true node cache state shorter
      (omega arith) refl db-IsConsistent refl db-IsBackedStore db-IsZeroBehind gone hole kept_bytes
