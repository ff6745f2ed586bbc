-- ===== src/Tests/OfStore.antt =====
-- block_store.py on the small file system.
use ztierfs.Common.{
  ℕ, ◌≡◌, ◌⊎◌, refl, sym, true, false, none, some, List, [], ◌∷◌, ◌++◌, ok, length, leb, ltb, ◌&&◌,
  if◌then◌else◌, inl, inr, arith, Bool-cases, ◌==◌,
}
use mathlib.Core.Path.{subst}
use ztierfs.Common.Bytes.{Bytes}
use ztierfs.Common.Dict.{lookup, erase}
use ztierfs.Metadata.Schema.{Block, row_ok, Pending}
use ztierfs.Metadata.Blocks.{with_presence}
use ztierfs.Store.Disk.{Disk, files, drain_pending_block_files, read_path, probe}
use ztierfs.Store.Disk.Draining.{Drained, drain_pending_block_files_lem}
use ztierfs.Store.Cache.{cache_get, cache_put}
use ztierfs.Store.Cache.Bounds.{IsValid, cache_put-IsValid, cache_get-IsValid}
use ztierfs.Store.Codec.{
  PreparedBlock, encode_block, decode_payload, payload_matching, encode_block-decode_payload,
  payload_matching-decode_payload,
}
use ztierfs.Store.Tiers.{
  preferred_tier, probe_declared_alternate, decide_after_preferred_missing, read_tiered_payload,
  missing_repair,
}
use ztierfs.Store.Tiers.Repairs.{is_ok, read_tiered_payload_total}
use ztierfs.Store.Snapshot.{read_block_snapshot, presence_of}
use ztierfs.Store.Snapshot.Reading.{OnTier, IsRead, read_block_snapshot_lem}
use ztierfs.Store.Snapshot.RepairedRows.{read_tiered_payload-row_ok}
use ztierfs.Tests.{
  codec, config, content, hot_block, disk, cache, cache-IsValid, cache-IsFaithful, hot_row,
}

-- A block that the rows have on both tiers and that is gone from the hot one.
abbrev both : Block
both = record hot_block { cold_present = true }

abbrev moved : Disk
moved = record {
  hot = [];
  cold = (10, 40 ∷ 1 ∷ 2 ∷ 3 ∷ 4 ∷ []) ∷ [];
  hot_down = false;
  cold_down = false;
  hot_denied = false;
  cold_denied = false;
}

moved_read : read_tiered_payload 10 both moved ≡ ok (40 ∷ 1 ∷ 2 ∷ 3 ∷ 4 ∷ [], (2, missing_repair 1))
unfolding read_tiered_payload decide_after_preferred_missing probe_declared_alternate probe
    read_path preferred_tier
moved_read = refl

read_tiered_payload_total_example : is_ok (read_tiered_payload 10 both moved) ≡ true
read_tiered_payload_total_example =
    read_tiered_payload_total 10 2 both moved (40 ∷ 1 ∷ 2 ∷ 3 ∷ 4 ∷ []) (inr refl) refl refl refl
      refl refl

both_ok : row_ok both ≡ true
unfolding row_ok
both_ok = refl

read_tiered_payload-row_ok_example :
    row_ok (with_presence (presence_of (missing_repair 1)) both) ≡ true
read_tiered_payload-row_ok_example =
    read_tiered_payload-row_ok 10 2 both moved (40 ∷ 1 ∷ 2 ∷ 3 ∷ 4 ∷ []) (missing_repair 1) refl
      both_ok moved_read

-- Two queued deletions; the cold tier is down.
abbrev queue : List Pending
queue =
    record { id = 1; digest = 10; tier = 1; enqueued_ns = 0 }
    ∷ record { id = 2; digest = 10; tier = 2; enqueued_ns = 0 }
    ∷ []

drain_pending_block_files_lem_example :
    let (outcome, disk') = drain_pending_block_files queue disk in Drained queue disk disk' outcome
drain_pending_block_files_lem_example =
    drain_pending_block_files_lem queue disk (inl refl, (inr refl, tt))

cache_put-IsValid_example :
    IsValid 16 (cache_put 16 10 (1 ∷ 2 ∷ []) cache)
    × ((cache_get 16 10 (cache_put 16 10 (1 ∷ 2 ∷ []) cache)).0
        ≡ (if leb 2 16 && ltb 0 16 then some (1 ∷ 2 ∷ []) else (cache_get 16 10 cache).0))
    × ((j : ℕ) (e : Bytes)
        → lookup j (cache_put 16 10 (1 ∷ 2 ∷ []) cache).entries ≡ some e
        → (lookup j cache.entries ≡ some e) ⊎ ((j ≡ 10) × (e ≡ 1 ∷ 2 ∷ [])))
cache_put-IsValid_example = cache_put-IsValid 16 10 (1 ∷ 2 ∷ []) cache cache-IsValid

cache_get-IsValid_example :
    IsValid 16 (cache_get 16 11 cache).1
    × ((j : ℕ) → lookup j (cache_get 16 11 cache).1.entries ≡ lookup j cache.entries)
    × ((cache_get 16 11 cache).0 ≡ (if 16 == 0 then none else lookup 11 cache.entries))
    × ((d : Bytes)
        → (cache_get 16 11 cache).0 ≡ some d
        → (cache_get 16 11 cache).1.entries ≡ erase 11 cache.entries ++ (11, d) ∷ [])
    × ((cache_get 16 11 cache).0 ≡ none → (cache_get 16 11 cache).1 ≡ cache)
cache_get-IsValid_example = cache_get-IsValid 16 11 cache cache-IsValid

packed : (encode_block codec config (content 10) true).1 ≡ true
unfolding encode_block
packed = refl

encode_block-decode_payload_example :
    decode_payload codec hot_block (encode_block codec config (content 10) true).0 ≡ ok (content 10)
encode_block-decode_payload_example =
    encode_block-decode_payload codec config (content 10) true hot_block (sym packed) refl

-- The block is written again without compression.
abbrev plain : PreparedBlock
plain = record {
  digest = 10;
  raw_data = content 10;
  raw_size = 4;
  payload = content 10;
  compressed = false;
  inline_payload = none;
}

plain_matched : payload_matching codec plain hot_block ≡ ok (40 ∷ content 10)
unfolding payload_matching
plain_matched = refl

payload_matching-decode_payload_example :
    (decode_payload codec hot_block (40 ∷ content 10) ≡ ok (content 10))
    × (length (40 ∷ content 10) ≡ hot_block.stored_size)
payload_matching-decode_payload_example =
    payload_matching-decode_payload codec plain hot_block (40 ∷ content 10) refl plain_matched

-- The block of file 1 that is on the hot tier.
hot_decodes :
    (t : ℕ) (p : Bytes)
    → lookup 10 (files t disk) ≡ some p
    → decode_payload codec hot_block p ≡ ok (content 10)
unfolding decode_payload
hot_decodes t p h = elim (Bool-cases (t == 1)) [
  | inl hot ↦
      let same : 40 ∷ 1 ∷ 2 ∷ 3 ∷ 4 ∷ [] ≡ p = ground (arith, hot, h) in
      subst (λ x. decode_payload codec hot_block x ≡ ok (content 10)) same refl
  | inr cold ↦ absurd (ground (arith, cold, h))
]

pub hot_row-OnTier : OnTier content codec disk hot_row
hot_row-OnTier = record {
  tier = 1;
  payload = 40 ∷ 1 ∷ 2 ∷ 3 ∷ 4 ∷ [];
  is_tier = inl refl;
  declared = refl;
  up = refl;
  hot_open = refl;
  cold_open = refl;
  found = refl;
  decodes = hot_decodes;
}

read_block_snapshot_lem_example :
    IsRead content 16 hot_row 3 (read_block_snapshot codec config disk hot_row 3 cache)
read_block_snapshot_lem_example =
    read_block_snapshot_lem content codec config disk hot_row 3 cache cache-IsValid cache-IsFaithful
      hot_row-OnTier
