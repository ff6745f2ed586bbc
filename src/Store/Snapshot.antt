-- ===== src/Store/Snapshot.antt =====
-- block_store.py: `read_block_snapshot`, with the cache in front of the tiers, and what a read leaves
-- to be written to the rows.
pub mod Reading
pub mod RepairedRows
use ztierfs.Common.{
  ℕ, Bool, true, false, ◌&&◌, ◌||◌, Option, none, some, leb, ltb, ◌==◌, if◌then◌else◌, take, Result,
  ok, err, Error, ◌>>=◌, is_some,
}
use ztierfs.Common.Bytes.{Bytes, ljust}
use ztierfs.Metadata.Schema.{Block, Db, inline, tiered}
use ztierfs.Metadata.Blocks.{Presence, set_block_presence}
use ztierfs.Metadata.Chunks.{Row}
use ztierfs.Store.Disk.{Disk}
use ztierfs.Store.Cache.{Cache, cache_get, cache_put}
use ztierfs.Store.Codec.{Config, Zstd, decode_payload}
use ztierfs.Store.Tiers.{Repair, no_repair, Decision, preferred_tier, read_tiered_payload}

-- BlockAccess. A read never sets `last_promoted_ns` and `request_demotion`.
pub record Access : Type 0 where
  pub digest : ℕ
  pub tier : ℕ
  pub stored_size : ℕ
  pub repair : Repair

-- What a read returns, the cache after it, and whether it calls `schedule_cold_copy_up`.
pub record BlockRead : Type 0 where
  pub bytes : Bytes
  pub access : Access
  pub cache : Cache
  pub copy_up : Bool

unfoldable pub should_copy_up_from_cold : Config → Block → ℕ → Bool
should_copy_up_from_cold config b tier =
    tier == 2 && (ltb 0 config.hot_max_bytes && leb b.stored_size config.hot_max_bytes)

-- `data[:expected_size].ljust(expected_size, b"\x00")`
abbrev pub fit : ℕ → Bytes → Bytes
fit n bytes = ljust n (take n bytes)

-- What a read returns for the bytes of the block and the tier and the repair of the decision.
abbrev pub block_read : Row → ℕ → Bytes → Decision → Cache → Bool → BlockRead
block_read row n bytes (tier, repair) cache copy_up = record {
  bytes = fit n bytes;
  access = record {
    digest = row.hash;
    tier = tier;
    stored_size = row.block.stored_size;
    repair = repair;
  };
  cache = cache;
  copy_up = copy_up;
}

-- The part of `read_block_snapshot` for an inline block.
unfoldable pub read_inline : Zstd → Config → Row → ℕ → Cache → Result BlockRead
read_inline zstd config row n cache = elim row.inline_payload [
  | none ↦ err Error.eio
  | some payload ↦
      let (cached, cache') = cache_get config.read_cache_bytes row.hash cache in
      elim cached [
        | some bytes ↦ ok (block_read row n bytes (0, no_repair) cache' false)
        | none ↦ decode_payload zstd row.block payload >>= λ bytes.
            let cache'' = cache_put config.read_cache_bytes row.hash bytes cache' in
            ok (block_read row n bytes (0, no_repair) cache'' false)
      ]
]

-- The part for a block on the tiers.
unfoldable pub read_tiered : Zstd → Config → Disk → Row → ℕ → Cache → Result BlockRead
read_tiered zstd config disk row n cache =
    let (cached, cache') = cache_get config.read_cache_bytes row.hash cache in
    elim cached [
      | some bytes ↦
          let tier = preferred_tier row.block in
          ok (
            block_read row n bytes (tier, no_repair) cache'
              (should_copy_up_from_cold config row.block tier))
      | none ↦ read_tiered_payload row.hash row.block disk >>= λ found.
          decode_payload zstd row.block found.0 >>= λ bytes.
          let cache'' = cache_put config.read_cache_bytes row.hash bytes cache' in
          ok (
            block_read row n bytes found.1 cache''
              (should_copy_up_from_cold config row.block found.1.0))
    ]

unfoldable pub read_block_snapshot : Zstd → Config → Disk → Row → ℕ → Cache → Result BlockRead
read_block_snapshot zstd config disk row n cache = elim row.block.storage [
  | inline ↦ read_inline zstd config row n cache
  | tiered ↦ read_tiered zstd config disk row n cache
]

-- `access_requires_metadata_update`, for the accesses that reads make.
unfoldable pub access_requires_metadata_update : Access → Bool
access_requires_metadata_update access =
    is_some access.repair.hot_present
    || (is_some access.repair.cold_present || is_some access.repair.preferred_tier)

-- The keyword arguments that `record_block_presence` passes on.
abbrev pub presence_of : Repair → Presence
presence_of repair = record {
  hot_present = repair.hot_present;
  cold_present = repair.cold_present;
  preferred_tier = repair.preferred_tier;
  last_promoted_ns = none;
  last_demoted_ns = none;
  cold_verified_ns = none;
}

unfoldable pub record_block_presence : Access → Db → Result Db
unfolding access_requires_metadata_update
record_block_presence access db =
    if access_requires_metadata_update access
    then set_block_presence access.digest (presence_of access.repair) db
    else ok db
