-- ===== src/Store/Codec.antt =====
-- block_store.py: how the bytes of a block are encoded. zstd and SHA-256 are libraries, and so
-- parameters here.
use mathlib.Core.Path.{subst}
use ztierfs.Common.{
  ℕ, ◌≡◌, refl, ◌∙◌, Bool, true, false, not, ◌&&◌, Option, none, some, [], ◌∷◌, leb, ltb, ◌==◌,
  if◌then◌else◌, length, Result, ok, err, Error, Bool-cases, inl, inr, arith,
}
use ztierfs.Common.Dict.{Dict}
use ztierfs.Common.Bytes.{Bytes}
use ztierfs.Metadata.Schema.{Block}
use ztierfs.Metadata.Blocks.{BlockInsert}
use ztierfs.Store.Cache.{Cache, cache_put}

-- The numbers that `BlockStore` is made with.
pub record Config : Type 0 where
  pub compression_min_bytes : ℕ
  pub inline_max_bytes : ℕ
  pub read_cache_bytes : ℕ
  pub hot_max_bytes : ℕ

-- What the code relies on: `compress` is `zstd.compress` at the level of the store, `decompress` is
-- `zstd.decompress` with `none` for ZstdError, `digest` is SHA-256. What was compressed decompresses.
pub record Zstd : Type 0 where
  pub compress : Bytes → Bytes
  pub decompress : Bytes → Option Bytes
  pub digest : Bytes → ℕ
  pub round_trip : (d : Bytes) → decompress (compress d) ≡ some d

-- PreparedBlock
pub record PreparedBlock : Type 0 where
  pub digest : ℕ
  pub raw_data : Bytes
  pub raw_size : ℕ
  pub payload : Bytes
  pub compressed : Bool
  pub inline_payload : Option Bytes

unfoldable pub should_inline : Config → Bytes → Bool
should_inline config payload =
    ltb 0 config.inline_max_bytes && leb (length payload) config.inline_max_bytes

unfoldable pub encode_block : Zstd → Config → Bytes → Bool → Bytes × Bool
encode_block zstd config bytes compress =
    if not compress
    then (bytes, false)
    else if ltb (length bytes) config.compression_min_bytes
    then (bytes, false)
    else (zstd.compress bytes, true)

-- `if len(data) != row["raw_size"]`
abbrev pub check_size : ℕ → Bytes → Result Bytes
check_size raw_size bytes = if length bytes == raw_size then ok bytes else err Error.eio

unfoldable pub decode_payload : Zstd → Block → Bytes → Result Bytes
decode_payload zstd block payload =
    if block.compressed
    then elim (zstd.decompress payload) [
      | none ↦ err Error.eio
      | some bytes ↦ check_size block.raw_size bytes
    ]
    else check_size block.raw_size payload

-- `_prepared_block`, without the cache.
unfoldable pub prepared_block : Zstd → Config → Bytes → Bytes × Bool → PreparedBlock
prepared_block zstd config bytes (payload, compressed) = record {
  digest = zstd.digest bytes;
  raw_data = bytes;
  raw_size = length bytes;
  payload = payload;
  compressed = compressed;
  inline_payload = if should_inline config payload then some payload else none;
}

-- `prepare_blocks`: the parallel way makes the same blocks.
unfoldable pub prepare_blocks :
    Zstd → Config → Dict Bytes → Bool → Cache → Dict PreparedBlock × Cache
prepare_blocks zstd config [] compress cache = ([], cache)
prepare_blocks zstd config ((i, bytes) ∷ chunks) compress cache =
    let block = prepared_block zstd config bytes (encode_block zstd config bytes compress) in
    let (rest, cache') =
      prepare_blocks zstd config chunks compress
        (cache_put config.read_cache_bytes block.digest bytes cache) in
    ((i, block) ∷ rest, cache')

-- `_prepared_block_metadata`, as `ensure_prepared_blocks` passes it on.
abbrev pub prepared_insert : PreparedBlock → BlockInsert
prepared_insert block = record {
  digest = block.digest;
  compressed = block.compressed;
  raw_size = block.raw_size;
  stored_size = length block.payload;
  inline_payload = block.inline_payload;
}

-- `_payload_matching_existing_record`
unfoldable pub payload_matching : Zstd → PreparedBlock → Block → Result Bytes
payload_matching zstd block row =
    let payload = if row.compressed then zstd.compress block.raw_data else block.raw_data in
    if not (row.raw_size == block.raw_size)
    then err Error.runtime
    else if not (length payload == row.stored_size)
    then err Error.runtime
    else ok payload

compressed_back :
    (zstd : Zstd) (row : Block) (bytes : Bytes)
    → row.compressed ≡ true
    → row.raw_size ≡ length bytes
    → decode_payload zstd row (zstd.compress bytes) ≡ ok bytes
unfolding decode_payload
compressed_back zstd row bytes c r = rw (c, zstd.round_trip bytes, r) (ground arith)

plain_back :
    (zstd : Zstd) (row : Block) (bytes : Bytes)
    → row.compressed ≡ false
    → row.raw_size ≡ length bytes
    → decode_payload zstd row bytes ≡ ok bytes
unfolding decode_payload
plain_back zstd row bytes c r = rw (c, r) (ground arith)

-- A payload that `encode_block` made decodes to the bytes it was made from, by a row that has its flag
-- and the length of the bytes.
pub encode_block-decode_payload :
    (zstd : Zstd) (config : Config) (bytes : Bytes) (compress : Bool) (row : Block)
    → row.compressed ≡ (encode_block zstd config bytes compress).1
    → row.raw_size ≡ length bytes
    → decode_payload zstd row (encode_block zstd config bytes compress).0 ≡ ok bytes
unfolding encode_block
encode_block-decode_payload zstd config bytes false row c r = plain_back zstd row bytes c r
encode_block-decode_payload zstd config bytes true row c r =
    elim (Bool-cases (ltb (length bytes) config.compression_min_bytes)) [
      | inl short ↦ rw short (plain_back zstd row bytes (c ∙ rw short refl) r)
      | inr long ↦ rw long (compressed_back zstd row bytes (c ∙ rw long refl) r)
    ]

-- Where `_payload_matching_existing_record` returns a payload, it decodes to the bytes of the block by
-- the row that was there, whatever the flags of the new block, and has the size that the row states.
pub payload_matching-decode_payload :
    (zstd : Zstd) (block : PreparedBlock) (row : Block) (payload : Bytes)
    → block.raw_size ≡ length block.raw_data
    → payload_matching zstd block row ≡ ok payload
    → (decode_payload zstd row payload ≡ ok block.raw_data) × (length payload ≡ row.stored_size)
unfolding payload_matching
payload_matching-decode_payload zstd block row payload b h = elim (Bool-cases row.compressed) [
  | inl packed ↦
      let same : zstd.compress block.raw_data ≡ payload = ground (arith, packed, h) in
      (
        subst (λ x. decode_payload zstd row x ≡ ok block.raw_data) same
            (compressed_back zstd row block.raw_data packed (ground (arith, b, h))),
        ground (arith, packed, h),
      )
  | inr plain ↦
      let same : block.raw_data ≡ payload = ground (arith, plain, h) in
      (
        subst (λ x. decode_payload zstd row x ≡ ok block.raw_data) same
            (plain_back zstd row block.raw_data plain (ground (arith, b, h))),
        ground (arith, plain, h),
      )
]
