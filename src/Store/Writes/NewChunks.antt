-- ===== src/Store/Writes/NewChunks.antt =====
-- file_content.py: the blocks that are made of new chunks, and the bytes of a chunk by its mapping.
use mathlib.Core.Path.{subst}
use ztierfs.Common.{
  ℕ, zero, suc, ◌+◌, ◌/◌, ◌%◌, ◌<◌, ◌≡◌, refl, ap, Bool, true, ◌&&◌, Option, none, some, List, [],
  ◌∷◌, ◌==◌, leb, ltb, map, All, contains, Distinct, is_some, arith, Bool-cases, Option-cases, inl,
  inr,
}
use ztierfs.Common.Dict.{Dict, lookup}
use ztierfs.Common.Bytes.{Bytes, byte}
use ztierfs.Metadata.Schema.{Block, Chunk, Db}
use ztierfs.Metadata.Blocks.{block_record}
use ztierfs.Metadata.Chunks.{keys, at_index, find_row, chunk_block}
use ztierfs.Metadata.Chunks.Rows.{references}
use ztierfs.Metadata.Chunks.Mapping.{chunk_at}
use ztierfs.Metadata.Deltas.{IsConsistent}
use ztierfs.Metadata.Refcounts.{referenced_there}
use ztierfs.Files.{each_index}
use ztierfs.Files.Reading.{chunk_byte, file_byte}
use ztierfs.Store.Cache.{Cache}
use ztierfs.Store.Codec.{
  Config, Zstd, PreparedBlock, encode_block, prepared_block, prepare_blocks,
  encode_block-decode_payload,
}
use ztierfs.Store.Writes.Storing.{IsPrepared}
use ztierfs.Store.Writes.Backing.{IsEncoded}
use ztierfs.Store.Writes.Committing.{blocks_of}

-- The byte that a mapping gives a place of a chunk.
abbrev pub mapped_byte : (ℕ → Bytes) → Option (ℕ × ℕ) → ℕ → ℕ
mapped_byte content none k = 0
mapped_byte content (some (digest, size)) k = byte k (content digest)

row_byte :
    (content : ℕ → Bytes) (f j k : ℕ) (db : Db) (rows : List Chunk)
    → ((d : ℕ) → 0 < references d rows → is_some (lookup d db.blocks) ≡ true)
    → chunk_byte content (find_row f j db rows) k ≡ mapped_byte content (chunk_at f j rows) k
unfolding find_row block_record chunk_at
row_byte content f j k db [] h = refl
row_byte content f j k db (r ∷ rows) h =
    let rest : chunk_byte content (find_row f j db rows) k
        ≡ mapped_byte content (chunk_at f j rows) k =
      row_byte content f j k db rows (λ d p. h d (omega (arith, p))) in
    elim (Option-cases (lookup r.hash db.blocks)) [
      | inl gone ↦ absurd (ground (arith, gone, h r.hash))
      | inr (b, there) ↦ elim (Bool-cases (at_index f j r)) [
        | inl here ↦ rw (here, there) refl
        | inr other ↦ rw other rest
      ]
    ]

-- The block that `prepare_blocks` makes of some bytes.
abbrev pub prepared_of : Zstd → Config → Bool → Bytes → PreparedBlock
prepared_of zstd config compress d =
    prepared_block zstd config d (encode_block zstd config d compress)

abbrev pub prepared_chunks : Zstd → Config → Bool → Dict Bytes → Dict PreparedBlock
prepared_chunks zstd config compress = map (λ e. (e.0, prepared_of zstd config compress e.1))

pub prepare_blocks-map :
    (zstd : Zstd) (config : Config) (compress : Bool) (new : Dict Bytes) (cache : Cache)
    → (prepare_blocks zstd config new compress cache).0 ≡ prepared_chunks zstd config compress new
unfolding prepare_blocks
prepare_blocks-map zstd config compress [] cache = refl
prepare_blocks-map zstd config compress ((i, d) ∷ new) cache =
    ap (λ l. (i, prepared_of zstd config compress d) ∷ l)
      (prepare_blocks-map zstd config compress new _)

pub keys-prepared :
    (zstd : Zstd) (config : Config) (compress : Bool) (new : Dict Bytes)
    → keys (prepared_chunks zstd config compress new) ≡ keys new
keys-prepared zstd config compress [] = refl
keys-prepared zstd config compress (e ∷ new) =
    ap (λ l. e.0 ∷ l) (keys-prepared zstd config compress new)

pub lookup-prepared :
    (zstd : Zstd) (config : Config) (compress : Bool) (j : ℕ) (new : Dict Bytes)
    → lookup j (prepared_chunks zstd config compress new)
      ≡ (elim (lookup j new) [ none ↦ none | some d ↦ some (prepared_of zstd config compress d) ])
lookup-prepared zstd config compress j [] = refl
lookup-prepared zstd config compress j ((i, d) ∷ new) =
    ground (arith, lookup-prepared zstd config compress j new)

pub contains-each_index :
    (j i n : ℕ) → contains j (each_index (λ x. x) i n) ≡ leb i j && ltb j (i + n)
unfolding each_index
contains-each_index j i zero = ground arith
contains-each_index j i (suc n) = ground (arith, contains-each_index j (suc i) n)

pub each_index-Distinct : (i n : ℕ) → Distinct (each_index (λ x. x) i n)
unfolding each_index
each_index-Distinct i zero = tt
each_index-Distinct i (suc n) =
    (ground (arith, contains-each_index i (suc i) n), each_index-Distinct (suc i) n)

pub file_byte-mapped :
    (content : ℕ → Bytes) (cs f p : ℕ) (db : Db)
    → IsConsistent db
    → file_byte content cs f db p
      ≡ mapped_byte content (chunk_at f (p / cs) db.file_chunks) (p % cs)
unfolding chunk_block
file_byte-mapped content cs f p db c =
    row_byte content f (p / cs) (p % cs) db db.file_chunks (λ d h. referenced_there d db c h)

-- What the new bytes of the chunks have to be like: they make blocks that can be stored, and each
-- digest stands for the bytes that it was made from.
abbrev pub IsNew :
    Zstd
    → Config
    → Bool
    → (ℕ → PreparedBlock)
    → (ℕ → Bytes)
    → Dict Block
    → Dict Bytes
    → ℕ × Bytes
    → Type 0
IsNew zstd config compress canon content rows hot e =
    IsPrepared zstd canon rows hot (prepared_of zstd config compress e.1)
    × (content (zstd.digest e.1) ≡ e.1)

pub All-IsPrepared :
    (zstd : Zstd) (config : Config) (compress : Bool) (canon : ℕ → PreparedBlock)
    (content : ℕ → Bytes) (rows : Dict Block) (hot new : Dict Bytes)
    → All (IsNew zstd config compress canon content rows hot) new
    → All (IsPrepared zstd canon rows hot) (blocks_of (prepared_chunks zstd config compress new))
All-IsPrepared zstd config compress canon content rows hot [] h = tt
All-IsPrepared zstd config compress canon content rows hot (e ∷ new) h =
    (h.0.0, All-IsPrepared zstd config compress canon content rows hot new h.1)

prepared_of-IsEncoded :
    (zstd : Zstd) (config : Config) (compress : Bool) (content : ℕ → Bytes) (d : Bytes)
    → content (zstd.digest d) ≡ d
    → IsEncoded zstd content (prepared_of zstd config compress d)
unfolding prepared_block
prepared_of-IsEncoded zstd config compress content d h = record {
  stands = h;
  size = refl;
  within = λ p e. ground (arith, e);
  decodes = λ row c r. encode_block-decode_payload zstd config d compress row c r;
}

pub All-IsEncoded :
    (zstd : Zstd) (config : Config) (compress : Bool) (canon : ℕ → PreparedBlock)
    (content : ℕ → Bytes) (rows : Dict Block) (hot new : Dict Bytes)
    → All (IsNew zstd config compress canon content rows hot) new
    → All (IsEncoded zstd content) (blocks_of (prepared_chunks zstd config compress new))
All-IsEncoded zstd config compress canon content rows hot [] h = tt
All-IsEncoded zstd config compress canon content rows hot (e ∷ new) h = (
  prepared_of-IsEncoded zstd config compress content e.1 h.0.1,
  All-IsEncoded zstd config compress canon content rows hot new h.1,
)

pub new_content :
    (zstd : Zstd) (config : Config) (compress : Bool) (canon : ℕ → PreparedBlock)
    (content : ℕ → Bytes) (rows : Dict Block) (hot new : Dict Bytes) (j : ℕ) (d : Bytes)
    → All (IsNew zstd config compress canon content rows hot) new
    → lookup j new ≡ some d
    → content (zstd.digest d) ≡ d
new_content zstd config compress canon content rows hot [] j d h found = cc
new_content zstd config compress canon content rows hot ((i, e) ∷ new) j d h found =
    elim (Bool-cases (j == i)) [
      | inl here ↦
          let same : e ≡ d = ground (arith, here, found) in
          subst (λ x. content (zstd.digest x) ≡ x) same h.0.1
      | inr other ↦
          new_content zstd config compress canon content rows hot new j d h.1
            (ground (arith, other, found))
    ]
