-- ===== src/Store/Writes/Backing.antt =====
-- block_store.py: the payload of every block is where its row says.
use ztierfs.Common.{
  ℕ, ◌≡◌, refl, sym, ◌∙◌, ap, Bool, true, not, ◌&&◌, Option, none, some, length, ok, arith,
  Option-cases, inl, inr,
}
use ztierfs.Common.Dict.{Dict, lookup}
use ztierfs.Common.Bytes.{Bytes}
use ztierfs.Metadata.Schema.{Block, inline, tiered, is_tiered, Db}
use ztierfs.Metadata.Blocks.{with_presence}
use ztierfs.Metadata.Thinning.{Thinned}
use ztierfs.Store.Disk.{Disk}
use ztierfs.Store.Codec.{Zstd, PreparedBlock, decode_payload}
use ztierfs.Store.Writes.{promoted}

-- A file or an inline payload is there, and decodes by the row to the bytes.
abbrev pub IsGood : Zstd → Bytes → Block → Option Bytes → Type 0
IsGood zstd bytes row stored =
    (payload : Bytes) × (stored ≡ some payload) × (decode_payload zstd row payload ≡ ok bytes)

-- The payload of a block is in every place that the row names, and decodes to the bytes of the block.
pub record IsBacked (zstd : Zstd) (bytes : Bytes) (d : ℕ) (row : Block) (payloads : Dict Bytes)
    (disk : Disk) : Type 0 where
  pub within : row.storage ≡ inline → IsGood zstd bytes row (lookup d payloads)
  pub hot :
      row.storage ≡ tiered → row.hot_present ≡ true → IsGood zstd bytes row (lookup d disk.hot)
  pub cold :
      row.storage ≡ tiered → row.cold_present ≡ true → IsGood zstd bytes row (lookup d disk.cold)

-- The rows of the database do not promise a payload that is not stored.
abbrev pub IsBackedStore : Zstd → (ℕ → Bytes) → Db → Disk → Type 0
IsBackedStore zstd content db disk =
    (d : ℕ) (row : Block)
    → lookup d db.blocks ≡ some row
    → IsBacked zstd (content d) d row db.block_payloads disk

-- What `_prepared_block` sees to: the payload decodes to the bytes that the digest stands for, and the
-- inline payload is no other.
pub record IsEncoded (zstd : Zstd) (content : ℕ → Bytes) (b : PreparedBlock) : Type 0 where
  pub stands : content b.digest ≡ b.raw_data
  pub size : b.raw_size ≡ length b.raw_data
  pub within : (payload : Bytes) → b.inline_payload ≡ some payload → payload ≡ b.payload
  pub decodes :
      (row : Block)
      → row.compressed ≡ b.compressed
      → row.raw_size ≡ b.raw_size
      → decode_payload zstd row b.payload ≡ ok b.raw_data

-- A block with this row, or with none, is to be written to the hot tier.
abbrev pub needs_hot : Option Block → Bool
needs_hot none = true
needs_hot (some row) = is_tiered row.storage && not row.hot_present

pub decode_like :
    (zstd : Zstd) (row row' : Block) (payload : Bytes)
    → row'.compressed ≡ row.compressed
    → row'.raw_size ≡ row.raw_size
    → decode_payload zstd row' payload ≡ decode_payload zstd row payload
unfolding decode_payload
decode_like zstd row row' payload c r = elim (Option-cases (zstd.decompress payload)) [
  | inl broken ↦ ground (arith, c, r, broken)
  | inr (bytes, back) ↦ ground (arith, c, r, back)
]

IsGood-like :
    (zstd : Zstd) (bytes : Bytes) (row row' : Block) (stored stored' : Option Bytes)
    → row'.compressed ≡ row.compressed
    → row'.raw_size ≡ row.raw_size
    → stored' ≡ stored
    → IsGood zstd bytes row stored
    → IsGood zstd bytes row' stored'
IsGood-like zstd bytes row row' stored stored' c r e (payload, found, good) =
    (payload, e ∙ found, decode_like zstd row row' payload c r ∙ good)

-- A row that stays in place, where the places have what they had.
pub IsBacked-same :
    (zstd : Zstd) (bytes : Bytes) (d : ℕ) (row : Block) (payloads payloads' : Dict Bytes)
    (disk disk' : Disk)
    → lookup d payloads' ≡ lookup d payloads
    → lookup d disk'.hot ≡ lookup d disk.hot
    → lookup d disk'.cold ≡ lookup d disk.cold
    → IsBacked zstd bytes d row payloads disk
    → IsBacked zstd bytes d row payloads' disk'
IsBacked-same zstd bytes d row payloads payloads' disk disk' p h c b = record {
  within = λ s. IsGood-like zstd bytes row row _ _ refl refl p (b.within s);
  hot = λ s x. IsGood-like zstd bytes row row _ _ refl refl h (b.hot s x);
  cold = λ s x. IsGood-like zstd bytes row row _ _ refl refl c (b.cold s x);
}

-- Nothing is promised anew by rows that were thinned out.
pub Thinned-IsBackedStore :
    (zstd : Zstd) (content : ℕ → Bytes) (db db' : Db) (disk : Disk)
    → Thinned db.blocks db.block_payloads db'
    → IsBackedStore zstd content db disk
    → IsBackedStore zstd content db' disk
Thinned-IsBackedStore zstd content db db' disk t b d row' h =
    let (row, found, like, payload) = t d row' h in
    let old = b d row found in
    record {
      within = λ s.
          IsGood-like zstd (content d) row row' _ _ like.compressed like.raw_size payload
            (old.within (sym like.storage ∙ s));
      hot = λ s x.
          IsGood-like zstd (content d) row row' _ _ like.compressed like.raw_size refl
            (old.hot (sym like.storage ∙ s) (like.hot x));
      cold = λ s x.
          IsGood-like zstd (content d) row row' _ _ like.compressed like.raw_size refl
            (old.cold (sym like.storage ∙ s) (like.cold x));
    }

-- A row that is recorded as hot again, with a payload that is on the hot tier.
pub promoted-IsBacked :
    (zstd : Zstd) (bytes payload : Bytes) (d now : ℕ) (row : Block)
    (payloads payloads' : Dict Bytes) (disk disk' : Disk)
    → row.storage ≡ tiered
    → lookup d disk'.hot ≡ some payload
    → decode_payload zstd row payload ≡ ok bytes
    → disk'.cold ≡ disk.cold
    → IsBacked zstd bytes d row payloads disk
    → IsBacked zstd bytes d (with_presence (promoted now) row) payloads' disk'
promoted-IsBacked zstd bytes payload d now row payloads payloads' disk disk' t h good c b =
    let row' = with_presence (promoted now) row in
    record {
      within = λ s. absurd (ground (arith, s, t));
      hot = λ s x. (payload, h, decode_like zstd row row' payload refl refl ∙ good);
      cold = λ s x. IsGood-like zstd bytes row row' _ _ refl refl (ap (lookup d) c) (b.cold s x);
    }
