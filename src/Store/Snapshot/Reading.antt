-- ===== src/Store/Snapshot/Reading.antt =====
-- block_store.py: a block that can be read is read as what it holds, through the cache or not.
use ztierfs.Common.{
  ℕ, ◌≡◌, refl, sym, ◌∙◌, ap, ◌⊎◌, true, false, some, Result, ok, err, ◌>>=◌, arith, Option-cases,
  inl, inr,
}
use mathlib.Core.Path.{subst}
use ztierfs.Common.Dict.{lookup}
use ztierfs.Common.Bytes.{Bytes}
use ztierfs.Metadata.Schema.{Storage, inline, tiered}
use ztierfs.Metadata.Chunks.{Row}
use ztierfs.Files.Reading.{BlockReader}
use ztierfs.Store.Disk.{Disk, files, is_down, is_denied}
use ztierfs.Store.Cache.{Cache, cache_get, cache_put}
use ztierfs.Store.Cache.Bounds.{IsValid, cache_put-IsValid, cache_get-IsValid}
use ztierfs.Store.Codec.{Config, Zstd, decode_payload}
use ztierfs.Store.Tiers.{Decision, no_repair, preferred_tier, read_tiered_payload}
use ztierfs.Store.Tiers.Repairs.{
  declares, is_ok, IsSound, Sound, read_tiered_payload-Sound, read_tiered_payload_total,
}
use ztierfs.Store.Snapshot.{
  BlockRead, block_read, should_copy_up_from_cold, fit, read_inline, read_tiered,
  read_block_snapshot,
}

-- A cached block is what the digest stands for.
abbrev pub IsFaithful : (ℕ → Bytes) → Cache → Type 0
IsFaithful content cache =
    (digest : ℕ) (bytes : Bytes) → lookup digest cache.entries ≡ some bytes → bytes ≡ content digest

-- A tier that the row declares is up and has the file, neither tier fails with an error that is not a
-- temporary one, and each file of the digest decodes.
pub record OnTier (content : ℕ → Bytes) (zstd : Zstd) (disk : Disk) (row : Row) : Type 0 where
  pub tier : ℕ
  pub payload : Bytes
  pub is_tier : (tier ≡ 1) ⊎ (tier ≡ 2)
  pub declared : declares tier row.block ≡ true
  pub up : is_down tier disk ≡ false
  pub hot_open : is_denied 1 disk ≡ false
  pub cold_open : is_denied 2 disk ≡ false
  pub found : lookup row.hash (files tier disk) ≡ some payload
  pub decodes :
      (t : ℕ) (p : Bytes)
      → lookup row.hash (files t disk) ≡ some p
      → decode_payload zstd row.block p ≡ ok (content row.hash)

pub record Inlined (content : ℕ → Bytes) (zstd : Zstd) (row : Row) : Type 0 where
  pub payload : Bytes
  pub stored : row.inline_payload ≡ some payload
  pub decodes : decode_payload zstd row.block payload ≡ ok (content row.hash)

abbrev pub IsStored : (ℕ → Bytes) → Zstd → Disk → Row → Storage → Type 0
IsStored content zstd disk row inline = Inlined content zstd row
IsStored content zstd disk row tiered = OnTier content zstd disk row

returned_ok {ℓ} : {A : Type ℓ} (m : Result A) → is_ok m ≡ true → (a : A) × (m ≡ ok a)
returned_ok (ok a) h = (a, refl)
returned_ok (err e) h = cc

returned-Sound :
    (digest : ℕ) (disk : Disk) (m : Result (Bytes × Decision))
    → Sound digest disk m
    → (found : Bytes × Decision) → m ≡ ok found
    → IsSound digest disk found.0 found.1.0 found.1.1
returned-Sound digest disk m s found h = subst (Sound digest disk) h s

-- What a read of the row is to be.
pub record IsRead (content : ℕ → Bytes) (limit : ℕ) (row : Row) (n : ℕ) (m : Result BlockRead)
    : Type 0 where
  pub result : BlockRead
  pub returned : m ≡ ok result
  pub bytes : result.bytes ≡ fit n (content row.hash)
  pub faithful : IsFaithful content result.cache
  pub valid : IsValid limit result.cache

cache_get_found :
    (limit digest : ℕ) (c : Cache) (d : Bytes)
    → (cache_get limit digest c).0 ≡ some d
    → lookup digest c.entries ≡ some d
unfolding cache_get
cache_get_found limit digest c d h = ground (arith, h)

after_get :
    (content : ℕ → Bytes) (limit digest : ℕ) (c : Cache)
    → IsValid limit c
    → IsFaithful content c
    → IsFaithful content (cache_get limit digest c).1
after_get content limit digest c v f d b h =
    f d b (sym ((cache_get-IsValid limit digest c v).1 d) ∙ h)

after_put :
    (content : ℕ → Bytes) (limit digest : ℕ) (c : Cache)
    → IsValid limit c
    → IsFaithful content c
    → IsFaithful content (cache_put limit digest (content digest) c)
after_put content limit digest c v f d b h =
    elim ((cache_put-IsValid limit digest (content digest) c v).2 d b h) [
      | inl old ↦ f d b old
      | inr new ↦ new.1 ∙ ap content (sym new.0)
    ]

read_tiered_lem :
    (content : ℕ → Bytes) (zstd : Zstd) (config : Config) (disk : Disk) (row : Row) (n : ℕ)
    (c : Cache)
    → IsValid config.read_cache_bytes c
    → IsFaithful content c
    → OnTier content zstd disk row
    → IsRead content config.read_cache_bytes row n (read_tiered zstd config disk row n c)
unfolding read_tiered
read_tiered_lem content zstd config disk row n c v f s =
    let limit = config.read_cache_bytes in
    let c' = (cache_get limit row.hash c).1 in
    let v' = (cache_get-IsValid limit row.hash c v).0 in
    let f' = after_get content limit row.hash c v f in
    elim (Option-cases (cache_get limit row.hash c).0) [
      | inr (d, hit) ↦
          let tier = preferred_tier row.block in
          record {
            result =
                block_read row n d (tier, no_repair) c'
                  (should_copy_up_from_cold config row.block tier);
            returned = rw (hit, read_tiered) refl;
            bytes = ap (fit n) (f row.hash d (cache_get_found limit row.hash c d hit));
            faithful = f';
            valid = v';
          }
      | inl miss ↦
          let (found, done) = returned_ok (read_tiered_payload row.hash row.block disk) (
            read_tiered_payload_total row.hash s.tier row.block disk s.payload s.is_tier s.declared
              s.up s.hot_open s.cold_open s.found) in
          let sound =
            returned-Sound row.hash disk (read_tiered_payload row.hash row.block disk)
              (read_tiered_payload-Sound row.hash row.block disk) found done in
          let decoded = s.decodes found.1.0 found.0 sound.found in
          record {
            result =
                block_read row n (content row.hash) found.1
                  (cache_put limit row.hash (content row.hash) c')
                  (should_copy_up_from_cold config row.block found.1.0);
            returned = rw (miss, read_tiered, done, decoded) refl;
            bytes = refl;
            faithful = after_put content limit row.hash c' v' f';
            valid = (cache_put-IsValid limit row.hash (content row.hash) c' v').0;
          }
    ]

read_inline_lem :
    (content : ℕ → Bytes) (zstd : Zstd) (config : Config) (row : Row) (n : ℕ) (c : Cache)
    → IsValid config.read_cache_bytes c
    → IsFaithful content c
    → Inlined content zstd row
    → IsRead content config.read_cache_bytes row n (read_inline zstd config row n c)
unfolding read_inline
read_inline_lem content zstd config row n c v f s =
    let limit = config.read_cache_bytes in
    let c' = (cache_get limit row.hash c).1 in
    let v' = (cache_get-IsValid limit row.hash c v).0 in
    let f' = after_get content limit row.hash c v f in
    elim (Option-cases (cache_get limit row.hash c).0) [
      | inr (d, hit) ↦ record {
        result = block_read row n d (0, no_repair) c' false;
        returned = simp (s.stored, hit, read_inline);
        bytes = ap (fit n) (f row.hash d (cache_get_found limit row.hash c d hit));
        faithful = f';
        valid = v';
      }
      | inl miss ↦ record {
        result =
            block_read row n (content row.hash) (0, no_repair)
              (cache_put limit row.hash (content row.hash) c') false;
        returned = simp (s.stored, miss, s.decodes, read_inline);
        bytes = refl;
        faithful = after_put content limit row.hash c' v' f';
        valid = (cache_put-IsValid limit row.hash (content row.hash) c' v').0;
      }
    ]

by_storage :
    (content : ℕ → Bytes) (zstd : Zstd) (config : Config) (disk : Disk) (row : Row) (n : ℕ)
    (c : Cache) (storage : Storage)
    → IsValid config.read_cache_bytes c
    → IsFaithful content c
    → IsStored content zstd disk row storage
    → IsRead content config.read_cache_bytes row n (elim storage [
      | inline ↦ read_inline zstd config row n c
      | tiered ↦ read_tiered zstd config disk row n c
    ])
by_storage content zstd config disk row n c inline v f s =
    read_inline_lem content zstd config row n c v f s
by_storage content zstd config disk row n c tiered v f s =
    read_tiered_lem content zstd config disk row n c v f s

-- A row whose block is stored inline, or on a tier that it declares, that is up and whose files of the
-- digest decode, while neither tier fails with an error that is not a temporary one, is read without an
-- error as the bytes of its digest, cut off or filled up with zeros, whether or not a valid and faithful
-- cache has it. The cache stays within its bound and holds only what digests stand for.
pub read_block_snapshot_lem :
    (content : ℕ → Bytes) (zstd : Zstd) (config : Config) (disk : Disk) (row : Row) (n : ℕ)
    (c : Cache)
    → IsValid config.read_cache_bytes c
    → IsFaithful content c
    → IsStored content zstd disk row row.block.storage
    → IsRead content config.read_cache_bytes row n (read_block_snapshot zstd config disk row n c)
unfolding read_block_snapshot
read_block_snapshot_lem content zstd config disk row n c v f s =
    by_storage content zstd config disk row n c row.block.storage v f s

-- The block store, as the content service reads through it.
abbrev pub snapshot_reader :
    (content : ℕ → Bytes) (zstd : Zstd) (config : Config) (disk : Disk) (c : Cache)
    → IsValid config.read_cache_bytes c
    → IsFaithful content c
    → BlockReader (λ row n. read_block_snapshot zstd config disk row n c >>= λ r. ok r.bytes)
snapshot_reader content zstd config disk c v f = record {
  content = content;
  IsReadable = λ row. IsStored content zstd disk row row.block.storage;
  reads = λ row n s.
      let r = read_block_snapshot_lem content zstd config disk row n c v f s in
      rw r.returned (ap ok r.bytes);
}
