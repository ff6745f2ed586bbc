-- ===== src/Store/Writes/Promoting.antt =====
-- block_store.py: a block that is only on the cold tier is written to the hot one again.
use mathlib.Core.Path.{subst}
use ztierfs.Common.{
  ℕ, ◌≡◌, refl, sym, ◌∙◌, ap, true, none, some, ◌==◌, Result, ok, err, is_some, arith, Bool-cases,
  inl, inr,
}
use ztierfs.Common.Dict.{lookup, insert, lookup-insert}
use ztierfs.Common.Bytes.{Bytes}
use ztierfs.Metadata.Schema.{Block, tiered, Db, row_ok, update_block}
use ztierfs.Metadata.Blocks.{with_presence, set_block_presence}
use ztierfs.Metadata.Settle.{RowsOk, insert-RowsOk}
use ztierfs.Store.Disk.{answers}
use ztierfs.Store.Codec.{
  Config, Zstd, PreparedBlock, payload_matching, decode_payload, payload_matching-decode_payload,
}
use ztierfs.Store.Tiers.Repairs.{is_ok}
use ztierfs.Store.Writes.{StoreState, promoted, promote_from_write}
use ztierfs.Store.Writes.Backing.{
  IsBacked, IsBackedStore, IsEncoded, IsBacked-same, promoted-IsBacked,
}
use ztierfs.Store.Writes.HotFiles.{Kept, Kept-refl, Step, Wrote, write_hot_lem}

returned_ok {ℓ} : {A : Type ℓ} (m : Result A) → is_ok m ≡ true → (a : A) × (m ≡ ok a)
returned_ok (ok a) h = (a, refl)
returned_ok (err e) h = cc

promoted_ok :
    (now : ℕ) (row : Block)
    → row.storage ≡ tiered
    → row_ok row ≡ true
    → row_ok (with_presence (promoted now) row) ≡ true
unfolding row_ok
promoted_ok now row t h = ground (arith, t, h)

set_block_presence_lem :
    (digest now : ℕ) (row : Block) (db : Db)
    → RowsOk db.blocks
    → lookup digest db.blocks ≡ some row
    → row.storage ≡ tiered
    → set_block_presence digest (promoted now) db
      ≡ ok (record db { blocks = insert digest (with_presence (promoted now) row) db.blocks })
unfolding set_block_presence update_block
set_block_presence_lem digest now row db r found t =
    ground (arith, found, promoted_ok now row t (r digest row found))

promoted-Kept :
    (digest now : ℕ) (row : Block) (db : Db)
    → RowsOk db.blocks
    → lookup digest db.blocks ≡ some row
    → row.storage ≡ tiered
    → Kept db (record db { blocks = insert digest (with_presence (promoted now) row) db.blocks })
promoted-Kept digest now row db r found t = record {
  chunks = refl;
  inodes = refl;
  rows =
      insert-RowsOk digest (with_presence (promoted now) row) db.blocks r
        (promoted_ok now row t (r digest row found));
  count = λ d. elim (Bool-cases (d == digest)) [
    | inl here ↦
        let p : d ≡ digest = ground arith in
        ground
          (arith, p, found, lookup-insert d digest (with_presence (promoted now) row) db.blocks)
    | inr other ↦
        ground (arith, other, lookup-insert d digest (with_presence (promoted now) row) db.blocks)
  ];
  there =
      λ d h. ground (arith, h, lookup-insert d digest (with_presence (promoted now) row) db.blocks);
}

-- Nothing was done.
pub idle-Step :
    (zstd : Zstd) (content : ℕ → Bytes) (digest : ℕ) (s : StoreState)
    → RowsOk s.db.blocks
    → IsBackedStore zstd content s.db s.disk
    → Step zstd content digest s s
idle-Step zstd content digest s r b = record {
  kept = Kept-refl s.db r;
  up = refl;
  keys = λ d. refl;
  others = λ d ne. refl;
  hot = λ d ne. refl;
  cold = refl;
  payloads = refl;
  backed = b;
}

-- A file for a digest without a row changes nothing that a row names.
pub Wrote-Step :
    (zstd : Zstd) (content : ℕ → Bytes) (digest : ℕ) (payload : Bytes) (s s' : StoreState)
    → RowsOk s.db.blocks
    → IsBackedStore zstd content s.db s.disk
    → lookup digest s.db.blocks ≡ none
    → Wrote digest payload s s'
    → Step zstd content digest s s'
Wrote-Step zstd content digest payload s s' r b fresh w = record {
  kept = subst (Kept s.db) (sym w.db) (Kept-refl s.db r);
  up = w.up;
  keys = λ d. ap (λ x. is_some (lookup d x.blocks)) w.db;
  others = λ d ne. ap (λ x. lookup d x.blocks) w.db;
  hot = w.others;
  cold = w.cold;
  payloads = ap (λ x. x.block_payloads) w.db;
  backed = λ d row h.
      let found : lookup d s.db.blocks ≡ some row = sym (ap (λ x. lookup d x.blocks) w.db) ∙ h in
      IsBacked-same zstd (content d) d row s.db.block_payloads s'.db.block_payloads s.disk s'.disk
        (ap (λ x. lookup d x.block_payloads) w.db)
        (w.others d (λ p. ground (arith, found, fresh, ap (λ x. lookup x s.db.blocks) p)))
        (ap (lookup d) w.cold) (b d row found);
}

-- Every row after one was recorded as hot, with its file in place.
promoted-IsBackedStore :
    (zstd : Zstd) (content : ℕ → Bytes) (digest now : ℕ) (payload : Bytes) (row : Block)
    (s s1 : StoreState)
    → IsBackedStore zstd content s.db s.disk
    → lookup digest s.db.blocks ≡ some row
    → row.storage ≡ tiered
    → lookup digest s.disk.hot ≡ none
    → decode_payload zstd row payload ≡ ok (content digest)
    → Wrote digest payload s s1
    → IsBackedStore zstd content
        (record s1.db { blocks = insert digest (with_presence (promoted now) row) s1.db.blocks })
        s1.disk
promoted-IsBackedStore zstd content digest now payload row s s1 b found t free good w d x h =
    let row' = with_presence (promoted now) row in
    elim (Bool-cases (d == digest)) [
      | inl here ↦
          let p : digest ≡ d = ground (arith, here) in
          let same : row' ≡ x = ground (arith, here, h, lookup-insert d digest row' s1.db.blocks) in
          subst (λ k. IsBacked zstd (content k) k x s1.db.block_payloads s1.disk) p
            (subst (λ y. IsBacked zstd (content digest) digest y s1.db.block_payloads s1.disk) same
              (promoted-IsBacked zstd (content digest) payload digest now row s.db.block_payloads
                s1.db.block_payloads s.disk s1.disk t (w.here free) good w.cold
                (b digest row found)))
      | inr other ↦
          let there : lookup d s.db.blocks ≡ some x =
            sym (ap (λ y. lookup d y.blocks) w.db)
            ∙ ground (arith, other, h, lookup-insert d digest row' s1.db.blocks) in
          IsBacked-same zstd (content d) d x s.db.block_payloads s1.db.block_payloads s.disk s1.disk
            (ap (λ y. lookup d y.block_payloads) w.db) (w.others d (ground (arith, other)))
            (ap (lookup d) w.cold) (b d x there)
    ]

pub promote_lem :
    (zstd : Zstd) (config : Config) (content : ℕ → Bytes) (block : PreparedBlock) (row : Block)
    (now : ℕ) (s : StoreState)
    → RowsOk s.db.blocks
    → IsBackedStore zstd content s.db s.disk
    → answers 1 s.disk ≡ true
    → lookup block.digest s.db.blocks ≡ some row
    → row.storage ≡ tiered
    → lookup block.digest s.disk.hot ≡ none
    → IsEncoded zstd content block
    → is_ok (payload_matching zstd block row) ≡ true
    → (s' : StoreState) × (promote_from_write zstd config block row now s ≡ ok s')
      × Step zstd content block.digest s s'
unfolding promote_from_write
promote_lem zstd config content block row now s r b up found t free c matches =
    let (payload, encoded) = returned_ok (payload_matching zstd block row) matches in
    let (s1, done, w) = write_hot_lem config block.digest payload s up in
    let good =
      (payload_matching-decode_payload zstd block row payload c.size encoded).0
      ∙ ap ok (sym c.stands) in
    let row' = with_presence (promoted now) row in
    let db' = record s1.db { blocks = insert block.digest row' s1.db.blocks } in
    let found1 : lookup block.digest s1.db.blocks ≡ some row =
      ap (λ x. lookup block.digest x.blocks) w.db ∙ found in
    let r1 : RowsOk s1.db.blocks = subst (λ x. RowsOk x.blocks) (sym w.db) r in
    let k = promoted-Kept block.digest now row s1.db r1 found1 t in
    (
      record s1 { db = db' },
      rw (encoded, done, set_block_presence_lem block.digest now row s1.db r1 found1 t) refl,
      record {
        kept = subst (λ x. Kept x db') w.db k;
        up = w.up;
        keys = λ d.
            ground (arith, lookup-insert d block.digest row' s1.db.blocks, found1)
            ∙ ap (λ x. is_some (lookup d x.blocks)) w.db;
        others = λ d ne.
            ground (arith, ne, lookup-insert d block.digest row' s1.db.blocks)
            ∙ ap (λ x. lookup d x.blocks) w.db;
        hot = w.others;
        cold = w.cold;
        payloads = ap (λ x. x.block_payloads) w.db;
        backed =
            promoted-IsBackedStore zstd content block.digest now payload row s s1 b found t free
              good w;
      },
    )
