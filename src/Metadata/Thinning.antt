-- ===== src/Metadata/Thinning.antt =====
-- metadata/blocks.py: `apply_block_refcount_deltas` takes rows and tiers of blocks away, and brings none.
pub mod Replacing
use mathlib.Core.Path.{subst}
use ztierfs.Common.{
  ℕ, suc, ◌≡◌, refl, sym, ◌∙◌, ap, true, false, ◌&&◌, Option, some, [], ◌∷◌, ◌==◌, ltb, ◌-◌, Bool,
  zero, ok, Error, bind-eq_ok, arith, Bool-cases, Option-cases, inl, inr, if◌then◌else◌, raise_if,
  any_of, map, ◌⊎◌,
}
use ztierfs.Common.Int.{pos, negsuc}
use ztierfs.Common.Bytes.{Bytes}
use ztierfs.Common.Dict.{Dict, lookup, insert, erase, lookup-insert, lookup-erase}
use ztierfs.Metadata.Schema.{Block, Db, is_tiered, update_block}
use ztierfs.Metadata.Gc.{enqueue_pending_block_file_deletion}
use ztierfs.Metadata.Blocks.{
  Deltas, add_refs, as_cold_garbage, mark_cold_garbage, delete_block, release_to_cold, drop_block,
  settle, lower_one, raise_counts, lower_counts, apply_block_refcount_deltas,
}
use ztierfs.Metadata.Chunks.{
  Replacements, upserts, upsert_chunk, upsert_chunks, chunk_deltas, is_empty_chunk, rewrite_chunks,
  replace_file_chunks, old_chunk_rows,
}

-- The row of a block after it lost or got references: its payload is on no other tier than before, and
-- encoded as before.
pub record IsLike (row row' : Block) : Type 0 where
  pub storage : row'.storage ≡ row.storage
  pub compressed : row'.compressed ≡ row.compressed
  pub raw_size : row'.raw_size ≡ row.raw_size
  pub hot : row'.hot_present ≡ true → row.hot_present ≡ true
  pub cold : row'.cold_present ≡ true → row.cold_present ≡ true

-- Every row was there before, and so was its inline payload.
abbrev pub Thinned : Dict Block → Dict Bytes → Db → Type 0
Thinned blocks payloads db' =
    (d : ℕ) (row' : Block)
    → lookup d db'.blocks ≡ some row'
    → (row : Block) × (lookup d blocks ≡ some row)
      × IsLike row row'
      × (lookup d db'.block_payloads ≡ lookup d payloads)

pub Thinned-refl : (db : Db) → Thinned db.blocks db.block_payloads db
Thinned-refl db d row h = (
  row,
  h,
  record { storage = refl; compressed = refl; raw_size = refl; hot = λ x. x; cold = λ x. x },
  refl,
)

module _ (blocks : Dict Block) (payloads : Dict Bytes) where
  returned-Thinned :
      (db db' : Db) → Thinned blocks payloads db → ok db ≡ ok db' → Thinned blocks payloads db'
  returned-Thinned db db' t h =
      let same : db ≡ db' = ground (arith, h) in subst (Thinned blocks payloads) same t

  insert-Thinned :
      (d : ℕ) (f : Block → Block) (r : Block) (db : Db)
      → Thinned blocks payloads db
      → lookup d db.blocks ≡ some r
      → ((row : Block) → lookup d blocks ≡ some row → IsLike row r → IsLike row (f r))
      → Thinned blocks payloads (record db { blocks = insert d (f r) db.blocks })
  insert-Thinned d f r db t found keeps e row' h = elim (Bool-cases (e == d)) [
    | inl here ↦
        let p : d ≡ e = ground arith in
        let same : f r ≡ row' = ground (arith, here, h, lookup-insert e d (f r) db.blocks) in
        let (row, there, like, payload) = t d r found in
        (
          row,
          ap (λ x. lookup x blocks) (sym p) ∙ there,
          subst (IsLike row) same (keeps row there like),
          subst (λ x. lookup x db.block_payloads ≡ lookup x payloads) p payload,
        )
    | inr other ↦ t e row' (ground (arith, other, h, lookup-insert e d (f r) db.blocks))
  ]

  update-cases :
      (d : ℕ) (f : Block → Block) (db db' : Db)
      → update_block d f db ≡ ok db'
      → (db ≡ db')
        ⊎ ((r : Block) × (lookup d db.blocks ≡ some r)
            × (record db { blocks = insert d (f r) db.blocks } ≡ db'))
  unfolding update_block
  update-cases d f db db' h = elim (Option-cases (lookup d db.blocks)) [
    | inl gone ↦ inl (ground (arith, gone, h))
    | inr (r, there) ↦ inr (r, there, ground (arith, there, h))
  ]

  update-Thinned :
      (d : ℕ) (f : Block → Block) (db db' : Db)
      → Thinned blocks payloads db
      → ((row r : Block) → lookup d blocks ≡ some row → IsLike row r → IsLike row (f r))
      → update_block d f db ≡ ok db'
      → Thinned blocks payloads db'
  update-Thinned d f db db' t keeps h = elim (update-cases d f db db' h) [
    | inl same ↦ subst (Thinned blocks payloads) same t
    | inr (r, there, same) ↦
        subst (Thinned blocks payloads) same
          (insert-Thinned d f r db t there (λ row found like. keeps row r found like))
  ]

  erase-Thinned :
      (d : ℕ) (db : Db)
      → Thinned blocks payloads db
      → Thinned blocks payloads
          (record db { blocks = erase d db.blocks; block_payloads = erase d db.block_payloads })
  erase-Thinned d db t e row' h = elim (Bool-cases (e == d)) [
    | inl here ↦ absurd (ground (arith, here, h, lookup-erase e d db.blocks))
    | inr other ↦
        let (row, there, like, payload) =
          t e row' (ground (arith, other, h, lookup-erase e d db.blocks)) in
        (row, there, like, ground (arith, other, payload, lookup-erase e d db.block_payloads))
  ]

  delete-Thinned :
      (d : ℕ) (db db' : Db)
      → Thinned blocks payloads db
      → delete_block d db ≡ ok db'
      → Thinned blocks payloads db'
  unfolding delete_block
  delete-Thinned d db db' t h =
      let erased = record db {
        blocks = erase d db.blocks;
        block_payloads = erase d db.block_payloads;
      } in
      returned-Thinned erased db' (erase-Thinned d db t) (ground (arith, h))

  enqueue-Thinned :
      (c : Bool) (d tier now : ℕ) (db db' : Db)
      → Thinned blocks payloads db
      → ok (if c then enqueue_pending_block_file_deletion d tier now db else db) ≡ ok db'
      → Thinned blocks payloads db'
  unfolding enqueue_pending_block_file_deletion
  enqueue-Thinned true d tier now db db' t h =
      returned-Thinned (enqueue_pending_block_file_deletion d tier now db) db' t h
  enqueue-Thinned false d tier now db db' t h = returned-Thinned db db' t h

  cold-IsLike :
      (now : ℕ) (row r : Block)
      → row.cold_present ≡ true
      → IsLike row r
      → IsLike row (as_cold_garbage now r)
  cold-IsLike now row r c like = record {
    storage = like.storage;
    compressed = like.compressed;
    raw_size = like.raw_size;
    hot = λ x. cc;
    cold = λ x. c;
  }

  release-Thinned :
      (d now : ℕ) (row : Block) (db db' : Db)
      → Thinned blocks payloads db
      → lookup d blocks ≡ some row
      → row.cold_present ≡ true
      → release_to_cold d row now db ≡ ok db'
      → Thinned blocks payloads db'
  unfolding release_to_cold mark_cold_garbage
  release-Thinned d now row db db' t found c h =
      let (db1, marked, rest) = bind-eq_ok (mark_cold_garbage d now db) _ db' h in
      enqueue-Thinned row.hot_present d 1 now db1 db'
        (update-Thinned d (as_cold_garbage now) db db1 t
          (λ x r there like. cold-IsLike now x r (ground (arith, found, there, c)) like) marked)
        rest

  drop-Thinned :
      (d now : ℕ) (row : Block) (db db' : Db)
      → Thinned blocks payloads db
      → drop_block d row now db ≡ ok db'
      → Thinned blocks payloads db'
  unfolding drop_block
  drop-Thinned d now row db db' t h =
      let (db1, deleted, rest) = bind-eq_ok (delete_block d db) _ db' h in
      enqueue-Thinned (is_tiered row.storage && row.hot_present) d 1 now db1 db'
        (delete-Thinned d db db1 t deleted) rest

  settle-Thinned :
      (d new now : ℕ) (row : Block) (db db' : Db)
      → Thinned blocks payloads db
      → lookup d blocks ≡ some row
      → settle d row new now db ≡ ok db'
      → Thinned blocks payloads db'
  unfolding settle
  settle-Thinned d new now row db db' t found h = elim (Bool-cases (ltb 0 new)) [
    | inl some_left ↦
        update-Thinned d (λ b. record b { refcount = new }) db db' t
          (λ x r there like. record {
            storage = like.storage;
            compressed = like.compressed;
            raw_size = like.raw_size;
            hot = like.hot;
            cold = like.cold;
          })
          (ground (arith, some_left, h))
    | inr none_left ↦ elim (Bool-cases (is_tiered row.storage && row.cold_present)) [
      | inl cold ↦
          release-Thinned d now row db db' t found (ground (arith, cold))
            (ground (arith, none_left, cold, h))
      | inr gone ↦ drop-Thinned d now row db db' t (ground (arith, none_left, gone, h))
    ]
  ]

  lower_one-Thinned :
      (d n now : ℕ) (db db' : Db)
      → Thinned blocks payloads db
      → lower_one blocks now d n db ≡ ok db'
      → Thinned blocks payloads db'
  unfolding lower_one
  lower_one-Thinned d n now db db' t h = elim (Option-cases (lookup d blocks)) [
    | inl gone ↦ absurd (ground (arith, gone, h))
    | inr (row, found) ↦
        settle-Thinned d (row.refcount - n) now row db db' t found (ground (arith, found, h))
  ]

  pub raise-Thinned :
      (deltas : Deltas) (db db' : Db)
      → Thinned blocks payloads db
      → raise_counts deltas db ≡ ok db'
      → Thinned blocks payloads db'
  unfolding raise_counts
  raise-Thinned [] db db' t h = returned-Thinned db db' t h
  raise-Thinned ((d, pos (suc n)) ∷ deltas) db db' t h =
      let (db1, one, rest) = bind-eq_ok (update_block d (add_refs (suc n)) db) _ db' h in
      raise-Thinned deltas db1 db'
        (update-Thinned d (add_refs (suc n)) db db1 t
          (λ x r there like. record {
            storage = like.storage;
            compressed = like.compressed;
            raw_size = like.raw_size;
            hot = like.hot;
            cold = like.cold;
          })
          one)
        rest
  raise-Thinned ((d, pos zero) ∷ deltas) db db' t h = raise-Thinned deltas db db' t h
  raise-Thinned ((d, negsuc n) ∷ deltas) db db' t h = raise-Thinned deltas db db' t h

  pub lower-Thinned :
      (now : ℕ) (deltas : Deltas) (db db' : Db)
      → Thinned blocks payloads db
      → lower_counts blocks now deltas db ≡ ok db'
      → Thinned blocks payloads db'
  unfolding lower_counts
  lower-Thinned now [] db db' t h = returned-Thinned db db' t h
  lower-Thinned now ((d, negsuc n) ∷ deltas) db db' t h =
      let (db1, one, rest) = bind-eq_ok (lower_one blocks now d (suc n) db) _ db' h in
      lower-Thinned now deltas db1 db' (lower_one-Thinned d (suc n) now db db1 t one) rest
  lower-Thinned now ((d, pos n) ∷ deltas) db db' t h = lower-Thinned now deltas db db' t h
