-- ===== src/Metadata/Settle.antt =====
-- metadata/blocks.py: the reference counts after `apply_block_refcount_deltas`.

use ztierfs.Common.{
  ℕ, zero, suc, ◌+◌, ◌-◌, ◌≡◌, ◌≢◌, refl, sym, ◌∙◌, Bool, true, false, ◌&&◌, none, some, List, [],
  ◌∷◌, ltb, if◌then◌else◌, arith, ok, Option-cases, Bool-cases, inl, inr,
}
use ztierfs.Common.Dict.{Dict, lookup, insert, erase, lookup-insert, lookup-erase}
use ztierfs.Metadata.Schema.{is_tiered, Block, Chunk, Db, row_ok, update_block, is_referenced}
use ztierfs.Metadata.Gc.{enqueue_pending_block_file_deletion}
use ztierfs.Metadata.Blocks.{
  as_cold_garbage, mark_cold_garbage, delete_block, release_to_cold, drop_block, settle, lower_one,
}
use ztierfs.Metadata.Chunks.Rows.{references}

-- The count of a block; a block that is not there has none.
abbrev pub block_refs : ℕ → Dict Block → ℕ
block_refs d blocks = elim (lookup d blocks) [ none ↦ 0 | some b ↦ b.refcount ]

-- Every row meets the CHECK constraints, as SQLite sees to.
abbrev pub RowsOk : Dict Block → Type 0
RowsOk blocks = (d : ℕ) (b : Block) → lookup d blocks ≡ some b → row_ok b ≡ true

-- One digest has been given its count, and nothing else of the rows has changed.
pub record Settled (d new : ℕ) (db db' : Db) : Type 0 where
  pub chunks : db'.file_chunks ≡ db.file_chunks
  pub inodes : db'.inodes ≡ db.inodes
  pub entries : db'.dir_entries ≡ db.dir_entries
  pub rows : RowsOk db'.blocks
  pub count : block_refs d db'.blocks ≡ new
  pub others : (e : ℕ) → e ≢ d → lookup e db'.blocks ≡ lookup e db.blocks

pub insert-RowsOk :
    (d : ℕ) (b : Block) (blocks : Dict Block)
    → RowsOk blocks
    → row_ok b ≡ true
    → RowsOk (insert d b blocks)
insert-RowsOk d b blocks h r e c found = ground (arith, lookup-insert e d b blocks, h e c)

erase-RowsOk : (d : ℕ) (blocks : Dict Block) → RowsOk blocks → RowsOk (erase d blocks)
erase-RowsOk d blocks h e c found = ground (arith, lookup-erase e d blocks, h e c)

-- To queue a deletion settles nothing and unsettles nothing.
Settled-enqueue :
    (c : Bool) (d new tier now : ℕ) (db db' : Db)
    → Settled d new db db'
    → Settled d new db (if c then enqueue_pending_block_file_deletion d tier now db' else db')
unfolding enqueue_pending_block_file_deletion
Settled-enqueue true d new tier now db db' s = record {
  chunks = s.chunks;
  inodes = s.inodes;
  entries = s.entries;
  rows = s.rows;
  count = s.count;
  others = s.others;
}
Settled-enqueue false d new tier now db db' s = s

update_settles :
    (d new : ℕ) (f : Block → Block) (row : Block) (db : Db)
    → RowsOk db.blocks
    → lookup d db.blocks ≡ some row
    → row_ok (f row) ≡ true
    → (f row).refcount ≡ new
    → (db' : Db) × (update_block d f db ≡ ok db') × Settled d new db db'
unfolding update_block
update_settles d new f row db h found r c = (
  record db { blocks = insert d (f row) db.blocks },
  ground arith,
  record {
    chunks = refl;
    inodes = refl;
    entries = refl;
    rows = insert-RowsOk d (f row) db.blocks h r;
    count = ground (arith, lookup-insert d d (f row) db.blocks);
    others = λ e ne. ground (arith, lookup-insert e d (f row) db.blocks);
  },
)

not_referenced : (d : ℕ) (rows : List Chunk) → references d rows ≡ 0 → is_referenced d rows ≡ false
not_referenced d [] h = refl
not_referenced d (r ∷ rows) h = ground (arith, not_referenced d rows)

delete_settles :
    (d : ℕ) (db : Db)
    → RowsOk db.blocks
    → references d db.file_chunks ≡ 0
    → (db' : Db) × (delete_block d db ≡ ok db') × Settled d 0 db db'
unfolding delete_block
delete_settles d db h free = (
  record db { blocks = erase d db.blocks; block_payloads = erase d db.block_payloads },
  ground (arith, not_referenced d db.file_chunks free),
  record {
    chunks = refl;
    inodes = refl;
    entries = refl;
    rows = erase-RowsOk d db.blocks h;
    count = ground (arith, lookup-erase d d db.blocks);
    others = λ e ne. ground (arith, lookup-erase e d db.blocks);
  },
)

cold_row_ok :
    (now : ℕ) (b : Block)
    → is_tiered b.storage ≡ true
    → row_ok b ≡ true
    → row_ok (as_cold_garbage now b) ≡ true
unfolding row_ok
cold_row_ok now b t r = ground arith

release_settles :
    (d now : ℕ) (row : Block) (db : Db)
    → RowsOk db.blocks
    → lookup d db.blocks ≡ some row
    → is_tiered row.storage ≡ true
    → (db' : Db) × (release_to_cold d row now db ≡ ok db') × Settled d 0 db db'
unfolding release_to_cold mark_cold_garbage
release_settles d now row db h found t =
    let (db', e, s) =
      update_settles d 0 (as_cold_garbage now) row db h found
        (cold_row_ok now row t (h d row found)) refl in
    (_, rw e, Settled-enqueue row.hot_present d 0 1 now db db' s)

drop_settles :
    (d now : ℕ) (row : Block) (db : Db)
    → RowsOk db.blocks
    → references d db.file_chunks ≡ 0
    → (db' : Db) × (drop_block d row now db ≡ ok db') × Settled d 0 db db'
unfolding drop_block
drop_settles d now row db h free =
    let (db', e, s) = delete_settles d db h free in
    (_, rw e, Settled-enqueue (is_tiered row.storage && row.hot_present) d 0 1 now db db' s)

recount_ok : (b : Block) (n : ℕ) → row_ok b ≡ true → row_ok (record b { refcount = n }) ≡ true
unfolding row_ok
recount_ok b n h = h

-- The last part of the loop gives the digest its count, whichever branch it takes.
settle_settles :
    (d now new : ℕ) (row : Block) (db : Db)
    → RowsOk db.blocks
    → lookup d db.blocks ≡ some row
    → new ≡ references d db.file_chunks
    → (db' : Db) × (settle d row new now db ≡ ok db') × Settled d new db db'
unfolding settle
settle_settles d now zero row db h found n =
    elim (Bool-cases (is_tiered row.storage && row.cold_present)) [
      | inl cold ↦ rw cold (release_settles d now row db h found (ground arith))
      | inr gone ↦ rw gone (drop_settles d now row db h (sym n))
    ]
settle_settles d now (suc new) row db h found n =
    let (db', e, s) =
      update_settles d (suc new) (λ b. record b { refcount = suc new }) row db h found
        (recount_ok row (suc new) (h d row found)) refl in
    (db', ground (arith, e), s)

lower_one_ok :
    (rows : Dict Block) (d now n : ℕ) (row : Block) (db db' : Db)
    → lookup d rows ≡ some row
    → row.refcount ≡ references d db.file_chunks + suc n
    → settle d row (references d db.file_chunks) now db ≡ ok db'
    → lower_one rows now d (suc n) db ≡ ok db'
unfolding lower_one
lower_one_ok rows d now n row db db' found k e =
    let enough : ltb row.refcount (suc n) ≡ false = ground arith in
    let left : row.refcount - suc n ≡ references d db.file_chunks = omega arith in
    rw (found, lower_one) (rw enough (rw left e))

-- One round of the loop: the row that was read before is the row of the table.
pub lower_one_settles :
    (rows : Dict Block) (d now n : ℕ) (db : Db)
    → RowsOk db.blocks
    → lookup d db.blocks ≡ lookup d rows
    → block_refs d db.blocks ≡ references d db.file_chunks + suc n
    → (db' : Db) × (lower_one rows now d (suc n) db ≡ ok db')
      × Settled d (references d db.file_chunks) db db'
lower_one_settles rows d now n db h same c = elim (Option-cases (lookup d db.blocks)) [
  | inl missing ↦ absurd (ground arith)
  | inr (row, found) ↦
      let k : row.refcount ≡ references d db.file_chunks + suc n = ground arith in
      let (db', e, s) = settle_settles d now (references d db.file_chunks) row db h found refl in
      (db', lower_one_ok rows d now n row db db' (sym same ∙ found) k e, s)
]
