-- ===== src/Store/Writes/Inserting.antt =====
-- blocks.py: `insert_blocks` gives every new block a row and leaves the counts alone.
use mathlib.Core.Path.{subst}
use ztierfs.Common.{
  ℕ, ◌<◌, ◌≡◌, refl, sym, ◌∙◌, ap, true, false, none, List, [], ◌∷◌, ◌==◌, map, All, contains,
  Distinct, ok, is_some, arith, Bool-cases, Option-cases, inl, inr,
}
use ztierfs.Common.Dict.{lookup, insert, lookup-insert}
use ztierfs.Metadata.Schema.{Db, row_ok}
use ztierfs.Metadata.Blocks.{
  BlockInsert, new_row, insert_row, insert_rows, insert_payload, insert_payloads, insert_blocks,
}
use ztierfs.Metadata.Settle.{block_refs, RowsOk, insert-RowsOk}
use ztierfs.Store.Writes.{StoreState, insert_new}
use ztierfs.Store.Writes.HotFiles.{Kept, Kept-refl, Kept-trans}

-- What the INSERTs leave.
pub record Inserted (bs : List BlockInsert) (db db' : Db) : Type 0 where
  pub kept : Kept db db'
  pub present :
      (d : ℕ) → contains d (map (λ b. b.digest) bs) ≡ true → is_some (lookup d db'.blocks) ≡ true

-- A block that the CHECK constraints accept.
abbrev pub IsStorable : BlockInsert → Type 0
IsStorable b = (0 < b.raw_size) × (0 < b.stored_size)

new_row_ok : (b : BlockInsert) (now : ℕ) → IsStorable b → row_ok (new_row b now) ≡ true
unfolding row_ok
new_row_ok b now h = elim (Option-cases b.inline_payload) [
  | inl tier ↦ ground (arith, tier, h.0, h.1)
  | inr (p, within) ↦ ground (arith, within, h.0, h.1)
]

insert_row_lem :
    (b : BlockInsert) (now : ℕ) (db : Db)
    → lookup b.digest db.blocks ≡ none
    → IsStorable b
    → insert_row b now db ≡ ok (record db { blocks = insert b.digest (new_row b now) db.blocks })
unfolding insert_row
insert_row_lem b now db fresh h = ground (arith, fresh, new_row_ok b now h)

inserted-Kept :
    (b : BlockInsert) (now : ℕ) (db : Db)
    → RowsOk db.blocks
    → lookup b.digest db.blocks ≡ none
    → IsStorable b
    → Kept db (record db { blocks = insert b.digest (new_row b now) db.blocks })
inserted-Kept b now db r fresh h = record {
  chunks = refl;
  inodes = refl;
  rows = insert-RowsOk b.digest (new_row b now) db.blocks r (new_row_ok b now h);
  count = λ d. elim (Bool-cases (d == b.digest)) [
    | inl here ↦
        let p : d ≡ b.digest = ground arith in
        ground (arith, p, fresh, lookup-insert d b.digest (new_row b now) db.blocks)
    | inr other ↦ ground (arith, other, lookup-insert d b.digest (new_row b now) db.blocks)
  ];
  there = λ d k. ground (arith, k, lookup-insert d b.digest (new_row b now) db.blocks);
}

still_fresh :
    (b : BlockInsert) (bs : List BlockInsert) (now d : ℕ) (db : Db)
    → contains b.digest (map (λ x. x.digest) bs) ≡ false
    → contains d (map (λ x. x.digest) bs) ≡ true
    → is_some (lookup d db.blocks) ≡ false
    → is_some (lookup d (insert b.digest (new_row b now) db.blocks)) ≡ false
still_fresh b bs now d db u m h = elim (Bool-cases (d == b.digest)) [
  | inl here ↦ absurd (let p : d ≡ b.digest = ground arith in ground (arith, u, m, p))
  | inr other ↦ ground (arith, h, other, lookup-insert d b.digest (new_row b now) db.blocks)
]

insert_rows_lem :
    (bs : List BlockInsert) (now : ℕ) (db : Db)
    → RowsOk db.blocks
    → All IsStorable bs
    → Distinct (map (λ b. b.digest) bs)
    → ((d : ℕ) → contains d (map (λ b. b.digest) bs) ≡ true → is_some (lookup d db.blocks) ≡ false)
    → (db' : Db) × (insert_rows bs now db ≡ ok db') × Inserted bs db db'
unfolding insert_rows
insert_rows_lem [] now db r h u fresh =
    (db, refl, record { kept = Kept-refl db r; present = λ d m. cc })
insert_rows_lem (b ∷ bs) now db r h u fresh =
    let absent : lookup b.digest db.blocks ≡ none = ground (arith, fresh b.digest) in
    let db1 = record db { blocks = insert b.digest (new_row b now) db.blocks } in
    let k = inserted-Kept b now db r absent h.0 in
    let (db', done, rest) =
      insert_rows_lem bs now db1 k.rows h.1 u.1
        (λ d m. still_fresh b bs now d db u.0 m (fresh d (ground (arith, m)))) in
    (
      db',
      rw (insert_row_lem b now db absent h.0) done,
      record {
        kept = Kept-trans db db1 db' k rest.kept;
        present = λ d m. elim (Bool-cases (d == b.digest)) [
          | inl here ↦
              rest.kept.there d
                (ground (arith, here, lookup-insert d b.digest (new_row b now) db.blocks))
          | inr other ↦ rest.present d (ground (arith, m, other))
        ];
      },
    )

insert_payload-same :
    (b : BlockInsert) (db : Db)
    → ((insert_payload b db).blocks ≡ db.blocks)
      × ((insert_payload b db).file_chunks ≡ db.file_chunks)
      × ((insert_payload b db).inodes ≡ db.inodes)
insert_payload-same b db = elim (Option-cases b.inline_payload) [
  | inl tier ↦ (ground (arith, tier), ground (arith, tier), ground (arith, tier))
  | inr (p, within) ↦ (ground (arith, within), ground (arith, within), ground (arith, within))
]

insert_payloads-same :
    (bs : List BlockInsert) (db : Db)
    → ((insert_payloads bs db).blocks ≡ db.blocks)
      × ((insert_payloads bs db).file_chunks ≡ db.file_chunks)
      × ((insert_payloads bs db).inodes ≡ db.inodes)
unfolding insert_payloads
insert_payloads-same [] db = (refl, refl, refl)
insert_payloads-same (b ∷ bs) db =
    let one = insert_payload-same b db in
    let rest = insert_payloads-same bs (insert_payload b db) in
    (rest.0 ∙ one.0, rest.1 ∙ one.1, rest.2 ∙ one.2)

insert_blocks_lem :
    (bs : List BlockInsert) (now : ℕ) (db : Db)
    → RowsOk db.blocks
    → All IsStorable bs
    → Distinct (map (λ b. b.digest) bs)
    → ((d : ℕ) → contains d (map (λ b. b.digest) bs) ≡ true → is_some (lookup d db.blocks) ≡ false)
    → (db' : Db) × (insert_blocks bs now db ≡ ok db') × Inserted bs db db'
unfolding insert_blocks
insert_blocks_lem bs now db r h u fresh =
    let (db1, done, i) = insert_rows_lem bs now db r h u fresh in
    let same = insert_payloads-same bs db1 in
    (
      insert_payloads bs db1,
      rw done refl,
      record {
        kept = record {
          chunks = same.1 ∙ i.kept.chunks;
          inodes = same.2 ∙ i.kept.inodes;
          rows = subst RowsOk (sym same.0) i.kept.rows;
          count = λ d. ap (block_refs d) same.0 ∙ i.kept.count d;
          there = λ d k. ap (λ m. is_some (lookup d m)) same.0 ∙ i.kept.there d k;
        };
        present = λ d k. ap (λ m. is_some (lookup d m)) same.0 ∙ i.present d k;
      },
    )

pub insert_new_lem :
    (bs : List BlockInsert) (now : ℕ) (s : StoreState)
    → RowsOk s.db.blocks
    → All IsStorable bs
    → Distinct (map (λ b. b.digest) bs)
    → ((d : ℕ)
        → contains d (map (λ b. b.digest) bs) ≡ true
        → is_some (lookup d s.db.blocks) ≡ false)
    → (s' : StoreState) × (insert_new bs now s ≡ ok s')
      × Inserted bs s.db s'.db
      × (s'.disk ≡ s.disk)
unfolding insert_new
insert_new_lem [] now s r h u fresh =
    (s, refl, record { kept = Kept-refl s.db r; present = λ d m. cc }, refl)
insert_new_lem (b ∷ bs) now s r h u fresh =
    let (db', done, i) = insert_blocks_lem (b ∷ bs) now s.db r h u fresh in
    (record s { db = db' }, rw done refl, i, refl)
