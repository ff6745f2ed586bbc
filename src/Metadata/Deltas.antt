-- ===== src/Metadata/Deltas.antt =====
-- metadata/blocks.py: the two loops of `apply_block_refcount_deltas`.
use ztierfs.Common.{
  ℕ, zero, suc, ◌+◌, ◌≡◌, ◌≢◌, refl, sym, ◌∙◌, ap, true, false, some, List, [], ◌∷◌, ◌==◌,
  if◌then◌else◌, map, contains, Distinct, arith, ok, is_some, Option-cases, Bool-cases, inl, inr,
}
use ztierfs.Common.Dict.{Dict, lookup, insert, lookup-insert}
use ztierfs.Common.Int.{pos, negsuc}
use ztierfs.Metadata.Schema.{Block, Db, row_ok, update_block}
use ztierfs.Metadata.Blocks.{
  Deltas, add_refs, raise_counts, lower_counts, apply_block_refcount_deltas,
}
use ztierfs.Metadata.Chunks.Rows.{references}
use ztierfs.Metadata.Settle.{block_refs, RowsOk, Settled, insert-RowsOk, lower_one_settles}

-- What the positive, and what the negative changes add up to for a digest.
abbrev pub gain : ℕ → Deltas → ℕ
gain d [] = 0
gain d ((e, pos n) ∷ deltas) = (if e == d then n else 0) + gain d deltas
gain d ((e, negsuc n) ∷ deltas) = gain d deltas

abbrev pub loss : ℕ → Deltas → ℕ
loss d [] = 0
loss d ((e, pos n) ∷ deltas) = loss d deltas
loss d ((e, negsuc n) ∷ deltas) = (if e == d then suc n else 0) + loss d deltas

abbrev pub digests : Deltas → List ℕ
digests = map (λ e. e.0)

-- The positive updates have been made.
pub record Raised (deltas : Deltas) (db db' : Db) : Type 0 where
  pub chunks : db'.file_chunks ≡ db.file_chunks
  pub inodes : db'.inodes ≡ db.inodes
  pub entries : db'.dir_entries ≡ db.dir_entries
  pub rows : RowsOk db'.blocks
  pub count : (d : ℕ) → block_refs d db'.blocks ≡ block_refs d db.blocks + gain d deltas

-- Every digest that gains references has a block.
abbrev pub AllThere : Deltas → Dict Block → Type 0
AllThere [] blocks = Unit
AllThere ((e, pos n) ∷ deltas) blocks = (is_some (lookup e blocks) ≡ true) × AllThere deltas blocks
AllThere ((e, negsuc n) ∷ deltas) blocks = AllThere deltas blocks

add_refs_ok : (n : ℕ) (b : Block) → row_ok b ≡ true → row_ok (add_refs n b) ≡ true
unfolding row_ok
add_refs_ok n b h = h

AllThere-insert :
    (deltas : Deltas) (d : ℕ) (b : Block) (blocks : Dict Block)
    → AllThere deltas blocks
    → AllThere deltas (insert d b blocks)
AllThere-insert [] d b blocks h = tt
AllThere-insert ((e, pos n) ∷ deltas) d b blocks h =
    (ground (arith, h.0, lookup-insert e d b blocks), AllThere-insert deltas d b blocks h.1)
AllThere-insert ((e, negsuc n) ∷ deltas) d b blocks h = AllThere-insert deltas d b blocks h

bump : (e n : ℕ) (b : Block) (db : Db) → Db
bump e n b db = record db { blocks = insert e (add_refs n b) db.blocks }

bump_ok :
    (e n : ℕ) (b : Block) (db : Db)
    → RowsOk db.blocks
    → lookup e db.blocks ≡ some b
    → update_block e (add_refs n) db ≡ ok (bump e n b db)
unfolding update_block bump
bump_ok e n b db h found = ground (arith, add_refs_ok n b (h e b found))

bump-RowsOk :
    (e n : ℕ) (b : Block) (db : Db)
    → RowsOk db.blocks
    → lookup e db.blocks ≡ some b
    → RowsOk (bump e n b db).blocks
unfolding bump
bump-RowsOk e n b db h found =
    insert-RowsOk e (add_refs n b) db.blocks h (add_refs_ok n b (h e b found))

bump-AllThere :
    (deltas : Deltas) (e n : ℕ) (b : Block) (db : Db)
    → AllThere deltas db.blocks
    → AllThere deltas (bump e n b db).blocks
unfolding bump
bump-AllThere deltas e n b db t = AllThere-insert deltas e (add_refs n b) db.blocks t

raise_counts_step :
    (e n : ℕ) (deltas : Deltas) (b : Block) (db db' : Db)
    → lookup e db.blocks ≡ some b
    → Raised deltas (bump e n b db) db'
    → Raised ((e, pos n) ∷ deltas) db db'
unfolding bump
raise_counts_step e n deltas b db db' found r = record {
  chunks = r.chunks;
  inodes = r.inodes;
  entries = r.entries;
  rows = r.rows;
  count = λ d. ground (arith, r.count d, lookup-insert d e (add_refs n b) db.blocks);
}

-- The positive updates succeed, and add to each count what the digest gains.
raise_counts_lem :
    (deltas : Deltas) (db : Db)
    → RowsOk db.blocks
    → AllThere deltas db.blocks
    → (db' : Db) × (raise_counts deltas db ≡ ok db') × Raised deltas db db'
unfolding raise_counts
raise_counts_lem [] db h t = (
  db,
  refl,
  record { chunks = refl; inodes = refl; entries = refl; rows = h; count = λ d. omega arith },
)
raise_counts_lem ((e, pos zero) ∷ deltas) db h t =
    let (db', done, r) = raise_counts_lem deltas db h t.1 in
    (
      db',
      done,
      record {
        chunks = r.chunks;
        inodes = r.inodes;
        entries = r.entries;
        rows = r.rows;
        count = λ d. ground (arith, r.count d);
      },
    )
raise_counts_lem ((e, pos (suc n)) ∷ deltas) db h t = elim (Option-cases (lookup e db.blocks)) [
  | inl missing ↦ absurd (ground (arith, t.0))
  | inr (b, found) ↦
      let (db', done, r) =
        raise_counts_lem deltas (bump e (suc n) b db) (bump-RowsOk e (suc n) b db h found)
          (bump-AllThere deltas e (suc n) b db t.1) in
      (
        db',
        rw (bump_ok e (suc n) b db h found) done,
        raise_counts_step e (suc n) deltas b db db' found r,
      )
]
raise_counts_lem ((e, negsuc n) ∷ deltas) db h t =
    let (db', done, r) = raise_counts_lem deltas db h t in
    (
      db',
      done,
      record {
        chunks = r.chunks;
        inodes = r.inodes;
        entries = r.entries;
        rows = r.rows;
        count = r.count;
      },
    )

-- The counts of the blocks are those of the rows of `file_chunks`, and no CHECK is broken.
pub record IsConsistent (db : Db) : Type 0 where
  pub counts : (d : ℕ) → block_refs d db.blocks ≡ references d db.file_chunks
  pub rows : RowsOk db.blocks

loss_absent : (d : ℕ) (deltas : Deltas) → contains d (digests deltas) ≡ false → loss d deltas ≡ 0
loss_absent d [] h = refl
loss_absent d ((e, pos n) ∷ deltas) h = ground (arith, loss_absent d deltas)
loss_absent d ((e, negsuc n) ∷ deltas) h = ground (arith, loss_absent d deltas)

still_same :
    (e n : ℕ) (deltas : Deltas) (rows : Dict Block) (db db1 : Db)
    → Settled e (references e db.file_chunks) db db1
    → contains e (digests deltas) ≡ false
    → ((d : ℕ)
        → contains d (digests ((e, negsuc n) ∷ deltas)) ≡ true
        → lookup d db.blocks ≡ lookup d rows)
    → (d : ℕ) → contains d (digests deltas) ≡ true
    → lookup d db1.blocks ≡ lookup d rows
still_same e n deltas rows db db1 s absent same d m =
    let ne : d ≢ e = (λ p. ground (arith, ap (λ x. contains x (digests deltas)) p)) in
    s.others d ne ∙ same d (ground arith)

still_counted :
    (e n : ℕ) (deltas : Deltas) (db db1 : Db)
    → Settled e (references e db.file_chunks) db db1
    → contains e (digests deltas) ≡ false
    → ((d : ℕ)
        → block_refs d db.blocks ≡ references d db.file_chunks + loss d ((e, negsuc n) ∷ deltas))
    → (d : ℕ) → block_refs d db1.blocks ≡ references d db1.file_chunks + loss d deltas
still_counted e n deltas db db1 s absent c d = elim (Bool-cases (d == e)) [
  | inl here ↦
      let p : d ≡ e = ground arith in
      rw (p, s.chunks) (ground (arith, s.count, loss_absent e deltas absent))
  | inr other ↦
      let ne : d ≢ e = (λ p. ground arith) in rw s.chunks (ground (arith, s.others d ne, c d))
]

-- The loop over the digests that lose references ends in counts that are those of the rows.
lower_counts_lem :
    (rows : Dict Block) (now : ℕ) (deltas : Deltas) (db : Db)
    → RowsOk db.blocks
    → Distinct (digests deltas)
    → ((d : ℕ) → contains d (digests deltas) ≡ true → lookup d db.blocks ≡ lookup d rows)
    → ((d : ℕ) → block_refs d db.blocks ≡ references d db.file_chunks + loss d deltas)
    → (db' : Db) × (lower_counts rows now deltas db ≡ ok db')
      × (IsConsistent db'
          × (db'.file_chunks ≡ db.file_chunks)
          × (db'.inodes ≡ db.inodes)
          × (db'.dir_entries ≡ db.dir_entries))
unfolding lower_counts
lower_counts_lem rows now [] db h u same c =
    (db, refl, (record { counts = λ d. omega (arith, c d); rows = h }, refl, refl, refl))
lower_counts_lem rows now ((e, pos n) ∷ deltas) db h u same c =
    lower_counts_lem rows now deltas db h u.1 (λ d m. same d (ground arith)) c
lower_counts_lem rows now ((e, negsuc n) ∷ deltas) db h u same c =
    let (db1, one, s) =
      lower_one_settles rows e now n db h (same e (ground arith))
        (ground (arith, c e, loss_absent e deltas u.0)) in
    let (db', done, good) =
      lower_counts_lem rows now deltas db1 s.rows u.1
        (λ d m. still_same e n deltas rows db db1 s u.0 same d m)
        (λ d. still_counted e n deltas db db1 s u.0 c d) in
    (db', rw one done, (good.0, good.1 ∙ s.chunks, good.2 ∙ s.inodes, good.3 ∙ s.entries))

-- Both loops: if the counts and the changes add up to the counts of the rows, the call succeeds and
-- leaves a consistent database.
pub apply_lem :
    (deltas : Deltas) (now : ℕ) (db : Db)
    → RowsOk db.blocks
    → AllThere deltas db.blocks
    → Distinct (digests deltas)
    → ((d : ℕ)
        → block_refs d db.blocks + gain d deltas ≡ references d db.file_chunks + loss d deltas)
    → (db' : Db) × (apply_block_refcount_deltas deltas now db ≡ ok db')
      × (IsConsistent db'
          × (db'.file_chunks ≡ db.file_chunks)
          × (db'.inodes ≡ db.inodes)
          × (db'.dir_entries ≡ db.dir_entries))
unfolding apply_block_refcount_deltas
apply_lem deltas now db h t u c =
    let (db1, raised, r) = raise_counts_lem deltas db h t in
    let (db', done, good) =
      lower_counts_lem db1.blocks now deltas db1 r.rows u (λ d m. refl)
        (λ d. r.count d ∙ c d ∙ ap (λ x. references d x + loss d deltas) (sym r.chunks)) in
    (db', rw raised done, (good.0, good.1 ∙ r.chunks, good.2 ∙ r.inodes, good.3 ∙ r.entries))
