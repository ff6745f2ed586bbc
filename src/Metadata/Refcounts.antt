-- ===== src/Metadata/Refcounts.antt =====
-- metadata/chunks.py and metadata/blocks.py together: `replace_file_chunks` succeeds, changes the
-- mapping as its arguments say, and keeps the reference counts those of the rows.
use ztierfs.Common.{
  ℕ, ◌+◌, ◌≡◌, ◌<◌, refl, ◌∙◌, ap, true, false, ◌&&◌, ◌||◌, Option, none, some, List, [], ◌∷◌, ◌++◌,
  ltb, ◌==◌, if◌then◌else◌, map, any_of, contains, Distinct, arith, total-keep, ok, is_some,
  Bool-cases, inl, inr,
}
use ztierfs.Common.Dict.{Dict, lookup}
use ztierfs.Metadata.Schema.{Block, Chunk, Db}
use ztierfs.Metadata.Blocks.{Deltas}
use ztierfs.Metadata.Chunks.{
  Replacements, keys, upserts, upsert_chunk, upsert_chunks, delete_chunk, count_of, distinct,
  deltas_over, chunk_deltas, is_empty_chunk, rewrite_chunks, replace_file_chunks, old_chunk_rows,
}
use ztierfs.Metadata.Chunks.Rows.{
  references, refers, upsert_rows, new_chunk_rows, references-new_chunk_rows,
  references-old_chunk_rows, touched,
}
use ztierfs.Metadata.Chunks.Mapping.{chunk_at, requested, chunk_at-new_chunk_rows}
use ztierfs.Metadata.Settle.{block_refs}
use ztierfs.Metadata.Deltas.{gain, loss, digests, AllThere, IsConsistent, apply_lem}

contains-distinct : (d : ℕ) (l : List ℕ) → contains d (distinct l) ≡ contains d l
unfolding distinct
contains-distinct d [] = refl
contains-distinct d (x ∷ l) = ground (arith, contains-distinct d l)

distinct-Distinct : (l : List ℕ) → Distinct (distinct l)
unfolding distinct
distinct-Distinct [] = tt
distinct-Distinct (x ∷ l) = ground (arith, distinct-Distinct l, contains-distinct x l)

contains-deltas_over :
    (d : ℕ) (old new ds : List ℕ)
    → contains d ds ≡ false
    → contains d (digests (deltas_over old new ds)) ≡ false
unfolding deltas_over
contains-deltas_over d old new [] h = refl
contains-deltas_over d old new (x ∷ ds) h = ground (arith, contains-deltas_over d old new ds)

deltas_over-Distinct :
    (old new ds : List ℕ) → Distinct ds → Distinct (digests (deltas_over old new ds))
unfolding deltas_over
deltas_over-Distinct old new [] u = tt
deltas_over-Distinct old new (x ∷ ds) u =
    ground (arith, deltas_over-Distinct old new ds u.1, contains-deltas_over x old new ds u.0)

-- What the changes over a list of digests add up to for one of them.
deltas_over-sums :
    (d : ℕ) (old new ds : List ℕ)
    → Distinct ds
    → gain d (deltas_over old new ds) + (if contains d ds then count_of d old else 0)
      ≡ loss d (deltas_over old new ds) + (if contains d ds then count_of d new else 0)
unfolding deltas_over
deltas_over-sums d old new [] u = refl
deltas_over-sums d old new (x ∷ ds) u = ground (arith, u.0, deltas_over-sums d old new ds u.1)

deltas_over-AllThere :
    (old new ds : List ℕ) (blocks : Dict Block)
    → ((d : ℕ) → contains d ds ≡ true → is_some (lookup d blocks) ≡ true)
    → AllThere (deltas_over old new ds) blocks
unfolding deltas_over
deltas_over-AllThere old new [] blocks h = tt
deltas_over-AllThere old new (x ∷ ds) blocks h =
    ground (arith, h x, deltas_over-AllThere old new ds blocks (λ d m. h d (ground arith)))

count_absent : (d : ℕ) (l : List ℕ) → contains d l ≡ false → count_of d l ≡ 0
count_absent d [] h = refl
count_absent d (x ∷ l) h = ground (arith, count_absent d l)

count_present : (d : ℕ) (l : List ℕ) → contains d l ≡ true → 0 < count_of d l
count_present d [] h = cc
count_present d (x ∷ l) h = ground (arith, count_present d l)

contains-append : (d : ℕ) (a b : List ℕ) → contains d (a ++ b) ≡ contains d a || contains d b
contains-append d [] b = refl
contains-append d (x ∷ a) b = ground (arith, contains-append d a b)

count_of-hashes :
    (d : ℕ) (rows : List Chunk) → count_of d (map (λ r. r.hash) rows) ≡ references d rows
count_of-hashes d [] = refl
count_of-hashes d (r ∷ rows) = ground (arith, count_of-hashes d rows)

-- The changes turn the old counts into the new ones.
chunk_deltas-sums :
    (d : ℕ) (old new : List ℕ)
    → gain d (chunk_deltas old new) + count_of d old
      ≡ loss d (chunk_deltas old new) + count_of d new
unfolding chunk_deltas
chunk_deltas-sums d old new = ground (
  arith,
  deltas_over-sums d old new (distinct (old ++ new)) (distinct-Distinct (old ++ new)),
  contains-distinct d (old ++ new),
  contains-append d old new,
  count_absent d old,
  count_absent d new,
)

-- The constraints hold for each row that is written.
abbrev Writable : Dict (ℕ × ℕ) → Dict Block → Type 0
Writable [] blocks = Unit
Writable ((i, (d, s)) ∷ ups) blocks =
    ((is_some (lookup d blocks) ≡ true) × (ltb 0 s ≡ true)) × Writable ups blocks

Writable-cons :
    (i s : ℕ) (o : Option ℕ) (rest : Dict (ℕ × ℕ)) (blocks : Dict Block)
    → is_some o && s == 0 ≡ false
    → ((d : ℕ) → o ≡ some d → is_some (lookup d blocks) ≡ true)
    → Writable rest blocks
    → Writable (elim o [ none ↦ rest | some d ↦ (i, (d, s)) ∷ rest ]) blocks
Writable-cons i s none rest blocks v h w = w
Writable-cons i s (some d) rest blocks v h w = ((h d refl, ground arith), w)

upserts-Writable :
    (rs : Replacements) (blocks : Dict Block)
    → any_of is_empty_chunk rs ≡ false
    → ((d : ℕ)
        → contains d (map (λ e. e.1.0) (upserts rs)) ≡ true
        → is_some (lookup d blocks) ≡ true)
    → Writable (upserts rs) blocks
unfolding upserts
upserts-Writable [] blocks v h = tt
upserts-Writable ((i, r) ∷ rs) blocks v h =
    Writable-cons i r.size r.digest (upserts rs) blocks (ground arith)
      (λ d e. h d (ground (arith, e)))
      (upserts-Writable rs blocks (ground arith) (λ d m. h d (ground arith)))

upsert_chunks_ok :
    (f : ℕ) (ups : Dict (ℕ × ℕ)) (db : Db)
    → is_some (lookup f db.inodes) ≡ true
    → Writable ups db.blocks
    → upsert_chunks f ups db ≡ ok (record db { file_chunks = upsert_rows f ups db.file_chunks })
unfolding upsert_chunks upsert_chunk upsert_rows
upsert_chunks_ok f [] db file w = refl
upsert_chunks_ok f ((i, (d, s)) ∷ ups) db file w = ground (
  arith,
  w.0.0,
  w.0.1,
  upsert_chunks_ok f ups
      (record db {
        file_chunks =
            record { file_id = f; chunk_index = i; hash = d; size = s }
            ∷ delete_chunk f i db.file_chunks;
      })
      file w.1,
)

-- What a caller of `replace_file_chunks` sees to: no index twice, no empty chunk, an inode for the
-- file, and a block for every new digest.
pub record IsReplaceable (f : ℕ) (rs : Replacements) (db : Db) : Type 0 where
  pub distinct_keys : Distinct (keys rs)
  pub no_empty : any_of is_empty_chunk rs ≡ false
  pub file : is_some (lookup f db.inodes) ≡ true
  pub blocks :
      (d : ℕ)
      → contains d (map (λ e. e.1.0) (upserts rs)) ≡ true
      → is_some (lookup d db.blocks) ≡ true

pub referenced_there :
    (d : ℕ) (db : Db)
    → IsConsistent db
    → 0 < references d db.file_chunks
    → is_some (lookup d db.blocks) ≡ true
referenced_there d db c h = ground (arith, c.counts d)

-- Every digest that a call counts has a block.
counted_there :
    (f : ℕ) (rs : Replacements) (cut : Option ℕ) (db : Db)
    → IsConsistent db
    → IsReplaceable f rs db
    → (d : ℕ)
    → contains d (
        distinct (
          map (λ r. r.hash) (old_chunk_rows f rs cut db.file_chunks)
          ++ map (λ e. e.1.0) (upserts rs)))
      ≡ true
    → is_some (lookup d db.blocks) ≡ true
counted_there f rs cut db c r d m = elim (Bool-cases (contains d (map (λ e. e.1.0) (upserts rs)))) [
  | inl new ↦ r.blocks d new
  | inr old ↦
      let rows = old_chunk_rows f rs cut db.file_chunks in
      let hashes = map (λ x. x.hash) rows in
      let fresh = map (λ e. e.1.0) (upserts rs) in
      let here : contains d hashes ≡ true =
        ground (arith, contains-distinct d (hashes ++ fresh), contains-append d hashes fresh) in
      referenced_there d db c (
        omega (
          arith,
          count_present d hashes here,
          count_of-hashes d rows,
          references-old_chunk_rows d f rs cut db.file_chunks,
          total-keep (refers d) (touched f rs cut) db.file_chunks,
        ))
]

deltas_there :
    (f : ℕ) (rs : Replacements) (cut : Option ℕ) (db : Db)
    → IsConsistent db
    → IsReplaceable f rs db
    → AllThere
        (chunk_deltas
          (map (λ r. r.hash) (old_chunk_rows f rs cut db.file_chunks))
          (map (λ e. e.1.0) (upserts rs)))
        db.blocks
unfolding chunk_deltas
deltas_there f rs cut db c r =
    let old = map (λ x. x.hash) (old_chunk_rows f rs cut db.file_chunks) in
    let new = map (λ e. e.1.0) (upserts rs) in
    deltas_over-AllThere old new (distinct (old ++ new)) db.blocks (counted_there f rs cut db c r)

chunk_deltas-Distinct : (old new : List ℕ) → Distinct (digests (chunk_deltas old new))
unfolding chunk_deltas
chunk_deltas-Distinct old new =
    deltas_over-Distinct old new (distinct (old ++ new)) (distinct-Distinct (old ++ new))

-- The database after the three statements that change `file_chunks`.
abbrev rewritten : ℕ → Replacements → Option ℕ → Db → Db
rewritten f rs cut db = record db { file_chunks = new_chunk_rows f rs cut db.file_chunks }

rewrite_chunks_ok :
    (f : ℕ) (rs : Replacements) (cut : Option ℕ) (db : Db)
    → IsReplaceable f rs db
    → rewrite_chunks f rs cut db ≡ ok (rewritten f rs cut db)
unfolding rewrite_chunks new_chunk_rows
rewrite_chunks_ok f rs cut db r =
    upsert_chunks_ok f (upserts rs) _ r.file (upserts-Writable rs db.blocks r.no_empty r.blocks)

abbrev old_hashes : ℕ → Replacements → Option ℕ → Db → List ℕ
old_hashes f rs cut db = map (λ r. r.hash) (old_chunk_rows f rs cut db.file_chunks)

abbrev new_hashes : Replacements → List ℕ
new_hashes rs = map (λ e. e.1.0) (upserts rs)

-- The counts and the changes add up to the counts of the new rows.
rewritten_sums :
    (f : ℕ) (rs : Replacements) (cut : Option ℕ) (db : Db)
    → IsConsistent db
    → IsReplaceable f rs db
    → (d : ℕ)
    → block_refs d db.blocks + gain d (chunk_deltas (old_hashes f rs cut db) (new_hashes rs))
      ≡ references d (new_chunk_rows f rs cut db.file_chunks)
        + loss d (chunk_deltas (old_hashes f rs cut db) (new_hashes rs))
rewritten_sums f rs cut db c r d = omega (
  arith,
  c.counts d,
  chunk_deltas-sums d (old_hashes f rs cut db) (new_hashes rs),
  count_of-hashes d (old_chunk_rows f rs cut db.file_chunks),
  references-new_chunk_rows d f rs cut db.file_chunks r.distinct_keys,
)

-- The same as below, with the entries of the directories.
pub replace_file_chunks_full :
    (f : ℕ) (rs : Replacements) (cut : Option ℕ) (now : ℕ) (db : Db)
    → IsConsistent db
    → IsReplaceable f rs db
    → (deltas : Deltas) × (db' : Db) × (replace_file_chunks f rs cut now db ≡ ok (deltas, db'))
      × IsConsistent db'
      × (db'.inodes ≡ db.inodes)
      × (db'.dir_entries ≡ db.dir_entries)
      × ((g j : ℕ)
          → chunk_at g j db'.file_chunks ≡ (
              if f == g
              then requested rs cut j (chunk_at g j db.file_chunks)
              else chunk_at g j db.file_chunks))
unfolding replace_file_chunks
replace_file_chunks_full f rs cut now db c r =
    let deltas = chunk_deltas (old_hashes f rs cut db) (new_hashes rs) in
    let (db', done, good) =
      apply_lem deltas now (rewritten f rs cut db) c.rows (deltas_there f rs cut db c r)
        (chunk_deltas-Distinct (old_hashes f rs cut db) (new_hashes rs))
        (rewritten_sums f rs cut db c r) in
    (
      deltas,
      db',
      rw (r.no_empty, rewrite_chunks_ok f rs cut db r, done) refl,
      good.0,
      good.2,
      good.3,
      λ g j.
          ap (chunk_at g j) good.1
          ∙ chunk_at-new_chunk_rows g j f rs cut db.file_chunks r.distinct_keys,
    )

-- On a consistent database `replace_file_chunks` raises nothing when its caller keeps the contract.
-- Every index of the file then has what the arguments ask for and every other file is untouched, the
-- count of every block is again the number of rows that refer to it, and the inodes are the same.
pub replace_file_chunks_lem :
    (f : ℕ) (rs : Replacements) (cut : Option ℕ) (now : ℕ) (db : Db)
    → IsConsistent db
    → IsReplaceable f rs db
    → (deltas : Deltas) × (db' : Db) × (replace_file_chunks f rs cut now db ≡ ok (deltas, db'))
      × IsConsistent db'
      × (db'.inodes ≡ db.inodes)
      × ((g j : ℕ)
          → chunk_at g j db'.file_chunks ≡ (
              if f == g
              then requested rs cut j (chunk_at g j db.file_chunks)
              else chunk_at g j db.file_chunks))
replace_file_chunks_lem f rs cut now db c r =
    let (deltas, db', done, c', inodes, entries, mapped) =
      replace_file_chunks_full f rs cut now db c r in
    (deltas, db', done, c', inodes, mapped)
