-- ===== src/Store/Truncating/Removing.antt =====
-- file_content.py: `remove_file_chunks` takes a file's chunks away and leaves the rest.
use ztierfs.Common.{
  ℕ, ◌≡◌, refl, ap, ◌∙◌, true, not, none, some, List, [], ◌∷◌, leb, ◌==◌, if◌then◌else◌, keep, ok,
  bind-eq_ok, is_some, arith, Bool-cases, inl, inr,
}
use ztierfs.Common.Dict.{lookup}
use ztierfs.Metadata.Schema.{Chunk, Db}
use mathlib.Core.Path.{subst}
use ztierfs.Metadata.Chunks.{upserts, replace_file_chunks}
use ztierfs.Metadata.Thinning.{Thinned}
use ztierfs.Metadata.Thinning.Replacing.{replace_file_chunks-Thinned}
use ztierfs.Metadata.Chunks.Mapping.{chunk_at}
use ztierfs.Metadata.Deltas.{IsConsistent}
use ztierfs.Metadata.Refcounts.{IsReplaceable, replace_file_chunks_full}
use ztierfs.Store.Truncating.{remove_file_chunks}

-- What `remove_file_chunks` leaves.
pub record Removed (f first : ℕ) (db db' : Db) : Type 0 where
  pub consistent : IsConsistent db'
  pub inodes : db'.inodes ≡ db.inodes
  pub entries : db'.dir_entries ≡ db.dir_entries
  pub mapped :
      (g j : ℕ)
      → chunk_at g j db'.file_chunks ≡ (
          if f == g
          then (if leb first j then none else chunk_at g j db.file_chunks)
          else chunk_at g j db.file_chunks)

nothing-IsReplaceable :
    (f : ℕ) (db : Db) → is_some (lookup f db.inodes) ≡ true → IsReplaceable f [] db
unfolding upserts
nothing-IsReplaceable f db there = record {
  distinct_keys = tt;
  no_empty = refl;
  file = there;
  blocks = λ d m. cc;
}

pub remove_file_chunks_lem :
    (f first now : ℕ) (db : Db)
    → IsConsistent db
    → is_some (lookup f db.inodes) ≡ true
    → (db' : Db) × (remove_file_chunks f first now db ≡ ok db') × Removed f first db db'
unfolding remove_file_chunks
remove_file_chunks_lem f first now db c there =
    let (deltas, db', done, c', inodes, entries, mapped) =
      replace_file_chunks_full f [] (some first) now db c (nothing-IsReplaceable f db there) in
    (
      db',
      rw done refl,
      record {
        consistent = c';
        inodes = inodes;
        entries = entries;
        mapped = λ g j. mapped g j ∙ ground arith;
      },
    )

pub remove_file_chunks-Thinned :
    (f first now : ℕ) (db db' : Db)
    → remove_file_chunks f first now db ≡ ok db'
    → Thinned db.blocks db.block_payloads db'
unfolding remove_file_chunks
remove_file_chunks-Thinned f first now db db' h =
    let (r, done, last) = bind-eq_ok (replace_file_chunks f [] (some first) now db) _ db' h in
    let same : r.1 ≡ db' = ground (arith, last) in
    subst (Thinned db.blocks db.block_payloads) same
      (replace_file_chunks-Thinned f [] (some first) now db r.1 r.0 done)

-- A file that no index is mapped for has no rows.
pub no_rows :
    (f : ℕ) (rows : List Chunk)
    → ((j : ℕ) → chunk_at f j rows ≡ none)
    → keep (λ r. not (r.file_id == f)) rows ≡ rows
unfolding chunk_at
no_rows f [] h = refl
no_rows f (r ∷ rows) h = elim (Bool-cases (r.file_id == f)) [
  | inl hit ↦ absurd (ground (arith, hit, h r.chunk_index))
  | inr other ↦ rw other (ap (λ l. r ∷ l) (no_rows f rows (λ j. ground (arith, other, h j))))
]
