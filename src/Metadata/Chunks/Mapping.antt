-- ===== src/Metadata/Chunks/Mapping.antt =====
-- metadata/chunks.py: which block each place of each file is mapped to after `replace_file_chunks`.
use ztierfs.Common.{
  ℕ, ◌≡◌, refl, false, ◌&&◌, Option, none, some, List, [], ◌∷◌, ◌==◌, if◌then◌else◌, contains,
  arith, Distinct,
}
use ztierfs.Common.Dict.{Dict, lookup}
use ztierfs.Metadata.Schema.{Chunk}
use ztierfs.Metadata.Chunks.{
  Replacements, keys, at_index, delete_indexes, upserts, delete_file_chunks_from, delete_chunk,
  delete_chunks,
}
use ztierfs.Metadata.Chunks.Rows.{
  past_cut, upsert_rows, upserts-Distinct, contains-upserts, new_chunk_rows,
}

-- The digest and the size that the file has at the index.
unfoldable pub chunk_at : ℕ → ℕ → List Chunk → Option (ℕ × ℕ)
chunk_at g j [] = none
chunk_at g j (r ∷ rows) = if at_index g j r then some (r.hash, r.size) else chunk_at g j rows

chunk_at-delete_chunk :
    (g j f i : ℕ) (rows : List Chunk)
    → chunk_at g j (delete_chunk f i rows) ≡ (if f == g && i == j then none else chunk_at g j rows)
unfolding chunk_at
chunk_at-delete_chunk g j f i [] = ground arith
chunk_at-delete_chunk g j f i (r ∷ rows) = ground (arith, chunk_at-delete_chunk g j f i rows)

chunk_at-delete_chunks :
    (g j f : ℕ) (is : List ℕ) (rows : List Chunk)
    → chunk_at g j (delete_chunks f is rows)
      ≡ (if f == g && contains j is then none else chunk_at g j rows)
unfolding delete_chunks
chunk_at-delete_chunks g j f [] rows = ground arith
chunk_at-delete_chunks g j f (i ∷ is) rows = ground (
  arith,
  chunk_at-delete_chunks g j f is (delete_chunk f i rows),
  chunk_at-delete_chunk g j f i rows,
)

chunk_at-delete_from :
    (g j f : ℕ) (cut : Option ℕ) (rows : List Chunk)
    → chunk_at g j (delete_file_chunks_from f cut rows)
      ≡ (if f == g && past_cut cut j then none else chunk_at g j rows)
unfolding chunk_at delete_file_chunks_from
chunk_at-delete_from g j f none rows = ground arith
chunk_at-delete_from g j f (some c) [] = ground arith
chunk_at-delete_from g j f (some c) (r ∷ rows) =
    ground (arith, chunk_at-delete_from g j f (some c) rows)

lookup_absent {ℓ} :
    {V : Type ℓ} (j : ℕ) (m : Dict V) → contains j (keys m) ≡ false → lookup j m ≡ none
lookup_absent j [] h = refl
lookup_absent j ((i, v) ∷ m) h = ground (arith, lookup_absent j m)

chunk_at-upsert_rows :
    (g j f : ℕ) (ups : Dict (ℕ × ℕ)) (rows : List Chunk)
    → Distinct (keys ups)
    → chunk_at g j (upsert_rows f ups rows) ≡ (
        if f == g
        then elim (lookup j ups) [ none ↦ chunk_at g j rows | some e ↦ some e ]
        else chunk_at g j rows)
unfolding upsert_rows chunk_at
chunk_at-upsert_rows g j f [] rows u = ground arith
chunk_at-upsert_rows g j f ((i, (d, s)) ∷ ups) rows u = ground (
  arith,
  u.0,
  lookup_absent i ups,
  chunk_at-upsert_rows g j f ups
      (record { file_id = f; chunk_index = i; hash = d; size = s } ∷ delete_chunk f i rows) u.1,
  chunk_at-delete_chunk g j f i rows,
)

-- What the arguments of `replace_file_chunks` ask for at an index of the file: a replacement goes
-- before the cut.
abbrev pub requested : Replacements → Option ℕ → ℕ → Option (ℕ × ℕ) → Option (ℕ × ℕ)
requested rs cut j old = elim (lookup j rs) [
  | none ↦ if past_cut cut j then none else old
  | some r ↦ elim r.digest [ none ↦ none | some d ↦ some (d, r.size) ]
]

contains-delete_indexes :
    (i : ℕ) (cut : Option ℕ) (rs : Replacements)
    → contains i (keys rs) ≡ false
    → contains i (delete_indexes cut rs) ≡ false
unfolding delete_indexes
contains-delete_indexes i cut [] h = refl
contains-delete_indexes i none ((j, r) ∷ rs) h = ground (arith, contains-delete_indexes i none rs)
contains-delete_indexes i (some c) ((j, r) ∷ rs) h =
    ground (arith, contains-delete_indexes i (some c) rs)

lookup-upserts :
    (j : ℕ) (cut : Option ℕ) (rs : Replacements) (old : Option (ℕ × ℕ))
    → Distinct (keys rs)
    → (elim (lookup j (upserts rs)) [
      | none ↦
          if contains j (delete_indexes cut rs) then none else if past_cut cut j then none else old
      | some e ↦ some e
    ])
      ≡ requested rs cut j old
unfolding upserts delete_indexes
lookup-upserts j none [] old u = ground arith
lookup-upserts j none ((i, r) ∷ rs) old u = ground (
  arith,
  u.0,
  lookup-upserts j none rs old u.1,
  lookup_absent i (upserts rs),
  contains-upserts i rs,
  contains-delete_indexes i none rs,
)
lookup-upserts j (some c) [] old u = ground arith
lookup-upserts j (some c) ((i, r) ∷ rs) old u = ground (
  arith,
  u.0,
  lookup-upserts j (some c) rs old u.1,
  lookup_absent i (upserts rs),
  contains-upserts i rs,
  contains-delete_indexes i (some c) rs,
)

-- After a call every index of the file has what the arguments ask for, and every other file is as it was.
pub chunk_at-new_chunk_rows :
    (g j f : ℕ) (rs : Replacements) (cut : Option ℕ) (rows : List Chunk)
    → Distinct (keys rs)
    → chunk_at g j (new_chunk_rows f rs cut rows)
      ≡ (if f == g then requested rs cut j (chunk_at g j rows) else chunk_at g j rows)
unfolding new_chunk_rows
chunk_at-new_chunk_rows g j f rs cut rows u = ground (
  arith,
  chunk_at-upsert_rows g j f (upserts rs)
      (delete_chunks f (delete_indexes cut rs) (delete_file_chunks_from f cut rows))
      (upserts-Distinct rs u),
  chunk_at-delete_chunks g j f (delete_indexes cut rs) (delete_file_chunks_from f cut rows),
  chunk_at-delete_from g j f cut rows,
  lookup-upserts j cut rs (chunk_at g j rows) u,
)
