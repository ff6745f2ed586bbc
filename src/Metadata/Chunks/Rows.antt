-- ===== src/Metadata/Chunks/Rows.antt =====
-- metadata/chunks.py: the rows of `file_chunks` before and after `replace_file_chunks`, counted by
-- digest.
use ztierfs.Common.{
  ℕ, ◌+◌, ◌≡◌, refl, sym, ap, ◌∙◌, Bool, true, false, not, ◌&&◌, ◌||◌, Option, none, some, List, [],
  ◌∷◌, leb, ltb, ◌==◌, if◌then◌else◌, keep, total, contains, map, arith, Distinct, keep-keep,
  keep-congr, total-keep, total-keep_disjoint, total-append,
}
use ztierfs.Common.Dict.{Dict}
use ztierfs.Metadata.Schema.{Chunk}
use ztierfs.Metadata.Chunks.{
  Replacements, keys, at_index, at_indexes, from_index, extra_indexes, old_chunk_rows,
  delete_indexes, upserts, delete_file_chunks_from, delete_chunk, delete_chunks, count_of,
}

abbrev pub refers : ℕ → Chunk → ℕ
refers d r = if r.hash == d then 1 else 0

-- How many rows refer to the digest.
abbrev pub references : ℕ → List Chunk → ℕ
references d = total (refers d)

-- `delete_from is not None and chunk_index >= delete_from`
abbrev pub past_cut : Option ℕ → ℕ → Bool
past_cut none i = false
past_cut (some c) i = leb c i

-- The rows that a call replaces or removes.
abbrev pub touched : ℕ → Replacements → Option ℕ → Chunk → Bool
touched f rs cut r =
    r.file_id == f && (past_cut cut r.chunk_index || contains r.chunk_index (keys rs))

contains-keep : (i : ℕ) (p : ℕ → Bool) (l : List ℕ) → contains i (keep p l) ≡ contains i l && p i
contains-keep i p [] = refl
contains-keep i p (j ∷ l) = ground (arith, contains-keep i p l)

-- No row of the tail of the file stands at an index below the cut.
covered_below :
    (f c i : ℕ) (rows : List Chunk)
    → ltb i c ≡ true
    → contains i (map (λ r. r.chunk_index) (keep (from_index f c) rows)) ≡ false
covered_below f c i [] h = refl
covered_below f c i (r ∷ rows) h = ground (arith, covered_below f c i rows h)

extra_below :
    (f c : ℕ) (rows : List Chunk) (ks : List ℕ) (r : Chunk)
    → from_index f c r && at_indexes f (extra_indexes c (keep (from_index f c) rows) ks) r ≡ false
extra_below f c rows ks r = ground (
  arith,
  contains-keep r.chunk_index
      (λ i. ltb i c && not (contains i (map (λ x. x.chunk_index) (keep (from_index f c) rows)))) ks,
)

old_touched :
    (f c : ℕ) (rs : Replacements) (rows : List Chunk) (r : Chunk)
    → from_index f c r || at_indexes f (extra_indexes c (keep (from_index f c) rows) (keys rs)) r
      ≡ touched f rs (some c) r
old_touched f c rs rows r = ground (
  arith,
  covered_below f c r.chunk_index rows,
  contains-keep r.chunk_index
      (λ i. ltb i c && not (contains i (map (λ x. x.chunk_index) (keep (from_index f c) rows))))
      (keys rs),
)

-- `_old_chunk_rows` reads every touched row once.
pub references-old_chunk_rows :
    (d f : ℕ) (rs : Replacements) (cut : Option ℕ) (rows : List Chunk)
    → references d (old_chunk_rows f rs cut rows) ≡ references d (keep (touched f rs cut) rows)
unfolding old_chunk_rows
references-old_chunk_rows d f rs none rows =
    ap (references d) (keep-congr (at_indexes f (keys rs)) (touched f rs none) rows (λ r. refl))
references-old_chunk_rows d f rs (some c) rows =
    let tail = keep (from_index f c) rows in
    let extra = at_indexes f (extra_indexes c tail (keys rs)) in
    total-append (refers d) tail (keep extra rows)
    ∙ total-keep_disjoint (refers d) (from_index f c) extra rows (extra_below f c rows (keys rs))
    ∙ ap (references d) (
        keep-congr (λ r. from_index f c r || extra r) (touched f rs (some c)) rows
          (old_touched f c rs rows))

keep-delete_chunk :
    (f i : ℕ) (is : List ℕ) (rows : List Chunk)
    → keep (λ r. not (at_indexes f is r)) (delete_chunk f i rows)
      ≡ keep (λ r. not (at_indexes f (i ∷ is) r)) rows
keep-delete_chunk f i is rows =
    keep-keep (λ r. not (at_indexes f is r)) (λ r. not (at_index f i r)) rows
    ∙ keep-congr _ _ rows (λ r. ground arith)

keep_all : (p : Chunk → Bool) (rows : List Chunk) → ((r : Chunk) → p r ≡ true) → keep p rows ≡ rows
keep_all p [] h = refl
keep_all p (r ∷ rows) h = ground (arith, h r, keep_all p rows h)

pub delete_chunks-keep :
    (f : ℕ) (is : List ℕ) (rows : List Chunk)
    → delete_chunks f is rows ≡ keep (λ r. not (at_indexes f is r)) rows
unfolding delete_chunks
delete_chunks-keep f [] rows =
    sym (keep_all (λ r. not (at_indexes f [] r)) rows (λ r. ground arith))
delete_chunks-keep f (i ∷ is) rows =
    delete_chunks-keep f is (delete_chunk f i rows) ∙ keep-delete_chunk f i is rows

-- A replaced index is one that is deleted by itself, one that is written, or one past the cut.
contains-indexes :
    (i : ℕ) (cut : Option ℕ) (rs : Replacements)
    → past_cut cut i || (contains i (delete_indexes cut rs) || contains i (keys (upserts rs)))
      ≡ past_cut cut i || contains i (keys rs)
unfolding delete_indexes upserts
contains-indexes i cut [] = refl
contains-indexes i none ((j, r) ∷ rs) = ground (arith, contains-indexes i none rs)
contains-indexes i (some c) ((j, r) ∷ rs) = ground (arith, contains-indexes i (some c) rs)

-- The rows that `upsert_chunks` leaves, where no constraint stands in the way.
unfoldable pub upsert_rows : ℕ → Dict (ℕ × ℕ) → List Chunk → List Chunk
upsert_rows f [] rows = rows
upsert_rows f ((i, (d, s)) ∷ ups) rows =
    upsert_rows f ups
      (record { file_id = f; chunk_index = i; hash = d; size = s } ∷ delete_chunk f i rows)

references-upsert_rows :
    (d f : ℕ) (ups : Dict (ℕ × ℕ)) (rows : List Chunk)
    → Distinct (keys ups)
    → references d (upsert_rows f ups rows)
      ≡ references d (keep (λ r. not (at_indexes f (keys ups) r)) rows)
        + count_of d (map (λ e. e.1.0) ups)
unfolding upsert_rows
references-upsert_rows d f [] rows u =
    ground
      (arith, keep_all (λ r. not (at_indexes f (keys {V = ℕ × ℕ} []) r)) rows (λ r. ground arith))
references-upsert_rows d f ((i, (x, s)) ∷ ups) rows u = ground (
  arith,
  u.0,
  references-upsert_rows d f ups
      (record { file_id = f; chunk_index = i; hash = x; size = s } ∷ delete_chunk f i rows) u.1,
  keep-delete_chunk f i (keys ups) rows,
)

pub contains-upserts :
    (i : ℕ) (rs : Replacements)
    → contains i (keys rs) ≡ false
    → contains i (keys (upserts rs)) ≡ false
unfolding upserts
contains-upserts i [] h = refl
contains-upserts i ((j, r) ∷ rs) h = ground (arith, contains-upserts i rs)

pub upserts-Distinct : (rs : Replacements) → Distinct (keys rs) → Distinct (keys (upserts rs))
unfolding upserts
upserts-Distinct [] u = tt
upserts-Distinct ((j, r) ∷ rs) u = ground (arith, upserts-Distinct rs u.1, contains-upserts j rs)

-- The rows that `rewrite_chunks` leaves.
unfoldable pub new_chunk_rows : ℕ → Replacements → Option ℕ → List Chunk → List Chunk
new_chunk_rows f rs cut rows =
    upsert_rows f (upserts rs)
      (delete_chunks f (delete_indexes cut rs) (delete_file_chunks_from f cut rows))

-- What is left before the upserts, without what they replace, is what the call does not touch.
untouched :
    (f : ℕ) (rs : Replacements) (cut : Option ℕ) (rows : List Chunk)
    → keep
        (λ r. not (at_indexes f (keys (upserts rs)) r))
        (delete_chunks f (delete_indexes cut rs) (delete_file_chunks_from f cut rows))
      ≡ keep (λ r. not (touched f rs cut r)) rows
unfolding delete_file_chunks_from
untouched f rs none rows =
    ap (keep (λ r. not (at_indexes f (keys (upserts rs)) r)))
      (delete_chunks-keep f (delete_indexes none rs) rows)
    ∙ keep-keep _ _ rows
    ∙ keep-congr
        (λ r.
          not (at_indexes f (delete_indexes none rs) r) && not (at_indexes f (keys (upserts rs)) r))
        (λ r. not (touched f rs none r)) rows
        (λ r. ground (arith, contains-indexes r.chunk_index none rs))
untouched f rs (some c) rows =
    ap (keep (λ r. not (at_indexes f (keys (upserts rs)) r)))
      (delete_chunks-keep f (delete_indexes (some c) rs) (keep (λ r. not (from_index f c r)) rows))
    ∙ keep-keep _ _ (keep (λ r. not (from_index f c r)) rows)
    ∙ keep-keep
        (λ r.
          not (at_indexes f (delete_indexes (some c) rs) r)
          && not (at_indexes f (keys (upserts rs)) r))
        (λ r. not (from_index f c r)) rows
    ∙ keep-congr
        (λ r.
          not (from_index f c r)
          && (not (at_indexes f (delete_indexes (some c) rs) r)
              && not (at_indexes f (keys (upserts rs)) r)))
        (λ r. not (touched f rs (some c) r)) rows
        (λ r. ground (arith, contains-indexes r.chunk_index (some c) rs))

-- Digest by digest, the rows after a call and the rows that it read are the rows before it and the
-- new ones.
pub references-new_chunk_rows :
    (d f : ℕ) (rs : Replacements) (cut : Option ℕ) (rows : List Chunk)
    → Distinct (keys rs)
    → references d (new_chunk_rows f rs cut rows) + references d (old_chunk_rows f rs cut rows)
      ≡ references d rows + count_of d (map (λ e. e.1.0) (upserts rs))
unfolding new_chunk_rows
references-new_chunk_rows d f rs cut rows u = omega (
  arith,
  references-upsert_rows d f (upserts rs)
      (delete_chunks f (delete_indexes cut rs) (delete_file_chunks_from f cut rows))
      (upserts-Distinct rs u),
  ap (references d) (untouched f rs cut rows),
  references-old_chunk_rows d f rs cut rows,
  total-keep (refers d) (touched f rs cut) rows,
)
