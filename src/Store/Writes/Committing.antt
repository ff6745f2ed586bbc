-- ===== src/Store/Writes/Committing.antt =====
-- file_content.py: `set_prepared_chunks` stores the blocks and maps the chunks to them.
use ztierfs.Common.{
  ℕ, ◌<◌, ◌≡◌, refl, sym, ◌∙◌, ap, true, false, Option, none, some, List, [], ◌∷◌, ◌==◌,
  if◌then◌else◌, map, All, any_of, contains, Distinct, ok, is_some, arith, Bool-cases, inl, inr,
}
use ztierfs.Common.Dict.{Dict, lookup, contains_key}
use ztierfs.Metadata.Schema.{Block, Db}
use ztierfs.Metadata.Chunks.{ChunkReplacement, keys, upserts, is_empty_chunk}
use ztierfs.Metadata.Chunks.Rows.{references}
use ztierfs.Metadata.Chunks.Mapping.{chunk_at, requested}
use ztierfs.Metadata.Deltas.{IsConsistent}
use ztierfs.Metadata.Refcounts.{IsReplaceable, replace_file_chunks_lem}
use ztierfs.Store.Codec.{Config, Zstd, PreparedBlock}
use ztierfs.Store.Writes.{StoreState, replacements, set_prepared_chunks}
use ztierfs.Store.Writes.HotFiles.{Kept}
use ztierfs.Store.Writes.Looping.{digests_of}
use ztierfs.Store.Writes.Backing.{IsBackedStore, IsEncoded, Thinned-IsBackedStore}
use ztierfs.Metadata.Thinning.Replacing.{replace_file_chunks-Thinned}
use ztierfs.Store.Disk.{answers}
use ztierfs.Common.Bytes.{Bytes}
use ztierfs.Store.Writes.Storing.{IsPrepared, ensure_prepared_blocks_lem}

abbrev pub blocks_of : Dict PreparedBlock → List PreparedBlock
blocks_of = map (λ e. e.1)

Kept-IsConsistent : (db db' : Db) → Kept db db' → IsConsistent db → IsConsistent db'
Kept-IsConsistent db db' k c = record {
  counts = λ d. k.count d ∙ c.counts d ∙ ap (references d) (sym k.chunks);
  rows = k.rows;
}

pub contains-keys {ℓ} : {V : Type ℓ} (i : ℕ) (m : Dict V) → contains i (keys m) ≡ contains_key i m
contains-keys i [] = refl
contains-keys i (e ∷ m) = ground (arith, contains-keys i m)

contains-replacements :
    (i : ℕ) (cs : Dict PreparedBlock) → contains i (keys (replacements cs)) ≡ contains i (keys cs)
unfolding replacements
contains-replacements i [] = refl
contains-replacements i ((j, b) ∷ cs) = elim (Bool-cases (i == j)) [
  | inl here ↦
      let p : i ≡ j = ground arith in
      ground (arith, p, contains-replacements j cs, contains-keys j (replacements cs))
  | inr other ↦ ground (arith, other, contains-replacements i cs)
]

replacements-Distinct : (cs : Dict PreparedBlock) → Distinct (keys (replacements cs))
unfolding replacements
replacements-Distinct [] = tt
replacements-Distinct ((j, b) ∷ cs) =
    ground (arith, replacements-Distinct cs, contains-keys j (replacements cs))

replacements-full :
    (cs : Dict PreparedBlock)
    → All (λ b. 0 < b.raw_size) (blocks_of cs)
    → any_of is_empty_chunk (replacements cs) ≡ false
unfolding replacements
replacements-full [] h = refl
replacements-full ((j, b) ∷ cs) h = ground (arith, h.0, replacements-full cs h.1)

replacements-digests :
    (d : ℕ) (cs : Dict PreparedBlock)
    → contains d (map (λ e. e.1.0) (upserts (replacements cs))) ≡ true
    → contains d (digests_of (blocks_of cs)) ≡ true
unfolding replacements upserts
replacements-digests d [] m = cc
replacements-digests d ((j, b) ∷ cs) m = ground (arith, m, replacements-digests d cs)

-- What the chunk is mapped to after the call.
abbrev pub committed : Dict PreparedBlock → ℕ → Option (ℕ × ℕ) → Option (ℕ × ℕ)
committed cs j old = elim (lookup j cs) [ none ↦ old | some b ↦ some (b.digest, b.raw_size) ]

as_replacement : PreparedBlock → ChunkReplacement
as_replacement b = record { digest = some b.digest; size = b.raw_size }

lookup-replacements :
    (cs : Dict PreparedBlock) (j : ℕ)
    → Distinct (keys cs)
    → lookup j (replacements cs)
      ≡ (elim (lookup j cs) [ none ↦ none | some b ↦ some (as_replacement b) ])
unfolding replacements as_replacement
lookup-replacements [] j u = refl
lookup-replacements ((i, b) ∷ cs) j u = ground (
  arith,
  u.0,
  lookup-replacements cs j u.1,
  contains-replacements i cs,
  contains-keys i (replacements cs),
)

requested-replacements :
    (cs : Dict PreparedBlock) (j : ℕ) (old : Option (ℕ × ℕ))
    → Distinct (keys cs)
    → requested (replacements cs) none j old ≡ committed cs j old
unfolding as_replacement
requested-replacements cs j old u = ground (arith, lookup-replacements cs j u)

All-full :
    (zstd : Zstd) (canon : ℕ → PreparedBlock) (rows : Dict Block) (hot : Dict Bytes)
    (bs : List PreparedBlock)
    → All (IsPrepared zstd canon rows hot) bs
    → All (λ b. 0 < b.raw_size) bs
All-full zstd canon rows hot [] h = tt
All-full zstd canon rows hot (b ∷ bs) h = (h.0.storable.0, All-full zstd canon rows hot bs h.1)

-- On a consistent store in which each row has its payload where it says, decoding to the bytes that
-- its digest stands for, `set_prepared_chunks` raises nothing while the hot tier is up, for an
-- inode that exists and blocks at indexes that differ, whose payloads are not empty and decode to
-- the bytes that their digests stand for, and of which no two differ under one digest. It is asked
-- that no file is left on the hot tier under a digest that is to be written there, and that the
-- payload made anew for a row that is only on the cold tier has the size that the row states. Each
-- index then has the block that was given for it, each row of the store has its payload, inline or
-- as a file, where it says, decoding to the bytes that its digest stands for, every other chunk is
-- mapped as before, the inodes are the same, and the reference counts are those of the rows again.
pub set_prepared_chunks_lem :
    (zstd : Zstd) (config : Config) (canon : ℕ → PreparedBlock) (content : ℕ → Bytes) (f : ℕ)
    (cs : Dict PreparedBlock) (now : ℕ) (s : StoreState)
    → IsConsistent s.db
    → answers 1 s.disk ≡ true
    → IsBackedStore zstd content s.db s.disk
    → is_some (lookup f s.db.inodes) ≡ true
    → Distinct (keys cs)
    → All (IsPrepared zstd canon s.db.blocks s.disk.hot) (blocks_of cs)
    → All (IsEncoded zstd content) (blocks_of cs)
    → (s' : StoreState) × (set_prepared_chunks zstd config f cs now s ≡ ok s')
      × IsConsistent s'.db
      × (s'.db.inodes ≡ s.db.inodes)
      × IsBackedStore zstd content s'.db s'.disk
      × ((g j : ℕ)
          → chunk_at g j s'.db.file_chunks ≡ (
              if f == g
              then committed cs j (chunk_at g j s.db.file_chunks)
              else chunk_at g j s.db.file_chunks))
unfolding set_prepared_chunks
set_prepared_chunks_lem zstd config canon content f [] now s c up b file u p q =
    (s, refl, c, refl, b, λ g j. ground arith)
set_prepared_chunks_lem zstd config canon content f (e ∷ cs) now s c up b file u p q =
    let all = e ∷ cs in
    let (s1, stored, k, there, backed) =
      ensure_prepared_blocks_lem zstd config canon content (blocks_of all) now s c.rows up b p q in
    let c1 = Kept-IsConsistent s.db s1.db k c in
    let replaceable : IsReplaceable f (replacements all) s1.db = record {
      distinct_keys = replacements-Distinct all;
      no_empty =
          replacements-full all (All-full zstd canon s.db.blocks s.disk.hot (blocks_of all) p);
      file = ap (λ m. is_some (lookup f m)) k.inodes ∙ file;
      blocks = λ d m. there d (replacements-digests d all m);
    } in
    let (deltas, db', done, c', inodes, mapped) =
      replace_file_chunks_lem f (replacements all) none now s1.db c1 replaceable in
    (
      record s1 { db = db' },
      rw (stored, done) refl,
      c',
      inodes ∙ k.inodes,
      Thinned-IsBackedStore zstd content s1.db db' s1.disk
          (replace_file_chunks-Thinned f (replacements all) none now s1.db db' deltas done) backed,
      λ g j.
          mapped g j
          ∙ ground (
            arith,
            requested-replacements all j (chunk_at g j s.db.file_chunks) u,
            ap (chunk_at g j) k.chunks,
          ),
    )
