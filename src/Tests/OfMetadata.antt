-- ===== src/Tests/OfMetadata.antt =====
-- metadata/chunks.py and metadata/blocks.py on the small file system.
use ztierfs.Common.{ℕ, ◌≡◌, refl, none, some, [], ◌∷◌, ok, ◌==◌, if◌then◌else◌, arith}
use ztierfs.Metadata.Schema.{Db}
use ztierfs.Metadata.Blocks.{Deltas}
use ztierfs.Metadata.Chunks.{Replacements, replace_file_chunks, upserts}
use ztierfs.Metadata.Chunks.Mapping.{chunk_at, requested}
use ztierfs.Metadata.Deltas.{IsConsistent}
use ztierfs.Metadata.Refcounts.{IsReplaceable, replace_file_chunks_lem}
use ztierfs.Tests.{db, db-IsConsistent}

-- Chunk 0 of file 1 gets the fresh block, chunk 2 goes.
abbrev change : Replacements
change = (0, record { digest = some 21; size = 3 }) ∷ (2, record { digest = none; size = 0 }) ∷ []

change-IsReplaceable : IsReplaceable 1 change db
unfolding upserts
change-IsReplaceable = record {
  distinct_keys = (refl, (refl, tt));
  no_empty = refl;
  file = refl;
  blocks = λ d h. ground (arith, h);
}

replace_file_chunks_lem_example :
    (deltas : Deltas) × (db' : Db) × (replace_file_chunks 1 change none 99 db ≡ ok (deltas, db'))
    × IsConsistent db'
    × (db'.inodes ≡ db.inodes)
    × ((g j : ℕ)
        → chunk_at g j db'.file_chunks ≡ (
            if 1 == g
            then requested change none j (chunk_at g j db.file_chunks)
            else chunk_at g j db.file_chunks))
replace_file_chunks_lem_example =
    replace_file_chunks_lem 1 change none 99 db db-IsConsistent change-IsReplaceable
