-- ===== src/Metadata/Thinning/Replacing.antt =====
-- metadata/chunks.py: `replace_file_chunks` takes rows and tiers of blocks away, and brings none.
use mathlib.Core.Path.{subst}
use ztierfs.Common.{
  ℕ, ◌≡◌, ◌∙◌, Option, [], ◌∷◌, ok, Error, bind-eq_ok, arith, raise_if, any_of, map,
}
use ztierfs.Common.Dict.{Dict}
use ztierfs.Metadata.Schema.{Block, Db}
use ztierfs.Metadata.Blocks.{Deltas, raise_counts, apply_block_refcount_deltas}
use ztierfs.Metadata.Chunks.{
  Replacements, upserts, upsert_chunk, upsert_chunks, chunk_deltas, is_empty_chunk, rewrite_chunks,
  replace_file_chunks, old_chunk_rows,
}
use ztierfs.Metadata.Thinning.{IsLike, Thinned, Thinned-refl, raise-Thinned, lower-Thinned}

upserts-same :
    (f : ℕ) (ups : Dict (ℕ × ℕ)) (db db' : Db)
    → upsert_chunks f ups db ≡ ok db'
    → (db'.blocks ≡ db.blocks) × (db'.block_payloads ≡ db.block_payloads)
unfolding upsert_chunks upsert_chunk
upserts-same f [] db db' h = (ground (arith, h), ground (arith, h))
upserts-same f ((i, (d, size)) ∷ ups) db db' h =
    let (db1, one, rest) = bind-eq_ok (upsert_chunk f i d size db) _ db' h in
    let same = upserts-same f ups db1 db' rest in
    (same.0 ∙ ground (arith, one), same.1 ∙ ground (arith, one))

IsLike-trans : (a b c : Block) → IsLike a b → IsLike b c → IsLike a c
IsLike-trans a b c h k = record {
  storage = k.storage ∙ h.storage;
  compressed = k.compressed ∙ h.compressed;
  raw_size = k.raw_size ∙ h.raw_size;
  hot = λ x. h.hot (k.hot x);
  cold = λ x. h.cold (k.cold x);
}

Thinned-trans :
    (a b c : Db)
    → Thinned a.blocks a.block_payloads b
    → Thinned b.blocks b.block_payloads c
    → Thinned a.blocks a.block_payloads c
Thinned-trans a b c h k d row h' =
    let (row1, found1, like1, payload1) = k d row h' in
    let (row0, found0, like0, payload0) = h d row1 found1 in
    (row0, found0, IsLike-trans row0 row1 row like0 like1, payload1 ∙ payload0)

apply-Thinned :
    (deltas : Deltas) (now : ℕ) (db db' : Db)
    → apply_block_refcount_deltas deltas now db ≡ ok db'
    → Thinned db.blocks db.block_payloads db'
unfolding apply_block_refcount_deltas
apply-Thinned deltas now db db' h =
    let (raised, up, down) = bind-eq_ok (raise_counts deltas db) _ db' h in
    Thinned-trans db raised db'
      (raise-Thinned db.blocks db.block_payloads deltas db raised (Thinned-refl db) up)
      (lower-Thinned raised.blocks raised.block_payloads now deltas raised db' (Thinned-refl raised)
        down)

-- The rows and payloads of one database are those of the other.
moved-Thinned :
    (a b c : Db)
    → b.blocks ≡ a.blocks
    → b.block_payloads ≡ a.block_payloads
    → Thinned b.blocks b.block_payloads c
    → Thinned a.blocks a.block_payloads c
moved-Thinned a b c p q h =
    subst (λ x. Thinned x a.block_payloads c) p (subst (λ x. Thinned b.blocks x c) q h)

-- Where `replace_file_chunks` returns, it has taken rows and tiers of blocks away, and brought none.
pub replace_file_chunks-Thinned :
    (f : ℕ) (rs : Replacements) (cut : Option ℕ) (now : ℕ) (db db' : Db) (deltas : Deltas)
    → replace_file_chunks f rs cut now db ≡ ok (deltas, db')
    → Thinned db.blocks db.block_payloads db'
unfolding replace_file_chunks rewrite_chunks
replace_file_chunks-Thinned f rs cut now db db' deltas h =
    let (_, checked, h1) = bind-eq_ok (raise_if (any_of is_empty_chunk rs) Error.value) _ _ h in
    let (db1, rewritten, h2) = bind-eq_ok (rewrite_chunks f rs cut db) _ _ h1 in
    let same = upserts-same f (upserts rs) _ db1 rewritten in
    let changes =
      chunk_deltas (map (λ r. r.hash) (old_chunk_rows f rs cut db.file_chunks))
        (map (λ e. e.1.0) (upserts rs)) in
    let (db2, applied, h3) = bind-eq_ok (apply_block_refcount_deltas changes now db1) _ _ h2 in
    let last : db2 ≡ db' = ground (arith, h3) in
    subst (Thinned db.blocks db.block_payloads) last
      (moved-Thinned db db1 db2 same.0 same.1 (apply-Thinned changes now db1 db2 applied))
