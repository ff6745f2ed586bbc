-- ===== src/Store/Writes/Storing.antt =====
-- block_store.py: `ensure_prepared_blocks` succeeds, gives every block a row and leaves the counts
-- alone.
use ztierfs.Common.{
  ℕ, ◌≡◌, refl, ◌∙◌, ap, true, not, ◌&&◌, List, [], ◌∷◌, ◌==◌, map, All, contains, Distinct, ok,
  is_some, sym, if◌then◌else◌, arith, Bool-cases, inl, inr,
}
use mathlib.Core.Path.{subst}
use ztierfs.Common.Dict.{Dict, lookup}
use ztierfs.Common.Bytes.{Bytes}
use ztierfs.Metadata.Blocks.{new_row}
use ztierfs.Store.Disk.{answers}
use ztierfs.Metadata.Schema.{Block}
use ztierfs.Metadata.Settle.{RowsOk}
use ztierfs.Store.Codec.{Config, Zstd, PreparedBlock, prepared_insert, decode_payload}
use ztierfs.Store.Writes.{StoreState, insert_new, ensure_prepared_blocks}
use ztierfs.Store.Writes.HotFiles.{Kept, Kept-trans}
use ztierfs.Store.Writes.Ensuring.{Matches, IsPlaced}
use ztierfs.Store.Writes.Looping.{digests_of, new_blocks, IsUnstored, Awaits, ensure_each_lem}
use ztierfs.Store.Writes.Backing.{IsBackedStore, IsEncoded}
use ztierfs.Store.Writes.Supplying.{IsSupplied, insert_new-IsBackedStore}
use ztierfs.Store.Writes.Inserting.{IsStorable, insert_new_lem}
use ztierfs.Store.Writes.Gathering.{IsCanonical, All-weaken, unique_blocks_lem}

-- What is asked of each block that is passed: it is the one for its digest, it is not empty, a row that
-- is only on the cold tier has the size of the payload that is made anew for it, and no file is left
-- on the hot tier under the digest of a block that is to be written there.
pub record IsPrepared (zstd : Zstd) (canon : ℕ → PreparedBlock) (rows : Dict Block)
    (hot : Dict Bytes) (b : PreparedBlock) : Type 0 where
  pub canonical : IsCanonical canon b
  pub storable : IsStorable (prepared_insert b)
  pub matches : Matches zstd rows b
  pub unstored : IsUnstored rows hot b

-- The same of a block whose payload decodes.
abbrev IsGiven :
    Zstd → (ℕ → PreparedBlock) → (ℕ → Bytes) → Dict Block → Dict Bytes → PreparedBlock → Type 0
IsGiven zstd canon content rows hot b = IsPrepared zstd canon rows hot b × IsEncoded zstd content b

new_blocks-IsStorable :
    (zstd : Zstd) (canon : ℕ → PreparedBlock) (content : ℕ → Bytes) (rows : Dict Block)
    (hot : Dict Bytes) (bs : List PreparedBlock)
    → All (IsGiven zstd canon content rows hot) bs
    → All IsStorable (map prepared_insert (new_blocks rows bs))
new_blocks-IsStorable zstd canon content rows hot [] h = tt
new_blocks-IsStorable zstd canon content rows hot (b ∷ bs) h =
    elim (Bool-cases (is_some (lookup b.digest rows))) [
      | inl there ↦
          rw (there, new_blocks) (new_blocks-IsStorable zstd canon content rows hot bs h.1)
      | inr new ↦
          rw (new, new_blocks)
            (h.0.0.storable, new_blocks-IsStorable zstd canon content rows hot bs h.1)
    ]

All-both :
    (P Q : PreparedBlock → Type 0) (bs : List PreparedBlock)
    → All P bs
    → All Q bs
    → All (λ b. P b × Q b) bs
All-both P Q [] hp hq = tt
All-both P Q (b ∷ bs) hp hq = ((hp.0, hq.0), All-both P Q bs hp.1 hq.1)

new_blocks-contains :
    (d : ℕ) (rows : Dict Block) (bs : List PreparedBlock)
    → contains d (map (λ b. b.digest) (map prepared_insert (new_blocks rows bs)))
      ≡ contains d (digests_of bs) && not (is_some (lookup d rows))
new_blocks-contains d rows [] = refl
new_blocks-contains d rows (b ∷ bs) = elim (Bool-cases (d == b.digest)) [
  | inl here ↦
      let p : d ≡ b.digest = ground arith in ground (arith, p, new_blocks-contains d rows bs)
  | inr other ↦ ground (arith, other, new_blocks-contains d rows bs)
]

new_blocks-Distinct :
    (rows : Dict Block) (bs : List PreparedBlock)
    → Distinct (digests_of bs)
    → Distinct (map (λ b. b.digest) (map prepared_insert (new_blocks rows bs)))
new_blocks-Distinct rows [] u = tt
new_blocks-Distinct rows (b ∷ bs) u =
    ground (arith, u.0, new_blocks-Distinct rows bs u.1, new_blocks-contains b.digest rows bs)

-- What a new row is supplied with: its inline payload, or the file that the loop has written.
block-IsSupplied :
    (zstd : Zstd) (content : ℕ → Bytes) (now : ℕ) (hot : Dict Bytes) (b : PreparedBlock)
    → IsEncoded zstd content b
    → IsPlaced hot b
    → IsSupplied zstd content now hot (prepared_insert b)
block-IsSupplied zstd content now hot b e placed =
    let good = e.decodes (new_row (prepared_insert b) now) refl refl ∙ ap ok (sym e.stands) in
    record {
      within =
          λ p h. ap (decode_payload zstd (new_row (prepared_insert b) now)) (e.within p h) ∙ good;
      placed = λ h. (b.payload, placed h, good);
    }

new_blocks-IsSupplied :
    (zstd : Zstd) (canon : ℕ → PreparedBlock) (content : ℕ → Bytes) (rows : Dict Block)
    (hot hot' : Dict Bytes) (now : ℕ) (bs : List PreparedBlock)
    → All (IsGiven zstd canon content rows hot) bs
    → All (IsPlaced hot') (new_blocks rows bs)
    → All (IsSupplied zstd content now hot') (map prepared_insert (new_blocks rows bs))
new_blocks-IsSupplied zstd canon content rows hot hot' now [] h placed = tt
new_blocks-IsSupplied zstd canon content rows hot hot' now (b ∷ bs) h placed =
    elim (Bool-cases (is_some (lookup b.digest rows))) [
      | inl there ↦
          let rest : All (IsPlaced hot') (new_blocks rows bs) =
            subst
              (λ c. All (IsPlaced hot') (if c then b ∷ new_blocks rows bs else new_blocks rows bs))
              (ap not there) placed in
          rw (there, new_blocks)
            (new_blocks-IsSupplied zstd canon content rows hot hot' now bs h.1 rest)
      | inr new ↦
          let rest : All (IsPlaced hot') (b ∷ new_blocks rows bs) =
            subst
              (λ c. All (IsPlaced hot') (if c then b ∷ new_blocks rows bs else new_blocks rows bs))
              (ap not new) placed in
          rw (new, new_blocks)
            (
              block-IsSupplied zstd content now hot' b h.0.1 rest.0,
              new_blocks-IsSupplied zstd canon content rows hot hot' now bs h.1 rest.1,
            )
    ]

-- On a store whose rows pass the CHECK constraints and have their payloads where they say, decoding
-- to the bytes that the digests stand for, `ensure_prepared_blocks` raises nothing while the hot
-- tier is up, for blocks whose payloads are not empty and decode to the bytes that their digests
-- stand for, and of which no two differ under one digest. It is asked that no file is left on the
-- hot tier under a digest that is to be written there, and that the payload made anew for a row
-- that is only on the cold tier has the size that the row states. Each of the blocks then has a
-- row, and each row of the store has its payload, inline or as a file, where it says, decoding to
-- the bytes that its digest stands for. The mapping, the inodes and the reference counts are the
-- same, every row that was there still is, and the rows pass the constraints.
pub ensure_prepared_blocks_lem :
    (zstd : Zstd) (config : Config) (canon : ℕ → PreparedBlock) (content : ℕ → Bytes)
    (bs : List PreparedBlock) (now : ℕ) (s : StoreState)
    → RowsOk s.db.blocks
    → answers 1 s.disk ≡ true
    → IsBackedStore zstd content s.db s.disk
    → All (IsPrepared zstd canon s.db.blocks s.disk.hot) bs
    → All (IsEncoded zstd content) bs
    → (s' : StoreState) × (ensure_prepared_blocks zstd config bs now s ≡ ok s')
      × Kept s.db s'.db
      × ((d : ℕ) → contains d (digests_of bs) ≡ true → is_some (lookup d s'.db.blocks) ≡ true)
      × IsBackedStore zstd content s'.db s'.disk
unfolding ensure_prepared_blocks
ensure_prepared_blocks_lem zstd config canon content bs now s r up k p c =
    let rows = s.db.blocks in
    let hot = s.disk.hot in
    let (unique, once, q) =
      unique_blocks_lem canon (IsGiven zstd canon content rows hot) bs [] (λ b h. h.0.canonical)
        (All-both (IsPrepared zstd canon rows hot) (IsEncoded zstd content) bs p c) tt tt in
    let (s1, new, each, e) =
      ensure_each_lem zstd config content rows hot now unique s r k up q.distinct
        (λ d m. (refl, refl))
        (All-weaken (IsGiven zstd canon content rows hot) (Awaits zstd content rows hot) unique
          (λ b h. (h.0.matches, (h.0.unstored, h.1))) q.all) in
    let made = map prepared_insert (new_blocks rows unique) in
    let apart = new_blocks-Distinct rows unique q.distinct in
    let (s2, inserted, i, same) =
      insert_new_lem made now s1 e.kept.rows
        (new_blocks-IsStorable zstd canon content rows hot unique q.all) apart
        (λ d m. e.keys d ∙ ground (arith, m, new_blocks-contains d rows unique)) in
    (
      s2,
      rw (once, each) (ap (λ x. insert_new x now s1) e.collected ∙ inserted),
      Kept-trans s.db s1.db s2.db e.kept i.kept,
      λ d m. elim (Bool-cases (is_some (lookup d rows))) [
        | inl there ↦ i.kept.there d (e.keys d ∙ there)
        | inr fresh ↦
            i.present d (ground (arith, m, fresh, new_blocks-contains d rows unique, q.digests d))
      ],
      subst (IsBackedStore zstd content s2.db) (sym same) (
          insert_new-IsBackedStore zstd content now made s1 s2 apart
            (new_blocks-IsSupplied zstd canon content rows hot s1.disk.hot now unique q.all
              e.placed)
            e.backed inserted),
    )
