-- ===== src/Store/Writes/Supplying.antt =====
-- blocks.py: the rows and the inline payloads that `insert_blocks` leaves, and that every new row has its
-- payload.
use mathlib.Core.Path.{subst}
use ztierfs.Common.{
  ℕ, ◌≡◌, refl, sym, ◌∙◌, ap, false, Option, none, some, List, [], ◌∷◌, ◌==◌, if◌then◌else◌, map,
  All, contains, Distinct, ok, bind-eq_ok, arith, Bool-cases, Option-cases, inl, inr,
}
use ztierfs.Common.Dict.{Dict, lookup, insert, lookup-insert}
use ztierfs.Common.Bytes.{Bytes}
use ztierfs.Metadata.Schema.{Block, Db}
use ztierfs.Metadata.Blocks.{
  BlockInsert, new_row, insert_row, insert_rows, insert_payload, insert_payloads, insert_blocks,
}
use ztierfs.Store.Disk.{Disk}
use ztierfs.Store.Codec.{Zstd, decode_payload}
use ztierfs.Store.Writes.{StoreState, insert_new}
use ztierfs.Store.Writes.Backing.{IsGood, IsBacked, IsBackedStore, IsBacked-same}

-- The block of the list with the digest.
abbrev find_insert : ℕ → List BlockInsert → Option BlockInsert
find_insert d [] = none
find_insert d (b ∷ bs) = if d == b.digest then some b else find_insert d bs

abbrev row_after : ℕ → Option BlockInsert → Option Block → Option Block
row_after now none old = old
row_after now (some b) old = some (new_row b now)

abbrev payload_after : Option BlockInsert → Option Bytes → Option Bytes
payload_after none old = old
payload_after (some b) old = elim b.inline_payload [ none ↦ old | some p ↦ some p ]

find_absent :
    (d : ℕ) (bs : List BlockInsert)
    → contains d (map (λ b. b.digest) bs) ≡ false
    → find_insert d bs ≡ none
find_absent d [] h = refl
find_absent d (b ∷ bs) h = ground (arith, h, find_absent d bs)

row_inserted :
    (b : BlockInsert) (now : ℕ) (db db' : Db)
    → insert_row b now db ≡ ok db'
    → record db { blocks = insert b.digest (new_row b now) db.blocks } ≡ db'
unfolding insert_row
row_inserted b now db db' h = ground (arith, h)

rows_inserted :
    (bs : List BlockInsert) (now d : ℕ) (db db' : Db)
    → Distinct (map (λ b. b.digest) bs)
    → insert_rows bs now db ≡ ok db'
    → (lookup d db'.blocks ≡ row_after now (find_insert d bs) (lookup d db.blocks))
      × (db'.block_payloads ≡ db.block_payloads)
unfolding insert_rows
rows_inserted [] now d db db' u h = (ground (arith, h), ground (arith, h))
rows_inserted (b ∷ bs) now d db db' u h =
    let (db1, one, rest) = bind-eq_ok (insert_row b now db) _ db' h in
    let same = row_inserted b now db db1 one in
    let (blocks, payloads) = rows_inserted bs now d db1 db' u.1 rest in
    (
      elim (Bool-cases (d == b.digest)) [
        | inl here ↦
            let p : b.digest ≡ d = ground (arith, here) in
            let gone : find_insert d bs ≡ none =
              find_absent d bs (subst (λ x. contains x (map (λ y. y.digest) bs) ≡ false) p u.0) in
            blocks
            ∙ ap (λ o. row_after now o (lookup d db1.blocks)) gone
            ∙ sym (ap (λ x. lookup d x.blocks) same)
            ∙ ground (arith, here, lookup-insert d b.digest (new_row b now) db.blocks)
        | inr other ↦
            let step : lookup d (insert b.digest (new_row b now) db.blocks) ≡ lookup d db.blocks =
              ground (arith, other, lookup-insert d b.digest (new_row b now) db.blocks) in
            blocks
            ∙ ap (row_after now (find_insert d bs)) (sym (ap (λ x. lookup d x.blocks) same) ∙ step)
            ∙ rw other refl
      ],
      payloads ∙ sym (ap (λ x. x.block_payloads) same),
    )

payload_inserted :
    (b : BlockInsert) (d : ℕ) (db : Db)
    → lookup d (insert_payload b db).block_payloads ≡ (
        if d == b.digest
        then payload_after (some b) (lookup d db.block_payloads)
        else lookup d db.block_payloads)
payload_inserted b d db = elim (Option-cases b.inline_payload) [
  | inl tier ↦ ground (arith, tier)
  | inr (p, within) ↦ ground (arith, within, lookup-insert d b.digest p db.block_payloads)
]

payloads_inserted :
    (bs : List BlockInsert) (d : ℕ) (db : Db)
    → Distinct (map (λ b. b.digest) bs)
    → lookup d (insert_payloads bs db).block_payloads
      ≡ payload_after (find_insert d bs) (lookup d db.block_payloads)
unfolding insert_payloads
payloads_inserted [] d db u = refl
payloads_inserted (b ∷ bs) d db u =
    payloads_inserted bs d (insert_payload b db) u.1 ∙ elim (Bool-cases (d == b.digest)) [
      | inl here ↦
          let p : b.digest ≡ d = ground (arith, here) in
          let gone : find_insert d bs ≡ none =
            find_absent d bs (subst (λ x. contains x (map (λ y. y.digest) bs) ≡ false) p u.0) in
          ap (λ o. payload_after o (lookup d (insert_payload b db).block_payloads)) gone
          ∙ payload_inserted b d db
          ∙ rw here refl
      | inr other ↦
          let step : lookup d (insert_payload b db).block_payloads ≡ lookup d db.block_payloads =
            payload_inserted b d db ∙ rw other refl in
          ap (payload_after (find_insert d bs)) step ∙ rw other refl
    ]

unchanged_rows :
    (bs : List BlockInsert) (d : ℕ) (db : Db)
    → lookup d db.blocks ≡ lookup d (insert_payloads bs db).blocks
unfolding insert_payloads
unchanged_rows [] d db = refl
unchanged_rows (b ∷ bs) d db = elim (Option-cases b.inline_payload) [
  | inl tier ↦ ground (arith, tier, unchanged_rows bs d (insert_payload b db))
  | inr (p, within) ↦ ground (arith, within, unchanged_rows bs d (insert_payload b db))
]

-- The payload of a new row is in the call, or on the hot tier.
pub record IsSupplied (zstd : Zstd) (content : ℕ → Bytes) (now : ℕ) (hot : Dict Bytes)
    (b : BlockInsert) : Type 0 where
  pub within :
      (p : Bytes)
      → b.inline_payload ≡ some p
      → decode_payload zstd (new_row b now) p ≡ ok (content b.digest)
  pub placed :
      b.inline_payload ≡ none → IsGood zstd (content b.digest) (new_row b now) (lookup b.digest hot)

found-IsSupplied :
    (zstd : Zstd) (content : ℕ → Bytes) (now d : ℕ) (hot : Dict Bytes) (b : BlockInsert)
    (bs : List BlockInsert)
    → All (IsSupplied zstd content now hot) bs
    → find_insert d bs ≡ some b
    → (d ≡ b.digest) × IsSupplied zstd content now hot b
found-IsSupplied zstd content now d hot b [] h found = cc
found-IsSupplied zstd content now d hot b (x ∷ bs) h found = elim (Bool-cases (d == x.digest)) [
  | inl here ↦
      let same : x ≡ b = ground (arith, here, found) in
      let p : d ≡ x.digest = ground (arith, here) in
      (p ∙ ap (λ y. y.digest) same, subst (IsSupplied zstd content now hot) same h.0)
  | inr other ↦ found-IsSupplied zstd content now d hot b bs h.1 (ground (arith, other, found))
]

-- A new row is backed by what it is supplied with.
new_row-IsBacked :
    (zstd : Zstd) (content : ℕ → Bytes) (now : ℕ) (b : BlockInsert) (payloads : Dict Bytes)
    (old : Option Bytes) (disk : Disk)
    → IsSupplied zstd content now disk.hot b
    → lookup b.digest payloads ≡ payload_after (some b) old
    → IsBacked zstd (content b.digest) b.digest (new_row b now) payloads disk
new_row-IsBacked zstd content now b payloads old disk s e = elim (Option-cases b.inline_payload) [
  | inl tier ↦ record {
    within = λ h. absurd (ground (arith, tier, h));
    hot = λ h x. s.placed tier;
    cold = λ h x. cc;
  }
  | inr (p, within) ↦ record {
    within = λ h. (p, e ∙ rw within refl, s.within p within);
    hot = λ h x. absurd (ground (arith, within, h));
    cold = λ h x. cc;
  }
]

supplied-IsBackedStore :
    (zstd : Zstd) (content : ℕ → Bytes) (now : ℕ) (bs : List BlockInsert) (db db' : Db)
    (disk : Disk)
    → Distinct (map (λ b. b.digest) bs)
    → All (IsSupplied zstd content now disk.hot) bs
    → IsBackedStore zstd content db disk
    → insert_blocks bs now db ≡ ok db'
    → IsBackedStore zstd content db' disk
unfolding insert_blocks
supplied-IsBackedStore zstd content now bs db db' disk u s k done d row h =
    let (db1, rows, last) = bind-eq_ok (insert_rows bs now db) _ db' done in
    let same : insert_payloads bs db1 ≡ db' = ground (arith, last) in
    let (blocks, before) = rows_inserted bs now d db db1 u rows in
    let payload : lookup d db'.block_payloads
        ≡ payload_after (find_insert d bs) (lookup d db.block_payloads) =
      sym (ap (λ x. lookup d x.block_payloads) same)
      ∙ payloads_inserted bs d db1 u
      ∙ ap (λ x. payload_after (find_insert d bs) (lookup d x)) before in
    let there : row_after now (find_insert d bs) (lookup d db.blocks) ≡ some row =
      sym blocks ∙ unchanged_rows bs d db1 ∙ ap (λ x. lookup d x.blocks) same ∙ h in
    elim (Option-cases (find_insert d bs)) [
      | inl old ↦
          IsBacked-same zstd (content d) d row db.block_payloads db'.block_payloads disk disk
            (payload ∙ rw old refl) refl refl
            (k d row (sym (ap (λ o. row_after now o (lookup d db.blocks)) old) ∙ there))
      | inr (b, new) ↦
          let (p, supplied) = found-IsSupplied zstd content now d disk.hot b bs s new in
          let same_row : new_row b now ≡ row =
            ground (arith, sym (ap (λ o. row_after now o (lookup d db.blocks)) new) ∙ there) in
          subst (λ x. IsBacked zstd (content x) x row db'.block_payloads disk) (sym p)
            (subst (λ x. IsBacked zstd (content b.digest) b.digest x db'.block_payloads disk)
              same_row
              (new_row-IsBacked zstd content now b db'.block_payloads (lookup d db.block_payloads)
                disk supplied
                (ap (λ x. lookup x db'.block_payloads) (sym p)
                  ∙ payload
                  ∙ ap (λ o. payload_after o (lookup d db.block_payloads)) new)))
    ]

-- After `insert_new`, as before it, no row promises a payload that is not stored.
pub insert_new-IsBackedStore :
    (zstd : Zstd) (content : ℕ → Bytes) (now : ℕ) (bs : List BlockInsert) (s s' : StoreState)
    → Distinct (map (λ b. b.digest) bs)
    → All (IsSupplied zstd content now s.disk.hot) bs
    → IsBackedStore zstd content s.db s.disk
    → insert_new bs now s ≡ ok s'
    → IsBackedStore zstd content s'.db s.disk
unfolding insert_new
insert_new-IsBackedStore zstd content now [] s s' u h k done =
    let same : s ≡ s' = ground (arith, done) in
    subst (λ x. IsBackedStore zstd content x.db s.disk) same k
insert_new-IsBackedStore zstd content now (b ∷ bs) s s' u h k done =
    let (db', inserted, last) = bind-eq_ok (insert_blocks (b ∷ bs) now s.db) _ s' done in
    let same : db' ≡ s'.db = ground (arith, last) in
    subst (λ x. IsBackedStore zstd content x s.disk) same
      (supplied-IsBackedStore zstd content now (b ∷ bs) s.db db' s.disk u h k inserted)
