-- ===== src/Store/Truncating/Cutting.antt =====
-- file_content.py: a file that gets another size keeps its bytes up to there and has zeros behind.
use native.Mathlib.Nat.{mul-le-mul_right}
use ztierfs.Common.{
  ℕ, suc, ◌+◌, ◌-◌, ◌*◌, ◌/◌, ◌%◌, ◌≤◌, ◌<◌, ◌≡◌, refl, sym, ◌∙◌, ap, Bool, true, false, not, ◌&&◌,
  Option, none, some, [], ◌∷◌, ◌==◌, leb, ltb, length, take, length-take, if◌then◌else◌, Result, ok,
  arith, Bool-cases, inl, inr,
}
use ztierfs.Common.Bytes.{
  Bytes, byte, byte_past, byte-take, byte-ljust, byte-zeros, length-zeros, length-ljust, zeros,
  ljust,
}
use ztierfs.Metadata.Schema.{Db}
use ztierfs.Metadata.Chunks.{Row, chunk_block}
use ztierfs.Metadata.Chunks.Mapping.{chunk_at}
use ztierfs.Metadata.Deltas.{IsConsistent}
use ztierfs.Files.Reading.{
  BlockReader, AllReadable, file_byte, chunk_byte, chunk_of, chunk_mono, same_chunk,
}
use ztierfs.Store.Cache.{Cache}
use ztierfs.Store.Codec.{Config, Zstd, prepared_block}
use ztierfs.Store.Writes.{StoreState, set_prepared_chunks}
use ztierfs.Store.Writes.Committing.{committed}
use ztierfs.Store.Writes.NewChunks.{
  mapped_byte, prepared_chunks, prepare_blocks-map, file_byte-mapped,
}
use ztierfs.Store.Writes.ReadBack.{IsZeroBehind}
use ztierfs.Store.Truncating.{read_row, set_chunk, first_removed}
use ztierfs.Store.Truncating.Removing.{Removed}

first_bounds :
    (cs size : ℕ)
    → 0 < cs
    → (size ≤ first_removed cs size * cs) × (first_removed cs size * cs ≤ size + cs - 1)
first_bounds cs size h = elim (Bool-cases (size == 0)) [
  | inl zero_size ↦ (ground (arith, zero_size), ground (arith, zero_size))
  | inr other ↦
      let d = chunk_of (size + cs - 1) cs h in
      let e : first_removed cs size ≡ (size + cs - 1) / cs = rw other refl in
      (rw e (omega (arith, d.0, d.1, h)), rw e (omega (arith, d.0, d.1, h)))
]

-- A place before the new end is in no chunk that goes.
before_end : (cs size p : ℕ) → 0 < cs → p < size → leb (first_removed cs size) (p / cs) ≡ false
before_end cs size p h below = elim (Bool-cases (leb (first_removed cs size) (p / cs))) [
  | inr kept ↦ kept
  | inl gone ↦ absurd (
      omega (
        arith,
        below,
        (chunk_of p cs h).0,
        (first_bounds cs size h).0,
        mul-le-mul_right {m = first_removed cs size} {n = p / cs} cs (ground (arith, gone)),
      ))
]

-- A place behind the new end whose chunk stays is in the chunk of the new end.
last_chunk :
    (cs size p : ℕ)
    → 0 < cs
    → size ≤ p
    → leb (first_removed cs size) (p / cs) ≡ false
    → (p / cs ≡ size / cs) × (0 < size % cs)
last_chunk cs size p h behind kept =
    let inside : p / cs * cs < size = omega (
      arith,
      h,
      (first_bounds cs size h).1,
      mul-le-mul_right {m = suc (p / cs)} {n = first_removed cs size} cs (ground (arith, kept)),
    ) in
    let up = mul-le-mul_right {m = size / cs} {n = p / cs} cs (chunk_mono size p cs h behind) in
    let same : p / cs ≡ size / cs =
      same_chunk cs (size / cs) (p / cs) 0 (omega (arith, up))
        (omega (arith, inside, (chunk_of size cs h).1)) h in
    (same, omega (arith, inside, ap (λ x. x * cs) same, (chunk_of size cs h).2))

pub ltb_lem : (a b : ℕ) → ltb a b ≡ true → a < b
ltb_lem a b h = ground (arith, h)

not_ltb : (a b : ℕ) → ltb a b ≡ false → b ≤ a
not_ltb a b h = ground (arith, h)

-- Without a cut, the chunks that stay end with the file.
uncut_byte :
    (cs size old_size p : ℕ) (old : ℕ → ℕ)
    → 0 < cs
    → IsZeroBehind old_size old
    → ltb size old_size && not (size % cs == 0) ≡ false
    → (if leb (first_removed cs size) (p / cs) then 0 else old p)
      ≡ (if ltb p size then old p else 0)
uncut_byte cs size old_size p old h z uncut = elim (Bool-cases (ltb p size)) [
  | inl below ↦ rw (below, before_end cs size p h (ground (arith, below))) refl
  | inr behind ↦ elim (Bool-cases (leb (first_removed cs size) (p / cs))) [
    | inl gone ↦ rw (behind, gone) refl
    | inr kept ↦
        let (_, rest) = last_chunk cs size p h (ground (arith, behind)) kept in
        rw (behind, kept) (z p (ground (arith, behind, uncut, rest)))
  ]
]

pub read_row_lem :
    {read_block : Row → ℕ → Result Bytes} (store : BlockReader read_block) (o : Option Row) (n : ℕ)
    → AllReadable store.IsReadable o
    → (d : Bytes) × (read_row read_block o n ≡ ok d)
      × (length d ≡ n)
      × ((i : ℕ) → i < n → byte i d ≡ chunk_byte store.content o i)
read_row_lem store none n r = (zeros n, refl, length-zeros n, λ i l. byte-zeros i n)
read_row_lem store (some row) n r =
    let whole = take n (store.content row.hash) in
    (
      ljust n whole,
      store.reads row n r,
      length-ljust n whole (omega (arith, length-take n (store.content row.hash))),
      λ i l. byte-ljust i n whole ∙ byte-take i n (store.content row.hash) ∙ ground (arith, l),
    )

pub set_chunk-eq :
    (zstd : Zstd) (config : Config) (f j : ℕ) (d : Bytes) (compress : Bool) (now : ℕ)
    (cache : Cache) (s : StoreState)
    → 0 < length d
    → set_chunk zstd config f j d compress now cache s
      ≡ set_prepared_chunks zstd config f (prepared_chunks zstd config compress ((j, d) ∷ [])) now s
unfolding set_chunk
set_chunk-eq zstd config f j [] compress now cache s h = absurd (omega (arith, h))
set_chunk-eq zstd config f j (b ∷ d) compress now cache s h =
    ap (λ l. set_prepared_chunks zstd config f l now s)
      (prepare_blocks-map zstd config compress ((j, b ∷ d) ∷ []) cache)

-- The state after the chunks of a file are cut.
pub record IsCut (content : ℕ → Bytes) (cs f size : ℕ) (db db' : Db) : Type 0 where
  pub consistent : IsConsistent db'
  pub inodes : db'.inodes ≡ db.inodes
  pub every_byte :
      (p : ℕ)
      → file_byte content cs f db' p ≡ (if ltb p size then file_byte content cs f db p else 0)
  pub others :
      (g j : ℕ) → f == g ≡ false → chunk_at g j db'.file_chunks ≡ chunk_at g j db.file_chunks

byte-Removed :
    (content : ℕ → Bytes) (cs f size p : ℕ) (db db1 : Db)
    → IsConsistent db
    → Removed f (first_removed cs size) db db1
    → file_byte content cs f db1 p
      ≡ (if leb (first_removed cs size) (p / cs) then 0 else file_byte content cs f db p)
byte-Removed content cs f size p db db1 c r =
    let at : chunk_at f (p / cs) db1.file_chunks ≡ (
        if leb (first_removed cs size) (p / cs) then none else chunk_at f (p / cs) db.file_chunks) =
      r.mapped f (p / cs) ∙ ground arith in
    elim (Bool-cases (leb (first_removed cs size) (p / cs))) [
      | inl gone ↦
          file_byte-mapped content cs f p db1 r.consistent
          ∙ ap (λ o. mapped_byte content o (p % cs)) at
          ∙ rw gone refl
      | inr kept ↦
          file_byte-mapped content cs f p db1 r.consistent
          ∙ ap (λ o. mapped_byte content o (p % cs)) at
          ∙ rw kept (sym (file_byte-mapped content cs f p db c))
    ]

pub uncut-IsCut :
    (content : ℕ → Bytes) (cs f size old_size : ℕ) (db db1 : Db)
    → 0 < cs
    → IsConsistent db
    → IsZeroBehind old_size (file_byte content cs f db)
    → Removed f (first_removed cs size) db db1
    → ltb size old_size && not (size % cs == 0) ≡ false
    → IsCut content cs f size db db1
uncut-IsCut content cs f size old_size db db1 h c z r uncut = record {
  consistent = r.consistent;
  inodes = r.inodes;
  every_byte = λ p.
      byte-Removed content cs f size p db db1 c r
      ∙ uncut_byte cs size old_size p (file_byte content cs f db) h z uncut;
  others = λ g j ne. r.mapped g j ∙ rw ne refl;
}

-- The chunk of the new end, which is mapped to the bytes before the end.
module _ (content : ℕ → Bytes) (zstd : Zstd) (config : Config) (compress : Bool) (cs f size : ℕ)
    (d : Bytes) (db db1 db2 : Db) (h : 0 < cs) (c : IsConsistent db)
    (r : Removed f (first_removed cs size) db db1) (c2 : IsConsistent db2)
    (digest_stands : content (zstd.digest d) ≡ d) (long : length d ≡ size % cs)
    (good : (i : ℕ)
      → i < length d
      → byte i d ≡ chunk_byte content (chunk_block f (size / cs) db1) i)
    (mapped : (g j : ℕ)
      → chunk_at g j db2.file_chunks ≡ (
          if f == g
          then committed
              (prepared_chunks zstd config compress ((size / cs, d) ∷ []))
              j
              (chunk_at g j db1.file_chunks)
          else chunk_at g j db1.file_chunks)) where
  end_byte :
      (p : ℕ)
      → p / cs ≡ size / cs
      → file_byte content cs f db2 p ≡ (if ltb p size then file_byte content cs f db1 p else 0)
  unfolding prepared_block
  end_byte p e =
      let at : chunk_at f (p / cs) db2.file_chunks ≡ some (zstd.digest d, length d) =
        mapped f (p / cs) ∙ ground (arith, e) in
      let own : file_byte content cs f db2 p ≡ byte (p % cs) d =
        file_byte-mapped content cs f p db2 c2
        ∙ ap (λ o. mapped_byte content o (p % cs)) at
        ∙ ap (byte (p % cs)) digest_stands in
      let places : p / cs * cs ≡ size / cs * cs = ap (λ x. x * cs) e in
      elim (Bool-cases (ltb p size)) [
        | inl below ↦
            let inside : p % cs < length d = omega (
              arith,
              long,
              places,
              (chunk_of p cs h).2,
              (chunk_of size cs h).2,
              ltb_lem p size below,
            ) in
            own
            ∙ good (p % cs) inside
            ∙ ap (λ j. chunk_byte content (chunk_block f j db1) (p % cs)) (sym e)
            ∙ rw below refl
        | inr behind ↦
            let past : length d ≤ p % cs = omega (
              arith,
              long,
              places,
              (chunk_of p cs h).2,
              (chunk_of size cs h).2,
              not_ltb p size behind,
            ) in
            own ∙ byte_past (p % cs) d past ∙ rw behind refl
      ]

  other_byte :
      (p : ℕ)
      → p / cs == size / cs ≡ false
      → file_byte content cs f db2 p ≡ file_byte content cs f db1 p
  other_byte p ne =
      let at : chunk_at f (p / cs) db2.file_chunks ≡ chunk_at f (p / cs) db1.file_chunks =
        mapped f (p / cs) ∙ ground (arith, ne) in
      file_byte-mapped content cs f p db2 c2
      ∙ ap (λ o. mapped_byte content o (p % cs)) at
      ∙ sym (file_byte-mapped content cs f p db1 r.consistent)

  pub cut_byte :
      (p : ℕ)
      → file_byte content cs f db2 p ≡ (if ltb p size then file_byte content cs f db p else 0)
  cut_byte p =
      let removed = byte-Removed content cs f size p db db1 c r in
      elim (Bool-cases (ltb p size)) [
        | inl below ↦
            let kept = before_end cs size p h (ltb_lem p size below) in
            elim (Bool-cases (p / cs == size / cs)) [
              | inl same ↦ end_byte p (ground (arith, same)) ∙ rw below (removed ∙ rw kept refl)
              | inr other ↦ other_byte p other ∙ removed ∙ rw (below, kept) refl
            ]
        | inr behind ↦ elim (Bool-cases (p / cs == size / cs)) [
          | inl same ↦ end_byte p (ground (arith, same)) ∙ rw behind refl
          | inr other ↦ elim (Bool-cases (leb (first_removed cs size) (p / cs))) [
            | inl gone ↦ other_byte p other ∙ removed ∙ rw (behind, gone) refl
            | inr kept ↦
                let (e, _) = last_chunk cs size p h (not_ltb p size behind) kept in
                absurd (ground (arith, e, other))
          ]
        ]
      ]
