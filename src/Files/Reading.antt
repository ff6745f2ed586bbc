-- ===== src/Files/Reading.antt =====
-- file_content.py: what `plan_read` and `execute_read_plan` return together, byte by byte.
use native.Mathlib.Omega.{div_any}
use native.Mathlib.Nat.{mul-le-mul_right, mod-lt}
use ztierfs.Common.{
  ℕ, zero, suc, ◌+◌, ◌-◌, ◌*◌, ◌/◌, ◌%◌, ◌≤◌, ◌<◌, ◌≡◌, refl, sym, ◌∙◌, ap, Bool, true, false, ◌&&◌,
  Option, none, some, List, [], ◌∷◌, ◌++◌, leb, ltb, ◌==◌, if◌then◌else◌, length, take,
  length-append, length-take, min, max, Result, ok, arith, Bool-cases, inl, inr,
}
use ztierfs.Common.Bytes.{
  Bytes, byte, zeros, slice, ljust, byte-append, byte-slice, byte-ljust, byte-take, byte-zeros,
  length-zeros, length-slice, length-ljust,
}
use ztierfs.Common.Dict.{lookup}
use ztierfs.Handles.{Kind}
use ztierfs.Metadata.Schema.{Chunk, Inode, Db}
use ztierfs.Metadata.Chunks.{Row, find_row, find_rows, chunk_block, chunk_blocks}
use ztierfs.Files.{
  ChunkRead, plan_chunk, each_index, row_at, plan_range, plan_read, read_piece, execute_read_plan,
}

-- What the content service asks of the block store: a row that can be read is read as the bytes of
-- its digest, cut off or filled up with zeros.
pub record BlockReader (read_block : Row → ℕ → Result Bytes) : Type 1 where
  pub content : ℕ → Bytes
  pub IsReadable : Row → Type 0
  pub reads :
      (row : Row) (n : ℕ)
      → IsReadable row
      → read_block row n ≡ ok (ljust n (take n (content row.hash)))

-- The byte of a chunk; no row, and what is behind the end of a block, is zeros.
abbrev pub chunk_byte : (ℕ → Bytes) → Option Row → ℕ → ℕ
chunk_byte content none j = 0
chunk_byte content (some row) j = byte j (content row.hash)

abbrev pub AllReadable : (Row → Type 0) → Option Row → Type 0
AllReadable P none = Unit
AllReadable P (some row) = P row

-- A place lies in one chunk only.
pub same_chunk : (cs i j k : ℕ) → i * cs ≤ j * cs + k → j * cs + k < i * cs + cs → k < cs → j ≡ i
same_chunk cs i j k lo up s = elim (Bool-cases (ltb j i)) [
  | inl below ↦
      absurd (omega (arith, lo, s, mul-le-mul_right {m = suc j} {n = i} cs (ground arith)))
  | inr above ↦ elim (Bool-cases (ltb i j)) [
    | inl over ↦ absurd (omega (arith, up, mul-le-mul_right {m = suc i} {n = j} cs (ground arith)))
    | inr equal ↦ ground arith
  ]
]

-- The bytes of the first piece, where more follows it.
first_piece :
    (content : ℕ → Bytes) (rows : ℕ → Option Row) (cs offset i j k : ℕ) (d rest : Bytes)
    → ((m : ℕ) → m < length d → byte m d ≡ chunk_byte content (rows i) (offset - i * cs + m))
    → max offset (i * cs) ≤ j * cs + k
    → j * cs + k < max offset (i * cs) + length d
    → max offset (i * cs) + length d ≤ i * cs + cs
    → k < cs
    → byte (j * cs + k - max offset (i * cs)) (d ++ rest) ≡ chunk_byte content (rows j) k
first_piece content rows cs offset i j k d rest here lo up fits s =
    let m = j * cs + k - max offset (i * cs) in
    let p : j ≡ i = same_chunk cs i j k (omega (arith, lo)) (omega (arith, up, fits)) s in
    let q : j * cs ≡ i * cs = ap (λ x. x * cs) p in
    let first : byte m (d ++ rest) ≡ byte m d = ground (arith, byte-append m d rest) in
    let inside : byte m d ≡ chunk_byte content (rows i) (offset - i * cs + m) =
      here m (omega (arith, up, lo)) in
    first
    ∙ inside
    ∙ ap (chunk_byte content (rows i)) (omega (arith, q, lo))
    ∙ ap (λ x. chunk_byte content (rows x) k) (sym p)

module _ {read_block : Row → ℕ → Result Bytes} (store : BlockReader read_block) where
  -- One piece: the bytes of the range that lie in the chunk.
  piece :
      (o : Option Row) (i e start stop : ℕ)
      → AllReadable store.IsReadable o
      → stop ≤ e
      → (d : Bytes) × (read_piece read_block
            (record { row = o; chunk_index = i; expected_size = e; start = start; stop = stop })
          ≡ ok d)
        × (length d ≡ stop - start)
        × ((k : ℕ) → k < stop - start → byte k d ≡ chunk_byte store.content o (start + k))
  piece none i e start stop r h =
      (zeros (stop - start), refl, length-zeros (stop - start), λ k l. byte-zeros k (stop - start))
  piece (some row) i e start stop r h =
      let whole = take e (store.content row.hash) in
      (
        slice start stop (ljust e whole),
        rw (store.reads row e r) refl,
        ground (
          arith,
          length-slice start stop (ljust e whole),
          length-ljust e whole,
          length-take e (store.content row.hash),
        ),
        λ k l. ground (
          arith,
          byte-slice k start stop (ljust e whole),
          byte-ljust (start + k) e whole,
          byte-take (start + k) e (store.content row.hash),
        ),
      )

  -- The pieces of one chunk after another: the bytes from the first place that is asked for in chunk
  -- `i` up to `end`.
  pieces :
      (cs fsize offset end : ℕ) (rows : ℕ → Option Row) (n i : ℕ)
      → end ≤ fsize
      → offset < i * cs + cs
      → i * cs + n * cs < end
      → end ≤ i * cs + n * cs + cs
      → ((j : ℕ) → AllReadable store.IsReadable (rows j))
      → (d : Bytes) × (execute_read_plan read_block
            (each_index (plan_chunk cs fsize offset end rows) i (suc n))
          ≡ ok d)
        × (length d ≡ end - max offset (i * cs))
        × ((j k : ℕ)
            → max offset (i * cs) ≤ j * cs + k
            → j * cs + k < end
            → k < cs
            → byte (j * cs + k - max offset (i * cs)) d ≡ chunk_byte store.content (rows j) k)
  unfolding execute_read_plan each_index
  pieces cs fsize offset end rows zero i he ho hi hn r =
      let e = min (i * cs + cs) fsize - i * cs in
      let (d, read, long, here) =
        piece (rows i) i e (offset - i * cs) (min (end - i * cs) e) (r i) (omega arith) in
      (
        d ++ [],
        rw read refl,
        ground (arith, length-append d []),
        λ j k lo up s.
            first_piece store.content rows cs offset i j k d []
              (λ m l. here m (omega (arith, l, long))) lo (omega (arith, long, up, lo))
              (omega (arith, long, he, hn)) s,
      )
  pieces cs fsize offset end rows (suc n) i he ho hi hn r =
      let start = offset - i * cs in
      let e = min (i * cs + cs) fsize - i * cs in
      let (d, read, long, here) =
        piece (rows i) i e start (min (end - i * cs) e) (r i) (omega arith) in
      let (rest, done, long', there) =
        pieces cs fsize offset end rows n (suc i) he (omega (arith, ho)) (omega (arith, hi))
          (omega (arith, hn)) r in
      (
        d ++ rest,
        rw (read, done) refl,
        ground (arith, length-append d rest, he),
        λ j k lo up s. elim (Bool-cases (ltb (j * cs + k) (i * cs + cs))) [
          | inl inside ↦
              first_piece store.content rows cs offset i j k d rest
                (λ m l. here m (omega (arith, l, long))) lo (ground arith)
                (omega (arith, long, he, hn)) s
          | inr behind ↦
              let m = j * cs + k - max offset (i * cs) in
              let second : byte m (d ++ rest) ≡ byte (m - length d) rest =
                ground (arith, byte-append m d rest) in
              second ∙ ap (λ x. byte x rest) (ground arith) ∙ there j k (ground arith) up s
        ],
      )

lookup-find_rows :
    (f first last i : ℕ) (db : Db) (rows : List Chunk)
    → lookup i (find_rows f first last db rows)
      ≡ (if leb first i && leb i last then find_row f i db rows else none)
unfolding find_rows find_row
lookup-find_rows f first last i db [] = ground arith
lookup-find_rows f first last i db (r ∷ rows) =
    ground (arith, lookup-find_rows f first last i db rows)

-- The dictionary of `chunk_blocks` has for each index of its range what `chunk_block` returns for it,
-- and nothing outside the range.
pub lookup-chunk_blocks :
    (f first last i : ℕ) (db : Db)
    → lookup i (chunk_blocks f first last db)
      ≡ (if leb first i && leb i last then chunk_block f i db else none)
unfolding chunk_blocks chunk_block
lookup-chunk_blocks f first last i db = lookup-find_rows f first last i db db.file_chunks

-- The chunk of a place, and the place in it.
pub chunk_of :
    (a cs : ℕ)
    → 0 < cs
    → (a / cs * cs ≤ a) × (a < a / cs * cs + cs) × (a / cs * cs + a % cs ≡ a) × (a % cs < cs)
chunk_of a cs h =
    let rest : a % cs < cs = mod-lt a {m = cs} h in
    let sum : a / cs * cs + a % cs ≡ a = omega (arith, div_any a cs) in
    (omega (arith, sum), omega (arith, sum, rest), sum, rest)

pub chunk_mono : (a b cs : ℕ) → 0 < cs → a ≤ b → a / cs ≤ b / cs
chunk_mono a b cs h l = elim (Bool-cases (ltb (b / cs) (a / cs))) [
  | inl over ↦ absurd (
      omega (
        arith,
        l,
        (chunk_of a cs h).0,
        (chunk_of b cs h).1,
        mul-le-mul_right {m = suc (b / cs)} {n = a / cs} cs (ground arith),
      ))
  | inr fine ↦ ground arith
]

-- The byte that stands at a place of the file, within its size.
abbrev pub file_byte : (ℕ → Bytes) → ℕ → ℕ → Db → ℕ → ℕ
file_byte content cs f db p = chunk_byte content (chunk_block f (p / cs) db) (p % cs)

module _ {read_block : Row → ℕ → Result Bytes} (store : BlockReader read_block) where
  row_at_lem :
      (f first last i : ℕ) (db : Db)
      → first ≤ i
      → i ≤ last
      → row_at f first last db i ≡ chunk_block f i db
  row_at_lem f first last i db lo up = ground (arith, lookup-chunk_blocks f first last i db)

  pub readable_if :
      (b : Bool) (o : Option Row)
      → AllReadable store.IsReadable o
      → AllReadable store.IsReadable (if b then o else none)
  readable_if true o r = r
  readable_if false o r = tt

  readable_at :
      (f first last i : ℕ) (db : Db)
      → ((j : ℕ) → AllReadable store.IsReadable (chunk_block f j db))
      → AllReadable store.IsReadable (row_at f first last db i)
  readable_at f first last i db r = elim (Bool-cases (first == last)) [
    | inl one ↦ rw one (r i)
    | inr more ↦ rw (more, lookup-chunk_blocks f first last i db) (readable_if _ _ (r i))
  ]

  plan_range_lem :
      (cs f fsize offset end : ℕ) (db : Db)
      → 0 < cs
      → offset < end
      → end ≤ fsize
      → ((j : ℕ) → AllReadable store.IsReadable (chunk_block f j db))
      → (d : Bytes) × (execute_read_plan read_block (plan_range cs f fsize offset end db) ≡ ok d)
        × (length d ≡ end - offset)
        × ((k : ℕ) → k < length d → byte k d ≡ file_byte store.content cs f db (offset + k))
  unfolding plan_range
  plan_range_lem cs f fsize offset end db h ho he r =
      let first = offset / cs in
      let last = (end - 1) / cs in
      let n = last - first in
      let rows = row_at f first last db in
      let a = chunk_of offset cs h in
      let b = chunk_of (end - 1) cs h in
      let order : first ≤ last = chunk_mono offset (end - 1) cs h (omega (arith, ho)) in
      let count : last + 1 - first ≡ suc n = omega (arith, order) in
      let sum : first + n ≡ last = omega (arith, order) in
      let width : first * cs + n * cs ≡ last * cs = omega (arith, ap (λ x. x * cs) sum) in
      let (d, done, long, there) =
        pieces store cs fsize offset end rows n first he a.1 (omega (arith, width, b.0, ho))
          (omega (arith, width, b.1)) (λ j. readable_at f first last j db r) in
      (
        d,
        ap
              (λ x.
                execute_read_plan read_block
                  (each_index (plan_chunk cs fsize offset end rows) first x))
              count
            ∙ done,
        omega (arith, long, a.0),
        λ k l.
            let p = offset + k in
            let c = chunk_of p cs h in
            ap (λ x. byte x d) (omega (arith, c.2, a.0))
            ∙ there (p / cs) (p % cs) (omega (arith, c.2, a.0)) (omega (arith, c.2, a.0, l, long))
                c.3
            ∙ ap (λ x. chunk_byte store.content x (p % cs))
                (row_at_lem f first last (p / cs) db (chunk_mono offset p cs h (omega arith))
                  (chunk_mono p (end - 1) cs h (omega (arith, a.0, l, long)))),
      )

  -- For a regular file whose blocks can all be read, `plan_read` and `execute_read_plan` raise nothing
  -- and return the bytes of the file from `offset` on: `size` of them, or as many as the file still
  -- has. Where no chunk is mapped, they are zeros.
  pub plan_read-execute_read_plan :
      (cs f size offset : ℕ) (node : Inode) (db : Db)
      → 0 < cs
      → node.kind ≡ Kind.file
      → ((j : ℕ) → AllReadable store.IsReadable (chunk_block f j db))
      → (plan : List ChunkRead) × (d : Bytes) × (plan_read cs f node size offset db ≡ ok plan)
        × (execute_read_plan read_block plan ≡ ok d)
        × (length d ≡ min (offset + size) node.size - offset)
        × ((k : ℕ) → k < length d → byte k d ≡ file_byte store.content cs f db (offset + k))
  unfolding plan_read execute_read_plan
  plan_read-execute_read_plan cs f size offset node db h file r = elim (Bool-cases (size == 0)) [
    | inl none_asked ↦
        ([], [], rw none_asked refl, refl, ground arith, λ k l. absurd (omega (arith, l)))
    | inr some_asked ↦ elim (Bool-cases (leb node.size offset)) [
      | inl behind ↦ (
        [],
        [],
        rw (some_asked, file, behind) refl,
        refl,
        ground arith,
        λ k l. absurd (omega (arith, l)),
      )
      | inr inside ↦
          let end = min (offset + size) node.size in
          let (d, done, long, there) =
            plan_range_lem cs f node.size offset end db h (ground arith) (omega arith) r in
          (
            plan_range cs f node.size offset end db,
            d,
            rw (some_asked, file, inside) refl,
            done,
            long,
            there,
          )
    ]
  ]
