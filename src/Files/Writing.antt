-- ===== src/Files/Writing.antt =====
-- file_content.py: the new bytes of the chunks that a write touches.
use ztierfs.Common.{
  ℕ, zero, suc, ◌+◌, ◌-◌, ◌*◌, ◌/◌, ◌%◌, ◌≤◌, ◌<◌, ◌≡◌, refl, sym, ◌∙◌, ap, Bool, true, false, ◌&&◌,
  Option, none, some, [], ◌∷◌, leb, ltb, ◌==◌, if◌then◌else◌, length, take, length-take, min, max,
  Result, ok, arith, Bool-cases, inl, inr,
}
use mathlib.Core.Path.{subst}
use ztierfs.Common.Dict.{Dict, lookup}
use ztierfs.Common.Bytes.{
  Bytes, byte, zeros, slice, splice, ljust, byte-slice, byte-ljust, byte-take, byte-zeros,
  byte-splice, length-zeros, length-slice, length-ljust, length-splice,
}
use ztierfs.Handles.{Kind}
use ztierfs.Metadata.Schema.{Inode, Db}
use ztierfs.Metadata.Chunks.{keys, Row, chunk_block, chunk_blocks}
use ztierfs.Files.{
  each_index, WriteKind, WritePlan, write_chunk_kind, plan_write_chunk, plan_write_chunks,
  plan_write_range, plan_write_file, read_planned_chunk, pending_chunk, pending_chunks,
}
use ztierfs.Files.Reading.{
  BlockReader, AllReadable, file_byte, same_chunk, readable_if, chunk_byte, chunk_of, chunk_mono,
  lookup-chunk_blocks,
}

-- The file after a write: the new bytes in their range, elsewhere the old ones, and zeros from the
-- old end on.
abbrev pub written : ℕ → Bytes → ℕ → (ℕ → ℕ) → ℕ → ℕ
written offset bytes old_size old p =
    if leb offset p && ltb p (offset + length bytes)
    then byte (p - offset) bytes
    else if ltb p old_size
    then old p
    else 0

written_congr :
    (offset : ℕ) (bytes : Bytes) (old_size : ℕ) (f g : ℕ → ℕ) (p : ℕ)
    → f p ≡ g p
    → written offset bytes old_size f p ≡ written offset bytes old_size g p
written_congr offset bytes old_size f g p e = rw e refl

splice_inside :
    (start stop j : ℕ) (source whole : Bytes)
    → start + length source ≡ stop
    → stop ≤ length whole
    → leb start j ≡ true
    → ltb j stop ≡ true
    → byte j (splice start stop source whole) ≡ byte (j - start) source
splice_inside start stop j source whole fits inside lo up =
    byte-splice j start stop source whole fits inside ∙ rw (lo, up) refl

splice_outside :
    (start stop j : ℕ) (source whole : Bytes)
    → start + length source ≡ stop
    → stop ≤ length whole
    → leb start j && ltb j stop ≡ false
    → byte j (splice start stop source whole) ≡ byte j whole
splice_outside start stop j source whole fits inside out =
    byte-splice j start stop source whole fits inside ∙ ground (arith, out)

source_byte :
    (from j n : ℕ) (bytes : Bytes)
    → j < n
    → byte j (slice from (from + n) bytes) ≡ byte (from + j) bytes
source_byte from j n bytes h = ground (arith, byte-slice j from (from + n) bytes)

old_same :
    (cs old_size a j : ℕ) (f : ℕ → ℕ)
    → j < cs
    → (if ltb j (min cs (old_size - a)) then f j else 0)
      ≡ (if ltb (a + j) old_size then f (a + j - a) else 0)
old_same cs old_size a j f h =
    let back : a + j - a ≡ j = omega arith in
    let same : ltb j (min cs (old_size - a)) ≡ ltb (a + j) old_size = ground arith in
    rw (back, same) refl

module _ {read_block : Row → ℕ → Result Bytes} (store : BlockReader read_block) where
  -- The old bytes of a chunk, zeros where no row is.
  old_bytes :
      (o : Option Row) (i len existing start stop source : ℕ) (kind : WriteKind)
      → AllReadable store.IsReadable o
      → (d : Bytes) × (read_planned_chunk read_block (record {
        chunk_index = i;
        chunk_len = len;
        existing_len = existing;
        write_start = start;
        write_stop = stop;
        source_start = source;
        row = o;
        kind = kind;
      })
          ≡ ok d)
        × (length d ≡ existing)
        × ((j : ℕ) → byte j d ≡ (if ltb j existing then chunk_byte store.content o j else 0))
  unfolding read_planned_chunk
  old_bytes o i len zero start stop source kind r = ([], refl, refl, λ j. ground arith)
  old_bytes none i len (suc e) start stop source kind r =
      (zeros (suc e), ground arith, length-zeros (suc e), λ j. ground (arith, byte-zeros j (suc e)))
  old_bytes (some row) i len (suc e) start stop source kind r =
      let whole = take (suc e) (store.content row.hash) in
      (
        ljust (suc e) whole,
        rw (store.reads row (suc e) r) (ground arith),
        length-ljust (suc e) whole (ground (arith, length-take (suc e) (store.content row.hash))),
        λ j.
            ground
              (arith, byte-ljust j (suc e) whole, byte-take j (suc e) (store.content row.hash)),
      )

  -- The bytes of a chunk that is written in part.
  part_written :
      (cs old_size offset i j : ℕ) (bytes : Bytes) (o : Option Row) (stop len from : ℕ)
      (whole : Bytes)
      → offset - i * cs + length (slice from (from + (stop - (offset - i * cs))) bytes) ≡ stop
      → stop ≤ length whole
      → j < len
      → len ≤ cs
      → stop ≡ min (offset + length bytes - i * cs) len
      → from ≡ i * cs - offset
      → ((m : ℕ)
          → byte m whole
            ≡ (if ltb m (min cs (old_size - i * cs)) then chunk_byte store.content o m else 0))
      → byte j (
          splice
            (offset - i * cs)
            stop
            (slice from (from + (stop - (offset - i * cs))) bytes)
            whole)
        ≡ written offset bytes old_size (λ p. chunk_byte store.content o (p - i * cs)) (i * cs + j)
  part_written cs old_size offset i j bytes o stop len from whole fits inside short width is_stop
        is_from here =
      let start = offset - i * cs in
      let source = slice from (from + (stop - start)) bytes in
      let back : leb offset (i * cs + j) ≡ true → from + (j - start) ≡ i * cs + j - offset =
        (λ h. ground (arith, h, is_from)) in
      elim (Bool-cases (leb offset (i * cs + j) && ltb (i * cs + j) (offset + length bytes))) [
        | inl new ↦
            splice_inside start stop j source whole fits inside (ground (arith, new))
              (ground (arith, new, is_stop, short))
            ∙ source_byte from (j - start) (stop - start) bytes
                (ground (arith, new, is_stop, short))
            ∙ ap (λ x. byte x bytes) (back (ground (arith, new)))
            ∙ rw new refl
        | inr old ↦
            splice_outside start stop j source whole fits inside
              (ground (arith, old, is_stop, short))
            ∙ here j
            ∙ rw old (
                old_same cs old_size (i * cs) j (chunk_byte store.content o)
                  (omega (arith, short, width)))
      ]

  -- One chunk: as long as its part of the new file, with the bytes of the new file.
  chunk_written :
      (cs old_size offset i : ℕ) (bytes : Bytes) (rows : Dict Row)
      → i * cs < offset + length bytes
      → offset < i * cs + cs
      → AllReadable store.IsReadable (lookup i rows)
      → (d : Bytes) × (pending_chunk read_block bytes (
            plan_write_chunk cs old_size
              (max old_size (offset + length bytes))
              offset
              (offset + length bytes)
              rows
              (i * cs - offset)
              i)
          ≡ ok d)
        × (length d ≡ min cs (max old_size (offset + length bytes) - i * cs))
        × ((j : ℕ)
            → j < length d
            → byte j d
              ≡ written offset bytes old_size
                  (λ p. chunk_byte store.content (lookup i rows) (p - i * cs))
                  (i * cs + j))
  unfolding pending_chunk write_chunk_kind
  chunk_written cs old_size offset i bytes rows hi ho r =
      let new_size = max old_size (offset + length bytes) in
      let len = min (i * cs + cs) new_size - i * cs in
      let existing = min cs (old_size - i * cs) in
      let start = offset - i * cs in
      let stop = min (offset + length bytes - i * cs) len in
      let source = slice (i * cs - offset) (i * cs - offset + (stop - start)) bytes in
      let kind = write_chunk_kind len existing start stop in
      let (old, read, long, here) =
        old_bytes (lookup i rows) i len existing start stop (i * cs - offset) kind r in
      elim (Bool-cases (start == 0 && stop == len)) [
        | inl full ↦ (
          source,
          rw full refl,
          ground (arith, length-slice (i * cs - offset) (i * cs - offset + (stop - start)) bytes),
          λ j l. ground (
            arith,
            byte-slice j (i * cs - offset) (i * cs - offset + (stop - start)) bytes,
            length-slice (i * cs - offset) (i * cs - offset + (stop - start)) bytes,
          ),
        )
        | inr part ↦
            let whole = ljust len old in
            let fits : start + length source ≡ stop =
              ground
                (arith, length-slice (i * cs - offset) (i * cs - offset + (stop - start)) bytes) in
            let whole_long : length whole ≡ len = length-ljust len old (ground (arith, long)) in
            (
              splice start stop source whole,
              rw (read, part) (ground arith),
              ground (arith, length-splice start stop source whole fits, whole_long),
              λ j l.
                  part_written cs old_size offset i j bytes (lookup i rows) stop len
                    (i * cs - offset) whole fits (ground (arith, whole_long))
                    (ground (arith, l, length-splice start stop source whole fits, whole_long))
                    (ground arith) refl refl (λ m. byte-ljust m len old ∙ here m),
            )
      ]

  -- What a chunk of the new file is to be.
  abbrev pub ChunkOk : ℕ → ℕ → ℕ → Bytes → (ℕ → ℕ) → ℕ → Bytes → Type 0
  ChunkOk cs old_size offset bytes old j d =
      (length d ≡ min cs (max old_size (offset + length bytes) - j * cs))
      × ((k : ℕ) → k < length d → byte k d ≡ written offset bytes old_size old (j * cs + k))

  chunks_written :
      (cs old_size offset : ℕ) (bytes : Bytes) (rows : Dict Row) (n i : ℕ)
      → i * cs + n * cs < offset + length bytes
      → offset < i * cs + cs
      → ((j : ℕ) → AllReadable store.IsReadable (lookup j rows))
      → (new : Dict Bytes) × (pending_chunks read_block bytes (
            plan_write_chunks cs old_size
              (max old_size (offset + length bytes))
              offset
              (offset + length bytes)
              rows
              (i * cs - offset)
              i
              (suc n))
          ≡ ok new)
        × (keys new ≡ each_index (λ x. x) i (suc n))
        × ((j : ℕ)
            → i ≤ j
            → j ≤ i + n
            → (d : Bytes) × (lookup j new ≡ some d)
              × ChunkOk cs old_size offset bytes
                  (λ p. chunk_byte store.content (lookup j rows) (p - j * cs))
                  j
                  d)
  unfolding pending_chunks plan_write_chunks each_index
  chunks_written cs old_size offset bytes rows zero i hi ho r =
      let (d, done, long, here) =
        chunk_written cs old_size offset i bytes rows (omega (arith, hi)) ho (r i) in
      (
        (i, d) ∷ [],
        rw done refl,
        refl,
        λ j lo up.
            let p : i ≡ j = omega (arith, lo, up) in
            (
              d,
              ground (arith, p),
              subst
                  (λ x.
                    ChunkOk cs old_size offset bytes
                      (λ p. chunk_byte store.content (lookup x rows) (p - x * cs)) x d)
                  p (long, here),
            ),
      )
  chunks_written cs old_size offset bytes rows (suc n) i hi ho r =
      let new_size = max old_size (offset + length bytes) in
      let (d, done, long, here) =
        chunk_written cs old_size offset i bytes rows (omega (arith, hi)) ho (r i) in
      let (rest, done', keys', there) =
        chunks_written cs old_size offset bytes rows n (suc i) (omega (arith, hi))
          (omega (arith, ho)) r in
      let used : i * cs
            - offset
            + (min (offset + length bytes - i * cs) (min (i * cs + cs) new_size - i * cs)
                - (offset - i * cs))
          ≡ suc i * cs - offset =
        omega (arith, hi, ho) in
      (
        (i, d) ∷ rest,
        rw
            (
              done,
              ap
                    (λ x. pending_chunks read_block bytes (
                      plan_write_chunks cs old_size new_size offset (offset + length bytes) rows x
                        (suc i) (suc n)))
                    used
                  ∙ done',
            )
            refl,
        ap (λ x. i ∷ x) keys',
        λ j lo up. elim (Bool-cases (j == i)) [
          | inl first ↦
              let p : i ≡ j = ground (arith, first) in
              (
                d,
                rw first refl,
                subst
                    (λ x.
                      ChunkOk cs old_size offset bytes
                        (λ p. chunk_byte store.content (lookup x rows) (p - x * cs)) x d)
                    p (long, here),
              )
          | inr later ↦
              let (e, found, good) = there j (ground (arith, lo, later)) (omega (arith, up)) in
              (e, rw later found, good)
        ],
      )

  same_byte :
      (cs f j k : ℕ) (db : Db)
      → 0 < cs
      → k < cs
      → chunk_byte store.content (chunk_block f j db) (j * cs + k - j * cs)
        ≡ file_byte store.content cs f db (j * cs + k)
  same_byte cs f j k db h s =
      let c = chunk_of (j * cs + k) cs h in
      let p : (j * cs + k) / cs ≡ j =
        same_chunk cs j ((j * cs + k) / cs) ((j * cs + k) % cs) (omega (arith, c.2))
          (omega (arith, c.2, s)) c.3 in
      let q : j * cs + k - j * cs ≡ (j * cs + k) % cs = omega (arith, c.2, ap (λ x. x * cs) p) in
      ap (chunk_byte store.content (chunk_block f j db)) q
      ∙ ap (λ x. chunk_byte store.content (chunk_block f x db) ((j * cs + k) % cs)) (sym p)

  readable_rows :
      (f first last i : ℕ) (db : Db)
      → ((j : ℕ) → AllReadable store.IsReadable (chunk_block f j db))
      → AllReadable store.IsReadable (lookup i (chunk_blocks f first last db))
  readable_rows f first last i db r =
      rw (lookup-chunk_blocks f first last i db) (readable_if store _ _ (r i))

  pub write_range_lem :
      (cs f old_size offset : ℕ) (bytes : Bytes) (db : Db)
      → 0 < cs
      → 0 < length bytes
      → ((j : ℕ) → AllReadable store.IsReadable (chunk_block f j db))
      → let first = offset / cs in
        let last = (offset + length bytes - 1) / cs in
        (new : Dict Bytes) × (pending_chunks read_block bytes
            (plan_write_range cs f old_size offset bytes db)
          ≡ ok new)
        × (keys new ≡ each_index (λ x. x) first (last + 1 - first))
        × ((j : ℕ)
            → first ≤ j
            → j ≤ last
            → (d : Bytes) × (lookup j new ≡ some d)
              × ChunkOk cs old_size offset bytes (file_byte store.content cs f db) j d)
  write_range_lem cs f old_size offset bytes db h some_bytes r =
      let first = offset / cs in
      let stop = offset + length bytes in
      let last = (stop - 1) / cs in
      let n = last - first in
      let rows = chunk_blocks f first last db in
      let a = chunk_of offset cs h in
      let b = chunk_of (stop - 1) cs h in
      let order : first ≤ last = chunk_mono offset (stop - 1) cs h (omega (arith, some_bytes)) in
      let count : suc n ≡ last + 1 - first = omega (arith, order) in
      let sum : first + n ≡ last = omega (arith, order) in
      let start : 0 ≡ first * cs - offset = omega (arith, a.0) in
      let (new, done, keys', there) =
        chunks_written cs old_size offset bytes rows n first
          (omega (arith, ap (λ x. x * cs) sum, b.0, some_bytes)) a.1
          (λ j. readable_rows f first last j db r) in
      (
        new,
        ap
              (λ x. pending_chunks read_block bytes (
                plan_write_chunks cs old_size (max old_size stop) offset stop rows x first
                  (last + 1 - first)))
              start
            ∙ ap
                (λ x. pending_chunks read_block bytes (
                  plan_write_chunks cs old_size (max old_size stop) offset stop rows
                    (first * cs - offset) first x))
                (sym count)
            ∙ done,
        keys' ∙ ap (each_index (λ x. x) first) count,
        λ j lo up.
            let (d, found, good) = there j lo (omega (arith, up, order)) in
            let here : lookup j rows ≡ chunk_block f j db =
              ground (arith, lookup-chunk_blocks f first last j db, lo, up) in
            (
              d,
              found,
              (
                good.0,
                λ k l.
                    good.1 k l
                    ∙ written_congr offset bytes old_size
                        (λ x. chunk_byte store.content (lookup j rows) (x - j * cs))
                        (file_byte store.content cs f db) (j * cs + k)
                        (ap (λ o. chunk_byte store.content o (j * cs + k - j * cs)) here
                          ∙ same_byte cs f j k db h (omega (arith, l, good.0))),
              ),
            ),
      )

  -- For a regular file whose blocks can all be read, `plan_write_file` and `prepare_file_write` raise
  -- nothing for a write that is not empty. The new size reaches the end of the write. Exactly the
  -- chunks that the write touches get new bytes, once each: as many as the chunk has in the new file,
  -- and each the byte that was written there, or else the one that was there, or zero behind the old
  -- end.
  pub plan_write_file-pending_chunks :
      (cs f offset : ℕ) (compress : Bool) (b : ℕ) (bytes : Bytes) (node : Inode) (db : Db)
      → 0 < cs
      → node.kind ≡ Kind.file
      → ((j : ℕ) → AllReadable store.IsReadable (chunk_block f j db))
      → let first = offset / cs in
        let last = (offset + length (b ∷ bytes) - 1) / cs in
        (plan : WritePlan) × (new : Dict Bytes) × (plan_write_file cs f node compress
            (b ∷ bytes)
            offset
            db
          ≡ ok plan)
        × (plan.new_size ≡ max node.size (offset + length (b ∷ bytes)))
        × (pending_chunks read_block plan.bytes plan.chunks ≡ ok new)
        × (keys new ≡ each_index (λ x. x) first (last + 1 - first))
        × ((j : ℕ)
            → first ≤ j
            → j ≤ last
            → (d : Bytes) × (lookup j new ≡ some d)
              × ChunkOk cs node.size offset (b ∷ bytes) (file_byte store.content cs f db) j d)
  unfolding plan_write_file
  plan_write_file-pending_chunks cs f offset compress b bytes node db h file r =
      let (new, done, keys', there) =
        write_range_lem cs f node.size offset (b ∷ bytes) db h (omega arith) r in
      (
        record {
          file_id = f;
          bytes_written = length (b ∷ bytes);
          old_size = node.size;
          new_size = max node.size (offset + length (b ∷ bytes));
          compress = compress;
          bytes = b ∷ bytes;
          chunks = plan_write_range cs f node.size offset (b ∷ bytes) db;
        },
        new,
        rw file refl,
        refl,
        done,
        keys',
        there,
      )
