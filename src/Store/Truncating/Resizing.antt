-- ===== src/Store/Truncating/Resizing.antt =====
-- file_content.py: what `truncate_file` leaves of a file.
use mathlib.Core.Path.{subst}
use ztierfs.Common.{
  ℕ, ◌-◌, ◌*◌, ◌/◌, ◌%◌, ◌<◌, ◌≡◌, refl, sym, ◌∙◌, ap, Bool, true, false, not, ◌&&◌, some, [], ◌∷◌,
  ◌==◌, ltb, min, length, take, length-take, if◌then◌else◌, Result, ok, is_some, arith, Bool-cases,
  inl, inr,
}
use ztierfs.Common.Dict.{lookup, lookup-modify}
use ztierfs.Common.Bytes.{Bytes, byte-take}
use ztierfs.Metadata.Schema.{Inode, Db}
use ztierfs.Metadata.Namespace.{set_node_size}
use ztierfs.Metadata.Chunks.{Row, chunk_block}
use ztierfs.Metadata.Chunks.Mapping.{chunk_at}
use ztierfs.Metadata.Deltas.{IsConsistent}
use ztierfs.Files.Reading.{BlockReader, AllReadable, file_byte, chunk_of}
use ztierfs.Store.Cache.{Cache}
use ztierfs.Store.Codec.{Config, Zstd, PreparedBlock}
use ztierfs.Store.Writes.{StoreState}
use ztierfs.Store.Writes.Committing.{set_prepared_chunks_lem}
use ztierfs.Store.Writes.NewChunks.{
  prepared_chunks, IsNew, file_byte-mapped, All-IsPrepared, All-IsEncoded,
}
use ztierfs.Store.Writes.Backing.{IsBackedStore, Thinned-IsBackedStore}
use ztierfs.Store.Disk.{answers}
use ztierfs.Store.Writes.ReadBack.{IsZeroBehind, resized}
use ztierfs.Store.Truncating.{
  remove_file_chunks, read_row, read_chunk, cut_chunk, cut_chunks, first_removed, truncate_node,
  truncate_file,
}
use ztierfs.Store.Truncating.Removing.{Removed, remove_file_chunks_lem, remove_file_chunks-Thinned}
use ztierfs.Store.Truncating.Cutting.{
  ltb_lem, read_row_lem, set_chunk-eq, uncut-IsCut, cut_byte, IsCut,
}

-- The inode after a change of the size, which is not touched if the size is the same.
abbrev pub truncated : ℕ → ℕ → Inode → Inode
truncated size now node = if size == node.size then node else resized size now node

pub record IsTruncated (zstd : Zstd) (content : ℕ → Bytes) (cs f size now : ℕ) (node : Inode)
    (db : Db) (s' : StoreState) : Type 0 where
  pub consistent : IsConsistent s'.db
  pub backed : IsBackedStore zstd content s'.db s'.disk
  pub inode : lookup f s'.db.inodes ≡ some (truncated size now node)
  pub every_byte :
      (p : ℕ)
      → file_byte content cs f s'.db p ≡ (if ltb p size then file_byte content cs f db p else 0)
  pub others :
      (g j : ℕ) → f == g ≡ false → chunk_at g j s'.db.file_chunks ≡ chunk_at g j db.file_chunks

read_chunk-eq :
    (read_block : Row → ℕ → Result Bytes) (f j n : ℕ) (db : Db)
    → 0 < n
    → read_chunk read_block f j n db ≡ read_row read_block (chunk_block f j db) n
unfolding read_chunk
read_chunk-eq read_block f j n db h =
    let some_bytes : n == 0 ≡ false = ground arith in rw some_bytes refl

module _ {read_block : Row → ℕ → Result Bytes} (store : BlockReader read_block) (zstd : Zstd)
    (config : Config) (canon : ℕ → PreparedBlock) (cs f size now : ℕ) (compress : Bool)
    (node : Inode) (cache : Cache) (s : StoreState) (db1 : Db) (h : 0 < cs)
    (found : lookup f s.db.inodes ≡ some node) (c : IsConsistent s.db)
    (up : answers 1 s.disk ≡ true) (b : IsBackedStore zstd store.content s.db s.disk)
    (z : IsZeroBehind node.size (file_byte store.content cs f s.db))
    (gone : remove_file_chunks f (first_removed cs size) now s.db ≡ ok db1)
    (readable : AllReadable store.IsReadable (chunk_block f (size / cs) db1))
    (fresh : (d : Bytes)
      → read_chunk read_block f (size / cs) (min cs (node.size - size / cs * cs)) db1 ≡ ok d
      → IsNew zstd config compress canon store.content db1.blocks s.disk.hot
          (size / cs, take (size - size / cs * cs) d)) where
  removed : Removed f (first_removed cs size) s.db db1
  removed =
      let (db', done, r) =
        remove_file_chunks_lem f (first_removed cs size) now s.db c (ap is_some found) in
      let same : db' ≡ db1 = cc (done, gone) in
      subst (Removed f (first_removed cs size) s.db) same r

  still_backed : IsBackedStore zstd store.content db1 s.disk
  still_backed =
      Thinned-IsBackedStore zstd store.content s.db db1 s.disk
        (remove_file_chunks-Thinned f (first_removed cs size) now s.db db1 gone) b

  cut_chunk_lem :
      (s' : StoreState) × (cut_chunk zstd config read_block cs f compress node.size size now cache
          (record s { db = db1 })
        ≡ ok s')
      × IsCut store.content cs f size s.db s'.db
      × IsBackedStore zstd store.content s'.db s'.disk
  unfolding cut_chunk
  cut_chunk_lem = elim (Bool-cases (ltb size node.size && not (size % cs == 0))) [
    | inr uncut ↦ (
      record s { db = db1 },
      rw uncut refl,
      uncut-IsCut store.content cs f size node.size s.db db1 h c z removed uncut,
      still_backed,
    )
    | inl cut ↦
        let last = size / cs in
        let n = min cs (node.size - last * cs) in
        let b = chunk_of size cs h in
        let shorter = ltb_lem size node.size (ground (arith, cut)) in
        let some_rest : 0 < size % cs = ground (arith, cut) in
        let some_bytes : 0 < n = omega (arith, h, b.0, shorter) in
        let (chunk, got, long, good) = read_row_lem store (chunk_block f last db1) n readable in
        let read = read_chunk-eq read_block f last n db1 some_bytes ∙ got in
        let d = take (size - last * cs) chunk in
        let new = fresh chunk read in
        let full : length d ≡ size % cs =
          omega (arith, length-take (size - last * cs) chunk, long, b.2, shorter, b.3) in
        let (s2, stored, c2, inodes, backed, mapped) =
          set_prepared_chunks_lem zstd config canon store.content f
            (prepared_chunks zstd config compress ((last, d) ∷ [])) now (record s { db = db1 })
            removed.consistent up still_backed (rw removed.inodes (ap is_some found)) (refl, tt)
            (All-IsPrepared zstd config compress canon store.content db1.blocks s.disk.hot
              ((last, d) ∷ []) (new, tt))
            (All-IsEncoded zstd config compress canon store.content db1.blocks s.disk.hot
              ((last, d) ∷ []) (new, tt)) in
        (
          s2,
          rw (cut, read)
              (set_chunk-eq zstd config f last d compress now cache (record s { db = db1 })
                  (omega (arith, full, some_rest))
                ∙ stored),
          record {
            consistent = c2;
            inodes = inodes ∙ removed.inodes;
            every_byte =
                cut_byte store.content zstd config compress cs f size d s.db db1 s2.db h c removed
                  c2 new.1 full
                  (λ i l.
                    let inside : i < size - last * cs = omega (arith, l, full, b.2) in
                    let within : i < n =
                      omega (arith, l, full, long, length-take (size - last * cs) chunk) in
                    byte-take i (size - last * cs) chunk ∙ ground (arith, inside, good i within))
                  mapped;
            others = λ g j ne. mapped g j ∙ rw ne (removed.mapped g j ∙ rw ne refl);
          },
          backed,
        )
  ]

  cut_chunks_lem :
      (s' : StoreState) × (cut_chunks zstd config read_block cs f compress node.size size now cache
          s
        ≡ ok s')
      × IsCut store.content cs f size s.db s'.db
      × IsBackedStore zstd store.content s'.db s'.disk
  unfolding cut_chunks
  cut_chunks_lem = elim (Bool-cases (size == 0)) [
    | inl zero_size ↦
        let e : size ≡ 0 = ground (arith, zero_size) in
        let even : size % cs ≡ 0 = ap (λ x. x % cs) e ∙ omega (arith, (chunk_of 0 cs h).2) in
        (
          record s { db = db1 },
          rw (gone, zero_size) refl,
          uncut-IsCut store.content cs f size node.size s.db db1 h c z removed
              (ground (arith, even)),
          still_backed,
        )
    | inr some_size ↦
        let (s', done, good, backed) = cut_chunk_lem in
        (s', rw (gone, some_size) done, good, backed)
  ]

  -- `truncate_file` raises nothing for a file of a consistent store that has only zeros behind its
  -- end, while the hot tier is up and each row has its payload where it says. It is asked that the
  -- block in which the file then ends can be read after the chunks behind it were removed; and of
  -- what is left of it that its digest stands for it, that it makes the one block of its digest,
  -- whose payload is not empty, that no file is left on the hot tier under the digest if it is to
  -- be written there, and that the payload made anew for a row that is only on the cold tier has
  -- the size that the row states. Afterwards the file has the new size, every byte before it, by
  -- the digests of its chunks, is the one that was there and every other is zero, and each row of
  -- the store has its payload, inline or as a file, where it says, decoding to the bytes that its
  -- digest stands for. Every other file is mapped as before, and the reference counts are those of
  -- the rows. With the size that it had, the inode is not touched.
  pub truncate_file_lem :
      (s' : StoreState) × (truncate_file zstd config read_block cs f compress size now cache s
        ≡ ok s')
      × IsTruncated zstd store.content cs f size now node s.db s'
  unfolding truncate_file truncate_node set_node_size
  truncate_file_lem = elim (Bool-cases (size == node.size)) [
    | inl same ↦ (
      s,
      rw (found, same) refl,
      record {
        consistent = c;
        backed = b;
        inode = rw (found, same) refl;
        every_byte = λ p. elim (Bool-cases (ltb p size)) [
          | inl below ↦ rw below refl
          | inr behind ↦ rw behind (z p (ground (arith, behind, same)))
        ];
        others = λ g j ne. refl;
      },
    )
    | inr changed ↦
        let (s1, done, good, backed) = cut_chunks_lem in
        (
          record s1 { db = set_node_size f size now s1.db },
          rw (found, changed, done) refl,
          record {
            consistent = record { counts = good.consistent.counts; rows = good.consistent.rows };
            backed = backed;
            inode = ground (
              arith,
              changed,
              lookup-modify f f (resized size now) s1.db.inodes,
              ap (lookup f) good.inodes,
              found,
            );
            every_byte = λ p.
                file_byte-mapped store.content cs f p (set_node_size f size now s1.db)
                  (record { counts = good.consistent.counts; rows = good.consistent.rows })
                ∙ sym (file_byte-mapped store.content cs f p s1.db good.consistent)
                ∙ good.every_byte p;
            others = good.others;
          },
        )
  ]
