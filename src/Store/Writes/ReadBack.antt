-- ===== src/Store/Writes/ReadBack.antt =====
-- file_content.py: a file reads as it was written, everywhere.
use mathlib.Core.Path.{subst}
use ztierfs.Common.{
  ℕ, ◌+◌, ◌-◌, ◌*◌, ◌/◌, ◌%◌, ◌≤◌, ◌<◌, ◌≡◌, refl, sym, ◌∙◌, ap, Bool, true, false, ◌&&◌, Option,
  none, some, ◌∷◌, ◌==◌, leb, ltb, max, min, length, All, contains, Distinct, Result, ok, is_some,
  arith, Bool-cases, inl, inr,
}
use ztierfs.Common.Dict.{Dict, lookup, contains_key-lookup, lookup-modify}
use ztierfs.Common.Bytes.{Bytes, byte, byte_past}
use ztierfs.Handles.{Kind}
use ztierfs.Metadata.Schema.{Block, Inode, Db}
use ztierfs.Metadata.Chunks.{keys, Row, chunk_block}
use ztierfs.Metadata.Chunks.Mapping.{chunk_at}
use ztierfs.Metadata.Deltas.{IsConsistent}
use ztierfs.Files.{each_index, plan_write_file, plan_write_range, pending_chunks}
use ztierfs.Files.Reading.{BlockReader, AllReadable, file_byte, chunk_of, chunk_mono}
use ztierfs.Files.Writing.{written, write_range_lem}
use ztierfs.Store.Cache.{Cache}
use ztierfs.Store.Disk.{answers}
use ztierfs.Store.Writes.Backing.{IsBackedStore}
use ztierfs.Store.Codec.{Config, Zstd, PreparedBlock, prepared_block}
use ztierfs.Store.Writes.{StoreState, set_prepared_chunks, commit_prepared_write, write_file}
use ztierfs.Metadata.Namespace.{set_node_size}
use ztierfs.Store.Writes.Committing.{committed, contains-keys, set_prepared_chunks_lem}
use ztierfs.Store.Writes.NewChunks.{
  mapped_byte, prepared_chunks, IsNew, prepare_blocks-map, keys-prepared, lookup-prepared,
  All-IsEncoded, contains-each_index, each_index-Distinct, file_byte-mapped, All-IsPrepared,
  new_content,
}

-- No byte behind the end of the file is anything but zero.
abbrev pub IsZeroBehind : ℕ → (ℕ → ℕ) → Type 0
IsZeroBehind size f = (p : ℕ) → size ≤ p → f p ≡ 0

-- Outside the range that is written, the old bytes stand.
outside_written :
    (offset old_size p : ℕ) (bytes : Bytes) (old : ℕ → ℕ)
    → IsZeroBehind old_size old
    → leb offset p && ltb p (offset + length bytes) ≡ false
    → old p ≡ written offset bytes old_size old p
outside_written offset old_size p bytes old z out = elim (Bool-cases (ltb p old_size)) [
  | inl within ↦ rw (out, within) refl
  | inr behind ↦ rw (out, behind) (z p (ground arith))
]

-- Behind the new end a written file has zeros.
behind_written :
    (offset old_size p : ℕ) (bytes : Bytes) (old : ℕ → ℕ)
    → max old_size (offset + length bytes) ≤ p
    → 0 ≡ written offset bytes old_size old p
behind_written offset old_size p bytes old h =
    let out : leb offset p && ltb p (offset + length bytes) ≡ false = ground arith in
    let behind : ltb p old_size ≡ false = ground arith in rw (out, behind) refl

le_of_ltb : (a b : ℕ) → ltb a b ≡ false → b ≤ a
le_of_ltb a b h = ground arith

-- The byte in a chunk that was written.
chunk_byte-written :
    (cs old_size offset p : ℕ) (bytes : Bytes) (old : ℕ → ℕ) (d : Bytes)
    → 0 < cs
    → length d ≡ min cs (max old_size (offset + length bytes) - p / cs * cs)
    → ((k : ℕ) → k < length d → byte k d ≡ written offset bytes old_size old (p / cs * cs + k))
    → byte (p % cs) d ≡ written offset bytes old_size old p
chunk_byte-written cs old_size offset p bytes old d h long good =
    let c = chunk_of p cs h in
    elim (Bool-cases (ltb (p % cs) (length d))) [
      | inl within ↦
          good (p % cs) (ground (arith, within)) ∙ ap (written offset bytes old_size old) c.2
      | inr behind ↦
          byte_past (p % cs) d (ground (arith, behind))
          ∙ behind_written offset old_size p bytes old
              (omega (arith, long, c.2, c.3, le_of_ltb (p % cs) (length d) behind))
    ]

committed_new :
    (zstd : Zstd) (config : Config) (compress : Bool) (new : Dict Bytes) (j : ℕ) (d : Bytes)
    (old : Option (ℕ × ℕ))
    → lookup j new ≡ some d
    → committed (prepared_chunks zstd config compress new) j old ≡ some (zstd.digest d, length d)
unfolding prepared_block
committed_new zstd config compress new j d old found =
    ground (arith, found, lookup-prepared zstd config compress j new)

committed_old :
    (zstd : Zstd) (config : Config) (compress : Bool) (new : Dict Bytes) (j : ℕ)
    (old : Option (ℕ × ℕ))
    → lookup j new ≡ none
    → committed (prepared_chunks zstd config compress new) j old ≡ old
committed_old zstd config compress new j old gone =
    ground (arith, gone, lookup-prepared zstd config compress j new)

absent_chunk :
    (new : Dict Bytes) (first n j : ℕ)
    → keys new ≡ each_index (λ x. x) first n
    → leb first j && ltb j (first + n) ≡ false
    → lookup j new ≡ none
absent_chunk new first n j e h = ground (
  arith,
  ap (contains j) e,
  contains-each_index j first n,
  contains-keys j new,
  contains_key-lookup j new,
)

-- The new bytes of the chunks `first` to `last`, once each.
pub record AreChunks (content : ℕ → Bytes) (cs f old_size offset : ℕ) (bytes : Bytes) (db : Db)
    (new : Dict Bytes) : Type 0 where
  pub indexes :
      keys new
      ≡ each_index (λ x. x) (offset / cs) ((offset + length bytes - 1) / cs + 1 - offset / cs)
  pub each :
      (j : ℕ)
      → offset / cs ≤ j
      → j ≤ (offset + length bytes - 1) / cs
      → (d : Bytes) × (lookup j new ≡ some d)
        × (length d ≡ min cs (max old_size (offset + length bytes) - j * cs))
        × ((k : ℕ)
            → k < length d
            → byte k d ≡ written offset bytes old_size (file_byte content cs f db) (j * cs + k))

touched_chunk :
    (cs offset p n : ℕ)
    → 0 < cs
    → 0 < n
    → leb (offset / cs) (p / cs)
        && ltb (p / cs) (offset / cs + ((offset + n - 1) / cs + 1 - offset / cs))
      ≡ false
    → leb offset p && ltb p (offset + n) ≡ false
touched_chunk cs offset p n h some_bytes out =
    elim (Bool-cases (leb offset p && ltb p (offset + n))) [
      | inl within ↦ absurd (
          ground (
            arith,
            out,
            chunk_mono offset p cs h (ground (arith, within)),
            chunk_mono p (offset + n - 1) cs h (ground (arith, within, some_bytes)),
          ))
      | inr outside ↦ outside
    ]

-- Every byte of the file after the chunks are mapped to the new blocks.
bytes_after :
    (zstd : Zstd) (config : Config) (compress : Bool) (canon : ℕ → PreparedBlock)
    (content : ℕ → Bytes) (rows : Dict Block) (hot : Dict Bytes) (cs f old_size offset : ℕ)
    (bytes : Bytes) (db db' : Db) (new : Dict Bytes) (p : ℕ)
    → 0 < cs
    → 0 < length bytes
    → IsConsistent db
    → IsConsistent db'
    → AreChunks content cs f old_size offset bytes db new
    → All (IsNew zstd config compress canon content rows hot) new
    → IsZeroBehind old_size (file_byte content cs f db)
    → ((j : ℕ)
        → chunk_at f j db'.file_chunks
          ≡ committed (prepared_chunks zstd config compress new) j (chunk_at f j db.file_chunks))
    → file_byte content cs f db' p ≡ written offset bytes old_size (file_byte content cs f db) p
bytes_after zstd config compress canon content rows hot cs f old_size offset bytes db db' new p h
      some_bytes c c' chunks fresh z mapped =
    let first = offset / cs in
    let last = (offset + length bytes - 1) / cs in
    let old = file_byte content cs f db in
    let at : file_byte content cs f db' p
        ≡ mapped_byte content
            (committed (prepared_chunks zstd config compress new) (p / cs)
              (chunk_at f (p / cs) db.file_chunks))
            (p % cs) =
      file_byte-mapped content cs f p db' c'
      ∙ ap (λ o. mapped_byte content o (p % cs)) (mapped (p / cs)) in
    elim (Bool-cases (leb first (p / cs) && ltb (p / cs) (first + (last + 1 - first)))) [
      | inl touched ↦
          let (d, found, long, good) =
            chunks.each (p / cs) (ground (arith, touched)) (ground (arith, touched)) in
          at
          ∙ ap (λ o. mapped_byte content o (p % cs))
              (committed_new zstd config compress new (p / cs) d _ found)
          ∙ ap (byte (p % cs))
              (new_content zstd config compress canon content rows hot new (p / cs) d fresh found)
          ∙ chunk_byte-written cs old_size offset p bytes old d h long good
      | inr untouched ↦
          at
          ∙ ap (λ o. mapped_byte content o (p % cs))
              (committed_old zstd config compress new (p / cs) _
                (absent_chunk new first (last + 1 - first) (p / cs) chunks.indexes untouched))
          ∙ sym (file_byte-mapped content cs f p db c)
          ∙ outside_written offset old_size p bytes old z
              (touched_chunk cs offset p (length bytes) h some_bytes untouched)
    ]

-- The inode after a write.
abbrev pub resized : ℕ → ℕ → Inode → Inode
resized size now node = record node { size = size; mtime_ns = now; ctime_ns = now }

-- The result of a write that has succeeded.
pub record IsWritten (zstd : Zstd) (content : ℕ → Bytes) (cs f offset now : ℕ) (bytes : Bytes)
    (node : Inode) (db : Db) (s' : StoreState) : Type 0 where
  pub consistent : IsConsistent s'.db
  pub backed : IsBackedStore zstd content s'.db s'.disk
  pub inode :
      lookup f s'.db.inodes ≡ some (resized (max node.size (offset + length bytes)) now node)
  pub every_byte :
      (p : ℕ)
      → file_byte content cs f s'.db p
        ≡ written offset bytes node.size (file_byte content cs f db) p
  pub others :
      (g j : ℕ) → f == g ≡ false → chunk_at g j s'.db.file_chunks ≡ chunk_at g j db.file_chunks

run_write :
    (read_block : Row → ℕ → Result Bytes) (zstd : Zstd) (config : Config) (cs f offset now : ℕ)
    (compress : Bool) (b : ℕ) (bytes : Bytes) (node : Inode) (cache : Cache) (s s1 : StoreState)
    (new : Dict Bytes)
    → node.kind ≡ Kind.file
    → pending_chunks read_block
        (b ∷ bytes)
        (plan_write_range cs f node.size offset (b ∷ bytes) s.db)
      ≡ ok new
    → set_prepared_chunks zstd config f (prepared_chunks zstd config compress new) now s ≡ ok s1
    → write_file zstd config read_block cs f node compress (b ∷ bytes) offset now cache s
      ≡ ok (record s1 {
        db = set_node_size f (max node.size (offset + length (b ∷ bytes))) now s1.db;
      })
unfolding write_file commit_prepared_write plan_write_file
run_write read_block zstd config cs f offset now compress b bytes node cache s s1 new file pending
      stored =
    ground (arith, file, pending, prepare_blocks-map zstd config compress new cache, stored)

module _ {read_block : Row → ℕ → Result Bytes} (store : BlockReader read_block) where
  -- A write that is not empty, to a regular file of a consistent store that has only zeros behind
  -- its end, raises nothing while the hot tier is up and the blocks of the file can be read, in a
  -- store in which each row has its payload where it says. It is asked of the new bytes of the
  -- chunks that their digests stand for them, that they make one block for each digest, whose
  -- payload is not empty, that no file is left on the hot tier under a digest that is to be written
  -- there, and that the payload made anew for a row that is only on the cold tier has the size that
  -- the row states. Afterwards the size reaches the end of the write, every byte of the file, by
  -- the digests of its chunks, is the one that was written there or else the one that was there,
  -- and each row of the store, those of the file included, has its payload, inline or as a file,
  -- where it says, decoding to the bytes that its digest stands for. Every other file is mapped as
  -- before, and the reference counts are those of the rows.
  pub write_file_lem :
      (zstd : Zstd) (config : Config) (canon : ℕ → PreparedBlock) (cs f offset now : ℕ)
      (compress : Bool) (b : ℕ) (bytes : Bytes) (node : Inode) (cache : Cache) (s : StoreState)
      (new : Dict Bytes)
      → 0 < cs
      → node.kind ≡ Kind.file
      → lookup f s.db.inodes ≡ some node
      → IsConsistent s.db
      → answers 1 s.disk ≡ true
      → IsBackedStore zstd store.content s.db s.disk
      → ((j : ℕ) → AllReadable store.IsReadable (chunk_block f j s.db))
      → IsZeroBehind node.size (file_byte store.content cs f s.db)
      → pending_chunks read_block
          (b ∷ bytes)
          (plan_write_range cs f node.size offset (b ∷ bytes) s.db)
        ≡ ok new
      → All (IsNew zstd config compress canon store.content s.db.blocks s.disk.hot) new
      → (s' : StoreState) × (write_file zstd config read_block cs f node compress
            (b ∷ bytes)
            offset
            now
            cache
            s
          ≡ ok s')
        × IsWritten zstd store.content cs f offset now (b ∷ bytes) node s.db s'
  unfolding set_node_size
  write_file_lem zstd config canon cs f offset now compress b bytes node cache s new h file found c
        up k r z pending fresh =
      let given_bytes = b ∷ bytes in
      let (new', done, keys', each) =
        write_range_lem store cs f node.size offset given_bytes s.db h (omega arith) r in
      let same : new' ≡ new = ground (arith, done, pending) in
      let chunks : AreChunks store.content cs f node.size offset given_bytes s.db new =
        subst (AreChunks store.content cs f node.size offset given_bytes s.db) same (record {
          indexes = keys';
          each = λ j lo hi. let (d, at, good) = each j lo hi in (d, at, good.0, good.1);
        }) in
      let (s1, stored, c1, inodes, backed, mapped) =
        set_prepared_chunks_lem zstd config canon store.content f
          (prepared_chunks zstd config compress new) now s c up k (ap is_some found)
          (subst Distinct (sym (keys-prepared zstd config compress new ∙ chunks.indexes))
            (each_index-Distinct _ _))
          (All-IsPrepared zstd config compress canon store.content s.db.blocks s.disk.hot new fresh)
          (All-IsEncoded zstd config compress canon store.content s.db.blocks s.disk.hot new
            fresh) in
      (
        record s1 { db = set_node_size f (max node.size (offset + length given_bytes)) now s1.db },
        run_write read_block zstd config cs f offset now compress b bytes node cache s s1 new file
            pending stored,
        record {
          consistent = record { counts = c1.counts; rows = c1.rows };
          backed = backed;
          inode = ground (
            arith,
            lookup-modify f f (resized (max node.size (offset + length given_bytes)) now)
                s1.db.inodes,
            ap (lookup f) inodes,
            found,
          );
          every_byte = λ p.
              bytes_after zstd config compress canon store.content s.db.blocks s.disk.hot cs f
                node.size offset given_bytes s.db
                (set_node_size f (max node.size (offset + length given_bytes)) now s1.db) new p h
                (omega arith) c (record { counts = c1.counts; rows = c1.rows }) chunks fresh z
                (λ j. mapped f j ∙ ground arith);
          others = λ g j ne. mapped g j ∙ rw ne refl;
        },
      )
