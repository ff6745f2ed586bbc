-- ===== src/Store/Writes/HotFiles.antt =====
-- block_store.py: a write to the hot tier, and what the steps of `ensure_prepared_blocks` leave alone.
use ztierfs.Common.{
  ℕ, ◌≡◌, ◌≢◌, refl, ◌∙◌, ap, true, false, none, some, length, ok, is_some, arith, Bool-cases, inl,
  inr,
}
use ztierfs.Common.Dict.{lookup, insert, lookup-insert}
use ztierfs.Common.Bytes.{Bytes}
use ztierfs.Metadata.Schema.{Db}
use ztierfs.Metadata.Settle.{block_refs, RowsOk}
use ztierfs.Store.Disk.{answers, write_atomic, probe}
use ztierfs.Store.Codec.{Config, Zstd}
use ztierfs.Store.Writes.{StoreState, note_hot_write, write_hot}
use ztierfs.Store.Writes.Backing.{IsBackedStore}

-- The mapping, the inodes and the counts are the same, no constraint is broken and no block is gone.
pub record Kept (db db' : Db) : Type 0 where
  pub chunks : db'.file_chunks ≡ db.file_chunks
  pub inodes : db'.inodes ≡ db.inodes
  pub rows : RowsOk db'.blocks
  pub count : (d : ℕ) → block_refs d db'.blocks ≡ block_refs d db.blocks
  pub there : (d : ℕ) → is_some (lookup d db.blocks) ≡ true → is_some (lookup d db'.blocks) ≡ true

pub Kept-refl : (db : Db) → RowsOk db.blocks → Kept db db
Kept-refl db r = record {
  chunks = refl;
  inodes = refl;
  rows = r;
  count = λ d. refl;
  there = λ d h. h;
}

pub Kept-trans : (a b c : Db) → Kept a b → Kept b c → Kept a c
Kept-trans a b c k l = record {
  chunks = l.chunks ∙ k.chunks;
  inodes = l.inodes ∙ k.inodes;
  rows = l.rows;
  count = λ d. l.count d ∙ k.count d;
  there = λ d h. l.there d (k.there d h);
}

-- What one block has changed.
pub record Step (zstd : Zstd) (content : ℕ → Bytes) (digest : ℕ) (s s' : StoreState) : Type 0 where
  pub kept : Kept s.db s'.db
  pub up : answers 1 s'.disk ≡ answers 1 s.disk
  pub keys : (d : ℕ) → is_some (lookup d s'.db.blocks) ≡ is_some (lookup d s.db.blocks)
  pub others : (d : ℕ) → d ≢ digest → lookup d s'.db.blocks ≡ lookup d s.db.blocks
  pub hot : (d : ℕ) → d ≢ digest → lookup d s'.disk.hot ≡ lookup d s.disk.hot
  pub cold : s'.disk.cold ≡ s.disk.cold
  pub payloads : s'.db.block_payloads ≡ s.db.block_payloads
  pub backed : IsBackedStore zstd content s'.db s'.disk

note_hot_write-db :
    (config : Config) (n : ℕ) (s : StoreState)
    → ((note_hot_write config n s).db ≡ s.db) × ((note_hot_write config n s).disk ≡ s.disk)
unfolding note_hot_write
note_hot_write-db config n s = (ground arith, ground arith)

-- What a write to the hot tier has changed: a file that was there stays.
pub record Wrote (digest : ℕ) (payload : Bytes) (s s' : StoreState) : Type 0 where
  pub db : s'.db ≡ s.db
  pub up : answers 1 s'.disk ≡ answers 1 s.disk
  pub here : lookup digest s.disk.hot ≡ none → lookup digest s'.disk.hot ≡ some payload
  pub others : (d : ℕ) → d ≢ digest → lookup d s'.disk.hot ≡ lookup d s.disk.hot
  pub cold : s'.disk.cold ≡ s.disk.cold

noted-Wrote :
    (config : Config) (n digest : ℕ) (payload : Bytes) (s s1 : StoreState)
    → Wrote digest payload s s1
    → Wrote digest payload s (note_hot_write config n s1)
noted-Wrote config n digest payload s s1 w =
    let e = note_hot_write-db config n s1 in
    record {
      db = e.0 ∙ w.db;
      up = ap (answers 1) e.1 ∙ w.up;
      here = λ x. ap (λ k. lookup digest k.hot) e.1 ∙ w.here x;
      others = λ d ne. ap (λ k. lookup d k.hot) e.1 ∙ w.others d ne;
      cold = ap (λ k. k.cold) e.1 ∙ w.cold;
    }

-- While the hot tier is up, a payload can be written, and is there afterwards.
pub write_hot_lem :
    (config : Config) (digest : ℕ) (payload : Bytes) (s : StoreState)
    → answers 1 s.disk ≡ true
    → (s' : StoreState) × (write_hot config digest payload s ≡ ok s') × Wrote digest payload s s'
unfolding write_hot write_atomic probe
write_hot_lem config digest payload s up =
    let (not_down, not_denied) : (s.disk.hot_down ≡ false) × (s.disk.hot_denied ≡ false) =
      (ground (arith, up), ground (arith, up)) in
    elim (Bool-cases (is_some (lookup digest s.disk.hot))) [
      | inl there ↦ (
        note_hot_write config (length payload) s,
        ground (arith, not_down, not_denied, there),
        noted-Wrote config (length payload) digest payload s s (record {
          db = refl;
          up = refl;
          here = λ x. ground (arith, x, there);
          others = λ d ne. refl;
          cold = refl;
        }),
      )
      | inr new ↦
          let s1 = record s { disk = record s.disk { hot = insert digest payload s.disk.hot } } in
          (
            note_hot_write config (length payload) s1,
            ground (arith, not_down, not_denied, new),
            noted-Wrote config (length payload) digest payload s s1 (record {
              db = refl;
              up = refl;
              here = λ x. ground (arith, lookup-insert digest digest payload s.disk.hot);
              others = λ d ne. ground (arith, ne, lookup-insert d digest payload s.disk.hot);
              cold = refl;
            }),
          )
    ]
