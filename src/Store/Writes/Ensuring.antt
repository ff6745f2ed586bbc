-- ===== src/Store/Writes/Ensuring.antt =====
-- block_store.py: what `ensure_prepared_blocks` does for one block.
use ztierfs.Common.{
  ℕ, ◌≡◌, refl, ◌∙◌, ap, true, false, none, some, if◌then◌else◌, Result, ok, arith, Bool-cases,
  Option-cases, inl, inr,
}
use ztierfs.Common.Dict.{Dict, lookup}
use ztierfs.Common.Bytes.{Bytes}
use ztierfs.Metadata.Schema.{Block, Storage, inline, tiered}
use ztierfs.Metadata.Settle.{RowsOk}
use ztierfs.Store.Disk.{answers}
use ztierfs.Store.Codec.{Config, Zstd, PreparedBlock, payload_matching}
use ztierfs.Store.Tiers.Repairs.{is_ok}
use ztierfs.Store.Writes.{StoreState, promote_from_write, ensure_existing, ensure_payload}
use ztierfs.Store.Writes.Backing.{IsBackedStore, IsEncoded, needs_hot}
use ztierfs.Store.Writes.HotFiles.{Step, write_hot_lem}
use ztierfs.Store.Writes.Promoting.{idle-Step, Wrote-Step, promote_lem}

-- The rows that are only on the cold tier are made of the same payload.
abbrev pub Matches : Zstd → Dict Block → PreparedBlock → Type 0
Matches zstd rows block =
    (row : Block)
    → lookup block.digest rows ≡ some row
    → row.storage ≡ tiered
    → row.hot_present ≡ false
    → is_ok (payload_matching zstd block row) ≡ true

-- `ensure_existing`, by the storage of the row.
abbrev ensure_by :
    Zstd → Config → PreparedBlock → Block → ℕ → StoreState → Storage → Result StoreState
ensure_by zstd config block row now s inline = ok s
ensure_by zstd config block row now s tiered =
    if row.hot_present then ok s else promote_from_write zstd config block row now s

pub by_storage :
    (zstd : Zstd) (config : Config) (content : ℕ → Bytes) (block : PreparedBlock) (row : Block)
    (now : ℕ) (s : StoreState) (storage : Storage)
    → RowsOk s.db.blocks
    → IsBackedStore zstd content s.db s.disk
    → answers 1 s.disk ≡ true
    → lookup block.digest s.db.blocks ≡ some row
    → row.storage ≡ storage
    → Matches zstd s.db.blocks block
    → (needs_hot (some row) ≡ true → lookup block.digest s.disk.hot ≡ none)
    → IsEncoded zstd content block
    → (s' : StoreState) × (ensure_existing zstd config block row now s ≡ ok s')
      × Step zstd content block.digest s s'
unfolding ensure_existing
by_storage zstd config content block row now s inline r b up found t m free c =
    (s, rw t refl, idle-Step zstd content block.digest s r b)
by_storage zstd config content block row now s tiered r b up found t m free c =
    elim (Bool-cases row.hot_present) [
      | inl hot ↦ (s, rw (t, hot) refl, idle-Step zstd content block.digest s r b)
      | inr cold ↦
          let (s', done, step) =
            promote_lem zstd config content block row now s r b up found t
              (free (ground (arith, t, cold))) c (m row found t cold) in
          (
            s',
            ap (ensure_by zstd config block row now s) t
                ∙ ap (λ h. if h then ok s else promote_from_write zstd config block row now s) cold
                ∙ done,
            step,
          )
    ]

-- A block that is not inline has its payload on the hot tier.
abbrev pub IsPlaced : Dict Bytes → PreparedBlock → Type 0
IsPlaced hot b = b.inline_payload ≡ none → lookup b.digest hot ≡ some b.payload

pub ensure_payload_lem :
    (zstd : Zstd) (config : Config) (content : ℕ → Bytes) (block : PreparedBlock) (s : StoreState)
    → RowsOk s.db.blocks
    → IsBackedStore zstd content s.db s.disk
    → answers 1 s.disk ≡ true
    → lookup block.digest s.db.blocks ≡ none
    → lookup block.digest s.disk.hot ≡ none
    → (s' : StoreState) × (ensure_payload config block s ≡ ok s')
      × Step zstd content block.digest s s'
      × IsPlaced s'.disk.hot block
unfolding ensure_payload
ensure_payload_lem zstd config content block s r b up fresh free =
    elim (Option-cases block.inline_payload) [
      | inl tier ↦
          let (s', done, w) = write_hot_lem config block.digest block.payload s up in
          (
            s',
            rw tier done,
            Wrote-Step zstd content block.digest block.payload s s' r b fresh w,
            λ x. w.here free,
          )
      | inr (p, within) ↦ (
        s,
        rw within refl,
        idle-Step zstd content block.digest s r b,
        λ x. ground (arith, x, within),
      )
    ]
