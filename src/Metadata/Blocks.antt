-- ===== src/Metadata/Blocks.antt =====
-- metadata/blocks.py: the rows of `blocks` and their payloads.
use mathlib.Core.Option
use ztierfs.Common.{
  ℕ, suc, ◌+◌, ◌-◌, Bool, true, false, not, ◌&&◌, ◌||◌, Option, none, some, List, [], ◌∷◌, ltb,
  ◌==◌, if◌then◌else◌, keep, total, Result, ok, err, Error, ◌>>=◌, is_some,
}
use ztierfs.Common.Dict.{Dict, lookup, insert, erase}
use ztierfs.Common.Int.{ℤ, pos, negsuc}
use ztierfs.Common.Bytes.{Bytes}
use ztierfs.Metadata.Schema.{
  inline, tiered, is_tiered, Block, Db, row_ok, update_block, is_referenced,
}
use ztierfs.Metadata.Gc.{enqueue_pending_block_file_deletion}

-- BlockInsert
pub record BlockInsert : Type 0 where
  pub digest : ℕ
  pub compressed : Bool
  pub raw_size : ℕ
  pub stored_size : ℕ
  pub inline_payload : Option Bytes

unfoldable pub block_exists : ℕ → Db → Bool
block_exists digest db = is_some (lookup digest db.blocks)

-- The row of BLOCK_RECORD_SELECT: the block, and its inline payload if there is one.
unfoldable pub block_record : ℕ → Db → Option (Block × Option Bytes)
block_record digest db =
    Option.map (λ b. (b, lookup digest db.block_payloads)) (lookup digest db.blocks)

-- The row that `insert_block` and `insert_blocks` write.
abbrev pub new_row : BlockInsert → ℕ → Block
new_row block now =
    let is_inline = is_some block.inline_payload in
    record {
      storage = if is_inline then inline else tiered;
      preferred_tier = if is_inline then 0 else 1;
      hot_present = not is_inline;
      cold_present = false;
      compressed = block.compressed;
      raw_size = block.raw_size;
      stored_size = block.stored_size;
      refcount = 0;
      atime_ns = now;
      read_count = 0;
      last_promoted_ns = none;
      last_demoted_ns = none;
      cold_verified_ns = none;
      cold_gc_enqueued_ns = none;
    }

-- One row of the INSERT INTO blocks: the primary key and the CHECKs may fail.
unfoldable pub insert_row : BlockInsert → ℕ → Db → Result Db
unfolding row_ok
insert_row block now db =
    if is_some (lookup block.digest db.blocks) || not (row_ok (new_row block now))
    then err Error.integrity
    else ok (record db { blocks = insert block.digest (new_row block now) db.blocks })

-- One row of the INSERT INTO block_payloads, if the block is stored inline.
abbrev pub insert_payload : BlockInsert → Db → Db
insert_payload block db = elim block.inline_payload [
  | none ↦ db
  | some payload ↦ record db { block_payloads = insert block.digest payload db.block_payloads }
]

unfoldable pub insert_block : BlockInsert → ℕ → Db → Result Db
insert_block block now db = do db' ← insert_row block now db; ok (insert_payload block db')

unfoldable pub insert_rows : List BlockInsert → ℕ → Db → Result Db
insert_rows [] now db = ok db
insert_rows (block ∷ blocks) now db = do db' ← insert_row block now db; insert_rows blocks now db'

unfoldable pub insert_payloads : List BlockInsert → Db → Db
insert_payloads [] db = db
insert_payloads (block ∷ blocks) db = insert_payloads blocks (insert_payload block db)

-- All the block rows are written before the payload rows.
unfoldable pub insert_blocks : List BlockInsert → ℕ → Db → Result Db
insert_blocks blocks now db = do db' ← insert_rows blocks now db; ok (insert_payloads blocks db')

abbrev pub add_refs : ℕ → Block → Block
add_refs n b = record b { refcount = b.refcount + n; cold_gc_enqueued_ns = none }

unfoldable pub increment_block_refcount : ℕ → Db → Result Db
increment_block_refcount digest = update_block digest (add_refs 1)

-- The CHECK refuses a refcount below zero.
unfoldable pub decrement_block_refcount : ℕ → Db → Result Db
decrement_block_refcount digest db = elim (lookup digest db.blocks) [
  | none ↦ ok db
  | some b ↦
      if b.refcount == 0
      then err Error.integrity
      else update_block digest (λ row. record row { refcount = row.refcount - 1 }) db
]

-- ON DELETE RESTRICT for `file_chunks`, ON DELETE CASCADE for `block_payloads`.
unfoldable pub delete_block : ℕ → Db → Result Db
delete_block digest db =
    if is_some (lookup digest db.blocks) && is_referenced digest db.file_chunks
    then err Error.integrity
    else ok (record db {
      blocks = erase digest db.blocks;
      block_payloads = erase digest db.block_payloads;
    })

abbrev pub as_cold_garbage : ℕ → Block → Block
as_cold_garbage now b = record b {
  refcount = 0;
  hot_present = false;
  cold_present = true;
  preferred_tier = 2;
  cold_gc_enqueued_ns = some (Option.get_or b.cold_gc_enqueued_ns now);
}

unfoldable pub mark_cold_garbage : ℕ → ℕ → Db → Result Db
mark_cold_garbage digest now = update_block digest (as_cold_garbage now)

-- A block that a cold copy keeps for later reuse.
unfoldable pub release_to_cold : ℕ → Block → ℕ → Db → Result Db
release_to_cold digest row now db = do
  db' ← mark_cold_garbage digest now db
  ok (if row.hot_present then enqueue_pending_block_file_deletion digest 1 now db' else db')

-- A block that goes with its last reference.
unfoldable pub drop_block : ℕ → Block → ℕ → Db → Result Db
drop_block digest row now db = do
  db' ← delete_block digest db
  ok (
      if is_tiered row.storage && row.hot_present
      then enqueue_pending_block_file_deletion digest 1 now db'
      else db')

-- The last part of the loop of `apply_block_refcount_deltas`, for a digest with its row and new count.
unfoldable pub settle : ℕ → Block → ℕ → ℕ → Db → Result Db
settle digest row new_refcount now db =
    if ltb 0 new_refcount
    then update_block digest (λ b. record b { refcount = new_refcount }) db
    else if is_tiered row.storage && row.cold_present
    then release_to_cold digest row now db
    else drop_block digest row now db

-- One round of the loop over the digests that lose `n` references; `rows` is what was read before it.
unfoldable pub lower_one : Dict Block → ℕ → ℕ → ℕ → Db → Result Db
lower_one rows now digest n db = elim (lookup digest rows) [
  | none ↦ err Error.runtime
  | some row ↦
      if ltb row.refcount n then err Error.runtime else settle digest row (row.refcount - n) now db
]

-- The signed changes of the reference counts, by digest.
abbrev pub Deltas : Type 0
Deltas = Dict ℤ

-- `if positive_updates: executemany(...)`
unfoldable pub raise_counts : Deltas → Db → Result Db
raise_counts [] db = ok db
raise_counts ((digest, pos (suc n)) ∷ deltas) db = do
  db' ← update_block digest (add_refs (suc n)) db
  raise_counts deltas db'
raise_counts (_ ∷ deltas) db = raise_counts deltas db

-- The loop over `negative_digests`.
unfoldable pub lower_counts : Dict Block → ℕ → Deltas → Db → Result Db
lower_counts rows now [] db = ok db
lower_counts rows now ((digest, negsuc n) ∷ deltas) db = do
  db' ← lower_one rows now digest (suc n) db
  lower_counts rows now deltas db'
lower_counts rows now (_ ∷ deltas) db = lower_counts rows now deltas db

-- The rows that the loop reads are those that the positive updates left.
unfoldable pub apply_block_refcount_deltas : Deltas → ℕ → Db → Result Db
apply_block_refcount_deltas deltas now db = do
  db' ← raise_counts deltas db
  lower_counts db'.blocks now deltas db'

unfoldable pub inline_block_payload : ℕ → Db → Option Bytes
inline_block_payload digest db = lookup digest db.block_payloads

-- `?: value`, a column that an argument may set.
abbrev pub given {ℓ} : {A : Type ℓ} → Option A → A → A
given none old = old
given (some new) old = new

-- The keyword arguments of `set_block_presence`.
pub record Presence : Type 0 where
  pub hot_present : Option Bool
  pub cold_present : Option Bool
  pub preferred_tier : Option ℕ
  pub last_promoted_ns : Option ℕ
  pub last_demoted_ns : Option ℕ
  pub cold_verified_ns : Option ℕ

abbrev pub given_ns : Option ℕ → Option ℕ → Option ℕ
given_ns none old = old
given_ns (some new) old = some new

abbrev pub with_presence : Presence → Block → Block
with_presence p b = record b {
  hot_present = given p.hot_present b.hot_present;
  cold_present = given p.cold_present b.cold_present;
  preferred_tier = given p.preferred_tier b.preferred_tier;
  last_promoted_ns = given_ns p.last_promoted_ns b.last_promoted_ns;
  last_demoted_ns = given_ns p.last_demoted_ns b.last_demoted_ns;
  cold_verified_ns = given_ns p.cold_verified_ns b.cold_verified_ns;
}

-- `if not assignments`
abbrev pub assigns_nothing : Presence → Bool
assigns_nothing p = not (
    is_some p.hot_present
    || (is_some p.cold_present
        || (is_some p.preferred_tier
            || (is_some p.last_promoted_ns
                || (is_some p.last_demoted_ns || is_some p.cold_verified_ns)))))

unfoldable pub set_block_presence : ℕ → Presence → Db → Result Db
set_block_presence digest p db =
    if assigns_nothing p then ok db else update_block digest (with_presence p) db

-- `WHERE storage_kind = 'tiered' AND hot_present = 1`
abbrev pub in_hot_tier : ℕ × Block → Bool
in_hot_tier (_, b) = is_tiered b.storage && b.hot_present

unfoldable pub hot_tier_stored_size : Db → ℕ
hot_tier_stored_size db = total (λ e. e.1.stored_size) (keep in_hot_tier db.blocks)
