-- ===== src/Metadata/Gc.antt =====
-- metadata/gc.py: the queue of physical deletions. The rows stand in the order of their ids.
use ztierfs.Common.{
  ℕ, ◌+◌, Bool, true, not, ◌&&◌, ◌||◌, Option, none, some, List, [], ◌∷◌, ◌++◌, ◌==◌, if◌then◌else◌,
  keep, any_of, max, take,
}
use ztierfs.Metadata.Schema.{Db, Pending}

-- SQLite's rowid for a new row: one more than the largest in use.
abbrev pub last_id : List Pending → ℕ
last_id [] = 0
last_id (p ∷ ps) = max p.id (last_id ps)

abbrev pub is_queued : ℕ → ℕ → List Pending → Bool
is_queued digest tier = any_of (λ p. p.digest == digest && p.tier == tier)

-- `INSERT OR IGNORE`: a row that breaks the unique index or the CHECK on `tier` is dropped.
unfoldable pub insert_pending : ℕ → ℕ → ℕ → List Pending → List Pending
insert_pending digest tier now rows =
    if is_queued digest tier rows || not (tier == 1 || tier == 2)
    then rows
    else rows
      ++ record { id = last_id rows + 1; digest = digest; tier = tier; enqueued_ns = now } ∷ []

unfoldable pub enqueue_pending_block_file_deletion : ℕ → ℕ → ℕ → Db → Db
unfolding insert_pending
enqueue_pending_block_file_deletion digest tier now db = record db {
  pending_deletions = insert_pending digest tier now db.pending_deletions;
}

-- The `WHERE tier = ?` that is there if a tier is given.
abbrev pub in_tier : Option ℕ → Pending → Bool
in_tier none p = true
in_tier (some tier) p = p.tier == tier

unfoldable pub pending_deletions : ℕ → Option ℕ → Db → List Pending
pending_deletions limit tier db = take limit (keep (in_tier tier) db.pending_deletions)

unfoldable pub remove_pending_deletion : ℕ → Db → Db
remove_pending_deletion deletion_id db = record db {
  pending_deletions = keep (λ p. not (p.id == deletion_id)) db.pending_deletions;
}

unfoldable pub remove_pending_deletions : List ℕ → Db → Db
remove_pending_deletions [] db = db
remove_pending_deletions (i ∷ ids) db = remove_pending_deletions ids (remove_pending_deletion i db)

-- `UPDATE pending_deletions SET enqueued_ns = now WHERE id = deletion_id`, row by row.
abbrev pub refresh : ℕ → ℕ → List Pending → List Pending
refresh deletion_id now [] = []
refresh deletion_id now (p ∷ ps) =
    (if p.id == deletion_id then record p { enqueued_ns = now } else p) ∷ refresh deletion_id now ps

unfoldable pub defer_pending_deletion : ℕ → ℕ → Db → Db
defer_pending_deletion deletion_id now db = record db {
  pending_deletions = refresh deletion_id now db.pending_deletions;
}

unfoldable pub defer_pending_deletions : List ℕ → ℕ → Db → Db
defer_pending_deletions [] now db = db
defer_pending_deletions (i ∷ ids) now db =
    defer_pending_deletions ids now (defer_pending_deletion i now db)
