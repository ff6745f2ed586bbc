-- ===== src/Handles.antt =====
-- handles.py: the table of open file handles. Its lock is not modelled: every method holds it from
-- the first to the last step.
pub mod Counts
mod Tests
use mathlib.Core.Option
use ztierfs.Common.{ℕ, ◌+◌, ◌-◌, Bool, Option, none, some, List, [], ◌∷◌, ◌==◌, ltb, if◌then◌else◌}
use ztierfs.Common.Dict.{Dict, lookup, insert, erase}

-- inodes.kind
pub data Kind : Type 0 where
  dir file symlink : Kind

-- FileHandleSnapshot
pub record Snapshot : Type 0 where
  pub id : ℕ
  pub kind : Kind
  pub mode : ℕ
  pub uid : ℕ
  pub gid : ℕ

-- The argument `fh` of the callbacks: an integer, or an object of another type.
pub data Fh : Type 0 where
  int : ℕ → Fh
  alien : Fh

pub record HandleTable : Type 0 where
  pub next_fh : ℕ
  pub handles : Dict ℕ
  pub snapshots : Dict (Option Snapshot)
  pub lock_owners : Dict ℕ
  pub open_counts : Dict ℕ

-- `HandleTable.__init__`
abbrev pub init : HandleTable
init = record { next_fh = 0; handles = []; snapshots = []; lock_owners = []; open_counts = [] }

unfoldable pub new : ℕ → Option ℕ → Option Snapshot → HandleTable → ℕ × HandleTable
new file_id lock_owner snapshot t =
    let fh = t.next_fh + 1 in
    (
      fh,
      record {
        next_fh = fh;
        handles = insert fh file_id t.handles;
        snapshots = insert fh snapshot t.snapshots;
        lock_owners = insert fh (Option.get_or lock_owner fh) t.lock_owners;
        open_counts =
            insert file_id (Option.get_or (lookup file_id t.open_counts) 0 + 1) t.open_counts;
      },
    )

-- The end of `release`, where `remaining` is `self._open_counts.get(file_id, 0) - 1`.
abbrev pub count_down : ℕ → Dict ℕ → Dict ℕ
count_down file_id counts =
    let remaining = Option.get_or (lookup file_id counts) 0 - 1 in
    if ltb 0 remaining then insert file_id remaining counts else erase file_id counts

unfoldable pub release_int : ℕ → HandleTable → Option (ℕ × ℕ) × HandleTable
release_int fh t =
    let t' = record t {
      handles = erase fh t.handles;
      snapshots = erase fh t.snapshots;
      lock_owners = erase fh t.lock_owners;
    } in
    elim (lookup fh t.handles) [
      | none ↦ (none, t')
      | some file_id ↦ (
        some (file_id, Option.get_or (lookup fh t.lock_owners) fh),
        record t' { open_counts = count_down file_id t.open_counts },
      )
    ]

unfoldable pub release : Fh → HandleTable → Option (ℕ × ℕ) × HandleTable
unfolding release_int
release (int fh) t = release_int fh t
release alien t = (none, t)

unfoldable pub snapshot : Fh → HandleTable → Option Snapshot
snapshot (int fh) t = Option.get_or (lookup fh t.snapshots) none
snapshot alien t = none

-- The loop of `invalidate_file` over the items of `_handles`.
invalidate_loop : ℕ → Dict ℕ → Dict (Option Snapshot) → Dict (Option Snapshot)
invalidate_loop file_id [] snapshots = snapshots
invalidate_loop file_id ((fh, bound) ∷ handles) snapshots =
    invalidate_loop file_id handles
      (if bound == file_id then insert fh none snapshots else snapshots)

unfoldable pub invalidate_file : ℕ → HandleTable → HandleTable
unfolding invalidate_loop
invalidate_file file_id t = record t { snapshots = invalidate_loop file_id t.handles t.snapshots }

unfoldable pub file_id : Fh → HandleTable → Option ℕ
file_id (int fh) t = lookup fh t.handles
file_id alien t = none

unfoldable pub lock_owner : Fh → HandleTable → Option ℕ
lock_owner (int fh) t = lookup fh t.lock_owners
lock_owner alien t = none

unfoldable pub has_open_file : ℕ → HandleTable → Bool
has_open_file file_id t = ltb 0 (Option.get_or (lookup file_id t.open_counts) 0)
