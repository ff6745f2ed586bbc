-- ===== src/Store/Disk.antt =====
-- tier_access.py, block_file_io.py and pending_deletions.py: the block files of the two tiers. A tier
-- answers, or is for a while unavailable, or is denied: every access raises another OSError, taken as
-- EACCES. Between the steps of one call that does not change.
pub mod Draining
use ztierfs.Common.{
  ℕ, Bool, true, false, Option, none, some, List, [], ◌∷◌, ◌==◌, if◌then◌else◌, Result, ok, err,
  Error, is_some, not, ◌&&◌, ◌||◌, ◌>>=◌,
}
use ztierfs.Common.Dict.{Dict, lookup, insert, erase}
use ztierfs.Common.Bytes.{Bytes}
use ztierfs.Metadata.Schema.{Pending}

-- PathStatus
pub data Status : Type 0 where
  present missing unavailable : Status

pub record Disk : Type 0 where
  pub hot : Dict Bytes
  pub cold : Dict Bytes
  pub hot_down : Bool
  pub cold_down : Bool
  pub hot_denied : Bool
  pub cold_denied : Bool

-- The files of a tier; every caller passes 1 or 2.
abbrev pub files : ℕ → Disk → Dict Bytes
files tier disk = if tier == 1 then disk.hot else disk.cold

abbrev pub is_down : ℕ → Disk → Bool
is_down tier disk = if tier == 1 then disk.hot_down else disk.cold_down

abbrev pub is_denied : ℕ → Disk → Bool
is_denied tier disk = if tier == 1 then disk.hot_denied else disk.cold_denied

-- The tier is up: an access to a path of it raises nothing but FileNotFoundError.
abbrev pub answers : ℕ → Disk → Bool
answers tier disk = not (is_down tier disk) && not (is_denied tier disk)

abbrev pub set_files : ℕ → Dict Bytes → Disk → Disk
set_files tier m disk = if tier == 1 then record disk { hot = m } else record disk { cold = m }

-- `probe_path`: an OSError that is not a temporary one is raised again.
unfoldable pub probe : ℕ → ℕ → Disk → Result Status
probe digest tier disk =
    if is_down tier disk
    then ok unavailable
    else if is_denied tier disk
    then err Error.eacces
    else if is_some (lookup digest (files tier disk))
    then ok present
    else ok missing

abbrev pub is_present : Status → Bool
is_present present = true
is_present _ = false

abbrev pub is_unavailable : Status → Bool
is_unavailable unavailable = true
is_unavailable _ = false

-- What `read_path_bytes` does: it returns bytes, or raises PathMissing, PathUnavailable or another
-- OSError.
pub data ReadOutcome : Type 0 where
  read : Bytes → ReadOutcome
  path_missing path_unavailable path_denied : ReadOutcome

unfoldable pub read_path : ℕ → ℕ → Disk → ReadOutcome
read_path digest tier disk =
    if is_down tier disk
    then path_unavailable
    else if is_denied tier disk
    then path_denied
    else elim (lookup digest (files tier disk)) [ none ↦ path_missing | some b ↦ read b ]

-- `write_atomic`: a file that is there stays; on a tier that is down, opening the file fails.
unfoldable pub write_atomic : ℕ → ℕ → Bytes → Disk → Result Disk
write_atomic digest tier payload disk = probe digest tier disk >>= λ status.
    (if is_present status
      then ok disk
      else if is_down tier disk
      then err Error.eio
      else ok (set_files tier (insert digest payload (files tier disk)) disk))

abbrev copy_file : ℕ → ℕ → ℕ → Disk → Disk
copy_file digest source target disk = elim (lookup digest (files source disk)) [
  | none ↦ disk
  | some payload ↦ set_files target (insert digest payload (files target disk)) disk
]

-- `copy_atomic`: with a path that is missing or unavailable it does nothing.
unfoldable pub copy_atomic : ℕ → ℕ → ℕ → Disk → Result Disk
copy_atomic digest source target disk = probe digest source disk >>= λ source_status.
    (if not (is_present source_status)
      then ok disk
      else (probe digest target disk >>= λ target_status.
          (if is_unavailable target_status || is_present target_status
            then ok disk
            else ok (copy_file digest source target disk))))

-- What `unlink_path` does: it returns whether there was a file, or raises PathUnavailable or another
-- OSError.
pub data UnlinkOutcome : Type 0 where
  unlinked : Bool → Disk → UnlinkOutcome
  unlink_unavailable unlink_denied : UnlinkOutcome

unfoldable pub unlink : ℕ → ℕ → Disk → UnlinkOutcome
unlink digest tier disk =
    if is_down tier disk
    then unlink_unavailable
    else if is_denied tier disk
    then unlink_denied
    else elim (lookup digest (files tier disk)) [
      | none ↦ unlinked false disk
      | some _ ↦ unlinked true (set_files tier (erase digest (files tier disk)) disk)
    ]

-- PendingDeletionOutcome
pub record Outcome : Type 0 where
  pub removed_ids : List ℕ
  pub deferred_ids : List ℕ
  pub unavailable_ids : List ℕ

abbrev pub add_removed : ℕ → Outcome → Outcome
add_removed i o = record o { removed_ids = i ∷ o.removed_ids }

abbrev pub add_unavailable : ℕ → Outcome → Outcome
add_unavailable i o = record o {
  deferred_ids = i ∷ o.deferred_ids;
  unavailable_ids = i ∷ o.unavailable_ids;
}

abbrev pub add_deferred : ℕ → Outcome → Outcome
add_deferred i o = record o { deferred_ids = i ∷ o.deferred_ids }

unfoldable pub drain_pending_block_files : List Pending → Disk → Outcome × Disk
drain_pending_block_files [] disk =
    (record { removed_ids = []; deferred_ids = []; unavailable_ids = [] }, disk)
drain_pending_block_files (p ∷ rows) disk = elim (unlink p.digest p.tier disk) [
  | unlink_unavailable ↦
      let (outcome, disk') = drain_pending_block_files rows disk in
      (add_unavailable p.id outcome, disk')
  | unlink_denied ↦
      let (outcome, disk') = drain_pending_block_files rows disk in
      (add_deferred p.id outcome, disk')
  | unlinked done disk1 ↦
      let (outcome, disk') = drain_pending_block_files rows disk1 in
      (add_removed p.id outcome, disk')
]
