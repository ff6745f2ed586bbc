-- ===== src/Locks.antt =====
-- locks.py: the advisory record locks of one mount. The file offsets, lengths, owners and pids are
-- the non-negative integers that FUSE passes.
pub mod Bytes
pub mod Pieces
pub mod Exclusion
mod Tests
use ztierfs.Common.{
  ℕ, ◌+◌, ◌-◌, ◌^◌, Bool, true, false, not, ◌&&◌, ◌||◌, Option, none, some, List, [], ◌∷◌, ◌++◌,
  ◌==◌, leb, ltb, if◌then◌else◌, keep, Result, ok, err, Error,
}

-- The constants F_RDLCK, F_WRLCK and F_UNLCK; `other` is any other number.
pub data LockType : Type 0 where
  rdlck wrlck unlck other : LockType

-- F_GETLK, F_SETLK and F_SETLKW; `other` is any other number.
pub data Cmd : Type 0 where
  getlk setlk setlkw other : Cmd

-- `end` is the last byte of the range; `none` reaches to the end of the file.
pub record FileLock : Type 0 where
  pub inode_id : ℕ
  pub owner : ℕ
  pub pid : ℕ
  pub lock_type : LockType
  pub start : ℕ
  pub end : Option ℕ

-- The keys of the `lock` dictionary that `apply` reads and writes.
pub record Flock : Type 0 where
  pub l_type : LockType
  pub l_start : ℕ
  pub l_len : ℕ
  pub l_pid : ℕ

abbrev pub Table : Type 0
Table = List FileLock

abbrev pub is_rdlck : LockType → Bool
is_rdlck rdlck = true
is_rdlck _ = false

abbrev pub is_unlck : LockType → Bool
is_unlck unlck = true
is_unlck _ = false

-- `sys.maxsize`
abbrev pub maxsize : ℕ
maxsize = 2 ^ 63 - 1

-- `end if end is not None else sys.maxsize`
abbrev pub last_byte : Option ℕ → ℕ
last_byte none = maxsize
last_byte (some e) = e

unfoldable pub overlaps : ℕ → Option ℕ → ℕ → Option ℕ → Bool
overlaps left_start left_end right_start right_end =
    leb left_start (last_byte right_end) && leb right_start (last_byte left_end)

-- The tests in the loop of `_conflict`.
unfoldable pub is_conflict : ℕ → ℕ → LockType → ℕ → Option ℕ → FileLock → Bool
unfolding overlaps
is_conflict inode_id owner lock_type start end lock =
    if not (lock.inode_id == inode_id) || lock.owner == owner
    then false
    else if is_rdlck lock.lock_type && is_rdlck lock_type
    then false
    else overlaps lock.start lock.end start end

pub first_conflict : ℕ → ℕ → LockType → ℕ → Option ℕ → Table → Option FileLock
first_conflict inode_id owner lock_type start end [] = none
first_conflict inode_id owner lock_type start end (lock ∷ locks) =
    if is_conflict inode_id owner lock_type start end lock
    then some lock
    else first_conflict inode_id owner lock_type start end locks

-- `_conflict`
pub conflict : ℕ → ℕ → LockType → ℕ → Option ℕ → Table → Option FileLock
conflict inode_id owner lock_type start end locks =
    if is_unlck lock_type then none else first_conflict inode_id owner lock_type start end locks

-- `lock.end is None or lock.end > end`
abbrev ends_after : Option ℕ → ℕ → Bool
ends_after none e = true
ends_after (some l) e = ltb e l

-- What `_unlock` keeps of one record behind the removed range.
unfoldable pub suffix_piece : FileLock → Option ℕ → List FileLock
suffix_piece lock none = []
suffix_piece lock (some e) =
    if ends_after lock.end e then record lock { start = e + 1 } ∷ [] else []

-- What the body of the loop in `_unlock` appends for one record.
unfoldable pub remaining : ℕ → ℕ → ℕ → Option ℕ → FileLock → List FileLock
unfolding overlaps suffix_piece
remaining inode_id owner start end lock =
    if not (lock.inode_id == inode_id)
      || (not (lock.owner == owner) || not (overlaps lock.start lock.end start end))
    then lock ∷ []
    else (if ltb lock.start start then record lock { end = some (start - 1) } ∷ [] else [])
      ++ suffix_piece lock end

-- `_unlock`
pub unlock : ℕ → ℕ → ℕ → Option ℕ → Table → Table
unlock inode_id owner start end [] = []
unlock inode_id owner start end (lock ∷ locks) =
    remaining inode_id owner start end lock ++ unlock inode_id owner start end locks

-- `None if length == 0 else start + length - 1`
abbrev pub end_of : ℕ → ℕ → Option ℕ
end_of start length = if length == 0 then none else some (start + length - 1)

-- `0 if conflict.end is None else conflict.end - conflict.start + 1`, for a record that does not end
-- before it starts; no other is ever made.
abbrev pub length_of : FileLock → ℕ
length_of lock = elim lock.end [ none ↦ 0 | some e ↦ e + 1 - lock.start ]

-- The dictionary that F_GETLK returns.
abbrev pub describe : Flock → Option FileLock → Flock
describe lock none = record lock { l_type = unlck; l_pid = 0 }
describe lock (some c) = record {
  l_type = c.lock_type;
  l_start = c.start;
  l_len = length_of c;
  l_pid = c.pid;
}

-- `_unlock` and then `self._locks.append`.
unfoldable pub grant : FileLock → Table → Table
grant new locks = unlock new.inode_id new.owner new.start new.end locks ++ new ∷ []

-- The part of `apply` below the test of `cmd`: F_SETLK and F_SETLKW do not differ.
unfoldable pub set_lock : ℕ → ℕ → ℕ → LockType → ℕ → Option ℕ → Table → Result Table
unfolding grant
set_lock inode_id owner pid unlck start end locks = ok (unlock inode_id owner start end locks)
set_lock inode_id owner pid other start end locks = err Error.einval
set_lock inode_id owner pid lock_type start end locks =
    elim (conflict inode_id owner lock_type start end locks) [
      | some _ ↦ err Error.eagain
      | none ↦ ok (
          grant
            (record {
              inode_id = inode_id;
              owner = owner;
              pid = pid;
              lock_type = lock_type;
              start = start;
              end = end;
            })
            locks)
    ]

-- A call that sets a lock returns `None`.
abbrev pub quiet : Result Table → Result (Option Flock × Table)
quiet (ok locks) = ok (none, locks)
quiet (err e) = err e

-- `apply`: what the caller gets, and the table after the call.
unfoldable pub apply : ℕ → ℕ → ℕ → Cmd → Flock → Table → Result (Option Flock × Table)
unfolding set_lock
apply inode_id owner pid getlk lock locks =
    let found =
      conflict inode_id owner lock.l_type lock.l_start (end_of lock.l_start lock.l_len) locks in
    ok (some (describe lock found), locks)
apply inode_id owner pid other lock locks = err Error.einval
apply inode_id owner pid _ lock locks =
    quiet
      (set_lock inode_id owner pid lock.l_type lock.l_start (end_of lock.l_start lock.l_len) locks)

pub release_owner : ℕ → ℕ → Table → Table
release_owner inode_id owner = keep (λ lock. not (lock.inode_id == inode_id && lock.owner == owner))
