-- ===== src/Locks/Bytes.antt =====
-- locks.py byte by byte: which owner holds which byte of a file, under which type of lock.
use ztierfs.Common.{
  ℕ, ◌≤◌, ◌≡◌, Bool, not, ◌&&◌, ◌||◌, Option, none, some, [], ◌∷◌, ◌++◌, ◌==◌, leb, if◌then◌else◌,
  arith, any_of,
}
use ztierfs.Locks.{
  LockType, FileLock, Table, last_byte, maxsize, remaining, unlock, grant, release_owner,
}

-- The byte lies in the range.
abbrev pub in_range : ℕ → Option ℕ → ℕ → Bool
in_range start end b = leb start b && leb b (last_byte end)

-- The record is a lock of the owner on the file, of a type that passes the test, over the byte.
abbrev pub covers : (LockType → Bool) → ℕ → ℕ → ℕ → FileLock → Bool
covers p inode_id owner b lock =
    lock.inode_id == inode_id
    && (lock.owner == owner && (p lock.lock_type && in_range lock.start lock.end b))

abbrev pub held : (LockType → Bool) → ℕ → ℕ → ℕ → Table → Bool
held p inode_id owner b = any_of (covers p inode_id owner b)

pub held-append :
    (p : LockType → Bool) (i o b : ℕ) (s t : Table)
    → held p i o b (s ++ t) ≡ held p i o b s || held p i o b t
held-append p i o b [] t = ground arith
held-append p i o b (l ∷ s) t = ground (arith, held-append p i o b s t)

held-remaining :
    (p : LockType → Bool) (i o i' o' b start : ℕ) (end : Option ℕ) (l : FileLock)
    → b ≤ maxsize
    → held p i' o' b (remaining i o start end l)
      ≡ covers p i' o' b l && not (i == i' && (o == o' && in_range start end b))
unfolding remaining
held-remaining p i o i' o' b start none l h = ground arith
held-remaining p i o i' o' b start (some e) l h = ground arith

-- `_unlock` takes from the owner exactly the bytes of the range: every other byte stays held as it was.
pub held-unlock :
    (p : LockType → Bool) (i o i' o' b start : ℕ) (end : Option ℕ) (t : Table)
    → b ≤ maxsize
    → held p i' o' b (unlock i o start end t)
      ≡ held p i' o' b t && not (i == i' && (o == o' && in_range start end b))
unfolding unlock
held-unlock p i o i' o' b start end [] h = ground arith
held-unlock p i o i' o' b start end (l ∷ t) h = ground (
  arith,
  held-append p i' o' b (remaining i o start end l) (unlock i o start end t),
  held-remaining p i o i' o' b start end l h,
  held-unlock p i o i' o' b start end t h,
)

-- The owner gives up everything on the file, and nobody else anything.
pub held-release_owner :
    (p : LockType → Bool) (i o i' o' b : ℕ) (t : Table)
    → held p i' o' b (release_owner i o t) ≡ held p i' o' b t && not (i == i' && o == o')
unfolding release_owner
held-release_owner p i o i' o' b [] = ground arith
held-release_owner p i o i' o' b (l ∷ t) = ground (arith, held-release_owner p i o i' o' b t)

-- A granted lock gives its owner the range under the new type and no other: outside the range, and
-- for every other owner and file, each byte is held as before.
pub held-grant :
    (p : LockType → Bool) (i' o' b : ℕ) (new : FileLock) (t : Table)
    → b ≤ maxsize
    → held p i' o' b (grant new t) ≡ (
        if new.inode_id == i' && (new.owner == o' && in_range new.start new.end b)
        then p new.lock_type
        else held p i' o' b t)
unfolding grant
held-grant p i' o' b new t h = ground (
  arith,
  held-append p i' o' b (unlock new.inode_id new.owner new.start new.end t) (new ∷ []),
  held-unlock p new.inode_id new.owner i' o' b new.start new.end t h,
)
