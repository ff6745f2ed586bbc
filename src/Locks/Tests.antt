-- ===== src/Locks/Tests.antt =====
-- locks.py on concrete tables.
use ztierfs.Common.{
  ℕ, ◌≡◌, ◌⊎◌, refl, inr, true, false, none, some, [], ◌∷◌, ok, err, Error, arith, All,
}
use ztierfs.Locks.{
  LockType, rdlck, wrlck, unlck, getlk, setlk, FileLock, Flock, Table, overlaps, is_conflict,
  first_conflict, conflict, suffix_piece, remaining, unlock, describe, grant, set_lock, apply,
  release_owner, is_rdlck,
}
use ztierfs.Locks.Bytes.{held, held-unlock, held-release_owner, held-grant}
use ztierfs.Locks.Pieces.{IsExclusive, Compatible}
use ztierfs.Locks.Exclusion.{IsInWay, asked, apply-IsExclusive, getlk_predicts_setlk}

-- Owner 10 has a read lock on the bytes 0 to 99 of file 1, owner 20 a write lock from 200 on.
abbrev reader : FileLock
reader = record { inode_id = 1; owner = 10; pid = 7; lock_type = rdlck; start = 0; end = some 99 }

abbrev writer : FileLock
writer = record { inode_id = 1; owner = 20; pid = 8; lock_type = wrlck; start = 200; end = none }

abbrev two_locks : Table
two_locks = reader ∷ writer ∷ []

abbrev ask : LockType → ℕ → ℕ → Flock
ask lock_type start length = record {
  l_type = lock_type;
  l_start = start;
  l_len = length;
  l_pid = 0;
}

two_locks-IsExclusive : IsExclusive two_locks
two_locks-IsExclusive = ((λ b. ground arith, tt), (tt, tt))

-- An unlock in the middle leaves both ends.
unlock_middle :
    unlock 1 10 40 (some 59) two_locks
    ≡ record reader { end = some 39 } ∷ record reader { start = 60 } ∷ writer ∷ []
unfolding unlock remaining overlaps suffix_piece
unlock_middle = refl

-- A write lock over the read lock of another owner is refused.
refused : apply 1 20 8 setlk (ask wrlck 50 10) two_locks ≡ err Error.eagain
unfolding apply set_lock conflict first_conflict is_conflict overlaps
refused = refl

-- The owner turns a part of its read lock into a write lock.
abbrev upgraded : Table
upgraded =
    record reader { end = some 49 }
    ∷ record reader { start = 60 }
    ∷ writer
    ∷ record reader { lock_type = wrlck; start = 50; end = some 59 }
    ∷ []

upgrade : apply 1 10 7 setlk (ask wrlck 50 10) two_locks ≡ ok (none, upgraded)
unfolding apply set_lock grant conflict first_conflict is_conflict overlaps unlock remaining
    suffix_piece
upgrade = refl

apply-IsExclusive_example : IsExclusive upgraded
apply-IsExclusive_example =
    apply-IsExclusive 1 10 7 setlk (ask wrlck 50 10) two_locks two_locks-IsExclusive upgrade

getlk_predicts_setlk_example :
    ((c : FileLock) × (apply 1 20 8 setlk (ask wrlck 50 10) two_locks ≡ err Error.eagain)
      × (apply 1 20 8 getlk (ask wrlck 50 10) two_locks
          ≡ ok (some (describe (ask wrlck 50 10) (some c)), two_locks))
      × IsInWay 1 20 (ask wrlck 50 10) two_locks c)
    ⊎ ((t' : Table) × (apply 1 20 8 setlk (ask wrlck 50 10) two_locks ≡ ok (none, t'))
        × (apply 1 20 8 getlk (ask wrlck 50 10) two_locks ≡ ok (some (ask unlck 50 10), two_locks))
        × All (λ l. Compatible l (asked 1 20 8 (ask wrlck 50 10))) two_locks)
getlk_predicts_setlk_example = getlk_predicts_setlk 1 20 8 (ask wrlck 50 10) two_locks (inr refl)

held-unlock_example : held is_rdlck 1 10 45 (unlock 1 10 40 (some 59) two_locks) ≡ false
held-unlock_example = held-unlock is_rdlck 1 10 1 10 45 40 (some 59) two_locks (omega arith)

held-release_owner_example : held is_rdlck 1 10 45 (release_owner 1 20 two_locks) ≡ true
held-release_owner_example = held-release_owner is_rdlck 1 20 1 10 45 two_locks

held-grant_example :
    held is_rdlck 1 10 55
      (grant (record reader { lock_type = wrlck; start = 50; end = some 59 }) two_locks)
    ≡ false
held-grant_example =
    held-grant is_rdlck 1 10 55 (record reader { lock_type = wrlck; start = 50; end = some 59 })
      two_locks (omega arith)
