-- ===== src/Locks/Exclusion.antt =====
-- locks.py: what a granted lock means for the other owners, and F_GETLK against F_SETLK.
use mathlib.Core.Path.{subst}
use ztierfs.Common.{
  ℕ, ◌≤◌, ◌≡◌, refl, ap, Bool-cases, ◌⊎◌, inl, inr, false, ◌&&◌, Option, none, some, [], ◌∷◌, ◌++◌,
  ◌==◌, arith, All, ok, err, Error, Result, Option-cases,
}
use ztierfs.Locks.{
  LockType, rdlck, wrlck, unlck, other, Cmd, getlk, setlk, FileLock, Flock, Table, is_rdlck,
  overlaps, is_conflict, first_conflict, conflict, remaining, unlock, set_lock, apply, grant, quiet,
  release_owner, end_of, describe, last_byte,
}
use ztierfs.Locks.Pieces.{
  Compatible, IsExclusive, All-append, IsExclusive-append, pieces-Compatible_one,
  unlock-IsExclusive,
}

-- A table in which `_conflict` finds nothing goes together with the lock that was asked for.
no_conflict-Compatible :
    (new : FileLock) (t : Table)
    → first_conflict new.inode_id new.owner new.lock_type new.start new.end t ≡ none
    → All (λ l. Compatible l new) t
unfolding first_conflict is_conflict overlaps
no_conflict-Compatible new [] h = tt
no_conflict-Compatible new (l ∷ t) h =
    (λ b. ground (arith, h), no_conflict-Compatible new t (ground (arith, h)))

-- Dropping records of a table keeps what went together.
keep-Compatible :
    (i o : ℕ) (l : FileLock) (t : Table)
    → All (Compatible l) t
    → All (Compatible l) (release_owner i o t)
unfolding release_owner
keep-Compatible i o l [] h = tt
keep-Compatible i o l (m ∷ t) h = ground (arith, keep-Compatible i o l t)

-- Closing a handle keeps the table free of conflicts.
pub release_owner-IsExclusive :
    (i o : ℕ) (t : Table) → IsExclusive t → IsExclusive (release_owner i o t)
unfolding release_owner
release_owner-IsExclusive i o [] h = tt
release_owner-IsExclusive i o (l ∷ t) h =
    ground (arith, keep-Compatible i o l t h.0, release_owner-IsExclusive i o t h.1)

-- What `_unlock` leaves still goes together with a lock that went together with the table.
set-Compatible :
    (i o start : ℕ) (end : Option ℕ) (new : FileLock) (t : Table)
    → All (λ l. Compatible l new) t
    → All (λ l. Compatible l new) (unlock i o start end t)
unfolding unlock
set-Compatible i o start end new [] h = tt
set-Compatible i o start end new (l ∷ t) h =
    All-append (λ p. Compatible p new) (remaining i o start end l) (unlock i o start end t)
      (pieces-Compatible_one i o start end l new h.0) (set-Compatible i o start end new t h.1)

singletons :
    (new : FileLock) (t : Table)
    → All (λ l. Compatible l new) t
    → All (λ l. All (Compatible l) (new ∷ [])) t
singletons new [] h = tt
singletons new (l ∷ t) h = ((h.0, tt), singletons new t h.1)

-- A lock for which `_conflict` finds nothing can join the table once the owner's range is cleared.
grant-IsExclusive :
    (new : FileLock) (t : Table)
    → IsExclusive t
    → first_conflict new.inode_id new.owner new.lock_type new.start new.end t ≡ none
    → IsExclusive (grant new t)
unfolding grant
grant-IsExclusive new t h free =
    IsExclusive-append (unlock new.inode_id new.owner new.start new.end t) (new ∷ [])
      (unlock-IsExclusive new.inode_id new.owner new.start new.end t h)
      (singletons new _ (
        set-Compatible new.inode_id new.owner new.start new.end new t
          (no_conflict-Compatible new t free)))
      (tt, tt)

-- What holds of the table after a call that succeeds.
abbrev Ensures : (Table → Type 0) → Result Table → Type 0
Ensures P (ok t) = P t
Ensures P (err _) = Unit

set_lock-Ensures :
    (i o pid : ℕ) (ty : LockType) (start : ℕ) (end : Option ℕ) (t : Table)
    → IsExclusive t
    → Ensures IsExclusive (set_lock i o pid ty start end t)
unfolding set_lock conflict
set_lock-Ensures i o pid rdlck start end t h =
    elim (Option-cases (first_conflict i o rdlck start end t)) [
      | inl free ↦ rw (free, Ensures) (grant-IsExclusive _ t h free)
      | inr (_, taken) ↦ rw (taken, Ensures) tt
    ]
set_lock-Ensures i o pid wrlck start end t h =
    elim (Option-cases (first_conflict i o wrlck start end t)) [
      | inl free ↦ rw (free, Ensures) (grant-IsExclusive _ t h free)
      | inr (_, taken) ↦ rw (taken, Ensures) tt
    ]
set_lock-Ensures i o pid unlck start end t h = unlock-IsExclusive i o start end t h
set_lock-Ensures i o pid other start end t h = tt

finish :
    (m : Result Table) {r : Option Flock} {t' : Table}
    → Ensures IsExclusive m
    → quiet m ≡ ok (r, t')
    → IsExclusive t'
finish (ok t) h e = subst IsExclusive (cc) h
finish (err _) h e = cc

-- A call of `apply` that succeeds, whatever its command, lock type and range, leaves a table in
-- which no two owners hold conflicting locks over one byte, if it was given such a table.
pub apply-IsExclusive :
    (i o pid : ℕ) (cmd : Cmd) (lock : Flock) (t : Table) {r : Option Flock} {t' : Table}
    → IsExclusive t
    → apply i o pid cmd lock t ≡ ok (r, t')
    → IsExclusive t'
unfolding apply
apply-IsExclusive i o pid getlk lock t h e = subst IsExclusive (cc) h
apply-IsExclusive i o pid other lock t h e = cc
apply-IsExclusive i o pid _ lock t h e =
    finish (set_lock i o pid lock.l_type lock.l_start (end_of lock.l_start lock.l_len) t)
      (set_lock-Ensures i o pid lock.l_type lock.l_start (end_of lock.l_start lock.l_len) t h) e

-- The record of the table that keeps a lock from being set: of another owner on the file, not for reading
-- if the lock is for reading, and with a range that meets the range of the lock.
pub record IsInWay (i o : ℕ) (lock : Flock) (t : Table) (c : FileLock) : Type 0 where
  pub before : Table
  pub after : Table
  pub there : t ≡ before ++ c ∷ after
  pub inode : c.inode_id ≡ i
  pub owner : c.owner == o ≡ false
  pub type : is_rdlck c.lock_type && is_rdlck lock.l_type ≡ false
  pub first : c.start ≤ last_byte (end_of lock.l_start lock.l_len)
  pub last : lock.l_start ≤ last_byte c.end

-- The record that F_SETLK asks for.
abbrev pub asked : ℕ → ℕ → ℕ → Flock → FileLock
asked i o pid lock = record {
  inode_id = i;
  owner = o;
  pid = pid;
  lock_type = lock.l_type;
  start = lock.l_start;
  end = end_of lock.l_start lock.l_len;
}

conflict-IsInWay :
    (i o : ℕ) (lock : Flock) (t : Table) (c : FileLock)
    → first_conflict i o lock.l_type lock.l_start (end_of lock.l_start lock.l_len) t ≡ some c
    → IsInWay i o lock t c
unfolding first_conflict is_conflict overlaps
conflict-IsInWay i o lock [] c h = cc
conflict-IsInWay i o lock (l ∷ t) c h =
    let end = end_of lock.l_start lock.l_len in
    elim (Bool-cases (is_conflict i o lock.l_type lock.l_start end l)) [
      | inl hit ↦
          let same : l ≡ c = ground (arith, hit, h) in
          subst (IsInWay i o lock (l ∷ t)) same (record {
            before = [];
            after = t;
            there = refl;
            inode = ground (arith, hit);
            owner = ground (arith, hit);
            type = ground (arith, hit);
            first = ground (arith, hit);
            last = ground (arith, hit);
          })
      | inr miss ↦
          let r = conflict-IsInWay i o lock t c (ground (arith, miss, h)) in
          record {
            before = l ∷ r.before;
            after = r.after;
            there = ap (λ x. l ∷ x) r.there;
            inode = r.inode;
            owner = r.owner;
            type = r.type;
            first = r.first;
            last = r.last;
          }
    ]

-- For a read or a write lock, either F_SETLK fails with EAGAIN and F_GETLK describes a record of the
-- table that is in the way: of another owner on the file, not both for reading, and each of the two
-- ranges begins no later than the last byte of the other. Or F_SETLK is granted, F_GETLK reports F_UNLCK
-- with pid 0, and no byte of the range lies in a record of the table that excludes the lock. F_GETLK
-- changes nothing.
pub getlk_predicts_setlk :
    (i o pid : ℕ) (lock : Flock) (t : Table)
    → (lock.l_type ≡ rdlck) ⊎ (lock.l_type ≡ wrlck)
    → ((c : FileLock) × (apply i o pid setlk lock t ≡ err Error.eagain)
        × (apply i o pid getlk lock t ≡ ok (some (describe lock (some c)), t))
        × IsInWay i o lock t c)
      ⊎ ((t' : Table) × (apply i o pid setlk lock t ≡ ok (none, t'))
          × (apply i o pid getlk lock t ≡ ok (some (record lock { l_type = unlck; l_pid = 0 }), t))
          × All (λ l. Compatible l (asked i o pid lock)) t)
unfolding apply set_lock conflict
getlk_predicts_setlk i o pid lock t h =
    elim (Option-cases
      (first_conflict i o lock.l_type lock.l_start (end_of lock.l_start lock.l_len) t)) [
        | inl free ↦ inr (
          grant (asked i o pid lock) t,
          ground arith,
          ground arith,
          no_conflict-Compatible (asked i o pid lock) t free,
        )
        | inr (c, taken) ↦ inl (c, ground arith, ground arith, conflict-IsInWay i o lock t c taken)
      ]
