-- ===== src/Locks/Pieces.antt =====
-- locks.py: records that go together, and what `_unlock` leaves of them.
use ztierfs.Common.{
  ℕ, ◌≤◌, ◌≡◌, Bool, false, not, ◌&&◌, Option, none, some, [], ◌∷◌, ◌++◌, ◌==◌, arith, All,
}
use ztierfs.Locks.{FileLock, Table, is_rdlck, overlaps, remaining, unlock, last_byte}
use ztierfs.Locks.Bytes.{in_range}

-- Two records that may not lie over one byte: of one file and two owners, and not both for reading.
abbrev pub excludes : FileLock → FileLock → Bool
excludes l m =
    l.inode_id == m.inode_id
    && (not (l.owner == m.owner) && not (is_rdlck l.lock_type && is_rdlck m.lock_type))

-- Two records go together: if they exclude each other, no byte lies in both.
abbrev pub Compatible : FileLock → FileLock → Type 0
Compatible l m =
    (b : ℕ) → excludes l m && (in_range l.start l.end b && in_range m.start m.end b) ≡ false

-- No two records of the table are in conflict.
abbrev pub IsExclusive : Table → Type 0
IsExclusive [] = Unit
IsExclusive (l ∷ t) = All (Compatible l) t × IsExclusive t

pub All-append : (P : FileLock → Type 0) (s t : Table) → All P s → All P t → All P (s ++ t)
All-append P [] t hs ht = ht
All-append P (l ∷ s) t hs ht = (hs.0, All-append P s t hs.1 ht)

Compatible-symm : (l m : FileLock) → Compatible l m → Compatible m l
Compatible-symm l m h b = ground (arith, h b)

-- A part of a record: of the same file, owner and type, and nowhere outside its range.
record IsPiece (m p : FileLock) : Type 0 where
  inode : p.inode_id ≡ m.inode_id
  owner : p.owner ≡ m.owner
  type : p.lock_type ≡ m.lock_type
  first : m.start ≤ p.start
  last : last_byte p.end ≤ last_byte m.end

remaining-IsPiece :
    (i o start : ℕ) (end : Option ℕ) (m : FileLock) → All (IsPiece m) (remaining i o start end m)
unfolding remaining overlaps
remaining-IsPiece i o start none m = ground arith
remaining-IsPiece i o start (some e) m = ground arith

piece-Compatible : (l m p : FileLock) → IsPiece m p → Compatible l m → Compatible l p
piece-Compatible l m p k h b = ground (arith, k.inode, k.owner, k.type, k.first, k.last, h b)

All-pieces :
    (l m : FileLock) (ps : Table) → All (IsPiece m) ps → Compatible l m → All (Compatible l) ps
All-pieces l m [] k h = tt
All-pieces l m (p ∷ ps) k h = (piece-Compatible l m p k.0 h, All-pieces l m ps k.1 h)

-- Removing a range only shrinks a record, so what went together still does.
remaining-Compatible :
    (i o start : ℕ) (end : Option ℕ) (l m : FileLock)
    → Compatible l m
    → All (Compatible l) (remaining i o start end m)
remaining-Compatible i o start end l m h =
    All-pieces l m (remaining i o start end m) (remaining-IsPiece i o start end m) h

unlock-Compatible :
    (i o start : ℕ) (end : Option ℕ) (l : FileLock) (t : Table)
    → All (Compatible l) t
    → All (Compatible l) (unlock i o start end t)
unfolding unlock
unlock-Compatible i o start end l [] h = tt
unlock-Compatible i o start end l (m ∷ t) h =
    All-append (Compatible l) (remaining i o start end m) (unlock i o start end t)
      (remaining-Compatible i o start end l m h.0) (unlock-Compatible i o start end l t h.1)

pub IsExclusive-append :
    (s t : Table)
    → IsExclusive s
    → All (λ l. All (Compatible l) t) s
    → IsExclusive t
    → IsExclusive (s ++ t)
IsExclusive-append [] t hs across ht = ht
IsExclusive-append (l ∷ s) t hs across ht =
    (All-append (Compatible l) s t hs.0 across.0, IsExclusive-append s t hs.1 across.1 ht)

All-symm : (l : FileLock) (t : Table) → All (Compatible l) t → All (λ m. Compatible m l) t
All-symm l [] h = tt
All-symm l (m ∷ t) h = (Compatible-symm l m h.0, All-symm l t h.1)

pub pieces-Compatible_one :
    (i o start : ℕ) (end : Option ℕ) (l m : FileLock)
    → Compatible l m
    → All (λ p. Compatible p m) (remaining i o start end l)
pieces-Compatible_one i o start end l m h =
    All-symm m (remaining i o start end l)
      (remaining-Compatible i o start end m l (Compatible-symm l m h))

All-nil : (s : Table) → All (λ p. All (Compatible p) []) s
All-nil [] = tt
All-nil (p ∷ s) = (tt, All-nil s)

All-cons :
    (m : FileLock) (s t : Table)
    → All (λ p. Compatible p m) s
    → All (λ p. All (Compatible p) t) s
    → All (λ p. All (Compatible p) (m ∷ t)) s
All-cons m [] t h k = tt
All-cons m (p ∷ s) t h k = ((h.0, k.0), All-cons m s t h.1 k.1)

-- The pieces of one record against the rest of the table, one record of the rest at a time.
pieces-Compatible :
    (i o start : ℕ) (end : Option ℕ) (l : FileLock) (t : Table)
    → All (Compatible l) t
    → All (λ p. All (Compatible p) t) (remaining i o start end l)
pieces-Compatible i o start end l [] h = All-nil (remaining i o start end l)
pieces-Compatible i o start end l (m ∷ t) h =
    All-cons m (remaining i o start end l) t (pieces-Compatible_one i o start end l m h.0)
      (pieces-Compatible i o start end l t h.1)

-- Records of one owner go together.
owned-Compatible :
    (o : ℕ) (l : FileLock) (t : Table)
    → l.owner ≡ o
    → All (λ p. p.owner ≡ o) t
    → All (Compatible l) t
owned-Compatible o l [] h k = tt
owned-Compatible o l (m ∷ t) h k = (λ b. ground (arith, h, k.0), owned-Compatible o l t h k.1)

owned-IsExclusive : (o : ℕ) (t : Table) → All (λ p. p.owner ≡ o) t → IsExclusive t
owned-IsExclusive o [] k = tt
owned-IsExclusive o (l ∷ t) k = (owned-Compatible o l t k.0 k.1, owned-IsExclusive o t k.1)

pieces_owned : (m : FileLock) (ps : Table) → All (IsPiece m) ps → All (λ p. p.owner ≡ m.owner) ps
pieces_owned m [] k = tt
pieces_owned m (p ∷ ps) k = (k.0.owner, pieces_owned m ps k.1)

remaining-IsExclusive :
    (i o start : ℕ) (end : Option ℕ) (l : FileLock) → IsExclusive (remaining i o start end l)
remaining-IsExclusive i o start end l =
    owned-IsExclusive l.owner (remaining i o start end l)
      (pieces_owned l (remaining i o start end l) (remaining-IsPiece i o start end l))

-- `_unlock` brings no two records into conflict.
pub unlock-IsExclusive :
    (i o start : ℕ) (end : Option ℕ) (t : Table)
    → IsExclusive t
    → IsExclusive (unlock i o start end t)
unfolding unlock
unlock-IsExclusive i o start end [] h = tt
unlock-IsExclusive i o start end (l ∷ t) h =
    IsExclusive-append (remaining i o start end l) (unlock i o start end t)
      (remaining-IsExclusive i o start end l)
      (pieces-Compatible i o start end l (unlock i o start end t)
        (unlock-Compatible i o start end l t h.0))
      (unlock-IsExclusive i o start end t h.1)
