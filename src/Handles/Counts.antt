-- ===== src/Handles/Counts.antt =====
-- handles.py: the open counts against the handles that are open.
use mathlib.Core.Option
use ztierfs.Common.{
  ℕ, ◌+◌, ◌-◌, ◌<◌, ◌≡◌, ◌↔◌, refl, true, false, Option, none, some, [], ◌∷◌, ◌==◌, if◌then◌else◌,
  arith, total, Option-cases, Bool-cases, inl, inr,
}
use ztierfs.Common.Dict.{
  Dict, lookup, insert, erase, contains_key, IsUnique, lookup-erase, lookup-insert, erase-IsUnique,
  insert-IsUnique, erase_absent, contains_key-lookup, total-erase,
}
use ztierfs.Handles.{
  Fh, int, alien, Snapshot, HandleTable, init, new, release, release_int, invalidate_file,
  invalidate_loop, file_id, has_open_file, count_down, snapshot, lock_owner,
}

abbrev is_bound : ℕ → ℕ × ℕ → ℕ
is_bound f e = if e.1 == f then 1 else 0

-- How many handles are bound to the file.
abbrev pub open_handles : ℕ → Dict ℕ → ℕ
open_handles f = total (is_bound f)

-- Every count is the number of handles that are bound to the file, and a file with no handle has no
-- count; no handle above `next_fh` is in use.
pub record IsValid (t : HandleTable) : Type 0 where
  pub unique : IsUnique t.handles
  pub fresh : (fh : ℕ) → t.next_fh < fh → contains_key fh t.handles ≡ false
  pub counted : (f : ℕ) → Option.get_or (lookup f t.open_counts) 0 ≡ open_handles f t.handles

-- The table of a new mount is valid.
pub init-IsValid : IsValid init
init-IsValid = record { unique = tt; fresh = λ fh h. refl; counted = λ f. refl }

closed-erase :
    (j k : ℕ) (m : Dict ℕ) → contains_key j m ≡ false → contains_key j (erase k m) ≡ false
closed-erase j k [] h = refl
closed-erase j k ((i, v) ∷ m) h = ground (arith, closed-erase j k m)

-- `new` keeps the counts right, and no handle above the last one in use.
pub new-IsValid :
    (f : ℕ) (owner : Option ℕ) (s : Option Snapshot) (t : HandleTable)
    → IsValid t
    → IsValid (new f owner s t).1
unfolding new
new-IsValid f owner s t v = record {
  unique = insert-IsUnique (t.next_fh + 1) f t.handles v.unique;
  fresh = λ fh h. ground (arith, v.fresh fh, closed-erase fh (t.next_fh + 1) t.handles);
  counted = λ g. ground (
    arith,
    erase_absent (t.next_fh + 1) t.handles (v.fresh (t.next_fh + 1) (omega arith)),
    v.counted g,
    v.counted f,
    lookup-insert g f (Option.get_or (lookup f t.open_counts) 0 + 1) t.open_counts,
  );
}

count_down-counts :
    (f g : ℕ) (counts : Dict ℕ)
    → Option.get_or (lookup g (count_down f counts)) 0 ≡ (
        if g == f then Option.get_or (lookup f counts) 0 - 1 else Option.get_or (lookup g counts) 0)
count_down-counts f g counts = ground (
  arith,
  lookup-insert g f (Option.get_or (lookup f counts) 0 - 1) counts,
  lookup-erase g f counts,
)

bound-IsValid :
    (fh f : ℕ) (t : HandleTable)
    → IsValid t
    → lookup fh t.handles ≡ some f
    → IsValid (record t {
      handles = erase fh t.handles;
      snapshots = erase fh t.snapshots;
      lock_owners = erase fh t.lock_owners;
      open_counts = count_down f t.open_counts;
    })
bound-IsValid fh f t v e = record {
  unique = erase-IsUnique fh t.handles v.unique;
  fresh = λ j h. closed-erase j fh t.handles (v.fresh j h);
  counted = λ g. ground (
    arith,
    count_down-counts f g t.open_counts,
    v.counted g,
    v.counted f,
    total-erase (is_bound g) fh f t.handles v.unique e,
  );
}

unbound-IsValid :
    (fh : ℕ) (t : HandleTable)
    → IsValid t
    → lookup fh t.handles ≡ none
    → IsValid (record t {
      handles = erase fh t.handles;
      snapshots = erase fh t.snapshots;
      lock_owners = erase fh t.lock_owners;
    })
unbound-IsValid fh t v e =
    let same : erase fh t.handles ≡ t.handles =
      erase_absent fh t.handles (ground (arith, contains_key-lookup fh t.handles)) in
    record {
      unique = erase-IsUnique fh t.handles v.unique;
      fresh = λ j h. closed-erase j fh t.handles (v.fresh j h);
      counted = λ g. ground (arith, v.counted g);
    }

-- `release` keeps the counts right, for a handle that is open, for one that is not and for an
-- object that is no handle.
pub release-IsValid : (fh : Fh) (t : HandleTable) → IsValid t → IsValid (release fh t).1
unfolding release
release-IsValid (int fh) t v = elim (Option-cases (lookup fh t.handles)) [
  | inl closed ↦ rw (closed, release_int) (unbound-IsValid fh t v closed)
  | inr (f, bound) ↦ rw (bound, release_int) (bound-IsValid fh f t v bound)
]
release-IsValid alien t v = v

find_handle :
    (f : ℕ) (m : Dict ℕ) → IsUnique m → 0 < open_handles f m → (fh : ℕ) × (lookup fh m ≡ some f)
find_handle f [] u h = absurd (omega arith)
find_handle f ((k, v) ∷ m) u h = elim (Bool-cases (v == f)) [
  | inl here ↦ (k, ground arith)
  | inr other ↦
      let (fh, found) = find_handle f m u.1 (ground arith) in
      (fh, ground (arith, contains_key-lookup fh m))
]

lookup-open_handles : (fh f : ℕ) (m : Dict ℕ) → lookup fh m ≡ some f → 0 < open_handles f m
lookup-open_handles fh f [] h = cc
lookup-open_handles fh f ((k, v) ∷ m) h = ground (arith, lookup-open_handles fh f m)

-- In a valid table a file counts as open exactly when some handle is bound to it.
pub has_open_file_iff :
    (f : ℕ) (t : HandleTable)
    → IsValid t
    → (has_open_file f t ≡ true) ↔ ((fh : ℕ) × (file_id (int fh) t ≡ some f))
unfolding has_open_file file_id
has_open_file_iff f t v = (
  λ h. find_handle f t.handles v.unique (ground (arith, v.counted f)),
  λ h. ground (arith, v.counted f, lookup-open_handles h.0 f t.handles h.1),
)

-- In a valid table the handle that `new` returns was not open. It is bound to the file, has the given
-- snapshot, and is owned by the caller or by itself; every other handle keeps its file.
pub new_binds :
    (f : ℕ) (owner : Option ℕ) (s : Option Snapshot) (t : HandleTable) (fh : ℕ)
    → IsValid t
    → let (fh', t') = new f owner s t in
      (file_id (int fh') t' ≡ some f)
      × (snapshot (int fh') t' ≡ s)
      × (lock_owner (int fh') t' ≡ some (Option.get_or owner fh'))
      × (file_id (int fh') t ≡ none)
      × (file_id (int fh) t' ≡ (if fh == fh' then some f else file_id (int fh) t))
unfolding new file_id snapshot lock_owner
new_binds f owner s t fh v = (
  ground arith,
  ground arith,
  ground arith,
  ground (arith, v.fresh (t.next_fh + 1), contains_key-lookup (t.next_fh + 1) t.handles),
  ground (arith, lookup-insert fh (t.next_fh + 1) f t.handles),
)

invalidate_loop-lookup :
    (f fh : ℕ) (m : Dict ℕ) (s : Dict (Option Snapshot))
    → IsUnique m
    → Option.get_or (lookup fh (invalidate_loop f m s)) none ≡ elim (lookup fh m) [
      | none ↦ Option.get_or (lookup fh s) none
      | some g ↦ if g == f then none else Option.get_or (lookup fh s) none
    ]
unfolding invalidate_loop
invalidate_loop-lookup f fh [] s u = refl
invalidate_loop-lookup f fh ((k, b) ∷ m) s u = ground (
  arith,
  invalidate_loop-lookup f fh m (if b == f then insert k none s else s) u.1,
  lookup-insert fh k none s,
  contains_key-lookup k m,
)

-- In a valid table, after `invalidate_file` no handle of the file has a snapshot, and every other
-- handle keeps its own.
pub snapshot-invalidate_file :
    (f fh : ℕ) (t : HandleTable)
    → IsValid t
    → snapshot (int fh) (invalidate_file f t) ≡ elim (lookup fh t.handles) [
      | none ↦ snapshot (int fh) t
      | some g ↦ if g == f then none else snapshot (int fh) t
    ]
unfolding snapshot invalidate_file
snapshot-invalidate_file f fh t v = invalidate_loop-lookup f fh t.handles t.snapshots v.unique
