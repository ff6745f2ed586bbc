-- ===== src/Metadata/RwLock.antt =====
-- metadata/connection.py: `ReadWriteLock`, step by step. A step is what one thread does between taking
-- the lock of the condition and giving it up, in `wait` or at the end.
pub mod Counts
pub mod Exclusion
pub mod Waiting
use ztierfs.Common.{
  ℕ, zero, suc, ◌+◌, ◌-◌, ◌≡◌, Bool, true, false, ◌||◌, Option, none, some, List, [], ◌∷◌, ◌++◌,
  map, ltb, ◌==◌, if◌then◌else◌,
}

pub record RwLock : Type 0 where
  pub readers : ℕ
  pub writer : Bool
  pub waiting_writers : ℕ

abbrev pub init_lock : RwLock
init_lock = record { readers = 0; writer = false; waiting_writers = 0 }

-- Where a thread is: outside, asleep in `wait`, woken to test its condition again, or holding the lock.
pub data Phase : Type 0 where
  outside : Phase
  asleep_reader : Phase
  woken_reader : Phase
  reading : Phase
  asleep_writer : Phase
  woken_writer : Phase
  writing : Phase

-- What a step leaves: the lock, where the thread is, and whether it called `notify_all`.
pub record Turn : Type 0 where
  pub lock : RwLock
  pub phase : Phase
  pub notified : Bool

-- From the test of the loop on; a thread that was woken starts here as well.
unfoldable pub acquire_read : RwLock → Turn
acquire_read l =
    if l.writer || ltb 0 l.waiting_writers
    then record { lock = l; phase = asleep_reader; notified = false }
    else record { lock = record l { readers = l.readers + 1 }; phase = reading; notified = false }

-- `_readers` is not 0 where a thread reads.
unfoldable pub release_read : RwLock → Turn
release_read l = record {
  lock = record l { readers = l.readers - 1 };
  phase = outside;
  notified = l.readers - 1 == 0;
}

-- The loop of `acquire_write`, and the `finally` behind it.
unfoldable pub await_write : RwLock → Turn
await_write l =
    if l.writer || ltb 0 l.readers
    then record { lock = l; phase = asleep_writer; notified = false }
    else record {
      lock = record l { writer = true; waiting_writers = l.waiting_writers - 1 };
      phase = writing;
      notified = false;
    }

unfoldable pub acquire_write : RwLock → Turn
acquire_write l = await_write (record l { waiting_writers = l.waiting_writers + 1 })

unfoldable pub release_write : RwLock → Turn
release_write l = record { lock = record l { writer = false }; phase = outside; notified = true }

-- The next step of a thread; one that is outside asks for the write lock or for the read lock.
unfoldable pub turn : Bool → RwLock → Phase → Option Turn
turn to_write l outside = some (if to_write then acquire_write l else acquire_read l)
turn to_write l asleep_reader = none
turn to_write l woken_reader = some (acquire_read l)
turn to_write l reading = some (release_read l)
turn to_write l asleep_writer = none
turn to_write l woken_writer = some (await_write l)
turn to_write l writing = some (release_write l)

abbrev pub wake : Phase → Phase
wake asleep_reader = woken_reader
wake asleep_writer = woken_writer
wake outside = outside
wake woken_reader = woken_reader
wake reading = reading
wake woken_writer = woken_writer
wake writing = writing

-- `notify_all`, called by another thread.
abbrev pub notify_all : Bool → List Phase → List Phase
notify_all notified threads = if notified then map wake threads else threads

-- Any thread that is not asleep takes the next step.
pub data Step (l : RwLock) (threads : List Phase) : RwLock → List Phase → Type 0 where
  run :
      (before after : List Phase) (p : Phase) (to_write : Bool) (t : Turn)
      → threads ≡ before ++ p ∷ after
      → turn to_write l p ≡ some t
      → Step l threads t.lock
          (notify_all t.notified before ++ t.phase ∷ notify_all t.notified after)

abbrev pub all_outside : ℕ → List Phase
all_outside zero = []
all_outside (suc n) = outside ∷ all_outside n

-- What can come of so many threads.
pub data Reach (n : ℕ) : RwLock → List Phase → Type 0 where
  start : Reach n init_lock (all_outside n)
  next :
      (l l' : RwLock) (threads threads' : List Phase)
      → Reach n l threads
      → Step l threads l' threads'
      → Reach n l' threads'
