-- ===== src/Tests/OfRwLock.antt =====
-- metadata/connection.py: a thread takes the write lock, and another one falls asleep on the read lock.
use ztierfs.Common.{◌≤◌, ◌≡◌, refl, true, false, [], ◌∷◌, total, if◌then◌else◌, arith, List, ◌⊎◌}
use ztierfs.Metadata.RwLock.{
  RwLock, init_lock, Phase, outside, writing, asleep_reader, acquire_read, await_write,
  acquire_write, turn, run, Reach, start, next,
}
use ztierfs.Metadata.RwLock.Counts.{reads, writes}
use ztierfs.Metadata.RwLock.Exclusion.{Reach-excludes}
use ztierfs.Metadata.RwLock.Waiting.{Advances, Reach-Advances}

abbrev held_lock : RwLock
held_lock = record { readers = 0; writer = true; waiting_writers = 0 }

abbrev two_threads : List Phase
two_threads = writing ∷ asleep_reader ∷ []

two_threads-Reach : Reach 2 held_lock two_threads
unfolding turn acquire_read await_write acquire_write
two_threads-Reach =
    next held_lock held_lock (writing ∷ outside ∷ []) two_threads
      (next init_lock held_lock (outside ∷ outside ∷ []) (writing ∷ outside ∷ []) start
        (run [] (outside ∷ []) outside true (acquire_write init_lock) refl refl))
      (run (writing ∷ []) [] outside false (acquire_read held_lock) refl refl)

Reach-excludes_example :
    (total writes two_threads ≤ 1)
    × ((total writes two_threads ≡ 0) ⊎ (total reads two_threads ≡ 0))
    × (held_lock.readers ≡ total reads two_threads)
    × ((if held_lock.writer then 1 else 0) ≡ total writes two_threads)
Reach-excludes_example = Reach-excludes 2 held_lock two_threads two_threads-Reach

Reach-Advances_example : Advances held_lock two_threads
Reach-Advances_example = Reach-Advances 2 held_lock two_threads two_threads-Reach (omega arith)
