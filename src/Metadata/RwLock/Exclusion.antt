-- ===== src/Metadata/RwLock/Exclusion.antt =====
-- metadata/connection.py: what every interleaving of `ReadWriteLock` keeps.
use ztierfs.Common.{
  ℕ, zero, suc, ◌+◌, ◌≤◌, ◌≡◌, refl, sym, ◌∙◌, ap, Bool, true, false, List, [], ◌∷◌, ◌++◌, map,
  total, total-append, if◌then◌else◌, arith, Bool-cases, inl, inr, ◌⊎◌,
}
use ztierfs.Metadata.RwLock.{
  RwLock, init_lock, Phase, outside, asleep_reader, woken_reader, reading, asleep_writer,
  woken_writer, writing, wake, notify_all, Step, run, Reach, start, next, all_outside,
}
use ztierfs.Metadata.RwLock.Counts.{
  reads, writes, sleeps_to_read, sleeps_to_write, retries_write, Agrees, same-Agrees, turned,
}

-- `Agrees`, with the counts of a list of threads.
abbrev pub IsSound : RwLock → List Phase → Type 0
IsSound l ts =
    Agrees l (total reads ts) (total writes ts) (total sleeps_to_read ts) (total sleeps_to_write ts)
      (total retries_write ts)

total-middle :
    (w : Phase → ℕ) (before after : List Phase) (p : Phase)
    → total w (before ++ p ∷ after) ≡ w p + (total w before + total w after)
total-middle w before after p = omega (arith, total-append w before (p ∷ after))

-- The counts of the threads that were sent a notification.
record Notified (b : Bool) (ts : List Phase) : Type 0 where
  reads_same : total reads (notify_all b ts) ≡ total reads ts
  writes_same : total writes (notify_all b ts) ≡ total writes ts
  to_read : total sleeps_to_read (notify_all b ts) ≡ (if b then 0 else total sleeps_to_read ts)
  to_write : total sleeps_to_write (notify_all b ts) ≡ (if b then 0 else total sleeps_to_write ts)
  retry :
      total retries_write (notify_all b ts)
      ≡ (if b then total sleeps_to_write ts + total retries_write ts else total retries_write ts)

total-wake :
    (v w : Phase → ℕ) (ts : List Phase)
    → ((p : Phase) → v (wake p) ≡ w p)
    → total v (map wake ts) ≡ total w ts
total-wake v w [] h = refl
total-wake v w (p ∷ ts) h = omega (arith, h p, total-wake v w ts h)

total-nothing : (ts : List Phase) → total (λ p. 0) ts ≡ 0
total-nothing [] = refl
total-nothing (p ∷ ts) = omega (arith, total-nothing ts)

total-both :
    (v w : Phase → ℕ) (ts : List Phase) → total (λ p. v p + w p) ts ≡ total v ts + total w ts
total-both v w [] = omega arith
total-both v w (p ∷ ts) = omega (arith, total-both v w ts)

-- How a notification changes what a thread counts for.
counts-wake :
    (p : Phase)
    → (reads (wake p) ≡ reads p)
      × (writes (wake p) ≡ writes p)
      × (sleeps_to_read (wake p) ≡ 0)
      × (sleeps_to_write (wake p) ≡ 0)
      × (retries_write (wake p) ≡ sleeps_to_write p + retries_write p)
counts-wake outside = (refl, refl, refl, refl, refl)
counts-wake asleep_reader = (refl, refl, refl, refl, refl)
counts-wake woken_reader = (refl, refl, refl, refl, refl)
counts-wake reading = (refl, refl, refl, refl, refl)
counts-wake asleep_writer = (refl, refl, refl, refl, refl)
counts-wake woken_writer = (refl, refl, refl, refl, refl)
counts-wake writing = (refl, refl, refl, refl, refl)

notify_all-Notified : (b : Bool) (ts : List Phase) → Notified b ts
notify_all-Notified false ts = record {
  reads_same = refl;
  writes_same = refl;
  to_read = refl;
  to_write = refl;
  retry = refl;
}
notify_all-Notified true ts = record {
  reads_same = total-wake reads reads ts (λ p. (counts-wake p).0);
  writes_same = total-wake writes writes ts (λ p. (counts-wake p).1);
  to_read = total-wake sleeps_to_read (λ p. 0) ts (λ p. (counts-wake p).2) ∙ total-nothing ts;
  to_write = total-wake sleeps_to_write (λ p. 0) ts (λ p. (counts-wake p).3) ∙ total-nothing ts;
  retry =
      total-wake retries_write (λ p. sleeps_to_write p + retries_write p) ts
        (λ p. (counts-wake p).4)
      ∙ total-both sleeps_to_write retries_write ts;
}

Step-IsSound :
    (l l' : RwLock) (ts ts' : List Phase) → IsSound l ts → Step l ts l' ts' → IsSound l' ts'
Step-IsSound l l' ts ts' a (run before after p to_write t e h) =
    let here : (w : Phase → ℕ) → total w ts ≡ w p + (total w before + total w after) =
      λ w. ap (total w) e ∙ total-middle w before after p in
    let old =
      same-Agrees l _ _ _ _ _ _ _ _ _ _ (here reads) (here writes) (here sleeps_to_read)
        (here sleeps_to_write) (here retries_write) a in
    let new = turned to_write l p _ _ _ _ _ t old h in
    let b = notify_all-Notified t.notified before in
    let c = notify_all-Notified t.notified after in
    let there = λ (w : Phase → ℕ).
      total-middle w (notify_all t.notified before) (notify_all t.notified after) t.phase in
    same-Agrees t.lock _ _ _ _ _ _ _ _ _ _ (omega (arith, there reads, b.reads_same, c.reads_same))
      (omega (arith, there writes, b.writes_same, c.writes_same))
      (ground (arith, there sleeps_to_read, b.to_read, c.to_read))
      (ground (arith, there sleeps_to_write, b.to_write, c.to_write))
      (ground (arith, there retries_write, b.retry, c.retry)) new

total-all_outside : (w : Phase → ℕ) (n : ℕ) → w outside ≡ 0 → total w (all_outside n) ≡ 0
total-all_outside w zero h = refl
total-all_outside w (suc n) h = omega (arith, h, total-all_outside w n h)

pub Reach-IsSound : (n : ℕ) (l : RwLock) (ts : List Phase) → Reach n l ts → IsSound l ts
Reach-IsSound n l ts start =
    same-Agrees init_lock 0 0 0 0 0 _ _ _ _ _ (sym (total-all_outside reads n refl))
      (sym (total-all_outside writes n refl)) (sym (total-all_outside sleeps_to_read n refl))
      (sym (total-all_outside sleeps_to_write n refl))
      (sym (total-all_outside retries_write n refl))
      (record {
        readers = refl;
        writer = refl;
        waiting = refl;
        apart = λ e. refl;
        no_reader_sleeps = λ e. refl;
        no_writer_sleeps = λ e. refl;
      })
Reach-IsSound n l ts (next l0 l1 ts0 ts1 before step) =
    Step-IsSound l0 l ts0 ts (Reach-IsSound n l0 ts0 before) step

-- However the steps of the threads interleave, at most one thread holds the write lock, no thread
-- holds the read lock while one does, and the fields count the threads that hold the locks.
pub Reach-excludes :
    (n : ℕ) (l : RwLock) (ts : List Phase)
    → Reach n l ts
    → (total writes ts ≤ 1)
      × ((total writes ts ≡ 0) ⊎ (total reads ts ≡ 0))
      × (l.readers ≡ total reads ts)
      × ((if l.writer then 1 else 0) ≡ total writes ts)
Reach-excludes n l ts reached =
    let a = Reach-IsSound n l ts reached in
    elim (Bool-cases l.writer) [
      | inl held ↦
          (ground (arith, a.writer, held), inr (sym a.readers ∙ a.apart held), a.readers, a.writer)
      | inr free ↦ (
        ground (arith, a.writer, free),
        inl (ground (arith, a.writer, free)),
        a.readers,
        a.writer,
      )
    ]
