-- ===== src/Metadata/RwLock/Waiting.antt =====
-- metadata/connection.py: no thread waits on `ReadWriteLock` for a notification that never comes.
use ztierfs.Common.{
  ℕ, ◌+◌, ◌<◌, ◌≡◌, refl, ◌∙◌, ap, Bool, true, false, ◌||◌, some, List, [], ◌∷◌, ◌++◌, total, ltb,
  arith, Bool-cases, inl, inr,
}
use ztierfs.Metadata.RwLock.{
  RwLock, Phase, outside, asleep_reader, woken_reader, reading, asleep_writer, woken_writer,
  writing, Turn, acquire_read, release_read, await_write, release_write, turn, Reach,
}
use ztierfs.Metadata.RwLock.Counts.{reads, writes, sleeps_to_read, sleeps_to_write, retries_write}
use ztierfs.Metadata.RwLock.Exclusion.{Reach-IsSound}

abbrev pub is_asleep : Phase → Bool
is_asleep asleep_reader = true
is_asleep asleep_writer = true
is_asleep outside = false
is_asleep woken_reader = false
is_asleep reading = false
is_asleep woken_writer = false
is_asleep writing = false

abbrev pub retries_read : Phase → ℕ
retries_read woken_reader = 1
retries_read outside = 0
retries_read asleep_reader = 0
retries_read reading = 0
retries_read asleep_writer = 0
retries_read woken_writer = 0
retries_read writing = 0

abbrev pub is_busy : Phase → ℕ
is_busy outside = 0
is_busy asleep_reader = 1
is_busy woken_reader = 1
is_busy reading = 1
is_busy asleep_writer = 1
is_busy woken_writer = 1
is_busy writing = 1

-- A thread inside the lock's methods, or holding it, whose next step does not put it to sleep.
pub record Advances (l : RwLock) (ts : List Phase) : Type 0 where
  pub before : List Phase
  pub thread : Phase
  pub after : List Phase
  pub there : ts ≡ before ++ thread ∷ after
  pub busy : is_busy thread ≡ 1
  pub result : Turn
  pub step : turn false l thread ≡ some result
  pub awake : is_asleep result.phase ≡ false

counted :
    (w : Phase → ℕ) (ts : List Phase)
    → 0 < total w ts
    → (before : List Phase) × (p : Phase) × (after : List Phase) × (ts ≡ before ++ p ∷ after)
      × (0 < w p)
counted w [] h = absurd (omega (arith, h))
counted w (p ∷ ts) h = elim (Bool-cases (ltb 0 (w p))) [
  | inl here ↦ ([], p, ts, refl, ground (arith, here))
  | inr later ↦
      let (before, q, after, e, c) = counted w ts (ground (arith, later, h)) in
      (p ∷ before, q, after, ap (λ l. p ∷ l) e, c)
]

busy_parts :
    (p : Phase)
    → is_busy p
      ≡ reads p + writes p + sleeps_to_read p + sleeps_to_write p + retries_write p + retries_read p
busy_parts outside = refl
busy_parts asleep_reader = refl
busy_parts woken_reader = refl
busy_parts reading = refl
busy_parts asleep_writer = refl
busy_parts woken_writer = refl
busy_parts writing = refl

total-is_busy :
    (ts : List Phase)
    → total is_busy ts
      ≡ total reads ts
        + total writes ts
        + total sleeps_to_read ts
        + total sleeps_to_write ts
        + total retries_write ts
        + total retries_read ts
total-is_busy [] = refl
total-is_busy (p ∷ ts) = omega (arith, busy_parts p, total-is_busy ts)

reads-phase : (p : Phase) → 0 < reads p → p ≡ reading
reads-phase outside h = absurd (omega (arith, h))
reads-phase asleep_reader h = absurd (omega (arith, h))
reads-phase woken_reader h = absurd (omega (arith, h))
reads-phase reading h = refl
reads-phase asleep_writer h = absurd (omega (arith, h))
reads-phase woken_writer h = absurd (omega (arith, h))
reads-phase writing h = absurd (omega (arith, h))

reading-Advances : (l : RwLock) (ts : List Phase) → 0 < total reads ts → Advances l ts
unfolding turn release_read
reading-Advances l ts h =
    let (before, p, after, e, c) = counted reads ts h in
    record {
      before = before;
      thread = reading;
      after = after;
      there = e ∙ ap (λ q. before ++ q ∷ after) (reads-phase p c);
      busy = refl;
      result = release_read l;
      step = refl;
      awake = refl;
    }

writes-phase : (p : Phase) → 0 < writes p → p ≡ writing
writes-phase outside h = absurd (omega (arith, h))
writes-phase asleep_reader h = absurd (omega (arith, h))
writes-phase woken_reader h = absurd (omega (arith, h))
writes-phase reading h = absurd (omega (arith, h))
writes-phase asleep_writer h = absurd (omega (arith, h))
writes-phase woken_writer h = absurd (omega (arith, h))
writes-phase writing h = refl

writing-Advances : (l : RwLock) (ts : List Phase) → 0 < total writes ts → Advances l ts
unfolding turn release_write
writing-Advances l ts h =
    let (before, p, after, e, c) = counted writes ts h in
    record {
      before = before;
      thread = writing;
      after = after;
      there = e ∙ ap (λ q. before ++ q ∷ after) (writes-phase p c);
      busy = refl;
      result = release_write l;
      step = refl;
      awake = refl;
    }

retries_write-phase : (p : Phase) → 0 < retries_write p → p ≡ woken_writer
retries_write-phase outside h = absurd (omega (arith, h))
retries_write-phase asleep_reader h = absurd (omega (arith, h))
retries_write-phase woken_reader h = absurd (omega (arith, h))
retries_write-phase reading h = absurd (omega (arith, h))
retries_write-phase asleep_writer h = absurd (omega (arith, h))
retries_write-phase woken_writer h = refl
retries_write-phase writing h = absurd (omega (arith, h))

retry_write-Advances :
    (l : RwLock) (ts : List Phase)
    → l.writer || ltb 0 l.readers ≡ false
    → 0 < total retries_write ts
    → Advances l ts
unfolding turn await_write
retry_write-Advances l ts free h =
    let (before, p, after, e, c) = counted retries_write ts h in
    record {
      before = before;
      thread = woken_writer;
      after = after;
      there = e ∙ ap (λ q. before ++ q ∷ after) (retries_write-phase p c);
      busy = refl;
      result = await_write l;
      step = refl;
      awake = ground (arith, free);
    }

retries_read-phase : (p : Phase) → 0 < retries_read p → p ≡ woken_reader
retries_read-phase outside h = absurd (omega (arith, h))
retries_read-phase asleep_reader h = absurd (omega (arith, h))
retries_read-phase woken_reader h = refl
retries_read-phase reading h = absurd (omega (arith, h))
retries_read-phase asleep_writer h = absurd (omega (arith, h))
retries_read-phase woken_writer h = absurd (omega (arith, h))
retries_read-phase writing h = absurd (omega (arith, h))

retry_read-Advances :
    (l : RwLock) (ts : List Phase)
    → l.writer || ltb 0 l.waiting_writers ≡ false
    → 0 < total retries_read ts
    → Advances l ts
unfolding turn acquire_read
retry_read-Advances l ts free h =
    let (before, p, after, e, c) = counted retries_read ts h in
    record {
      before = before;
      thread = woken_reader;
      after = after;
      there = e ∙ ap (λ q. before ++ q ∷ after) (retries_read-phase p c);
      busy = refl;
      result = acquire_read l;
      step = refl;
      awake = ground (arith, free);
    }

-- However the steps of the threads interleave, as long as some thread holds a lock or waits for one,
-- there is a thread that can go on: it gives up a lock that it holds, or it was woken and gets the
-- lock. No notification is missing.
pub Reach-Advances :
    (n : ℕ) (l : RwLock) (ts : List Phase) → Reach n l ts → 0 < total is_busy ts → Advances l ts
Reach-Advances n l ts reached h =
    let a = Reach-IsSound n l ts reached in
    let parts = total-is_busy ts in
    elim (Bool-cases (ltb 0 (total writes ts))) [
      | inl held ↦ writing-Advances l ts (ground (arith, held))
      | inr no_writer ↦ elim (Bool-cases (ltb 0 (total reads ts))) [
        | inl held ↦ reading-Advances l ts (ground (arith, held))
        | inr no_reader ↦
            let unheld : l.writer || ltb 0 l.readers ≡ false =
              ground (arith, a.writer, a.readers, no_writer, no_reader) in
            let rested : total sleeps_to_write ts ≡ 0 = a.no_writer_sleeps unheld in
            elim (Bool-cases (ltb 0 (total retries_write ts))) [
              | inl retry ↦ retry_write-Advances l ts unheld (ground (arith, retry))
              | inr none_retries ↦
                  let free : l.writer || ltb 0 l.waiting_writers ≡ false =
                    ground (arith, unheld, a.waiting, rested, none_retries) in
                  retry_read-Advances l ts free (
                    ground (
                      arith,
                      h,
                      parts,
                      a.no_reader_sleeps free,
                      rested,
                      none_retries,
                      no_writer,
                      no_reader,
                    ))
            ]
      ]
    ]
