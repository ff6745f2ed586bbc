-- ===== src/Metadata/RwLock/Counts.antt =====
-- metadata/connection.py: each operation of `ReadWriteLock` and what its fields count.
use mathlib.Core.Path.{subst}
use ztierfs.Common.{
  ℕ, ◌+◌, ◌-◌, ◌≡◌, sym, ◌∙◌, Bool, true, false, ◌||◌, some, ltb, ◌==◌, if◌then◌else◌, arith,
  Bool-cases, inl, inr,
}
use ztierfs.Metadata.RwLock.{
  RwLock, Phase, outside, asleep_reader, woken_reader, reading, asleep_writer, woken_writer,
  writing, Turn, acquire_read, release_read, await_write, acquire_write, release_write, turn,
}

abbrev pub reads : Phase → ℕ
reads reading = 1
reads outside = 0
reads asleep_reader = 0
reads woken_reader = 0
reads asleep_writer = 0
reads woken_writer = 0
reads writing = 0

abbrev pub writes : Phase → ℕ
writes writing = 1
writes outside = 0
writes asleep_reader = 0
writes woken_reader = 0
writes reading = 0
writes asleep_writer = 0
writes woken_writer = 0

abbrev pub sleeps_to_read : Phase → ℕ
sleeps_to_read asleep_reader = 1
sleeps_to_read outside = 0
sleeps_to_read woken_reader = 0
sleeps_to_read reading = 0
sleeps_to_read asleep_writer = 0
sleeps_to_read woken_writer = 0
sleeps_to_read writing = 0

abbrev pub sleeps_to_write : Phase → ℕ
sleeps_to_write asleep_writer = 1
sleeps_to_write outside = 0
sleeps_to_write asleep_reader = 0
sleeps_to_write woken_reader = 0
sleeps_to_write reading = 0
sleeps_to_write woken_writer = 0
sleeps_to_write writing = 0

abbrev pub retries_write : Phase → ℕ
retries_write woken_writer = 1
retries_write outside = 0
retries_write asleep_reader = 0
retries_write woken_reader = 0
retries_write reading = 0
retries_write asleep_writer = 0
retries_write writing = 0

-- The fields count the threads, and nobody sleeps whose condition holds.
pub record Agrees (l : RwLock) (r w sr sw ww : ℕ) : Type 0 where
  pub readers : l.readers ≡ r
  pub writer : (if l.writer then 1 else 0) ≡ w
  pub waiting : l.waiting_writers ≡ sw + ww
  pub apart : l.writer ≡ true → l.readers ≡ 0
  pub no_reader_sleeps : l.writer || ltb 0 l.waiting_writers ≡ false → sr ≡ 0
  pub no_writer_sleeps : l.writer || ltb 0 l.readers ≡ false → sw ≡ 0

-- The counts with one more thread, in the given phase.
abbrev pub AgreesWith : RwLock → Phase → ℕ → ℕ → ℕ → ℕ → ℕ → Type 0
AgreesWith l p r w sr sw ww =
    Agrees l (reads p + r) (writes p + w) (sleeps_to_read p + sr) (sleeps_to_write p + sw)
      (retries_write p + ww)

-- The counts after `notify_all`.
abbrev pub AgreesAfter : Turn → ℕ → ℕ → ℕ → ℕ → ℕ → Type 0
AgreesAfter t r w sr sw ww =
    AgreesWith t.lock t.phase r w (if t.notified then 0 else sr) (if t.notified then 0 else sw)
      (if t.notified then sw + ww else ww)

acquire_read-Agrees :
    (l : RwLock) (r w sr sw ww : ℕ)
    → Agrees l r w sr sw ww
    → AgreesAfter (acquire_read l) r w sr sw ww
unfolding acquire_read
acquire_read-Agrees l r w sr sw ww a = elim (Bool-cases (l.writer || ltb 0 l.waiting_writers)) [
  | inl busy ↦ record {
    readers = ground (arith, busy, a.readers);
    writer = ground (arith, busy, a.readers, a.writer);
    waiting = ground (arith, busy, a.readers, a.waiting);
    apart = λ e. ground (arith, busy, e, a.readers, a.waiting, a.apart);
    no_reader_sleeps = λ e. ground (arith, busy, e, a.readers, a.waiting, a.no_reader_sleeps);
    no_writer_sleeps = λ e. ground (arith, busy, e, a.readers, a.waiting, a.no_writer_sleeps);
  }
  | inr free ↦ record {
    readers = ground (arith, free, a.readers);
    writer = ground (arith, free, a.readers, a.writer);
    waiting = ground (arith, free, a.readers, a.waiting);
    apart = λ e. ground (arith, free, e, a.readers, a.waiting, a.apart);
    no_reader_sleeps = λ e. ground (arith, free, e, a.readers, a.waiting, a.no_reader_sleeps);
    no_writer_sleeps = λ e. ground (arith, free, e, a.readers, a.waiting, a.no_writer_sleeps);
  }
]

await_write-Agrees :
    (l : RwLock) (r w sr sw ww : ℕ)
    → Agrees l r w sr sw (1 + ww)
    → AgreesAfter (await_write l) r w sr sw ww
unfolding await_write
await_write-Agrees l r w sr sw ww a = elim (Bool-cases (l.writer || ltb 0 l.readers)) [
  | inl busy ↦ record {
    readers = ground (arith, busy, a.readers);
    writer = ground (arith, busy, a.readers, a.writer);
    waiting = ground (arith, busy, a.readers, a.waiting);
    apart = λ e. ground (arith, busy, e, a.readers, a.waiting, a.apart);
    no_reader_sleeps = λ e. ground (arith, busy, e, a.readers, a.waiting, a.no_reader_sleeps);
    no_writer_sleeps = λ e. ground (arith, busy, e, a.readers, a.waiting, a.no_writer_sleeps);
  }
  | inr free ↦ record {
    readers = ground (arith, free, a.readers);
    writer = ground (arith, free, a.readers, a.writer);
    waiting = ground (arith, free, a.readers, a.waiting);
    apart = λ e. ground (arith, free, e, a.readers, a.waiting, a.apart);
    no_reader_sleeps = λ e. ground (arith, free, e, a.readers, a.waiting, a.no_reader_sleeps);
    no_writer_sleeps = λ e. ground (arith, free, e, a.readers, a.waiting, a.no_writer_sleeps);
  }
]

acquire_write-Agrees :
    (l : RwLock) (r w sr sw ww : ℕ)
    → Agrees l r w sr sw ww
    → AgreesAfter (acquire_write l) r w sr sw ww
unfolding acquire_write
acquire_write-Agrees l r w sr sw ww a =
    await_write-Agrees (record l { waiting_writers = l.waiting_writers + 1 }) r w sr sw ww
      (record {
        readers = a.readers;
        writer = a.writer;
        waiting = omega (arith, a.waiting);
        apart = a.apart;
        no_reader_sleeps = λ e. ground (arith, e);
        no_writer_sleeps = a.no_writer_sleeps;
      })

release_read-Agrees :
    (l : RwLock) (r w sr sw ww : ℕ)
    → Agrees l (1 + r) w sr sw ww
    → AgreesAfter (release_read l) r w sr sw ww
unfolding release_read
release_read-Agrees l r w sr sw ww a = elim (Bool-cases (l.readers - 1 == 0)) [
  | inl busy ↦ record {
    readers = ground (arith, busy, a.readers);
    writer = ground (arith, busy, a.readers, a.writer);
    waiting = ground (arith, busy, a.readers, a.waiting);
    apart = λ e. ground (arith, busy, e, a.readers, a.waiting, a.apart);
    no_reader_sleeps = λ e. ground (arith, busy, e, a.readers, a.waiting, a.no_reader_sleeps);
    no_writer_sleeps = λ e. ground (arith, busy, e, a.readers, a.waiting, a.no_writer_sleeps);
  }
  | inr free ↦ record {
    readers = ground (arith, free, a.readers);
    writer = ground (arith, free, a.readers, a.writer);
    waiting = ground (arith, free, a.readers, a.waiting);
    apart = λ e. ground (arith, free, e, a.readers, a.waiting, a.apart);
    no_reader_sleeps = λ e. ground (arith, free, e, a.readers, a.waiting, a.no_reader_sleeps);
    no_writer_sleeps = λ e. ground (arith, free, e, a.readers, a.waiting, a.no_writer_sleeps);
  }
]

release_write-Agrees :
    (l : RwLock) (r w sr sw ww : ℕ)
    → Agrees l r (1 + w) sr sw ww
    → AgreesAfter (release_write l) r w sr sw ww
unfolding release_write
release_write-Agrees l r w sr sw ww a = record {
  readers = ground (arith, a.readers);
  writer = ground (arith, a.readers, a.writer);
  waiting = ground (arith, a.readers, a.waiting);
  apart = λ e. ground (arith, e, a.readers, a.waiting, a.apart);
  no_reader_sleeps = λ e. ground (arith, e, a.readers, a.waiting, a.no_reader_sleeps);
  no_writer_sleeps = λ e. ground (arith, e, a.readers, a.waiting, a.no_writer_sleeps);
}

pub same-Agrees :
    (l : RwLock) (r w sr sw ww r' w' sr' sw' ww' : ℕ)
    → r ≡ r'
    → w ≡ w'
    → sr ≡ sr'
    → sw ≡ sw'
    → ww ≡ ww'
    → Agrees l r w sr sw ww
    → Agrees l r' w' sr' sw' ww'
same-Agrees l r w sr sw ww r' w' sr' sw' ww' e1 e2 e3 e4 e5 a = record {
  readers = a.readers ∙ e1;
  writer = a.writer ∙ e2;
  waiting = omega (arith, a.waiting, e4, e5);
  apart = a.apart;
  no_reader_sleeps = λ e. sym e3 ∙ a.no_reader_sleeps e;
  no_writer_sleeps = λ e. sym e4 ∙ a.no_writer_sleeps e;
}

pub turned :
    (to_write : Bool) (l : RwLock) (p : Phase) (r w sr sw ww : ℕ) (t : Turn)
    → AgreesWith l p r w sr sw ww
    → turn to_write l p ≡ some t
    → AgreesAfter t r w sr sw ww
unfolding turn
turned to_write l asleep_reader r w sr sw ww t a h = cc
turned to_write l asleep_writer r w sr sw ww t a h = cc
turned true l outside r w sr sw ww t a h =
    let e : acquire_write l ≡ t = cc in
    subst (λ x. AgreesAfter x r w sr sw ww) e
      (acquire_write-Agrees l r w sr sw ww (
        same-Agrees l _ _ _ _ _ r w sr sw ww (omega arith) (omega arith) (omega arith) (omega arith)
          (omega arith) a))
turned false l outside r w sr sw ww t a h =
    let e : acquire_read l ≡ t = cc in
    subst (λ x. AgreesAfter x r w sr sw ww) e
      (acquire_read-Agrees l r w sr sw ww (
        same-Agrees l _ _ _ _ _ r w sr sw ww (omega arith) (omega arith) (omega arith) (omega arith)
          (omega arith) a))
turned to_write l woken_reader r w sr sw ww t a h =
    let e : acquire_read l ≡ t = cc in
    subst (λ x. AgreesAfter x r w sr sw ww) e
      (acquire_read-Agrees l r w sr sw ww (
        same-Agrees l _ _ _ _ _ r w sr sw ww (omega arith) (omega arith) (omega arith) (omega arith)
          (omega arith) a))
turned to_write l woken_writer r w sr sw ww t a h =
    let e : await_write l ≡ t = cc in
    subst (λ x. AgreesAfter x r w sr sw ww) e
      (await_write-Agrees l r w sr sw ww (
        same-Agrees l _ _ _ _ _ r w sr sw (1 + ww) (omega arith) (omega arith) (omega arith)
          (omega arith) (omega arith) a))
turned to_write l reading r w sr sw ww t a h =
    let e : release_read l ≡ t = cc in
    subst (λ x. AgreesAfter x r w sr sw ww) e
      (release_read-Agrees l r w sr sw ww (
        same-Agrees l _ _ _ _ _ (1 + r) w sr sw ww (omega arith) (omega arith) (omega arith)
          (omega arith) (omega arith) a))
turned to_write l writing r w sr sw ww t a h =
    let e : release_write l ≡ t = cc in
    subst (λ x. AgreesAfter x r w sr sw ww) e
      (release_write-Agrees l r w sr sw ww (
        same-Agrees l _ _ _ _ _ r (1 + w) sr sw ww (omega arith) (omega arith) (omega arith)
          (omega arith) (omega arith) a))
