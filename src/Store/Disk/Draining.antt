-- ===== src/Store/Disk/Draining.antt =====
-- pending_deletions.py and block_file_io.py: which files a drain removes, and what a copy does.
use ztierfs.Common.{
  ℕ, ◌≡◌, refl, sym, ap, ◌∙◌, Bool, true, false, not, ◌&&◌, none, List, [], ◌∷◌, ◌==◌,
  if◌then◌else◌, keep, keep-congr, map, All, ◌⊎◌, arith, Bool-cases, Option-cases, inl, inr,
}
use mathlib.Core.Path.{subst}
use ztierfs.Common.Dict.{lookup, erase, lookup-erase}
use ztierfs.Metadata.Schema.{Pending}
use ztierfs.Metadata.Gc.{is_queued}
use ztierfs.Store.Disk.{
  Disk, Outcome, add_removed, add_unavailable, files, is_down, set_files, unlink,
  drain_pending_block_files, is_denied, answers, add_deferred, UnlinkOutcome, unlinked,
  unlink_unavailable, unlink_denied,
}

-- The CHECK on `pending_deletions.tier`.
abbrev pub IsTier : ℕ → Type 0
IsTier tier = (tier ≡ 1) ⊎ (tier ≡ 2)

-- What `drain_pending_block_files` has done to the files and reports of the rows.
pub record Drained (rows : List Pending) (disk disk' : Disk) (outcome : Outcome) : Type 0 where
  pub hot_down : disk'.hot_down ≡ disk.hot_down
  pub cold_down : disk'.cold_down ≡ disk.cold_down
  pub hot_denied : disk'.hot_denied ≡ disk.hot_denied
  pub cold_denied : disk'.cold_denied ≡ disk.cold_denied
  pub hot :
      (d : ℕ)
      → lookup d disk'.hot
        ≡ (if is_queued d 1 rows && answers 1 disk then none else lookup d disk.hot)
  pub cold :
      (d : ℕ)
      → lookup d disk'.cold
        ≡ (if is_queued d 2 rows && answers 2 disk then none else lookup d disk.cold)
  pub removed : outcome.removed_ids ≡ map (λ p. p.id) (keep (λ p. answers p.tier disk) rows)
  pub deferred : outcome.deferred_ids ≡ map (λ p. p.id) (keep (λ p. not (answers p.tier disk)) rows)
  pub unavailable : outcome.unavailable_ids ≡ map (λ p. p.id) (keep (λ p. is_down p.tier disk) rows)

-- What `unlink` leaves on a tier that is up.
record Unlinked (tier digest : ℕ) (disk disk' : Disk) : Type 0 where
  hot_down : disk'.hot_down ≡ disk.hot_down
  cold_down : disk'.cold_down ≡ disk.cold_down
  hot_denied : disk'.hot_denied ≡ disk.hot_denied
  cold_denied : disk'.cold_denied ≡ disk.cold_denied
  hot :
      (d : ℕ) → lookup d disk'.hot ≡ (if d == digest && tier == 1 then none else lookup d disk.hot)
  cold :
      (d : ℕ)
      → lookup d disk'.cold ≡ (if d == digest && not (tier == 1) then none else lookup d disk.cold)

nothing_there :
    (tier digest : ℕ) (disk : Disk)
    → lookup digest (files tier disk) ≡ none
    → Unlinked tier digest disk disk
nothing_there tier digest disk h = record {
  hot_down = refl;
  cold_down = refl;
  hot_denied = refl;
  cold_denied = refl;
  hot = λ d. elim (Bool-cases (d == digest)) [
    | inl here ↦ let p : d ≡ digest = ground arith in ground (arith, p, h)
    | inr other ↦ ground (arith, other)
  ];
  cold = λ d. elim (Bool-cases (d == digest)) [
    | inl here ↦ let p : d ≡ digest = ground arith in ground (arith, p, h)
    | inr other ↦ ground (arith, other)
  ];
}

file_erased :
    (tier digest : ℕ) (disk : Disk)
    → Unlinked tier digest disk (set_files tier (erase digest (files tier disk)) disk)
file_erased tier digest disk = elim (Bool-cases (tier == 1)) [
  | inl hot ↦ record {
    hot_down = ground (arith, hot);
    cold_down = ground (arith, hot);
    hot_denied = ground (arith, hot);
    cold_denied = ground (arith, hot);
    hot = λ d. ground (arith, hot, lookup-erase d digest disk.hot);
    cold = λ d. ground (arith, hot);
  }
  | inr cold ↦ record {
    hot_down = ground (arith, cold);
    cold_down = ground (arith, cold);
    hot_denied = ground (arith, cold);
    cold_denied = ground (arith, cold);
    hot = λ d. ground (arith, cold);
    cold = λ d. ground (arith, cold, lookup-erase d digest disk.cold);
  }
]

unlink-cases :
    (tier digest : ℕ) (disk : Disk)
    → ((is_down tier disk ≡ true) × (unlink digest tier disk ≡ unlink_unavailable))
      ⊎ (((is_down tier disk ≡ false)
            × (is_denied tier disk ≡ true)
            × (unlink digest tier disk ≡ unlink_denied))
          ⊎ ((answers tier disk ≡ true)
              × (b : Bool) × (disk' : Disk) × (unlink digest tier disk ≡ unlinked b disk')
              × Unlinked tier digest disk disk'))
unfolding unlink
unlink-cases tier digest disk = elim (Bool-cases (is_down tier disk)) [
  | inl down ↦ inl (down, ground (arith, down))
  | inr up ↦ elim (Bool-cases (is_denied tier disk)) [
    | inl denied ↦ inr (inl (up, denied, ground (arith, up, denied)))
    | inr open_tier ↦ elim (Option-cases (lookup digest (files tier disk))) [
      | inl gone ↦ inr (
          inr (
            ground (arith, up, open_tier),
            false,
            disk,
            ground (arith, up, open_tier, gone),
            nothing_there tier digest disk gone,
          ))
      | inr (b, there) ↦ inr (
          inr (
            ground (arith, up, open_tier),
            true,
            set_files tier (erase digest (files tier disk)) disk,
            ground (arith, up, open_tier, there),
            file_erased tier digest disk,
          ))
    ]
  ]
]

-- The ids of the rows whose tier passes a test, where the test has one answer on two disks.
same_ids :
    (f g : ℕ → Bool) (rows : List Pending)
    → ((tier : ℕ) → f tier ≡ g tier)
    → map (λ p. p.id) (keep (λ p. f p.tier) rows) ≡ map (λ p. p.id) (keep (λ p. g p.tier) rows)
same_ids f g rows h =
    ap (map (λ x. x.id)) (keep-congr (λ x. f x.tier) (λ x. g x.tier) rows (λ x. h x.tier))

up-Drained :
    (p : Pending) (rows : List Pending) (disk disk1 disk' : Disk) (o : Outcome)
    → IsTier p.tier
    → answers p.tier disk ≡ true
    → Unlinked p.tier p.digest disk disk1
    → Drained rows disk1 disk' o
    → Drained (p ∷ rows) disk disk' (add_removed p.id o)
up-Drained p rows disk disk1 disk' o t up u r =
    let down : (tier : ℕ) → is_down tier disk1 ≡ is_down tier disk =
      (λ tier. ground (arith, u.hot_down, u.cold_down)) in
    let same : (tier : ℕ) → answers tier disk1 ≡ answers tier disk =
      (λ tier. ground (arith, down tier, u.hot_denied, u.cold_denied)) in
    let up' : is_down p.tier disk ≡ false = ground (arith, up) in
    record {
      hot_down = r.hot_down ∙ u.hot_down;
      cold_down = r.cold_down ∙ u.cold_down;
      hot_denied = r.hot_denied ∙ u.hot_denied;
      cold_denied = r.cold_denied ∙ u.cold_denied;
      hot = λ d. ground (arith, t, up, r.hot d, u.hot d, same 1);
      cold = λ d. ground (arith, t, up, r.cold d, u.cold d, same 2);
      removed =
          ap (λ l. p.id ∷ l)
            (r.removed ∙ same_ids (λ x. answers x disk1) (λ x. answers x disk) rows same)
          ∙ rw up refl;
      deferred =
          r.deferred
          ∙ same_ids (λ x. not (answers x disk1)) (λ x. not (answers x disk)) rows
              (λ x. ap not (same x))
          ∙ rw up refl;
      unavailable =
          r.unavailable
          ∙ same_ids (λ x. is_down x disk1) (λ x. is_down x disk) rows down
          ∙ rw up' refl;
    }

down-Drained :
    (p : Pending) (rows : List Pending) (disk disk' : Disk) (o : Outcome)
    → IsTier p.tier
    → is_down p.tier disk ≡ true
    → Drained rows disk disk' o
    → Drained (p ∷ rows) disk disk' (add_unavailable p.id o)
down-Drained p rows disk disk' o t down r = record {
  hot_down = r.hot_down;
  cold_down = r.cold_down;
  hot_denied = r.hot_denied;
  cold_denied = r.cold_denied;
  hot = λ d. ground (arith, t, down, r.hot d);
  cold = λ d. ground (arith, t, down, r.cold d);
  removed = rw down r.removed;
  deferred = rw down (ap (λ l. p.id ∷ l) r.deferred);
  unavailable = rw down (ap (λ l. p.id ∷ l) r.unavailable);
}

denied-Drained :
    (p : Pending) (rows : List Pending) (disk disk' : Disk) (o : Outcome)
    → IsTier p.tier
    → is_down p.tier disk ≡ false
    → is_denied p.tier disk ≡ true
    → Drained rows disk disk' o
    → Drained (p ∷ rows) disk disk' (add_deferred p.id o)
denied-Drained p rows disk disk' o t up denied r = record {
  hot_down = r.hot_down;
  cold_down = r.cold_down;
  hot_denied = r.hot_denied;
  cold_denied = r.cold_denied;
  hot = λ d. ground (arith, t, denied, r.hot d);
  cold = λ d. ground (arith, t, denied, r.cold d);
  removed = rw (up, denied) r.removed;
  deferred = rw (up, denied) (ap (λ l. p.id ∷ l) r.deferred);
  unavailable = rw up r.unavailable;
}

-- One round of the loop, by what `unlink` does.
abbrev drain_with : Pending → List Pending → Disk → UnlinkOutcome → Outcome × Disk
drain_with p rows disk unlink_unavailable =
    let (o, disk') = drain_pending_block_files rows disk in (add_unavailable p.id o, disk')
drain_with p rows disk unlink_denied =
    let (o, disk') = drain_pending_block_files rows disk in (add_deferred p.id o, disk')
drain_with p rows disk (unlinked done disk1) =
    let (o, disk') = drain_pending_block_files rows disk1 in (add_removed p.id o, disk')

drain_round :
    (p : Pending) (rows : List Pending) (disk : Disk) (o : UnlinkOutcome)
    → unlink p.digest p.tier disk ≡ o
    → drain_with p rows disk o ≡ drain_pending_block_files (p ∷ rows) disk
unfolding drain_pending_block_files
drain_round p rows disk o h = ap (drain_with p rows disk) (sym h)

-- For rows of tier 1 and 2, `drain_pending_block_files` removes the files that are queued on a tier that answers, and no
-- others. It reports as removed the rows of the tiers that answer and as deferred all others, of these
-- as unavailable the rows of the tiers that are for a while unavailable, and not those of a tier that
-- fails with another error.
pub drain_pending_block_files_lem :
    (rows : List Pending) (disk : Disk)
    → All (λ p. IsTier p.tier) rows
    → let (outcome, disk') = drain_pending_block_files rows disk in Drained rows disk disk' outcome
unfolding drain_pending_block_files
drain_pending_block_files_lem [] disk t = record {
  hot_down = refl;
  cold_down = refl;
  hot_denied = refl;
  cold_denied = refl;
  hot = λ d. refl;
  cold = λ d. refl;
  removed = refl;
  deferred = refl;
  unavailable = refl;
}
drain_pending_block_files_lem (p ∷ rows) disk t =
    let rest = drain_pending_block_files rows disk in
    let good = drain_pending_block_files_lem rows disk t.1 in
    elim (unlink-cases p.tier p.digest disk) [
      | inl (down, failed) ↦
          subst (λ x. Drained (p ∷ rows) disk x.1 x.0)
            (drain_round p rows disk unlink_unavailable failed)
            (down-Drained p rows disk rest.1 rest.0 t.0 down good)
      | inr (inl (up, denied, failed)) ↦
          subst (λ x. Drained (p ∷ rows) disk x.1 x.0)
            (drain_round p rows disk unlink_denied failed)
            (denied-Drained p rows disk rest.1 rest.0 t.0 up denied good)
      | inr (inr (up, b, disk1, done, u)) ↦
          subst (λ x. Drained (p ∷ rows) disk x.1 x.0)
            (drain_round p rows disk (unlinked b disk1) done)
            (up-Drained p rows disk disk1 (drain_pending_block_files rows disk1).1
              (drain_pending_block_files rows disk1).0 t.0 up u
              (drain_pending_block_files_lem rows disk1 t.1))
    ]
