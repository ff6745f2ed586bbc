-- ===== src/Store/Tiers/Repairs.antt =====
-- block_store.py: a read finds a payload where there is one, and what it says of the rows is so.
use ztierfs.Common.{
  ℕ, ◌≡◌, refl, sym, Bool, true, false, ◌&&◌, Option, none, some, ◌==◌, if◌then◌else◌, Result, ok,
  err, Error, ◌⊎◌, ◌>>=◌, is_some, arith, Bool-cases, inl, inr,
}
use mathlib.Core.Path.{subst}
use ztierfs.Common.Dict.{lookup}
use ztierfs.Common.Bytes.{Bytes}
use ztierfs.Metadata.Schema.{Block}
use ztierfs.Store.Disk.{
  Disk, Status, present, missing, unavailable, files, is_down, probe, is_present, is_unavailable,
  ReadOutcome, read, path_missing, path_unavailable, path_denied, read_path, is_denied,
}
use ztierfs.Store.Tiers.{
  Repair, Decision, no_repair, alternate, preferred_tier, probe_declared_alternate,
  decide_after_preferred_unavailable, decide_on, probe_all_tiers_for_repair, decide_by_probes,
  missing_repair, decide_after_preferred_missing, read_selected_path, read_tiered_payload,
}

abbrev FlagSays : Bool → Bool → Option Bool → Type 0
FlagSays down there none = Unit
FlagSays down there (some flag) = (down ≡ false) × (there ≡ flag)

-- The tier is up, and whether the file is there is as the flag says.
abbrev pub Says : ℕ → ℕ → Disk → Option Bool → Type 0
Says digest tier disk flag =
    FlagSays (is_down tier disk) (is_some (lookup digest (files tier disk))) flag

-- What a read has returned.
pub record IsSound (digest : ℕ) (disk : Disk) (payload : Bytes) (tier : ℕ) (repair : Repair)
    : Type 0 where
  pub up : is_down tier disk ≡ false
  pub found : lookup digest (files tier disk) ≡ some payload
  pub hot : Says digest 1 disk repair.hot_present
  pub cold : Says digest 2 disk repair.cold_present

abbrev pub Sound : ℕ → Disk → Result (Bytes × (ℕ × Repair)) → Type 0
Sound digest disk (ok (payload, (tier, repair))) = IsSound digest disk payload tier repair
Sound digest disk (err e) = Unit

abbrev Fair : ℕ → Disk → Repair → Type 0
Fair digest disk repair =
    Says digest 1 disk repair.hot_present × Says digest 2 disk repair.cold_present

abbrev FairResult : ℕ → Disk → Result Decision → Type 0
FairResult digest disk (ok (tier, repair)) = Fair digest disk repair
FairResult digest disk (err e) = Unit

path_read :
    (digest tier : ℕ) (disk : Disk) (payload : Bytes)
    → read_path digest tier disk ≡ read payload
    → (is_down tier disk ≡ false) × (lookup digest (files tier disk) ≡ some payload)
unfolding read_path
path_read digest tier disk payload h = (ground (arith, h), ground (arith, h))

path_gone :
    (digest tier : ℕ) (disk : Disk)
    → read_path digest tier disk ≡ path_missing
    → (is_down tier disk ≡ false) × (is_some (lookup digest (files tier disk)) ≡ false)
unfolding read_path
path_gone digest tier disk h = (ground (arith, h), ground (arith, h))

selected :
    (digest tier : ℕ) (disk : Disk) (repair : Repair) (o : ReadOutcome)
    → read_path digest tier disk ≡ o
    → Fair digest disk repair
    → Sound digest disk (elim o [
      | read payload ↦ ok (payload, (tier, repair))
      | path_missing ↦ err Error.eio
      | path_unavailable ↦ err Error.eio
      | path_denied ↦ err Error.eacces
    ])
selected digest tier disk repair (read payload) h f =
    let (up, found) = path_read digest tier disk payload h in
    record { up = up; found = found; hot = f.0; cold = f.1 }
selected digest tier disk repair path_missing h f = tt
selected digest tier disk repair path_unavailable h f = tt
selected digest tier disk repair path_denied h f = tt

then_selected :
    (digest : ℕ) (disk : Disk) (m : Result Decision)
    → FairResult digest disk m
    → Sound digest disk (m >>= read_selected_path digest disk)
then_selected digest disk (ok (tier, repair)) f =
    selected digest tier disk repair (read_path digest tier disk) refl f
then_selected digest disk (err e) f = tt

guarded-Fair :
    (digest tier : ℕ) (disk : Disk) (repair : Repair) (c : Bool) (m : Result Decision)
    → Fair digest disk repair
    → FairResult digest disk m
    → FairResult digest disk (if c then ok (tier, repair) else m)
guarded-Fair digest tier disk repair true m f g = f
guarded-Fair digest tier disk repair false m f g = g

unavailable-alternate :
    (digest tier : ℕ) (disk : Disk) (m : Result (Option Status))
    → FairResult digest disk (
        m >>= λ o. elim o [
          | none ↦ err Error.eio
          | some status ↦ if is_present status then ok (tier, no_repair) else err Error.eio
        ])
unavailable-alternate digest tier disk (err e) = tt
unavailable-alternate digest tier disk (ok none) = tt
unavailable-alternate digest tier disk (ok (some status)) =
    guarded-Fair digest tier disk no_repair (is_present status) (err Error.eio) (tt, tt) tt

unavailable-Fair :
    (digest : ℕ) (b : Block) (tier : ℕ) (disk : Disk)
    → FairResult digest disk (decide_after_preferred_unavailable digest b tier disk)
unfolding decide_after_preferred_unavailable
unavailable-Fair digest b tier disk =
    unavailable-alternate digest (alternate tier) disk
      (probe_declared_alternate digest b (alternate tier) disk)

abbrev FlagsSay : Bool → Bool → Bool → Bool → Option Decision → Type 0
FlagsSay hd hp cd cp none = Unit
FlagsSay hd hp cd cp (some (tier, repair)) =
    FlagSays hd hp repair.hot_present × FlagSays cd cp repair.cold_present

abbrev ResultsSay : Bool → Bool → Bool → Bool → Result (Option Decision) → Type 0
ResultsSay hd hp cd cp (ok o) = FlagsSay hd hp cd cp o
ResultsSay hd hp cd cp (err e) = Unit

abbrev status_of : Bool → Bool → Status
status_of down there = if down then unavailable else if there then present else missing

decide_on_says :
    (hd hp cd cp : Bool)
    → (hd ≡ false) ⊎ ((cd ≡ false) × (cp ≡ false))
    → ResultsSay hd hp cd cp (decide_on (status_of hd hp) (status_of cd cp))
unfolding decide_on
decide_on_says true hp true cp u = tt
decide_on_says true hp false true u = absurd (elim u [ inl h ↦ cc | inr h ↦ ground (arith, h.1) ])
decide_on_says true hp false false u = tt
decide_on_says false true true cp u = ((refl, refl), tt)
decide_on_says false false true cp u = tt
decide_on_says false true false true u = ((refl, refl), (refl, refl))
decide_on_says false true false false u = ((refl, refl), (refl, refl))
decide_on_says false false false true u = ((refl, refl), (refl, refl))
decide_on_says false false false false u = tt

after_probes :
    (digest : ℕ) (disk : Disk) (m : Result (Option Decision))
    → ResultsSay disk.hot_down
        (is_some (lookup digest disk.hot))
        disk.cold_down
        (is_some (lookup digest disk.cold))
        m
    → FairResult digest disk
        (m >>= λ o. elim o [ none ↦ err Error.eio | some decision ↦ ok decision ])
after_probes digest disk (ok none) r = tt
after_probes digest disk (ok (some (tier, repair))) r = r
after_probes digest disk (err e) r = tt

probe-cases :
    (digest tier : ℕ) (disk : Disk)
    → (probe digest tier disk ≡ err Error.eacces)
      ⊎ (probe digest tier disk
          ≡ ok (status_of (is_down tier disk) (is_some (lookup digest (files tier disk)))))
unfolding probe
probe-cases digest tier disk = elim (Bool-cases (is_down tier disk)) [
  | inl down ↦ inr (ground (arith, down))
  | inr up ↦ elim (Bool-cases (is_denied tier disk)) [
    | inl denied ↦ inl (ground (arith, up, denied))
    | inr open_tier ↦ inr (ground (arith, up, open_tier))
  ]
]

-- Both tiers are probed where the hot one is up or the cold file is known to be missing.
probes-Fair :
    (digest : ℕ) (disk : Disk)
    → (disk.hot_down ≡ false)
      ⊎ ((disk.cold_down ≡ false) × (is_some (lookup digest disk.cold) ≡ false))
    → FairResult digest disk (decide_by_probes digest disk)
unfolding decide_by_probes probe_all_tiers_for_repair
probes-Fair digest disk u = elim (probe-cases digest 1 disk) [
  | inl denied ↦ rw (denied, FairResult) tt
  | inr hot ↦ elim (probe-cases digest 2 disk) [
    | inl denied ↦ rw (hot, denied, FairResult) tt
    | inr cold ↦
        rw (hot, cold)
          (after_probes digest disk
            (decide_on (status_of disk.hot_down (is_some (lookup digest disk.hot)))
              (status_of disk.cold_down (is_some (lookup digest disk.cold))))
            (decide_on_says disk.hot_down (is_some (lookup digest disk.hot)) disk.cold_down
              (is_some (lookup digest disk.cold)) u))
  ]
]

declared-Fair :
    (digest tier : ℕ) (disk : Disk) (repair : Repair) (m : Result (Option Status))
    → Fair digest disk repair
    → FairResult digest disk (decide_by_probes digest disk)
    → FairResult digest disk (
        m >>= λ o. elim o [
          | none ↦ decide_by_probes digest disk
          | some status ↦
              if is_present status
              then ok (tier, repair)
              else if is_unavailable status
              then err Error.eio
              else decide_by_probes digest disk
        ])
declared-Fair digest tier disk repair (err e) f g = tt
declared-Fair digest tier disk repair (ok none) f g = g
declared-Fair digest tier disk repair (ok (some present)) f g = f
declared-Fair digest tier disk repair (ok (some missing)) f g = g
declared-Fair digest tier disk repair (ok (some unavailable)) f g = tt

preferred_tier-cases : (b : Block) → (preferred_tier b ≡ 1) ⊎ (preferred_tier b ≡ 2)
unfolding preferred_tier
preferred_tier-cases b = elim (Bool-cases (b.preferred_tier == 2 && b.cold_present)) [
  | inl cold ↦ inr (rw cold refl)
  | inr other ↦ elim (Bool-cases b.hot_present) [
    | inl hot ↦ inl (ground (arith, other, hot))
    | inr gone ↦ inr (ground (arith, other, gone))
  ]
]

hot_missing-Fair :
    (digest : ℕ) (b : Block) (disk : Disk)
    → read_path digest 1 disk ≡ path_missing
    → FairResult digest disk (decide_after_preferred_missing digest b 1 disk)
unfolding decide_after_preferred_missing
hot_missing-Fair digest b disk h =
    let gone = path_gone digest 1 disk h in
    declared-Fair digest 2 disk (missing_repair 1) (probe_declared_alternate digest b 2 disk)
      (gone, tt) (probes-Fair digest disk (inl gone.0))

cold_missing-Fair :
    (digest : ℕ) (b : Block) (disk : Disk)
    → read_path digest 2 disk ≡ path_missing
    → FairResult digest disk (decide_after_preferred_missing digest b 2 disk)
unfolding decide_after_preferred_missing
cold_missing-Fair digest b disk h =
    let gone = path_gone digest 2 disk h in
    declared-Fair digest 1 disk (missing_repair 2) (probe_declared_alternate digest b 1 disk)
      (tt, gone) (probes-Fair digest disk (inr gone))

-- The preferred tier is up and has no such file.
missing-Fair :
    (digest : ℕ) (b : Block) (disk : Disk)
    → read_path digest (preferred_tier b) disk ≡ path_missing
    → FairResult digest disk (decide_after_preferred_missing digest b (preferred_tier b) disk)
missing-Fair digest b disk h =
    let decided =
      (λ (t : ℕ). FairResult digest disk (decide_after_preferred_missing digest b t disk)) in
    let gone = (λ (t : ℕ). read_path digest t disk ≡ path_missing) in
    elim (preferred_tier-cases b) [
      | inl p ↦ subst decided (sym p) (hot_missing-Fair digest b disk (subst gone p h))
      | inr p ↦ subst decided (sym p) (cold_missing-Fair digest b disk (subst gone p h))
    ]

outcome-Sound :
    (digest : ℕ) (b : Block) (disk : Disk) (o : ReadOutcome)
    → read_path digest (preferred_tier b) disk ≡ o
    → Sound digest disk (elim o [
      | read payload ↦ ok (payload, (preferred_tier b, no_repair))
      | path_missing ↦
          decide_after_preferred_missing digest b (preferred_tier b) disk
          >>= read_selected_path digest disk
      | path_unavailable ↦
          decide_after_preferred_unavailable digest b (preferred_tier b) disk
          >>= read_selected_path digest disk
      | path_denied ↦ err Error.eacces
    ])
outcome-Sound digest b disk (read payload) h =
    let (up, found) = path_read digest (preferred_tier b) disk payload h in
    record { up = up; found = found; hot = tt; cold = tt }
outcome-Sound digest b disk path_missing h =
    then_selected digest disk (decide_after_preferred_missing digest b (preferred_tier b) disk)
      (missing-Fair digest b disk h)
outcome-Sound digest b disk path_unavailable h =
    then_selected digest disk (decide_after_preferred_unavailable digest b (preferred_tier b) disk)
      (unavailable-Fair digest b (preferred_tier b) disk)
outcome-Sound digest b disk path_denied h = tt

pub read_tiered_payload-Sound :
    (digest : ℕ) (b : Block) (disk : Disk) → Sound digest disk (read_tiered_payload digest b disk)
unfolding read_tiered_payload
read_tiered_payload-Sound digest b disk =
    outcome-Sound digest b disk (read_path digest (preferred_tier b) disk) refl

-- The row says that the tier has the block.
abbrev pub declares : ℕ → Block → Bool
declares tier b = if tier == 1 then b.hot_present else b.cold_present

abbrev pub is_ok {ℓ} : {A : Type ℓ} → Result A → Bool
is_ok (ok a) = true
is_ok (err e) = false

-- If a tier that the row declares is up and has the file, and neither tier fails with an error that is
-- not a temporary one, `_read_tiered_payload` raises nothing, whether the other tier is up, unavailable
-- or without the file, and whichever of the two is preferred.
pub read_tiered_payload_total :
    (digest tier : ℕ) (b : Block) (disk : Disk) (payload : Bytes)
    → (tier ≡ 1) ⊎ (tier ≡ 2)
    → declares tier b ≡ true
    → is_down tier disk ≡ false
    → is_denied 1 disk ≡ false
    → is_denied 2 disk ≡ false
    → lookup digest (files tier disk) ≡ some payload
    → is_ok (read_tiered_payload digest b disk) ≡ true
unfolding read_tiered_payload read_path decide_after_preferred_missing
    decide_after_preferred_unavailable probe_declared_alternate probe preferred_tier
read_tiered_payload_total digest tier b disk payload t declared up hot cold found =
    ground (arith, t, declared, up, hot, cold, found)
