-- ===== src/Store/Tiers.antt =====
-- block_store.py: from which tier a block is read, and what a read that finds the rows wrong says of
-- them.
pub mod Repairs
use ztierfs.Common.{
  ℕ, Bool, true, false, not, ◌&&◌, ◌||◌, Option, none, some, ◌==◌, if◌then◌else◌, Result, ok, err,
  Error, ◌>>=◌,
}
use ztierfs.Common.Bytes.{Bytes}
use ztierfs.Metadata.Schema.{Block}
use ztierfs.Store.Disk.{
  Disk, Status, present, missing, unavailable, probe, is_present, is_unavailable, ReadOutcome, read,
  path_missing, path_unavailable, path_denied, read_path,
}

unfoldable pub preferred_tier : Block → ℕ
preferred_tier b =
    if b.preferred_tier == 2 && b.cold_present
    then 2
    else if b.preferred_tier == 1 && b.hot_present
    then 1
    else if b.hot_present
    then 1
    else 2

-- The dictionary `repair`: a key that is missing is `none`.
pub record Repair : Type 0 where
  pub hot_present : Option Bool
  pub cold_present : Option Bool
  pub preferred_tier : Option ℕ

abbrev pub no_repair : Repair
no_repair = record { hot_present = none; cold_present = none; preferred_tier = none }

-- `2 if preferred_tier == 1 else 1`
abbrev pub alternate : ℕ → ℕ
alternate tier = if tier == 1 then 2 else 1

-- `_probe_declared_alternate`
unfoldable pub probe_declared_alternate : ℕ → Block → ℕ → Disk → Result (Option Status)
probe_declared_alternate digest b tier disk =
    if tier == 1 && not b.hot_present
    then ok none
    else if tier == 2 && not b.cold_present
    then ok none
    else (probe digest tier disk >>= λ status. ok (some status))

-- TierReadDecision, where the path is that of the digest on the tier.
abbrev pub Decision : Type 0
Decision = ℕ × Repair

-- `_decide_after_preferred_unavailable`
unfoldable pub decide_after_preferred_unavailable : ℕ → Block → ℕ → Disk → Result Decision
decide_after_preferred_unavailable digest b tier disk =
    probe_declared_alternate digest b (alternate tier) disk >>= λ o. elim o [
      | none ↦ err Error.eio
      | some status ↦ if is_present status then ok (alternate tier, no_repair) else err Error.eio
    ]

-- The part of `_probe_all_tiers_for_repair` after the two probes.
unfoldable pub decide_on : Status → Status → Result (Option Decision)
decide_on hot cold =
    if is_unavailable cold && not (is_present hot)
    then err Error.eio
    else if is_present hot || is_present cold
    then ok (
        some (
          if is_present hot then 1 else 2,
          record {
            hot_present = some (is_present hot);
            cold_present = if is_unavailable cold then none else some (is_present cold);
            preferred_tier = some (if is_present hot then 1 else 2);
          },
        ))
    else ok none

-- `_probe_all_tiers_for_repair`
unfoldable pub probe_all_tiers_for_repair : ℕ → Disk → Result (Option Decision)
probe_all_tiers_for_repair digest disk = do
  hot ← probe digest 1 disk
  cold ← probe digest 2 disk
  decide_on hot cold

-- The end of `_decide_after_preferred_missing`.
unfoldable pub decide_by_probes : ℕ → Disk → Result Decision
decide_by_probes digest disk = probe_all_tiers_for_repair digest disk >>= λ o. elim o [
  | none ↦ err Error.eio
  | some decision ↦ ok decision
]

abbrev pub missing_repair : ℕ → Repair
missing_repair tier =
    if tier == 1
    then record {
      hot_present = some false;
      cold_present = none;
      preferred_tier = some (alternate tier);
    }
    else record {
      hot_present = none;
      cold_present = some false;
      preferred_tier = some (alternate tier);
    }

-- `_decide_after_preferred_missing`
unfoldable pub decide_after_preferred_missing : ℕ → Block → ℕ → Disk → Result Decision
decide_after_preferred_missing digest b tier disk =
    probe_declared_alternate digest b (alternate tier) disk >>= λ o. elim o [
      | none ↦ decide_by_probes digest disk
      | some status ↦
          if is_present status
          then ok (alternate tier, missing_repair tier)
          else if is_unavailable status
          then err Error.eio
          else decide_by_probes digest disk
    ]

-- `_read_selected_path`
abbrev pub read_selected_path : ℕ → Disk → Decision → Result (Bytes × Decision)
read_selected_path digest disk (tier, repair) = elim (read_path digest tier disk) [
  | read payload ↦ ok (payload, (tier, repair))
  | path_missing ↦ err Error.eio
  | path_unavailable ↦ err Error.eio
  | path_denied ↦ err Error.eacces
]

-- `_read_tiered_payload`: the payload, the tier and the repair.
unfoldable pub read_tiered_payload : ℕ → Block → Disk → Result (Bytes × Decision)
read_tiered_payload digest b disk =
    let tier = preferred_tier b in
    elim (read_path digest tier disk) [
      | read payload ↦ ok (payload, (tier, no_repair))
      | path_missing ↦
          decide_after_preferred_missing digest b tier disk >>= read_selected_path digest disk
      | path_unavailable ↦
          decide_after_preferred_unavailable digest b tier disk >>= read_selected_path digest disk
      | path_denied ↦ err Error.eacces
    ]
