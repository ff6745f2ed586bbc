-- ===== src/Store/Snapshot/RepairedRows.antt =====
-- block_store.py: the repair of a read is accepted by the table.
use ztierfs.Common.{ℕ, ◌≡◌, true, ok, arith}
use ztierfs.Common.Bytes.{Bytes}
use ztierfs.Metadata.Schema.{Block, row_ok, tiered}
use ztierfs.Metadata.Blocks.{with_presence}
use ztierfs.Store.Disk.{Disk, read_path, probe}
use ztierfs.Store.Tiers.{
  Repair, decide_on, preferred_tier, probe_declared_alternate, probe_all_tiers_for_repair,
  decide_by_probes, decide_after_preferred_missing, decide_after_preferred_unavailable,
  read_tiered_payload,
}
use ztierfs.Store.Snapshot.{presence_of}

-- If the row of a block on the tiers passes the CHECK constraints, it does so as well with the repair
-- that a read returns.
pub read_tiered_payload-row_ok :
    (digest tier : ℕ) (b : Block) (disk : Disk) (payload : Bytes) (repair : Repair)
    → b.storage ≡ tiered
    → row_ok b ≡ true
    → read_tiered_payload digest b disk ≡ ok (payload, (tier, repair))
    → row_ok (with_presence (presence_of repair) b) ≡ true
unfolding read_tiered_payload decide_after_preferred_missing decide_after_preferred_unavailable
    decide_by_probes probe_all_tiers_for_repair decide_on probe_declared_alternate probe read_path
    preferred_tier row_ok
read_tiered_payload-row_ok digest tier b disk payload repair s v h = ground (arith, s, v, h)
