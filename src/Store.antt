-- ===== src/Store.antt =====
-- block_store.py and the modules under it: the content-addressed blocks on two tiers.
pub mod Disk
pub mod Cache
pub mod Codec
pub mod Tiers
pub mod Snapshot
pub mod Writes
pub mod Truncating
