-- ===== src/Metadata.antt =====
-- The metadata database, ztierfs/metadata: its tables, and the mixins that read and write them.
-- An operation takes the database and returns the new one, or the exception that ends the
-- transaction, which SQLite then rolls back.
pub mod RwLock
pub mod Entries
pub mod Namespace
pub mod Trash
pub mod Listing
pub mod Xattrs
pub mod Schema
pub mod Gc
pub mod Blocks
pub mod Chunks
pub mod Settle
pub mod Deltas
pub mod Refcounts
pub mod Thinning
