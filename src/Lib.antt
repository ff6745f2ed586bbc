-- ===== src/Lib.antt =====
-- ztierfs: a FUSE file system that keeps file content in content-addressed blocks on a hot and a cold
-- tier, and everything else in a SQLite database.
--
-- A file is cut into chunks of a fixed size. The table `file_chunks` maps the chunks of a file to the
-- digests of blocks; the table `blocks` says where a block is stored and how many chunks refer to it.
-- ztierfs/file_content.py turns reads and writes of byte ranges into chunks, ztierfs/block_store.py
-- turns blocks into files on the tiers and back, ztierfs/metadata/ keeps the tables, and
-- ztierfs/locks.py and ztierfs/handles.py keep the advisory locks and the open handles of the mount.
-- The tables `dir_entries` and `inodes` hold the directories; the callbacks of ztierfs/inode_fuse.py check
-- what a caller may do and change them, each in one transaction.
--
-- Which module is about which file:
--   Common               lists, tables with a key, byte strings, UTF-8, fallible code
--   Locks                ztierfs/locks.py; Bytes says who holds which byte, Pieces and Exclusion are
--                        about the locks of two owners on one byte
--   Handles              ztierfs/handles.py; Counts relates the counts of open handles to the handles
--   Metadata.Schema      the tables and constraints of ztierfs/metadata/schema.py
--   Metadata.Gc          ztierfs/metadata/gc.py
--   Metadata.Blocks      ztierfs/metadata/blocks.py; Settle and Deltas follow its reference counts
--   Metadata.Chunks      ztierfs/metadata/chunks.py; Rows counts the rows before and after a change,
--                        Mapping says what each index is mapped to
--   Metadata.Refcounts   chunks.py and blocks.py together; Metadata.Thinning says what they take away
--   Metadata.RwLock      `ReadWriteLock` of ztierfs/metadata/connection.py; a step is what one thread does
--                        between taking the condition's lock and giving it up; Exclusion and Waiting are
--                        about all interleavings of any number of threads
--   Metadata.Entries     the rows of `dir_entries`; Laws is about looking up, counting and erasing them
--   Metadata.Namespace   ztierfs/metadata/namespace.py; Tree is the invariant of the directories, Growing,
--                        Shrinking and Moving what the statements keep of it, Climbing `is_descendant`
--   Metadata.Listing, Metadata.Xattrs, Metadata.Trash
--                        its listings, extended attributes and trash directories
--   Access               ztierfs/access_control.py; Permissions compares it with what POSIX grants
--   Files                ztierfs/file_content.py; Reading and Writing are about ranges of bytes
--   Store.Disk           ztierfs/block_file_io.py, tier_access.py and pending_deletions.py
--   Store.Cache          the cache of decoded blocks in ztierfs/block_store.py
--   Store.Codec          how it encodes a block
--   Store.Tiers          from which tier it reads, and how it repairs the rows
--   Store.Snapshot       `read_block_snapshot`
--   Store.Writes         `ensure_prepared_blocks`, and `set_prepared_chunks`, `commit_prepared_write` and
--                        `write_file` of ztierfs/file_content.py; Backing says that each row has its payload
--                        where it says, HotFiles, Promoting, Ensuring, Looping and Supplying what
--                        the writes keep of that, ReadBack is about
--                        the bytes of a file after a write
--   Store.Truncating     `truncate_file`, `set_chunk`, `remove_chunk` and `remove_file_chunks` of
--                        ztierfs/file_content.py; Cutting and Resizing are about the bytes of a file that
--                        gets another size
--   Fuse                 ztierfs/inode_fuse.py, file_ops.py and metadata_ops.py, and the trash directories
--                        of filesystem.py; Queries has the callbacks that read and those of the extended
--                        attributes and locks, Content those of open files, Changes those that change directories, Removing is about
--                        entries and inodes that go, Serving about runs of requests, Errors
--                        about what they raise
--   Tests                a small file system on which the theorems are applied
--
-- How the code is read:
--   - A database is a record of its tables, and a method is a function from it to a new database or to
--     the exception that was raised. A method does not commit; what happens to the database after an
--     exception is the rollback of the transaction around it.
--   - SQLite's UPDATE, INSERT, DELETE and the constraints are written out over these tables. A table
--     with one key is an association list in which the first entry of a key counts.
--   - Digests are natural numbers. SHA-256 and zstd are parameters (Store.Codec.Zstd), with the one law
--     that what was compressed decompresses.
--   - A tier is a table from digests to files. As a whole it may be unavailable, where the errors are of
--     the temporary ones, or denied, where each access raises another OSError, taken as EACCES; it is up if
--     it is neither. This does not change within one call. Paths, temporary files and fsync are left aside.
--   - File offsets, sizes and times are natural numbers, so the guards against negative ones are left
--     out. Python's integers have no bound, and neither have those of the model.
--   - The content service reads blocks through an interface (Files.Reading.BlockReader), which
--     Store.Snapshot.Reading fills from `read_block_snapshot`. Each read of one plan starts from the
--     same cache; by what is shown of a read, the bytes do not depend on the cache.
--   - A name is the list of its bytes, which order names as SQLite does. With a name that is no UTF-8 a
--     query raises UnicodeEncodeError, and so does `insert_node` with such a target. A callback gets the time
--     once, and the caller as an argument; a flag of a call is a bit of a number or a field of a record.
--   - A callback is a function from the mount to the mount and what it returned or raised. What it raises
--     inside a transaction undoes that transaction; the trash directories are made in one of their own.
--   - Every loop is recursion over a list or over a count, or (Metadata.RwLock) steps of a relation. Only
--     the loop of `is_descendant` runs on fuel, one round for each entry and one more; Climbing shows that
--     this is enough in a tree. The digits of a number are made with as many rounds as the number.
--
-- Not modelled: `clone_file_node`, the deferred access statistics, the connection pool, copy-up and demotion
-- between the tiers, and of the callbacks readdir, readlink and statfs, the times of access in read, the
-- read-ahead and the cache of names. Of maintenance/ nothing is modelled. The command line, the console and
-- the counters of time have no logic of the file system.
pub mod Access
pub mod Common
pub mod Locks
pub mod Handles
pub mod Metadata
pub mod Files
pub mod Store
pub mod Fuse
pub mod Tests
