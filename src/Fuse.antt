-- ===== src/Fuse.antt =====
-- inode_fuse.py, with file_ops.py, metadata_ops.py and filesystem.py: the state of a mount, and what the
-- callbacks share. A name arrives as its bytes, which are those that the database compares.
pub mod Removing
pub mod Queries
pub mod Changes
pub mod Content
pub mod Serving
pub mod Errors
use mathlib.Core.Option
use ztierfs.Common.{
  ℕ, ◌+◌, ◌*◌, ◌/◌, ◌%◌, ◌-◌, Bool, true, false, not, ◌&&◌, ◌||◌, Option, none, some, List, [], ◌∷◌,
  ltb, ◌==◌, if◌then◌else◌, contains, Result, ok, err, Error, ◌>>=◌, ◌>>◌, raise_if, or_raise,
}
use ztierfs.Common.Dict.{lookup}
use ztierfs.Handles.{HandleTable, Kind, Snapshot, Fh, file_id, has_open_file}
use ztierfs.Handles
use ztierfs.Locks.{Table}
use ztierfs.Locks
use ztierfs.Access.{Caller}
use ztierfs.Metadata.Schema.{Inode, Db, Name}
use ztierfs.Metadata.Chunks.{file_allocated_size}
use ztierfs.Metadata.Namespace.{
  Node, is_dir, is_file, node_by_id, inode_by_id, child_dir_count, remove_entry, delete_node,
}
use ztierfs.Metadata.Trash.{ensure_trash_directories}
use ztierfs.Store.Truncating.{remove_file_chunks}

-- What the callbacks change: the database, the handles, the advisory locks, and the users whose trash
-- was made.
pub record Mount : Type 0 where
  pub db : Db
  pub handles : HandleTable
  pub locks : Table
  pub ensured_trash_uids : List ℕ

-- A callback leaves a mount, and returns or raises.
abbrev pub Outcome : Type 0 → Type 0
Outcome Reply = Mount × Result Reply

-- `with self.metadata.transaction()` around the rest of a callback: what is raised undoes the changes.
abbrev pub transaction : {Reply : Type 0} → Mount → Result (Reply × Mount) → Outcome Reply
transaction m (err raised) = (m, err raised)
transaction m (ok r) = (r.1, ok r.0)

-- `with self.metadata.read_transaction()`
abbrev pub reading : {Reply : Type 0} → Mount → Result Reply → Outcome Reply
reading m result = (m, result)

unfoldable pub ensure_trash_directory_for_caller : Caller → ℕ → Mount → Result Mount
ensure_trash_directory_for_caller caller now m =
    if contains caller.uid m.ensured_trash_uids
    then ok m
    else ensure_trash_directories caller.uid caller.gid now m.db >>= λ db'.
        ok (record m { db = db'; ensured_trash_uids = caller.uid ∷ m.ensured_trash_uids })

-- A statement that leaves a mount, and the rest of the callback unless it raised.
abbrev pub onward :
    {Reply : Type 0} → Mount → Result Mount → (Mount → Outcome Reply) → Outcome Reply
onward m (err raised) rest = (m, err raised)
onward m (ok m') rest = rest m'

-- The rest of a callback after `_ensure_trash_directory_for_caller`.
abbrev pub after_trash :
    {Reply : Type 0} → Caller → ℕ → Mount → (Mount → Outcome Reply) → Outcome Reply
after_trash caller now m rest = onward m (ensure_trash_directory_for_caller caller now m) rest

unfoldable pub node_by_ino : ℕ → Db → Result Node
node_by_ino ino db = or_raise (node_by_id ino db) Error.enoent

unfoldable pub inode_by_ino : ℕ → Db → Result Node
inode_by_ino ino db = or_raise (inode_by_id ino db) Error.enoent

unfoldable pub file_node_from_ino_or_fh : ℕ → Fh → Mount → Result Node
file_node_from_ino_or_fh ino fh m = inode_by_ino (Option.get_or (file_id fh m.handles) ino) m.db

abbrev pub handle_snapshot : Node → Snapshot
handle_snapshot node = record {
  id = node.id;
  kind = node.inode.kind;
  mode = node.inode.mode;
  uid = node.inode.uid;
  gid = node.inode.gid;
}

-- LowLevelAttr, without `st_blksize`, which is the chunk size, and `st_birthtime`, which is the ctime.
pub record Attr : Type 0 where
  pub st_ino : ℕ
  pub st_mode : ℕ
  pub st_nlink : ℕ
  pub st_uid : ℕ
  pub st_gid : ℕ
  pub st_size : ℕ
  pub st_blocks : ℕ
  pub st_atime : ℕ
  pub st_mtime : ℕ
  pub st_ctime : ℕ

abbrev pub allocated_bytes : Node → Db → ℕ
allocated_bytes node db =
    if is_file node.inode.kind then file_allocated_size node.id db else node.inode.size

unfoldable pub attrs_from_node : Node → Db → Attr
attrs_from_node node db = record {
  st_ino = node.id;
  st_mode = node.inode.mode;
  st_nlink = if is_dir node.inode.kind then 2 + child_dir_count node.id db else node.inode.nlink;
  st_uid = node.inode.uid;
  st_gid = node.inode.gid;
  st_size = node.inode.size;
  st_blocks = (allocated_bytes node db + 511) / 512;
  st_atime = node.inode.atime_ns;
  st_mtime = node.inode.mtime_ns;
  st_ctime = node.inode.ctime_ns;
}

-- LowLevelEntry
pub record EntryReply : Type 0 where
  pub name : Name
  pub ino : ℕ
  pub attrs : Attr
  pub next_id : ℕ

abbrev pub entry_from_node : Name → Node → ℕ → Db → EntryReply
entry_from_node name node next_id db = record {
  name = name;
  ino = node.id;
  attrs = attrs_from_node node db;
  next_id = next_id;
}

-- `_delete_inode_payload`
unfoldable pub delete_inode_payload : Node → ℕ → Db → Result Db
delete_inode_payload node now db =
    (if is_file node.inode.kind then remove_file_chunks node.id 0 now db else ok db) >>= λ db'.
    delete_node node.id db'

-- `_remove_entry_node`, for a node that was found at the name.
unfoldable pub remove_entry_node : ℕ → Name → Node → ℕ → HandleTable → Db → Result Db
remove_entry_node parent name node now handles db = remove_entry parent name node.id now db >>= λ r.
    (if ltb 0 r.0 || has_open_file node.id handles
      then ok r.1
      else delete_inode_payload node now r.1)

-- `_cleanup_unlinked_inode`, by what is there under the id.
unfoldable pub clean_up : ℕ → Option Node → Db → Result Db
clean_up now none db = ok db
clean_up now (some node) db =
    if ltb 0 node.inode.nlink then ok db else delete_inode_payload node now db

unfoldable pub cleanup_unlinked_inode : ℕ → ℕ → Db → Result Db
cleanup_unlinked_inode i now db = clean_up now (node_by_id i db) db

-- The end of `_release`, by what is there under the id of the file.
unfoldable pub clean_up_orphan : ℕ → ℕ → Option Node → Mount → Outcome (Unit {0})
clean_up_orphan i now none m = (m, ok tt)
clean_up_orphan i now (some node) m =
    if node.inode.nlink == 0
    then transaction m (cleanup_unlinked_inode i now m.db >>= λ db'. ok (tt, record m { db = db' }))
    else (m, ok tt)

-- `_release` after the table of the handles has given up the handle.
unfoldable pub finish_release : ℕ → Option (ℕ × ℕ) → Mount → Outcome (Unit {0})
finish_release now none m = (m, ok tt)
finish_release now (some (i, owner)) m =
    let m' = record m { locks = Locks.release_owner i owner m.locks } in
    if has_open_file i m'.handles
    then (m', ok tt)
    else clean_up_orphan i now (inode_by_id i m'.db) m'

-- `release`; the positions of the read-ahead are left out.
unfoldable pub release : Fh → ℕ → Mount → Outcome (Unit {0})
release fh now m =
    let r = Handles.release fh m.handles in finish_release now r.0 (record m { handles = r.1 })
