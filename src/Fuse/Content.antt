-- ===== src/Fuse/Content.antt =====
-- inode_fuse.py: the callbacks that open a file, read and write it and change its attributes. The times of
-- access, the read-ahead and the promotion of blocks after a read are left out; `compress` is what
-- `compression_allowed` says of the path.
pub mod Permitted
use mathlib.Core.Option
use ztierfs.Common.{
  ℕ, ◌+◌, ◌/◌, Bool, true, false, not, ◌&&◌, ◌||◌, Option, none, some, ◌==◌, if◌then◌else◌, length,
  Result, ok, err, Error, ◌>>=◌, ◌>>◌, raise_if,
}
use ztierfs.Common.Bytes.{Bytes}
use ztierfs.Handles.{HandleTable, Fh, Kind, Snapshot, file_id}
use ztierfs.Handles
use ztierfs.Access.{
  Caller, OpenFlags, r_ok, w_ok, has_bit0, has_bit1, require_access, require_open_access,
  require_owner, caller_lock_owner,
}
use ztierfs.Metadata.Schema.{Inode, Db}
use ztierfs.Metadata.Chunks.{Row}
use ztierfs.Metadata.Namespace.{Node, is_file, set_node_mode, set_node_owner, set_node_times}
use ztierfs.Metadata.Trash.{s_ifdir, s_ifreg, s_iflnk}
use ztierfs.Files.{plan_read, execute_read_plan}
use ztierfs.Store.Disk.{Disk}
use ztierfs.Store.Cache.{Cache}
use ztierfs.Store.Codec.{Config, Zstd}
use ztierfs.Store.Snapshot.{read_block_snapshot}
use ztierfs.Store.Writes.{StoreState, write_file}
use ztierfs.Store.Truncating.{truncate_file}
use ztierfs.Fuse.{
  Mount, ensure_trash_directory_for_caller, node_by_ino, inode_by_ino, file_node_from_ino_or_fh,
  handle_snapshot, Attr, attrs_from_node,
}
use ztierfs.Fuse.Changes.{permission_bits}

-- A mount with its tiers and the cache of its blocks.
pub record Volume : Type 0 where
  pub mount : Mount
  pub disk : Disk
  pub cache : Cache
  pub hot_bytes_added : ℕ
  pub demotion_requested : Bool

abbrev pub store_of : Volume → StoreState
store_of v = record {
  db = v.mount.db;
  disk = v.disk;
  hot_bytes_added = v.hot_bytes_added;
  demotion_requested = v.demotion_requested;
}

abbrev pub with_store : StoreState → Volume → Volume
with_store s v = record v {
  mount = record v.mount { db = s.db };
  disk = s.disk;
  hot_bytes_added = s.hot_bytes_added;
  demotion_requested = s.demotion_requested;
}

abbrev pub read_from : Zstd → Config → Volume → Row → ℕ → Result Bytes
read_from zstd config v row n =
    read_block_snapshot zstd config v.disk row n v.cache >>= λ r. ok r.bytes

-- What a callback that raised leaves: the trash directories, if they were made.
abbrev pub settled : {Reply : Type 0} → Volume → Result (Reply × Volume) → Volume × Result Reply
settled v (err raised) = (v, err raised)
settled v (ok r) = (r.1, ok r.0)

abbrev pub go_on :
    {Reply : Type 0}
    → Volume
    → Result Mount
    → (Volume → Volume × Result Reply)
    → Volume × Result Reply
go_on v (err raised) rest = (v, err raised)
go_on v (ok m) rest = rest (record v { mount = m })

-- The snapshot of a handle as a node that `_require_access` looks at.
abbrev pub snapshot_node : Snapshot → Inode
snapshot_node s = record {
  kind = s.kind;
  mode = s.mode;
  uid = s.uid;
  gid = s.gid;
  size = 0;
  symlink_target = none;
  nlink = 0;
  atime_ns = 0;
  mtime_ns = 0;
  ctime_ns = 0;
}

-- A handle that has a snapshot is checked by it, and first; another one by the inode.
unfoldable pub checked_node : Caller → ℕ → Option Snapshot → ℕ → Mount → Result Node
checked_node caller mask none file m = do
  node ← inode_by_ino file m.db
  require_access caller (some node.inode) mask
  ok node
checked_node caller mask (some snapshot) file m = do
  require_access caller (some (snapshot_node snapshot)) mask
  inode_by_ino file m.db

abbrev pub checked_file : Caller → ℕ → ℕ → Option ℕ → Option Snapshot → Mount → Result Node
checked_file caller ino mask none snapshot m = checked_node caller mask none ino m
checked_file caller ino mask (some file) snapshot m = checked_node caller mask snapshot file m

unfoldable pub file_node_for_read_write : Caller → ℕ → Fh → ℕ → Mount → Result Node
file_node_for_read_write caller ino fh mask m =
    checked_file caller ino mask (file_id fh m.handles) (Handles.snapshot fh m.handles) m

-- `open`, with O_TRUNC after the checks.
unfoldable pub open_inode :
    Zstd → Config → ℕ → Caller → ℕ → OpenFlags → Bool → ℕ → Volume → Result (ℕ × Volume)
open_inode zstd config chunk_size caller ino flags compress now v = do
  node ← inode_by_ino ino v.mount.db
  raise_if (not (is_file node.inode.kind)) Error.eisdir
  require_open_access caller node.inode flags
  s ←
      (if flags.trunc
        then truncate_file zstd config (read_from zstd config v) chunk_size ino compress 0 now
            v.cache (store_of v)
        else ok (store_of v))
  let v' = with_store s v
  let opened =
      Handles.new ino (some (caller_lock_owner caller)) (some (handle_snapshot node))
        v'.mount.handles
  ok (opened.0, record v' { mount = record v'.mount { handles = opened.1 } })

unfoldable pub open_file :
    Zstd → Config → ℕ → Caller → ℕ → OpenFlags → Bool → ℕ → Volume → Volume × Result ℕ
open_file zstd config chunk_size caller ino flags compress now v =
    go_on v (ensure_trash_directory_for_caller caller now v.mount)
      (λ v'. settled v' (open_inode zstd config chunk_size caller ino flags compress now v'))

-- `read`, up to the bytes that it returns.
unfoldable pub read :
    Zstd → Config → ℕ → Caller → ℕ → ℕ → ℕ → Fh → ℕ → Volume → Volume × Result Bytes
read zstd config chunk_size caller ino size offset fh now v =
    go_on v (ensure_trash_directory_for_caller caller now v.mount) (λ v'. (
      v',
      file_node_for_read_write caller ino fh r_ok v'.mount >>= λ node.
          plan_read chunk_size node.id node.inode size offset v'.mount.db
          >>= execute_read_plan (read_from zstd config v'),
    ))

unfoldable pub write :
    Zstd → Config → ℕ → Caller → ℕ → Bytes → ℕ → Fh → Bool → ℕ → Volume → Volume × Result ℕ
write zstd config chunk_size caller ino bytes offset fh compress now v =
    go_on v (ensure_trash_directory_for_caller caller now v.mount) (λ v'. settled v' (
      file_node_for_read_write caller ino fh w_ok v'.mount >>= λ node.
      write_file zstd config (read_from zstd config v') chunk_size node.id node.inode compress bytes
        offset now v'.cache (store_of v')
      >>= λ s. ok (length bytes, with_store s v')))

-- The keys of `attrs` that `setattr` reads.
pub record NewAttrs : Type 0 where
  pub st_mode : ℕ
  pub st_uid : ℕ
  pub st_gid : ℕ
  pub st_size : ℕ
  pub st_atime : ℕ
  pub st_mtime : ℕ

-- FUSE_SET_ATTR_MODE to FUSE_SET_ATTR_MTIME, bits 0 to 5 of `to_set`
pub record ToSet : Type 0 where
  pub mode : Bool
  pub uid : Bool
  pub gid : Bool
  pub size : Bool
  pub atime : Bool
  pub mtime : Bool

abbrev pub kind_bits : Kind → ℕ
kind_bits Kind.dir = s_ifdir
kind_bits Kind.file = s_ifreg
kind_bits Kind.symlink = s_iflnk

unfoldable pub set_mode : Caller → Node → NewAttrs → Bool → ℕ → Mount → Result Mount
set_mode caller node attrs false now m = ok m
set_mode caller node attrs true now m = do
  require_owner caller node.inode
  ok (record m {
    db = set_node_mode node.id (kind_bits node.inode.kind + permission_bits attrs.st_mode) now m.db;
    handles = Handles.invalidate_file node.id m.handles;
  })

unfoldable pub set_owner : Caller → Node → NewAttrs → ToSet → ℕ → Mount → Result Mount
set_owner caller node attrs to_set now m =
    if to_set.uid || to_set.gid
    then (raise_if (not (caller.uid == 0)) Error.eperm
        >> ok (record m {
          db =
              set_node_owner node.id (if to_set.uid then attrs.st_uid else node.inode.uid)
                (if to_set.gid then attrs.st_gid else node.inode.gid) now m.db;
          handles = Handles.invalidate_file node.id m.handles;
        }))
    else ok m

-- The node is read again after a change of the size only.
unfoldable pub set_size :
    Zstd → Config → ℕ → Caller → Node → NewAttrs → Bool → Bool → ℕ → Volume → Result (Node × Volume)
set_size zstd config chunk_size caller node attrs false compress now v = ok (node, v)
set_size zstd config chunk_size caller node attrs true compress now v = do
  raise_if (not (is_file node.inode.kind)) Error.eisdir
  require_access caller (some node.inode) w_ok
  s ←
      truncate_file zstd config (read_from zstd config v) chunk_size node.id compress attrs.st_size
        now v.cache (store_of v)
  node' ← node_by_ino node.id s.db
  ok (node', with_store s v)

unfoldable pub set_times : Caller → Node → NewAttrs → ToSet → ℕ → Mount → Result Mount
set_times caller node attrs to_set now m =
    if to_set.atime || to_set.mtime
    then ((if not (caller.uid == 0) && not (caller.uid == node.inode.uid)
          then require_access caller (some node.inode) w_ok
          else ok tt)
        >> ok (record m {
          db =
              set_node_times node.id (if to_set.atime then attrs.st_atime else node.inode.atime_ns)
                (if to_set.mtime then attrs.st_mtime else node.inode.mtime_ns) now m.db;
        }))
    else ok m

unfoldable pub setattr_inode :
    Zstd
    → Config
    → ℕ
    → Caller
    → ℕ
    → NewAttrs
    → ToSet
    → Fh
    → Bool
    → ℕ
    → Volume
    → Result (Attr × Volume)
setattr_inode zstd config chunk_size caller ino attrs to_set fh compress now v = do
  node ← file_node_from_ino_or_fh ino fh v.mount
  m1 ← set_mode caller node attrs to_set.mode now v.mount
  m2 ← set_owner caller node attrs to_set now m1
  r ←
      set_size zstd config chunk_size caller node attrs to_set.size compress now
        (record v { mount = m2 })
  m3 ← set_times caller r.0 attrs to_set now r.1.mount
  last ← node_by_ino r.0.id m3.db
  ok (attrs_from_node last m3.db, record r.1 { mount = m3 })

-- The snapshots that are dropped stay so when a later step of the callback raises.
unfoldable pub dropped : Caller → ToSet → Result Node → HandleTable → HandleTable
dropped caller to_set (err raised) handles = handles
dropped caller to_set (ok node) handles =
    let owner_may = caller.uid == 0 || caller.uid == node.inode.uid in
    if (if to_set.mode then owner_may else (to_set.uid || to_set.gid) && caller.uid == 0)
    then Handles.invalidate_file node.id handles
    else handles

abbrev pub settled_attrs :
    Caller → ToSet → Result Node → Volume → Result (Attr × Volume) → Volume × Result Attr
settled_attrs caller to_set node v (err raised) = (
  record v { mount = record v.mount { handles = dropped caller to_set node v.mount.handles } },
  err raised,
)
settled_attrs caller to_set node v (ok r) = (r.1, ok r.0)

unfoldable pub setattr :
    Zstd
    → Config
    → ℕ
    → Caller
    → ℕ
    → NewAttrs
    → ToSet
    → Fh
    → Bool
    → ℕ
    → Volume
    → Volume × Result Attr
setattr zstd config chunk_size caller ino attrs to_set fh compress now v =
    go_on v (ensure_trash_directory_for_caller caller now v.mount) (λ v'.
      settled_attrs caller to_set (file_node_from_ino_or_fh ino fh v'.mount) v'
        (setattr_inode zstd config chunk_size caller ino attrs to_set fh compress now v'))
