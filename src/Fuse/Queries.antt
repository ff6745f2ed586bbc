-- ===== src/Fuse/Queries.antt =====
-- inode_fuse.py: the callbacks that read an inode, its extended attributes and its advisory locks, and
-- those that set and remove an extended attribute.
use mathlib.Core.Option
use ztierfs.Common.{
  ℕ, ◌-◌, ◌/◌, ◌%◌, not, ◌&&◌, Option, none, some, List, ◌==◌, if◌then◌else◌, is_some, Result, ok,
  Error, ◌>>=◌, ◌>>◌, raise_if, or_raise,
}
use ztierfs.Common.Bytes.{Bytes}
use ztierfs.Common.Utf8.{encode_text}
use ztierfs.Handles.{Fh, Kind}
use ztierfs.Handles
use ztierfs.Locks.{LockType, Cmd, Flock}
use ztierfs.Locks
use ztierfs.Access.{
  Caller, w_ok, wx_ok, r_ok, rx_ok, has_bit0, has_bit1, require_access, caller_lock_owner,
}
use ztierfs.Metadata.Schema.{Db, Name}
use ztierfs.Metadata.Namespace.{Node, is_dir, is_file, child, node_by_id}
use ztierfs.Metadata.Xattrs.{xattr, xattr_names, set_xattr, remove_xattr}
use ztierfs.Fuse.{
  Mount, Outcome, transaction, reading, after_trash, node_by_ino, file_node_from_ino_or_fh, Attr,
  attrs_from_node, EntryReply, entry_from_node,
}

unfoldable pub lookup_inode : ℕ → Name → Db → Result EntryReply
lookup_inode parent name db = do
  parent_node ← node_by_ino parent db
  raise_if (not (is_dir parent_node.inode.kind)) Error.enotdir
  encode_text name
  node ← or_raise (child parent name db) Error.enoent
  ok (entry_from_node name node node.id db)

unfoldable pub lookup : Caller → ℕ → Name → ℕ → Mount → Outcome EntryReply
lookup caller parent name now m =
    after_trash caller now m (λ m'. reading m' (lookup_inode parent name m'.db))

unfoldable pub getattr : Caller → ℕ → Fh → ℕ → Mount → Outcome Attr
getattr caller ino fh now m = after_trash caller now m (λ m'.
    reading m' (file_node_from_ino_or_fh ino fh m' >>= λ node. ok (attrs_from_node node m'.db)))

-- `_require_amode_access`: a delete is asked of the parent, and then not of the execute bit.
unfoldable pub require_amode_access : Caller → Node → ℕ → Db → Result (Unit {0})
require_amode_access caller node amode db =
    let posix = amode % 8 in
    if has_bit0 (amode / 2048)
    then (elim node.parent_id [
      | none ↦ require_access caller (some node.inode) posix
      | some parent_id ↦
          (require_access caller (Option.map (λ n. n.inode) (node_by_id parent_id db)) wx_ok
            >> require_access caller (some node.inode) (posix - posix % 2))
    ])
    else require_access caller (some node.inode) posix

unfoldable pub access : Caller → ℕ → ℕ → Mount → Outcome (Unit {0})
access caller ino amode m =
    reading m (node_by_ino ino m.db >>= λ node. require_amode_access caller node amode m.db)

unfoldable pub require_dir_inode : Caller → ℕ → Db → Result (Unit {0})
require_dir_inode caller ino db = do
  node ← node_by_ino ino db
  raise_if (not (is_dir node.inode.kind)) Error.enotdir
  require_access caller (some node.inode) rx_ok

unfoldable pub listxattr : Caller → ℕ → ℕ → Mount → Outcome (List Name)
listxattr caller ino now m = after_trash caller now m (λ m'. reading m' (
    node_by_ino ino m'.db >>= λ node.
    require_access caller (some node.inode) r_ok >> ok (xattr_names ino m'.db)))

unfoldable pub getxattr : Caller → ℕ → Name → ℕ → Mount → Outcome Bytes
getxattr caller ino name now m = after_trash caller now m (λ m'. reading m' (
    node_by_ino ino m'.db >>= λ node.
    require_access caller (some node.inode) r_ok
    >> (encode_text name >> or_raise (xattr ino name m'.db) Error.enoattr)))

-- XATTR_CREATE is bit 0 of the options and XATTR_REPLACE bit 1.
unfoldable pub set_xattr_inode : Caller → ℕ → Name → Bytes → ℕ → ℕ → Db → Result (Unit {0} × Db)
set_xattr_inode caller ino name value options now db = do
  node ← node_by_ino ino db
  require_access caller (some node.inode) w_ok
  encode_text name
  raise_if (has_bit0 options && is_some (xattr ino name db)) Error.eexist
  raise_if (has_bit1 options && not (is_some (xattr ino name db))) Error.enoattr
  db' ← set_xattr ino name value now db
  ok (tt, db')

unfoldable pub setxattr : Caller → ℕ → Name → Bytes → ℕ → ℕ → Mount → Outcome (Unit {0})
setxattr caller ino name value options now m = after_trash caller now m (λ m'. transaction m' (
    set_xattr_inode caller ino name value options now m'.db >>= λ r.
    ok (r.0, record m' { db = r.1 })))

unfoldable pub remove_xattr_inode : Caller → ℕ → Name → ℕ → Db → Result (Unit {0} × Db)
remove_xattr_inode caller ino name now db = do
  node ← node_by_ino ino db
  require_access caller (some node.inode) w_ok
  encode_text name
  raise_if (not (remove_xattr ino name now db).0) Error.enoattr
  ok (tt, (remove_xattr ino name now db).1)

unfoldable pub removexattr : Caller → ℕ → Name → ℕ → Mount → Outcome (Unit {0})
removexattr caller ino name now m = after_trash caller now m (λ m'.
    transaction m'
      (remove_xattr_inode caller ino name now m'.db >>= λ r. ok (r.0, record m' { db = r.1 })))

-- `self.handles.lock_owner(fh) or self._lock_owner()`: an owner 0 counts as none.
abbrev pub owner_or : Caller → Option ℕ → ℕ
owner_or caller none = caller_lock_owner caller
owner_or caller (some owner) = if owner == 0 then caller_lock_owner caller else owner

-- `_lock_inode`, for a `lock` that has its `l_pid`.
unfoldable pub lock_node : Caller → Fh → Cmd → Flock → Mount → Node → Result (Option Flock × Mount)
lock_node caller fh cmd lock m node =
    raise_if (not (is_file node.inode.kind)) Error.eisdir
    >> (Locks.apply node.id (owner_or caller (Handles.lock_owner fh m.handles)) lock.l_pid cmd lock
          m.locks
        >>= λ r. ok (r.0, record m { locks = r.1 }))

unfoldable pub lock_inode : Caller → ℕ → Fh → Cmd → Flock → Mount → Outcome (Option Flock)
lock_inode caller ino fh cmd lock m =
    transaction m (file_node_from_ino_or_fh ino fh m >>= lock_node caller fh cmd lock m)

-- LOCK_UN is bit 3 of `op`, LOCK_EX bit 1 and LOCK_NB bit 2.
unfoldable pub flock : Caller → ℕ → Fh → ℕ → Mount → Outcome (Option Flock)
flock caller ino fh op m =
    let lock_type =
      if has_bit0 (op / 8)
      then LockType.unlck
      else if has_bit0 (op / 2)
      then LockType.wrlck
      else LockType.rdlck in
    lock_inode caller ino fh (if has_bit0 (op / 4) then Cmd.setlk else Cmd.setlkw)
      (record { l_type = lock_type; l_start = 0; l_len = 0; l_pid = 0 }) m
