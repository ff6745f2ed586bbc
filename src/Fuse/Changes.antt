-- ===== src/Fuse/Changes.antt =====
-- inode_fuse.py: the callbacks that change the directories.
pub mod Links
pub mod Files
pub mod Replacing
pub mod Renaming
use ztierfs.Common.{
  ℕ, ◌+◌, ◌*◌, ◌/◌, ◌%◌, Bool, true, false, not, ◌&&◌, ◌||◌, Option, none, some, List, [], ◌∷◌, ltb,
  ◌==◌, if◌then◌else◌, Result, ok, err, Error, ◌>>=◌, ◌>>◌, raise_if, or_raise, is_some,
}
use ztierfs.Common.Bytes.{Bytes}
use ztierfs.Common.Utf8.{is_utf8, encode_text}
use ztierfs.Handles.{HandleTable, Kind}
use ztierfs.Handles
use ztierfs.Access.{
  Caller, OpenFlags, wx_ok, require_access, require_open_access, caller_lock_owner,
}
use ztierfs.Metadata.Schema.{Inode, Db, Name}
use ztierfs.Metadata.Entries.{has_children}
use ztierfs.Metadata.Namespace.{
  Node, is_dir, is_file, child, insert_node, link_node, move_entry, reset_file_node, is_descendant,
}
use ztierfs.Metadata.Trash.{s_ifdir, s_ifreg, s_iflnk}
use ztierfs.Store.Truncating.{remove_file_chunks}
use ztierfs.Fuse.{
  Mount, Outcome, transaction, after_trash, node_by_ino, handle_snapshot, EntryReply,
  entry_from_node, remove_entry_node,
}

-- `mode & 0o7777`
abbrev pub permission_bits : ℕ → ℕ
permission_bits mode = mode % 4096

-- `symlink_target.encode()`, with which `insert_node` begins.
abbrev pub encode_target : Option Bytes → Result (Unit {0})
encode_target none = ok tt
encode_target (some target) = encode_text target

-- A new inode at a name of a directory: the common part of mkdir, mknod and symlink. A query with a name
-- that is no UTF-8 raises UnicodeEncodeError.
unfoldable pub make_node :
    Caller → ℕ → Name → Kind → ℕ → Option Bytes → ℕ → Db → Result (EntryReply × Db)
make_node caller parent name kind mode target now db = do
  parent_node ← node_by_ino parent db
  require_access caller (some parent_node.inode) wx_ok
  encode_text name
  raise_if (is_some (child parent name db)) Error.eexist
  encode_target target
  r ← insert_node parent name kind mode caller.uid caller.gid now target db
  node ← node_by_ino r.0 r.1
  ok (entry_from_node name node r.0 r.1, r.1)

-- A body over the database, as the transaction of a callback.
abbrev pub on_db : {Reply : Type 0} → Mount → Result (Reply × Db) → Outcome Reply
on_db m result = transaction m (result >>= λ r. ok (r.0, record m { db = r.1 }))

unfoldable pub mkdir : Caller → ℕ → Name → ℕ → ℕ → Mount → Outcome EntryReply
mkdir caller parent name mode now m = after_trash caller now m (λ m'.
    on_db m'
      (make_node caller parent name Kind.dir (s_ifdir + permission_bits mode) none now m'.db))

-- The test of `S_ISREG(mode)` comes first.
unfoldable pub mknod : Caller → ℕ → Name → ℕ → ℕ → Mount → Outcome EntryReply
mknod caller parent name mode now m =
    if mode / 4096 % 16 == 8
    then after_trash caller now m (λ m'.
      on_db m'
        (make_node caller parent name Kind.file (s_ifreg + permission_bits mode) none now m'.db))
    else (m, err Error.enotsup)

unfoldable pub symlink : Caller → Bytes → ℕ → Name → ℕ → Mount → Outcome EntryReply
symlink caller target parent name now m = after_trash caller now m (λ m'.
    on_db m' (make_node caller parent name Kind.symlink (s_iflnk + 511) (some target) now m'.db))

unfoldable pub link_inode : Caller → ℕ → ℕ → Name → ℕ → Db → Result (EntryReply × Db)
link_inode caller ino new_parent new_name now db = do
  source ← node_by_ino ino db
  raise_if (is_dir source.inode.kind) Error.eperm
  parent_node ← node_by_ino new_parent db
  require_access caller (some parent_node.inode) wx_ok
  encode_text new_name
  raise_if (is_some (child new_parent new_name db)) Error.eexist
  db' ← link_node new_parent new_name ino now db
  node ← or_raise (child new_parent new_name db') Error.runtime
  ok (entry_from_node new_name node ino db', db')

unfoldable pub link : Caller → ℕ → ℕ → Name → ℕ → Mount → Outcome EntryReply
link caller ino new_parent new_name now m =
    after_trash caller now m (λ m'. on_db m' (link_inode caller ino new_parent new_name now m'.db))

-- The guards of `_remove_child_inode` on what was found.
unfoldable pub check_removable : Bool → Node → Db → Result (Unit {0})
check_removable want_dir node db =
    if want_dir
    then raise_if (not (is_dir node.inode.kind)) Error.enotdir
      >> raise_if (has_children node.id db.dir_entries) Error.enotempty
    else raise_if (is_dir node.inode.kind) Error.eisdir

unfoldable pub remove_child_inode :
    Caller → ℕ → Name → Bool → ℕ → HandleTable → Db → Result (Unit {0} × Db)
remove_child_inode caller parent name want_dir now handles db = do
  parent_node ← node_by_ino parent db
  require_access caller (some parent_node.inode) wx_ok
  encode_text name
  node ← or_raise (child parent name db) Error.enoent
  check_removable want_dir node db
  db' ← remove_entry_node parent name node now handles db
  ok (tt, db')

unfoldable pub unlink : Caller → ℕ → Name → ℕ → Mount → Outcome (Unit {0})
unlink caller parent name now m =
    after_trash caller now m
      (λ m'. on_db m' (remove_child_inode caller parent name false now m'.handles m'.db))

unfoldable pub rmdir : Caller → ℕ → Name → ℕ → Mount → Outcome (Unit {0})
rmdir caller parent name now m =
    after_trash caller now m
      (λ m'. on_db m' (remove_child_inode caller parent name true now m'.handles m'.db))

-- `is_descendant`, whose loop always ends in a tree.
unfoldable pub refuse_descendant : ℕ → Node → Db → Result (Unit {0})
refuse_descendant new_parent source db =
    if is_dir source.inode.kind
    then (elim (is_descendant new_parent source.id db) [
      | none ↦ err Error.runtime
      | some answer ↦ raise_if answer Error.einval
    ])
    else ok tt

-- What may be replaced by the source: an inode of its sort, and no directory with entries.
unfoldable pub check_replaceable : Node → Node → Db → Result (Unit {0})
check_replaceable source target db =
    raise_if (is_dir target.inode.kind && not (is_dir source.inode.kind)) Error.eisdir
    >> (raise_if (not (is_dir target.inode.kind) && is_dir source.inode.kind) Error.enotdir
        >> raise_if (is_dir target.inode.kind && has_children target.id db.dir_entries)
            Error.enotempty)

-- The end of `_rename_inode`, by what is at the new name; `noreplace` is the flag.
unfoldable pub replace_by :
    ℕ → Name → Node → ℕ → Name → Bool → ℕ → HandleTable → Option Node → Db → Result Db
replace_by parent name source new_parent new_name noreplace now handles none db =
    move_entry parent name new_parent new_name source.id now db
replace_by parent name source new_parent new_name noreplace now handles (some target) db =
    if noreplace
    then err Error.eexist
    else if target.id == source.id
    then ok db
    else (check_replaceable source target db
        >> (remove_entry_node new_parent new_name target now handles db >>= λ db'.
            move_entry parent name new_parent new_name source.id now db'))

unfoldable pub move_over : ℕ → Name → Node → ℕ → Name → Bool → ℕ → HandleTable → Db → Result Db
move_over parent name source new_parent new_name noreplace now handles db =
    replace_by parent name source new_parent new_name noreplace now handles
      (child new_parent new_name db) db

-- `_rename_inode` up to the query for the new name.
unfoldable pub rename_source : Caller → ℕ → Name → ℕ → Db → Result Node
rename_source caller parent name new_parent db = do
  source ← or_raise (child parent name db) Error.enoent
  old_parent ← node_by_ino parent db
  target_parent ← node_by_ino new_parent db
  require_access caller (some old_parent.inode) wx_ok
  require_access caller (some target_parent.inode) wx_ok
  refuse_descendant new_parent source db
  ok source

-- `_rename_inode` with names that are UTF-8.
unfoldable pub rename_inode :
    Caller → ℕ → Name → ℕ → Name → Bool → ℕ → HandleTable → Db → Result (Unit {0} × Db)
rename_inode caller parent name new_parent new_name noreplace now handles db = do
  source ← or_raise (child parent name db) Error.enoent
  old_parent ← node_by_ino parent db
  target_parent ← node_by_ino new_parent db
  require_access caller (some old_parent.inode) wx_ok
  require_access caller (some target_parent.inode) wx_ok
  refuse_descendant new_parent source db
  db' ← move_over parent name source new_parent new_name noreplace now handles db
  ok (tt, db')

-- `_rename_inode`: the query for a name that is no UTF-8 raises UnicodeEncodeError.
unfoldable pub rename_names :
    Caller → ℕ → Name → ℕ → Name → Bool → ℕ → HandleTable → Db → Result (Unit {0} × Db)
rename_names caller parent name new_parent new_name noreplace now handles db =
    encode_text name
    >> (if is_utf8 new_name
        then rename_inode caller parent name new_parent new_name noreplace now handles db
        else (rename_source caller parent name new_parent db >>= λ source. err Error.unicode))

-- RENAME_NOREPLACE is bit 0 of the flags, and the other bits are refused.
unfoldable pub rename : Caller → ℕ → Name → ℕ → Name → ℕ → ℕ → Mount → Outcome (Unit {0})
rename caller parent name new_parent new_name flags now m =
    if ltb 1 flags
    then (m, err Error.einval)
    else after_trash caller now m (λ m'.
      on_db m'
        (rename_names caller parent name new_parent new_name (flags == 1) now m'.handles m'.db))

-- O_TRUNC on a file that is there.
unfoldable pub empty_existing : Bool → ℕ → ℕ → Db → Result Db
empty_existing false i now db = ok db
empty_existing true i now db =
    remove_file_chunks i 0 now db >>= λ db'. ok (reset_file_node i now db')

-- The file of `create`, by what is at its name: a new one, or the one that is there, emptied if asked.
unfoldable pub existing_or_new :
    Caller → ℕ → Name → ℕ → OpenFlags → ℕ → Option Node → Db → Result (Node × Db)
existing_or_new caller parent name mode flags now none db = do
  r ←
      insert_node parent name Kind.file (s_ifreg + permission_bits mode) caller.uid caller.gid now
        none db
  node ← node_by_ino r.0 r.1
  ok (node, r.1)
existing_or_new caller parent name mode flags now (some existing) db = do
  raise_if flags.excl Error.eexist
  raise_if (not (is_file existing.inode.kind)) Error.eisdir
  require_open_access caller existing.inode flags
  db' ← empty_existing flags.trunc existing.id now db
  node ← node_by_ino existing.id db'
  ok (node, db')

unfoldable pub create_inode : Caller → ℕ → Name → ℕ → OpenFlags → ℕ → Db → Result (Node × Db)
create_inode caller parent name mode flags now db = do
  parent_node ← node_by_ino parent db
  require_access caller (some parent_node.inode) wx_ok
  encode_text name
  existing_or_new caller parent name mode flags now (child parent name db) db

unfoldable pub create : Caller → ℕ → Name → ℕ → OpenFlags → ℕ → Mount → Outcome (EntryReply × ℕ)
create caller parent name mode flags now m = after_trash caller now m (λ m'. transaction m' (
    create_inode caller parent name mode flags now m'.db >>= λ r.
    let opened =
      Handles.new r.0.id (some (caller_lock_owner caller)) (some (handle_snapshot r.0))
        m'.handles in
    ok (
      (entry_from_node name r.0 r.0.id r.1, opened.0),
      record m' { db = r.1; handles = opened.1 },
    )))
