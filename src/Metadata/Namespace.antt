-- ===== src/Metadata/Namespace.antt =====
-- metadata/namespace.py: `NamespaceMixin`. The times of day are arguments.
pub mod Rooted
pub mod Tree
pub mod Growing
pub mod Shrinking
pub mod Moving
pub mod Climbing
use mathlib.Core.Option
use ztierfs.Common.{
  ℕ, zero, suc, ◌+◌, ◌-◌, ◌/◌, ◌%◌, Bool, true, false, not, ◌&&◌, ◌||◌, Option, none, some, List,
  [], ◌∷◌, ◌++◌, length, ltb, ◌==◌, if◌then◌else◌, keep, total, max, Result, ok, err, Error, ◌>>=◌,
  ◌>>◌, raise_if, or_raise, is_some,
}
use ztierfs.Common.Dict.{Dict, lookup, insert, erase, modify}
use ztierfs.Common.Bytes.{Bytes}
use ztierfs.Handles.{Kind}
use ztierfs.Metadata.Schema.{Inode, Db, Entry, Name, name_ok, target_ok}
use ztierfs.Metadata.Entries.{
  find_entry, erase_entry, links, has_children, parent_of, first_entry, insert_entry, update_entry,
}

-- A row of `inodes` with the columns `parent_id` and `name` of an entry, if one was joined.
pub record Node : Type 0 where
  pub id : ℕ
  pub inode : Inode
  pub parent_id : Option ℕ
  pub name : Option Name

abbrev pub is_dir : Kind → Bool
is_dir Kind.dir = true
is_dir Kind.file = false
is_dir Kind.symlink = false

abbrev pub is_file : Kind → Bool
is_file Kind.file = true
is_file Kind.dir = false
is_file Kind.symlink = false

abbrev pub entry_node : ℕ → Name → Option ℕ → Db → Option Node
entry_node parent name none db = none
entry_node parent name (some i) db =
    Option.map
      (λ (node : Inode). record { id = i; inode = node; parent_id = some parent; name = some name })
      (lookup i db.inodes)

unfoldable pub child : ℕ → Name → Db → Option Node
child parent name db = entry_node parent name (find_entry parent name db.dir_entries) db

unfoldable pub node_by_id : ℕ → Db → Option Node
node_by_id i db =
    Option.map
      (λ (node : Inode). record {
        id = i;
        inode = node;
        parent_id = Option.map (λ e. e.parent_id) (first_entry i db.dir_entries);
        name = Option.map (λ e. e.name) (first_entry i db.dir_entries);
      })
      (lookup i db.inodes)

unfoldable pub inode_by_id : ℕ → Db → Option Node
inode_by_id i db =
    Option.map (λ (node : Inode). record { id = i; inode = node; parent_id = none; name = none })
      (lookup i db.inodes)

-- The inode is there and is a directory.
abbrev pub dir_inode : Option Inode → Bool
dir_inode none = false
dir_inode (some node) = is_dir node.kind

unfoldable pub child_dir_count : ℕ → Db → ℕ
child_dir_count parent db =
    total (λ e. if e.parent_id == parent && dir_inode (lookup e.inode_id db.inodes) then 1 else 0)
      db.dir_entries

-- The rest of the path from a node on: `lookup_node` after `split_path`.
unfoldable pub lookup_parts : Option Node → List Name → Db → Option Node
lookup_parts row [] db = row
lookup_parts none (part ∷ parts) db = none
lookup_parts (some node) (part ∷ parts) db =
    lookup_parts (if is_dir node.inode.kind then child node.id part db else none) parts db

unfoldable pub lookup_node : List Name → Db → Option Node
lookup_node parts db = lookup_parts (node_by_id 1 db) parts db

unfoldable pub get_node : List Name → Db → Result Node
get_node parts db = or_raise (lookup_node parts db) Error.enoent

-- `parts[:-1]` and `parts[-1]`
abbrev pub but_last : Name → List Name → List Name
but_last part [] = []
but_last part (next ∷ parts) = part ∷ but_last next parts

abbrev pub last_of : Name → List Name → Name
last_of part [] = part
last_of part (next ∷ parts) = last_of next parts

unfoldable pub parent_and_name : List Name → Db → Result (Node × Name)
parent_and_name [] db = err Error.einval
parent_and_name (part ∷ parts) db = elim (lookup_node (but_last part parts) db) [
  | none ↦ err Error.enoent
  | some parent ↦
      if is_dir parent.inode.kind then ok (parent, last_of part parts) else err Error.enotdir
]

-- SQLite's id for a new row: one more than the largest in use.
abbrev pub last_inode : Dict Inode → ℕ
last_inode [] = 0
last_inode ((i, node) ∷ inodes) = max i (last_inode inodes)

abbrev pub target_length : Option Bytes → ℕ
target_length none = 0
target_length (some target) = length target

-- `INSERT INTO inodes`
unfoldable pub insert_inode : Inode → Db → Result (ℕ × Db)
insert_inode node db =
    let i = last_inode db.inodes + 1 in
    if target_ok node.kind node.symlink_target
    then ok (i, record db { inodes = insert i node db.inodes })
    else err Error.integrity

unfoldable pub new_inode : Kind → ℕ → ℕ → ℕ → ℕ → Option Bytes → Inode
new_inode kind mode uid gid now symlink_target = record {
  kind = kind;
  mode = mode;
  uid = uid;
  gid = gid;
  size = target_length symlink_target;
  symlink_target = symlink_target;
  nlink = 1;
  atime_ns = now;
  mtime_ns = now;
  ctime_ns = now;
}

unfoldable pub insert_node : ℕ → Name → Kind → ℕ → ℕ → ℕ → ℕ → Option Bytes → Db → Result (ℕ × Db)
insert_node parent name kind mode uid gid now symlink_target db = do
  r ← insert_inode (new_inode kind mode uid gid now symlink_target) db
  db' ← insert_entry parent name r.0 r.1
  ok (r.0, db')

-- `UPDATE inodes SET ctime_ns = now WHERE id = inode_id`
unfoldable pub touch_ctime : ℕ → ℕ → Db → Db
touch_ctime i now db = record db {
  inodes = modify i (λ node. record node { ctime_ns = now }) db.inodes;
}

unfoldable pub link_node : ℕ → Name → ℕ → ℕ → Db → Result Db
link_node parent name i now db = do
  db' ← insert_entry parent name i db
  ok (record db' {
    inodes = modify i (λ node. record node { nlink = node.nlink + 1; ctime_ns = now }) db'.inodes;
  })

unfoldable pub reset_file_node : ℕ → ℕ → Db → Db
reset_file_node i now db = record db {
  inodes = modify i (λ node. record node { size = 0; mtime_ns = now; ctime_ns = now }) db.inodes;
}

unfoldable pub touch_node_atime : ℕ → ℕ → Db → Db
touch_node_atime i now db = record db {
  inodes = modify i (λ node. record node { atime_ns = now }) db.inodes;
}

unfoldable pub set_node_size : ℕ → ℕ → ℕ → Db → Db
set_node_size i size now db = record db {
  inodes = modify i (λ node. record node { size = size; mtime_ns = now; ctime_ns = now }) db.inodes;
}

-- `DELETE FROM inodes`: refused while an entry refers to the inode; the entries below it, its chunks
-- and its attributes go with it.
unfoldable pub delete_node : ℕ → Db → Result Db
delete_node i db =
    if is_some (lookup i db.inodes)
    then (if links i db.dir_entries == 0
        then ok (record db {
          inodes = erase i db.inodes;
          dir_entries = keep (λ e. not (e.parent_id == i)) db.dir_entries;
          file_chunks = keep (λ r. not (r.file_id == i)) db.file_chunks;
          inode_xattrs = keep (λ x. not (x.inode_id == i)) db.inode_xattrs;
        })
        else err Error.integrity)
    else ok db

abbrev pub nlink_of : Option Inode → ℕ
nlink_of none = 0
nlink_of (some node) = node.nlink

-- The CHECK on `nlink` is broken where an inode without links loses one.
abbrev pub has_no_link : Option Inode → Bool
has_no_link none = false
has_no_link (some node) = node.nlink == 0

-- `remove_entry`, with the links that are left.
unfoldable pub remove_entry : ℕ → Name → ℕ → ℕ → Db → Result (ℕ × Db)
remove_entry parent name i now db =
    let inodes =
      modify i (λ node. record node { nlink = node.nlink - 1; ctime_ns = now }) db.inodes in
    if has_no_link (lookup i db.inodes)
    then err Error.integrity
    else ok (
      nlink_of (lookup i inodes),
      record db { inodes = inodes; dir_entries = erase_entry parent name db.dir_entries },
    )

unfoldable pub move_entry : ℕ → Name → ℕ → Name → ℕ → ℕ → Db → Result Db
move_entry parent name new_parent new_name i now db = do
  db' ← update_entry parent name new_parent new_name i db
  ok (touch_ctime i now db')

unfoldable pub set_node_mode : ℕ → ℕ → ℕ → Db → Db
set_node_mode i mode now db = record db {
  inodes = modify i (λ node. record node { mode = mode; ctime_ns = now }) db.inodes;
}

unfoldable pub set_node_owner : ℕ → ℕ → ℕ → ℕ → Db → Db
set_node_owner i uid gid now db = record db {
  inodes = modify i (λ node. record node { uid = uid; gid = gid; ctime_ns = now }) db.inodes;
}

unfoldable pub set_node_times : ℕ → ℕ → ℕ → ℕ → Db → Db
set_node_times i atime mtime now db = record db {
  inodes =
      modify i (λ node. record node { atime_ns = atime; mtime_ns = mtime; ctime_ns = now })
        db.inodes;
}

-- The loop of `is_descendant`; `none` is a loop that has not ended yet.
unfoldable pub climb : ℕ → ℕ → ℕ → List Entry → Option Bool
climb zero current i es = none
climb (suc fuel) current i es =
    if current == 0
    then some false
    else if current == i
    then some true
    else (elim (parent_of current es) [ none ↦ some false | some parent ↦ climb fuel parent i es ])

-- One round for each entry, and one more.
unfoldable pub is_descendant : ℕ → ℕ → Db → Option Bool
is_descendant parent i db = climb (length db.dir_entries + 1) parent i db.dir_entries
