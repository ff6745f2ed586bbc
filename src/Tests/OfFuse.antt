-- ===== src/Tests/OfFuse.antt =====
-- inode_fuse.py: a root with a directory and a file, which has a second name in the directory, beside
-- an empty directory and another file.
use ztierfs.Common.{
  not, ◌&&◌, ◌>>◌, ℕ, ◌≡◌, refl, Bool, true, false, none, some, [], ◌∷◌, ok, err, Error, ◌==◌, ◌⊎◌,
  ◌↔◌, inl, inr, if◌then◌else◌, arith, Bool-cases,
}
use ztierfs.Handles.{int, Kind, HandleTable}
use ztierfs.Handles
use ztierfs.Handles.Counts.{init-IsValid, new-IsValid}
use ztierfs.Common.Utf8.{is_utf8}
use ztierfs.Access.{Caller, r_ok, require_owner, require_access}
use ztierfs.Access.Permissions.{known_groups, posix_grants, is_bare_search, require_access_lem}
use ztierfs.Metadata.Schema.{Inode, Db, Name, name_ok, row_ok}
use ztierfs.Metadata.Chunks.Mapping.{chunk_at}
use ztierfs.Metadata.Deltas.{IsConsistent}
use ztierfs.Metadata.Entries.{find_entry}
use ztierfs.Metadata.Namespace.{Node, is_descendant, climb}
use ztierfs.Metadata.Namespace.Rooted.{root, down}
use ztierfs.Metadata.Namespace.Tree.{IsTree}
use ztierfs.Metadata.Namespace.Climbing.{Within, is_descendant_lem}
use ztierfs.Fuse.{Mount, remove_entry_node}
use ztierfs.Fuse.Removing.{IsSound, Taken, remove_entry_node_lem}
use ztierfs.Fuse.Serving.{
  serve, IsReached, IsServing, mounted, served, mkdir_at, unlink_at, rename_to,
}
use ztierfs.Fuse.Serving.Runs.{Run-IsServing}
use ztierfs.Fuse.Errors.{IsPosix, response}
use ztierfs.Fuse.Errors.Answers.{response-IsPosix}
use ztierfs.Fuse.Content.{NewAttrs, set_mode, file_node_for_read_write}
use ztierfs.Fuse.Content.Permitted.{remoded, as_inode, set_mode_lem}
use ztierfs.Common.Dict.{lookup}
use ztierfs.Tests.{node, hot_block}

abbrev folder : Inode
folder = record node { kind = Kind.dir; mode = 16877; size = 0 }

abbrev a_name : Name
a_name = 97 ∷ []

abbrev f_name : Name
f_name = 102 ∷ []

abbrev g_name : Name
g_name = 103 ∷ []

abbrev h_name : Name
h_name = 104 ∷ []

abbrev tree : Db
tree = record {
  inodes =
      (1, folder)
      ∷ (2, folder)
      ∷ (3, record node { size = 4; nlink = 2 })
      ∷ (4, folder)
      ∷ (5, record node { size = 0 })
      ∷ [];
  dir_entries =
      record { parent_id = 1; name = a_name; inode_id = 2 }
      ∷ record { parent_id = 1; name = f_name; inode_id = 3 }
      ∷ record { parent_id = 2; name = g_name; inode_id = 3 }
      ∷ record { parent_id = 2; name = a_name; inode_id = 4 }
      ∷ record { parent_id = 2; name = h_name; inode_id = 5 }
      ∷ [];
  inode_xattrs = [];
  blocks = (10, record hot_block { refcount = 1 }) ∷ [];
  block_payloads = [];
  file_chunks = record { file_id = 3; chunk_index = 0; hash = 10; size = 4 } ∷ [];
  pending_deletions = [];
}

tree-IsConsistent : IsConsistent tree
unfolding row_ok
tree-IsConsistent = record { counts = λ d. ground arith; rows = λ d b h. ground (arith, h) }

parents : (p : ℕ) (n : Name) (i : ℕ) → find_entry p n tree.dir_entries ≡ some i → (p ≡ 1) ⊎ (p ≡ 2)
parents p n i h = elim (Bool-cases (p == 1)) [
  | inl e ↦ inl (ground (arith, e))
  | inr x ↦ elim (Bool-cases (p == 2)) [
    | inl e ↦ inr (ground (arith, e))
    | inr y ↦ absurd (ground (arith, x, y, h))
  ]
]

root-IsReached : IsReached tree 1
root-IsReached = record { dir = refl; rooted = root refl }

folder-IsReached : IsReached tree 2
folder-IsReached = record { dir = refl; rooted = down {d = 2} 1 a_name refl (root refl) }

tree-IsTree : IsTree tree
tree-IsTree = record {
  keyed = ground arith;
  root_dir = refl;
  climbable = record {
    no_zero = refl;
    root_links = refl;
    single = λ i h. ground (arith, h);
    parents = λ p n i h. elim (parents p n i h) [ inl e ↦ rw e refl | inr e ↦ rw e refl ];
  };
  counted = λ i x h other. ground (arith, h, other);
  targets = λ p n i h. ground (arith, h);
  rooted = λ p n i h. elim (parents p n i h) [
    | inl e ↦ rw e root-IsReached.rooted
    | inr e ↦ rw e folder-IsReached.rooted
  ];
}

tree-IsSound : IsSound tree
unfolding chunk_at
tree-IsSound = record {
  tree = tree-IsTree;
  consistent = tree-IsConsistent;
  files = λ f j mapped h. elim (Bool-cases (f == 3)) [
    | inl same ↦ let e : f ≡ 3 = ground (arith, same) in rw e refl
    | inr other ↦ absurd (ground (arith, other, h))
  ];
}

abbrev caller : Caller
caller = record { uid = 501; gid = 20; pid = 77; process_uid = 501; process_groups = [] }

abbrev node_at : ℕ → ℕ → Name → Inode → Node
node_at i p n inode = record { id = i; inode = inode; parent_id = some p; name = some n }

abbrev h_node : Node
h_node = node_at 5 2 h_name (record node { size = 0 })

abbrev f_node : Node
f_node = node_at 3 1 f_name (record node { size = 4; nlink = 2 })

-- The caller owns the folder and may list it and make names in it.
require_access_lem_example : require_access caller (some folder) 7 ≡ (
    if posix_grants caller.uid (known_groups caller) folder 7
      && not (is_bare_search caller folder 7)
    then ok tt
    else err Error.eacces)
require_access_lem_example = require_access_lem caller (some folder) 7

is_descendant_lem_example :
    (answer : Bool) × (is_descendant 2 4 tree ≡ some answer)
    × ((answer ≡ true) ↔ Within tree.dir_entries 4 2)
is_descendant_lem_example = is_descendant_lem 2 4 tree tree-IsTree refl folder-IsReached.rooted

not_below : is_descendant 2 4 tree ≡ some false
unfolding is_descendant climb
not_below = refl

below_root : is_descendant 4 2 tree ≡ some true
unfolding is_descendant climb
below_root = refl

remove_entry_node_lem_example :
    (db' : Db) × (remove_entry_node 2 h_name h_node 9 Handles.init tree ≡ ok db')
    × Taken 2 h_name h_node 9 Handles.init tree db'
remove_entry_node_lem_example =
    remove_entry_node_lem 2 h_name h_node 9 Handles.init tree tree-IsSound refl refl refl

abbrev reached_node : ℕ → Name → Node
reached_node i n = node_at i 1 n folder

abbrev mount : Mount
mount = record { db = tree; handles = Handles.init; locks = []; ensured_trash_uids = [] }

mount-IsServing : IsServing mount
mount-IsServing = record {
  sound = tree-IsSound;
  valid = init-IsValid;
  bound = λ fh i h. ground (arith, h);
}

-- A directory is made, and then a name of the file is taken away.
abbrev after_mkdir : Mount
after_mkdir = serve caller 8 (mkdir_at 2 f_name 493) mount

Run-IsServing_example : IsServing (serve caller 9 (unlink_at 1 f_name) after_mkdir)
Run-IsServing_example =
    Run-IsServing mount (serve caller 9 (unlink_at 1 f_name) after_mkdir)
      (served after_mkdir caller 9 (unlink_at 1 f_name)
        (served mount caller 8 (mkdir_at 2 f_name 493) mounted folder-IsReached) tt)
      mount-IsServing

-- The name of a directory with entries, which `rename` refuses with ENOTEMPTY.
response-IsPosix_example : IsPosix (response caller 9 (rename_to 2 a_name 1 a_name 0) mount)
unfolding name_ok is_utf8
response-IsPosix_example =
    response-IsPosix caller 9 (rename_to 2 a_name 1 a_name 0) mount mount-IsServing root-IsReached
      (refl, (refl, refl))

-- The file is open, and its owner takes all permissions away.
abbrev opened : Mount
opened = record mount { handles = (Handles.new 3 none none Handles.init).1 }

abbrev locked_attrs : NewAttrs
locked_attrs = record {
  st_mode = 0;
  st_uid = 0;
  st_gid = 0;
  st_size = 0;
  st_atime = 0;
  st_mtime = 0;
}

locked : (m : Mount) × (set_mode caller f_node locked_attrs true 9 opened ≡ ok m)
unfolding set_mode require_owner
locked = (_, refl)

bound_handle : lookup 1 opened.handles.handles ≡ some 3
unfolding Handles.new
bound_handle = refl

set_mode_lem_example : file_node_for_read_write caller 3 (int 1) r_ok locked.0 ≡ (
    require_access caller (some (remoded f_node locked_attrs 9 f_node.inode)) r_ok
    >> ok (as_inode 3 (remoded f_node locked_attrs 9 f_node.inode)))
set_mode_lem_example =
    set_mode_lem caller caller f_node locked_attrs 9 1 3 r_ok opened locked.0 f_node.inode
      (new-IsValid 3 none none Handles.init init-IsValid) bound_handle refl locked.1
