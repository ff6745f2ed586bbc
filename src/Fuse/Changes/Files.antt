-- ===== src/Fuse/Changes/Files.antt =====
-- inode_fuse.py: the bodies of create, unlink and rmdir keep the database sound.
use ztierfs.Common.{
  ℕ, ◌+◌, ◌≡◌, refl, ap, ◌∙◌, Bool, true, false, not, none, some, ok, Error, raise_if, or_raise,
  is_some, arith, Bool-cases, Option-cases, inl, inr,
}
use ztierfs.Common.Dict.{lookup, modify}
use ztierfs.Handles.{HandleTable, Kind}
use ztierfs.Common.Utf8.{encode_text}
use ztierfs.Access.{Caller, OpenFlags, wx_ok, require_access, require_open_access}
use ztierfs.Metadata.Trash.{s_ifreg}
use ztierfs.Metadata.Schema.{Inode, Db, Name}
use ztierfs.Metadata.Entries.{has_children}
use ztierfs.Metadata.Namespace.{
  Node, is_file, is_dir, dir_inode, child, insert_node, reset_file_node,
}
use ztierfs.Metadata.Namespace.Rooted.{Rooted}
use ztierfs.Metadata.Namespace.Tree.{IsTree, modify-IsTree}
use ztierfs.Store.Truncating.Removing.{remove_file_chunks_lem}
use ztierfs.Fuse.{node_by_ino}
use ztierfs.Fuse.Removing.{
  IsSound, IsSound-inodes, Removed-IsSound, modify-files, remove_entry_node_lem,
}
use ztierfs.Fuse.Changes.{
  check_removable, remove_child_inode, create_inode, existing_or_new, empty_existing,
  permission_bits,
}
use ztierfs.Fuse.Changes.Links.{
  Keeps, Keeps-bind, KeepsDb, KeepsDb-bind, insert_node-IsSound, child_found, no_children,
  or_raise-eq_ok, raise_if-false,
}

pub removable-leaf :
    (want_dir : Bool) (node : Node) (db : Db) (u : Unit {0})
    → IsTree db
    → lookup node.id db.inodes ≡ some node.inode
    → check_removable want_dir node db ≡ ok u
    → has_children node.id db.dir_entries ≡ false
unfolding check_removable
removable-leaf true node db u t there h = elim (Bool-cases (is_dir node.inode.kind)) [
  | inl dir ↦ ground (arith, dir, h)
  | inr other ↦ absurd (ground (arith, other, h))
]
removable-leaf false node db u t there h =
    no_children node.id db t (ap dir_inode there ∙ raise_if-false _ Error.eisdir u h)

pub remove_child_inode-Keeps :
    (caller : Caller) (parent : ℕ) (name : Name) (want_dir : Bool) (now : ℕ) (handles : HandleTable)
    (db : Db)
    → IsSound db
    → Keeps (remove_child_inode caller parent name want_dir now handles db)
unfolding remove_child_inode
remove_child_inode-Keeps caller parent name want_dir now handles db s =
    Keeps-bind (node_by_ino parent db) _ (λ parent_node _.
      Keeps-bind (require_access caller (some parent_node.inode) wx_ok) _ (λ _ _.
        Keeps-bind (encode_text name) _ (λ _ _.
          Keeps-bind (or_raise (child parent name db) Error.enoent) _ (λ node got.
            let (found, there) =
              child_found parent name db node
                (or_raise-eq_ok (child parent name db) Error.enoent node got) in
            Keeps-bind (check_removable want_dir node db) _ (λ u removable.
              let (db', done, taken) =
                remove_entry_node_lem parent name node now handles db s found there
                  (removable-leaf want_dir node db u s.tree there removable) in
              rw done taken.sound)))))

reset-IsSound : (i now : ℕ) (db : Db) → IsSound db → IsSound (reset_file_node i now db)
unfolding reset_file_node
reset-IsSound i now db s =
    let f = λ (node : Inode). record node { size = 0; mtime_ns = now; ctime_ns = now } in
    IsSound-inodes db (modify i f db.inodes) db.dir_entries s
      (modify-IsTree i f db (λ x. refl) (λ x. refl) s.tree) (modify-files i f db.inodes (λ x. refl))

empty_existing-IsSound :
    (trunc : Bool) (i now : ℕ) (db : Db)
    → IsSound db
    → is_some (lookup i db.inodes) ≡ true
    → KeepsDb (empty_existing trunc i now db)
unfolding empty_existing
empty_existing-IsSound true i now db s there =
    let (db1, made, r) = remove_file_chunks_lem i 0 now db s.consistent there in
    rw made (reset-IsSound i now db1 (Removed-IsSound i 0 db db1 r s))
empty_existing-IsSound false i now db s there = s

pub create_inode-Keeps :
    (caller : Caller) (parent : ℕ) (name : Name) (mode : ℕ) (flags : OpenFlags) (now : ℕ) (db : Db)
    → IsSound db
    → dir_inode (lookup parent db.inodes) ≡ true
    → Rooted db.dir_entries parent
    → Keeps (create_inode caller parent name mode flags now db)
unfolding create_inode existing_or_new
create_inode-Keeps caller parent name mode flags now db s dir rooted =
    Keeps-bind (node_by_ino parent db) _ (λ parent_node _.
      Keeps-bind (require_access caller (some parent_node.inode) wx_ok) _ (λ _ _.
        Keeps-bind (encode_text name) _ (λ _ _. elim (Option-cases (child parent name db)) [
          | inl free ↦ rw free (
              Keeps-bind
                (insert_node parent name Kind.file (s_ifreg + permission_bits mode) caller.uid
                  caller.gid now none db)
                _
                (λ r done. Keeps-bind (node_by_ino r.0 r.1) _ (λ node _.
                  insert_node-IsSound parent name Kind.file (s_ifreg + permission_bits mode)
                    caller.uid caller.gid now none db r s dir rooted done)))
          | inr (existing, got) ↦
              let there = ap is_some (child_found parent name db existing got).1 in
              rw got (
                Keeps-bind (raise_if flags.excl Error.eexist) _ (λ _ _.
                  Keeps-bind (raise_if (not (is_file existing.inode.kind)) Error.eisdir) _ (λ _ _.
                    Keeps-bind (require_open_access caller existing.inode flags) _ (λ _ _.
                      KeepsDb-bind (empty_existing flags.trunc existing.id now db) _
                        (empty_existing-IsSound flags.trunc existing.id now db s there)
                        (λ db' s'. Keeps-bind (node_by_ino existing.id db') _ (λ node _. s'))))))
        ])))
