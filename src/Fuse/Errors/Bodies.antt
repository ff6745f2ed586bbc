-- ===== src/Fuse/Errors/Bodies.antt =====
-- inode_fuse.py: the bodies of the transactions raise nothing but an errno on a sound database.
use ztierfs.Common.{
  ℕ, ◌≡◌, refl, ap, Bool, true, false, not, Option, none, some, ok, Error, raise_if, or_raise,
  is_some, arith, Option-cases, inl, inr,
}
use ztierfs.Common.Bytes.{Bytes}
use ztierfs.Common.Utf8.{encode_text}
use ztierfs.Common.Dict.{lookup, lookup-modify}
use ztierfs.Handles.{HandleTable, Kind}
use ztierfs.Access.{Caller, wx_ok, require_access}
use ztierfs.Metadata.Schema.{Db, Name, name_ok, target_ok}
use ztierfs.Metadata.Entries.{find_entry}
use ztierfs.Metadata.Entries.Laws.{same_key_refl}
use ztierfs.Metadata.Namespace.{Node, is_dir, child, insert_node}
use ztierfs.Metadata.Namespace.Tree.{IsTree}
use ztierfs.Metadata.Namespace.Growing.{insert_node_lem, linked, with_link, link_node_lem}
use ztierfs.Fuse.{node_by_ino}
use ztierfs.Fuse.Removing.{IsSound, remove_entry_node_lem}
use ztierfs.Fuse.Changes.{make_node, encode_target, link_inode, check_removable, remove_child_inode}
use ztierfs.Fuse.Changes.Links.{child_found, node_by_ino-kind, or_raise-eq_ok}
use ztierfs.Fuse.Changes.Files.{removable-leaf}
use ztierfs.Fuse.Changes.Replacing.{free_name}
use ztierfs.Fuse.Errors.{
  IsPosix, bind-IsPosix, raise_if-IsPosix, or_raise-IsPosix, node_by_ino-IsPosix,
  require_access-IsPosix, encode_text-IsPosix, IsText, IsNew,
}

-- An inode is made at a name that is free.
pub insert_node-IsPosix :
    (p : ℕ) (n : Name) (kind : Kind) (mode uid gid now : ℕ) (target : Option Bytes) (db : Db)
    → IsTree db
    → is_some (lookup p db.inodes) ≡ true
    → child p n db ≡ none
    → name_ok n ≡ true
    → target_ok kind target ≡ true
    → IsPosix (insert_node p n kind mode uid gid now target db)
insert_node-IsPosix p n kind mode uid gid now target db t there free named targeted =
    rw
      (insert_node_lem p n kind mode uid gid now target db there (free_name p n db t free) named
        targeted)
      tt

no_child :
    (found : Option Node) (u : Unit {0})
    → raise_if (is_some found) Error.eexist ≡ ok u
    → found ≡ none
no_child none u h = refl
no_child (some node) u h = cc

-- The target of a symbolic link is UTF-8.
abbrev pub IsTarget : Option Bytes → Type 0
IsTarget none = Unit
IsTarget (some target) = IsText target

encode_target-IsPosix : (target : Option Bytes) → IsTarget target → IsPosix (encode_target target)
encode_target-IsPosix none h = tt
encode_target-IsPosix (some target) h = encode_text-IsPosix target h

pub make_node-IsPosix :
    (caller : Caller) (parent : ℕ) (name : Name) (kind : Kind) (mode : ℕ) (target : Option Bytes)
    (now : ℕ) (db : Db)
    → IsSound db
    → IsNew name
    → IsTarget target
    → target_ok kind target ≡ true
    → IsPosix (make_node caller parent name kind mode target now db)
unfolding make_node
make_node-IsPosix caller parent name kind mode target now db s named text targeted =
    bind-IsPosix (node_by_ino parent db) _ (node_by_ino-IsPosix parent db) (λ parent_node found.
      bind-IsPosix (require_access caller (some parent_node.inode) wx_ok) _
        (require_access-IsPosix caller parent_node.inode wx_ok)
        (λ _ _. bind-IsPosix (encode_text name) _ (encode_text-IsPosix name named.1) (λ _ _.
          bind-IsPosix (raise_if (is_some (child parent name db)) Error.eexist) _
            (raise_if-IsPosix _ Error.eexist refl)
            (λ u free.
              bind-IsPosix (encode_target target) _ (encode_target-IsPosix target text) (λ _ _.
                bind-IsPosix (insert_node parent name kind mode caller.uid caller.gid now target db)
                  _
                  (insert_node-IsPosix parent name kind mode caller.uid caller.gid now target db
                    s.tree (ap is_some (node_by_ino-kind parent db parent_node found))
                    (no_child (child parent name db) u free) named.0 targeted)
                  (λ r _.
                    bind-IsPosix (node_by_ino r.0 r.1) _ (node_by_ino-IsPosix r.0 r.1)
                      (λ node _. tt)))))))

linked_child :
    (p : ℕ) (n : Name) (i now : ℕ) (db : Db)
    → is_some (lookup i db.inodes) ≡ true
    → IsPosix (or_raise (child p n (with_link p n i now db)) Error.runtime)
unfolding child
linked_child p n i now db there = elim (Option-cases (lookup i db.inodes)) [
  | inl gone ↦ absurd (ground (arith, gone, there))
  | inr (node, found) ↦
      let at : lookup i (with_link p n i now db).inodes ≡ some (linked now node) =
        ground (arith, found, lookup-modify i i (linked now) db.inodes) in
      let here : find_entry p n (with_link p n i now db).dir_entries ≡ some i =
        ground (arith, same_key_refl p n) in
      rw (here, at) tt
]

pub link_inode-IsPosix :
    (caller : Caller) (ino parent : ℕ) (name : Name) (now : ℕ) (db : Db)
    → IsSound db
    → IsNew name
    → IsPosix (link_inode caller ino parent name now db)
unfolding link_inode
link_inode-IsPosix caller ino parent name now db s named =
    bind-IsPosix (node_by_ino ino db) _ (node_by_ino-IsPosix ino db) (λ source found.
      bind-IsPosix (raise_if (is_dir source.inode.kind) Error.eperm) _
        (raise_if-IsPosix _ Error.eperm refl)
        (λ _ _.
          bind-IsPosix (node_by_ino parent db) _ (node_by_ino-IsPosix parent db)
            (λ parent_node above.
              bind-IsPosix (require_access caller (some parent_node.inode) wx_ok) _
                (require_access-IsPosix caller parent_node.inode wx_ok)
                (λ _ _. bind-IsPosix (encode_text name) _ (encode_text-IsPosix name named.1) (λ _ _.
                  bind-IsPosix (raise_if (is_some (child parent name db)) Error.eexist) _
                    (raise_if-IsPosix _ Error.eexist refl)
                    (λ u free.
                      let there = ap is_some (node_by_ino-kind ino db source found) in
                      let done =
                        link_node_lem parent name ino now db
                          (ap is_some (node_by_ino-kind parent db parent_node above)) there
                          (free_name parent name db s.tree (no_child (child parent name db) u free))
                          named.0 in
                      rw done (
                        bind-IsPosix
                          (or_raise (child parent name (with_link parent name ino now db))
                            Error.runtime)
                          _ (linked_child parent name ino now db there) (λ node _. tt))))))))

check_removable-IsPosix :
    (want_dir : Bool) (node : Node) (db : Db) → IsPosix (check_removable want_dir node db)
unfolding check_removable
check_removable-IsPosix true node db =
    bind-IsPosix (raise_if (not (is_dir node.inode.kind)) Error.enotdir) _
      (raise_if-IsPosix _ Error.enotdir refl) (λ _ _. raise_if-IsPosix _ Error.enotempty refl)
check_removable-IsPosix false node db = raise_if-IsPosix _ Error.eisdir refl

pub remove_child_inode-IsPosix :
    (caller : Caller) (parent : ℕ) (name : Name) (want_dir : Bool) (now : ℕ) (handles : HandleTable)
    (db : Db)
    → IsSound db
    → IsText name
    → IsPosix (remove_child_inode caller parent name want_dir now handles db)
unfolding remove_child_inode
remove_child_inode-IsPosix caller parent name want_dir now handles db s text =
    bind-IsPosix (node_by_ino parent db) _ (node_by_ino-IsPosix parent db) (λ parent_node _.
      bind-IsPosix (require_access caller (some parent_node.inode) wx_ok) _
        (require_access-IsPosix caller parent_node.inode wx_ok)
        (λ _ _. bind-IsPosix (encode_text name) _ (encode_text-IsPosix name text) (λ _ _.
          bind-IsPosix (or_raise (child parent name db) Error.enoent) _
            (or_raise-IsPosix _ Error.enoent refl)
            (λ node got.
              let (found, there) =
                child_found parent name db node
                  (or_raise-eq_ok (child parent name db) Error.enoent node got) in
              bind-IsPosix (check_removable want_dir node db) _
                (check_removable-IsPosix want_dir node db)
                (λ u removable.
                  let (db', done, taken) =
                    remove_entry_node_lem parent name node now handles db s found there
                      (removable-leaf want_dir node db u s.tree there removable) in
                  rw done tt)))))
