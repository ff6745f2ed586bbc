-- ===== src/Fuse/Errors/Moves.antt =====
-- inode_fuse.py: the bodies of rename, create, setxattr and removexattr raise nothing but an errno.
use ztierfs.Common.{
  ℕ, ◌+◌, ◌≡◌, refl, sym, ap, Bool, true, false, not, ◌&&◌, Option, none, some, ◌==◌, err, Error,
  raise_if, or_raise, is_some, Bool-cases, inl, inr,
}
use ztierfs.Common.Bytes.{Bytes}
use ztierfs.Common.Utf8.{encode_text}
use ztierfs.Common.Dict.{lookup}
use ztierfs.Handles.{HandleTable, Kind}
use ztierfs.Access.{
  Caller, OpenFlags, wx_ok, w_ok, has_bit0, has_bit1, require_access, require_open_access,
}
use ztierfs.Metadata.Schema.{Db, Name, name_ok}
use ztierfs.Metadata.Entries.{find_entry, erase_entry}
use ztierfs.Metadata.Namespace.{Node, is_dir, is_file, dir_inode, child, insert_node, is_descendant}
use ztierfs.Metadata.Namespace.Rooted.{Rooted}
use ztierfs.Metadata.Namespace.Tree.{IsTree}
use ztierfs.Metadata.Namespace.Climbing.{is_descendant_lem}
use ztierfs.Metadata.Trash.{s_ifreg}
use ztierfs.Store.Truncating.Removing.{remove_file_chunks_lem}
use ztierfs.Fuse.{node_by_ino}
use ztierfs.Fuse.Removing.{IsSound}
use ztierfs.Fuse.Changes.{
  refuse_descendant, check_replaceable, replace_by, move_over, rename_inode, rename_names,
  empty_existing, existing_or_new, create_inode, permission_bits,
}
use ztierfs.Fuse.Changes.Links.{child_found, node_by_ino-kind, or_raise-eq_ok}
use ztierfs.Fuse.Changes.Replacing.{without-Rooted, replaceable-leaf}
use ztierfs.Fuse.Changes.Renaming.{move_over_free, move_over_taken, replace_by_free}
use ztierfs.Fuse.Serving.{IsReached}
use ztierfs.Fuse.Errors.{
  IsPosix, bind-IsPosix, raise_if-IsPosix, or_raise-IsPosix, node_by_ino-IsPosix,
  encode_text-IsPosix, IsText, IsNew, require_access-IsPosix, require_open_access-IsPosix,
}
use ztierfs.Fuse.Errors.Bodies.{insert_node-IsPosix}
use ztierfs.Metadata.Xattrs.{xattr, set_xattr, remove_xattr}
use ztierfs.Fuse.Queries.{set_xattr_inode, remove_xattr_inode}

answered-IsPosix :
    (o : Option Bool) (answer : Bool)
    → o ≡ some answer
    → IsPosix (elim o [ none ↦ err Error.runtime | some a ↦ raise_if a Error.einval ])
answered-IsPosix none answer e = cc
answered-IsPosix (some a) answer e = raise_if-IsPosix a Error.einval refl

refuse_descendant-IsPosix :
    (q : ℕ) (source : Node) (db : Db)
    → IsTree db
    → IsReached db q
    → IsPosix (refuse_descendant q source db)
unfolding refuse_descendant
refuse_descendant-IsPosix q source db t reached = elim (Bool-cases (is_dir source.inode.kind)) [
  | inr other ↦ rw other tt
  | inl folder ↦
      let (answer, e, _) = is_descendant_lem q source.id db t reached.dir reached.rooted in
      rw folder (answered-IsPosix (is_descendant q source.id db) answer e)
]

check_replaceable-IsPosix :
    (source target : Node) (db : Db) → IsPosix (check_replaceable source target db)
unfolding check_replaceable
check_replaceable-IsPosix source target db =
    bind-IsPosix
      (raise_if (is_dir target.inode.kind && not (is_dir source.inode.kind)) Error.eisdir) _
      (raise_if-IsPosix _ Error.eisdir refl)
      (λ _ _.
        bind-IsPosix
          (raise_if (not (is_dir target.inode.kind) && is_dir source.inode.kind) Error.enotdir) _
          (raise_if-IsPosix _ Error.enotdir refl) (λ _ _. raise_if-IsPosix _ Error.enotempty refl))

replace_by-IsPosix :
    (p : ℕ) (n : Name) (source : Node) (q : ℕ) (m : Name) (noreplace : Bool) (now : ℕ)
    (handles : HandleTable) (db : Db)
    → IsSound db
    → find_entry p n db.dir_entries ≡ some source.id
    → dir_inode (lookup q db.inodes) ≡ true
    → Rooted (erase_entry p n db.dir_entries) q
    → name_ok m ≡ true
    → (there : Option Node) → child q m db ≡ there
    → IsPosix (replace_by p n source q m noreplace now handles there db)
unfolding replace_by
replace_by-IsPosix p n source q m noreplace now handles db s found dir rooted named none at =
    let (db', moved, good) =
      move_over_free p n source q m noreplace now handles db s found dir rooted named at in
    rw (sym (replace_by_free p n source q m noreplace now handles db at), moved) tt
replace_by-IsPosix p n source q m true now handles db s found dir rooted named (some target) at =
    refl
replace_by-IsPosix p n source q m false now handles db s found dir rooted named (some target) at =
    elim (Bool-cases (target.id == source.id)) [
      | inl same ↦ rw same tt
      | inr differ ↦ rw differ (
          bind-IsPosix (check_replaceable source target db) _
            (check_replaceable-IsPosix source target db)
            (λ u passed.
              let leaf =
                replaceable-leaf source target db u s.tree (child_found q m db target at).1
                  passed in
              let (db1, removed, moved, good) =
                move_over_taken p n source q m now handles db target s found dir rooted named at
                  differ leaf in
              rw (removed, moved) tt))
    ]

pub rename_inode-IsPosix :
    (caller : Caller) (p : ℕ) (n : Name) (q : ℕ) (m : Name) (noreplace : Bool) (now : ℕ)
    (handles : HandleTable) (db : Db)
    → IsSound db
    → IsReached db q
    → name_ok m ≡ true
    → IsPosix (rename_inode caller p n q m noreplace now handles db)
unfolding rename_inode move_over
rename_inode-IsPosix caller p n q m noreplace now handles db s reached named =
    bind-IsPosix (or_raise (child p n db) Error.enoent) _ (or_raise-IsPosix _ Error.enoent refl)
      (λ source got.
        let (found, there) =
          child_found p n db source (or_raise-eq_ok (child p n db) Error.enoent source got) in
        bind-IsPosix (node_by_ino p db) _ (node_by_ino-IsPosix p db) (λ old_parent _.
          bind-IsPosix (node_by_ino q db) _ (node_by_ino-IsPosix q db) (λ target_parent _.
            bind-IsPosix (require_access caller (some old_parent.inode) wx_ok) _
              (require_access-IsPosix caller old_parent.inode wx_ok)
              (λ _ _.
                bind-IsPosix (require_access caller (some target_parent.inode) wx_ok) _
                  (require_access-IsPosix caller target_parent.inode wx_ok)
                  (λ _ _.
                    bind-IsPosix (refuse_descendant q source db) _
                      (refuse_descendant-IsPosix q source db s.tree reached)
                      (λ u apart.
                        bind-IsPosix (move_over p n source q m noreplace now handles db) _
                          (replace_by-IsPosix p n source q m noreplace now handles db s found
                            reached.dir
                            (without-Rooted p n source q db u s found there reached.dir
                              reached.rooted apart)
                            named (child q m db) refl)
                          (λ _ _. tt)))))))

empty_existing-IsPosix :
    (trunc : Bool) (i now : ℕ) (db : Db)
    → IsSound db
    → is_some (lookup i db.inodes) ≡ true
    → IsPosix (empty_existing trunc i now db)
unfolding empty_existing
empty_existing-IsPosix true i now db s there =
    let (db1, made, r) = remove_file_chunks_lem i 0 now db s.consistent there in rw made tt
empty_existing-IsPosix false i now db s there = tt

existing_or_new-IsPosix :
    (caller : Caller) (p : ℕ) (n : Name) (mode : ℕ) (flags : OpenFlags) (now : ℕ) (db : Db)
    → IsSound db
    → is_some (lookup p db.inodes) ≡ true
    → name_ok n ≡ true
    → (there : Option Node) → child p n db ≡ there
    → IsPosix (existing_or_new caller p n mode flags now there db)
unfolding existing_or_new
existing_or_new-IsPosix caller p n mode flags now db s parent named none at =
    bind-IsPosix
      (insert_node p n Kind.file (s_ifreg + permission_bits mode) caller.uid caller.gid now none db)
      _
      (insert_node-IsPosix p n Kind.file (s_ifreg + permission_bits mode) caller.uid caller.gid now
        none db s.tree parent at named refl)
      (λ r _. bind-IsPosix (node_by_ino r.0 r.1) _ (node_by_ino-IsPosix r.0 r.1) (λ node _. tt))
existing_or_new-IsPosix caller p n mode flags now db s parent named (some node) at =
    bind-IsPosix (raise_if flags.excl Error.eexist) _ (raise_if-IsPosix _ Error.eexist refl) (λ _ _.
      bind-IsPosix (raise_if (not (is_file node.inode.kind)) Error.eisdir) _
        (raise_if-IsPosix _ Error.eisdir refl)
        (λ _ _.
          bind-IsPosix (require_open_access caller node.inode flags) _
            (require_open_access-IsPosix caller node.inode flags)
            (λ _ _.
              bind-IsPosix (empty_existing flags.trunc node.id now db) _
                (empty_existing-IsPosix flags.trunc node.id now db s
                  (ap is_some (child_found p n db node at).1))
                (λ db' _.
                  bind-IsPosix (node_by_ino node.id db') _ (node_by_ino-IsPosix node.id db')
                    (λ x _. tt)))))

pub create_inode-IsPosix :
    (caller : Caller) (p : ℕ) (n : Name) (mode : ℕ) (flags : OpenFlags) (now : ℕ) (db : Db)
    → IsSound db
    → IsNew n
    → IsPosix (create_inode caller p n mode flags now db)
unfolding create_inode
create_inode-IsPosix caller p n mode flags now db s named =
    bind-IsPosix (node_by_ino p db) _ (node_by_ino-IsPosix p db) (λ parent_node found.
      bind-IsPosix (require_access caller (some parent_node.inode) wx_ok) _
        (require_access-IsPosix caller parent_node.inode wx_ok)
        (λ _ _. bind-IsPosix (encode_text n) _ (encode_text-IsPosix n named.1) (λ _ _.
          existing_or_new-IsPosix caller p n mode flags now db s
            (ap is_some (node_by_ino-kind p db parent_node found)) named.0 (child p n db) refl)))

pub set_xattr_inode-IsPosix :
    (caller : Caller) (ino : ℕ) (name : Name) (value : Bytes) (options now : ℕ) (db : Db)
    → IsText name
    → IsPosix (set_xattr_inode caller ino name value options now db)
unfolding set_xattr_inode set_xattr
set_xattr_inode-IsPosix caller ino name value options now db text =
    bind-IsPosix (node_by_ino ino db) _ (node_by_ino-IsPosix ino db) (λ node found.
      bind-IsPosix (require_access caller (some node.inode) w_ok) _
        (require_access-IsPosix caller node.inode w_ok)
        (λ _ _. bind-IsPosix (encode_text name) _ (encode_text-IsPosix name text) (λ _ _.
          bind-IsPosix (raise_if (has_bit0 options && is_some (xattr ino name db)) Error.eexist) _
            (raise_if-IsPosix _ Error.eexist refl)
            (λ _ _.
              bind-IsPosix
                (raise_if (has_bit1 options && not (is_some (xattr ino name db))) Error.enoattr) _
                (raise_if-IsPosix _ Error.enoattr refl)
                (λ _ _. rw (ap is_some (node_by_ino-kind ino db node found)) tt)))))

pub remove_xattr_inode-IsPosix :
    (caller : Caller) (ino : ℕ) (name : Name) (now : ℕ) (db : Db)
    → IsText name
    → IsPosix (remove_xattr_inode caller ino name now db)
unfolding remove_xattr_inode
remove_xattr_inode-IsPosix caller ino name now db text =
    bind-IsPosix (node_by_ino ino db) _ (node_by_ino-IsPosix ino db) (λ node _.
      bind-IsPosix (require_access caller (some node.inode) w_ok) _
        (require_access-IsPosix caller node.inode w_ok)
        (λ _ _. bind-IsPosix (encode_text name) _ (encode_text-IsPosix name text) (λ _ _.
          bind-IsPosix (raise_if (not (remove_xattr ino name now db).0) Error.enoattr) _
            (raise_if-IsPosix _ Error.enoattr refl) (λ _ _. tt))))

pub rename_names-IsPosix :
    (caller : Caller) (p : ℕ) (n : Name) (q : ℕ) (m : Name) (noreplace : Bool) (now : ℕ)
    (handles : HandleTable) (db : Db)
    → IsSound db
    → IsReached db q
    → IsText n
    → IsNew m
    → IsPosix (rename_names caller p n q m noreplace now handles db)
unfolding rename_names
rename_names-IsPosix caller p n q m noreplace now handles db s placed text named =
    bind-IsPosix (encode_text n) _ (encode_text-IsPosix n text) (λ _ _.
      rw named.1 (rename_inode-IsPosix caller p n q m noreplace now handles db s placed named.0))
