-- ===== src/Fuse/Changes/Links.antt =====
-- inode_fuse.py: the bodies of mkdir, mknod, symlink and link keep the database sound.
use mathlib.Core.Path.{subst}
use ztierfs.Common.{
  ℕ, ◌≡◌, refl, sym, ap, ◌∙◌, Bool, true, false, Option, none, some, Result, ok, err, Error, ◌>>=◌,
  raise_if, or_raise, is_some, arith, Bool-cases, Option-cases, inl, inr,
}
use ztierfs.Common.Bytes.{Bytes}
use ztierfs.Common.Dict.{lookup, insert, modify, lookup-insert}
use ztierfs.Handles.{Kind}
use ztierfs.Common.Utf8.{encode_text}
use ztierfs.Access.{Caller, wx_ok, require_access}
use ztierfs.Metadata.Schema.{Db, Name, name_ok, target_ok}
use ztierfs.Metadata.Entries.{find_entry, has_children, insert_entry}
use ztierfs.Metadata.Entries.Laws.{found_child}
use ztierfs.Metadata.Namespace.{
  Node, is_dir, dir_inode, child, insert_node, insert_inode, new_inode, link_node, node_by_id,
}
use ztierfs.Metadata.Namespace.Rooted.{Rooted}
use ztierfs.Metadata.Namespace.Tree.{IsTree, dir-is_some}
use ztierfs.Metadata.Namespace.Growing.{
  with_node, with_link, linked, new_id, lookup-new_id, with_node-IsTree, insert_node_lem,
  with_link-IsTree, link_node_lem,
}
use ztierfs.Fuse.{node_by_ino}
use ztierfs.Fuse.Removing.{IsSound, IsSound-inodes, modify-files}
use ztierfs.Fuse.Changes.{make_node, encode_target, link_inode}

-- A body that raises nothing leaves a sound database.
abbrev pub Keeps : {Reply : Type 0} → Result (Reply × Db) → Type 0
Keeps (err raised) = Unit
Keeps (ok r) = IsSound r.1

pub Keeps-bind :
    {R Reply : Type 0} (m : Result R) (f : R → Result (Reply × Db))
    → ((r : R) → m ≡ ok r → Keeps (f r))
    → Keeps (m >>= f)
Keeps-bind (err raised) f h = tt
Keeps-bind (ok r) f h = h r refl

pub insert_node-fresh :
    (p : ℕ) (n : Name) (kind : Kind) (mode uid gid now : ℕ) (target : Option Bytes) (db : Db)
    (r : ℕ × Db)
    → insert_node p n kind mode uid gid now target db ≡ ok r
    → (find_entry p n db.dir_entries ≡ none) × (name_ok n ≡ true) × (target_ok kind target ≡ true)
unfolding insert_node insert_inode insert_entry new_inode
insert_node-fresh p n kind mode uid gid now target db r done =
    elim (Option-cases (find_entry p n db.dir_entries)) [
      | inl fresh ↦ (fresh, ground (arith, done), ground (arith, done))
      | inr (i, taken) ↦ absurd (ground (arith, done, taken))
    ]

pub insert_node-IsSound :
    (p : ℕ) (n : Name) (kind : Kind) (mode uid gid now : ℕ) (target : Option Bytes) (db : Db)
    (r : ℕ × Db)
    → IsSound db
    → dir_inode (lookup p db.inodes) ≡ true
    → Rooted db.dir_entries p
    → insert_node p n kind mode uid gid now target db ≡ ok r
    → IsSound r.1
unfolding new_inode
insert_node-IsSound p n kind mode uid gid now target db r s dir rooted done =
    let (fresh, named, targeted) = insert_node-fresh p n kind mode uid gid now target db r done in
    let node = new_inode kind mode uid gid now target in
    let made =
      insert_node_lem p n kind mode uid gid now target db (dir-is_some (lookup p db.inodes) dir)
        fresh named targeted in
    let same : (new_id db, with_node p n node db) ≡ r = cc (made, done) in
    subst (λ (x : ℕ × Db). IsSound x.1) same
      (IsSound-inodes db (insert (new_id db) node db.inodes) _ s
        (with_node-IsTree p n node db s.tree dir rooted fresh refl)
        (λ f file.
          ground (arith, file, lookup-new_id db, lookup-insert f (new_id db) node db.inodes)))

pub make_node-Keeps :
    (caller : Caller) (parent : ℕ) (name : Name) (kind : Kind) (mode : ℕ) (target : Option Bytes)
    (now : ℕ) (db : Db)
    → IsSound db
    → dir_inode (lookup parent db.inodes) ≡ true
    → Rooted db.dir_entries parent
    → Keeps (make_node caller parent name kind mode target now db)
unfolding make_node
make_node-Keeps caller parent name kind mode target now db s dir rooted =
    Keeps-bind (node_by_ino parent db) _ (λ parent_node _.
      Keeps-bind (require_access caller (some parent_node.inode) wx_ok) _ (λ _ _.
        Keeps-bind (encode_text name) _ (λ _ _.
          Keeps-bind (raise_if (is_some (child parent name db)) Error.eexist) _ (λ _ _.
            Keeps-bind (encode_target target) _ (λ _ _.
              Keeps-bind (insert_node parent name kind mode caller.uid caller.gid now target db) _
                (λ r done. Keeps-bind (node_by_ino r.0 r.1) _ (λ node _.
                  insert_node-IsSound parent name kind mode caller.uid caller.gid now target db r s
                    dir rooted done)))))))

link_node-fresh :
    (p : ℕ) (n : Name) (i now : ℕ) (db db' : Db)
    → link_node p n i now db ≡ ok db'
    → (find_entry p n db.dir_entries ≡ none)
      × (name_ok n ≡ true)
      × (is_some (lookup i db.inodes) ≡ true)
unfolding link_node insert_entry
link_node-fresh p n i now db db' done = elim (Option-cases (find_entry p n db.dir_entries)) [
  | inl fresh ↦ (fresh, ground (arith, done), ground (arith, done))
  | inr (j, taken) ↦ absurd (ground (arith, done, taken))
]

link_node-IsSound :
    (p : ℕ) (n : Name) (i now : ℕ) (db db' : Db)
    → IsSound db
    → dir_inode (lookup p db.inodes) ≡ true
    → Rooted db.dir_entries p
    → dir_inode (lookup i db.inodes) ≡ false
    → link_node p n i now db ≡ ok db'
    → IsSound db'
link_node-IsSound p n i now db db' s dir rooted no_dir done =
    let (fresh, named, there) = link_node-fresh p n i now db db' done in
    let made =
      link_node_lem p n i now db (dir-is_some (lookup p db.inodes) dir) there fresh named in
    let same : with_link p n i now db ≡ db' = cc (made, done) in
    subst IsSound same (
      IsSound-inodes db (modify i (linked now) db.inodes) _ s
        (with_link-IsTree p n i now db s.tree dir rooted fresh there no_dir)
        (modify-files i (linked now) db.inodes (λ x. refl)))

pub node_by_ino-kind :
    (i : ℕ) (db : Db) (node : Node)
    → node_by_ino i db ≡ ok node
    → lookup i db.inodes ≡ some node.inode
unfolding node_by_ino node_by_id
node_by_ino-kind i db node h = elim (Option-cases (lookup i db.inodes)) [
  | inl gone ↦ absurd (ground (arith, gone, h))
  | inr (inode, found) ↦ ground (arith, found, h)
]

pub raise_if-false :
    (test : Bool) (raised : Error) (u : Unit {0}) → raise_if test raised ≡ ok u → test ≡ false
raise_if-false true raised u h = cc
raise_if-false false raised u h = refl

pub link_inode-Keeps :
    (caller : Caller) (ino parent : ℕ) (name : Name) (now : ℕ) (db : Db)
    → IsSound db
    → dir_inode (lookup parent db.inodes) ≡ true
    → Rooted db.dir_entries parent
    → Keeps (link_inode caller ino parent name now db)
unfolding link_inode
link_inode-Keeps caller ino parent name now db s dir rooted =
    Keeps-bind (node_by_ino ino db) _ (λ source found.
      Keeps-bind (raise_if (is_dir source.inode.kind) Error.eperm) _ (λ u no_dir.
        Keeps-bind (node_by_ino parent db) _ (λ parent_node _.
          Keeps-bind (require_access caller (some parent_node.inode) wx_ok) _ (λ _ _.
            Keeps-bind (encode_text name) _ (λ _ _.
              Keeps-bind (raise_if (is_some (child parent name db)) Error.eexist) _ (λ _ _.
                Keeps-bind (link_node parent name ino now db) _ (λ db' done.
                  Keeps-bind (or_raise (child parent name db') Error.runtime) _ (λ node _.
                    link_node-IsSound parent name ino now db db' s dir rooted
                      (ap dir_inode (node_by_ino-kind ino db source found)
                        ∙ raise_if-false (is_dir source.inode.kind) Error.eperm u no_dir)
                      done))))))))

-- What `child` returns stands at the name, with its inode.
pub child_found :
    (p : ℕ) (n : Name) (db : Db) (node : Node)
    → child p n db ≡ some node
    → (find_entry p n db.dir_entries ≡ some node.id) × (lookup node.id db.inodes ≡ some node.inode)
unfolding child
child_found p n db node h = elim (Option-cases (find_entry p n db.dir_entries)) [
  | inl gone ↦ absurd (ground (arith, gone, h))
  | inr (i, found) ↦ elim (Option-cases (lookup i db.inodes)) [
    | inl gone ↦ absurd (ground (arith, found, gone, h))
    | inr (inode, there) ↦ (ground (arith, found, there, h), ground (arith, found, there, h))
  ]
]

-- What is no directory has no entries below it.
pub no_children :
    (i : ℕ) (db : Db)
    → IsTree db
    → dir_inode (lookup i db.inodes) ≡ false
    → has_children i db.dir_entries ≡ false
no_children i db t no_dir = elim (Bool-cases (has_children i db.dir_entries)) [
  | inl some_child ↦
      let (n, j, found) = found_child i db.dir_entries t.keyed some_child in
      cc (sym no_dir ∙ t.climbable.parents i n j found)
  | inr leaf ↦ leaf
]

pub or_raise-eq_ok :
    {R : Type 0} (o : Option R) (raised : Error) (r : R) → or_raise o raised ≡ ok r → o ≡ some r
or_raise-eq_ok none raised r h = cc
or_raise-eq_ok (some x) raised r h = ground (arith, h)

abbrev pub KeepsDb : Result Db → Type 0
KeepsDb (err raised) = Unit
KeepsDb (ok db) = IsSound db

pub KeepsDb-bind :
    {Reply : Type 0} (m : Result Db) (f : Db → Result (Reply × Db))
    → KeepsDb m
    → ((db : Db) → IsSound db → Keeps (f db))
    → Keeps (m >>= f)
KeepsDb-bind (err raised) f k h = tt
KeepsDb-bind (ok db) f k h = h db k
