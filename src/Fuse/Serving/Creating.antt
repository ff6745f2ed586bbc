-- ===== src/Fuse/Serving/Creating.antt =====
-- inode_fuse.py: `create` opens a file in a database that stays sound.
use mathlib.Core.Path.{subst}
use ztierfs.Common.{
  ℕ, ◌+◌, ◌≡◌, refl, sym, ap, ◌∙◌, true, false, not, Option, none, some, ◌==◌, ok, Error, ◌>>=◌,
  raise_if, bind-eq_ok, arith, Bool-cases, Option-cases, Result-cases, inl, inr,
}
use ztierfs.Common.Bytes.{Bytes}
use ztierfs.Common.Dict.{lookup, lookup-insert}
use ztierfs.Handles.{HandleTable, Fh, Kind, Snapshot}
use ztierfs.Handles
use ztierfs.Handles.Counts.{new-IsValid}
use ztierfs.Common.Utf8.{encode_text}
use ztierfs.Access.{
  Caller, OpenFlags, wx_ok, caller_lock_owner, require_access, require_open_access,
}
use ztierfs.Metadata.Trash.{s_ifreg}
use ztierfs.Metadata.Schema.{Db, Name}
use ztierfs.Metadata.Namespace.{
  Node, is_file, dir_inode, child, node_by_id, insert_inode, insert_node, new_inode,
}
use ztierfs.Metadata.Entries.{insert_entry}
use ztierfs.Metadata.Namespace.Growing.{new_id, lookup-new_id}
use ztierfs.Metadata.Namespace.Shrinking.{target_not_root}
use ztierfs.Fuse.{Mount, handle_snapshot, node_by_ino}
use ztierfs.Fuse.Removing.{IsSound}
use ztierfs.Fuse.Changes.{create, create_inode, existing_or_new, empty_existing, permission_bits}
use ztierfs.Fuse.Changes.Links.{child_found, Keeps}
use ztierfs.Fuse.Changes.Files.{create_inode-Keeps}
use ztierfs.Fuse.Serving.{IsReached, IsServing}
use ztierfs.Fuse.Serving.Callbacks.{after_trash-IsServing}

inserted_id :
    (p : ℕ) (n : Name) (kind : Kind) (mode uid gid now : ℕ) (target : Option Bytes) (db : Db)
    (r : ℕ × Db)
    → insert_node p n kind mode uid gid now target db ≡ ok r
    → r.0 ≡ new_id db
unfolding insert_node insert_inode insert_entry new_inode
inserted_id p n kind mode uid gid now target db r done = ground (arith, done)

new_id-other : (db : Db) → dir_inode (lookup 1 db.inodes) ≡ true → (new_id db == 1) ≡ false
new_id-other db dir = elim (Bool-cases (new_id db == 1)) [
  | inr other ↦ other
  | inl same ↦
      let e : new_id db ≡ 1 = ground (arith, same) in
      absurd (ground (arith, dir, sym (ap (λ i. lookup i db.inodes) e) ∙ lookup-new_id db))
]

created_id :
    (i : ℕ) (db db' : Db) (r : Node × Db)
    → (node_by_ino i db >>= λ node. ok (node, db')) ≡ ok r
    → r.0.id ≡ i
unfolding node_by_ino node_by_id
created_id i db db' r done = elim (Option-cases (lookup i db.inodes)) [
  | inl gone ↦ absurd (ground (arith, gone, done))
  | inr (inode, found) ↦ ground (arith, found, done)
]

-- `create` never opens the root.
existing_or_new-other :
    (caller : Caller) (p : ℕ) (n : Name) (mode : ℕ) (flags : OpenFlags) (now : ℕ)
    (there : Option Node) (db : Db) (r : Node × Db)
    → IsSound db
    → IsReached db p
    → child p n db ≡ there
    → existing_or_new caller p n mode flags now there db ≡ ok r
    → (r.0.id == 1) ≡ false
unfolding existing_or_new
existing_or_new-other caller p n mode flags now none db r s placed got done =
    let (made, inserted, done1) =
      bind-eq_ok
        (insert_node p n Kind.file (s_ifreg + permission_bits mode) caller.uid caller.gid now none
          db)
        _ r done in
    let same = created_id made.0 made.1 made.1 r done1 in
    let new =
      inserted_id p n Kind.file (s_ifreg + permission_bits mode) caller.uid caller.gid now none db
        made inserted in
    rw (same, new) (new_id-other db s.tree.root_dir)
existing_or_new-other caller p n mode flags now (some node) db r s placed got done =
    let (_, _, done1) = bind-eq_ok (raise_if flags.excl Error.eexist) _ r done in
    let (_, _, done2) =
      bind-eq_ok (raise_if (not (is_file node.inode.kind)) Error.eisdir) _ r done1 in
    let (_, _, done3) = bind-eq_ok (require_open_access caller node.inode flags) _ r done2 in
    let (db', _, done4) = bind-eq_ok (empty_existing flags.trunc node.id now db) _ r done3 in
    let same = created_id node.id db' db' r done4 in
    let other = target_not_root p n node.id db s.tree (child_found p n db node got).0 in
    rw same other

create_inode-other :
    (caller : Caller) (p : ℕ) (n : Name) (mode : ℕ) (flags : OpenFlags) (now : ℕ) (db : Db)
    (r : Node × Db)
    → IsSound db
    → IsReached db p
    → create_inode caller p n mode flags now db ≡ ok r
    → (r.0.id == 1) ≡ false
unfolding create_inode
create_inode-other caller p n mode flags now db r s placed done =
    let (parent_node, _, done1) = bind-eq_ok (node_by_ino p db) _ r done in
    let (_, _, done2) =
      bind-eq_ok (require_access caller (some parent_node.inode) wx_ok) _ r done1 in
    let (_, _, done3) = bind-eq_ok (encode_text n) _ r done2 in
    existing_or_new-other caller p n mode flags now (child p n db) db r s placed refl done3

-- The table of the handles with one more, which is not bound to the root.
opened-IsServing :
    (f : ℕ) (owner : Option ℕ) (snapshot : Option Snapshot) (m : Mount) (db : Db)
    → IsServing m
    → IsSound db
    → (f == 1) ≡ false
    → IsServing (record m { db = db; handles = (Handles.new f owner snapshot m.handles).1 })
unfolding Handles.new
opened-IsServing f owner snapshot m db s sound other = record {
  sound = sound;
  valid = new-IsValid f owner snapshot m.handles s.valid;
  bound = λ fh i h. elim (Bool-cases (fh == m.handles.next_fh + 1)) [
    | inl new ↦
        ground (arith, lookup-insert fh (m.handles.next_fh + 1) f m.handles.handles, new, h, other)
    | inr old ↦
        s.bound fh i
          (ground (arith, lookup-insert fh (m.handles.next_fh + 1) f m.handles.handles, old, h))
  ];
}

pub create-IsServing :
    (caller : Caller) (p : ℕ) (n : Name) (mode : ℕ) (flags : OpenFlags) (now : ℕ) (m : Mount)
    → IsServing m
    → IsReached m.db p
    → IsServing (create caller p n mode flags now m).0
unfolding create
create-IsServing caller p n mode flags now m s placed =
    after_trash-IsServing caller now m _ s (λ m' s' g.
      let r = g.kept p placed in
      elim (Result-cases (create_inode caller p n mode flags now m'.db)) [
        | inl (raised, e) ↦ rw e s'
        | inr (made, e) ↦
            let kept = create_inode-Keeps caller p n mode flags now m'.db s'.sound r.dir r.rooted in
            let sound : IsSound made.1 = subst Keeps e kept in
            rw e (
              opened-IsServing made.0.id (some (caller_lock_owner caller))
                (some (handle_snapshot made.0)) m' made.1 s' sound
                (create_inode-other caller p n mode flags now m'.db made s'.sound r e))
      ])
