-- ===== src/Fuse/Serving/Trash.antt =====
-- metadata/namespace.py and filesystem.py: the trash directories are made in a sound database, which
-- stays sound and keeps its directories.
use mathlib.Core.Path.{subst}
use ztierfs.Common.{
  ℕ, ◌≡◌, refl, ap, ◌∙◌, true, Option, none, some, ◌∷◌, contains, ok, arith, Bool-cases,
  Result-cases, inl, inr,
}
use ztierfs.Common.Dict.{lookup, modify, lookup-insert}
use ztierfs.Handles.{Kind}
use ztierfs.Access.{Caller}
use ztierfs.Metadata.Schema.{Inode, Db, Name}
use ztierfs.Metadata.Entries.{find_entry}
use ztierfs.Metadata.Entries.Laws.{find-cons, same_key_refl}
use ztierfs.Metadata.Namespace.{
  Node, is_dir, dir_inode, child, insert_node, new_inode, set_node_mode, set_node_owner,
}
use ztierfs.Metadata.Namespace.Rooted.{root, down, Rooted-cons}
use ztierfs.Metadata.Namespace.Tree.{dir-is_some, same_dir, modify-IsTree}
use ztierfs.Metadata.Namespace.Growing.{new_id, lookup-new_id, with_node, insert_node_lem}
use ztierfs.Metadata.Trash.{
  is_as_wanted, ensure_at, ensure_directory, ensure_trash_directories, trash_root_name,
  trash_root_mode, trash_user_mode, decimal,
}
use ztierfs.Fuse.{Mount, ensure_trash_directory_for_caller}
use ztierfs.Fuse.Removing.{IsSound, IsSound-inodes, modify-files}
use ztierfs.Fuse.Changes.Links.{insert_node-fresh, insert_node-IsSound, child_found}
use ztierfs.Fuse.Serving.{IsReached}

-- The database is sound, and the directories of an earlier one are there.
pub record Grown (db db' : Db) : Type 0 where
  pub sound : IsSound db'
  pub kept : (d : ℕ) → IsReached db d → IsReached db' d

Grown-refl : (db : Db) → IsSound db → Grown db db
Grown-refl db s = record { sound = s; kept = λ d r. r }

Grown-trans : (db1 db2 db3 : Db) → Grown db1 db2 → Grown db2 db3 → Grown db1 db3
Grown-trans db1 db2 db3 g h = record { sound = h.sound; kept = λ d r. h.kept d (g.kept d r) }

-- A new directory is reached, as all that were there.
module _ (p : ℕ) (n : Name) (node : Inode) (db : Db)
    (fresh : find_entry p n db.dir_entries ≡ none) where
  kept_directories : (d : ℕ) → IsReached db d → IsReached (with_node p n node db) d
  kept_directories d r = record {
    dir = ground (arith, lookup-insert d (new_id db) node db.inodes, lookup-new_id db, r.dir);
    rooted = Rooted-cons p n (new_id db) db.dir_entries d fresh r.rooted;
  }

  new_directory :
      is_dir node.kind ≡ true → IsReached db p → IsReached (with_node p n node db) (new_id db)
  new_directory dir r = record {
    dir = ground (arith, lookup-insert (new_id db) (new_id db) node db.inodes, dir);
    rooted =
        down {d = new_id db} p n
          (ground (arith, find-cons p p n n (new_id db) db.dir_entries, same_key_refl p n))
          (kept_directories p r).rooted;
  }

-- The columns of an inode that the tree does not depend on.
pub changed-Grown :
    (i : ℕ) (f : Inode → Inode) (db : Db)
    → ((node : Inode) → (f node).kind ≡ node.kind)
    → ((node : Inode) → (f node).nlink ≡ node.nlink)
    → IsSound db
    → Grown db (record db { inodes = modify i f db.inodes })
changed-Grown i f db kind nlink s = record {
  sound =
      IsSound-inodes db (modify i f db.inodes) db.dir_entries s
        (modify-IsTree i f db kind nlink s.tree) (modify-files i f db.inodes kind);
  kept = λ d r. record { dir = same_dir d i f db.inodes kind ∙ r.dir; rooted = r.rooted };
}

repaired-Grown :
    (i mode uid gid now : ℕ) (db : Db)
    → IsSound db
    → Grown db (set_node_owner i uid gid now (set_node_mode i mode now db))
unfolding set_node_owner set_node_mode
repaired-Grown i mode uid gid now db s =
    let f = λ (node : Inode). record node { mode = mode; ctime_ns = now } in
    let g = λ (node : Inode). record node { uid = uid; gid = gid; ctime_ns = now } in
    let a = changed-Grown i f db (λ x. refl) (λ x. refl) s in
    let db1 = record db { inodes = modify i f db.inodes } in
    Grown-trans db db1 (record db1 { inodes = modify i g db1.inodes }) a
      (changed-Grown i g db1 (λ x. refl) (λ x. refl) a.sound)

inserted-Grown :
    (p : ℕ) (n : Name) (mode uid gid now : ℕ) (db : Db) (r : ℕ × Db)
    → IsSound db
    → IsReached db p
    → insert_node p n Kind.dir mode uid gid now none db ≡ ok r
    → Grown db r.1 × IsReached r.1 r.0
unfolding new_inode
inserted-Grown p n mode uid gid now db r s parent done =
    let (fresh, named, targeted) = insert_node-fresh p n Kind.dir mode uid gid now none db r done in
    let node = new_inode Kind.dir mode uid gid now none in
    let made =
      insert_node_lem p n Kind.dir mode uid gid now none db
        (dir-is_some (lookup p db.inodes) parent.dir) fresh named targeted in
    let same : (new_id db, with_node p n node db) ≡ r = cc (made, done) in
    let sound =
      insert_node-IsSound p n Kind.dir mode uid gid now none db r s parent.dir parent.rooted done in
    subst (λ (x : ℕ × Db). IsSound x.1 → Grown db x.1 × IsReached x.1 x.0) same
      (λ sound'. (
        record { sound = sound'; kept = kept_directories p n node db fresh },
        new_directory p n node db fresh refl parent,
      ))
      sound

found_directory :
    (p : ℕ) (n : Name) (node : Node) (db : Db)
    → child p n db ≡ some node
    → is_dir node.inode.kind ≡ true
    → IsReached db p
    → IsReached db node.id
found_directory p n node db got dir parent =
    let (found, there) = child_found p n db node got in
    record { dir = ap dir_inode there ∙ dir; rooted = down {d = node.id} p n found parent.rooted }

ensure_at-Grown :
    (p : ℕ) (n : Name) (mode uid gid now : ℕ) (db : Db) (there : Option Node) (r : ℕ × Db)
    → IsSound db
    → IsReached db p
    → child p n db ≡ there
    → ensure_at p n mode uid gid now there db ≡ ok r
    → Grown db r.1 × IsReached r.1 r.0
unfolding ensure_at
ensure_at-Grown p n mode uid gid now db none r s parent got done =
    inserted-Grown p n mode uid gid now db r s parent done
ensure_at-Grown p n mode uid gid now db (some node) r s parent got done =
    elim (Bool-cases (is_dir node.inode.kind)) [
      | inr other ↦ absurd (ground (arith, other, done))
      | inl dir ↦
          let here = found_directory p n node db got dir parent in
          let g = repaired-Grown node.id mode uid gid now db s in
          elim (Bool-cases (is_as_wanted mode uid gid node)) [
            | inl right ↦
                let same : (node.id, db) ≡ r = ground (arith, dir, right, done) in
                subst (λ (x : ℕ × Db). Grown db x.1 × IsReached x.1 x.0) same
                  (Grown-refl db s, here)
            | inr wrong ↦
                let same : (
                  node.id,
                  set_node_owner node.id uid gid now (set_node_mode node.id mode now db),
                )
                    ≡ r =
                  ground (arith, dir, wrong, done) in
                subst (λ (x : ℕ × Db). Grown db x.1 × IsReached x.1 x.0) same
                  (g, g.kept node.id here)
          ]
    ]

pub ensured-Grown :
    (p : ℕ) (n : Name) (mode uid gid now : ℕ) (db : Db) (r : ℕ × Db)
    → IsSound db
    → IsReached db p
    → ensure_directory p n mode uid gid now db ≡ ok r
    → Grown db r.1 × IsReached r.1 r.0
unfolding ensure_directory
ensured-Grown p n mode uid gid now db r s parent done =
    ensure_at-Grown p n mode uid gid now db (child p n db) r s parent refl done

trash-Grown :
    (uid gid now : ℕ) (db db' : Db)
    → IsSound db
    → ensure_trash_directories uid gid now db ≡ ok db'
    → Grown db db'
unfolding ensure_trash_directories
trash-Grown uid gid now db db' s done =
    let root_reached : IsReached db 1 = record { dir = s.tree.root_dir; rooted = root refl } in
    elim (Result-cases (ensure_directory 1 trash_root_name trash_root_mode 0 0 now db)) [
      | inl (raised, e) ↦ absurd (ground (arith, e, done))
      | inr (r, e) ↦
          let (g, top) =
            ensured-Grown 1 trash_root_name trash_root_mode 0 0 now db r s root_reached e in
          elim (Result-cases (ensure_directory r.0 (decimal uid) trash_user_mode uid gid now r.1)) [
            | inl (raised, f) ↦ absurd (ground (arith, e, f, done))
            | inr (r', f) ↦
                let h =
                  (ensured-Grown r.0 (decimal uid) trash_user_mode uid gid now r.1 r' g.sound top
                    f).0 in
                let same : r'.1 ≡ db' = ground (arith, e, f, done) in
                subst (Grown db) same (Grown-trans db r.1 r'.1 g h)
          ]
    ]

-- What `_ensure_trash_directory_for_caller` leaves of a mount.
pub ensured_mount :
    (caller : Caller) (now : ℕ) (m m' : Mount)
    → IsSound m.db
    → ensure_trash_directory_for_caller caller now m ≡ ok m'
    → Grown m.db m'.db × (m'.handles ≡ m.handles)
unfolding ensure_trash_directory_for_caller
ensured_mount caller now m m' s done =
    elim (Bool-cases (contains caller.uid m.ensured_trash_uids)) [
      | inl known ↦
          let same : m ≡ m' = ground (arith, known, done) in
          subst (λ x. Grown m.db x.db × (x.handles ≡ m.handles)) same (Grown-refl m.db s, refl)
      | inr first ↦ elim (Result-cases (ensure_trash_directories caller.uid caller.gid now m.db)) [
        | inl (raised, e) ↦ absurd (ground (arith, first, e, done))
        | inr (db', e) ↦
            let same : record m { db = db'; ensured_trash_uids = caller.uid ∷ m.ensured_trash_uids }
                ≡ m' =
              ground (arith, first, e, done) in
            subst (λ x. Grown m.db x.db × (x.handles ≡ m.handles)) same
              (trash-Grown caller.uid caller.gid now m.db db' s e, refl)
      ]
    ]
