-- ===== src/Fuse/Changes/Replacing.antt =====
-- inode_fuse.py: the directories when an entry moves, to a free name or in place of another entry.
use ztierfs.Common.{
  ℕ, ◌≡◌, refl, sym, ap, ◌∙◌, true, false, none, some, ◌==◌, if◌then◌else◌, ok, arith, Bool-cases,
  Option-cases, inl, inr,
}
use ztierfs.Common.Dict.{lookup, modify}
use ztierfs.Handles.{HandleTable}
use ztierfs.Metadata.Schema.{Db, Name}
use ztierfs.Metadata.Entries.{find_entry, erase_entry, has_children}
use ztierfs.Metadata.Entries.Laws.{
  same_key, same_key_refl, find-same_key, find-erase, has_children-find, no_more_children,
}
use ztierfs.Metadata.Namespace.{Node, is_dir, dir_inode, child, is_descendant}
use ztierfs.Metadata.Namespace.Rooted.{
  Rooted, Rooted-same, Rooted-erase, Rooted-climb, Rooted-apart,
}
use ztierfs.Metadata.Namespace.Tree.{IsTree}
use ztierfs.Metadata.Namespace.Moving.{with_moved, with_moved-IsTree}
use ztierfs.Fuse.Removing.{IsSound, IsSound-inodes, modify-files, Taken}
use ztierfs.Fuse.Changes.{refuse_descendant, check_replaceable}
use ztierfs.Fuse.Changes.Links.{no_children}

-- The directories after a rename: the new name leads to what the old one led to, the old name is free
-- unless it is the new one, and all else is as before.
pub record Renamed (p : ℕ) (n : Name) (q : ℕ) (m : Name) (s : ℕ) (db db' : Db) : Type 0 where
  pub sound : IsSound db'
  pub entries :
      (a : ℕ) (x : Name)
      → find_entry a x db'.dir_entries ≡ (
          if same_key q m a x
          then some s
          else if same_key p n a x
          then none
          else find_entry a x db.dir_entries)

-- A free name, in the same directory or another one.
pub moved_to_free :
    (p : ℕ) (n : Name) (q : ℕ) (m : Name) (s now : ℕ) (db : Db)
    → IsSound db
    → find_entry p n db.dir_entries ≡ some s
    → find_entry q m (erase_entry p n db.dir_entries) ≡ none
    → dir_inode (lookup q db.inodes) ≡ true
    → Rooted (erase_entry p n db.dir_entries) q
    → Renamed p n q m s db (with_moved p n q m s now db)
moved_to_free p n q m s now db sound found fresh dir rooted = record {
  sound =
      IsSound-inodes db (modify s (λ node. record node { ctime_ns = now }) db.inodes) _ sound
        (with_moved-IsTree p n q m s now db sound.tree found fresh dir rooted)
        (modify-files s (λ node. record node { ctime_ns = now }) db.inodes (λ x. refl));
  entries = λ a x. ground (arith, find-erase p a n x db.dir_entries);
}

-- The new parent keeps its way to the root when the source is taken out.
pub without-Rooted :
    (p : ℕ) (n : Name) (source : Node) (q : ℕ) (db : Db) (u : Unit {0})
    → IsSound db
    → find_entry p n db.dir_entries ≡ some source.id
    → lookup source.id db.inodes ≡ some source.inode
    → dir_inode (lookup q db.inodes) ≡ true
    → Rooted db.dir_entries q
    → refuse_descendant q source db ≡ ok u
    → Rooted (erase_entry p n db.dir_entries) q
unfolding refuse_descendant is_descendant
without-Rooted p n source q db u sound found there dir rooted h =
    elim (Bool-cases (is_dir source.inode.kind)) [
      | inl folder ↦ elim (Option-cases (is_descendant q source.id db)) [
        | inl endless ↦ absurd (ground (arith, folder, endless, h))
        | inr (true, below) ↦ absurd (ground (arith, folder, below, h))
        | inr (false, apart) ↦
            Rooted-climb db.inodes _ p n source.id db.dir_entries q sound.tree.climbable found dir
              apart rooted
      ]
      | inr other ↦
          Rooted-apart db.inodes p n source.id db.dir_entries q sound.tree.climbable found
            (ap dir_inode there ∙ other) dir rooted
    ]

-- What is at a name that `child` finds nothing at.
pub free_name :
    (p : ℕ) (n : Name) (db : Db)
    → IsTree db
    → child p n db ≡ none
    → find_entry p n db.dir_entries ≡ none
unfolding child
free_name p n db t h = elim (Option-cases (find_entry p n db.dir_entries)) [
  | inl gone ↦ gone
  | inr (i, found) ↦ elim (Option-cases (lookup i db.inodes)) [
    | inl missing ↦ absurd (ground (arith, missing, t.targets p n i found))
    | inr (node, there) ↦ absurd (ground (arith, found, there, h))
  ]
]

pub replaceable-leaf :
    (source target : Node) (db : Db) (u : Unit {0})
    → IsTree db
    → lookup target.id db.inodes ≡ some target.inode
    → check_replaceable source target db ≡ ok u
    → has_children target.id db.dir_entries ≡ false
unfolding check_replaceable
replaceable-leaf source target db u t there h = elim (Bool-cases (is_dir target.inode.kind)) [
  | inl folder ↦ ground (arith, folder, h)
  | inr other ↦ no_children target.id db t (ap dir_inode there ∙ other)
]

-- The entry that is replaced is taken away first.
module _ (p : ℕ) (n : Name) (q : ℕ) (m : Name) (s now : ℕ) (target : Node) (handles : HandleTable)
    (db db1 : Db) (sound : IsSound db) (found : find_entry p n db.dir_entries ≡ some s)
    (at : find_entry q m db.dir_entries ≡ some target.id) (differ : (target.id == s) ≡ false)
    (leaf : has_children target.id db.dir_entries ≡ false)
    (dir : dir_inode (lookup q db.inodes) ≡ true)
    (rooted : Rooted (erase_entry p n db.dir_entries) q)
    (taken : Taken q m target now handles db db1) where
  other_key : same_key p n q m ≡ false
  other_key = elim (Bool-cases (same_key p n q m)) [
    | inl same ↦
        absurd (ground (arith, find-same_key p q n m db.dir_entries same, found, at, differ))
    | inr other ↦ other
  ]

  other_key' : same_key q m p n ≡ false
  other_key' = elim (Bool-cases (same_key q m p n)) [
    | inl same ↦
        absurd (ground (arith, find-same_key q p m n db.dir_entries same, found, at, differ))
    | inr other ↦ other
  ]

  pub found1 : find_entry p n db1.dir_entries ≡ some s
  found1 =
      ap (find_entry p n) taken.entries
      ∙ find-erase q p m n db.dir_entries
      ∙ ground (arith, other_key', found)

  pub fresh1 : find_entry q m (erase_entry p n db1.dir_entries) ≡ none
  fresh1 =
      find-erase p q n m db1.dir_entries
      ∙ ground (
        arith,
        other_key,
        ap (find_entry q m) taken.entries,
        find-erase q q m m db.dir_entries,
        same_key_refl q m,
      )

  parent_not_target : (q == target.id) ≡ false
  parent_not_target = elim (Bool-cases (q == target.id)) [
    | inl same ↦
        let e : q ≡ target.id = ground (arith, same) in
        cc (
          sym leaf
          ∙ ap (λ x. has_children x db.dir_entries) (sym e)
          ∙ has_children-find q m target.id db.dir_entries at)
    | inr other ↦ other
  ]

  rooted1 : Rooted (erase_entry p n db1.dir_entries) q
  rooted1 =
      Rooted-same (erase_entry q m (erase_entry p n db.dir_entries))
        (erase_entry p n db1.dir_entries) q
        (λ a x.
          find-erase p a n x db1.dir_entries
          ∙ ground (
            arith,
            ap (find_entry a x) taken.entries,
            find-erase q a m x db.dir_entries,
            find-erase q a m x (erase_entry p n db.dir_entries),
            find-erase p a n x db.dir_entries,
          ))
        (Rooted-erase q m target.id (erase_entry p n db.dir_entries) q
          (find-erase p q n m db.dir_entries ∙ ground (arith, other_key, at))
          (no_more_children target.id p n db.dir_entries leaf)
          (λ e. ground (arith, e, parent_not_target)) rooted)

  pub dir1 : dir_inode (lookup q db1.inodes) ≡ true
  dir1 = ap dir_inode (taken.others q parent_not_target) ∙ dir

  pub replaced : Renamed p n q m s db (with_moved p n q m s now db1)
  replaced =
      let r = moved_to_free p n q m s now db1 taken.sound found1 fresh1 dir1 rooted1 in
      record {
        sound = r.sound;
        entries = λ a x.
            r.entries a x
            ∙ ground (arith, ap (find_entry a x) taken.entries, find-erase q a m x db.dir_entries);
      }
