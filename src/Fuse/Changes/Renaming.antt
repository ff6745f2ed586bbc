-- ===== src/Fuse/Changes/Renaming.antt =====
-- inode_fuse.py: `rename` moves the one entry, in place of another one if that may go.
pub mod Keeping
use mathlib.Core.Path.{subst}
use ztierfs.Common.{
  ℕ, zero, suc, ◌+◌, ◌-◌, ◌<◌, ◌≤◌, ◌≡◌, ◌≢◌, refl, sym, ap, ◌∙◌, Bool, true, false, not, ◌&&◌,
  ◌||◌, none, some, [], ◌∷◌, ltb, ◌==◌, if◌then◌else◌, Result, ok, ◌>>=◌, ◌>>◌, or_raise, is_some,
  arith, Option-cases,
}
use ztierfs.Common.Dict.{Dict, lookup, modify, lookup-modify}
use ztierfs.Handles.{HandleTable, Kind}
use ztierfs.Metadata.Schema.{Inode, Db, Name, name_ok}
use ztierfs.Metadata.Entries.{
  find_entry, erase_entry, links, has_children, insert_entry, update_entry, holds_inode,
}
use ztierfs.Metadata.Entries.Laws.{
  same_key, same_key_refl, find-same_key, find-cons, find-erase, has_children-find,
  no_more_children,
}
use ztierfs.Metadata.Namespace.{Node, is_dir, dir_inode, child, move_entry, is_descendant, climb}
use ztierfs.Metadata.Namespace.Rooted.{
  Rooted, IsClimbable, Rooted-same, Rooted-erase, Rooted-climb, Rooted-apart,
}
use ztierfs.Metadata.Namespace.Tree.{dir-is_some}
use ztierfs.Metadata.Namespace.Moving.{with_moved, move_entry_lem, with_moved-IsTree}
use ztierfs.Fuse.{remove_entry_node}
use ztierfs.Fuse.Removing.{
  IsSound, IsSound-inodes, modify-files, file_inode, Taken, remove_entry_node_lem,
}
use ztierfs.Fuse.Changes.{move_over, replace_by}
use ztierfs.Fuse.Changes.Links.{
  Keeps, Keeps-bind, KeepsDb, KeepsDb-bind, child_found, no_children, or_raise-eq_ok,
  raise_if-false,
}
use ztierfs.Fuse.Changes.Replacing.{
  Renamed, moved_to_free, free_name, replaceable-leaf, found1, fresh1, dir1, replaced,
}

-- The inode at the new name that the source may take the place of.
pub record Replaces (source : Node) (q : ℕ) (m : Name) (noreplace : Bool) (db : Db) : Type 0 where
  pub target : Node
  pub at : child q m db ≡ some target
  pub allowed : noreplace ≡ false
  pub differ : (target.id == source.id) ≡ false
  pub same_sort : is_dir target.inode.kind ≡ is_dir source.inode.kind
  pub empty : has_children target.id db.dir_entries ≡ false

pub replace_by_free :
    (p : ℕ) (n : Name) (source : Node) (q : ℕ) (m : Name) (noreplace : Bool) (now : ℕ)
    (handles : HandleTable) (db : Db)
    → child q m db ≡ none
    → move_over p n source q m noreplace now handles db ≡ move_entry p n q m source.id now db
unfolding move_over replace_by
replace_by_free p n source q m noreplace now handles db free = rw free refl

pub move_over_free :
    (p : ℕ) (n : Name) (source : Node) (q : ℕ) (m : Name) (noreplace : Bool) (now : ℕ)
    (handles : HandleTable) (db : Db)
    → IsSound db
    → find_entry p n db.dir_entries ≡ some source.id
    → dir_inode (lookup q db.inodes) ≡ true
    → Rooted (erase_entry p n db.dir_entries) q
    → name_ok m ≡ true
    → child q m db ≡ none
    → (db' : Db) × (move_over p n source q m noreplace now handles db ≡ ok db')
      × Renamed p n q m source.id db db'
unfolding move_over replace_by
move_over_free p n source q m noreplace now handles db s found dir rooted named free =
    let gone = free_name q m db s.tree free in
    let fresh : find_entry q m (erase_entry p n db.dir_entries) ≡ none =
      find-erase p q n m db.dir_entries ∙ ground (arith, gone) in
    (
      with_moved p n q m source.id now db,
      rw free (
          move_entry_lem p n q m source.id now db found fresh (dir-is_some (lookup q db.inodes) dir)
            (s.tree.targets p n source.id found) named),
      moved_to_free p n q m source.id now db s found fresh dir rooted,
    )

-- With a target that may go, the move after its removal.
pub move_over_taken :
    (p : ℕ) (n : Name) (source : Node) (q : ℕ) (m : Name) (now : ℕ) (handles : HandleTable)
    (db : Db) (target : Node)
    → IsSound db
    → find_entry p n db.dir_entries ≡ some source.id
    → dir_inode (lookup q db.inodes) ≡ true
    → Rooted (erase_entry p n db.dir_entries) q
    → name_ok m ≡ true
    → child q m db ≡ some target
    → (target.id == source.id) ≡ false
    → has_children target.id db.dir_entries ≡ false
    → (db1 : Db) × (remove_entry_node q m target now handles db ≡ ok db1)
      × (move_entry p n q m source.id now db1 ≡ ok (with_moved p n q m source.id now db1))
      × Renamed p n q m source.id db (with_moved p n q m source.id now db1)
move_over_taken p n source q m now handles db target s found dir rooted named at differ leaf =
    let (at', there) = child_found q m db target at in
    let (db1, done, taken) = remove_entry_node_lem q m target now handles db s at' there leaf in
    let i = source.id in
    (
      db1,
      done,
      move_entry_lem p n q m i now db1
          (found1 p n q m i now target handles db db1 s found at' differ leaf dir rooted taken)
          (fresh1 p n q m i now target handles db db1 s found at' differ leaf dir rooted taken)
          (dir-is_some (lookup q db1.inodes)
            (dir1 p n q m i now target handles db db1 s found at' differ leaf dir rooted taken))
          (taken.sound.tree.targets p n i
            (found1 p n q m i now target handles db db1 s found at' differ leaf dir rooted taken))
          named,
      replaced p n q m i now target handles db db1 s found at' differ leaf dir rooted taken,
    )
