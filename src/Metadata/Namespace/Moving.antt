-- ===== src/Metadata/Namespace/Moving.antt =====
-- metadata/namespace.py: `move_entry` keeps the tree.
use mathlib.Core.Path.{subst}
use ztierfs.Common.{ℕ, ◌≡◌, refl, sym, ap, ◌∙◌, true, none, some, ◌∷◌, ok, is_some, arith, inl, inr}
use ztierfs.Common.Dict.{lookup, modify, lookup-modify}
use ztierfs.Metadata.Schema.{Inode, Db, Name, name_ok}
use ztierfs.Metadata.Entries.{find_entry, erase_entry, insert_entry, update_entry}
use ztierfs.Metadata.Entries.Laws.{erase-IsKeyed, links-erase}
use ztierfs.Metadata.Namespace.{dir_inode, move_entry, touch_ctime}
use ztierfs.Metadata.Namespace.Rooted.{Rooted, Rooted-cons, Rooted-move}
use ztierfs.Metadata.Namespace.Tree.{IsTree, same_dir, same_there, modified, entry_added}
use ztierfs.Metadata.Namespace.Shrinking.{entry_kept}

abbrev touched : ℕ → Inode → Inode
touched now node = record node { ctime_ns = now }

abbrev pub with_moved : ℕ → Name → ℕ → Name → ℕ → ℕ → Db → Db
with_moved p n q m s now db = record db {
  inodes = modify s (touched now) db.inodes;
  dir_entries = record { parent_id = q; name = m; inode_id = s } ∷ erase_entry p n db.dir_entries;
}

-- `move_entry` raises nothing for an entry of the inode and a name that can be stored and is free, or
-- is the name that the entry gives up.
pub move_entry_lem :
    (p : ℕ) (n : Name) (q : ℕ) (m : Name) (s now : ℕ) (db : Db)
    → find_entry p n db.dir_entries ≡ some s
    → find_entry q m (erase_entry p n db.dir_entries) ≡ none
    → is_some (lookup q db.inodes) ≡ true
    → is_some (lookup s db.inodes) ≡ true
    → name_ok m ≡ true
    → move_entry p n q m s now db ≡ ok (with_moved p n q m s now db)
unfolding move_entry update_entry insert_entry touch_ctime
move_entry_lem p n q m s now db found fresh parent there named =
    ground (arith, found, fresh, parent, there, named)

pub with_moved-IsTree :
    (p : ℕ) (n : Name) (q : ℕ) (m : Name) (s now : ℕ) (db : Db)
    → IsTree db
    → find_entry p n db.dir_entries ≡ some s
    → find_entry q m (erase_entry p n db.dir_entries) ≡ none
    → dir_inode (lookup q db.inodes) ≡ true
    → Rooted (erase_entry p n db.dir_entries) q
    → IsTree (with_moved p n q m s now db)
with_moved-IsTree p n q m s now db t found fresh dir rooted =
    let f = touched now in
    let es = db.dir_entries in
    let dirs = λ (j : ℕ). same_dir j s f db.inodes (λ node. refl) in
    let less = λ (j : ℕ). links-erase j p n s es t.keyed found in
    let added = entry_added q m s (record db { dir_entries = erase_entry p n es }) fresh in
    record {
      keyed = (fresh, erase-IsKeyed p n es t.keyed);
      root_dir = dirs 1 ∙ t.root_dir;
      climbable = record {
        no_zero = ground (arith, lookup-modify 0 s f db.inodes, t.climbable.no_zero);
        root_links = ground (arith, t.climbable.root_links, less 1);
        single = λ j d. ground (arith, less j, t.climbable.single j (sym (dirs j) ∙ d));
        parents = λ q' m' j k. elim (added q' m' j k) [
          | inl (e, _) ↦ ap (λ x. dir_inode (lookup x (modify s f db.inodes))) e ∙ dirs q ∙ dir
          | inr old ↦ dirs q' ∙ t.climbable.parents q' m' j (entry_kept p q' n m' j es old).0
        ];
      };
      counted = λ j node k other.
          let (old, was, e) = modified j s f db.inodes node k in
          ground (arith, ap (λ x. x.nlink) e, less j, t.counted j old was other);
      targets = λ q' m' j k. elim (added q' m' j k) [
        | inl (_, e) ↦
            same_there j s f db.inodes
            ∙ ap (λ x. is_some (lookup x db.inodes)) e
            ∙ t.targets p n s found
        | inr old ↦ same_there j s f db.inodes ∙ t.targets q' m' j (entry_kept p q' n m' j es old).0
      ];
      rooted = λ q' m' j k. elim (added q' m' j k) [
        | inl (e, _) ↦
            Rooted-cons q m s (erase_entry p n es) q' fresh
              (subst (Rooted (erase_entry p n es)) (sym e) rooted)
        | inr old ↦
            Rooted-move p q n m s es q' found fresh rooted
              (t.rooted q' m' j (entry_kept p q' n m' j es old).0)
      ];
    }
