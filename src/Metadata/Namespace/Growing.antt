-- ===== src/Metadata/Namespace/Growing.antt =====
-- metadata/namespace.py: `insert_node` and `link_node` keep the tree.
use mathlib.Core.Path.{subst}
use ztierfs.Common.{
  ℕ, ◌+◌, ◌≤◌, ◌≡◌, refl, sym, ap, ◌∙◌, true, false, Option, none, [], ◌∷◌, ◌==◌, ok, is_some,
  arith, Bool-cases, Option-cases, inl, inr,
}
use ztierfs.Common.Bytes.{Bytes}
use ztierfs.Common.Dict.{Dict, lookup, insert, modify, lookup-insert, lookup-modify}
use ztierfs.Handles.{Kind}
use ztierfs.Metadata.Schema.{Inode, Db, Name, name_ok, target_ok}
use ztierfs.Metadata.Entries.{find_entry, links, insert_entry}
use ztierfs.Metadata.Entries.Laws.{linked_entry}
use ztierfs.Metadata.Namespace.{
  dir_inode, last_inode, insert_inode, insert_node, new_inode, link_node,
}
use ztierfs.Metadata.Namespace.Rooted.{Rooted, Rooted-cons}
use ztierfs.Metadata.Namespace.Tree.{
  IsTree, dir-is_some, same_dir, same_there, modified, entry_added,
}

abbrev pub new_id : Db → ℕ
new_id db = last_inode db.inodes + 1

lookup-last_inode : (i : ℕ) (m : Dict Inode) → is_some (lookup i m) ≡ true → i ≤ last_inode m
lookup-last_inode i [] h = cc
lookup-last_inode i ((j, node) ∷ m) h = ground (arith, lookup-last_inode i m)

pub lookup-new_id : (db : Db) → lookup (new_id db) db.inodes ≡ none
lookup-new_id db = elim (Option-cases (lookup (new_id db) db.inodes)) [
  | inl gone ↦ gone
  | inr (node, found) ↦
      absurd (omega (arith, lookup-last_inode (new_id db) db.inodes (ap is_some found)))
]

-- The database with one more inode and an entry for it.
abbrev pub with_node : ℕ → Name → Inode → Db → Db
with_node p n node db = record db {
  inodes = insert (new_id db) node db.inodes;
  dir_entries = record { parent_id = p; name = n; inode_id = new_id db } ∷ db.dir_entries;
}

no_links : (db : Db) (i : ℕ) → IsTree db → lookup i db.inodes ≡ none → links i db.dir_entries ≡ 0
no_links db i t gone = elim (Bool-cases (links i db.dir_entries == 0)) [
  | inl zero_links ↦ ground (arith, zero_links)
  | inr linked ↦
      let (p, n, found) = linked_entry i db.dir_entries t.keyed (ground (arith, linked)) in
      absurd (ground (arith, t.targets p n i found, gone))
]

pub with_node-IsTree :
    (p : ℕ) (n : Name) (node : Inode) (db : Db)
    → IsTree db
    → dir_inode (lookup p db.inodes) ≡ true
    → Rooted db.dir_entries p
    → find_entry p n db.dir_entries ≡ none
    → node.nlink ≡ 1
    → IsTree (with_node p n node db)
with_node-IsTree p n node db t dir rooted fresh one =
    let i = new_id db in
    let at = λ (j : ℕ). lookup-insert j i node db.inodes in
    let gone = lookup-new_id db in
    let unlinked = no_links db i t gone in
    let root_there = dir-is_some (lookup 1 db.inodes) t.root_dir in
    let added = entry_added p n i db fresh in
    record {
      keyed = (fresh, t.keyed);
      root_dir = ground (arith, at 1, gone, t.root_dir);
      climbable = record {
        no_zero = ground (arith, at 0, t.climbable.no_zero);
        root_links = ground (arith, t.climbable.root_links, gone, root_there);
        single = λ j d. ground (arith, at j, d, unlinked, t.climbable.single j);
        parents = λ q m j found. elim (added q m j found) [
          | inl (e, _) ↦ ground (arith, e, at p, gone, dir)
          | inr old ↦ let d = t.climbable.parents q m j old in ground (arith, at q, gone, d)
        ];
      };
      counted = λ j x found other. elim (Bool-cases (j == i)) [
        | inl new ↦ ground (arith, new, at j, found, unlinked, one)
        | inr old ↦ ground (arith, old, at j, found, other, t.counted j x)
      ];
      targets = λ q m j found. elim (added q m j found) [
        | inl (_, e) ↦ ground (arith, e, at i)
        | inr old ↦ ground (arith, at j, t.targets q m j old)
      ];
      rooted = λ q m j found. elim (added q m j found) [
        | inl (e, _) ↦
            Rooted-cons p n i db.dir_entries q fresh (subst (Rooted db.dir_entries) (sym e) rooted)
        | inr old ↦ Rooted-cons p n i db.dir_entries q fresh (t.rooted q m j old)
      ];
    }

-- `insert_node` raises nothing for a name that can be stored and is not taken.
pub insert_node_lem :
    (p : ℕ) (n : Name) (kind : Kind) (mode uid gid now : ℕ) (target : Option Bytes) (db : Db)
    → is_some (lookup p db.inodes) ≡ true
    → find_entry p n db.dir_entries ≡ none
    → name_ok n ≡ true
    → target_ok kind target ≡ true
    → insert_node p n kind mode uid gid now target db
      ≡ ok (new_id db, with_node p n (new_inode kind mode uid gid now target) db)
unfolding insert_node insert_inode insert_entry new_inode
insert_node_lem p n kind mode uid gid now target db there fresh named targeted = ground (
  arith,
  there,
  fresh,
  named,
  targeted,
  lookup-insert p (new_id db) (new_inode kind mode uid gid now target) db.inodes,
  lookup-insert (new_id db) (new_id db) (new_inode kind mode uid gid now target) db.inodes,
)

abbrev pub linked : ℕ → Inode → Inode
linked now node = record node { nlink = node.nlink + 1; ctime_ns = now }

abbrev pub with_link : ℕ → Name → ℕ → ℕ → Db → Db
with_link p n i now db = record db {
  inodes = modify i (linked now) db.inodes;
  dir_entries = record { parent_id = p; name = n; inode_id = i } ∷ db.dir_entries;
}

pub with_link-IsTree :
    (p : ℕ) (n : Name) (i now : ℕ) (db : Db)
    → IsTree db
    → dir_inode (lookup p db.inodes) ≡ true
    → Rooted db.dir_entries p
    → find_entry p n db.dir_entries ≡ none
    → is_some (lookup i db.inodes) ≡ true
    → dir_inode (lookup i db.inodes) ≡ false
    → IsTree (with_link p n i now db)
with_link-IsTree p n i now db t dir rooted fresh there no_dir =
    let f = linked now in
    let dirs = λ (j : ℕ). same_dir j i f db.inodes (λ node. refl) in
    let added = entry_added p n i db fresh in
    record {
      keyed = (fresh, t.keyed);
      root_dir = dirs 1 ∙ t.root_dir;
      climbable = record {
        no_zero = ground (arith, lookup-modify 0 i f db.inodes, t.climbable.no_zero);
        root_links = ground (arith, t.climbable.root_links, t.root_dir, no_dir);
        single = λ j d. ground (arith, sym (dirs j) ∙ d, no_dir, t.climbable.single j);
        parents = λ q m j found. elim (added q m j found) [
          | inl (e, _) ↦ ap (λ x. dir_inode (lookup x (modify i f db.inodes))) e ∙ dirs p ∙ dir
          | inr old ↦ dirs q ∙ t.climbable.parents q m j old
        ];
      };
      counted = λ j node found other.
          let (old, was, e) = modified j i f db.inodes node found in
          ground (arith, ap (λ x. x.nlink) e, t.counted j old was other);
      targets = λ q m j found. elim (added q m j found) [
        | inl (_, e) ↦
            ap (λ x. is_some (lookup x (modify i f db.inodes))) e
            ∙ same_there i i f db.inodes
            ∙ there
        | inr old ↦ same_there j i f db.inodes ∙ t.targets q m j old
      ];
      rooted = λ q m j found. elim (added q m j found) [
        | inl (e, _) ↦
            Rooted-cons p n i db.dir_entries q fresh (subst (Rooted db.dir_entries) (sym e) rooted)
        | inr old ↦ Rooted-cons p n i db.dir_entries q fresh (t.rooted q m j old)
      ];
    }

-- `link_node` raises nothing for a name that can be stored and is not taken.
pub link_node_lem :
    (p : ℕ) (n : Name) (i now : ℕ) (db : Db)
    → is_some (lookup p db.inodes) ≡ true
    → is_some (lookup i db.inodes) ≡ true
    → find_entry p n db.dir_entries ≡ none
    → name_ok n ≡ true
    → link_node p n i now db ≡ ok (with_link p n i now db)
unfolding link_node insert_entry
link_node_lem p n i now db parent there fresh named = ground (arith, parent, there, fresh, named)
