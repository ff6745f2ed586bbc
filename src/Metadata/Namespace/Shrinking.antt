-- ===== src/Metadata/Namespace/Shrinking.antt =====
-- metadata/namespace.py: `remove_entry` and `delete_node` keep the tree.
use ztierfs.Common.{
  ℕ, ◌-◌, ◌≡◌, refl, sym, ap, ◌∙◌, true, false, not, some, List, [], ◌∷◌, ◌==◌, keep, ok, is_some,
  arith, Bool-cases, Option-cases, inl, inr,
}
use ztierfs.Common.Dict.{lookup, erase, modify, lookup-erase, lookup-modify}
use ztierfs.Metadata.Schema.{Inode, Db, Entry, Name}
use ztierfs.Metadata.Entries.{find_entry, erase_entry, links, has_children}
use ztierfs.Metadata.Entries.Laws.{
  same_key, find-erase, erase-IsKeyed, links-erase, links-find, has_children-find,
}
use ztierfs.Metadata.Namespace.{delete_node, remove_entry}
use ztierfs.Metadata.Namespace.Rooted.{Rooted-erase}
use ztierfs.Metadata.Namespace.Tree.{IsTree, same_dir, same_there, modified}

-- An entry that is left was there before.
pub entry_kept :
    (p q : ℕ) (n m : Name) (j : ℕ) (es : List Entry)
    → find_entry q m (erase_entry p n es) ≡ some j
    → (find_entry q m es ≡ some j) × (same_key p n q m ≡ false)
entry_kept p q n m j es found = elim (Bool-cases (same_key p n q m)) [
  | inl same ↦ absurd (ground (arith, same, found, find-erase p q n m es))
  | inr other ↦ (ground (arith, other, found, find-erase p q n m es), other)
]

abbrev pub unlinked : ℕ → Inode → Inode
unlinked now node = record node { nlink = node.nlink - 1; ctime_ns = now }

abbrev pub without_entry : ℕ → Name → ℕ → ℕ → Db → Db
without_entry p n i now db = record db {
  inodes = modify i (unlinked now) db.inodes;
  dir_entries = erase_entry p n db.dir_entries;
}

pub target_not_root :
    (p : ℕ) (n : Name) (i : ℕ) (db : Db)
    → IsTree db
    → find_entry p n db.dir_entries ≡ some i
    → (i == 1) ≡ false
target_not_root p n i db t found = elim (Bool-cases (i == 1)) [
  | inl root ↦ absurd (
      let e : i ≡ 1 = ground (arith, root) in
      omega (
        arith,
        links-find p n i db.dir_entries found,
        t.climbable.root_links,
        ap (λ x. links x db.dir_entries) e,
      ))
  | inr other ↦ other
]

-- `remove_entry` raises nothing for an entry of the inode, and returns the links that are left.
pub remove_entry_lem :
    (p : ℕ) (n : Name) (i now : ℕ) (db : Db)
    → IsTree db
    → find_entry p n db.dir_entries ≡ some i
    → remove_entry p n i now db
      ≡ ok (links i (erase_entry p n db.dir_entries), without_entry p n i now db)
unfolding remove_entry
remove_entry_lem p n i now db t found = elim (Option-cases (lookup i db.inodes)) [
  | inl gone ↦ absurd (ground (arith, gone, t.targets p n i found))
  | inr (node, there) ↦
      let count = t.counted i node there (target_not_root p n i db t found) in
      let some_links = links-find p n i db.dir_entries found in
      ground (
        arith,
        there,
        count,
        some_links,
        lookup-modify i i (unlinked now) db.inodes,
        links-erase i p n i db.dir_entries t.keyed found,
      )
]

pub without_entry-IsTree :
    (p : ℕ) (n : Name) (i now : ℕ) (db : Db)
    → IsTree db
    → find_entry p n db.dir_entries ≡ some i
    → has_children i db.dir_entries ≡ false
    → IsTree (without_entry p n i now db)
without_entry-IsTree p n i now db t found leaf =
    let f = unlinked now in
    let es = db.dir_entries in
    let dirs = λ (j : ℕ). same_dir j i f db.inodes (λ node. refl) in
    let less = λ (j : ℕ). links-erase j p n i es t.keyed found in
    record {
      keyed = erase-IsKeyed p n es t.keyed;
      root_dir = dirs 1 ∙ t.root_dir;
      climbable = record {
        no_zero = ground (arith, lookup-modify 0 i f db.inodes, t.climbable.no_zero);
        root_links = ground (arith, t.climbable.root_links, less 1);
        single = λ j d. ground (arith, less j, t.climbable.single j (sym (dirs j) ∙ d));
        parents = λ q m j k. dirs q ∙ t.climbable.parents q m j (entry_kept p q n m j es k).0;
      };
      counted = λ j node k other.
          let (old, was, e) = modified j i f db.inodes node k in
          ground (arith, ap (λ x. x.nlink) e, less j, t.counted j old was other);
      targets =
          λ q m j k. same_there j i f db.inodes ∙ t.targets q m j (entry_kept p q n m j es k).0;
      rooted = λ q m j k.
          let old = (entry_kept p q n m j es k).0 in
          Rooted-erase p n i es q found leaf
            (λ e.
              cc (sym leaf ∙ ap (λ x. has_children x es) (sym e) ∙ has_children-find q m j es old))
            (t.rooted q m j old);
    }

keep_all :
    (i : ℕ) (es : List Entry)
    → has_children i es ≡ false
    → keep (λ e. not (e.parent_id == i)) es ≡ es
keep_all i [] h = refl
keep_all i (e ∷ es) h = elim (Bool-cases (e.parent_id == i)) [
  | inl hit ↦ absurd (ground (arith, hit, h))
  | inr other ↦ rw other (ap (λ l. e ∷ l) (keep_all i es (ground (arith, other, h))))
]

-- The database without the inode and what belongs to it.
abbrev pub without_inode : ℕ → Db → Db
without_inode i db = record db {
  inodes = erase i db.inodes;
  file_chunks = keep (λ r. not (r.file_id == i)) db.file_chunks;
  inode_xattrs = keep (λ x. not (x.inode_id == i)) db.inode_xattrs;
}

-- `delete_node` raises nothing for an inode without links and without entries below it.
pub delete_node_lem :
    (i : ℕ) (db : Db)
    → is_some (lookup i db.inodes) ≡ true
    → links i db.dir_entries ≡ 0
    → has_children i db.dir_entries ≡ false
    → delete_node i db ≡ ok (without_inode i db)
unfolding delete_node
delete_node_lem i db there no_links leaf =
    ground (arith, there, no_links, keep_all i db.dir_entries leaf)

pub without_inode-IsTree :
    (i : ℕ) (db : Db)
    → IsTree db
    → (i == 1) ≡ false
    → links i db.dir_entries ≡ 0
    → has_children i db.dir_entries ≡ false
    → IsTree (without_inode i db)
without_inode-IsTree i db t not_root no_links leaf =
    let at = λ (j : ℕ). lookup-erase j i db.inodes in
    record {
      keyed = t.keyed;
      root_dir = ground (arith, at 1, not_root, t.root_dir);
      climbable = record {
        no_zero = ground (arith, at 0, t.climbable.no_zero);
        root_links = t.climbable.root_links;
        single = λ j d. ground (arith, at j, d, t.climbable.single j);
        parents = λ q m j k. elim (Bool-cases (q == i)) [
          | inl hit ↦
              let e : q ≡ i = ground (arith, hit) in
              cc (
                sym leaf
                ∙ ap (λ x. has_children x db.dir_entries) (sym e)
                ∙ has_children-find q m j db.dir_entries k)
          | inr other ↦ ground (arith, at q, other, t.climbable.parents q m j k)
        ];
      };
      counted = λ j node k other. ground (arith, at j, k, other, t.counted j node);
      targets = λ q m j k. elim (Bool-cases (j == i)) [
        | inl hit ↦
            let e : j ≡ i = ground (arith, hit) in
            absurd (
              omega (
                arith,
                links-find q m j db.dir_entries k,
                no_links,
                ap (λ x. links x db.dir_entries) e,
              ))
        | inr other ↦ ground (arith, at j, other, t.targets q m j k)
      ];
      rooted = t.rooted;
    }
