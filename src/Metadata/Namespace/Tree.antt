-- ===== src/Metadata/Namespace/Tree.antt =====
-- metadata/namespace.py: the entries form a tree of directories, and `nlink` counts them; what each
-- statement keeps of this.

use ztierfs.Common.{
  ℕ, ◌≡◌, refl, sym, ap, ◌∙◌, true, false, Option, none, some, ◌∷◌, ◌==◌, if◌then◌else◌, is_some,
  arith, Bool-cases, Option-cases, inl, inr, ◌⊎◌,
}
use ztierfs.Common.Dict.{Dict, lookup, modify, lookup-modify}
use ztierfs.Metadata.Schema.{Inode, Db, Name}
use ztierfs.Metadata.Entries.{find_entry, links}
use ztierfs.Metadata.Entries.Laws.{same_key, IsKeyed}
use ztierfs.Metadata.Namespace.{dir_inode, is_dir}
use ztierfs.Metadata.Namespace.Rooted.{Rooted, IsClimbable}

pub record IsTree (db : Db) : Type 0 where
  pub keyed : IsKeyed db.dir_entries
  pub root_dir : dir_inode (lookup 1 db.inodes) ≡ true
  pub climbable : IsClimbable db.inodes db.dir_entries
  pub counted :
      (i : ℕ) (node : Inode)
      → lookup i db.inodes ≡ some node
      → (i == 1) ≡ false
      → node.nlink ≡ links i db.dir_entries
  pub targets :
      (p : ℕ) (n : Name) (i : ℕ)
      → find_entry p n db.dir_entries ≡ some i
      → is_some (lookup i db.inodes) ≡ true
  pub rooted :
      (p : ℕ) (n : Name) (i : ℕ) → find_entry p n db.dir_entries ≡ some i → Rooted db.dir_entries p

pub dir-is_some : (o : Option Inode) → dir_inode o ≡ true → is_some o ≡ true
dir-is_some none h = cc
dir-is_some (some node) h = refl

pub same_dir :
    (j i : ℕ) (f : Inode → Inode) (m : Dict Inode)
    → ((node : Inode) → (f node).kind ≡ node.kind)
    → dir_inode (lookup j (modify i f m)) ≡ dir_inode (lookup j m)
same_dir j i f m kind = elim (Option-cases (lookup j m)) [
  | inl gone ↦ ground (arith, gone, lookup-modify j i f m)
  | inr (node, found) ↦ ground (arith, found, lookup-modify j i f m, ap is_dir (kind node))
]

pub same_there :
    (j i : ℕ) (f : Inode → Inode) (m : Dict Inode)
    → is_some (lookup j (modify i f m)) ≡ is_some (lookup j m)
same_there j i f m = elim (Option-cases (lookup j m)) [
  | inl gone ↦ ground (arith, gone, lookup-modify j i f m)
  | inr (node, found) ↦ ground (arith, found, lookup-modify j i f m)
]

-- The row that an UPDATE of one inode was made from.
pub modified :
    (j i : ℕ) (f : Inode → Inode) (m : Dict Inode) (node : Inode)
    → lookup j (modify i f m) ≡ some node
    → (old : Inode) × (lookup j m ≡ some old) × (node ≡ (if j == i then f old else old))
modified j i f m node found = elim (Option-cases (lookup j m)) [
  | inl gone ↦ absurd (ground (arith, found, gone, lookup-modify j i f m))
  | inr (old, there) ↦ (old, there, ground (arith, found, there, lookup-modify j i f m))
]

-- The columns of an inode that are no part of the tree.
pub modify-IsTree :
    (i : ℕ) (f : Inode → Inode) (db : Db)
    → ((node : Inode) → (f node).kind ≡ node.kind)
    → ((node : Inode) → (f node).nlink ≡ node.nlink)
    → IsTree db
    → IsTree (record db { inodes = modify i f db.inodes })
modify-IsTree i f db kind nlink t =
    let at = λ (j : ℕ). lookup-modify j i f db.inodes in
    let dir : (j : ℕ)
        → dir_inode (lookup j (modify i f db.inodes)) ≡ dir_inode (lookup j db.inodes) =
      λ j. same_dir j i f db.inodes kind in
    record {
      keyed = t.keyed;
      root_dir = dir 1 ∙ t.root_dir;
      climbable = record {
        no_zero = ground (arith, at 0, t.climbable.no_zero);
        root_links = t.climbable.root_links;
        single = λ j d. t.climbable.single j (sym (dir j) ∙ d);
        parents = λ p n j found. dir p ∙ t.climbable.parents p n j found;
      };
      counted = λ j node found other.
          let (old, there, e) = modified j i f db.inodes node found in
          ground (arith, ap (λ x. x.nlink) e, nlink old, t.counted j old there other);
      targets = λ p n j found. same_there j i f db.inodes ∙ t.targets p n j found;
      rooted = t.rooted;
    }

-- What a new entry needs.
pub entry_added :
    (p : ℕ) (n : Name) (i : ℕ) (db : Db)
    → find_entry p n db.dir_entries ≡ none
    → (q : ℕ) (m : Name) (j : ℕ)
    → find_entry q m (record { parent_id = p; name = n; inode_id = i } ∷ db.dir_entries) ≡ some j
    → ((q ≡ p) × (j ≡ i)) ⊎ (find_entry q m db.dir_entries ≡ some j)
entry_added p n i db fresh q m j found = elim (Bool-cases (same_key p n q m)) [
  | inl same ↦ inl (ground (arith, same), ground (arith, same, found))
  | inr other ↦ inr (ground (arith, other, found))
]
