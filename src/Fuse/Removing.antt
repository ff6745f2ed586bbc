-- ===== src/Fuse/Removing.antt =====
-- file_ops.py: `_remove_entry_node` and `_delete_inode_payload` keep the database sound.
use ztierfs.Common.{
  ℕ, ◌+◌, ◌≡◌, refl, sym, ap, ◌∙◌, Bool, true, false, ◌||◌, Option, none, some, List, ltb, leb,
  ◌==◌, if◌then◌else◌, ok, is_some, arith, Bool-cases, Option-cases, inl, inr,
}
use ztierfs.Common.Dict.{Dict, lookup, erase, modify, lookup-erase, lookup-modify}
use ztierfs.Handles.{HandleTable, has_open_file}
use ztierfs.Metadata.Schema.{Inode, Db, Entry, Name, Chunk}
use ztierfs.Metadata.Entries.{find_entry, erase_entry, links, has_children}
use ztierfs.Metadata.Entries.Laws.{links-erase, no_more_children}
use ztierfs.Metadata.Chunks.Mapping.{chunk_at}
use ztierfs.Metadata.Deltas.{IsConsistent}
use ztierfs.Metadata.Namespace.{Node, is_file}
use ztierfs.Metadata.Namespace.Tree.{IsTree}
use ztierfs.Metadata.Namespace.Shrinking.{
  without_entry, without_inode, unlinked, remove_entry_lem, without_entry-IsTree, delete_node_lem,
  without_inode-IsTree, target_not_root,
}
use ztierfs.Store.Truncating.Removing.{Removed, remove_file_chunks_lem, no_rows}
use ztierfs.Fuse.{delete_inode_payload, remove_entry_node}

abbrev pub file_inode : Option Inode → Bool
file_inode none = false
file_inode (some node) = is_file node.kind

-- The entries form a tree, the counts of the blocks are right, and only files have chunks.
pub record IsSound (db : Db) : Type 0 where
  pub tree : IsTree db
  pub consistent : IsConsistent db
  pub files :
      (f j : ℕ) (mapped : ℕ × ℕ)
      → chunk_at f j db.file_chunks ≡ some mapped
      → file_inode (lookup f db.inodes) ≡ true

-- A change of the directories and of inodes leaves the rest.
pub IsSound-inodes :
    (db : Db) (inodes : Dict Inode) (entries : List Entry)
    → IsSound db
    → IsTree (record db { inodes = inodes; dir_entries = entries })
    → ((f : ℕ) → file_inode (lookup f db.inodes) ≡ true → file_inode (lookup f inodes) ≡ true)
    → IsSound (record db { inodes = inodes; dir_entries = entries })
IsSound-inodes db inodes entries s t kept = record {
  tree = t;
  consistent = record { counts = s.consistent.counts; rows = s.consistent.rows };
  files = λ f j mapped m. kept f (s.files f j mapped m);
}

pub modify-files :
    (i : ℕ) (g : Inode → Inode) (m : Dict Inode)
    → ((node : Inode) → (g node).kind ≡ node.kind)
    → (f : ℕ) → file_inode (lookup f m) ≡ true
    → file_inode (lookup f (modify i g m)) ≡ true
modify-files i g m kind f h = elim (Option-cases (lookup f m)) [
  | inl gone ↦ ground (arith, gone, h)
  | inr (node, found) ↦ ground (arith, found, h, lookup-modify f i g m, ap is_file (kind node))
]

IsTree-same :
    (db db' : Db)
    → db'.inodes ≡ db.inodes
    → db'.dir_entries ≡ db.dir_entries
    → IsTree db
    → IsTree db'
IsTree-same db db' ei ee t = record {
  keyed = rw ee t.keyed;
  root_dir = rw ei t.root_dir;
  climbable = rw (ei, ee) t.climbable;
  counted = rw (ei, ee) t.counted;
  targets = rw (ei, ee) t.targets;
  rooted = rw ee t.rooted;
}

-- The inode is gone, with all its chunks.
deleted-IsSound :
    (i : ℕ) (db : Db)
    → IsSound db
    → (i == 1) ≡ false
    → links i db.dir_entries ≡ 0
    → has_children i db.dir_entries ≡ false
    → ((j : ℕ) → chunk_at i j db.file_chunks ≡ none)
    → IsSound (without_inode i db)
deleted-IsSound i db s not_root no_links leaf no_chunks =
    let same = no_rows i db.file_chunks no_chunks in
    record {
      tree = without_inode-IsTree i db s.tree not_root no_links leaf;
      consistent = record { counts = rw same s.consistent.counts; rows = s.consistent.rows };
      files = λ f j mapped m.
          let m' : chunk_at f j db.file_chunks ≡ some mapped = ap (chunk_at f j) (sym same) ∙ m in
          elim (Bool-cases (f == i)) [
            | inl hit ↦
                let e : f ≡ i = ground (arith, hit) in
                cc (sym m' ∙ ap (λ x. chunk_at x j db.file_chunks) e ∙ no_chunks j)
            | inr other ↦ ground (arith, other, lookup-erase f i db.inodes, s.files f j mapped m')
          ];
    }

-- A chunk that is left was there before.
kept_chunk :
    (i f first j : ℕ) (mapped : ℕ × ℕ) (rows rows' : List Chunk)
    → chunk_at f j rows'
      ≡ (if i == f then (if leb first j then none else chunk_at f j rows) else chunk_at f j rows)
    → chunk_at f j rows' ≡ some mapped
    → chunk_at f j rows ≡ some mapped
kept_chunk i f first j mapped rows rows' h m = elim (Bool-cases (i == f)) [
  | inl hit ↦ ground (arith, hit, h, m)
  | inr other ↦ ground (arith, other, h, m)
]

pub Removed-IsSound :
    (f first : ℕ) (db db' : Db) → Removed f first db db' → IsSound db → IsSound db'
Removed-IsSound f first db db' r s = record {
  tree = IsTree-same db db' r.inodes r.entries s.tree;
  consistent = r.consistent;
  files = λ g j mapped m. rw r.inodes (
      s.files g j mapped
        (kept_chunk f g first j mapped db.file_chunks db'.file_chunks (r.mapped g j) m));
}

-- The database after a payload is deleted.
pub record Deleted (i : ℕ) (db db' : Db) : Type 0 where
  pub sound : IsSound db'
  pub entries : db'.dir_entries ≡ db.dir_entries
  pub inodes : db'.inodes ≡ erase i db.inodes

pub delete_inode_payload_lem :
    (node : Node) (now : ℕ) (db : Db)
    → IsSound db
    → is_some (lookup node.id db.inodes) ≡ true
    → (file_inode (lookup node.id db.inodes) ≡ is_file node.inode.kind)
    → (node.id == 1) ≡ false
    → links node.id db.dir_entries ≡ 0
    → has_children node.id db.dir_entries ≡ false
    → (db' : Db) × (delete_inode_payload node now db ≡ ok db') × Deleted node.id db db'
unfolding delete_inode_payload
delete_inode_payload_lem node now db s there kind not_root no_links leaf =
    elim (Bool-cases (is_file node.inode.kind)) [
      | inl file ↦
          let (db1, done, r) = remove_file_chunks_lem node.id 0 now db s.consistent there in
          let s1 = Removed-IsSound node.id 0 db db1 r s in
          (
            without_inode node.id db1,
            rw (file, done)
                (delete_node_lem node.id db1 (rw r.inodes there) (rw r.entries no_links)
                  (rw r.entries leaf)),
            record {
              sound =
                  deleted-IsSound node.id db1 s1 not_root (rw r.entries no_links)
                    (rw r.entries leaf) (λ j. r.mapped node.id j ∙ ground arith);
              entries = r.entries;
              inodes = ap (erase node.id) r.inodes;
            },
          )
      | inr other ↦ (
        without_inode node.id db,
        rw other (delete_node_lem node.id db there no_links leaf),
        record {
          sound = deleted-IsSound node.id db s not_root no_links leaf (λ j.
              elim (Option-cases (chunk_at node.id j db.file_chunks)) [
                | inl gone ↦ gone
                | inr (mapped, m) ↦ cc (s.files node.id j mapped m, kind, other)
              ]);
          entries = refl;
          inodes = refl;
        },
      )
    ]

-- The database after an entry is taken away: the inode goes with its last link, unless it is open.
pub record Taken (p : ℕ) (n : Name) (node : Node) (now : ℕ) (handles : HandleTable) (db db' : Db)
    : Type 0 where
  pub sound : IsSound db'
  pub entries : db'.dir_entries ≡ erase_entry p n db.dir_entries
  pub inode : lookup node.id db'.inodes ≡ (
      if ltb 1 node.inode.nlink || has_open_file node.id handles
      then some (unlinked now node.inode)
      else none)
  pub others : (j : ℕ) → (j == node.id) ≡ false → lookup j db'.inodes ≡ lookup j db.inodes

taken_inode :
    (node : Node) (now : ℕ) (db : Db)
    → lookup node.id db.inodes ≡ some node.inode
    → lookup node.id (modify node.id (unlinked now) db.inodes) ≡ some (unlinked now node.inode)
taken_inode node now db found =
    ground (arith, found, lookup-modify node.id node.id (unlinked now) db.inodes)

-- Taking an entry without entries below it away raises nothing on a sound database. That entry is gone
-- and no other; the inode has one link less, and is gone if that was the last one and no handle is open
-- on it; every other inode is as before, and the database is sound again.
pub remove_entry_node_lem :
    (p : ℕ) (n : Name) (node : Node) (now : ℕ) (handles : HandleTable) (db : Db)
    → IsSound db
    → find_entry p n db.dir_entries ≡ some node.id
    → lookup node.id db.inodes ≡ some node.inode
    → has_children node.id db.dir_entries ≡ false
    → (db' : Db) × (remove_entry_node p n node now handles db ≡ ok db')
      × Taken p n node now handles db db'
unfolding remove_entry_node
remove_entry_node_lem p n node now handles db s found there leaf =
    let i = node.id in
    let db1 = without_entry p n i now db in
    let left = links i (erase_entry p n db.dir_entries) in
    let removed = remove_entry_lem p n i now db s.tree found in
    let not_root = target_not_root p n i db s.tree found in
    let count : left + 1 ≡ node.inode.nlink = ground (
      arith,
      links-erase i p n i db.dir_entries s.tree.keyed found,
      s.tree.counted i node.inode there not_root,
    ) in
    let s1 : IsSound db1 =
      IsSound-inodes db (modify i (unlinked now) db.inodes) (erase_entry p n db.dir_entries) s
        (without_entry-IsTree p n i now db s.tree found leaf)
        (modify-files i (unlinked now) db.inodes (λ x. refl)) in
    let here = taken_inode node now db there in
    let others = λ (j : ℕ). lookup-modify j i (unlinked now) db.inodes in
    elim (Bool-cases (ltb 0 left || has_open_file i handles)) [
      | inl kept ↦ (
        db1,
        rw (removed, kept) refl,
        record {
          sound = s1;
          entries = refl;
          inode = here ∙ ground (arith, kept, count);
          others = λ j ne. ground (arith, ne, others j);
        },
      )
      | inr last ↦
          let leaf1 = no_more_children i p n db.dir_entries leaf in
          let (db2, done, d) =
            delete_inode_payload_lem node now db1 s1 (ap is_some here) (ap file_inode here) not_root
              (ground (arith, last)) leaf1 in
          (
            db2,
            rw (removed, last) done,
            record {
              sound = d.sound;
              entries = d.entries;
              inode =
                  ap (lookup i) d.inodes ∙ ground (arith, last, count, lookup-erase i i db1.inodes);
              others = λ j ne.
                  ap (lookup j) d.inodes
                  ∙ ground (arith, ne, lookup-erase j i db1.inodes, others j);
            },
          )
    ]
