-- ===== src/Fuse/Serving/Releasing.antt =====
-- file_ops.py: `_release` deletes an inode without links when its last handle is closed.
use mathlib.Core.Option
use ztierfs.Common.{
  ℕ, ◌≡◌, refl, sym, ap, ◌∙◌, false, Option, none, some, List, ltb, ◌==◌, ok, is_some, arith,
  Bool-cases, Option-cases, inl, inr,
}
use ztierfs.Common.Dict.{Dict, lookup, erase, lookup-erase}
use ztierfs.Handles.{HandleTable, Fh, int, alien, has_open_file, release_int}
use ztierfs.Handles
use ztierfs.Handles.Counts.{release-IsValid}
use ztierfs.Locks
use ztierfs.Metadata.Schema.{Inode, Db, Entry}
use ztierfs.Metadata.Entries.{first_entry, links, has_children}
use ztierfs.Metadata.Entries.Laws.{found_child, links-find}
use ztierfs.Metadata.Namespace.{Node, node_by_id, inode_by_id}
use ztierfs.Metadata.Namespace.Rooted.{Rooted, root, down}
use ztierfs.Metadata.Namespace.Tree.{IsTree}
use ztierfs.Fuse.{Mount, cleanup_unlinked_inode, clean_up, clean_up_orphan, finish_release, release}
use ztierfs.Fuse.Removing.{IsSound, Deleted, file_inode, delete_inode_payload_lem}
use ztierfs.Fuse.Serving.{IsServing}

not_linked : (i : ℕ) (es : List Entry) → Rooted es i → (i == 1) ≡ false → links i es ≡ 0 → ⊥
not_linked i es (root e) other none_left = ground (arith, e, other)
not_linked i es (down p n found r) other none_left =
    omega (arith, links-find p n i es found, none_left)

-- An inode without links has no entries below it.
unlinked-leaf :
    (i : ℕ) (db : Db)
    → IsTree db
    → (i == 1) ≡ false
    → links i db.dir_entries ≡ 0
    → has_children i db.dir_entries ≡ false
unlinked-leaf i db t other none_left = elim (Bool-cases (has_children i db.dir_entries)) [
  | inr leaf ↦ leaf
  | inl some_child ↦
      let (n, j, found) = found_child i db.dir_entries t.keyed some_child in
      absurd (not_linked i db.dir_entries (t.rooted i n j found) other none_left)
]

pub cleanup_unlinked_inode_lem :
    (i now : ℕ) (node : Inode) (db : Db)
    → IsSound db
    → (i == 1) ≡ false
    → lookup i db.inodes ≡ some node
    → node.nlink ≡ 0
    → (db' : Db) × (cleanup_unlinked_inode i now db ≡ ok db') × Deleted i db db'
unfolding cleanup_unlinked_inode clean_up node_by_id
cleanup_unlinked_inode_lem i now node db s other found none_left =
    let no_links = sym (s.tree.counted i node found other) ∙ none_left in
    let no_more : ltb 0 node.nlink ≡ false = ground (arith, none_left) in
    let here : Node = record {
      id = i;
      inode = node;
      parent_id = Option.map (λ e. e.parent_id) (first_entry i db.dir_entries);
      name = Option.map (λ e. e.name) (first_entry i db.dir_entries);
    } in
    let (db', done, gone) =
      delete_inode_payload_lem here now db s (ap is_some found) (ap file_inode found) other no_links
        (unlinked-leaf i db s.tree other no_links) in
    (db', rw (found, no_more) done, gone)

-- The handle is given up, the locks of its owner too, and a file without links that no other handle
-- holds is gone, with its entries none of which there were.
module _ (i now : ℕ) (m : Mount) (sound : IsSound m.db) (other : (i == 1) ≡ false) where
  clean_up_orphan-IsSound :
      (there : Option Node)
      → inode_by_id i m.db ≡ there
      → IsSound (clean_up_orphan i now there m).0.db
        × ((clean_up_orphan i now there m).0.handles ≡ m.handles)
  unfolding clean_up_orphan inode_by_id
  clean_up_orphan-IsSound none got = (sound, refl)
  clean_up_orphan-IsSound (some node) got = elim (Bool-cases (node.inode.nlink == 0)) [
    | inr linked ↦ rw linked (sound, refl)
    | inl last ↦ elim (Option-cases (lookup i m.db.inodes)) [
      | inl missing ↦ absurd (ground (arith, missing, got))
      | inr (inode, found) ↦
          let (db', done, gone) =
            cleanup_unlinked_inode_lem i now inode m.db sound other found
              (ground (arith, found, got, last)) in
          rw (last, done) (gone.sound, refl)
    ]
  ]

finish_release-IsServing :
    (now : ℕ) (given : Option (ℕ × ℕ)) (m : Mount)
    → IsServing m
    → ((i owner : ℕ) → given ≡ some (i, owner) → (i == 1) ≡ false)
    → IsServing (finish_release now given m).0
unfolding finish_release
finish_release-IsServing now none m s h = s
finish_release-IsServing now (some (i, owner)) m s h =
    let m' = record m { locks = Locks.release_owner i owner m.locks } in
    elim (Bool-cases (has_open_file i m.handles)) [
      | inl still ↦ rw still (record { sound = s.sound; valid = s.valid; bound = s.bound })
      | inr closed ↦
          let (sound, same) =
            clean_up_orphan-IsSound i now m' s.sound (h i owner refl) (inode_by_id i m.db) refl in
          rw closed (record { sound = sound; valid = rw same s.valid; bound = rw same s.bound })
    ]

erased_bound : (fh k i : ℕ) (m : Dict ℕ) → lookup k (erase fh m) ≡ some i → lookup k m ≡ some i
erased_bound fh k i m h = ground (arith, lookup-erase k fh m, h)

-- A handle that is given up was bound to what `_release` looks at, and no handle is new.
pub released :
    (fh : Fh) (t : HandleTable)
    → ((k i : ℕ) → lookup k (Handles.release fh t).1.handles ≡ some i → lookup k t.handles ≡ some i)
      × ((i owner : ℕ)
          → (Handles.release fh t).0 ≡ some (i, owner)
          → (k : ℕ) × (lookup k t.handles ≡ some i))
unfolding Handles.release release_int
released (int fh) t = elim (Option-cases (lookup fh t.handles)) [
  | inl none_bound ↦ (
    λ k i h. erased_bound fh k i t.handles (ground (arith, none_bound, h)),
    λ i owner h. absurd (ground (arith, none_bound, h)),
  )
  | inr (f, bound) ↦ (
    λ k i h. erased_bound fh k i t.handles (ground (arith, bound, h)),
    λ i owner h. (fh, ground (arith, bound, h)),
  )
]
released alien t = (λ k i h. h, λ i owner h. cc)

pub release-IsServing :
    (fh : Fh) (now : ℕ) (m : Mount) → IsServing m → IsServing (release fh now m).0
unfolding release
release-IsServing fh now m s =
    let (fewer, given) = released fh m.handles in
    finish_release-IsServing now (Handles.release fh m.handles).0
      (record m { handles = (Handles.release fh m.handles).1 })
      (record {
        sound = s.sound;
        valid = release-IsValid fh m.handles s.valid;
        bound = λ k i h. s.bound k i (fewer k i h);
      })
      (λ i owner h. let (k, bound) = given i owner h in s.bound k i bound)
