-- ===== src/Fuse/Serving/Callbacks.antt =====
-- inode_fuse.py: each callback leaves a mount that can serve the next request.
use ztierfs.Common.{
  ℕ, ◌+◌, ◌/◌, ◌%◌, Bool, Option, none, ltb, ◌==◌, Result, ok, err, Bool-cases, Result-cases, inl,
  inr,
}
use ztierfs.Common.Bytes.{Bytes}
use ztierfs.Handles.{Kind}
use ztierfs.Access.{Caller}
use ztierfs.Metadata.Trash.{s_ifreg}
use ztierfs.Metadata.Schema.{Db, Name}
use ztierfs.Fuse.{Mount, Outcome, after_trash, ensure_trash_directory_for_caller}
use ztierfs.Fuse.Removing.{IsSound}
use ztierfs.Fuse.Changes.{
  on_db, mknod, link, rename, make_node, permission_bits, remove_child_inode,
}
use ztierfs.Fuse.Changes.Links.{Keeps, make_node-Keeps, link_inode-Keeps}
use ztierfs.Fuse.Changes.Files.{remove_child_inode-Keeps}
use ztierfs.Fuse.Changes.Renaming.Keeping.{rename_names-Keeps}
use ztierfs.Fuse.Serving.{IsReached, IsServing}
use ztierfs.Fuse.Serving.Trash.{Grown, ensured_mount}

pub with_db-IsServing :
    (m : Mount) (db : Db) → IsServing m → IsSound db → IsServing (record m { db = db })
with_db-IsServing m db s sound = record { sound = sound; valid = s.valid; bound = s.bound }

-- A transaction over the database, on both branches.
pub on_db-IsServing :
    {Reply : Type 0} (m : Mount) (result : Result (Reply × Db))
    → IsServing m
    → Keeps result
    → IsServing (on_db m result).0
on_db-IsServing m (err raised) s k = s
on_db-IsServing m (ok r) s k = with_db-IsServing m r.1 s k

-- The rest of a callback starts from a mount that serves, whose directories are still there.
pub after_trash-IsServing :
    {Reply : Type 0} (caller : Caller) (now : ℕ) (m : Mount) (rest : Mount → Outcome Reply)
    → IsServing m
    → ((m' : Mount) → IsServing m' → Grown m.db m'.db → IsServing (rest m').0)
    → IsServing (after_trash caller now m rest).0
after_trash-IsServing caller now m rest s h =
    elim (Result-cases (ensure_trash_directory_for_caller caller now m)) [
      | inl (raised, e) ↦ rw e s
      | inr (m', e) ↦
          let (g, same) = ensured_mount caller now m m' s.sound e in
          rw e
            (h m' (record { sound = g.sound; valid = rw same s.valid; bound = rw same s.bound }) g)
    ]

-- A name is made in a directory of the tree.
pub made-IsServing :
    (caller : Caller) (parent : ℕ) (name : Name) (kind : Kind) (mode : ℕ) (target : Option Bytes)
    (now : ℕ) (m : Mount)
    → IsServing m
    → IsReached m.db parent
    → IsServing
        (after_trash caller now m
          (λ m'. on_db m' (make_node caller parent name kind mode target now m'.db))).0
made-IsServing caller parent name kind mode target now m s placed =
    after_trash-IsServing caller now m _ s (λ m' s' g.
      let r = g.kept parent placed in
      on_db-IsServing m' _ s'
        (make_node-Keeps caller parent name kind mode target now m'.db s'.sound r.dir r.rooted))

pub link-IsServing :
    (caller : Caller) (ino parent : ℕ) (name : Name) (now : ℕ) (m : Mount)
    → IsServing m
    → IsReached m.db parent
    → IsServing (link caller ino parent name now m).0
unfolding link
link-IsServing caller ino parent name now m s placed =
    after_trash-IsServing caller now m _ s (λ m' s' g.
      let r = g.kept parent placed in
      on_db-IsServing m' _ s'
        (link_inode-Keeps caller ino parent name now m'.db s'.sound r.dir r.rooted))

pub removed-IsServing :
    (caller : Caller) (parent : ℕ) (name : Name) (want_dir : Bool) (now : ℕ) (m : Mount)
    → IsServing m
    → IsServing
        (after_trash caller now m
          (λ m'. on_db m' (remove_child_inode caller parent name want_dir now m'.handles m'.db))).0
removed-IsServing caller parent name want_dir now m s =
    after_trash-IsServing caller now m _ s (λ m' s' g.
      on_db-IsServing m' _ s'
        (remove_child_inode-Keeps caller parent name want_dir now m'.handles m'.db s'.sound))

pub rename-IsServing :
    (caller : Caller) (p : ℕ) (n : Name) (q : ℕ) (n' : Name) (flags now : ℕ) (m : Mount)
    → IsServing m
    → IsReached m.db q
    → IsServing (rename caller p n q n' flags now m).0
unfolding rename
rename-IsServing caller p n q n' flags now m s placed = elim (Bool-cases (ltb 1 flags)) [
  | inl bad ↦ rw bad s
  | inr fine ↦ rw fine (
      after_trash-IsServing caller now m _ s (λ m' s' g.
        let r = g.kept q placed in
        on_db-IsServing m' _ s' (
          rename_names-Keeps caller p n q n' (flags == 1) now m'.handles m'.db s'.sound r.dir
            r.rooted)))
]

pub mknod-IsServing :
    (caller : Caller) (parent : ℕ) (name : Name) (mode now : ℕ) (m : Mount)
    → IsServing m
    → IsReached m.db parent
    → IsServing (mknod caller parent name mode now m).0
unfolding mknod
mknod-IsServing caller parent name mode now m s placed = elim (Bool-cases (mode / 4096 % 16 == 8)) [
  | inl regular ↦ rw regular (
      made-IsServing caller parent name Kind.file (s_ifreg + permission_bits mode) none now m s
        placed)
  | inr other ↦ rw other s
]
