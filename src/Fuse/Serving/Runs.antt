-- ===== src/Fuse/Serving/Runs.antt =====
-- inode_fuse.py: whatever requests a mount serves, its directories stay a tree.
use mathlib.Core.Path.{subst}
use ztierfs.Common.{
  ℕ, ◌+◌, ◌≡◌, refl, true, false, Option, none, some, Result, ok, err, bind-eq_ok, arith,
  Result-cases, inl, inr,
}
use ztierfs.Handles.{HandleTable, Fh, Kind, Snapshot}
use ztierfs.Handles
use ztierfs.Locks.{Cmd, Flock, Table}
use ztierfs.Locks
use ztierfs.Access.{Caller}
use ztierfs.Metadata.Trash.{s_ifdir, s_iflnk}
use ztierfs.Metadata.Namespace.{Node}
use ztierfs.Fuse.{Mount, file_node_from_ino_or_fh, transaction}
use ztierfs.Fuse.Changes.{mkdir, symlink, unlink, rmdir, permission_bits}
use ztierfs.Fuse.Queries.{lock_node, lock_inode, owner_or}
use ztierfs.Fuse.Serving.{
  Request, serve, IsPlaced, IsServing, Run, mounted, served, mkdir_at, mknod_at, symlink_at,
  link_at, create_at, unlink_at, rmdir_at, rename_to, set_attribute, remove_attribute, lock_range,
  release_handle,
}
use ztierfs.Fuse.Serving.Releasing.{release-IsServing}
use ztierfs.Fuse.Serving.Callbacks.{
  made-IsServing, link-IsServing, removed-IsServing, rename-IsServing, mknod-IsServing,
}
use ztierfs.Fuse.Serving.Attributes.{setxattr-IsServing, removexattr-IsServing}
use ztierfs.Fuse.Serving.Creating.{create-IsServing}

transaction-IsServing :
    {Reply : Type 0} (m : Mount) (result : Result (Reply × Mount))
    → IsServing m
    → ((r : Reply × Mount) → result ≡ ok r → IsServing r.1)
    → IsServing (transaction m result).0
transaction-IsServing m (err raised) s h = s
transaction-IsServing m (ok r) s h = h r refl

-- The locks are all that an advisory lock changes.
lock_node-IsServing :
    (caller : Caller) (fh : Fh) (cmd : Cmd) (lock : Flock) (m : Mount) (node : Node)
    (r : Option Flock × Mount)
    → IsServing m
    → lock_node caller fh cmd lock m node ≡ ok r
    → IsServing r.1
unfolding lock_node
lock_node-IsServing caller fh cmd lock m node r s done =
    elim (Result-cases (
      Locks.apply node.id (owner_or caller (Handles.lock_owner fh m.handles)) lock.l_pid cmd lock
        m.locks)) [
          | inl (raised, e) ↦ absurd (ground (arith, e, done))
          | inr (applied, e) ↦
              let same : record m { locks = applied.1 } ≡ r.1 = ground (arith, e, done) in
              subst IsServing same (record { sound = s.sound; valid = s.valid; bound = s.bound })
        ]

lock_inode-IsServing :
    (caller : Caller) (ino : ℕ) (fh : Fh) (cmd : Cmd) (lock : Flock) (m : Mount)
    → IsServing m
    → IsServing (lock_inode caller ino fh cmd lock m).0
unfolding lock_inode
lock_inode-IsServing caller ino fh cmd lock m s = transaction-IsServing m _ s (λ r done.
    let (node, _, locked) =
      bind-eq_ok (file_node_from_ino_or_fh ino fh m) (lock_node caller fh cmd lock m) r done in
    lock_node-IsServing caller fh cmd lock m node r s locked)

-- Every request keeps the mount able to serve, whether it returns or raises.
serve-IsServing :
    (caller : Caller) (now : ℕ) (request : Request) (m : Mount)
    → IsServing m
    → IsPlaced request m.db
    → IsServing (serve caller now request m)
unfolding serve mkdir symlink unlink rmdir
serve-IsServing caller now (mkdir_at p n mode) m s placed =
    made-IsServing caller p n Kind.dir (s_ifdir + permission_bits mode) none now m s placed
serve-IsServing caller now (mknod_at p n mode) m s placed =
    mknod-IsServing caller p n mode now m s placed
serve-IsServing caller now (symlink_at target p n) m s placed =
    made-IsServing caller p n Kind.symlink (s_iflnk + 511) (some target) now m s placed
serve-IsServing caller now (link_at i p n) m s placed = link-IsServing caller i p n now m s placed
serve-IsServing caller now (create_at p n mode flags) m s placed =
    create-IsServing caller p n mode flags now m s placed
serve-IsServing caller now (unlink_at p n) m s placed = removed-IsServing caller p n false now m s
serve-IsServing caller now (rmdir_at p n) m s placed = removed-IsServing caller p n true now m s
serve-IsServing caller now (rename_to p n q n' flags) m s placed =
    rename-IsServing caller p n q n' flags now m s placed
serve-IsServing caller now (set_attribute i name value options) m s placed =
    setxattr-IsServing caller i name value options now m s
serve-IsServing caller now (remove_attribute i name) m s placed =
    removexattr-IsServing caller i name now m s
serve-IsServing caller now (lock_range i fh cmd lock) m s placed =
    lock_inode-IsServing caller i fh cmd lock m s
serve-IsServing caller now (release_handle fh) m s placed = release-IsServing fh now m s

-- After any run of the twelve requests mkdir, mknod, symlink, link, create, unlink, rmdir, rename,
-- setxattr, removexattr, a record lock and release, with parents that are directories of the tree, by
-- any callers and whether each returned or raised, a mount that was able to serve still is: the entries
-- form one tree under the root, `nlink` counts the entries of an inode, no directory has two, the
-- reference counts of the blocks are right, only files have chunks, and the open handles are counted and
-- none is bound to the root. The requests open, write and setattr are not among them.
pub Run-IsServing : (first last : Mount) → Run first last → IsServing first → IsServing last
Run-IsServing first last mounted s = s
Run-IsServing first last (served m caller now request run placed) s =
    serve-IsServing caller now request m (Run-IsServing first m run s) placed
