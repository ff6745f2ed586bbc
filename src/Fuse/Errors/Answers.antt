-- ===== src/Fuse/Errors/Answers.antt =====
-- inode_fuse.py: a request is answered, or an errno is.
use mathlib.Core.Path.{subst}
use ztierfs.Common.{
  ℕ, ◌+◌, ◌/◌, ◌%◌, ◌≡◌, refl, true, false, not, Option, none, some, ltb, ◌==◌, Result, ok, err,
  Error, raise_if, arith, Bool-cases, Option-cases, Result-cases, inl, inr,
}
use ztierfs.Common.Dict.{lookup}
use ztierfs.Handles.{Fh, Kind, has_open_file}
use ztierfs.Handles
use ztierfs.Locks.{Cmd, LockType, FileLock, Flock, Table, apply, set_lock, conflict, end_of}
use ztierfs.Locks
use ztierfs.Access.{Caller, OpenFlags}
use ztierfs.Metadata.Schema.{Db, Name}
use ztierfs.Metadata.Namespace.{Node, is_file, inode_by_id}
use ztierfs.Metadata.Trash.{s_ifdir, s_ifreg, s_iflnk}
use ztierfs.Fuse.{
  Mount, Outcome, transaction, after_trash, ensure_trash_directory_for_caller, inode_by_ino,
  file_node_from_ino_or_fh, clean_up_orphan, finish_release, release,
}
use ztierfs.Fuse.Removing.{IsSound}
use ztierfs.Fuse.Changes.{
  on_db, mkdir, mknod, symlink, link, create, unlink, rmdir, rename, permission_bits, create_inode,
}
use ztierfs.Fuse.Queries.{setxattr, removexattr, lock_inode, lock_node, owner_or}
use ztierfs.Fuse.Serving.{
  Request, IsReached, IsPlaced, IsServing, mkdir_at, mknod_at, symlink_at, link_at, create_at,
  unlink_at, rmdir_at, rename_to, set_attribute, remove_attribute, lock_range, release_handle,
}
use ztierfs.Fuse.Serving.Trash.{Grown, ensured_mount}
use ztierfs.Fuse.Serving.Releasing.{cleanup_unlinked_inode_lem, released}
use ztierfs.Fuse.Errors.{
  is_errno, IsText, IsNew, IsPosix, IsNamed, answer, response, bind-IsPosix, raise_if-IsPosix,
  or_raise-IsPosix,
}
use ztierfs.Fuse.Errors.Bodies.{make_node-IsPosix, link_inode-IsPosix, remove_child_inode-IsPosix}
use ztierfs.Fuse.Errors.Moves.{
  rename_names-IsPosix, create_inode-IsPosix, set_xattr_inode-IsPosix, remove_xattr_inode-IsPosix,
}
use ztierfs.Fuse.Errors.Trashing.{ensure_trash-IsPosix}

answer-IsPosix : {R : Type 0} (o : Outcome R) → IsPosix o.1 → IsPosix (answer o)
answer-IsPosix o p = bind-IsPosix o.1 _ p (λ _ _. tt)

transaction-IsPosix :
    {R : Type 0} (m : Mount) (result : Result (R × Mount))
    → IsPosix result
    → IsPosix (answer (transaction m result))
transaction-IsPosix m (err raised) p = p
transaction-IsPosix m (ok r) p = tt

on_db-IsPosix :
    {R : Type 0} (m : Mount) (result : Result (R × Db))
    → IsPosix result
    → IsPosix (answer (on_db m result))
on_db-IsPosix m (err raised) p = p
on_db-IsPosix m (ok r) p = tt

after_trash-IsPosix :
    {R : Type 0} (caller : Caller) (now : ℕ) (m : Mount) (rest : Mount → Outcome R)
    → IsSound m.db
    → ((m' : Mount) → Grown m.db m'.db → IsPosix (answer (rest m')))
    → IsPosix (answer (after_trash caller now m rest))
after_trash-IsPosix caller now m rest s h =
    elim (Result-cases (ensure_trash_directory_for_caller caller now m)) [
      | inl (raised, e) ↦
          let p : is_errno raised ≡ true = subst IsPosix e (ensure_trash-IsPosix caller now m s) in
          rw e p
      | inr (m', e) ↦ rw e (h m' (ensured_mount caller now m m' s e).0)
    ]

rename-IsPosix :
    (caller : Caller) (p : ℕ) (n : Name) (q : ℕ) (n' : Name) (flags now : ℕ) (m : Mount)
    → IsSound m.db
    → IsReached m.db q
    → IsText n
    → IsNew n'
    → IsPosix (answer (rename caller p n q n' flags now m))
unfolding rename
rename-IsPosix caller p n q n' flags now m s placed text named = elim (Bool-cases (ltb 1 flags)) [
  | inl bad ↦ rw bad refl
  | inr fine ↦ rw fine (
      after_trash-IsPosix caller now m _ s (λ m' g. on_db-IsPosix m' _ (
        rename_names-IsPosix caller p n q n' (flags == 1) now m'.handles m'.db g.sound
          (g.kept q placed) text named)))
]

mknod-IsPosix :
    (caller : Caller) (p : ℕ) (n : Name) (mode now : ℕ) (m : Mount)
    → IsSound m.db
    → IsNew n
    → IsPosix (answer (mknod caller p n mode now m))
unfolding mknod
mknod-IsPosix caller p n mode now m s named = elim (Bool-cases (mode / 4096 % 16 == 8)) [
  | inr other ↦ rw other refl
  | inl regular ↦ rw regular (
      after_trash-IsPosix caller now m _ s (λ m' g. on_db-IsPosix m' _ (
        make_node-IsPosix caller p n Kind.file (s_ifreg + permission_bits mode) none now m'.db
          g.sound named tt refl)))
]

busy-IsPosix :
    (found : Option FileLock) (t : Table)
    → IsPosix (elim found [ some _ ↦ err Error.eagain | none ↦ ok t ])
busy-IsPosix none t = tt
busy-IsPosix (some c) t = refl

set_lock-IsPosix :
    (i owner pid : ℕ) (type : LockType) (start : ℕ) (end : Option ℕ) (t : Table)
    → IsPosix (set_lock i owner pid type start end t)
unfolding set_lock
set_lock-IsPosix i owner pid LockType.unlck start end t = tt
set_lock-IsPosix i owner pid LockType.other start end t = refl
set_lock-IsPosix i owner pid LockType.rdlck start end t =
    busy-IsPosix (conflict i owner LockType.rdlck start end t) _
set_lock-IsPosix i owner pid LockType.wrlck start end t =
    busy-IsPosix (conflict i owner LockType.wrlck start end t) _

quiet-IsPosix : (result : Result Table) → IsPosix result → IsPosix (Locks.quiet result)
quiet-IsPosix (err raised) p = p
quiet-IsPosix (ok t) p = tt

apply-IsPosix :
    (i owner pid : ℕ) (cmd : Cmd) (lock : Flock) (t : Table)
    → IsPosix (apply i owner pid cmd lock t)
unfolding apply
apply-IsPosix i owner pid Cmd.getlk lock t = tt
apply-IsPosix i owner pid Cmd.other lock t = refl
apply-IsPosix i owner pid Cmd.setlk lock t =
    quiet-IsPosix _
      (set_lock-IsPosix i owner pid lock.l_type lock.l_start (end_of lock.l_start lock.l_len) t)
apply-IsPosix i owner pid Cmd.setlkw lock t =
    quiet-IsPosix _
      (set_lock-IsPosix i owner pid lock.l_type lock.l_start (end_of lock.l_start lock.l_len) t)

lock_node-IsPosix :
    (caller : Caller) (fh : Fh) (cmd : Cmd) (lock : Flock) (m : Mount) (node : Node)
    → IsPosix (lock_node caller fh cmd lock m node)
unfolding lock_node
lock_node-IsPosix caller fh cmd lock m node =
    bind-IsPosix (raise_if (not (is_file node.inode.kind)) Error.eisdir) _
      (raise_if-IsPosix _ Error.eisdir refl)
      (λ _ _.
        bind-IsPosix
          (apply node.id (owner_or caller (Handles.lock_owner fh m.handles)) lock.l_pid cmd lock
            m.locks)
          _
          (apply-IsPosix node.id (owner_or caller (Handles.lock_owner fh m.handles)) lock.l_pid cmd
            lock m.locks)
          (λ _ _. tt))

lock_inode-IsPosix :
    (caller : Caller) (ino : ℕ) (fh : Fh) (cmd : Cmd) (lock : Flock) (m : Mount)
    → IsPosix (answer (lock_inode caller ino fh cmd lock m))
unfolding lock_inode file_node_from_ino_or_fh inode_by_ino
lock_inode-IsPosix caller ino fh cmd lock m = transaction-IsPosix m _ (
    bind-IsPosix (file_node_from_ino_or_fh ino fh m) (lock_node caller fh cmd lock m)
      (or_raise-IsPosix _ Error.enoent refl)
      (λ node _. lock_node-IsPosix caller fh cmd lock m node))

clean_up_orphan-IsPosix :
    (i now : ℕ) (m : Mount) (there : Option Node)
    → IsSound m.db
    → (i == 1) ≡ false
    → inode_by_id i m.db ≡ there
    → IsPosix (answer (clean_up_orphan i now there m))
unfolding clean_up_orphan inode_by_id
clean_up_orphan-IsPosix i now m none s other got = tt
clean_up_orphan-IsPosix i now m (some node) s other got =
    elim (Bool-cases (node.inode.nlink == 0)) [
      | inr linked ↦ rw linked tt
      | inl last ↦ elim (Option-cases (lookup i m.db.inodes)) [
        | inl missing ↦ absurd (ground (arith, missing, got))
        | inr (inode, found) ↦
            let (db', done, gone) =
              cleanup_unlinked_inode_lem i now inode m.db s other found
                (ground (arith, found, got, last)) in
            rw (last, done) tt
      ]
    ]

finish_release-IsPosix :
    (now : ℕ) (given : Option (ℕ × ℕ)) (m : Mount)
    → IsSound m.db
    → ((i owner : ℕ) → given ≡ some (i, owner) → (i == 1) ≡ false)
    → IsPosix (answer (finish_release now given m))
unfolding finish_release
finish_release-IsPosix now none m s h = tt
finish_release-IsPosix now (some (i, owner)) m s h = elim (Bool-cases (has_open_file i m.handles)) [
  | inl still ↦ rw still tt
  | inr closed ↦ rw closed (
      clean_up_orphan-IsPosix i now (record m { locks = Locks.release_owner i owner m.locks })
        (inode_by_id i m.db) s (h i owner refl) refl)
]

release-IsPosix :
    (fh : Fh) (now : ℕ) (m : Mount) → IsServing m → IsPosix (answer (release fh now m))
unfolding release
release-IsPosix fh now m s =
    finish_release-IsPosix now (Handles.release fh m.handles).0
      (record m { handles = (Handles.release fh m.handles).1 }) s.sound
      (λ i owner h. let (k, bound) = (released fh m.handles).1 i owner h in s.bound k i bound)

create-IsPosix :
    (caller : Caller) (p : ℕ) (n : Name) (mode : ℕ) (flags : OpenFlags) (now : ℕ) (m : Mount)
    → IsSound m.db
    → IsNew n
    → IsPosix (answer (create caller p n mode flags now m))
unfolding create
create-IsPosix caller p n mode flags now m s named = after_trash-IsPosix caller now m _ s (λ m' g.
    transaction-IsPosix m' _ (
      bind-IsPosix (create_inode caller p n mode flags now m'.db) _
        (create_inode-IsPosix caller p n mode flags now m'.db g.sound named) (λ _ _. tt)))

-- To each of the twelve requests mkdir, mknod, symlink, link, create, unlink, rmdir, rename, setxattr,
-- removexattr, a record lock and release, a mount that is able to serve raises nothing but an errno,
-- whatever the caller and the state of the directories: no constraint of the database is broken, no loop
-- over the directories goes on for ever and no inode is missed. Of the request it is asked that its parent
-- is a directory of the tree, that its names and the target of a symbolic link are UTF-8, and that a name
-- that it makes is not empty and has no slash.
pub response-IsPosix :
    (caller : Caller) (now : ℕ) (request : Request) (m : Mount)
    → IsServing m
    → IsPlaced request m.db
    → IsNamed request
    → IsPosix (response caller now request m)
unfolding response mkdir symlink link unlink rmdir setxattr removexattr
response-IsPosix caller now (mkdir_at p n mode) m s placed named =
    after_trash-IsPosix caller now m _ s.sound (λ m' g. on_db-IsPosix m' _ (
      make_node-IsPosix caller p n Kind.dir (s_ifdir + permission_bits mode) none now m'.db g.sound
        named tt refl))
response-IsPosix caller now (mknod_at p n mode) m s placed named =
    mknod-IsPosix caller p n mode now m s.sound named
response-IsPosix caller now (symlink_at target p n) m s placed named =
    after_trash-IsPosix caller now m _ s.sound (λ m' g. on_db-IsPosix m' _ (
      make_node-IsPosix caller p n Kind.symlink (s_iflnk + 511) (some target) now m'.db g.sound
        named.0 named.1 refl))
response-IsPosix caller now (link_at i p n) m s placed named =
    after_trash-IsPosix caller now m _ s.sound
      (λ m' g. on_db-IsPosix m' _ (link_inode-IsPosix caller i p n now m'.db g.sound named))
response-IsPosix caller now (create_at p n mode flags) m s placed named =
    create-IsPosix caller p n mode flags now m s.sound named
response-IsPosix caller now (unlink_at p n) m s placed named =
    after_trash-IsPosix caller now m _ s.sound (λ m' g.
      on_db-IsPosix m' _
        (remove_child_inode-IsPosix caller p n false now m'.handles m'.db g.sound named))
response-IsPosix caller now (rmdir_at p n) m s placed named =
    after_trash-IsPosix caller now m _ s.sound (λ m' g.
      on_db-IsPosix m' _
        (remove_child_inode-IsPosix caller p n true now m'.handles m'.db g.sound named))
response-IsPosix caller now (rename_to p n q n' flags) m s placed named =
    rename-IsPosix caller p n q n' flags now m s.sound placed named.0 named.1
response-IsPosix caller now (set_attribute i name value options) m s placed named =
    after_trash-IsPosix caller now m _ s.sound (λ m' g.
      on_db-IsPosix m' _ (set_xattr_inode-IsPosix caller i name value options now m'.db named))
response-IsPosix caller now (remove_attribute i name) m s placed named =
    after_trash-IsPosix caller now m _ s.sound
      (λ m' g. on_db-IsPosix m' _ (remove_xattr_inode-IsPosix caller i name now m'.db named))
response-IsPosix caller now (lock_range i fh cmd lock) m s placed named =
    lock_inode-IsPosix caller i fh cmd lock m
response-IsPosix caller now (release_handle fh) m s placed named = release-IsPosix fh now m s
