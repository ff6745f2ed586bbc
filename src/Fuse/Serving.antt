-- ===== src/Fuse/Serving.antt =====
-- inode_fuse.py: a mount that serves requests one after another.
pub mod Trash
pub mod Releasing
pub mod Callbacks
pub mod Attributes
pub mod Creating
pub mod Runs
use ztierfs.Common.{ℕ, ◌≡◌, true, false, none, some, ◌==◌, Result, ok, err, Error}
use ztierfs.Common.Bytes.{Bytes}
use ztierfs.Common.Dict.{lookup}
use ztierfs.Handles.{Fh}
use ztierfs.Handles.Counts.{IsValid}
use ztierfs.Locks.{Cmd, Flock}
use ztierfs.Access.{Caller, OpenFlags}
use ztierfs.Metadata.Schema.{Db, Name}
use ztierfs.Metadata.Namespace.{dir_inode}
use ztierfs.Metadata.Namespace.Rooted.{Rooted}
use ztierfs.Fuse.{Mount, Outcome, release}
use ztierfs.Fuse.Removing.{IsSound}
use ztierfs.Fuse.Changes.{mkdir, mknod, symlink, link, create, unlink, rmdir, rename}
use ztierfs.Fuse.Queries

-- The callbacks that change the directories, the inodes, the handles or the locks, with their arguments.
pub data Request : Type 0 where
  mkdir_at : ℕ → Name → ℕ → Request
  mknod_at : ℕ → Name → ℕ → Request
  symlink_at : Bytes → ℕ → Name → Request
  link_at : ℕ → ℕ → Name → Request
  create_at : ℕ → Name → ℕ → OpenFlags → Request
  unlink_at : ℕ → Name → Request
  rmdir_at : ℕ → Name → Request
  rename_to : ℕ → Name → ℕ → Name → ℕ → Request
  set_attribute : ℕ → Name → Bytes → ℕ → Request
  remove_attribute : ℕ → Name → Request
  lock_range : ℕ → Fh → Cmd → Flock → Request
  release_handle : Fh → Request

-- The mount after a request, whether it returned or raised.
unfoldable pub serve : Caller → ℕ → Request → Mount → Mount
serve caller now (mkdir_at parent name mode) m = (mkdir caller parent name mode now m).0
serve caller now (mknod_at parent name mode) m = (mknod caller parent name mode now m).0
serve caller now (symlink_at target parent name) m = (symlink caller target parent name now m).0
serve caller now (link_at ino parent name) m = (link caller ino parent name now m).0
serve caller now (create_at parent name mode flags) m =
    (create caller parent name mode flags now m).0
serve caller now (unlink_at parent name) m = (unlink caller parent name now m).0
serve caller now (rmdir_at parent name) m = (rmdir caller parent name now m).0
serve caller now (rename_to parent name new_parent new_name flags) m =
    (rename caller parent name new_parent new_name flags now m).0
serve caller now (set_attribute ino name value options) m =
    (Queries.setxattr caller ino name value options now m).0
serve caller now (remove_attribute ino name) m = (Queries.removexattr caller ino name now m).0
serve caller now (lock_range ino fh cmd lock) m = (Queries.lock_inode caller ino fh cmd lock m).0
serve caller now (release_handle fh) m = (release fh now m).0

-- An inode that is a directory of the tree.
pub record IsReached (db : Db) (d : ℕ) : Type 0 where
  pub dir : dir_inode (lookup d db.inodes) ≡ true
  pub rooted : Rooted db.dir_entries d

-- The parent in which a request makes a name is a directory of the tree.
abbrev pub IsPlaced : Request → Db → Type 0
IsPlaced (mkdir_at parent _ _) db = IsReached db parent
IsPlaced (mknod_at parent _ _) db = IsReached db parent
IsPlaced (symlink_at _ parent _) db = IsReached db parent
IsPlaced (link_at _ parent _) db = IsReached db parent
IsPlaced (create_at parent _ _ _) db = IsReached db parent
IsPlaced (rename_to _ _ new_parent _ _) db = IsReached db new_parent
IsPlaced _ db = Unit

-- The database is sound, the handles are counted, and no handle is bound to the root.
pub record IsServing (m : Mount) : Type 0 where
  pub sound : IsSound m.db
  pub valid : IsValid m.handles
  pub bound : (fh i : ℕ) → lookup fh m.handles.handles ≡ some i → (i == 1) ≡ false

-- The mounts that a run of requests leads to.
pub data Run (first : Mount) : Mount → Type 0 where
  mounted : Run first first
  served :
      (m : Mount) (caller : Caller) (now : ℕ) (request : Request)
      → Run first m
      → IsPlaced request m.db
      → Run first (serve caller now request m)
