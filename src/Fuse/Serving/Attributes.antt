-- ===== src/Fuse/Serving/Attributes.antt =====
-- inode_fuse.py: setting and removing an extended attribute keep the database sound.
use ztierfs.Common.{some, ℕ, refl, not, ◌&&◌, List, Error, raise_if, is_some, Bool-cases, inl, inr}
use ztierfs.Common.Bytes.{Bytes}
use ztierfs.Common.Dict.{lookup}
use ztierfs.Common.Utf8.{encode_text}
use ztierfs.Access.{Caller, w_ok, has_bit0, has_bit1, require_access}
use ztierfs.Metadata.Schema.{Inode, Db, Name, Xattr}
use ztierfs.Metadata.Namespace.{touch_ctime}
use ztierfs.Metadata.Xattrs.{xattr, set_xattr, remove_xattr}
use ztierfs.Fuse.{Mount, node_by_ino}
use ztierfs.Fuse.Removing.{IsSound}
use ztierfs.Fuse.Changes.Links.{Keeps, Keeps-bind, KeepsDb, KeepsDb-bind}
use ztierfs.Fuse.Queries.{setxattr, removexattr, set_xattr_inode, remove_xattr_inode}
use ztierfs.Fuse.Serving.{IsServing}
use ztierfs.Fuse.Serving.Trash.{changed-Grown}
use ztierfs.Fuse.Serving.Callbacks.{on_db-IsServing, after_trash-IsServing}

-- An extended attribute leaves the directories alone.
touched-IsSound :
    (i now : ℕ) (xattrs : List Xattr) (db : Db)
    → IsSound db
    → IsSound (touch_ctime i now (record db { inode_xattrs = xattrs }))
unfolding touch_ctime
touched-IsSound i now xattrs db s =
    let f = λ (node : Inode). record node { ctime_ns = now } in
    let g = changed-Grown i f db (λ x. refl) (λ x. refl) s in
    record {
      tree = record {
        keyed = g.sound.tree.keyed;
        root_dir = g.sound.tree.root_dir;
        climbable = g.sound.tree.climbable;
        counted = g.sound.tree.counted;
        targets = g.sound.tree.targets;
        rooted = g.sound.tree.rooted;
      };
      consistent = record { counts = g.sound.consistent.counts; rows = g.sound.consistent.rows };
      files = g.sound.files;
    }

set_xattr-KeepsDb :
    (i : ℕ) (name : Name) (value : Bytes) (now : ℕ) (db : Db)
    → IsSound db
    → KeepsDb (set_xattr i name value now db)
unfolding set_xattr
set_xattr-KeepsDb i name value now db s = elim (Bool-cases (is_some (lookup i db.inodes))) [
  | inl there ↦ rw there (touched-IsSound i now _ db s)
  | inr gone ↦ rw gone tt
]

pub set_xattr_inode-Keeps :
    (caller : Caller) (ino : ℕ) (name : Name) (value : Bytes) (options now : ℕ) (db : Db)
    → IsSound db
    → Keeps (set_xattr_inode caller ino name value options now db)
unfolding set_xattr_inode
set_xattr_inode-Keeps caller ino name value options now db s =
    Keeps-bind (node_by_ino ino db) _ (λ node _.
      Keeps-bind (require_access caller (some node.inode) w_ok) _ (λ _ _.
        Keeps-bind (encode_text name) _ (λ _ _.
          Keeps-bind (raise_if (has_bit0 options && is_some (xattr ino name db)) Error.eexist) _
            (λ _ _.
              Keeps-bind
                (raise_if (has_bit1 options && not (is_some (xattr ino name db))) Error.enoattr) _
                (λ _ _.
                  KeepsDb-bind (set_xattr ino name value now db) _
                    (set_xattr-KeepsDb ino name value now db s) (λ db' s'. s'))))))

remove_xattr-IsSound :
    (i : ℕ) (name : Name) (now : ℕ) (db : Db) → IsSound db → IsSound (remove_xattr i name now db).1
unfolding remove_xattr
remove_xattr-IsSound i name now db s = elim (Bool-cases (is_some (xattr i name db))) [
  | inl there ↦ rw there (touched-IsSound i now _ db s)
  | inr gone ↦ rw gone s
]

pub remove_xattr_inode-Keeps :
    (caller : Caller) (ino : ℕ) (name : Name) (now : ℕ) (db : Db)
    → IsSound db
    → Keeps (remove_xattr_inode caller ino name now db)
unfolding remove_xattr_inode
remove_xattr_inode-Keeps caller ino name now db s = Keeps-bind (node_by_ino ino db) _ (λ node _.
    Keeps-bind (require_access caller (some node.inode) w_ok) _ (λ _ _.
      Keeps-bind (encode_text name) _ (λ _ _.
        Keeps-bind (raise_if (not (remove_xattr ino name now db).0) Error.enoattr) _
          (λ _ _. remove_xattr-IsSound ino name now db s))))

pub setxattr-IsServing :
    (caller : Caller) (ino : ℕ) (name : Name) (value : Bytes) (options now : ℕ) (m : Mount)
    → IsServing m
    → IsServing (setxattr caller ino name value options now m).0
unfolding setxattr
setxattr-IsServing caller ino name value options now m s =
    after_trash-IsServing caller now m _ s (λ m' s' g.
      on_db-IsServing m' _ s'
        (set_xattr_inode-Keeps caller ino name value options now m'.db s'.sound))

pub removexattr-IsServing :
    (caller : Caller) (ino : ℕ) (name : Name) (now : ℕ) (m : Mount)
    → IsServing m
    → IsServing (removexattr caller ino name now m).0
unfolding removexattr
removexattr-IsServing caller ino name now m s = after_trash-IsServing caller now m _ s (λ m' s' g.
    on_db-IsServing m' _ s' (remove_xattr_inode-Keeps caller ino name now m'.db s'.sound))
