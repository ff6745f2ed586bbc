-- ===== src/Metadata/Xattrs.antt =====
-- metadata/namespace.py: the extended attributes.
use ztierfs.Common.{
  ℕ, Bool, true, false, not, ◌&&◌, Option, none, some, List, [], ◌∷◌, ◌==◌, if◌then◌else◌, keep,
  map, is_some, Result, ok, err, Error,
}
use ztierfs.Common.Dict.{lookup}
use ztierfs.Common.Bytes.{Bytes, same_bytes, bytes_lt}
use ztierfs.Metadata.Schema.{Db, Xattr, Name}
use ztierfs.Metadata.Namespace.{touch_ctime}

abbrev pub is_xattr : ℕ → Name → Xattr → Bool
is_xattr i name x = x.inode_id == i && same_bytes x.name name

abbrev pub find_xattr : ℕ → Name → List Xattr → Option Bytes
find_xattr i name [] = none
find_xattr i name (x ∷ xs) = if is_xattr i name x then some x.value else find_xattr i name xs

unfoldable pub xattr : ℕ → Name → Db → Option Bytes
xattr i name db = find_xattr i name db.inode_xattrs

abbrev pub insert_name : Name → List Name → List Name
insert_name n [] = n ∷ []
insert_name n (m ∷ names) = if bytes_lt m n then m ∷ insert_name n names else n ∷ (m ∷ names)

abbrev pub sort_names : List Name → List Name
sort_names [] = []
sort_names (n ∷ names) = insert_name n (sort_names names)

unfoldable pub xattr_names : ℕ → Db → List Name
xattr_names i db = sort_names (map (λ x. x.name) (keep (λ x. x.inode_id == i) db.inode_xattrs))

-- `INSERT ... ON CONFLICT DO UPDATE`, with the foreign key on the inode.
unfoldable pub set_xattr : ℕ → Name → Bytes → ℕ → Db → Result Db
set_xattr i name value now db =
    if is_some (lookup i db.inodes)
    then ok (
        touch_ctime i now (record db {
          inode_xattrs =
              record { inode_id = i; name = name; value = value }
              ∷ keep (λ x. not (is_xattr i name x)) db.inode_xattrs;
        }))
    else err Error.integrity

unfoldable pub remove_xattr : ℕ → Name → ℕ → Db → Bool × Db
remove_xattr i name now db =
    if is_some (xattr i name db)
    then (
      true,
      touch_ctime i now
          (record db { inode_xattrs = keep (λ x. not (is_xattr i name x)) db.inode_xattrs }),
    )
    else (false, db)
