-- ===== src/Metadata/Trash.antt =====
-- metadata/namespace.py: `ensure_trash_directories`.
use ztierfs.Common.{
  ℕ, zero, suc, ◌+◌, ◌/◌, ◌%◌, Bool, not, ◌&&◌, Option, none, some, [], ◌∷◌, ltb, ◌==◌,
  if◌then◌else◌, Result, ok, err, Error, ◌>>=◌,
}
use ztierfs.Handles.{Kind}
use ztierfs.Metadata.Schema.{Db, Name}
use ztierfs.Metadata.Namespace.{Node, is_dir, child, insert_node, set_node_mode, set_node_owner}

-- `stat.S_IFDIR`, S_IFREG and S_IFLNK
abbrev pub s_ifdir : ℕ
s_ifdir = 16384

abbrev pub s_ifreg : ℕ
s_ifreg = 32768

abbrev pub s_iflnk : ℕ
s_iflnk = 40960

-- `.Trashes`
abbrev pub trash_root_name : Name
trash_root_name = 46 ∷ 84 ∷ 114 ∷ 97 ∷ 115 ∷ 104 ∷ 101 ∷ 115 ∷ []

-- `S_IFDIR | 0o1777` and `S_IFDIR | 0o700`
abbrev pub trash_root_mode : ℕ
trash_root_mode = s_ifdir + 1023

abbrev pub trash_user_mode : ℕ
trash_user_mode = s_ifdir + 448

-- The digits of a number in front of those that are there; a round for each digit is enough.
unfoldable pub digits : ℕ → ℕ → Name → Name
digits zero n rest = (48 + n % 10) ∷ rest
digits (suc fuel) n rest =
    let more = digits fuel (n / 10) ((48 + n % 10) ∷ rest) in
    if ltb n 10 then (48 + n) ∷ rest else more

-- `str(n)`
unfoldable pub decimal : ℕ → Name
decimal n = digits n n []

abbrev pub is_as_wanted : ℕ → ℕ → ℕ → Node → Bool
is_as_wanted mode uid gid node =
    node.inode.mode == mode && (node.inode.uid == uid && node.inode.gid == gid)

-- A directory of the trash with its mode and its owner, by what is at its name: it is made or put
-- right, and its id is returned.
unfoldable pub ensure_at : ℕ → Name → ℕ → ℕ → ℕ → ℕ → Option Node → Db → Result (ℕ × Db)
ensure_at parent name mode uid gid now none db =
    insert_node parent name Kind.dir mode uid gid now none db
ensure_at parent name mode uid gid now (some node) db =
    if not (is_dir node.inode.kind)
    then err Error.enotdir
    else if is_as_wanted mode uid gid node
    then ok (node.id, db)
    else ok (node.id, set_node_owner node.id uid gid now (set_node_mode node.id mode now db))

unfoldable pub ensure_directory : ℕ → Name → ℕ → ℕ → ℕ → ℕ → Db → Result (ℕ × Db)
ensure_directory parent name mode uid gid now db =
    ensure_at parent name mode uid gid now (child parent name db) db

unfoldable pub ensure_trash_directories : ℕ → ℕ → ℕ → Db → Result Db
ensure_trash_directories uid gid now db = do
  root ← ensure_directory 1 trash_root_name trash_root_mode 0 0 now db
  user ← ensure_directory root.0 (decimal uid) trash_user_mode uid gid now root.1
  ok user.1
