-- ===== src/Metadata/Entries.antt =====
-- metadata/namespace.py: the statements on the table `dir_entries`, whose primary key is the parent
-- with the name.
pub mod Laws
use ztierfs.Common.{
  ℕ, zero, suc, Bool, true, false, not, ◌&&◌, Option, none, some, List, [], ◌∷◌, ltb, ◌==◌,
  if◌then◌else◌, keep, total, any_of, Result, ok, err, Error, is_some,
}
use ztierfs.Common.Dict.{lookup}
use ztierfs.Common.Bytes.{same_bytes, bytes_lt}
use ztierfs.Metadata.Schema.{Db, Entry, Name, name_ok}

abbrev pub is_at : ℕ → Name → Entry → Bool
is_at parent name e = e.parent_id == parent && same_bytes e.name name

-- `SELECT inode_id FROM dir_entries WHERE parent_id = ? AND name = ?`
abbrev pub find_entry : ℕ → Name → List Entry → Option ℕ
find_entry parent name [] = none
find_entry parent name (e ∷ es) =
    if is_at parent name e then some e.inode_id else find_entry parent name es

-- `DELETE FROM dir_entries WHERE parent_id = ? AND name = ?`
abbrev pub erase_entry : ℕ → Name → List Entry → List Entry
erase_entry parent name [] = []
erase_entry parent name (e ∷ es) =
    if is_at parent name e then erase_entry parent name es else e ∷ erase_entry parent name es

-- The rows of an inode: its links.
abbrev pub is_link : ℕ → Entry → ℕ
is_link inode_id e = if e.inode_id == inode_id then 1 else 0

abbrev pub links : ℕ → List Entry → ℕ
links inode_id = total (is_link inode_id)

-- `has_children`
abbrev pub has_children : ℕ → List Entry → Bool
has_children parent = any_of (λ e. e.parent_id == parent)

-- `SELECT parent_id FROM dir_entries WHERE inode_id = ? LIMIT 1`
abbrev pub parent_of : ℕ → List Entry → Option ℕ
parent_of inode_id [] = none
parent_of inode_id (e ∷ es) =
    if e.inode_id == inode_id then some e.parent_id else parent_of inode_id es

-- `ORDER BY parent_id, name`
abbrev pub stands_before : Entry → Entry → Bool
stands_before a b =
    if a.parent_id == b.parent_id then bytes_lt a.name b.name else ltb a.parent_id b.parent_id

abbrev pub earlier : Entry → Option Entry → Entry
earlier e none = e
earlier e (some best) = if stands_before best e then best else e

-- `SELECT ... WHERE inode_id = ? ORDER BY parent_id, name LIMIT 1`
abbrev pub first_entry : ℕ → List Entry → Option Entry
first_entry inode_id [] = none
first_entry inode_id (e ∷ es) =
    let best = first_entry inode_id es in
    if e.inode_id == inode_id then some (earlier e best) else best

-- `INSERT INTO dir_entries`, with its CHECK, its foreign keys and its primary key.
unfoldable pub insert_entry : ℕ → Name → ℕ → Db → Result Db
insert_entry parent name inode_id db =
    if name_ok name
      && (is_some (lookup parent db.inodes)
          && (is_some (lookup inode_id db.inodes)
              && not (is_some (find_entry parent name db.dir_entries))))
    then ok (record db {
      dir_entries =
          record { parent_id = parent; name = name; inode_id = inode_id } ∷ db.dir_entries;
    })
    else err Error.integrity

abbrev pub holds_inode : Option ℕ → ℕ → Bool
holds_inode none inode_id = false
holds_inode (some i) inode_id = i == inode_id

-- `UPDATE dir_entries SET parent_id, name WHERE parent_id AND name AND inode_id`: the one row that
-- matches, if there is one, goes to its new key.
unfoldable pub update_entry : ℕ → Name → ℕ → Name → ℕ → Db → Result Db
update_entry parent name new_parent new_name inode_id db =
    if holds_inode (find_entry parent name db.dir_entries) inode_id
    then insert_entry new_parent new_name inode_id
        (record db { dir_entries = erase_entry parent name db.dir_entries })
    else ok db
