-- ===== src/Metadata/Listing.antt =====
-- metadata/namespace.py: the entries of a directory in the order of their names, in pages.

use ztierfs.Common.{
  ℕ, Bool, false, Option, none, some, List, [], ◌∷◌, ◌==◌, if◌then◌else◌, keep, map, take, drop,
}
use ztierfs.Common.Dict.{lookup}
use ztierfs.Common.Bytes.{bytes_lt}
use ztierfs.Metadata.Schema.{Db, Entry, Name}
use ztierfs.Metadata.Namespace.{Node}

-- `ORDER BY name`, by insertion.
abbrev pub insert_sorted : Entry → List Entry → List Entry
insert_sorted e [] = e ∷ []
insert_sorted e (x ∷ xs) = if bytes_lt x.name e.name then x ∷ insert_sorted e xs else e ∷ (x ∷ xs)

unfoldable pub order_by_name : List Entry → List Entry
order_by_name [] = []
order_by_name (e ∷ es) = insert_sorted e (order_by_name es)

-- `SELECT ... FROM dir_entries WHERE parent_id = ? ORDER BY name`
unfoldable pub entries_of : ℕ → Db → List Entry
entries_of parent db = order_by_name (keep (λ e. e.parent_id == parent) db.dir_entries)

unfoldable pub child_names : ℕ → Db → List Name
child_names parent db = map (λ e. e.name) (entries_of parent db)

-- The join with `inodes`; an entry without its inode has no row.
unfoldable pub join_nodes : List Entry → Db → List Node
join_nodes [] db = []
join_nodes (e ∷ es) db = elim (lookup e.inode_id db.inodes) [
  | none ↦ join_nodes es db
  | some node ↦
      record { id = e.inode_id; inode = node; parent_id = some e.parent_id; name = some e.name }
      ∷ join_nodes es db
]

unfoldable pub children : ℕ → Db → List Node
children parent db = join_nodes (entries_of parent db) db

-- `LIMIT limit OFFSET offset`
unfoldable pub children_page : ℕ → ℕ → ℕ → Db → List Node
children_page parent offset limit db = take limit (drop offset (children parent db))

-- The column `name` is there in every row of a listing.
abbrev pub comes_after : Name → Node → Bool
comes_after name node = elim node.name [ none ↦ false | some other ↦ bytes_lt name other ]

unfoldable pub children_after : ℕ → Option Name → ℕ → Db → List Node
children_after parent none limit db = children_page parent 0 limit db
children_after parent (some name) limit db =
    take limit (keep (comes_after name) (children parent db))
