-- ===== src/Fuse/Changes/Renaming/Keeping.antt =====
-- inode_fuse.py: `rename` keeps the database sound, on every branch.
use ztierfs.Common.{
  ℕ, ◌≡◌, refl, sym, Bool, true, false, Option, none, some, ◌==◌, Result, ok, err, Error, ◌>>=◌,
  or_raise, arith, Bool-cases, inl, inr,
}
use ztierfs.Common.Dict.{lookup}
use ztierfs.Common.Utf8.{is_utf8, encode_text}
use ztierfs.Handles.{HandleTable}
use ztierfs.Access.{Caller, wx_ok, require_access}
use ztierfs.Metadata.Schema.{Db, Name, name_ok}
use ztierfs.Metadata.Entries.{find_entry, erase_entry, has_children, insert_entry, update_entry}
use ztierfs.Metadata.Namespace.{Node, dir_inode, child, move_entry}
use ztierfs.Metadata.Namespace.Rooted.{Rooted}
use ztierfs.Fuse.{node_by_ino, remove_entry_node}
use ztierfs.Fuse.Removing.{IsSound, remove_entry_node_lem}
use ztierfs.Fuse.Changes.{rename_names, rename_source}
use ztierfs.Fuse.Changes.{refuse_descendant, check_replaceable, move_over, replace_by, rename_inode}
use ztierfs.Fuse.Changes.Links.{
  Keeps, Keeps-bind, KeepsDb, KeepsDb-bind, child_found, or_raise-eq_ok,
}
use ztierfs.Fuse.Changes.Replacing.{without-Rooted, replaceable-leaf, found1}
use ztierfs.Fuse.Changes.Renaming.{replace_by_free, move_over_free, move_over_taken}

move_entry-unnamed :
    (p : ℕ) (n : Name) (q : ℕ) (m : Name) (s now : ℕ) (db : Db)
    → find_entry p n db.dir_entries ≡ some s
    → name_ok m ≡ false
    → move_entry p n q m s now db ≡ err Error.integrity
unfolding move_entry update_entry insert_entry
move_entry-unnamed p n q m s now db found unnamed = ground (arith, found, unnamed)

KeepsDb-then :
    {R : Type 0} (r : Result R) (f : R → Result Db)
    → ((x : R) → r ≡ ok x → KeepsDb (f x))
    → KeepsDb (r >>= f)
KeepsDb-then (err raised) f h = tt
KeepsDb-then (ok x) f h = h x refl

-- The replacement of a target keeps the database sound whatever the guards say.
replaced-KeepsDb :
    (p : ℕ) (n : Name) (source : Node) (q : ℕ) (m : Name) (now : ℕ) (handles : HandleTable)
    (db : Db) (target : Node)
    → IsSound db
    → find_entry p n db.dir_entries ≡ some source.id
    → dir_inode (lookup q db.inodes) ≡ true
    → Rooted (erase_entry p n db.dir_entries) q
    → child q m db ≡ some target
    → (target.id == source.id) ≡ false
    → has_children target.id db.dir_entries ≡ false
    → KeepsDb (
        remove_entry_node q m target now handles db >>= λ db'. move_entry p n q m source.id now db')
replaced-KeepsDb p n source q m now handles db target s found dir rooted at differ leaf =
    elim (Bool-cases (name_ok m)) [
      | inl named ↦
          let (db1, removed, moved, good) =
            move_over_taken p n source q m now handles db target s found dir rooted named at differ
              leaf in
          rw (removed, moved) good.sound
      | inr unnamed ↦
          let (at', there) = child_found q m db target at in
          let (db1, removed, taken) =
            remove_entry_node_lem q m target now handles db s at' there leaf in
          rw
            (
              removed,
              move_entry-unnamed p n q m source.id now db1
                  (found1 p n q m source.id now target handles db db1 s found at' differ leaf dir
                    rooted taken)
                  unnamed,
            )
            tt
    ]

replace_by-KeepsDb :
    (p : ℕ) (n : Name) (source : Node) (q : ℕ) (m : Name) (noreplace : Bool) (now : ℕ)
    (handles : HandleTable) (db : Db)
    → IsSound db
    → find_entry p n db.dir_entries ≡ some source.id
    → dir_inode (lookup q db.inodes) ≡ true
    → Rooted (erase_entry p n db.dir_entries) q
    → (there : Option Node) → child q m db ≡ there
    → KeepsDb (replace_by p n source q m noreplace now handles there db)
unfolding replace_by
replace_by-KeepsDb p n source q m noreplace now handles db s found dir rooted none at =
    elim (Bool-cases (name_ok m)) [
      | inl named ↦
          let (db', moved, good) =
            move_over_free p n source q m noreplace now handles db s found dir rooted named at in
          rw (sym (replace_by_free p n source q m noreplace now handles db at), moved) good.sound
      | inr unnamed ↦ rw (move_entry-unnamed p n q m source.id now db found unnamed) tt
    ]
replace_by-KeepsDb p n source q m true now handles db s found dir rooted (some target) at = tt
replace_by-KeepsDb p n source q m false now handles db s found dir rooted (some target) at =
    elim (Bool-cases (target.id == source.id)) [
      | inl same ↦ rw same s
      | inr differ ↦ rw differ (
          KeepsDb-then (check_replaceable source target db) _ (λ u passed.
            replaced-KeepsDb p n source q m now handles db target s found dir rooted at differ
              (replaceable-leaf source target db u s.tree (child_found q m db target at).1 passed)))
    ]

pub rename_inode-Keeps :
    (caller : Caller) (p : ℕ) (n : Name) (q : ℕ) (m : Name) (noreplace : Bool) (now : ℕ)
    (handles : HandleTable) (db : Db)
    → IsSound db
    → dir_inode (lookup q db.inodes) ≡ true
    → Rooted db.dir_entries q
    → Keeps (rename_inode caller p n q m noreplace now handles db)
unfolding rename_inode move_over
rename_inode-Keeps caller p n q m noreplace now handles db s dir rooted =
    Keeps-bind (or_raise (child p n db) Error.enoent) _ (λ source got.
      let (found, there) =
        child_found p n db source (or_raise-eq_ok (child p n db) Error.enoent source got) in
      Keeps-bind (node_by_ino p db) _ (λ old_parent _.
        Keeps-bind (node_by_ino q db) _ (λ target_parent _.
          Keeps-bind (require_access caller (some old_parent.inode) wx_ok) _ (λ _ _.
            Keeps-bind (require_access caller (some target_parent.inode) wx_ok) _ (λ _ _.
              Keeps-bind (refuse_descendant q source db) _ (λ u apart.
                KeepsDb-bind (move_over p n source q m noreplace now handles db) _
                  (replace_by-KeepsDb p n source q m noreplace now handles db s found dir
                    (without-Rooted p n source q db u s found there dir rooted apart) (child q m db)
                    refl)
                  (λ db' s'. s')))))))

pub rename_names-Keeps :
    (caller : Caller) (p : ℕ) (n : Name) (q : ℕ) (m : Name) (noreplace : Bool) (now : ℕ)
    (handles : HandleTable) (db : Db)
    → IsSound db
    → dir_inode (lookup q db.inodes) ≡ true
    → Rooted db.dir_entries q
    → Keeps (rename_names caller p n q m noreplace now handles db)
unfolding rename_names
rename_names-Keeps caller p n q m noreplace now handles db s dir rooted =
    Keeps-bind (encode_text n) _ (λ _ _. elim (Bool-cases (is_utf8 m)) [
      | inl text ↦ rw text (rename_inode-Keeps caller p n q m noreplace now handles db s dir rooted)
      | inr bytes ↦ rw bytes (Keeps-bind (rename_source caller p n q db) _ (λ _ _. tt))
    ])
