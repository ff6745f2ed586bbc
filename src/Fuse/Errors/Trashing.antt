-- ===== src/Fuse/Errors/Trashing.antt =====
-- metadata/namespace.py and filesystem.py: making the trash directories raises nothing but an errno.
use ztierfs.Common.{
  ℕ, zero, suc, ◌+◌, ◌/◌, ◌%◌, ◌≡◌, refl, true, false, Option, none, some, [], ◌∷◌, ltb, length,
  contains, is_some, arith, Bool-cases, inl, inr,
}
use ztierfs.Common.Dict.{lookup}
use ztierfs.Handles.{Kind}
use ztierfs.Access.{Caller}
use ztierfs.Metadata.Schema.{Db, Name, name_ok}
use ztierfs.Metadata.Namespace.{Node, is_dir, child}
use ztierfs.Metadata.Namespace.Rooted.{root}
use ztierfs.Metadata.Namespace.Tree.{IsTree, dir-is_some}
use ztierfs.Metadata.Trash.{
  digits, decimal, is_as_wanted, ensure_at, ensure_directory, ensure_trash_directories,
  trash_root_name, trash_root_mode, trash_user_mode,
}
use ztierfs.Fuse.{Mount, ensure_trash_directory_for_caller}
use ztierfs.Fuse.Removing.{IsSound}
use ztierfs.Fuse.Serving.{IsReached}
use ztierfs.Fuse.Serving.Trash.{ensured-Grown}
use ztierfs.Fuse.Errors.{IsPosix, bind-IsPosix}
use ztierfs.Fuse.Errors.Bodies.{insert_node-IsPosix}

-- The digits of a number are no slash.
no_slash :
    (fuel n : ℕ) (rest : Name)
    → contains 47 rest ≡ false
    → (contains 47 (digits fuel n rest) ≡ false) × (ltb 0 (length (digits fuel n rest)) ≡ true)
unfolding digits
no_slash zero n rest h = (ground (arith, h), ground arith)
no_slash (suc fuel) n rest h =
    let more = no_slash fuel (n / 10) ((48 + n % 10) ∷ rest) (ground (arith, h)) in
    elim (Bool-cases (ltb n 10)) [
      | inl last ↦ (ground (arith, last, h), ground (arith, last))
      | inr go ↦ (rw go more.0, rw go more.1)
    ]

decimal-name_ok : (n : ℕ) → name_ok (decimal n) ≡ true
unfolding name_ok decimal
decimal-name_ok n = let h = no_slash n n [] refl in rw (h.0, h.1) refl

root-name_ok : name_ok trash_root_name ≡ true
unfolding name_ok
root-name_ok = refl

ensure_at-IsPosix :
    (p : ℕ) (n : Name) (mode uid gid now : ℕ) (db : Db)
    → IsTree db
    → is_some (lookup p db.inodes) ≡ true
    → name_ok n ≡ true
    → (there : Option Node) → child p n db ≡ there
    → IsPosix (ensure_at p n mode uid gid now there db)
unfolding ensure_at
ensure_at-IsPosix p n mode uid gid now db t parent named none at =
    insert_node-IsPosix p n Kind.dir mode uid gid now none db t parent at named refl
ensure_at-IsPosix p n mode uid gid now db t parent named (some node) at =
    elim (Bool-cases (is_dir node.inode.kind)) [
      | inr other ↦ rw other refl
      | inl dir ↦ elim (Bool-cases (is_as_wanted mode uid gid node)) [
        | inl right ↦ rw (dir, right) tt
        | inr wrong ↦ rw (dir, wrong) tt
      ]
    ]

ensure_directory-IsPosix :
    (p : ℕ) (n : Name) (mode uid gid now : ℕ) (db : Db)
    → IsTree db
    → IsReached db p
    → name_ok n ≡ true
    → IsPosix (ensure_directory p n mode uid gid now db)
unfolding ensure_directory
ensure_directory-IsPosix p n mode uid gid now db t parent named =
    ensure_at-IsPosix p n mode uid gid now db t (dir-is_some (lookup p db.inodes) parent.dir) named
      (child p n db) refl

trash-IsPosix :
    (uid gid now : ℕ) (db : Db) → IsSound db → IsPosix (ensure_trash_directories uid gid now db)
unfolding ensure_trash_directories
trash-IsPosix uid gid now db s =
    let top : IsReached db 1 = record { dir = s.tree.root_dir; rooted = root refl } in
    bind-IsPosix (ensure_directory 1 trash_root_name trash_root_mode 0 0 now db) _
      (ensure_directory-IsPosix 1 trash_root_name trash_root_mode 0 0 now db s.tree top
        root-name_ok)
      (λ r made.
        let (g, here) = ensured-Grown 1 trash_root_name trash_root_mode 0 0 now db r s top made in
        bind-IsPosix (ensure_directory r.0 (decimal uid) trash_user_mode uid gid now r.1) _
          (ensure_directory-IsPosix r.0 (decimal uid) trash_user_mode uid gid now r.1 g.sound.tree
            here (decimal-name_ok uid))
          (λ _ _. tt))

pub ensure_trash-IsPosix :
    (caller : Caller) (now : ℕ) (m : Mount)
    → IsSound m.db
    → IsPosix (ensure_trash_directory_for_caller caller now m)
unfolding ensure_trash_directory_for_caller
ensure_trash-IsPosix caller now m s = elim (Bool-cases (contains caller.uid m.ensured_trash_uids)) [
  | inl known ↦ rw known tt
  | inr first ↦ rw first (
      bind-IsPosix (ensure_trash_directories caller.uid caller.gid now m.db) _
        (trash-IsPosix caller.uid caller.gid now m.db s) (λ _ _. tt))
]
