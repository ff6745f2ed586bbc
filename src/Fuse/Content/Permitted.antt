-- ===== src/Fuse/Content/Permitted.antt =====
-- inode_fuse.py: a change of the mode counts for the handles that are open.
use mathlib.Core.Path.{subst}
use ztierfs.Common.{
  ℕ, ◌+◌, ◌≡◌, refl, ◌∙◌, true, none, some, ok, ◌>>◌, arith, Result-cases, inl, inr,
}
use ztierfs.Common.Dict.{lookup, lookup-modify}
use ztierfs.Handles.{HandleTable, int, file_id, snapshot, invalidate_file}
use ztierfs.Handles.Counts.{IsValid, snapshot-invalidate_file}
use ztierfs.Access.{Caller, require_access, require_owner}
use ztierfs.Metadata.Schema.{Inode, Db}
use ztierfs.Metadata.Namespace.{Node, inode_by_id, set_node_mode}
use ztierfs.Fuse.{Mount, inode_by_ino}
use ztierfs.Fuse.Changes.{permission_bits}
use ztierfs.Fuse.Content.{NewAttrs, kind_bits, checked_node, file_node_for_read_write, set_mode}

-- The inode with the mode that is set.
abbrev pub remoded : Node → NewAttrs → ℕ → Inode → Inode
remoded node attrs now old = record old {
  mode = kind_bits node.inode.kind + permission_bits attrs.st_mode;
  ctime_ns = now;
}

abbrev pub as_inode : ℕ → Inode → Node
as_inode i inode = record { id = i; inode = inode; parent_id = none; name = none }

dropped_snapshot :
    (f fh : ℕ) (t : HandleTable)
    → IsValid t
    → lookup fh t.handles ≡ some f
    → snapshot (int fh) (invalidate_file f t) ≡ none
dropped_snapshot f fh t v bound = snapshot-invalidate_file f fh t v ∙ ground (arith, bound)

kept_file :
    (f fh : ℕ) (t : HandleTable) → file_id (int fh) (invalidate_file f t) ≡ lookup fh t.handles
unfolding file_id invalidate_file
kept_file f fh t = refl

remoded_inode :
    (node : Node) (attrs : NewAttrs) (now : ℕ) (old : Inode) (db : Db)
    → lookup node.id db.inodes ≡ some old
    → inode_by_ino node.id
        (set_node_mode node.id (kind_bits node.inode.kind + permission_bits attrs.st_mode) now db)
      ≡ ok (as_inode node.id (remoded node attrs now old))
unfolding inode_by_ino inode_by_id set_node_mode
remoded_inode node attrs now old db found =
    let f = λ (x : Inode). record x {
      mode = kind_bits node.inode.kind + permission_bits attrs.st_mode;
      ctime_ns = now;
    } in
    ground (arith, found, lookup-modify node.id node.id f db.inodes)

-- After `setattr` has changed the mode of a file, a read or a write through any handle that was open on
-- it is checked by the new mode, and not by the one that the handle was opened with.
pub set_mode_lem :
    (caller reader : Caller) (node : Node) (attrs : NewAttrs) (now fh ino mask : ℕ) (m m' : Mount)
    (old : Inode)
    → IsValid m.handles
    → lookup fh m.handles.handles ≡ some node.id
    → lookup node.id m.db.inodes ≡ some old
    → set_mode caller node attrs true now m ≡ ok m'
    → let new = remoded node attrs now old in
      file_node_for_read_write reader ino (int fh) mask m'
      ≡ (require_access reader (some new) mask >> ok (as_inode node.id new))
unfolding set_mode file_node_for_read_write checked_node
set_mode_lem caller reader node attrs now fh ino mask m m' old valid bound found done =
    elim (Result-cases (require_owner caller node.inode)) [
      | inl (raised, e) ↦ absurd (ground (arith, e, done))
      | inr (u, e) ↦
          let changed : Mount = record m {
            db =
                set_node_mode node.id (kind_bits node.inode.kind + permission_bits attrs.st_mode)
                  now m.db;
            handles = invalidate_file node.id m.handles;
          } in
          let same : changed ≡ m' = ground (arith, e, done) in
          let new = remoded node attrs now old in
          subst
            (λ x.
              file_node_for_read_write reader ino (int fh) mask x
              ≡ (require_access reader (some new) mask >> ok (as_inode node.id new)))
            same
            (rw
              (
                kept_file node.id fh m.handles,
                bound,
                dropped_snapshot node.id fh m.handles valid bound,
                remoded_inode node attrs now old m.db found,
              )
              refl)
    ]
