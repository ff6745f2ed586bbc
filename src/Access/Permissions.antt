-- ===== src/Access/Permissions.antt =====
-- access_control.py: which bits of the mode decide.
use ztierfs.Common.{
  ℕ, ◌/◌, ◌%◌, ◌≡◌, refl, sym, ◌∙◌, Option, none, some, List, [], ◌∷◌, Bool, not, ◌&&◌, ◌||◌, ◌==◌,
  if◌then◌else◌, contains, ok, err, Error, arith, Bool-cases, inl, inr,
}
use ztierfs.Metadata.Schema.{Inode}
use ztierfs.Metadata.Namespace.{is_dir}
use ztierfs.Access.{Caller, has_bit0, has_bit1, has_bit2, class_bits, require_access}

-- Whose bits they are: those of the owner, of the group or of the others.
pub data Class : Type 0 where
  owner group other : Class

-- The groups that the service knows a caller to be in.
abbrev pub known_groups : Caller → List ℕ
known_groups caller =
    caller.gid ∷ (if caller.uid == caller.process_uid then caller.process_groups else [])

abbrev pub class_of : ℕ → List ℕ → Inode → Class
class_of uid groups node =
    if uid == node.uid then owner else if contains node.gid groups then group else other

-- `rwx` of the class, as the mode has them: the bit of that weight.
abbrev pub readable : Class → ℕ → Bool
readable owner mode = mode / 256 % 2 == 1
readable group mode = mode / 32 % 2 == 1
readable other mode = mode / 4 % 2 == 1

abbrev pub writable : Class → ℕ → Bool
writable owner mode = mode / 128 % 2 == 1
writable group mode = mode / 16 % 2 == 1
writable other mode = mode / 2 % 2 == 1

abbrev pub executable : Class → ℕ → Bool
executable owner mode = mode / 64 % 2 == 1
executable group mode = mode / 8 % 2 == 1
executable other mode = mode % 2 == 1

abbrev pub grants : Bool → Bool → Bool
grants asked given = not asked || given

abbrev pub has_execute_bit : ℕ → Bool
has_execute_bit mode = executable owner mode || (executable group mode || executable other mode)

-- What POSIX grants a caller who is in these groups: root everything but the execution of a file that
-- nobody may execute, and to the others what the bits of their class say.
abbrev pub posix_grants : ℕ → List ℕ → Inode → ℕ → Bool
posix_grants uid groups node mask =
    if uid == 0
    then grants (has_bit0 mask) (has_execute_bit node.mode || is_dir node.kind)
    else grants (has_bit2 mask) (readable (class_of uid groups node) node.mode)
      && (grants (has_bit1 mask) (writable (class_of uid groups node) node.mode)
          && grants (has_bit0 mask) (executable (class_of uid groups node) node.mode))

-- Root asks to search a directory without an execute bit.
abbrev pub is_bare_search : Caller → Inode → ℕ → Bool
is_bare_search caller node mask =
    caller.uid == 0 && (has_bit0 mask && (is_dir node.kind && not (has_execute_bit node.mode)))

abbrev pub is_permitted : Caller → Inode → ℕ → Bool
is_permitted caller node mask =
    posix_grants caller.uid (known_groups caller) node mask && not (is_bare_search caller node mask)

bits2 :
    (n : ℕ)
    → (n / 64 % 8 / 4 % 2 ≡ n / 256 % 2)
      × (n / 8 % 8 / 4 % 2 ≡ n / 32 % 2)
      × (n % 8 / 4 % 2 ≡ n / 4 % 2)
bits2 n = omega arith

bits1 :
    (n : ℕ)
    → (n / 64 % 8 / 2 % 2 ≡ n / 128 % 2)
      × (n / 8 % 8 / 2 % 2 ≡ n / 16 % 2)
      × (n % 8 / 2 % 2 ≡ n / 2 % 2)
bits1 n = omega arith

bits0 : (n : ℕ) → (n / 64 % 8 % 2 ≡ n / 64 % 2) × (n / 8 % 8 % 2 ≡ n / 8 % 2) × (n % 8 % 2 ≡ n % 2)
bits0 n = omega arith

known_group :
    (caller : Caller) (node : Inode)
    → contains node.gid (known_groups caller) ≡ (
        caller.gid == node.gid
        || (caller.uid == caller.process_uid && contains node.gid caller.process_groups))
known_group caller node = elim (Bool-cases (caller.uid == caller.process_uid)) [
  | inl own ↦ ground (arith, own)
  | inr foreign ↦ ground (arith, foreign)
]

abbrev class_for : Caller → Inode → Class
class_for caller node = class_of caller.uid (known_groups caller) node

class_readable :
    (caller : Caller) (node : Inode)
    → (has_bit2 (class_bits caller node) ≡ readable (class_for caller node) node.mode)
      × (has_bit1 (class_bits caller node) ≡ writable (class_for caller node) node.mode)
      × (has_bit0 (class_bits caller node) ≡ executable (class_for caller node) node.mode)
unfolding class_bits
class_readable caller node =
    let k = known_group caller node in
    elim (Bool-cases (caller.uid == node.uid)) [
      | inl own ↦ (
        ground (arith, own, (bits2 node.mode).0),
        ground (arith, own, (bits1 node.mode).0),
        ground (arith, own, (bits0 node.mode).0),
      )
      | inr foreign ↦ elim (Bool-cases (contains node.gid (known_groups caller))) [
        | inl member ↦ (
          rw (foreign, member, sym k ∙ member) (ground (arith, (bits2 node.mode).1)),
          rw (foreign, member, sym k ∙ member) (ground (arith, (bits1 node.mode).1)),
          rw (foreign, member, sym k ∙ member) (ground (arith, (bits0 node.mode).1)),
        )
        | inr stranger ↦ (
          rw (foreign, stranger, sym k ∙ stranger) (ground (arith, (bits2 node.mode).2)),
          rw (foreign, stranger, sym k ∙ stranger) (ground (arith, (bits1 node.mode).2)),
          rw (foreign, stranger, sym k ∙ stranger) (ground (arith, (bits0 node.mode).2)),
        )
      ]
    ]

-- `_require_access` raises ENOENT without a node. Otherwise it grants what POSIX grants a caller in the
-- groups that the service knows, which are the gid of the caller and, for the user of the process, the
-- groups of the process; but it does not grant root the search of a directory without an execute bit,
-- which POSIX grants. What it does not grant it refuses with EACCES.
pub require_access_lem :
    (caller : Caller) (found : Option Inode) (mask : ℕ)
    → require_access caller found mask ≡ (elim found [
      | none ↦ err Error.enoent
      | some node ↦
          if posix_grants caller.uid (known_groups caller) node mask
            && not (is_bare_search caller node mask)
          then ok tt
          else err Error.eacces
    ])
unfolding require_access
require_access_lem caller none mask = refl
require_access_lem caller (some node) mask =
    let c = class_readable caller node in
    elim (Bool-cases (caller.uid == 0)) [
      | inl is_root ↦ ground (arith, is_root)
      | inr no_root ↦ ground (arith, no_root, c.0, c.1, c.2)
    ]
