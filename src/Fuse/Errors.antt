-- ===== src/Fuse/Errors.antt =====
-- inode_fuse.py: what the callbacks raise.
pub mod Trashing
pub mod Bodies
pub mod Moves
pub mod Answers
use ztierfs.Common.{
  ℕ, ◌≡◌, refl, Bool, true, false, Option, none, some, if◌then◌else◌, Result, ok, err, Error, ◌>>=◌,
  ◌>>◌, raise_if, or_raise, arith, Bool-cases, inl, inr,
}
use ztierfs.Common.Bytes.{Bytes}
use ztierfs.Common.Utf8.{is_utf8, encode_text}
use ztierfs.Access.{Caller, OpenFlags, open_mask, w_ok, require_access, require_open_access}
use ztierfs.Access.Permissions.{is_permitted, require_access_lem}
use ztierfs.Metadata.Schema.{Inode, Db, Name, name_ok}
use ztierfs.Fuse.{Mount, Outcome, node_by_ino, release}
use ztierfs.Fuse.Changes.{mkdir, mknod, symlink, link, create, unlink, rmdir, rename}
use ztierfs.Fuse.Queries.{setxattr, removexattr, lock_inode}
use ztierfs.Fuse.Serving.{
  Request, mkdir_at, mknod_at, symlink_at, link_at, create_at, unlink_at, rmdir_at, rename_to,
  set_attribute, remove_attribute, lock_range, release_handle,
}

-- The exceptions that carry an errno.
abbrev pub is_errno : Error → Bool
is_errno Error.runtime = false
is_errno Error.value = false
is_errno Error.unicode = false
is_errno Error.integrity = false
is_errno _ = true

-- Nothing but an errno is raised.
abbrev pub IsPosix : {R : Type 0} → Result R → Type 0
IsPosix (err raised) = is_errno raised ≡ true
IsPosix (ok r) = Unit

pub bind-IsPosix :
    {R S : Type 0} (m : Result R) (f : R → Result S)
    → IsPosix m
    → ((r : R) → m ≡ ok r → IsPosix (f r))
    → IsPosix (m >>= f)
bind-IsPosix (err raised) f p h = p
bind-IsPosix (ok r) f p h = h r refl

pub raise_if-IsPosix :
    (test : Bool) (raised : Error) → is_errno raised ≡ true → IsPosix (raise_if test raised)
raise_if-IsPosix true raised h = h
raise_if-IsPosix false raised h = tt

pub or_raise-IsPosix :
    {R : Type 0} (found : Option R) (raised : Error)
    → is_errno raised ≡ true
    → IsPosix (or_raise found raised)
or_raise-IsPosix none raised h = h
or_raise-IsPosix (some r) raised h = tt

pub encode_text-IsPosix : (text : Bytes) → is_utf8 text ≡ true → IsPosix (encode_text text)
encode_text-IsPosix text h = rw h tt

pub node_by_ino-IsPosix : (i : ℕ) (db : Db) → IsPosix (node_by_ino i db)
unfolding node_by_ino
node_by_ino-IsPosix i db = or_raise-IsPosix _ Error.enoent refl

granted-IsPosix : (b : Bool) → IsPosix (if b then ok tt else err Error.eacces)
granted-IsPosix true = tt
granted-IsPosix false = refl

pub require_access-IsPosix :
    (caller : Caller) (node : Inode) (mask : ℕ) → IsPosix (require_access caller (some node) mask)
require_access-IsPosix caller node mask =
    rw (require_access_lem caller (some node) mask)
      (granted-IsPosix (is_permitted caller node mask))

pub require_open_access-IsPosix :
    (caller : Caller) (node : Inode) (flags : OpenFlags)
    → IsPosix (require_open_access caller node flags)
unfolding require_open_access
require_open_access-IsPosix caller node flags =
    bind-IsPosix (require_access caller (some node) (open_mask flags.access_mode)) _
      (require_access-IsPosix caller node (open_mask flags.access_mode))
      (λ _ _. elim (Bool-cases flags.trunc) [
        | inl trunc ↦ rw trunc (require_access-IsPosix caller node w_ok)
        | inr keep ↦ rw keep tt
      ])

-- What a callback returned, but for its value, or what it raised.
abbrev pub answer : {R : Type 0} → Outcome R → Result (Unit {0})
answer outcome = outcome.1 >>= λ r. ok tt

unfoldable pub response : Caller → ℕ → Request → Mount → Result (Unit {0})
response caller now (mkdir_at parent name mode) m = answer (mkdir caller parent name mode now m)
response caller now (mknod_at parent name mode) m = answer (mknod caller parent name mode now m)
response caller now (symlink_at target parent name) m =
    answer (symlink caller target parent name now m)
response caller now (link_at ino parent name) m = answer (link caller ino parent name now m)
response caller now (create_at parent name mode flags) m =
    answer (create caller parent name mode flags now m)
response caller now (unlink_at parent name) m = answer (unlink caller parent name now m)
response caller now (rmdir_at parent name) m = answer (rmdir caller parent name now m)
response caller now (rename_to parent name new_parent new_name flags) m =
    answer (rename caller parent name new_parent new_name flags now m)
response caller now (set_attribute ino name value options) m =
    answer (setxattr caller ino name value options now m)
response caller now (remove_attribute ino name) m = answer (removexattr caller ino name now m)
response caller now (lock_range ino fh cmd lock) m = answer (lock_inode caller ino fh cmd lock m)
response caller now (release_handle fh) m = answer (release fh now m)

-- The text is UTF-8.
abbrev pub IsText : Bytes → Type 0
IsText text = is_utf8 text ≡ true

-- A name that the tables accept for a new entry.
abbrev pub IsNew : Name → Type 0
IsNew name = (name_ok name ≡ true) × IsText name

-- The names and the target of a request are UTF-8, and the names that it makes can be stored.
abbrev pub IsNamed : Request → Type 0
IsNamed (mkdir_at _ name _) = IsNew name
IsNamed (mknod_at _ name _) = IsNew name
IsNamed (symlink_at target _ name) = IsNew name × IsText target
IsNamed (link_at _ _ name) = IsNew name
IsNamed (create_at _ name _ _) = IsNew name
IsNamed (unlink_at _ name) = IsText name
IsNamed (rmdir_at _ name) = IsText name
IsNamed (rename_to _ name _ new_name _) = IsText name × IsNew new_name
IsNamed (set_attribute _ name _ _) = IsText name
IsNamed (remove_attribute _ name) = IsText name
IsNamed _ = Unit
