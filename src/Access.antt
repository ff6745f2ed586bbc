-- ===== src/Access.antt =====
-- access_control.py: the permission checks. A mask or a mode is a number, and `n & 2 ** k` is a test of
-- its bit k. The flags of `open` come decoded, since their numbers depend on the system.
pub mod Permissions
use ztierfs.Common.{
  ℕ, ◌+◌, ◌*◌, ◌/◌, ◌%◌, ◌^◌, Bool, true, false, not, ◌&&◌, ◌||◌, Option, none, some, List, ◌==◌,
  if◌then◌else◌, contains, Result, ok, err, Error, ◌>>=◌, ◌>>◌, raise_if,
}
use Prim.Native.Nat.{bit_xor}
use ztierfs.Metadata.Schema.{Inode}

-- The caller of a request, and what `os.getuid` and `os.getgroups` say of the process of the mount.
pub record Caller : Type 0 where
  pub uid : ℕ
  pub gid : ℕ
  pub pid : ℕ
  pub process_uid : ℕ
  pub process_groups : List ℕ

-- `O_ACCMODE`
pub data AccessMode : Type 0 where
  rdonly wronly rdwr : AccessMode

pub record OpenFlags : Type 0 where
  pub access_mode : AccessMode
  pub trunc : Bool
  pub excl : Bool

-- os.X_OK, os.W_OK and os.R_OK
abbrev pub x_ok : ℕ
x_ok = 1

abbrev pub w_ok : ℕ
w_ok = 2

abbrev pub wx_ok : ℕ
wx_ok = 3

abbrev pub r_ok : ℕ
r_ok = 4

abbrev pub rx_ok : ℕ
rx_ok = 5

abbrev pub rw_ok : ℕ
rw_ok = 6

abbrev pub has_bit0 : ℕ → Bool
has_bit0 n = n % 2 == 1

abbrev pub has_bit1 : ℕ → Bool
has_bit1 n = n / 2 % 2 == 1

abbrev pub has_bit2 : ℕ → Bool
has_bit2 n = n / 4 % 2 == 1

-- `mode & 0o111`
abbrev pub any_execute : ℕ → Bool
any_execute mode = has_bit0 mode || (has_bit0 (mode / 8) || has_bit0 (mode / 64))

-- The three bits that apply to a caller who is not root.
unfoldable pub class_bits : Caller → Inode → ℕ
class_bits caller node =
    if caller.uid == node.uid
    then node.mode / 64 % 8
    else if caller.gid == node.gid
        || (caller.uid == caller.process_uid && contains node.gid caller.process_groups)
    then node.mode / 8 % 8
    else node.mode % 8

unfoldable pub require_access : Caller → Option Inode → ℕ → Result (Unit {0})
require_access caller none mask = err Error.enoent
require_access caller (some node) mask =
    if mask == 0
    then ok tt
    else if caller.uid == 0
    then raise_if (has_bit0 mask && not (any_execute node.mode)) Error.eacces
    else (raise_if (has_bit2 mask && not (has_bit2 (class_bits caller node))) Error.eacces
        >> (raise_if (has_bit1 mask && not (has_bit1 (class_bits caller node))) Error.eacces
            >> raise_if (has_bit0 mask && not (has_bit0 (class_bits caller node))) Error.eacces))

abbrev pub open_mask : AccessMode → ℕ
open_mask rdonly = r_ok
open_mask wronly = w_ok
open_mask rdwr = rw_ok

unfoldable pub require_open_access : Caller → Inode → OpenFlags → Result (Unit {0})
require_open_access caller node flags =
    require_access caller (some node) (open_mask flags.access_mode)
    >> (if flags.trunc then require_access caller (some node) w_ok else ok tt)

unfoldable pub require_owner : Caller → Inode → Result (Unit {0})
require_owner caller node =
    raise_if (not (caller.uid == 0) && not (caller.uid == node.uid)) Error.eperm

-- `(uid << 32) ^ pid`
unfoldable pub caller_lock_owner : Caller → ℕ
caller_lock_owner caller = bit_xor (caller.uid * 2 ^ 32) caller.pid
