-- ===== src/Common/Bytes.antt =====
-- Byte strings: the slices and the padding that the code writes, and what byte stands where in them.
use mathlib.Core.Bool.{Bool, true, false, ◌&&◌, ◌||◌}
use ztierfs.Common.Tests.{if◌then◌else◌, ltb, leb, ◌==◌}
use ztierfs.Common.Lists.{length, take, drop, length-take, length-drop, length-append}
use Prim.Native.Nat.{ℕ, zero, suc, ◌+◌, ◌-◌, ◌≤◌, min}
use mathlib.Core.Path.{◌≡◌, refl}
use mathlib.Core.List.{List, [], ◌∷◌, ◌++◌}
use native.Mathlib.Omega.{arith}

-- A byte string; every byte is below 256.
abbrev pub Bytes : Type 0
Bytes = List ℕ

-- The byte at a place; past the end it counts as zero.
abbrev pub byte : ℕ → Bytes → ℕ
byte k [] = 0
byte zero (x ∷ d) = x
byte (suc k) (x ∷ d) = byte k d

-- `b"\x00" * n`
abbrev pub zeros : ℕ → Bytes
zeros zero = []
zeros (suc n) = 0 ∷ zeros n

-- `d[start:stop]`
abbrev pub slice : ℕ → ℕ → Bytes → Bytes
slice start stop d = take (stop - start) (drop start d)

-- `d.ljust(n, b"\x00")`
abbrev pub ljust : ℕ → Bytes → Bytes
ljust n d = d ++ zeros (n - length d)

-- `d[start:stop] = source`, on a bytearray.
abbrev pub splice : ℕ → ℕ → Bytes → Bytes → Bytes
splice start stop source d = take start d ++ (source ++ drop stop d)

pub byte_past : (k : ℕ) (d : Bytes) → length d ≤ k → byte k d ≡ 0
byte_past k [] h = refl
byte_past zero (x ∷ d) h = absurd (omega (arith, h))
byte_past (suc k) (x ∷ d) h = byte_past k d (omega (arith, h))

pub byte-zeros : (k n : ℕ) → byte k (zeros n) ≡ 0
byte-zeros k zero = refl
byte-zeros zero (suc n) = refl
byte-zeros (suc k) (suc n) = byte-zeros k n

pub length-zeros : (n : ℕ) → length (zeros n) ≡ n
length-zeros zero = refl
length-zeros (suc n) = omega (arith, length-zeros n)

pub byte-append :
    (k : ℕ) (d e : Bytes)
    → byte k (d ++ e) ≡ (if ltb k (length d) then byte k d else byte (k - length d) e)
byte-append k [] e = ground arith
byte-append zero (x ∷ d) e = ground arith
byte-append (suc k) (x ∷ d) e = ground (arith, byte-append k d e)

pub byte-take : (k n : ℕ) (d : Bytes) → byte k (take n d) ≡ (if ltb k n then byte k d else 0)
byte-take k zero d = ground arith
byte-take k (suc n) [] = ground arith
byte-take zero (suc n) (x ∷ d) = ground arith
byte-take (suc k) (suc n) (x ∷ d) = ground (arith, byte-take k n d)

pub byte-drop : (k n : ℕ) (d : Bytes) → byte k (drop n d) ≡ byte (n + k) d
byte-drop k zero d = ground arith
byte-drop k (suc n) [] = refl
byte-drop k (suc n) (x ∷ d) = ground (arith, byte-drop k n d)

pub byte-slice :
    (k start stop : ℕ) (d : Bytes)
    → byte k (slice start stop d) ≡ (if ltb k (stop - start) then byte (start + k) d else 0)
byte-slice k start stop d =
    ground (arith, byte-take k (stop - start) (drop start d), byte-drop k start d)

pub length-slice :
    (start stop : ℕ) (d : Bytes)
    → length (slice start stop d) ≡ min (stop - start) (length d - start)
length-slice start stop d =
    ground (arith, length-take (stop - start) (drop start d), length-drop start d)

pub byte-ljust : (k n : ℕ) (d : Bytes) → byte k (ljust n d) ≡ byte k d
byte-ljust k n d = ground (
  arith,
  byte-append k d (zeros (n - length d)),
  byte-zeros (k - length d) (n - length d),
  byte_past k d,
)

pub length-ljust : (n : ℕ) (d : Bytes) → length d ≤ n → length (ljust n d) ≡ n
length-ljust n d h =
    omega (arith, h, length-append d (zeros (n - length d)), length-zeros (n - length d))

pub byte-splice :
    (k start stop : ℕ) (source d : Bytes)
    → start + length source ≡ stop
    → stop ≤ length d
    → byte k (splice start stop source d) ≡ (
        if leb start k
        then (if ltb k stop then byte (k - start) source else byte k d)
        else byte k d)
byte-splice k start stop source d h fits = ground (
  arith,
  byte-append k (take start d) (source ++ drop stop d),
  byte-append (k - start) source (drop stop d),
  byte-take k start d,
  byte-drop (k - start - length source) stop d,
  length-take start d,
)

pub length-splice :
    (start stop : ℕ) (source d : Bytes)
    → start + length source ≡ stop
    → stop ≤ length d
    → length (splice start stop source d) ≡ length d
length-splice start stop source d h fits = ground (
  arith,
  length-append (take start d) (source ++ drop stop d),
  length-append source (drop stop d),
  length-take start d,
  length-drop stop d,
)

-- `d == e`
abbrev pub same_bytes : Bytes → Bytes → Bool
same_bytes [] [] = true
same_bytes [] (y ∷ e) = false
same_bytes (x ∷ d) [] = false
same_bytes (x ∷ d) (y ∷ e) = x == y && same_bytes d e

pub same_bytes_refl : (d : Bytes) → same_bytes d d ≡ true
same_bytes_refl [] = refl
same_bytes_refl (x ∷ d) = ground (arith, same_bytes_refl d)

pub same_bytes_eq : (d e : Bytes) → same_bytes d e ≡ true → d ≡ e
same_bytes_eq [] [] h = refl
same_bytes_eq [] (y ∷ e) h = cc
same_bytes_eq (x ∷ d) [] h = cc
same_bytes_eq (x ∷ d) (y ∷ e) h = ground (arith, same_bytes_eq d e)

pub same_bytes_comm : (d e : Bytes) → same_bytes d e ≡ same_bytes e d
same_bytes_comm [] [] = refl
same_bytes_comm [] (y ∷ e) = refl
same_bytes_comm (x ∷ d) [] = refl
same_bytes_comm (x ∷ d) (y ∷ e) = ground (arith, same_bytes_comm d e)

-- `d < e`, byte by byte.
abbrev pub bytes_lt : Bytes → Bytes → Bool
bytes_lt d [] = false
bytes_lt [] (y ∷ e) = true
bytes_lt (x ∷ d) (y ∷ e) = ltb x y || (x == y && bytes_lt d e)
