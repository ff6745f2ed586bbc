-- ===== src/Common/Utf8.antt =====
-- Text that Python decodes with `surrogateescape`: it can be encoded again, by sqlite3 or `str.encode`,
-- if its bytes are UTF-8.
use ztierfs.Common.Tests.{leb, ltb, ◌==◌, if◌then◌else◌}
use ztierfs.Common.Bytes.{Bytes}
use ztierfs.Common.Results.{Result, Error, raise_if}
use Prim.Native.Nat.{ℕ, zero, suc}
use mathlib.Core.Bool.{Bool, true, false, not, ◌&&◌}
use mathlib.Core.List.{[], ◌∷◌}

-- What a first byte says: whether it can be one, how many bytes follow it, and between which bounds the
-- next of them is.
abbrev lead : ℕ → Bool × (ℕ × (ℕ × ℕ))
lead b =
    if ltb b 128
    then (true, (0, (0, 0)))
    else if leb 194 b && leb b 223
    then (true, (1, (128, 191)))
    else if b == 224
    then (true, (2, (160, 191)))
    else if b == 237
    then (true, (2, (128, 159)))
    else if leb 225 b && leb b 239
    then (true, (2, (128, 191)))
    else if b == 240
    then (true, (3, (144, 191)))
    else if leb 241 b && leb b 243
    then (true, (3, (128, 191)))
    else if b == 244
    then (true, (3, (128, 143)))
    else (false, (0, (0, 0)))

-- So many bytes of a character are still to come, the next of them between the bounds.
follows : ℕ → ℕ → ℕ → Bytes → Bool
follows zero low high [] = true
follows (suc n) low high [] = false
follows zero low high (b ∷ bytes) =
    (lead b).0 && follows (lead b).1.0 (lead b).1.1.0 (lead b).1.1.1 bytes
follows (suc n) low high (b ∷ bytes) = leb low b && (leb b high && follows n 128 191 bytes)

unfoldable pub is_utf8 : Bytes → Bool
unfolding follows
is_utf8 bytes = follows 0 0 0 bytes

-- The text is encoded; a lone surrogate raises UnicodeEncodeError.
abbrev pub encode_text : Bytes → Result (Unit {0})
encode_text text = raise_if (not (is_utf8 text)) Error.unicode
