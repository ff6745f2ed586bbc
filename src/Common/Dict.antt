-- ===== src/Common/Dict.antt =====
-- A table with a numeric primary key: the rows as a list in which the first row of a key counts.
-- To write a key drops what was stored under it.
use Prim.Native.Nat.{ℕ, ◌+◌}
use mathlib.Core.Path.{◌≡◌, refl}
use mathlib.Core.Bool.{Bool, false, ◌||◌}
use mathlib.Core.List.{List, [], ◌∷◌}
use mathlib.Core.Option.{Option, none, some}
use mathlib.Core.Option
use native.Mathlib.Omega.{arith}
use ztierfs.Common.Tests.{◌==◌, if◌then◌else◌, is_some, Bool-cases}
use ztierfs.Common.Lists.{total}
use mathlib.Core.Logic.{inl, inr}

-- The rows, each behind its key.
abbrev pub Dict {κ} : Type κ → Type κ
Dict Row = List (ℕ × Row)

module _ {ℓ} {V : Type ℓ} where
  abbrev pub lookup : ℕ → Dict V → Option V
  lookup k [] = none
  lookup k ((j, v) ∷ m) = if k == j then some v else lookup k m

  -- `k in m`
  abbrev pub contains_key : ℕ → Dict V → Bool
  contains_key k [] = false
  contains_key k ((j, v) ∷ m) = k == j || contains_key k m

  -- `DELETE ... WHERE key = k`, `m.pop(k, None)`
  abbrev pub erase : ℕ → Dict V → Dict V
  erase k [] = []
  erase k ((j, v) ∷ m) = if k == j then erase k m else (j, v) ∷ erase k m

  -- `m[k] = v`
  abbrev pub insert : ℕ → V → Dict V → Dict V
  insert k v m = (k, v) ∷ erase k m

  -- `UPDATE ... WHERE key = k`
  abbrev pub modify : ℕ → (V → V) → Dict V → Dict V
  modify k f [] = []
  modify k f ((j, v) ∷ m) = (j, if k == j then f v else v) ∷ modify k f m

  pub lookup-erase :
      (j k : ℕ) (m : Dict V) → lookup j (erase k m) ≡ (if j == k then none else lookup j m)
  lookup-erase j k [] = ground arith
  lookup-erase j k ((i, v) ∷ m) = ground (arith, lookup-erase j k m)

  pub lookup-insert :
      (j k : ℕ) (v : V) (m : Dict V)
      → lookup j (insert k v m) ≡ (if j == k then some v else lookup j m)
  lookup-insert j k v m = ground (arith, lookup-erase j k m)

  pub lookup-modify :
      (j k : ℕ) (f : V → V) (m : Dict V)
      → lookup j (modify k f m) ≡ (if j == k then Option.map f (lookup j m) else lookup j m)
  lookup-modify j k f [] = ground arith
  lookup-modify j k f ((i, v) ∷ m) = ground (arith, lookup-modify j k f m)

  -- No key is stored twice.
  abbrev pub IsUnique : Dict V → Type 0
  IsUnique [] = Unit
  IsUnique ((k, v) ∷ m) = (contains_key k m ≡ false) × IsUnique m

  contains_key-erase :
      (j k : ℕ) (m : Dict V)
      → contains_key j (erase k m) ≡ (if j == k then false else contains_key j m)
  contains_key-erase j k [] = ground arith
  contains_key-erase j k ((i, v) ∷ m) = ground (arith, contains_key-erase j k m)

  pub erase-IsUnique : (k : ℕ) (m : Dict V) → IsUnique m → IsUnique (erase k m)
  erase-IsUnique k [] u = tt
  erase-IsUnique k ((j, v) ∷ m) u = ground (arith, erase-IsUnique k m u.1, contains_key-erase j k m)

  pub insert-IsUnique : (k : ℕ) (v : V) (m : Dict V) → IsUnique m → IsUnique (insert k v m)
  insert-IsUnique k v m u = (ground (arith, contains_key-erase k k m), erase-IsUnique k m u)

  pub erase_absent : (k : ℕ) (m : Dict V) → contains_key k m ≡ false → erase k m ≡ m
  erase_absent k [] h = refl
  erase_absent k ((j, v) ∷ m) h = ground (arith, erase_absent k m)

  pub contains_key-lookup : (k : ℕ) (m : Dict V) → contains_key k m ≡ is_some (lookup k m)
  contains_key-lookup k [] = refl
  contains_key-lookup k ((j, v) ∷ m) = ground (arith, contains_key-lookup k m)

  -- What a sum over the table loses with a key.
  pub total-erase :
      (w : ℕ × V → ℕ) (k : ℕ) (v : V) (m : Dict V)
      → IsUnique m
      → lookup k m ≡ some v
      → total w (erase k m) + w (k, v) ≡ total w m
  total-erase w k v [] u h = cc
  total-erase w k v ((j, x) ∷ m) u h = elim (Bool-cases (k == j)) [
    | inl here ↦ ground (arith, erase_absent k m)
    | inr there ↦ ground (arith, total-erase w k v m u.1)
  ]
