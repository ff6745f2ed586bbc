-- ===== src/Common/Results.antt =====
-- Fallible code: a value, or the exception that was raised.
use mathlib.Core.Bool.{Bool, true, false}
use mathlib.Core.Option.{Option, none, some}
use mathlib.Core.Path.{◌≡◌, refl}
use mathlib.Core.Logic.{◌⊎◌, inl, inr}

-- EINVAL and its like are `FuseOSError` with that number; `runtime` is RuntimeError, `value` ValueError,
-- `unicode` UnicodeEncodeError, `integrity` the IntegrityError that SQLite raises for a broken constraint.
pub data Error : Type 0 where
  einval eagain eacces eperm enoent eexist enotdir eisdir enotempty eio enoattr enotsup : Error
  runtime value unicode integrity : Error

pub data Result {ℓ} (R : Type ℓ) : Type ℓ where
  err : Error → Result R
  ok : R → Result R

module _ {ℓ κ} {R : Type ℓ} {S : Type κ} where
  -- The statement that follows is reached where nothing was raised.
  infixl 5 ◌>>=◌
  abbrev pub ◌>>=◌ : Result R → (R → Result S) → Result S
  result >>= next = elim result [ err raised ↦ err raised | ok returned ↦ next returned ]

-- The same for a statement without a value.
infixl 5 ◌>>◌
abbrev pub ◌>>◌ {κ} : {S : Type κ} → Result (Unit {0}) → Result S → Result S
first >> next = first >>= (λ _. next)

-- `if test: raise raised`
abbrev pub raise_if : Bool → Error → Result (Unit {0})
raise_if test raised = elim test [ true ↦ err raised | false ↦ ok tt ]

-- `if found is None: raise raised`
abbrev pub or_raise {ℓ} : {R : Type ℓ} → Option R → Error → Result R
or_raise none raised = err raised
or_raise (some r) raised = ok r

pub Result-cases {ℓ} :
    {R : Type ℓ} (result : Result R)
    → ((raised : Error) × (result ≡ err raised)) ⊎ ((r : R) × (result ≡ ok r))
Result-cases (err raised) = inl (raised, refl)
Result-cases (ok r) = inr (r, refl)

-- What a statement returned that was followed by a `return`.
pub bind-eq_ok {ℓ κ} :
    {R : Type ℓ} {S : Type κ} (result : Result R) (next : R → Result S) (s : S)
    → (result >>= next) ≡ ok s
    → (r : R) × (result ≡ ok r) × (next r ≡ ok s)
bind-eq_ok (err raised) next s h = cc
bind-eq_ok (ok r) next s h = (r, refl, h)
