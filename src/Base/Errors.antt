-- ===== src/Base/Errors.antt =====
-- Go's `error`: an error is kept as its format string with its arguments, not as the formatted
-- text. `wrapf` is `fmt.Errorf` with a last verb `%w`, so that the cause can be found again.
use Prim.Native.Nat.{ℕ}
use Prim.Native.String.{String}
use mathlib.Core.Path.{◌≡◌, refl}
use mathlib.Core.Logic.{◌⊎◌, inl, inr}
use mathlib.Core.Bool.{Bool, true, false}
use mathlib.Core.Option.{Option, none, some}
use mathlib.Core.List.{List}
use sealos_lifecycle.Base.Equality.{if◌then◌else◌, ◌==◌, string_eq}

pub data Arg : Type 0 where
  text : String → Arg
  num : ℕ → Arg

pub data Error : Type 0 where
  -- `os.ErrNotExist`
  not_exist : Error
  errorf : String → List Arg → Error
  wrapf : String → List Arg → Error → Error

-- `errors.Is(err, os.ErrNotExist)`
unfoldable pub is_not_exist : Error → Bool
is_not_exist not_exist = true
is_not_exist (errorf f args) = false
is_not_exist (wrapf f args cause) = is_not_exist cause

pub data Result {ℓ} (A : Type ℓ) : Type ℓ where
  ok : A → Result A
  err : Error → Result A

pub Result-cases {ℓ} :
    {A : Type ℓ} (r : Result A) → ((a : A) × (r ≡ ok a)) ⊎ ((e : Error) × (r ≡ err e))
Result-cases (ok a) = inl (a, refl)
Result-cases (err e) = inr (e, refl)

infixl 5 ◌>>=◌
abbrev pub ◌>>=◌ {ℓ κ} : {S : Type ℓ} {T : Type κ} → Result S → (S → Result T) → Result T
err cause >>= next = err cause
ok value >>= next = next value

infixl 5 ◌>>◌
abbrev pub ◌>>◌ {ℓ} : {T : Type ℓ} → Result (Unit {0}) → Result T → Result T
check >> rest = check >>= (λ done. rest)

-- `if test { return e }`
abbrev pub fail_if : Bool → Error → Result (Unit {0})
fail_if test e = if test then err e else ok tt

-- `if value != "" { check }`
abbrev pub if_set : String → Result (Unit {0}) → Result (Unit {0})
if_set value check = if value == "" then ok tt else check

-- `if err != nil { return fmt.Errorf(f, args..., err) }`
abbrev pub wrap {ℓ} : {A : Type ℓ} → String → List Arg → Result A → Result A
wrap f args (ok a) = ok a
wrap f args (err e) = err (wrapf f args e)

-- A check of something that a pointer may lack: `if p != nil { check(*p) }`
abbrev pub check_some {ℓ} : {A : Type ℓ} → (A → Result (Unit {0})) → Option A → Result (Unit {0})
check_some check none = ok tt
check_some check (some a) = check a
