-- ===== src/Errors.antt =====
-- Go's `error` values and `fmt.Sprintf`, as far as the program uses them. An error keeps the format
-- and the arguments that its `fmt.Errorf` call names in the source; `message` is its `Error()`.
pub mod Format
use kube_drift.Common.{
  ℕ, Bool, true, false, String, List, [], ◌∷◌, ◌++◌, Text, text, ◌≡◌, refl, ◌⊎◌, inl, inr,
}
use Format.{Arg, str, sprintf}

pub data Error : Type 0 where
  -- `fmt.Errorf(format, args...)`
  errorf : String → List Arg → Error
  -- `fmt.Errorf(format, args..., err)` where the last verb of `format` is `%w`
  wrapf : String → List Arg → Error → Error
  -- An error that a library returned: its Kubernetes status reason ("" if it has none), its text.
  external : Text → Text → Error

unfoldable pub message : Error → Text
message (errorf format args) = sprintf (text format) args
message (wrapf format args e) = sprintf (text format) (args ++ str (message e) ∷ [])
message (external reason t) = t

-- `(value, error)` of a Go function: the value, or the error.
pub data Result {ℓ} (A : Type ℓ) : Type ℓ where
  ok : A → Result A
  err : Error → Result A

abbrev pub is_ok {ℓ} : {A : Type ℓ} → Result A → Bool
is_ok (ok a) = true
is_ok (err e) = false

-- `if err != nil { return fmt.Errorf(format, args..., err) }`
abbrev pub wrapped {ℓ} : {A : Type ℓ} → String → List Arg → Result A → Result A
wrapped format args (ok a) = ok a
wrapped format args (err e) = err (wrapf format args e)

infixl 10 ◌>>=◌
abbrev pub ◌>>=◌ {ℓ κ} : {A : Type ℓ} {B : Type κ} → Result A → (A → Result B) → Result B
ok a >>= f = f a
err e >>= f = err e

pub Result-cases {ℓ} :
    {A : Type ℓ} (r : Result A) → ((a : A) × (r ≡ ok a)) ⊎ ((e : Error) × (r ≡ err e))
Result-cases (ok a) = inl (a, refl)
Result-cases (err e) = inr (e, refl)
