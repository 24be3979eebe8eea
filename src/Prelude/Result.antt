-- ===== src/Prelude/Result.antt =====
-- Go's `(value, error)` results, and the errors that the program tells apart.
use Prim.Native.String.{String}
use mathlib.Core.Path.{◌≡◌, refl}
use mathlib.Core.Logic.{◌⊎◌, inl, inr}
use mathlib.Core.Bool.{Bool, true, false}

-- `message` is an error made by `errors.New` or by `fmt.Errorf` without `%w`, `wrapped` one made
-- with `%w`, `canceled` is `context.Canceled`, `refused` is `syscall.ECONNREFUSED`, `panicked`
-- stands for a nil dereference, and `foreign` is any other error that a library returns.
pub data Error : Type 0 where
  message foreign : String → Error
  wrapped : String → Error → Error
  canceled refused panicked : Error

-- `errors.Is(err, context.Canceled)`
abbrev pub is_canceled : Error → Bool
is_canceled canceled = true
is_canceled (wrapped _ e) = is_canceled e
is_canceled _ = false

-- `isConnectionRefused`: `errors.Is(err, syscall.ECONNREFUSED)`
unfoldable pub is_connection_refused : Error → Bool
is_connection_refused refused = true
is_connection_refused (wrapped _ e) = is_connection_refused e
is_connection_refused _ = false

pub data Result (A : Type 0) : Type 0 where
  ok : A → Result A
  err : Error → Result A

infixl 5 ◌>>=◌
abbrev pub ◌>>=◌ : {A B : Type 0} → Result A → (A → Result B) → Result B
ok a >>= f = f a
err e >>= f = err e

pub Result-cases :
    {T : Type 0} (r : Result T) → ((t : T) × (r ≡ ok t)) ⊎ ((x : Error) × (r ≡ err x))
Result-cases (ok t) = inl (t, refl)
Result-cases (err x) = inr (x, refl)
