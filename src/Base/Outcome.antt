-- ===== src/Base/Outcome.antt =====
-- kernel/crates/utils/src/error.rs: error codes and `Result`, with the kernel's panics beside them.
use Prim.Native.Nat.{ℕ}
use mathlib.Core.Bool.{Bool, true, false}
use mathlib.Core.Option.{Option, none, some}
use neuclear.Base.Int.{ℤ, negsuc}

-- `struct Error(c_int)`
pub record Error : Type 0 where
  pub code : ℤ

unfoldable pub as_isize : Error → ℤ
as_isize e = e.code

-- The constants of `mod code`: `errno n` is the constant declared with the literal -(n + 1).
abbrev pub errno : ℕ → Error
errno n = record { code = negsuc n }

abbrev pub unsupported : Error
unsupported = errno 0

abbrev pub temp : Error
temp = errno 0

abbrev pub eperm : Error
eperm = errno 0

abbrev pub enoent : Error
enoent = errno 1

abbrev pub ebadf : Error
ebadf = errno 8

abbrev pub echild : Error
echild = errno 9

abbrev pub enomem : Error
enomem = errno 11

abbrev pub efault : Error
efault = errno 13

abbrev pub eexist : Error
eexist = errno 16

abbrev pub enotdir : Error
enotdir = errno 19

abbrev pub eisdir : Error
eisdir = errno 20

abbrev pub einval : Error
einval = errno 21

abbrev pub erange : Error
erange = errno 33

-- `panic` is a failed assertion, an `unwrap` of nothing, or an index out of bounds.
pub data Outcome {ℓ} (A : Type ℓ) : Type ℓ where
  ok : A → Outcome A
  err : Error → Outcome A
  panic : Outcome A

infixl 5 ◌>>=◌ ◌>>◌
abbrev pub ◌>>=◌ {ℓ κ} : {A : Type ℓ} {B : Type κ} → Outcome A → (A → Outcome B) → Outcome B
ok a >>= f = f a
err e >>= f = err e
panic >>= f = panic

abbrev pub ◌>>◌ {ℓ} : {B : Type ℓ} → Outcome (Unit {0}) → Outcome B → Outcome B
m >> k = m >>= λ _. k

-- `assert!`
abbrev pub assert : Bool → Outcome (Unit {0})
assert true = ok tt
assert false = panic

-- `unwrap` of an option
abbrev pub unwrap {ℓ} : {A : Type ℓ} → Option A → Outcome A
unwrap none = panic
unwrap (some a) = ok a

-- `ok_or(e)?`
abbrev pub ok_or {ℓ} : {A : Type ℓ} → Option A → Error → Outcome A
ok_or none e = err e
ok_or (some a) e = ok a

-- Return `Err(e)` early when the test holds.
abbrev pub fail_if : Bool → Error → Outcome (Unit {0})
fail_if true e = err e
fail_if false e = ok tt
