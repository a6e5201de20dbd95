-- ===== src/Base/Words.antt =====
-- A usize of 64 bits. The kernel is built in release mode, where arithmetic wraps.
use Prim.Native.Nat.{ℕ, ◌+◌, ◌-◌, ◌*◌, ◌/◌, ◌%◌, ◌^◌}
use mathlib.Core.Bool.{Bool, true, false, ◌||◌}
use mathlib.Core.List.{List, [], ◌∷◌}
use neuclear.Base.Tests.{◌==◌, if◌then◌else◌}

abbrev pub word : ℕ
word = 2 ^ 64

abbrev pub add64 : ℕ → ℕ → ℕ
add64 a b = (a + b) % word

abbrev pub sub64 : ℕ → ℕ → ℕ
sub64 a b = (a + word - b) % word

abbrev pub mul64 : ℕ → ℕ → ℕ
mul64 a b = a * b % word

-- Is bit `k` of a set of flags set?
abbrev pub has_bit : ℕ → ℕ → Bool
has_bit bits k = bits / 2 ^ k % 2 == 1

-- `flags.set(FLAG, on)` for the flag of bit `k`.
abbrev pub set_bit : ℕ → ℕ → Bool → ℕ
set_bit bits k true = if has_bit bits k then bits else bits + 2 ^ k
set_bit bits k false = if has_bit bits k then bits - 2 ^ k else bits

-- `iter().any(|i| *i == id)`
abbrev pub contains : List ℕ → ℕ → Bool
contains [] a = false
contains (x ∷ xs) a = x == a || contains xs a
