-- ===== src/Prelude/Words.antt =====
-- `uint64_t` arithmetic: a word is a number below 2 ^ 64, and each operation wraps.
use Prim.Native.Nat.{ℕ, ◌+◌, ◌-◌, ◌%◌, ◌^◌, ◌≤◌, ◌<◌}
use mathlib.Core.Path.{◌≡◌}
use native.Mathlib.Omega.{arith}

abbrev pub u64_mod : ℕ
u64_mod = 2 ^ 64

-- What `-1` becomes when it is stored in a `uint64_t`.
abbrev pub u64_max : ℕ
u64_max = 2 ^ 64 - 1

unfoldable pub add64 : ℕ → ℕ → ℕ
add64 a b = (a + b) % u64_mod

unfoldable pub sub64 : ℕ → ℕ → ℕ
sub64 a b = (a + (u64_mod - b % u64_mod)) % u64_mod

pub add64_exact : (a b : ℕ) → a + b < u64_mod → add64 a b ≡ a + b
unfolding add64
add64_exact a b h = omega arith

pub sub64_exact : (a b : ℕ) → b ≤ a → a < u64_mod → sub64 a b ≡ a - b
unfolding sub64
sub64_exact a b h k = omega arith

-- A subtraction below zero wraps to the far end.
pub sub64_wraps : (a b : ℕ) → a < b → b < u64_mod → sub64 a b ≡ a + (u64_mod - b)
unfolding sub64
sub64_wraps a b h k = omega arith

pub add64-lt : (a b : ℕ) → add64 a b < u64_mod
unfolding add64
add64-lt a b = omega arith

pub sub64-lt : (a b : ℕ) → sub64 a b < u64_mod
unfolding sub64
sub64-lt a b = omega arith
