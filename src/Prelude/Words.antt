-- ===== src/Prelude/Words.antt =====
-- An int32_t or a uint32_t is its bit pattern, a number below 2 ^ 32; arithmetic wraps, and the
-- signed tests are written out.
use Prim.Native.Nat.{ℕ, ◌+◌, ◌-◌, ◌%◌, ◌^◌, ◌≤◌, ◌<◌}
use mathlib.Core.Path.{◌≡◌}
use native.Mathlib.Omega.{arith}
use mathlib.Core.Bool.{Bool, true, false}
use ece_391_fall.Prelude.Tests.{ltb, leb}

abbrev pub add32 : ℕ → ℕ → ℕ
add32 a b = (a + b) % 2 ^ 32

abbrev pub sub32 : ℕ → ℕ → ℕ
sub32 a b = (a + 2 ^ 32 - b) % 2 ^ 32

-- The bit pattern of the int32_t -1.
abbrev pub minus_one : ℕ
minus_one = 2 ^ 32 - 1

-- a < b and a <= b on int32_t.
abbrev pub slt : ℕ → ℕ → Bool
slt a b = ltb ((a + 2 ^ 31) % 2 ^ 32) ((b + 2 ^ 31) % 2 ^ 32)

abbrev pub sle : ℕ → ℕ → Bool
sle a b = leb ((a + 2 ^ 31) % 2 ^ 32) ((b + 2 ^ 31) % 2 ^ 32)

-- On non-negative values the signed test is the plain one.
pub slt_small : (a b : ℕ) → a < 2 ^ 31 → b < 2 ^ 31 → slt a b ≡ ltb a b
slt_small a b ha hb = ground arith

pub slt_zero : (a : ℕ) → a < 2 ^ 31 → slt a 0 ≡ false
slt_zero a ha = ground arith

-- A negative value is below zero.
pub slt_negative : (a : ℕ) → 2 ^ 31 ≤ a → a < 2 ^ 32 → slt a 0 ≡ true
slt_negative a ha hb = ground arith
