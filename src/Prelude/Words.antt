-- ===== src/Prelude/Words.antt =====
-- The signed 64-bit integers: a number is kept as the integer that its bits stand for.
use Prim.Native.Nat.{ℕ, ◌+◌, ◌-◌, ◌%◌, ◌^◌, ◌<◌}
use mathlib.Core.Path.{◌≡◌}
use native.Mathlib.Omega.{arith}
use learn_go_project.Prelude.Tests.{if◌then◌else◌, ltb}
use learn_go_project.Prelude.Int.{ℤ, pos, negsuc}

-- int64(n), of an unsigned number
unfoldable pub int64 : ℕ → ℤ
int64 n = let m = n % 2 ^ 64 in if ltb m (2 ^ 63) then pos m else negsuc (2 ^ 64 - m - 1)

-- The bits of an int64, as an unsigned number.
unfoldable pub bits64 : ℤ → ℕ
bits64 (pos n) = n % 2 ^ 64
bits64 (negsuc n) = 2 ^ 64 - 1 - n % 2 ^ 64

-- `+` on int64
unfoldable pub add_int64 : ℤ → ℤ → ℤ
unfolding int64 bits64
add_int64 a b = int64 (bits64 a + bits64 b)

pub int64_exact : (n : ℕ) → n < 2 ^ 63 → int64 n ≡ pos n
unfolding int64
int64_exact n h = ground arith

pub add_int64_exact : (a b : ℕ) → a + b < 2 ^ 63 → add_int64 (pos a) (pos b) ≡ pos (a + b)
unfolding add_int64 bits64 int64
add_int64_exact a b h = ground arith
