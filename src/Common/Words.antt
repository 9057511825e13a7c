-- ===== src/Common/Words.antt =====
-- Machine integers of the C code. A value of type `int` is a ℤ over the native numbers; counters
-- and sizes that the code keeps non-negative are plain numbers.
use Prim.Native.Nat.{ℕ, ◌+◌, ◌-◌, ◌%◌, ◌^◌}
use mathlib.Core.Bool.{Bool, true, false}
use mybot.Common.Tests.{◌==◌, ltb, leb, if◌then◌else◌}

-- `negsuc n` is -(n + 1).
pub data ℤ : Type 0 where
  pos : ℕ → ℤ
  negsuc : ℕ → ℤ

-- Comparison of an `int` with a non-negative constant.
abbrev pub is_code : ℕ → ℤ → Bool
is_code k (pos n) = n == k
is_code k (negsuc n) = false

abbrev pub is_negative : ℤ → Bool
is_negative (pos n) = false
is_negative (negsuc n) = true

abbrev pub int_max : ℕ
int_max = 2147483647

abbrev pub size_max : ℕ
size_max = 18446744073709551615

-- Increment of a `uint32_t` and of an `intptr_t` read as an unsigned word.
abbrev pub inc32 : ℕ → ℕ
inc32 n = (n + 1) % 2 ^ 32

abbrev pub inc64 : ℕ → ℕ
inc64 n = (n + 1) % 2 ^ 64

infixl 60 ◌+ℤ◌
abbrev pub ◌+ℤ◌ : ℤ → ℤ → ℤ
pos m +ℤ pos n = pos (m + n)
pos m +ℤ negsuc n = if ltb n m then pos (m - n - 1) else negsuc (n - m)
negsuc m +ℤ pos n = if ltb m n then pos (n - m - 1) else negsuc (m - n)
negsuc m +ℤ negsuc n = negsuc (m + n + 1)

-- `low <= z && z <= high` for constants.
abbrev pub within : ℕ → ℕ → ℤ → Bool
within low high (pos n) = leb n high
within low high (negsuc n) = leb (n + 1) low
