-- ===== src/Prelude/Int.antt =====
-- Signed 64-bit integers: `off_t`, `time_t` and the fields of `timespec` (aliases.hpp), as integers
-- over the native numbers, and the bit patterns that stand for them.
use adbfsm.Prelude.Tests.{ltb, if◌then◌else◌}
use Prim.Native.Nat.{ℕ, ◌+◌, ◌-◌, ◌%◌, ◌^◌, ◌<◌}
use mathlib.Core.Path.{◌≡◌}
use native.Mathlib.Omega.{arith}

-- `negsuc n` is -(n + 1).
pub data ℤ : Type 0 where
  pos : ℕ → ℤ
  negsuc : ℕ → ℤ

-- The values of `i64`.
abbrev pub IsI64 : ℤ → Type 0
IsI64 (pos n) = n < 2 ^ 63
IsI64 (negsuc n) = n < 2 ^ 63

-- Two's complement: the u64 with the same bits as an i64, and back.
unfoldable pub bits_of : ℤ → ℕ
bits_of (pos n) = n % 2 ^ 64
bits_of (negsuc n) = 2 ^ 64 - 1 - n % 2 ^ 64

unfoldable pub int_of : ℕ → ℤ
int_of b = if ltb b (2 ^ 63) then pos b else negsuc (2 ^ 64 - 1 - b)

pub int_of-bits_of : (z : ℤ) → IsI64 z → int_of (bits_of z) ≡ z
unfolding bits_of int_of
int_of-bits_of (pos n) h = ground arith
int_of-bits_of (negsuc n) h = ground arith

pub bits_of-lt : (z : ℤ) → bits_of z < 2 ^ 64
unfolding bits_of
bits_of-lt (pos n) = omega arith
bits_of-lt (negsuc n) = omega arith

-- A difference in `usize`.
unfoldable pub usize_sub : ℕ → ℕ → ℕ
usize_sub a b = (a + 2 ^ 64 - b) % 2 ^ 64
