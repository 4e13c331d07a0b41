-- ===== src/Base/Word.antt =====
-- Machine words as native numbers, and the bit macros of include/common.h.
-- A value is a plain number; casts and wrap-around are written out by `%`.
use Prim.Native.Nat.{ℕ, ◌+◌, ◌-◌, ◌/◌, ◌%◌, ◌^◌, bit_and, bit_or}
use mathlib.Core.Bool.{Bool}
use gba_emulator.Base.Test.{◌==◌}

abbrev pub u8 : ℕ → ℕ
u8 n = n % 2 ^ 8

abbrev pub u16 : ℕ → ℕ
u16 n = n % 2 ^ 16

abbrev pub u32 : ℕ → ℕ
u32 n = n % 2 ^ 32

-- `a - b` on `uint32_t`, for operands below 2 ^ 32.
abbrev pub sub32 : ℕ → ℕ → ℕ
sub32 a b = (a + 2 ^ 32 - b) % 2 ^ 32

-- `~x` on `uint32_t` and on `uint16_t`, for an operand in range.
abbrev pub not32 : ℕ → ℕ
not32 x = 2 ^ 32 - 1 - x

abbrev pub not16 : ℕ → ℕ
not16 x = 2 ^ 16 - 1 - x

-- BIT(val, n); `(x & 1)` is the remainder by 2 (`bit_and_mask` of the module Bits).
abbrev pub bit : ℕ → ℕ → ℕ
bit val n = val / 2 ^ n % 2

-- BIT(val, n) where it is stored in a `bool`.
abbrev pub test_bit : ℕ → ℕ → Bool
test_bit val n = bit val n == 1

-- BITS(val, hi, lo)
abbrev pub bits : ℕ → ℕ → ℕ → ℕ
bits val hi lo = val / 2 ^ lo % 2 ^ (hi - lo + 1)

-- SET_BIT(val, n) and CLR_BIT(val, n)
abbrev pub set_bit : ℕ → ℕ → ℕ
set_bit val n = bit_or val (2 ^ n)

abbrev pub clr_bit : ℕ → ℕ → ℕ
clr_bit val n = bit_and val (not32 (2 ^ n))
