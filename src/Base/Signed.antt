-- ===== src/Base/Signed.antt =====
-- The integers that 32-bit patterns stand for.
use Prim.Native.Nat.{ℕ, ◌+◌, ◌-◌, ◌^◌, ◌≤◌, ◌<◌, suc}
use gba_emulator.Base.Word.{test_bit}
use gba_emulator.Base.Test.{ltb, if◌then◌else◌}

-- `negsuc n` is -(n + 1).
pub data ℤ : Type 0 where
  pos : ℕ → ℤ
  negsuc : ℕ → ℤ

abbrev pub pos_part : ℤ → ℕ
pos_part (pos n) = n
pos_part (negsuc n) = 0

abbrev pub neg_part : ℤ → ℕ
neg_part (pos n) = 0
neg_part (negsuc n) = suc n

infix 50 ◌≤ℤ◌ ◌<ℤ◌
abbrev pub ◌≤ℤ◌ : ℤ → ℤ → Type 0
a ≤ℤ b = pos_part a + neg_part b ≤ pos_part b + neg_part a

abbrev pub ◌<ℤ◌ : ℤ → ℤ → Type 0
a <ℤ b = pos_part a + neg_part b < pos_part b + neg_part a

-- `(int32_t)w`
abbrev pub signed32 : ℕ → ℤ
signed32 w = if ltb w (2 ^ 31) then pos w else negsuc (2 ^ 32 - 1 - w)

-- `(uint32_t)(int32_t)(int8_t)v` and `(uint32_t)(int32_t)(int16_t)v`
unfoldable pub sign8 : ℕ → ℕ
sign8 v = if test_bit v 7 then v + (2 ^ 32 - 2 ^ 8) else v

unfoldable pub sign16 : ℕ → ℕ
sign16 v = if test_bit v 15 then v + (2 ^ 32 - 2 ^ 16) else v
