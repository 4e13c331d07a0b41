-- ===== src/Cpu/Shifter.antt =====
-- The barrel shifter: `barrel_shift` of src/cpu/arm_instr.c. A result is the shifted value and the
-- carry; `amount` is a `uint8_t`.
pub mod Digits
pub mod Immediate
use gba_emulator.Base.{
  Bool, bit_or, false, if◌then◌else◌, ltb, not32, test_bit, u32, ℕ, ◌%◌, ◌*◌, ◌-◌, ◌/◌, ◌==◌, ◌^◌,
}

abbrev pub Shifted : Type 0
Shifted = ℕ × Bool

-- `(uint32_t)((int32_t)value >> amount)` for an amount below 32.
unfoldable pub asr32 : ℕ → ℕ → ℕ
asr32 value amount =
    if test_bit value 31 then not32 (not32 value / 2 ^ amount) else value / 2 ^ amount

unfoldable pub ror32 : ℕ → ℕ → ℕ
ror32 value amount = bit_or (value / 2 ^ amount) (u32 (value * 2 ^ (32 - amount)))

abbrev pub all_sign : ℕ → ℕ
all_sign value = if test_bit value 31 then 0xffffffff else 0

-- The branch of a shift amount that comes from a register.
unfoldable pub shift_by_register : ℕ → ℕ → ℕ → Bool → Shifted
shift_by_register value shift_type amount carry =
    if amount == 0
    then (value, carry)
    else if shift_type == 0
    then if ltb amount 32
      then (u32 (value * 2 ^ amount), test_bit value (32 - amount))
      else if amount == 32
      then (0, test_bit value 0)
      else (0, false)
    else if shift_type == 1
    then if ltb amount 32
      then (value / 2 ^ amount, test_bit value (amount - 1))
      else if amount == 32
      then (0, test_bit value 31)
      else (0, false)
    else if shift_type == 2
    then if ltb amount 32
      then (asr32 value amount, test_bit value (amount - 1))
      else (all_sign value, test_bit value 31)
    else if shift_type == 3
    then if amount % 32 == 0
      then (value, test_bit value 31)
      else (ror32 value (amount % 32), test_bit value (amount % 32 - 1))
    else (value, carry)

-- The branch of a 5-bit immediate amount.
unfoldable pub shift_by_immediate : ℕ → ℕ → ℕ → Bool → Shifted
shift_by_immediate value shift_type amount carry =
    if shift_type == 0
    then if amount == 0
      then (value, carry)
      else (u32 (value * 2 ^ amount), test_bit value (32 - amount))
    else if shift_type == 1
    then if amount == 0
      then (0, test_bit value 31)
      else (value / 2 ^ amount, test_bit value (amount - 1))
    else if shift_type == 2
    then if amount == 0
      then (all_sign value, test_bit value 31)
      else (asr32 value amount, test_bit value (amount - 1))
    else if shift_type == 3
    then if amount == 0
      then (bit_or (if carry then 2 ^ 31 else 0) (value / 2), test_bit value 0)
      else (ror32 value amount, test_bit value (amount - 1))
    else (value, carry)

unfoldable pub barrel_shift : ℕ → ℕ → ℕ → Bool → Bool → Shifted
barrel_shift value shift_type amount carry reg_shift =
    if reg_shift
    then shift_by_register value shift_type amount carry
    else shift_by_immediate value shift_type amount carry
