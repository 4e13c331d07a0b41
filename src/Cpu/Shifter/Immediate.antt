-- ===== src/Cpu/Shifter/Immediate.antt =====
-- The immediate amounts, by the register amounts that they encode, and the range of a result.
use gba_emulator.Base.{
  Bool, arith, bit_or, bit_or-lt, bit_or_fields, false, if◌then◌else◌, not, suc, test_bit, true,
  u32, zero, ℕ, ◌%◌, ◌*◌, ◌+◌, ◌-◌, ◌/◌, ◌<◌, ◌==◌, ◌^◌, ◌||◌, ◌≡◌,
}
use native.Mathlib.Nat.{div-le_self}
use gba_emulator.Cpu.Shifter.{
  Shifted, asr32, ror32, shift_by_register, shift_by_immediate, barrel_shift,
}

-- The architecture's reading of an immediate amount: 0 stands for 32 with LSR and ASR, and for the
-- rotation by one through the carry with ROR.
pub immediate_reference : ℕ → ℕ → ℕ → Bool → Shifted
immediate_reference value shift_type amount carry =
    if not (amount == 0) || shift_type == 0
    then shift_by_register value shift_type amount carry
    else if shift_type == 3
    then ((if carry then 2 ^ 31 else 0) + value / 2, test_bit value 0)
    else shift_by_register value shift_type 32 carry

rotate :
    (carry : Bool) (value : ℕ)
    → value < 2 ^ 32
    → bit_or (if carry then 2 ^ 31 else 0) (value / 2) ≡ (if carry then 2 ^ 31 else 0) + value / 2
rotate true value h = bit_or_fields 31 1 (value / 2) (omega arith)
rotate false value h = bit_or_fields 31 0 (value / 2) (omega arith)

-- For a value of 32 bits, each of the four types and each amount below 32, an immediate shift is
-- the register shift by the amount that it encodes, but that ROR #0 rotates through the carry.
pub shift_by_immediate_reference :
    (value shift_type amount : ℕ) (carry : Bool)
    → value < 2 ^ 32
    → shift_type < 4
    → amount < 32
    → shift_by_immediate value shift_type amount carry
      ≡ immediate_reference value shift_type amount carry
unfolding shift_by_immediate immediate_reference shift_by_register
shift_by_immediate_reference value zero amount carry h t a = ground arith
shift_by_immediate_reference value (suc zero) amount carry h t a = ground arith
shift_by_immediate_reference value (suc (suc zero)) amount carry h t a = ground arith
shift_by_immediate_reference value (suc (suc (suc zero))) amount carry h t a =
    let same_amount : amount % 32 ≡ amount = omega arith in
    ground (arith, rotate carry value h, same_amount)
shift_by_immediate_reference value (suc (suc (suc (suc n)))) amount carry h t a =
    absurd (omega arith)

ror32-lt : (value amount : ℕ) → value < 2 ^ 32 → ror32 value amount < 2 ^ 32
unfolding ror32
ror32-lt value amount h =
    bit_or-lt 32 (value / 2 ^ amount) (u32 (value * 2 ^ (32 - amount)))
      (omega (arith, div-le_self value (2 ^ amount))) (omega arith)

asr32-lt : (value amount : ℕ) → value < 2 ^ 32 → asr32 value amount < 2 ^ 32
unfolding asr32
asr32-lt value amount h = ground (arith, div-le_self value (2 ^ amount))

by_register :
    (value shift_type amount : ℕ) (carry : Bool)
    → value < 2 ^ 32
    → (shift_by_register value shift_type amount carry).0 < 2 ^ 32
unfolding shift_by_register
by_register value shift_type amount carry h =
    ground (
      arith,
      div-le_self value (2 ^ amount),
      asr32-lt value amount h,
      ror32-lt value (amount % 32) h,
    )

by_immediate :
    (value shift_type amount : ℕ) (carry : Bool)
    → value < 2 ^ 32
    → (shift_by_immediate value shift_type amount carry).0 < 2 ^ 32
unfolding shift_by_immediate
by_immediate value shift_type amount carry h = ground (
  arith,
  div-le_self value (2 ^ amount),
  asr32-lt value amount h,
  ror32-lt value amount h,
  rotate carry value h,
)

-- A shift of a 32-bit word gives a 32-bit word.
pub barrel_shift-lt :
    (value shift_type amount : ℕ) (carry reg_shift : Bool)
    → value < 2 ^ 32
    → (barrel_shift value shift_type amount carry reg_shift).0 < 2 ^ 32
unfolding barrel_shift
barrel_shift-lt value shift_type amount carry true h = by_register value shift_type amount carry h
barrel_shift-lt value shift_type amount carry false h = by_immediate value shift_type amount carry h
