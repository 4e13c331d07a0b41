-- ===== src/Cpu/Shifter/Digits.antt =====
-- What the shifter does to each digit, for all four shifts and every amount.
use gba_emulator.Base.{
  Bool, arith, bit, bit-div_pow, bit-mod_pow, bit-mul_pow, bit-not, bit-or, bit_above, bit_ones,
  false, if◌then◌else◌, ltb, min, not32, suc, test_bit, u32, zero, ℕ, ◌%◌, ◌*◌, ◌+◌, ◌-◌, ◌/◌, ◌<◌,
  ◌==◌, ◌^◌, ◌∙◌, ◌≡◌,
}
use native.Mathlib.Decide.{dec_lt}
use native.Mathlib.Nat.{div-le_self}
use gba_emulator.Cpu.Shifter.{asr32, ror32, all_sign, shift_by_register}

-- Digit `i` of the architecture's LSL, LSR, ASR and ROR by any amount, and the carry: the last
-- digit shifted out. They are written over the digits alone.
pub reference : ℕ → ℕ → ℕ → ℕ → ℕ
reference value shift_type amount i =
    if shift_type == 0
    then if ltb i amount then 0 else bit value (i - amount)
    else if shift_type == 1
    then if ltb (i + amount) 32 then bit value (i + amount) else 0
    else if shift_type == 2
    then bit value (min (i + amount) 31)
    else bit value ((i + amount) % 32)

pub reference_carry : ℕ → ℕ → ℕ → Bool → Bool
reference_carry value shift_type amount carry =
    if amount == 0
    then carry
    else if shift_type == 0
    then if ltb 32 amount then false else test_bit value (32 - amount)
    else if shift_type == 1
    then if ltb 32 amount then false else test_bit value (amount - 1)
    else if shift_type == 2
    then test_bit value (min (amount - 1) 31)
    else test_bit value ((amount + 31) % 32)

lsl_digit :
    (value amount i : ℕ)
    → i < 32
    → bit (u32 (value * 2 ^ amount)) i ≡ (if ltb i amount then 0 else bit value (i - amount))
lsl_digit value amount i h =
    bit-mod_pow 32 i (value * 2 ^ amount) ∙ ground (arith, bit-mul_pow amount i value)

lsr_digit :
    (value amount i : ℕ)
    → value < 2 ^ 32
    → bit (value / 2 ^ amount) i ≡ (if ltb (i + amount) 32 then bit value (i + amount) else 0)
lsr_digit value amount i h =
    bit-div_pow amount i value ∙ ground (arith, bit_above 32 (i + amount) value h)

not32_digit : (v i : ℕ) → v < 2 ^ 32 → i < 32 → bit (not32 v) i ≡ 1 - bit v i
not32_digit v i h p = bit-not 32 i v h p

all_sign_digit : (value i : ℕ) → i < 32 → bit (all_sign value) i ≡ bit value 31
all_sign_digit value i h = ground (arith, bit_ones 32 i h, bit_above 0 i 0)

asr_digit :
    (value amount i : ℕ)
    → value < 2 ^ 32
    → i < 32
    → bit (asr32 value amount) i ≡ bit value (min (i + amount) 31)
unfolding asr32
asr_digit value amount i h p = elim (dec_lt (i + amount) 32) [
  | yes inside ↦
      let e : min (i + amount) 31 ≡ i + amount = omega arith in
      rw e (
        ground (
          arith,
          not32_digit (not32 value / 2 ^ amount) i,
          div-le_self (not32 value) (2 ^ amount),
          lsr_digit (not32 value) amount i,
          lsr_digit value amount i,
          not32_digit value (i + amount),
        ))
  | no outside ↦
      let e : min (i + amount) 31 ≡ 31 = omega arith in
      rw e (
        ground (
          arith,
          not32_digit (not32 value / 2 ^ amount) i,
          div-le_self (not32 value) (2 ^ amount),
          lsr_digit (not32 value) amount i,
          lsr_digit value amount i,
        ))
]

ror_digit :
    (value amount i : ℕ)
    → value < 2 ^ 32
    → 0 < amount
    → amount < 32
    → i < 32
    → bit (ror32 value amount) i ≡ bit value ((i + amount) % 32)
unfolding ror32
ror_digit value amount i h pos below p = ground (
  arith,
  bit-or i (value / 2 ^ amount) (u32 (value * 2 ^ (32 - amount))),
  lsr_digit value amount i h,
  lsl_digit value (32 - amount) i p,
)

-- A shift of a value of 32 bits by a register amount gives, for each of the four types and every
-- amount of a byte, the 32 digits and the carry that the architecture describes (`reference` and
-- `reference_carry`).
pub shift_by_register_digits :
    (value shift_type amount i : ℕ) (carry : Bool)
    → value < 2 ^ 32
    → shift_type < 4
    → amount < 256
    → i < 32
    → (bit (shift_by_register value shift_type amount carry).0 i
        ≡ reference value shift_type amount i)
      × ((shift_by_register value shift_type amount carry).1
          ≡ reference_carry value shift_type amount carry)
unfolding shift_by_register reference reference_carry
shift_by_register_digits value zero amount i carry h t a p =
    ground (arith, lsl_digit value amount i p, bit_above 0 i 0)
shift_by_register_digits value (suc zero) amount i carry h t a p =
    ground (arith, lsr_digit value amount i h, bit_above 0 i 0, bit_above 32 (i + amount) value)
shift_by_register_digits value (suc (suc zero)) amount i carry h t a p = elim (dec_lt amount 32) [
  | yes small ↦
      let e : 0 < amount → min (amount - 1) 31 ≡ amount - 1 = omega arith in
      ground (arith, asr_digit value amount i h p, e)
  | no large ↦
      let e : min (amount - 1) 31 ≡ 31 = omega arith in
      let e' : min (i + amount) 31 ≡ 31 = omega arith in
      ground (arith, all_sign_digit value i p, e, e')
]
shift_by_register_digits value (suc (suc (suc zero))) amount i carry h t a p =
    let e : 0 < amount % 32 → (amount + 31) % 32 ≡ amount % 32 - 1 = omega arith in
    let e' : amount % 32 ≡ 0 → (amount + 31) % 32 ≡ 31 = omega arith in
    let whole : amount % 32 ≡ 0 → (i + amount) % 32 ≡ i = omega arith in
    let part : (i + amount % 32) % 32 ≡ (i + amount) % 32 = omega arith in
    ground (arith, ror_digit value (amount % 32) i h, e, e', whole, part)
shift_by_register_digits value (suc (suc (suc (suc n)))) amount i carry h t a p =
    absurd (omega arith)
