-- ===== src/Cpu/DataProcessing/Compare.antt =====
-- CMP and the condition codes: after a comparison each code holds exactly when the relation that
-- it is named for holds of the operands.
use gba_emulator.Base.{
  Bool, ap, ap₂, arith, bit, bit-and, bit-xor, bit_xor, if◌then◌else◌, ltb, min, not32, same,
  signed32, test_bit, true, u32, ℕ, ◌%◌, ◌+◌, ◌<ℤ◌, ◌<◌, ◌==◌, ◌^◌, ◌↔◌, ◌∙◌, ◌≡◌, ◌≢◌, ◌≤ℤ◌, ◌≤◌,
}
use gba_emulator.Cpu.State.{Cpu}
use gba_emulator.Cpu.Flags.{cpu_condition_passed, flags_lem, sub_overflow}
use gba_emulator.Cpu.DataProcessing.{alu}

-- The four flags that a subtraction leaves.
pub sub_overflow_lem :
    (a b r : ℕ)
    → sub_overflow a b r ≡ (min ((bit a 31 + bit b 31) % 2) ((bit a 31 + bit r 31) % 2) == 1)
unfolding sub_overflow
sub_overflow_lem a b r =
    ap (λ t. t == 1)
      (bit-and 31 (bit_xor a b) (bit_xor a r) ∙ ap₂ min (bit-xor 31 a b) (bit-xor 31 a r))

-- N and V agree exactly when the first operand is the greater or equal, as signed numbers.
signed_order :
    (a b : ℕ)
    → a < 2 ^ 32
    → b < 2 ^ 32
    → (same (test_bit (u32 (a + not32 b + 1)) 31) (sub_overflow a b (u32 (a + not32 b + 1))) ≡ true)
      ↔ (signed32 b ≤ℤ signed32 a)
signed_order a b ha hb = ground (arith, sub_overflow_lem a b (u32 (a + not32 b + 1)))

module _ (cpu : Cpu) (a b : ℕ) (ha : a < 2 ^ 32) (hb : b < 2 ^ 32) (s : Bool) where
  -- The CPU after `CMP a, b`.
  pub after : Cpu
  after = (alu cpu 0xa s a b).cpu

  abbrev result : ℕ
  result = u32 (a + not32 b + 1)

  flag :
      (m : ℕ)
      → m < 32
      → bit after.cpsr m ≡ (
          if m == 31
          then bit result 31
          else if m == 30
          then if result == 0 then 1 else 0
          else if m == 29
          then if ltb 0xffffffff (a + not32 b + 1) then 1 else 0
          else if m == 28
          then if sub_overflow a b result then 1 else 0
          else bit cpu.cpsr m)
  unfolding after alu
  flag m h = flags_lem cpu result m (ltb 0xffffffff (a + not32 b + 1)) (sub_overflow a b result) h

  -- After CMP of two operands of 32 bits, the conditions EQ, NE, CS, CC, HI and LS hold exactly by
  -- the equality and the unsigned order of the operands.
  pub compare_unsigned :
      ((cpu_condition_passed after 0x0 ≡ true) ↔ (a ≡ b))
      × ((cpu_condition_passed after 0x1 ≡ true) ↔ (a ≢ b))
      × ((cpu_condition_passed after 0x2 ≡ true) ↔ (b ≤ a))
      × ((cpu_condition_passed after 0x3 ≡ true) ↔ (a < b))
      × ((cpu_condition_passed after 0x8 ≡ true) ↔ (b < a))
      × ((cpu_condition_passed after 0x9 ≡ true) ↔ (a ≤ b))
  unfolding cpu_condition_passed
  compare_unsigned = (
    ground (arith, flag 30 (omega arith)),
    ground (arith, flag 30 (omega arith)),
    ground (arith, flag 29 (omega arith)),
    ground (arith, flag 29 (omega arith)),
    ground (arith, flag 29 (omega arith), flag 30 (omega arith)),
    ground (arith, flag 29 (omega arith), flag 30 (omega arith)),
  )

  n_eq_v :
      same (test_bit after.cpsr 31) (test_bit after.cpsr 28)
      ≡ same (test_bit result 31) (sub_overflow a b result)
  n_eq_v = ground (arith, flag 31 (omega arith), flag 28 (omega arith))

  -- After CMP of two operands of 32 bits, the conditions GE, LT, GT and LE hold exactly by the
  -- order of the operands as signed numbers.
  pub compare_signed :
      ((cpu_condition_passed after 0xa ≡ true) ↔ (signed32 b ≤ℤ signed32 a))
      × ((cpu_condition_passed after 0xb ≡ true) ↔ (signed32 a <ℤ signed32 b))
      × ((cpu_condition_passed after 0xc ≡ true) ↔ (signed32 b <ℤ signed32 a))
      × ((cpu_condition_passed after 0xd ≡ true) ↔ (signed32 a ≤ℤ signed32 b))
  unfolding cpu_condition_passed
  compare_signed = (
    ground (arith, n_eq_v, signed_order a b ha hb),
    ground (arith, n_eq_v, signed_order a b ha hb),
    ground (arith, n_eq_v, flag 30 (omega arith), signed_order a b ha hb),
    ground (arith, n_eq_v, flag 30 (omega arith), signed_order a b ha hb),
  )
