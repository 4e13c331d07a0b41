-- ===== src/Cpu/Status/User.antt =====
-- User mode cannot leave itself by MSR.
use gba_emulator.Base.{
  Bool-cases, arith, bit, bit-and, bit-mul_pow, bit-not, bit-or, bit_and, bit_and-lt, inl, inr,
  none, not32, refl, test_bit, ℕ, ◌%◌, ◌<◌, ◌^◌, ◌∙◌, ◌≡◌,
}
use gba_emulator.Cpu.Exception.Entry.{low_bits}
use gba_emulator.Cpu.State.{
  Cpu, set_cpsr, cpu_mode_usr, cpu_get_mode, cpu_get_spsr, spsr_index_for_mode,
}
use gba_emulator.Cpu.Status.{arm_msr, write_mask, msr_operand, msr_cpsr, msr_spsr, masked_write}

write_mask-lt : (instr : ℕ) → write_mask instr < 2 ^ 32
unfolding write_mask
write_mask-lt instr = ground arith

-- A write under a mask of the flags keeps the other digits.
masked_write_low :
    (old mask operand n : ℕ)
    → mask < 2 ^ 32
    → n < 24
    → bit (masked_write old (bit_and mask 0xff000000) operand) n ≡ bit old n
unfolding masked_write
masked_write_low old mask operand n fits h =
    let m = bit_and mask 0xff000000 in
    let clear : bit m n ≡ 0 = ground (arith, bit-and n mask 0xff000000, bit-mul_pow 24 n 255) in
    omega (
      arith,
      clear,
      bit-or n (bit_and old (not32 m)) (bit_and operand m),
      bit-and n old (not32 m),
      bit-and n operand m,
      bit-not 32 n m (bit_and-lt 32 mask 0xff000000 fits) (omega arith),
    )

msr_cpsr_user :
    (cpu : Cpu) (mask operand : ℕ)
    → cpu.cpsr % 32 ≡ cpu_mode_usr
    → mask < 2 ^ 32
    → msr_cpsr cpu mask operand
      ≡ set_cpsr cpu (masked_write cpu.cpsr (bit_and mask 0xff000000) operand)
unfolding msr_cpsr cpu_get_mode
msr_cpsr_user cpu mask operand usr fits =
    let new_cpsr = masked_write cpu.cpsr (bit_and mask 0xff000000) operand in
    let same_mode : new_cpsr % 32 ≡ cpu_mode_usr =
      low_bits new_cpsr cpu.cpsr
        (λ n h. masked_write_low cpu.cpsr mask operand n fits (omega arith))
      ∙ usr in
    simp (usr, same_mode) refl

usr_spsr : (cpu : Cpu) → cpu.cpsr % 32 ≡ cpu_mode_usr → cpu_get_spsr cpu ≡ none
unfolding cpu_get_spsr cpu_get_mode spsr_index_for_mode
usr_spsr cpu usr = simp usr refl

-- In user mode no MSR changes the control, extension or status field of the CPSR, a register, a
-- banked register or a saved CPSR, whatever its operand and fields are.
pub arm_msr_user :
    (cpu : Cpu) (instr n : ℕ)
    → cpu.cpsr % 32 ≡ cpu_mode_usr
    → n < 24
    → let out = (arm_msr cpu instr).0 in
      (bit out.cpsr n ≡ bit cpu.cpsr n)
      × (out.regs ≡ cpu.regs)
      × (out.banked ≡ cpu.banked)
      × (out.spsr ≡ cpu.spsr)
unfolding arm_msr msr_spsr
arm_msr_user cpu instr n usr h = elim (Bool-cases (test_bit instr 22)) [
  | inl spsr ↦ simp (spsr, usr_spsr cpu usr) (refl, refl, refl, refl)
  | inr cpsr ↦
      let mask = write_mask instr in
      simp (cpsr, msr_cpsr_user cpu mask (msr_operand cpu instr) usr (write_mask-lt instr))
        (
          masked_write_low cpu.cpsr mask (msr_operand cpu instr) n (write_mask-lt instr) h,
          refl,
          refl,
          refl,
        )
]
