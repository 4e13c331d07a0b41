-- ===== src/Cpu/Multiply.antt =====
-- `arm_multiply` and `arm_multiply_long` of src/cpu/arm_instr.c: the new state and the cycles.
pub mod Long
use gba_emulator.Base.{
  Bool, bit_or, bits, if◌then◌else◌, test_bit, u32, ℕ, ◌%◌, ◌*◌, ◌+◌, ◌-◌, ◌/◌, ◌==◌, ◌^◌,
}
use gba_emulator.Cpu.State.{Cpu, cpsr_n, cpsr_z, set_reg, set_cpsr}
use gba_emulator.Cpu.Flags.{set_nz_flags, put_bit}

unfoldable pub arm_multiply : Cpu → ℕ → Cpu × ℕ
arm_multiply cpu instr =
    let accumulate = test_bit instr 21 in
    let product = u32 (cpu.regs (instr % 16) * cpu.regs (bits instr 11 8)) in
    let result = if accumulate then u32 (product + cpu.regs (bits instr 15 12)) else product in
    let written = set_reg cpu (bits instr 19 16) result in
    (
      if test_bit instr 20 then set_nz_flags written result else written,
      if accumulate then 3 else 2,
    )

-- `(int64_t)(int32_t)x`, as a bit pattern; a product of two is exact in 64 bits.
unfoldable pub sign_extend : ℕ → ℕ
sign_extend x = if test_bit x 31 then x + (2 ^ 64 - 2 ^ 32) else x

-- The writes of the 64-bit result to RdLo and RdHi, and of its flags.
unfoldable pub write_pair : Cpu → ℕ → ℕ → ℕ → Bool → Cpu
write_pair cpu rd_hi rd_lo result set_flags =
    let written = set_reg (set_reg cpu rd_lo (result % 2 ^ 32)) rd_hi (result / 2 ^ 32) in
    let hi = written.regs rd_hi in
    let nz = set_nz_flags written hi in
    let zeroed = set_cpsr nz (put_bit nz.cpsr cpsr_z (result == 0)) in
    let signed = set_cpsr zeroed (put_bit zeroed.cpsr cpsr_n (test_bit hi 31)) in
    if set_flags then signed else written

unfoldable pub arm_multiply_long : Cpu → ℕ → Cpu × ℕ
arm_multiply_long cpu instr =
    let accumulate = test_bit instr 21 in
    let rd_hi = bits instr 19 16 in
    let rd_lo = bits instr 15 12 in
    let s = cpu.regs (bits instr 11 8) in
    let m = cpu.regs (instr % 16) in
    let product =
      if test_bit instr 22 then sign_extend m * sign_extend s % 2 ^ 64 else m * s % 2 ^ 64 in
    let result =
      if accumulate
      then (product + bit_or (cpu.regs rd_hi * 2 ^ 32) (cpu.regs rd_lo)) % 2 ^ 64
      else product in
    (write_pair cpu rd_hi rd_lo result (test_bit instr 20), if accumulate then 5 else 4)
