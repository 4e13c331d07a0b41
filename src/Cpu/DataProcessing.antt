-- ===== src/Cpu/DataProcessing.antt =====
-- The data-processing instructions: `decode_dp_operand2` and `arm_data_processing` of
-- src/cpu/arm_instr.c.
pub mod Arith
pub mod Compare
use gba_emulator.Base.{
  Bool, Option, bit, bit_and, bit_or, bit_xor, bits, false, if◌then◌else◌, ltb, none, not, not32,
  some, test_bit, true, u32, ℕ, ◌%◌, ◌&&◌, ◌*◌, ◌+◌, ◌-◌, ◌/◌, ◌==◌, ◌^◌,
}
use gba_emulator.Cpu.State.{
  Cpu, cpsr_c, reg_pc, set_reg, set_cpsr, cpu_get_mode, cpu_get_spsr, cpu_flush_pipeline,
}
use gba_emulator.Cpu.Mode.{cpu_switch_mode}
use gba_emulator.Cpu.Flags.{set_nz_flags, set_c_flag, flags, add_overflow, sub_overflow}
use gba_emulator.Cpu.Shifter.{Shifted, barrel_shift}

-- An 8-bit immediate rotated right by twice a 4-bit amount.
abbrev pub rotate_imm8 : ℕ → ℕ → ℕ
rotate_imm8 imm8 rotate = bit_or (imm8 / 2 ^ rotate) (u32 (imm8 * 2 ^ (32 - rotate)))

-- The operand and the shifter's carry.
unfoldable pub decode_dp_operand2 : Cpu → ℕ → Shifted
decode_dp_operand2 cpu instr =
    let carry = test_bit cpu.cpsr cpsr_c in
    let imm8 = instr % 256 in
    let rotate = bits instr 11 8 * 2 in
    let rotated = rotate_imm8 imm8 rotate in
    let rm = instr % 16 in
    let rm_val = cpu.regs rm in
    let shift_type = bits instr 6 5 in
    if test_bit instr 25
    then if rotate == 0 then (imm8, carry) else (rotated, test_bit rotated 31)
    else if test_bit instr 4
    then barrel_shift (if rm == reg_pc then u32 (rm_val + 4) else rm_val) shift_type
        (cpu.regs (bits instr 11 8) % 256) carry true
    else barrel_shift rm_val shift_type (bits instr 11 7) carry false

-- What the `switch` on the opcode leaves: the CPU with the flags that it sets inline, and the
-- local variables.
pub record AluOut : Type 0 where
  pub cpu : Cpu
  pub result : ℕ
  pub write_result : Bool
  pub is_logical : Bool
  pub set_flags : Bool

abbrev pub logical : Cpu → Bool → Bool → ℕ → AluOut
logical cpu write set_flags result = record {
  cpu = cpu;
  result = result;
  write_result = write;
  is_logical = true;
  set_flags = set_flags;
}

-- An addition in 64 bits: `res64` is the sum, and `overflow` takes its low 32 bits.
abbrev pub arithmetic : Cpu → Bool → Bool → Bool → ℕ → (ℕ → Bool) → AluOut
arithmetic cpu write set_flags inline res64 overflow =
    let result = u32 res64 in
    record {
      cpu = if inline then flags cpu result (ltb 0xffffffff res64) (overflow result) else cpu;
      result = result;
      write_result = write;
      is_logical = false;
      set_flags = set_flags;
    }

unfoldable pub alu : Cpu → ℕ → Bool → ℕ → ℕ → AluOut
alu cpu opcode s rn op2 =
    let old_c = bit cpu.cpsr cpsr_c in
    if opcode == 0x0
    then logical cpu true s (bit_and rn op2)
    else if opcode == 0x1
    then logical cpu true s (bit_xor rn op2)
    else if opcode == 0x2
    then arithmetic cpu true s s (rn + not32 op2 + 1) (sub_overflow rn op2)
    else if opcode == 0x3
    then arithmetic cpu true s s (op2 + not32 rn + 1) (sub_overflow op2 rn)
    else if opcode == 0x4
    then arithmetic cpu true s s (rn + op2) (add_overflow rn op2)
    else if opcode == 0x5
    then arithmetic cpu true s s (rn + op2 + old_c) (add_overflow rn op2)
    else if opcode == 0x6
    then arithmetic cpu true s s (rn + not32 op2 + old_c) (sub_overflow rn op2)
    else if opcode == 0x7
    then arithmetic cpu true s s (op2 + not32 rn + old_c) (sub_overflow op2 rn)
    else if opcode == 0x8
    then logical cpu false true (bit_and rn op2)
    else if opcode == 0x9
    then logical cpu false true (bit_xor rn op2)
    else if opcode == 0xa
    then arithmetic cpu false s true (rn + not32 op2 + 1) (sub_overflow rn op2)
    else if opcode == 0xb
    then arithmetic cpu false s true (rn + op2) (add_overflow rn op2)
    else if opcode == 0xc
    then logical cpu true s (bit_or rn op2)
    else if opcode == 0xd
    then logical cpu true s op2
    else if opcode == 0xe
    then logical cpu true s (bit_and rn (not32 op2))
    else logical cpu true s (not32 op2)

-- "CPSR = SPSR", with the switch to its mode.
unfoldable pub restore_at : Option ℕ → Cpu → Cpu
restore_at none cpu = cpu
restore_at (some index) cpu =
    let saved = cpu.spsr index in
    let new_m = saved % 32 in
    let moved = if cpu_get_mode cpu == new_m then cpu else cpu_switch_mode cpu new_m in
    set_cpsr moved (moved.spsr index)

unfoldable pub restore_cpsr : Cpu → Cpu
unfolding restore_at
restore_cpsr cpu = restore_at (cpu_get_spsr cpu) cpu

-- The result to Rd, with what a write of R15 sets off.
unfoldable pub write_rd : Cpu → ℕ → Bool → ℕ → Cpu
write_rd cpu rd set_flags result =
    let written = set_reg cpu rd result in
    let restored = if set_flags then restore_cpsr written else written in
    if rd == reg_pc
    then cpu_flush_pipeline (set_reg restored reg_pc (bit_and (restored.regs reg_pc) (not32 3)))
    else written

-- The new state and the cycles.
unfoldable pub arm_data_processing : Cpu → ℕ → Cpu × ℕ
arm_data_processing cpu instr =
    let opcode = bits instr 24 21 in
    let rn = bits instr 19 16 in
    let rd = bits instr 15 12 in
    let (op2, shifter_carry) = decode_dp_operand2 cpu instr in
    let by_register = not (test_bit instr 25) && test_bit instr 4 in
    let rn_val = if rn == reg_pc && by_register then u32 (cpu.regs rn + 4) else cpu.regs rn in
    let out = alu cpu opcode (test_bit instr 20) rn_val op2 in
    let flagged =
      if out.set_flags && out.is_logical
      then set_c_flag (set_nz_flags out.cpu out.result) shifter_carry
      else out.cpu in
    let written =
      if out.write_result then write_rd flagged rd out.set_flags out.result else flagged in
    (
      written,
      1 + (if by_register then 1 else 0) + (if out.write_result && rd == reg_pc then 2 else 0),
    )
