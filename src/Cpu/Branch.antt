-- ===== src/Cpu/Branch.antt =====
-- `arm_branch`, `arm_bx` and `arm_swi` of src/cpu/arm_instr.c: the new state and the cycles.
pub mod Call
use gba_emulator.Base.{
  bit_and, clr_bit, if◌then◌else◌, not32, set_bit, sub32, test_bit, u32, ℕ, ◌%◌, ◌*◌, ◌+◌, ◌/◌, ◌^◌,
}
use gba_emulator.Cpu.State.{Cpu, cpsr_t, reg_lr, reg_pc, set_reg, set_cpsr, cpu_flush_pipeline}
use gba_emulator.Cpu.Shifter.{asr32}
use gba_emulator.Cpu.Exception.{cpu_handle_swi}

-- `(int32_t)(instr << 8) >> 6`, as a bit pattern
unfoldable pub branch_offset : ℕ → ℕ
branch_offset instr = asr32 (u32 (instr * 2 ^ 8)) 6

unfoldable pub arm_branch : Cpu → ℕ → Cpu × ℕ
unfolding branch_offset
arm_branch cpu instr =
    let linked =
      if test_bit instr 24 then set_reg cpu reg_lr (sub32 (cpu.regs reg_pc) 4) else cpu in
    let target = u32 (linked.regs reg_pc + branch_offset instr) in
    (cpu_flush_pipeline (set_reg linked reg_pc target), 3)

unfoldable pub arm_bx : Cpu → ℕ → Cpu × ℕ
arm_bx cpu instr =
    let addr = cpu.regs (instr % 16) in
    let moved =
      if test_bit addr 0
      then set_reg (set_cpsr cpu (set_bit cpu.cpsr cpsr_t)) reg_pc (bit_and addr (not32 1))
      else set_reg (set_cpsr cpu (clr_bit cpu.cpsr cpsr_t)) reg_pc (bit_and addr (not32 3)) in
    (cpu_flush_pipeline moved, 3)

unfoldable pub arm_swi : (Cpu → ℕ → Cpu) → Cpu → ℕ → Cpu × ℕ
arm_swi bios_hle_execute cpu instr = (cpu_handle_swi bios_hle_execute cpu (instr / 2 ^ 16 % 256), 3)
