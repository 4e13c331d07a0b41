-- ===== src/Cpu/Thumb/Jump.antt =====
-- Formats 16 to 19 of src/cpu/thumb_instr.c: branches and software interrupts.
use gba_emulator.Base.{
  sign8, bit_or, bits, if◌then◌else◌, not, sub32, test_bit, u32, ℕ, ◌%◌, ◌*◌, ◌+◌, ◌-◌, ◌^◌,
}
use gba_emulator.System.State.{Gba, set_cpu}
use gba_emulator.Cpu.State.{Cpu, reg_lr, reg_pc, set_reg, cpu_flush_pipeline}
use gba_emulator.Cpu.Flags.{cpu_condition_passed}
use gba_emulator.Cpu.Exception.{cpu_handle_swi}

-- "Sign-extend 11-bit offset"
unfoldable pub sign11 : ℕ → ℕ
sign11 v = if test_bit v 10 then v + (2 ^ 32 - 2 ^ 11) else v

-- `cpu->regs[REG_PC] += offset`, and the flush
unfoldable pub branch_by : Cpu → ℕ → Cpu
branch_by cpu offset = cpu_flush_pipeline (set_reg cpu reg_pc (u32 (cpu.regs reg_pc + offset)))

unfoldable pub thumb_cond_branch : Cpu → ℕ → Cpu × ℕ
unfolding branch_by
thumb_cond_branch cpu instr =
    if not (cpu_condition_passed cpu (bits instr 11 8))
    then (cpu, 1)
    else (branch_by cpu (u32 (sign8 (instr % 256) * 2)), 3)

-- `cpu_handle_swi` on the machine, where the high-level BIOS may reach all of it
unfoldable pub thumb_swi : (Gba → ℕ → Gba) → Gba → ℕ → Gba × ℕ
thumb_swi bios_hle_execute gba instr =
    if gba.cpu.has_bios
    then (set_cpu gba (cpu_handle_swi (λ cpu comment. cpu) gba.cpu (instr % 256)), 3)
    else (bios_hle_execute gba (instr % 256), 3)

unfoldable pub thumb_unconditional_branch : Cpu → ℕ → Cpu × ℕ
unfolding sign11 branch_by
thumb_unconditional_branch cpu instr = (branch_by cpu (u32 (sign11 (instr % 2 ^ 11) * 2)), 3)

unfoldable pub thumb_long_branch_link : Cpu → ℕ → Cpu × ℕ
unfolding sign11
thumb_long_branch_link cpu instr =
    let offset11 = instr % 2 ^ 11 in
    let pc = cpu.regs reg_pc in
    let target = u32 (cpu.regs reg_lr + offset11 * 2) in
    let linked = set_reg (set_reg cpu reg_pc target) reg_lr (bit_or (sub32 pc 2) 1) in
    if not (test_bit instr 11)
    then (set_reg cpu reg_lr (u32 (pc + u32 (sign11 offset11 * 2 ^ 12))), 1)
    else (cpu_flush_pipeline linked, 3)
