-- ===== src/Cpu/Run.antt =====
-- `arm_execute` of src/cpu/arm_instr.c, and `cpu_skip_bios`, `cpu_step` and `cpu_run` of
-- src/cpu/arm7tdmi.c. The high-level BIOS is a parameter.
pub mod Boot
pub mod Steady
pub mod Instructions
pub mod Thumb
pub mod Bios
pub mod Ends
mod Tests
use gba_emulator.Base.{
  Bool, bit_and, false, if◌then◌else◌, leb, not, some, suc, test_bit, true, u16, u32, u8, update,
  zero, ℕ, ◌%◌, ◌&&◌, ◌*◌, ◌+◌, ◌/◌, ◌==◌, ◌^◌,
}
use gba_emulator.System.State.{Gba, set_cpu}
use gba_emulator.Cpu.State.{
  Cpu, cpsr_t, cpu_mode_irq, cpu_mode_svc, cpu_mode_sys, reg_pc, reg_sp, set_reg, set_cpsr,
  cpu_flush_pipeline,
}
use gba_emulator.Cpu.Mode.{cpu_switch_mode}
use gba_emulator.Cpu.Flags.{cpu_condition_passed}
use gba_emulator.Cpu.Exception.{cpu_check_irq, cpu_handle_irq, cpu_handle_swi}
use gba_emulator.Cpu.Branch.{arm_branch, arm_bx, arm_swi}
use gba_emulator.Cpu.Status.{arm_msr, arm_mrs}
use gba_emulator.Cpu.Multiply.{arm_multiply, arm_multiply_long}
use gba_emulator.Cpu.DataProcessing.{arm_data_processing}
use gba_emulator.Cpu.Transfer.{arm_single_transfer, arm_halfword_transfer, arm_swap}
use gba_emulator.Cpu.Block.{arm_block_transfer}
use gba_emulator.Cpu.Thumb.{thumb_execute}
use gba_emulator.Bus.Memory.{bus_read16, bus_read32}

-- The instructions that `arm_execute` tells apart, in the order of its tests.
pub data Instruction : Type 0 where
  swi branch block_transfer undefined single_transfer bx swap multiply_long multiply : Instruction
  halfword_transfer msr_immediate mrs msr_register data_processing : Instruction

-- `(instr & mask) == pattern`
abbrev pub fits : ℕ → ℕ → ℕ → Bool
fits instr mask pattern = bit_and instr mask == pattern

unfoldable pub arm_decode : ℕ → Instruction
arm_decode instr =
    if fits instr 0x0f000000 0x0f000000
    then swi
    else if fits instr 0x0e000000 0x0a000000
    then branch
    else if fits instr 0x0e000000 0x08000000
    then block_transfer
    else if fits instr 0x0e000010 0x06000010
    then undefined
    else if fits instr 0x0c000000 0x04000000
    then single_transfer
    else if fits instr 0x0ffffff0 0x012fff10
    then bx
    else if fits instr 0x0fb00ff0 0x01000090
    then swap
    else if fits instr 0x0f8000f0 0x00800090
    then multiply_long
    else if fits instr 0x0fc000f0 0x00000090
    then multiply
    else if fits instr 0x0e000090 0x00000090 && not (bit_and instr 0x60 == 0)
    then halfword_transfer
    else if fits instr 0x0fb0f000 0x0320f000
    then msr_immediate
    else if fits instr 0x0fbf0fff 0x010f0000
    then mrs
    else if fits instr 0x0fb0fff0 0x0120f000
    then msr_register
    else data_processing

-- "For now, just log it": the log is left out.
unfoldable pub arm_undefined : Cpu → ℕ → Cpu × ℕ
arm_undefined cpu instr = (cpu, 1)

-- An instruction that reaches the processor only
abbrev pub on_cpu : Gba → Cpu × ℕ → Gba × ℕ
on_cpu gba (cpu, cycles) = (set_cpu gba cpu, cycles)

module _ (dma_write_control : Gba → ℕ → ℕ → Gba) (bios_hle_execute : Gba → ℕ → Gba) where
  -- `arm_swi`, where the high-level BIOS may reach the whole machine
  unfoldable pub system_swi : Gba → ℕ → Gba × ℕ
  system_swi gba instr =
      if gba.cpu.has_bios
      then on_cpu gba (arm_swi (λ cpu comment. cpu) gba.cpu instr)
      else (bios_hle_execute gba (instr / 2 ^ 16 % 256), 3)

  unfoldable pub run_instruction : Instruction → Gba → ℕ → Gba × ℕ
  unfolding system_swi arm_undefined
  run_instruction swi gba instr = system_swi gba instr
  run_instruction branch gba instr = on_cpu gba (arm_branch gba.cpu instr)
  run_instruction block_transfer gba instr = arm_block_transfer dma_write_control gba instr
  run_instruction undefined gba instr = on_cpu gba (arm_undefined gba.cpu instr)
  run_instruction single_transfer gba instr = arm_single_transfer dma_write_control gba instr
  run_instruction bx gba instr = on_cpu gba (arm_bx gba.cpu instr)
  run_instruction swap gba instr = arm_swap dma_write_control gba instr
  run_instruction multiply_long gba instr = on_cpu gba (arm_multiply_long gba.cpu instr)
  run_instruction multiply gba instr = on_cpu gba (arm_multiply gba.cpu instr)
  run_instruction halfword_transfer gba instr = arm_halfword_transfer dma_write_control gba instr
  run_instruction msr_immediate gba instr = on_cpu gba (arm_msr gba.cpu instr)
  run_instruction mrs gba instr = on_cpu gba (arm_mrs gba.cpu instr)
  run_instruction msr_register gba instr = on_cpu gba (arm_msr gba.cpu instr)
  run_instruction data_processing gba instr = on_cpu gba (arm_data_processing gba.cpu instr)

  unfoldable pub arm_execute : Gba → ℕ → Gba × ℕ
  unfolding arm_decode run_instruction
  arm_execute gba instr = run_instruction (arm_decode instr) gba instr

  -- "Refill the 2-entry pipeline": two fetches of `width` bytes
  unfoldable pub refill : Gba → ℕ → (Gba → ℕ → Gba × ℕ) → Gba
  refill gba width fetch =
      let pc = gba.cpu.regs reg_pc in
      let (read1, first) = fetch gba pc in
      let (read2, second) = fetch read1 (u32 (pc + width)) in
      let cpu : Cpu = record read2.cpu {
        pipeline = update (update read2.cpu.pipeline 0 first) 1 second;
        pipeline_valid = true;
      } in
      set_cpu read2 (set_reg cpu reg_pc (u32 (pc + 2 * width)))

  -- "Advance pipeline if no flush"
  unfoldable pub next_fetch : Gba → ℕ → (Gba → ℕ → Gba × ℕ) → Gba
  next_fetch gba width fetch =
      let pc = gba.cpu.regs reg_pc in
      let (read, fetched) = fetch gba pc in
      let cpu : Cpu = record read.cpu {
        pipeline = update (update read.cpu.pipeline 0 (gba.cpu.pipeline 1)) 1 fetched;
      } in
      if gba.cpu.pipeline_valid then set_cpu read (set_reg cpu reg_pc (u32 (pc + width))) else gba

  unfoldable pub cpu_step : Gba → Gba × ℕ
  unfolding refill next_fetch arm_execute
  cpu_step gba =
      let cpu = gba.cpu in
      let instr = cpu.pipeline 0 in
      let (thumb, thumb_cycles) =
        thumb_execute dma_write_control bios_hle_execute gba (u16 instr) in
      let (arm, arm_cycles) =
        if cpu_condition_passed cpu (instr / 2 ^ 28 % 16)
        then arm_execute gba instr
        else (gba, 1) in
      if not cpu.pipeline_valid
      then if test_bit cpu.cpsr cpsr_t
        then (refill gba 2 bus_read16, 2)
        else (refill gba 4 bus_read32, 2)
      else if test_bit cpu.cpsr cpsr_t
      then (next_fetch thumb 2 bus_read16, thumb_cycles)
      else (next_fetch arm 4 bus_read32, arm_cycles)

  -- The interrupt checks of a round of `cpu_run`: the wake-up of a halted processor, and the check
  -- before the instruction.
  unfoldable pub check_interrupt : Gba → Gba
  check_interrupt gba =
      if cpu_check_irq gba.cpu (some gba.interrupts)
      then set_cpu gba (cpu_handle_irq gba.cpu)
      else gba

  abbrev pub add_cycles : Gba × ℕ → Gba
  add_cycles (gba, cycles) =
      set_cpu gba (record gba.cpu { cycles_executed = gba.cpu.cycles_executed + cycles })

  -- The `while` loop, with fuel for its rounds.
  unfoldable pub run_loop : ℕ → ℕ → Gba → Gba
  unfolding check_interrupt cpu_step
  run_loop zero cycles gba = gba
  run_loop (suc fuel) cycles gba =
      let woken =
        if gba.cpu.halted
        then check_interrupt (set_cpu gba (record gba.cpu { halted = false }))
        else gba in
      let rest = run_loop fuel cycles (add_cycles (cpu_step (check_interrupt woken))) in
      let asleep = gba.cpu.halted && not (cpu_check_irq gba.cpu (some gba.interrupts)) in
      if leb cycles gba.cpu.cycles_executed
      then gba
      else if asleep
      then set_cpu gba (record gba.cpu { cycles_executed = cycles })
      else rest

  -- Every round that does not stop costs a cycle at least, so `cycles` rounds are enough.
  unfoldable pub cpu_run : Gba → ℕ → Gba
  unfolding run_loop
  cpu_run gba cycles =
      run_loop (suc cycles) cycles (set_cpu gba (record gba.cpu { cycles_executed = 0 }))

-- `write_le32`
unfoldable pub write_le32 : (ℕ → ℕ) → ℕ → ℕ → ℕ → ℕ
write_le32 dst offset val =
    update
      (update (update (update dst offset (u8 val)) (offset + 1) (u8 (val / 2 ^ 8))) (offset + 2)
        (u8 (val / 2 ^ 16)))
      (offset + 3) (u8 (val / 2 ^ 24))

unfoldable pub install_hle_bios_stubs : (ℕ → ℕ) → ℕ → ℕ
unfolding write_le32
install_hle_bios_stubs b =
    let swi_vector = write_le32 b 0x08 0xe1b0f00e in
    let irq_vector = write_le32 swi_vector 0x18 0xea000042 in
    let b0 = write_le32 irq_vector 0x128 0xe92d500f in
    let b1 = write_le32 b0 0x12c 0xe3a00301 in
    let b2 = write_le32 b1 0x130 0xe28fe000 in
    let b3 = write_le32 b2 0x134 0xe510f004 in
    let b4 = write_le32 b3 0x138 0xe8bd500f in write_le32 b4 0x13c 0xe25ef004

unfoldable pub cpu_skip_bios : Gba → Gba
unfolding install_hle_bios_stubs
cpu_skip_bios gba =
    let system = set_cpsr gba.cpu cpu_mode_sys in
    let irq = set_reg (cpu_switch_mode system cpu_mode_irq) reg_sp 0x03007fa0 in
    let svc = set_reg (cpu_switch_mode irq cpu_mode_svc) reg_sp 0x03007fe0 in
    let sys = set_reg (cpu_switch_mode svc cpu_mode_sys) reg_sp 0x03007f00 in
    let started = cpu_flush_pipeline (set_reg sys reg_pc 0x08000000) in
    record gba {
      cpu = started;
      bus = record gba.bus { bios = install_hle_bios_stubs gba.bus.bios };
    }
