-- ===== src/Cpu/Exception.antt =====
-- Exception entry: `cpu_check_irq`, `cpu_handle_irq` and `cpu_handle_swi` of src/cpu/arm7tdmi.c.
pub mod Entry
pub mod Return
use gba_emulator.Base.{
  Bool, Option, bit_and, bit_or, false, if◌then◌else◌, none, not32, some, sub32, test_bit, update,
  ℕ, ◌^◌,
}
use gba_emulator.Interrupt.{InterruptController, interrupt_pending}
use gba_emulator.Cpu.State.{
  Cpu, cpsr_i, cpsr_t, cpu_mode_irq, cpu_mode_svc, reg_lr, reg_pc, set_reg, set_cpsr,
  cpu_flush_pipeline,
}
use gba_emulator.Cpu.Mode.{cpu_switch_mode}

pending : Option InterruptController → Bool
unfolding interrupt_pending
pending none = false
pending (some ic) = interrupt_pending ic

-- The controller is `none` where the bus has none attached.
unfoldable pub cpu_check_irq : Cpu → Option InterruptController → Bool
unfolding pending
cpu_check_irq cpu interrupts = if test_bit cpu.cpsr cpsr_i then false else pending interrupts

-- The steps that the two handlers share, in their order: the mode, its SPSR, its LR by the PC, the
-- I and T bits, and the vector.
unfoldable pub enter : Cpu → ℕ → ℕ → (ℕ → ℕ) → ℕ → Cpu
enter cpu mode index back vector =
    let old_cpsr = cpu.cpsr in
    let switched = cpu_switch_mode cpu mode in
    let saved = record switched { spsr = update switched.spsr index old_cpsr } in
    let linked = set_reg saved reg_lr (back (saved.regs reg_pc)) in
    let masked = set_cpsr linked (bit_or linked.cpsr (2 ^ cpsr_i)) in
    let arm = set_cpsr masked (bit_and masked.cpsr (not32 (2 ^ cpsr_t))) in
    cpu_flush_pipeline (set_reg arm reg_pc vector)

unfoldable pub cpu_handle_irq : Cpu → Cpu
cpu_handle_irq cpu = enter cpu cpu_mode_irq 3 (λ pc. pc) 0x18

module _ (bios_hle_execute : Cpu → ℕ → Cpu) where
  -- Without a BIOS image the call goes to `bios_hle_execute`.
  unfoldable pub cpu_handle_swi : Cpu → ℕ → Cpu
  cpu_handle_swi cpu swi_comment =
      let thumb = test_bit cpu.cpsr cpsr_t in
      if cpu.has_bios
      then enter cpu cpu_mode_svc 1 (λ pc. sub32 pc (if thumb then 2 else 4)) 0x8
      else bios_hle_execute cpu swi_comment
