-- ===== src/Cpu/Run/Boot.antt =====
-- The state that `cpu_skip_bios` of src/cpu/arm7tdmi.c hands to the cartridge.
use gba_emulator.Base.{false, refl, ◌≡◌}
use gba_emulator.System.State.{Gba}
use gba_emulator.Cpu.State.{
  cpu_mode_irq, cpu_mode_svc, cpu_mode_sys, cpu_mode_usr, reg_pc, reg_sp, cpu_get_mode,
  cpu_flush_pipeline,
}
use gba_emulator.Cpu.Mode.{bank_offset_for_mode, save_outgoing, load_incoming, cpu_switch_mode}
use gba_emulator.Cpu.Banks.{mode_reg, mode_regs, sp_slot}
use gba_emulator.Cpu.Run.{write_le32, install_hle_bios_stubs, cpu_skip_bios}
use gba_emulator.Bus.Bytes.{join4, word_at}

-- From any state: the processor is in system mode in ARM state with interrupts enabled and an empty
-- pipeline, at the start of the ROM; the IRQ, supervisor and system modes, and with the last the
-- user mode, have the stack pointers of the BIOS; the IRQ vector holds the branch to the handler
-- body, and the body starts by pushing the work registers and ends by the return from the interrupt.
cpu_skip_bios_lem :
    (gba : Gba)
    → let after = cpu_skip_bios gba in
      (after.cpu.cpsr ≡ cpu_mode_sys)
      × (after.cpu.pipeline_valid ≡ false)
      × (after.cpu.regs reg_pc ≡ 0x08000000)
      × (mode_reg after.cpu cpu_mode_irq reg_sp ≡ 0x03007fa0)
      × (mode_reg after.cpu cpu_mode_svc reg_sp ≡ 0x03007fe0)
      × (mode_reg after.cpu cpu_mode_sys reg_sp ≡ 0x03007f00)
      × (mode_reg after.cpu cpu_mode_usr reg_sp ≡ 0x03007f00)
      × (word_at after.bus.bios 0x18 ≡ 0xea000042)
      × (word_at after.bus.bios 0x128 ≡ 0xe92d500f)
      × (word_at after.bus.bios 0x13c ≡ 0xe25ef004)
unfolding cpu_skip_bios cpu_switch_mode mode_reg mode_regs save_outgoing load_incoming cpu_get_mode
    bank_offset_for_mode install_hle_bios_stubs write_le32 join4 cpu_flush_pipeline sp_slot
cpu_skip_bios_lem gba = (refl, refl, refl, refl, refl, refl, refl, refl, refl, refl)
