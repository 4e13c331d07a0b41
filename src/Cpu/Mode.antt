-- ===== src/Cpu/Mode.antt =====
-- Mode switches with register banking: `cpu_switch_mode` of src/cpu/arm7tdmi.c.
use gba_emulator.Base.{
  Option, bit_and, bit_or, copy, if◌then◌else◌, none, not32, some, update, ℕ, ◌%◌, ◌+◌, ◌==◌,
}
use gba_emulator.Cpu.State.{
  Cpu, cpu_mode_fiq, cpu_mode_svc, cpu_mode_abt, cpu_mode_irq, cpu_mode_und, reg_sp, reg_lr,
}

-- `none` is the -1.
unfoldable pub bank_offset_for_mode : ℕ → Option ℕ
bank_offset_for_mode mode =
    if mode == cpu_mode_svc
    then some 7
    else if mode == cpu_mode_abt
    then some 9
    else if mode == cpu_mode_irq
    then some 11
    else if mode == cpu_mode_und
    then some 13
    else none

-- The SP and LR of `regs` to two slots, and back.
abbrev pub park : Cpu → ℕ → Cpu
park cpu at = record cpu {
  banked = update (update cpu.banked at (cpu.regs reg_sp)) (at + 1) (cpu.regs reg_lr);
}

abbrev pub unpark : Cpu → ℕ → Cpu
unpark cpu at = record cpu {
  regs = update (update cpu.regs reg_sp (cpu.banked at)) reg_lr (cpu.banked (at + 1));
}

-- R8 to R12 to five slots, and back.
abbrev pub park_high : Cpu → ℕ → Cpu
park_high cpu at = record cpu { banked = copy cpu.banked at cpu.regs 8 5 }

abbrev pub unpark_high : Cpu → ℕ → Cpu
unpark_high cpu at = record cpu { regs = copy cpu.regs 8 cpu.banked at 5 }

park_at : Option ℕ → Cpu → Cpu
park_at (some offset) cpu = park cpu offset
park_at none cpu = park cpu 20

unpark_at : Option ℕ → Cpu → Cpu
unpark_at (some offset) cpu = unpark cpu offset
unpark_at none cpu = unpark cpu 20

-- "Save outgoing mode's banked registers"
unfoldable pub save_outgoing : ℕ → Cpu → Cpu
unfolding bank_offset_for_mode park_at
save_outgoing old_mode cpu =
    if old_mode == cpu_mode_fiq
    then unpark_high (park (park_high cpu 0) 5) 15
    else park_at (bank_offset_for_mode old_mode) cpu

-- "Load incoming mode's banked registers"
unfoldable pub load_incoming : ℕ → Cpu → Cpu
unfolding bank_offset_for_mode unpark_at
load_incoming new_mode cpu =
    if new_mode == cpu_mode_fiq
    then unpark (unpark_high (park_high cpu 15) 0) 5
    else unpark_at (bank_offset_for_mode new_mode) cpu

unfoldable pub cpu_switch_mode : Cpu → ℕ → Cpu
cpu_switch_mode cpu new_mode =
    let old_mode = cpu.cpsr % 32 in
    let switched = load_incoming new_mode (save_outgoing old_mode cpu) in
    if old_mode == new_mode
    then cpu
    else record switched { cpsr = bit_or (bit_and switched.cpsr (not32 0x1f)) (new_mode % 32) }
