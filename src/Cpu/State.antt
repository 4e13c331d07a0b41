-- ===== src/Cpu/State.antt =====
-- `struct ARM7TDMI` of src/cpu/arm7tdmi.h, less its bus pointer: what is on the bus is an argument
-- of the functions that use it.
use gba_emulator.Base.{
  Bool, Option, bit_or, false, if◌then◌else◌, none, some, update, ℕ, ◌%◌, ◌==◌, ◌^◌,
}

pub record Cpu : Type 0 where
  pub regs : ℕ → ℕ
  pub cpsr : ℕ
  pub spsr : ℕ → ℕ
  pub banked : ℕ → ℕ
  pub pipeline : ℕ → ℕ
  pub pipeline_valid : Bool
  pub halted : Bool
  pub has_bios : Bool
  pub cycles_executed : ℕ

-- `enum CPUMode`
abbrev pub cpu_mode_usr : ℕ
cpu_mode_usr = 0x10

abbrev pub cpu_mode_fiq : ℕ
cpu_mode_fiq = 0x11

abbrev pub cpu_mode_irq : ℕ
cpu_mode_irq = 0x12

abbrev pub cpu_mode_svc : ℕ
cpu_mode_svc = 0x13

abbrev pub cpu_mode_abt : ℕ
cpu_mode_abt = 0x17

abbrev pub cpu_mode_und : ℕ
cpu_mode_und = 0x1b

abbrev pub cpu_mode_sys : ℕ
cpu_mode_sys = 0x1f

-- Flag positions in the CPSR, and register numbers.
abbrev pub cpsr_n : ℕ
cpsr_n = 31

abbrev pub cpsr_z : ℕ
cpsr_z = 30

abbrev pub cpsr_c : ℕ
cpsr_c = 29

abbrev pub cpsr_v : ℕ
cpsr_v = 28

abbrev pub cpsr_i : ℕ
cpsr_i = 7

abbrev pub cpsr_f : ℕ
cpsr_f = 6

abbrev pub cpsr_t : ℕ
cpsr_t = 5

abbrev pub reg_sp : ℕ
reg_sp = 13

abbrev pub reg_lr : ℕ
reg_lr = 14

abbrev pub reg_pc : ℕ
reg_pc = 15

-- `cpu->regs[r] = v` and `cpu->cpsr = v`
abbrev pub set_reg : Cpu → ℕ → ℕ → Cpu
set_reg cpu r v = record cpu { regs = update cpu.regs r v }

abbrev pub set_cpsr : Cpu → ℕ → Cpu
set_cpsr cpu v = record cpu { cpsr = v }

unfoldable pub cpu_get_mode : Cpu → ℕ
cpu_get_mode cpu = cpu.cpsr % 32

-- `none` is the -1 of the two tables.
unfoldable pub spsr_index_for_mode : ℕ → Option ℕ
spsr_index_for_mode mode =
    if mode == cpu_mode_fiq
    then some 0
    else if mode == cpu_mode_svc
    then some 1
    else if mode == cpu_mode_abt
    then some 2
    else if mode == cpu_mode_irq
    then some 3
    else if mode == cpu_mode_und
    then some 4
    else none

-- `cpu_get_spsr`: the index of the SPSR, `none` for the NULL pointer.
unfoldable pub cpu_get_spsr : Cpu → Option ℕ
unfolding spsr_index_for_mode cpu_get_mode
cpu_get_spsr cpu = spsr_index_for_mode (cpu_get_mode cpu)

unfoldable pub cpu_flush_pipeline : Cpu → Cpu
cpu_flush_pipeline cpu = record cpu { pipeline_valid = false }

-- The fields that `cpu_init` does not write (`pipeline`, `has_bios`) keep their values.
unfoldable pub cpu_init : Cpu → Cpu
cpu_init cpu = record cpu {
  regs = update (update (λ _. 0) reg_pc 0) reg_sp 0x03007fe0;
  banked = λ _. 0;
  spsr = λ _. 0;
  cpsr = bit_or (bit_or cpu_mode_svc (2 ^ cpsr_i)) (2 ^ cpsr_f);
  pipeline_valid = false;
  halted = false;
  cycles_executed = 0;
}
