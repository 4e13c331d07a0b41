-- ===== src/Cpu/Status.antt =====
-- `arm_msr` and `arm_mrs` of src/cpu/arm_instr.c: the new state and the cycles.
pub mod User
use gba_emulator.Base.{
  Option, bit_and, bit_or, bits, if◌then◌else◌, none, not32, some, test_bit, update, ℕ, ◌%◌, ◌*◌,
  ◌==◌,
}
use gba_emulator.Cpu.State.{Cpu, cpu_mode_usr, set_reg, set_cpsr, cpu_get_mode, cpu_get_spsr}
use gba_emulator.Cpu.Mode.{cpu_switch_mode}
use gba_emulator.Cpu.DataProcessing.{rotate_imm8}

unfoldable pub msr_operand : Cpu → ℕ → ℕ
msr_operand cpu instr =
    let imm8 = instr % 256 in
    let rotate = bits instr 11 8 * 2 in
    if test_bit instr 25
    then if rotate == 0 then imm8 else rotate_imm8 imm8 rotate
    else cpu.regs (instr % 16)

-- The field mask, from bits 19 to 16.
unfoldable pub write_mask : ℕ → ℕ
write_mask instr =
    let f = if test_bit instr 19 then bit_or 0 0xff000000 else 0 in
    let s = if test_bit instr 18 then bit_or f 0x00ff0000 else f in
    let x = if test_bit instr 17 then bit_or s 0x0000ff00 else s in
    if test_bit instr 16 then bit_or x 0x000000ff else x

-- `(old & ~mask) | (operand & mask)`
unfoldable pub masked_write : ℕ → ℕ → ℕ → ℕ
masked_write old mask operand = bit_or (bit_and old (not32 mask)) (bit_and operand mask)

-- The write to the SPSR, which the system and user modes do not have.
unfoldable pub msr_spsr : Option ℕ → Cpu → ℕ → ℕ → Cpu
msr_spsr none cpu mask operand = cpu
msr_spsr (some index) cpu mask operand = record cpu {
  spsr = update cpu.spsr index (masked_write (cpu.spsr index) mask operand);
}

-- The write to the CPSR, with the mode switch that it may ask for.
unfoldable pub msr_cpsr : Cpu → ℕ → ℕ → Cpu
msr_cpsr cpu mask operand =
    let current_mode = cpu_get_mode cpu in
    let allowed = if current_mode == cpu_mode_usr then bit_and mask 0xff000000 else mask in
    let new_cpsr = masked_write cpu.cpsr allowed operand in
    let new_mode = new_cpsr % 32 in
    let held =
      set_cpsr cpu
        (bit_or (bit_and (masked_write cpu.cpsr allowed operand) (not32 0x1f)) current_mode) in
    let moved = cpu_switch_mode held new_mode in
    if current_mode == new_mode
    then set_cpsr cpu new_cpsr
    else set_cpsr moved (masked_write moved.cpsr allowed operand)

unfoldable pub arm_msr : Cpu → ℕ → Cpu × ℕ
arm_msr cpu instr =
    let operand = msr_operand cpu instr in
    let mask = write_mask instr in
    if test_bit instr 22
    then (msr_spsr (cpu_get_spsr cpu) cpu mask operand, 1)
    else (msr_cpsr cpu mask operand, 1)

mrs_value : Option ℕ → Cpu → ℕ
mrs_value none cpu = cpu.cpsr
mrs_value (some index) cpu = cpu.spsr index

unfoldable pub arm_mrs : Cpu → ℕ → Cpu × ℕ
unfolding mrs_value
arm_mrs cpu instr =
    let rd = bits instr 15 12 in
    if test_bit instr 22
    then (set_reg cpu rd (mrs_value (cpu_get_spsr cpu) cpu), 1)
    else (set_reg cpu rd cpu.cpsr, 1)
