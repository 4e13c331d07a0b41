-- ===== src/Cpu/Thumb/Alu.antt =====
-- Formats 1 to 5, 12 and 13 of src/cpu/thumb_instr.c, which reach the processor only: the new state
-- and the cycles.
use gba_emulator.Base.{
  Bool, bit, bit_and, bit_or, bit_xor, bits, clr_bit, false, if◌then◌else◌, ltb, not32, set_bit,
  sub32, test_bit, u32, ℕ, ◌%◌, ◌*◌, ◌+◌, ◌-◌, ◌/◌, ◌==◌, ◌^◌,
}
use gba_emulator.Cpu.State.{
  Cpu, cpsr_c, cpsr_t, reg_pc, reg_sp, set_reg, set_cpsr, cpu_flush_pipeline,
}
use gba_emulator.Cpu.Flags.{set_nz_flags, set_c_flag, flags, add_overflow, sub_overflow}
use gba_emulator.Cpu.Shifter.{Shifted, asr32, all_sign, shift_by_register}

-- The flags of a 64-bit sum, and its low word
abbrev pub sum_flags : Cpu → ℕ → (ℕ → Bool) → Cpu
sum_flags cpu res64 overflow = flags cpu (u32 res64) (ltb 0xffffffff res64) (overflow (u32 res64))

abbrev pub sum_to : Cpu → ℕ → ℕ → (ℕ → Bool) → Cpu
sum_to cpu rd res64 overflow = sum_flags (set_reg cpu rd (u32 res64)) res64 overflow

abbrev pub logic_to : Cpu → ℕ → ℕ → Cpu
logic_to cpu rd result = set_nz_flags (set_reg cpu rd result) result

abbrev pub shift_to : Cpu → ℕ → Shifted → Cpu
shift_to cpu rd (value, carry) = set_c_flag (logic_to cpu rd value) carry

-- The `switch` of format 1
unfoldable pub offset_shift : ℕ → ℕ → ℕ → Bool → Shifted
offset_shift value op offset5 carry =
    if op == 0
    then if offset5 == 0
      then (value, carry)
      else (u32 (value * 2 ^ offset5), test_bit value (32 - offset5))
    else if op == 1
    then if offset5 == 0
      then (0, test_bit value 31)
      else (value / 2 ^ offset5, test_bit value (offset5 - 1))
    else if op == 2
    then if offset5 == 0
      then (all_sign value, test_bit value 31)
      else (asr32 value offset5, test_bit value (offset5 - 1))
    else (value, carry)

unfoldable pub thumb_move_shifted : Cpu → ℕ → Cpu × ℕ
unfolding offset_shift
thumb_move_shifted cpu instr =
    let value = cpu.regs (bits instr 5 3) in
    let carry = test_bit cpu.cpsr cpsr_c in
    (
      shift_to cpu (bits instr 2 0) (offset_shift value (bits instr 12 11) (bits instr 10 6) carry),
      1,
    )

unfoldable pub thumb_add_subtract : Cpu → ℕ → Cpu × ℕ
thumb_add_subtract cpu instr =
    let rn_or_imm3 = bits instr 8 6 in
    let rd = bits instr 2 0 in
    let a = cpu.regs (bits instr 5 3) in
    let b = if test_bit instr 10 then rn_or_imm3 else cpu.regs rn_or_imm3 in
    if test_bit instr 9
    then (sum_to cpu rd (a + not32 b + 1) (sub_overflow a b), 1)
    else (sum_to cpu rd (a + b) (add_overflow a b), 1)

unfoldable pub thumb_mov_cmp_add_sub_imm : Cpu → ℕ → Cpu × ℕ
thumb_mov_cmp_add_sub_imm cpu instr =
    let op = bits instr 12 11 in
    let rd = bits instr 10 8 in
    let imm8 = instr % 256 in
    let val = cpu.regs rd in
    if op == 0
    then (logic_to cpu rd imm8, 1)
    else if op == 1
    then (sum_flags cpu (val + not32 imm8 + 1) (sub_overflow val imm8), 1)
    else if op == 2
    then (sum_to cpu rd (val + imm8) (add_overflow val imm8), 1)
    else (sum_to cpu rd (val + not32 imm8 + 1) (sub_overflow val imm8), 1)

-- The state that the 16 opcodes of format 4 leave
unfoldable pub alu_result : Cpu → ℕ → ℕ → ℕ → Cpu
alu_result cpu op rd rs =
    let a = cpu.regs rd in
    let b = cpu.regs rs in
    let carry = test_bit cpu.cpsr cpsr_c in
    let old_c = bit cpu.cpsr cpsr_c in
    if op == 0x0
    then logic_to cpu rd (bit_and a b)
    else if op == 0x1
    then logic_to cpu rd (bit_xor a b)
    else if op == 0x2
    then shift_to cpu rd (shift_by_register a 0 (b % 256) carry)
    else if op == 0x3
    then shift_to cpu rd (shift_by_register a 1 (b % 256) carry)
    else if op == 0x4
    then shift_to cpu rd (shift_by_register a 2 (b % 256) carry)
    else if op == 0x5
    then sum_to cpu rd (a + b + old_c) (add_overflow a b)
    else if op == 0x6
    then sum_to cpu rd (a + not32 b + old_c) (sub_overflow a b)
    else if op == 0x7
    then shift_to cpu rd (shift_by_register a 3 (b % 256) carry)
    else if op == 0x8
    then set_nz_flags cpu (bit_and a b)
    else if op == 0x9
    then sum_to cpu rd (not32 b + 1) (sub_overflow 0 b)
    else if op == 0xa
    then sum_flags cpu (a + not32 b + 1) (sub_overflow a b)
    else if op == 0xb
    then sum_flags cpu (a + b) (add_overflow a b)
    else if op == 0xc
    then logic_to cpu rd (bit_or a b)
    else if op == 0xd
    then set_c_flag (logic_to cpu rd (u32 (a * b))) false
    else if op == 0xe
    then logic_to cpu rd (bit_and a (not32 b))
    else logic_to cpu rd (not32 b)

unfoldable pub thumb_alu : Cpu → ℕ → Cpu × ℕ
unfolding alu_result
thumb_alu cpu instr =
    let op = bits instr 9 6 in
    (alu_result cpu op (bits instr 2 0) (bits instr 5 3), if op == 0xd then 4 else 1)

-- A write of a register by ADD and MOV of format 5
unfoldable pub write_hi : Cpu → ℕ → ℕ → Cpu × ℕ
write_hi cpu rd val =
    if rd == reg_pc
    then (cpu_flush_pipeline (set_reg cpu reg_pc (bit_and val (not32 1))), 3)
    else (set_reg cpu rd val, 1)

unfoldable pub thumb_hi_reg_bx : Cpu → ℕ → Cpu × ℕ
unfolding write_hi
thumb_hi_reg_bx cpu instr =
    let op = bits instr 9 8 in
    let rd = bit_or (bits instr 2 0) (bit instr 7 * 2 ^ 3) in
    let rs_val = cpu.regs (bit_or (bits instr 5 3) (bit instr 6 * 2 ^ 3)) in
    let rd_val = cpu.regs rd in
    if op == 0
    then write_hi cpu rd (u32 (rd_val + rs_val))
    else if op == 1
    then (sum_flags cpu (rd_val + not32 rs_val + 1) (sub_overflow rd_val rs_val), 1)
    else if op == 2
    then write_hi cpu rd rs_val
    else if test_bit rs_val 0
    then (
      cpu_flush_pipeline
          (set_reg (set_cpsr cpu (set_bit cpu.cpsr cpsr_t)) reg_pc (bit_and rs_val (not32 1))),
      3,
    )
    else (
      cpu_flush_pipeline
          (set_reg (set_cpsr cpu (clr_bit cpu.cpsr cpsr_t)) reg_pc (bit_and rs_val (not32 3))),
      3,
    )

unfoldable pub thumb_load_address : Cpu → ℕ → Cpu × ℕ
thumb_load_address cpu instr =
    let imm8 = instr % 256 in
    let base = if test_bit instr 11 then cpu.regs reg_sp else bit_and (cpu.regs reg_pc) (not32 2) in
    (set_reg cpu (bits instr 10 8) (u32 (base + imm8 * 2 ^ 2)), 1)

unfoldable pub thumb_add_sp_offset : Cpu → ℕ → Cpu × ℕ
thumb_add_sp_offset cpu instr =
    let offset = instr % 2 ^ 7 * 2 ^ 2 in
    let sp = cpu.regs reg_sp in
    (set_reg cpu reg_sp (if test_bit instr 7 then sub32 sp offset else u32 (sp + offset)), 1)
