-- ===== src/Cpu/Thumb/Arm.antt =====
-- The Thumb instructions of formats 1 to 3 as the ARM instructions that they abbreviate.
use gba_emulator.Base.{
  Bool, Bool-cases, inl, inr, not32, arith, bits, false, if◌then◌else◌, not, refl, suc, test_bit,
  true, zero, ℕ, ◌%◌, ◌&&◌, ◌*◌, ◌+◌, ◌/◌, ◌<◌, ◌==◌, ◌^◌, ◌≡◌, ◌≢◌,
}
use gba_emulator.Cpu.State.{Cpu, cpsr_c, reg_pc, set_reg}
use gba_emulator.Cpu.Flags.{set_nz_flags, set_c_flag, set_v_flag, flags, add_overflow, sub_overflow}
use gba_emulator.Cpu.Shifter.{Shifted, shift_by_immediate, barrel_shift}
use gba_emulator.Cpu.DataProcessing.{decode_dp_operand2, alu, write_rd, arm_data_processing}
use gba_emulator.Cpu.Thumb.Alu.{
  sum_flags, sum_to, offset_shift, thumb_move_shifted, thumb_add_subtract,
  thumb_mov_cmp_add_sub_imm,
}

-- A data-processing instruction that is always executed and sets the flags: `imm` is its bit 25.
abbrev pub encode : ℕ → ℕ → ℕ → ℕ → ℕ → ℕ
encode imm opcode rn rd operand =
    0xe0100000 + imm * 2 ^ 25 + opcode * 2 ^ 21 + rn * 2 ^ 16 + rd * 2 ^ 12 + operand

-- What such an instruction does to a low register
after : Cpu → ℕ → ℕ → ℕ → Shifted → Cpu
after cpu opcode rn rd (op2, carry) =
    let out = alu cpu opcode true (cpu.regs rn) op2 in
    let flagged =
      if out.set_flags && out.is_logical
      then set_c_flag (set_nz_flags out.cpu out.result) carry
      else out.cpu in
    if out.write_result then set_reg flagged rd out.result else flagged

and_false : (b : Bool) → (b && false) ≡ false
and_false true = refl
and_false false = refl

data_processing_lem :
    (cpu : Cpu) (w opcode rn rd : ℕ) (operand : Shifted)
    → rd < 8
    → bits w 24 21 ≡ opcode
    → bits w 19 16 ≡ rn
    → bits w 15 12 ≡ rd
    → test_bit w 20 ≡ true
    → (not (test_bit w 25) && test_bit w 4) ≡ false
    → decode_dp_operand2 cpu w ≡ operand
    → arm_data_processing cpu w ≡ (after cpu opcode rn rd operand, 1)
unfolding arm_data_processing write_rd after
data_processing_lem cpu w opcode rn rd operand low e1 e2 e3 e4 e5 e6 =
    let not_pc : (rd == reg_pc) ≡ false = ground arith in
    rw (e1, e2, e3, e4, e5, e6, not_pc) (simp and_false refl)

-- The operand of an encoded instruction: an 8-bit immediate, and a shifted low register
immediate_lem :
    (cpu : Cpu) (opcode rn rd imm8 : ℕ)
    → opcode < 16
    → rn < 8
    → rd < 8
    → imm8 < 256
    → decode_dp_operand2 cpu (encode 1 opcode rn rd imm8) ≡ (imm8, test_bit cpu.cpsr cpsr_c)
unfolding decode_dp_operand2
immediate_lem cpu opcode rn rd imm8 h1 h2 h3 h4 =
    let w = encode 1 opcode rn rd imm8 in
    let e1 : test_bit w 25 ≡ true = ground arith in
    let e2 : (bits w 11 8 * 2 == 0) ≡ true = ground arith in
    let e3 : w % 256 ≡ imm8 = omega arith in rw (e1, e2, e3) refl

register_lem :
    (cpu : Cpu) (opcode rn rd amount type rm : ℕ)
    → opcode < 16
    → rn < 8
    → rd < 8
    → amount < 32
    → type < 4
    → rm < 8
    → decode_dp_operand2 cpu (encode 0 opcode rn rd (amount * 2 ^ 7 + type * 2 ^ 5 + rm))
      ≡ shift_by_immediate (cpu.regs rm) type amount (test_bit cpu.cpsr cpsr_c)
unfolding decode_dp_operand2 barrel_shift
register_lem cpu opcode rn rd amount type rm h1 h2 h3 h4 h5 h6 =
    let w = encode 0 opcode rn rd (amount * 2 ^ 7 + type * 2 ^ 5 + rm) in
    let e1 : test_bit w 25 ≡ false = ground arith in
    let e2 : test_bit w 4 ≡ false = ground arith in
    let e3 : w % 16 ≡ rm = omega arith in
    let e4 : bits w 6 5 ≡ type = omega arith in
    let e5 : bits w 11 7 ≡ amount = omega arith in rw (e1, e2, e3, e4, e5) refl

encoded_lem :
    (cpu : Cpu) (imm opcode rn rd operand : ℕ) (op2 : Shifted)
    → imm < 2
    → opcode < 16
    → rn < 8
    → rd < 8
    → operand < 2 ^ 12
    → (imm ≡ 0 → operand / 2 ^ 4 % 2 ≡ 0)
    → decode_dp_operand2 cpu (encode imm opcode rn rd operand) ≡ op2
    → arm_data_processing cpu (encode imm opcode rn rd operand) ≡ (after cpu opcode rn rd op2, 1)
encoded_lem cpu imm opcode rn rd operand op2 h1 h2 h3 h4 h5 h6 e =
    let w = encode imm opcode rn rd operand in
    data_processing_lem cpu w opcode rn rd op2 h4 (omega arith) (omega arith) (omega arith)
      (ground arith) (ground arith) e

-- The ARM instructions: MOVS rd, rs, shift #offset5
abbrev pub moves : ℕ → ℕ
moves instr =
    encode 0 0xd 0 (bits instr 2 0)
      (bits instr 10 6 * 2 ^ 7 + bits instr 12 11 * 2 ^ 5 + bits instr 5 3)

-- ADDS and SUBS rd, rs, rn or #imm3
abbrev pub adds : ℕ → ℕ
adds instr =
    encode (bits instr 10 10) (if test_bit instr 9 then 0x2 else 0x4) (bits instr 5 3)
      (bits instr 2 0) (bits instr 8 6)

-- CMP, ADDS and SUBS rd, rd, #imm8
abbrev pub compares : ℕ → ℕ
compares instr =
    let op = bits instr 12 11 in
    encode 1 (if op == 1 then 0xa else if op == 2 then 0x4 else 0x2) (bits instr 10 8)
      (bits instr 10 8) (instr % 256)

offset_shift_lem :
    (value op offset5 : ℕ) (carry : Bool)
    → op < 3
    → offset_shift value op offset5 carry ≡ shift_by_immediate value op offset5 carry
unfolding offset_shift shift_by_immediate
offset_shift_lem value zero offset5 carry h = refl
offset_shift_lem value (suc zero) offset5 carry h = refl
offset_shift_lem value (suc (suc zero)) offset5 carry h = refl
offset_shift_lem value (suc (suc (suc op))) offset5 carry h = absurd (omega arith)

move_shifted-arm :
    (cpu : Cpu) (instr : ℕ)
    → bits instr 12 11 ≢ 3
    → thumb_move_shifted cpu instr ≡ arm_data_processing cpu (moves instr)
unfolding thumb_move_shifted after alu set_c_flag set_nz_flags
move_shifted-arm cpu instr h =
    let op = bits instr 12 11 in
    let offset5 = bits instr 10 6 in
    let rs = bits instr 5 3 in
    let rd = bits instr 2 0 in
    let carry = test_bit cpu.cpsr cpsr_c in
    rw
      (
        encoded_lem cpu 0 0xd 0 rd (offset5 * 2 ^ 7 + op * 2 ^ 5 + rs)
            (shift_by_immediate (cpu.regs rs) op offset5 carry) (omega arith) (omega arith)
            (omega arith) (omega arith) (omega arith) (λ z. omega arith)
            (register_lem cpu 0xd 0 rd offset5 op rs (omega arith) (omega arith) (omega arith)
              (omega arith) (omega arith) (omega arith)),
        offset_shift_lem (cpu.regs rs) op offset5 carry (omega arith),
      )
      refl

-- ADDS, SUBS and CMP on a low register
module _ (cpu : Cpu) (rn rd b : ℕ) (carry : Bool) where
  adds_lem :
      after cpu 0x4 rn rd (b, carry)
      ≡ sum_to cpu rd (cpu.regs rn + b) (add_overflow (cpu.regs rn) b)
  unfolding after alu flags set_nz_flags set_c_flag set_v_flag
  adds_lem = refl

  subs_lem :
      after cpu 0x2 rn rd (b, carry)
      ≡ sum_to cpu rd (cpu.regs rn + not32 b + 1) (sub_overflow (cpu.regs rn) b)
  unfolding after alu flags set_nz_flags set_c_flag set_v_flag
  subs_lem = refl

  cmp_lem :
      after cpu 0xa rn rd (b, carry)
      ≡ sum_flags cpu (cpu.regs rn + not32 b + 1) (sub_overflow (cpu.regs rn) b)
  unfolding after alu flags set_nz_flags set_c_flag set_v_flag
  cmp_lem = refl

-- The second operand of format 2, by its bit 10
operand_lem :
    (cpu : Cpu) (opcode rn rd imm operand : ℕ)
    → opcode < 16
    → rn < 8
    → rd < 8
    → imm < 2
    → operand < 8
    → arm_data_processing cpu (encode imm opcode rn rd operand) ≡ (
      after cpu opcode rn rd
          (if imm == 1 then operand else cpu.regs operand, test_bit cpu.cpsr cpsr_c),
      1,
    )
unfolding shift_by_immediate
operand_lem cpu opcode rn rd zero operand h1 h2 h3 h4 h5 =
    let plain : 0 * 2 ^ 7 + 0 * 2 ^ 5 + operand ≡ operand = omega arith in
    rw plain at (
      encoded_lem cpu 0 opcode rn rd (0 * 2 ^ 7 + 0 * 2 ^ 5 + operand)
        (cpu.regs operand, test_bit cpu.cpsr cpsr_c) (omega arith) h1 h2 h3 (omega arith)
        (λ z. omega arith)
        (register_lem cpu opcode rn rd 0 0 operand h1 h2 h3 (omega arith) (omega arith) h5))
operand_lem cpu opcode rn rd (suc zero) operand h1 h2 h3 h4 h5 =
    encoded_lem cpu 1 opcode rn rd operand (operand, test_bit cpu.cpsr cpsr_c) (omega arith) h1 h2
      h3 (omega arith) (λ z. absurd (omega arith))
      (immediate_lem cpu opcode rn rd operand h1 h2 h3 (omega arith))
operand_lem cpu opcode rn rd (suc (suc imm)) operand h1 h2 h3 h4 h5 = absurd (omega arith)

add_subtract-arm :
    (cpu : Cpu) (instr : ℕ) → thumb_add_subtract cpu instr ≡ arm_data_processing cpu (adds instr)
unfolding thumb_add_subtract
add_subtract-arm cpu instr =
    let imm = bits instr 10 10 in
    let rn = bits instr 8 6 in
    let rs = bits instr 5 3 in
    let rd = bits instr 2 0 in
    let carry = test_bit cpu.cpsr cpsr_c in
    let b = if imm == 1 then rn else cpu.regs rn in
    elim (Bool-cases (test_bit instr 9)) [
      | inl e ↦
          rw
            (
              e,
              operand_lem cpu 0x2 rs rd imm rn (omega arith) (omega arith) (omega arith)
                  (omega arith) (omega arith),
              subs_lem cpu rs rd b carry,
            )
            refl
      | inr e ↦
          rw
            (
              e,
              operand_lem cpu 0x4 rs rd imm rn (omega arith) (omega arith) (omega arith)
                  (omega arith) (omega arith),
              adds_lem cpu rs rd b carry,
            )
            refl
    ]

compare_opcode : ℕ → ℕ
compare_opcode op = if op == 1 then 0xa else if op == 2 then 0x4 else 0x2

compares_lem :
    (cpu : Cpu) (op rd imm8 : ℕ)
    → rd < 8
    → imm8 < 256
    → op < 4
    → arm_data_processing cpu (encode 1 (compare_opcode op) rd rd imm8)
      ≡ (after cpu (compare_opcode op) rd rd (imm8, test_bit cpu.cpsr cpsr_c), 1)
compares_lem cpu op rd imm8 h1 h2 h3 =
    let small : compare_opcode op < 16 = unfold compare_opcode in ground arith in
    encoded_lem cpu 1 (compare_opcode op) rd rd imm8 (imm8, test_bit cpu.cpsr cpsr_c) (omega arith)
      small h1 h1 (omega arith) (λ z. absurd (omega arith))
      (immediate_lem cpu (compare_opcode op) rd rd imm8 small h1 h1 h2)

imm-arm :
    (cpu : Cpu) (instr : ℕ)
    → bits instr 12 11 ≢ 0
    → thumb_mov_cmp_add_sub_imm cpu instr ≡ arm_data_processing cpu (compares instr)
unfolding thumb_mov_cmp_add_sub_imm compare_opcode
imm-arm cpu instr h =
    let op = bits instr 12 11 in
    let rd = bits instr 10 8 in
    let imm8 = instr % 256 in
    let carry = test_bit cpu.cpsr cpsr_c in
    let some : (op == 0) ≡ false = ground arith in
    let arm = compares_lem cpu op rd imm8 (omega arith) (omega arith) (omega arith) in
    elim (Bool-cases (op == 1)) [
      | inl e ↦ rw (arm, some, e, cmp_lem cpu rd rd imm8 carry) refl
      | inr e ↦ elim (Bool-cases (op == 2)) [
        | inl e' ↦ rw (arm, some, e, e', adds_lem cpu rd rd imm8 carry) refl
        | inr e' ↦ rw (arm, some, e, e', subs_lem cpu rd rd imm8 carry) refl
      ]
    ]

-- A Thumb instruction of format 1 with LSL, LSR or ASR, any of format 2, and CMP, ADD and SUB of
-- format 3 leave the processor as the ARM instruction that they abbreviate does, at the same cost.
pub thumb-arm :
    (cpu : Cpu) (shift add imm : ℕ)
    → bits shift 12 11 ≢ 3
    → bits imm 12 11 ≢ 0
    → (thumb_move_shifted cpu shift ≡ arm_data_processing cpu (moves shift))
      × (thumb_add_subtract cpu add ≡ arm_data_processing cpu (adds add))
      × (thumb_mov_cmp_add_sub_imm cpu imm ≡ arm_data_processing cpu (compares imm))
thumb-arm cpu shift add imm h1 h2 =
    (move_shifted-arm cpu shift h1, add_subtract-arm cpu add, imm-arm cpu imm h2)
