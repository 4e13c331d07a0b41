-- ===== src/Cpu/Branch/Call.antt =====
-- Calls: where a branch goes, and that BX LR comes back from it.
use gba_emulator.Base.{
  ap, arith, bit, bit-put_bit, bit_and, bit_and_high, false, if◌then◌else◌, ltb, not32, refl, sub32,
  test_bit, true, u32, ℕ, ◌%◌, ◌*◌, ◌+◌, ◌-◌, ◌/◌, ◌<◌, ◌^◌, ◌∙◌, ◌≡◌,
}
use gba_emulator.Cpu.State.{Cpu, cpu_flush_pipeline}
use gba_emulator.Cpu.Shifter.{asr32}
use gba_emulator.Cpu.Branch.{branch_offset, arm_branch, arm_bx}

-- BX LR
abbrev pub bx_lr : ℕ
bx_lr = 0xe12fff1e

-- The signed word offset of 24 bits, times 4, in 32 bits.
branch_offset_lem :
    (instr : ℕ)
    → branch_offset instr ≡ (
        let off = instr % 2 ^ 24 in if ltb off (2 ^ 23) then 4 * off else 2 ^ 32 + 4 * off - 2 ^ 26)
unfolding branch_offset asr32
branch_offset_lem instr = ground arith

-- At a PC of 32 bits that is a multiple of 4, BL goes to the PC plus four times the signed offset
-- of its low 24 bits, modulo 2^32, and leaves the PC less 4, the address of the instruction after
-- it, in LR; BX LR then goes to that address in ARM state. Both flush the pipeline.
pub call_return :
    (cpu : Cpu) (instr : ℕ)
    → cpu.regs 15 < 2 ^ 32
    → cpu.regs 15 % 4 ≡ 0
    → test_bit instr 24 ≡ true
    → let off = instr % 2 ^ 24 in
      let called = (arm_branch cpu instr).0 in
      let back = (arm_bx called bx_lr).0 in
      (called.regs 15
        ≡ (cpu.regs 15 + (if ltb off (2 ^ 23) then 4 * off else 2 ^ 32 + 4 * off - 2 ^ 26))
          % 2 ^ 32)
      × (called.regs 14 ≡ sub32 (cpu.regs 15) 4)
      × (called.pipeline_valid ≡ false)
      × (back.regs 15 ≡ sub32 (cpu.regs 15) 4)
      × (bit back.cpsr 5 ≡ 0)
      × (back.pipeline_valid ≡ false)
unfolding arm_branch arm_bx cpu_flush_pipeline
call_return cpu instr h aligned link =
    let lr = sub32 (cpu.regs 15) 4 in
    let even : test_bit lr 0 ≡ false = ground arith in
    let whole : bit_and lr (not32 3) ≡ lr =
      ap (λ t. bit_and t (not32 3)) {x = lr} {y = lr / 4 * 4 + 0} (omega arith)
      ∙ bit_and_high 2 30 (lr / 4) 0 (omega arith) (omega arith)
      ∙ omega arith in
    simp (link, even)
      (
        ap (λ t. u32 (cpu.regs 15 + t)) (branch_offset_lem instr),
        refl,
        refl,
        whole,
        bit-put_bit 32 5 5 cpu.cpsr false (omega arith) (omega arith),
        refl,
      )
