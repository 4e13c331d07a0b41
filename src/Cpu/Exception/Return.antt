-- ===== src/Cpu/Exception/Return.antt =====
-- The return from an IRQ by `SUBS PC, LR, #4`, the last instruction of the handler that
-- `install_hle_bios_stubs` of src/cpu/arm7tdmi.c writes.
use gba_emulator.Base.{
  Bool, ap, arith, bit_and, bit_and_high, false, ltb, not32, refl, same, some, sub32, sym, true,
  u32, ℕ, ◌%◌, ◌*◌, ◌+◌, ◌/◌, ◌<◌, ◌==◌, ◌^◌, ◌∙◌, ◌≡◌, ◌≢◌, ◌⊎◌,
}
use native.Mathlib.Decide.{ℕ_discrete}
use gba_emulator.Cpu.State.{
  Cpu, set_cpsr, cpu_mode_irq, set_reg, cpu_get_mode, cpu_get_spsr, cpu_flush_pipeline,
  spsr_index_for_mode,
}
use gba_emulator.Cpu.Mode.{cpu_switch_mode, save_outgoing, load_incoming}
use gba_emulator.Cpu.Banks.{mode_reg, mode_regs, sp_slot}
use gba_emulator.Cpu.Switch.{cpu_switch_mode-mode_reg}
use gba_emulator.Cpu.Flags.{
  flags, flags_lem, flags-lt, sub_overflow, set_nz_flags, set_c_flag, set_v_flag,
}
use gba_emulator.Cpu.DataProcessing.{
  arm_data_processing, decode_dp_operand2, alu, write_rd, restore_cpsr, restore_at,
}
use gba_emulator.Cpu.Exception.{cpu_handle_irq}
use gba_emulator.Cpu.Exception.Entry.{low_bits, cpu_handle_irq-Enters}

-- SUBS PC, LR, #4
abbrev pub subs_pc_lr_4 : ℕ
subs_pc_lr_4 = 0xe25ef004

switch-spsr : (cpu : Cpu) (mode : ℕ) → (cpu_switch_mode cpu mode).spsr ≡ cpu.spsr
unfolding cpu_switch_mode save_outgoing load_incoming
switch-spsr cpu mode = ground arith

flags_frame :
    (cpu : Cpu) (r : ℕ) (c v : Bool)
    → ((flags cpu r c v).regs ≡ cpu.regs)
      × ((flags cpu r c v).spsr ≡ cpu.spsr)
      × ((flags cpu r c v).cpsr % 32 ≡ cpu.cpsr % 32)
unfolding flags set_nz_flags set_c_flag set_v_flag
flags_frame cpu r c v = (
  refl,
  refl,
  low_bits (flags cpu r c v).cpsr cpu.cpsr
      λ n h. ground (arith, flags_lem cpu r n c v (omega arith)),
)

-- The CPU just before the restore: the flags of the subtraction, and the result in R15.
subtracted : Cpu → Cpu
subtracted cpu =
    let lr = cpu.regs 14 in
    let res64 = lr + not32 4 + 1 in
    set_reg (flags cpu (u32 res64) (ltb 0xffffffff res64) (sub_overflow lr 4 (u32 res64))) 15
      (u32 res64)

executed :
    (cpu : Cpu)
    → arm_data_processing cpu subs_pc_lr_4 ≡ (
        let restored = restore_cpsr (subtracted cpu) in
        (cpu_flush_pipeline (set_reg restored 15 (bit_and (restored.regs 15) (not32 3))), 3))
unfolding arm_data_processing decode_dp_operand2 alu write_rd subtracted
executed cpu = refl

set_cpsr-mode_reg :
    (x : Cpu) (v m r : ℕ) → x.cpsr % 32 ≡ v % 32 → mode_reg (set_cpsr x v) m r ≡ mode_reg x m r
unfolding mode_reg
set_cpsr-mode_reg x v m r e = ap (λ now. mode_regs x.regs x.banked now m r) (sym e)

irq_spsr : (s : Cpu) → s.cpsr % 32 ≡ cpu_mode_irq → cpu_get_spsr s ≡ some 3
unfolding cpu_get_spsr cpu_get_mode spsr_index_for_mode
irq_spsr s irq = simp irq refl

-- What the restore leaves: the saved CPSR, and the registers of all modes.
restored_lem :
    (s : Cpu) (m r : ℕ)
    → s.cpsr < 2 ^ 32
    → s.cpsr % 32 ≡ cpu_mode_irq
    → r < 16
    → ((restore_cpsr s).cpsr ≡ s.spsr 3) × (mode_reg (restore_cpsr s) m r ≡ mode_reg s m r)
unfolding restore_cpsr restore_at cpu_get_mode
restored_lem s m r h irq p =
    simp (irq_spsr s irq) (elim (ℕ_discrete (s.cpsr % 32) (s.spsr 3 % 32)) [
      | yes e ↦
          let test : (s.cpsr % 32 == s.spsr 3 % 32) ≡ true = ground arith in
          simp test (refl, set_cpsr-mode_reg s (s.spsr 3) m r e)
      | no ne ↦
          let test : (s.cpsr % 32 == s.spsr 3 % 32) ≡ false = ground arith in
          let moved = cpu_switch_mode s (s.spsr 3 % 32) in
          let spsr : moved.spsr 3 ≡ s.spsr 3 = ap (λ f. f 3) (switch-spsr s (s.spsr 3 % 32)) in
          let (seen, moded, _) = cpu_switch_mode-mode_reg s (s.spsr 3 % 32) m r h (omega arith) p in
          simp test (
            spsr,
            set_cpsr-mode_reg moved (moved.spsr 3) m r (moded ∙ ap (λ t. t % 32) (sym spsr)) ∙ seen,
          )
    ])

-- Two CPUs in one mode that differ in R15.
below_pc :
    (e s : Cpu) (m r : ℕ)
    → e.cpsr % 32 ≡ s.cpsr % 32
    → e.banked ≡ s.banked
    → ((k : ℕ) → k < 15 → e.regs k ≡ s.regs k)
    → r < 15
    → mode_reg e m r ≡ mode_reg s m r
unfolding mode_reg mode_regs
below_pc e s m r moded banks same p = rw (moded, banks) (ground (arith, same r))

restored_pc :
    (s : Cpu) → s.cpsr < 2 ^ 32 → s.cpsr % 32 ≡ cpu_mode_irq → (restore_cpsr s).regs 15 ≡ s.regs 15
restored_pc s h irq = unfold mode_reg mode_regs in (restored_lem s 0 15 h irq (omega arith)).1

-- `SUBS PC, LR, #4` in the IRQ mode.
subs_lem :
    (cpu : Cpu) (m r : ℕ)
    → cpu.cpsr < 2 ^ 32
    → cpu.cpsr % 32 ≡ cpu_mode_irq
    → r < 15
    → let out = (arm_data_processing cpu subs_pc_lr_4).0 in
      (out.cpsr ≡ cpu.spsr 3)
      × (out.regs 15 ≡ bit_and (u32 (cpu.regs 14 + not32 4 + 1)) (not32 3))
      × (out.pipeline_valid ≡ false)
      × (mode_reg out m r ≡ mode_reg cpu m r)
unfolding cpu_flush_pipeline subtracted mode_reg
subs_lem cpu m r h irq p = rw (executed cpu) (
  (restored_lem s m r ranged moded (omega arith)).0 ∙ ap (λ f. f 3) spsr,
  ap (λ t. bit_and t (not32 3)) (restored_pc s ranged moded),
  refl,
  below_pc (set_reg (restore_cpsr s) 15 (bit_and ((restore_cpsr s).regs 15) (not32 3)))
        (restore_cpsr s) m r refl refl (λ k below. ground arith) p
      ∙ (restored_lem s m r ranged moded (omega arith)).1
      ∙ below_pc s cpu m r mode_kept banks frame p,
)
  where
    res64 : ℕ
    res64 = cpu.regs 14 + not32 4 + 1

    carry : Bool
    carry = ltb 0xffffffff res64

    v : Bool
    v = sub_overflow (cpu.regs 14) 4 (u32 res64)

    s : Cpu
    s = subtracted cpu

    ranged : s.cpsr < 2 ^ 32
    ranged = unfold subtracted in flags-lt cpu (u32 res64) carry v h

    mode_kept : s.cpsr % 32 ≡ cpu.cpsr % 32
    mode_kept = unfold subtracted in (flags_frame cpu (u32 res64) carry v).2

    moded : s.cpsr % 32 ≡ cpu_mode_irq
    moded = mode_kept ∙ irq

    spsr : s.spsr ≡ cpu.spsr
    spsr = unfold subtracted in (flags_frame cpu (u32 res64) carry v).1

    banks : s.banked ≡ cpu.banked
    banks = unfold subtracted flags set_nz_flags set_c_flag set_v_flag in refl

    frame : (k : ℕ) → k < 15 → s.regs k ≡ cpu.regs k
    frame k below = unfold subtracted flags set_nz_flags set_c_flag set_v_flag in ground arith

-- An IRQ followed by `SUBS PC, LR, #4`, in any mode and state with a CPSR and a PC of 32 bits,
-- restores the CPSR, R0 to R13 of every mode and R14 of each mode that does not share the IRQ
-- mode's, flushes the pipeline, and resumes at the interrupted PC less 4, cut to a multiple of 4.
pub irq_return :
    (cpu : Cpu) (m r : ℕ)
    → cpu.cpsr < 2 ^ 32
    → cpu.regs 15 < 2 ^ 32
    → r < 13 ⊎ ((r ≡ 13) ⊎ ((r ≡ 14) × (sp_slot m ≢ sp_slot cpu_mode_irq)))
    → let out = (arm_data_processing (cpu_handle_irq cpu) subs_pc_lr_4).0 in
      (out.cpsr ≡ cpu.cpsr)
      × (out.regs 15 ≡ sub32 (cpu.regs 15) 4 / 4 * 4)
      × (out.pipeline_valid ≡ false)
      × (mode_reg out m r ≡ mode_reg cpu m r)
irq_return cpu m r h pc other =
    let e = cpu_handle_irq cpu in
    let enters = cpu_handle_irq-Enters cpu h in
    let (cpsr, next, flushed, seen) = subs_lem e m r enters.ranged enters.moded (ground arith) in
    (
      cpsr ∙ enters.saved,
      next
          ∙ ap (λ lr. bit_and (u32 (lr + not32 4 + 1)) (not32 3)) enters.linked
          ∙ aligned (cpu.regs 15) pc,
      flushed,
      seen ∙ enters.others m r other,
    )
  where
    aligned : (x : ℕ) → x < 2 ^ 32 → bit_and (u32 (x + not32 4 + 1)) (not32 3) ≡ sub32 x 4 / 4 * 4
    aligned x below =
        let y = sub32 x 4 in
        ap (λ t. bit_and t (not32 3)) {x = u32 (x + not32 4 + 1)} {y = y / 4 * 4 + y % 4}
          (omega arith)
        ∙ bit_and_high 2 30 (y / 4) (y % 4) (omega arith) (omega arith)
