-- ===== src/Cpu/Switch.antt =====
-- What `cpu_switch_mode` of src/cpu/arm7tdmi.c promises: it changes the mode and nothing that any
-- mode sees of its registers.
use gba_emulator.Base.{
  ap, ap₂, arith, bit_and, bit_and_high, bit_or, bit_or_fields, false, inl, inr, not32, refl, true,
  ℕ, ◌%◌, ◌*◌, ◌+◌, ◌-◌, ◌/◌, ◌<◌, ◌==◌, ◌^◌, ◌∙◌, ◌≡◌, ◌≢◌,
}
use native.Mathlib.Decide.{dec_lt, ℕ_discrete}
use native.Mathlib.Nat.{mod-eq_of_lt}
use gba_emulator.Cpu.State.{Cpu}
use gba_emulator.Cpu.Mode.{save_outgoing, load_incoming, cpu_switch_mode}
use gba_emulator.Cpu.Banks.{mode_regs, mode_reg, switched, switched_low, switched_high, switched_sp}

-- `(cpsr & ~0x1F) | mode`
pub mode_bits :
    (cpsr mode : ℕ)
    → cpsr < 2 ^ 32
    → mode < 32
    → bit_or (bit_and cpsr (not32 0x1f)) mode ≡ cpsr / 32 * 32 + mode
mode_bits cpsr mode h m =
    ap (λ t. bit_or (bit_and t (not32 0x1f)) mode) {x = cpsr} {y = cpsr / 32 * 32 + cpsr % 32}
      (omega arith)
    ∙ rw (bit_and_high 5 27 (cpsr / 32) (cpsr % 32) (omega arith) (omega arith))
        (bit_or_fields 5 (cpsr / 32) mode m)

switched_cpsr : (old new : ℕ) (cpu : Cpu) → (switched old new cpu).cpsr ≡ cpu.cpsr
unfolding switched save_outgoing load_incoming
switched_cpsr old new cpu = ground arith

mode_regs-switched :
    (old new mode r : ℕ) (cpu : Cpu)
    → r < 16
    → mode_regs (switched old new cpu).regs (switched old new cpu).banked new mode r
      ≡ mode_regs cpu.regs cpu.banked old mode r
mode_regs-switched old new mode r cpu h = elim (dec_lt r 8) [
  | yes low ↦ switched_low old new mode r cpu (inl low)
  | no not_low ↦ elim (dec_lt r 13) [
    | yes high ↦
        let e : 8 + (r - 8) ≡ r = omega arith in
        rw e at (switched_high old new mode (r - 8) cpu (omega arith))
    | no not_high ↦ elim (dec_lt r 15) [
      | yes sp ↦
          let e : 13 + (r - 13) ≡ r = omega arith in
          rw e at (switched_sp old new mode (r - 13) cpu (omega arith))
      | no pc ↦ switched_low old new mode r cpu (inr (omega arith))
    ]
  ]
]

switch_of_ne :
    (cpu : Cpu) (new : ℕ)
    → cpu.cpsr % 32 ≢ new
    → cpu_switch_mode cpu new ≡ (
        let s = switched (cpu.cpsr % 32) new cpu in
        record s { cpsr = bit_or (bit_and s.cpsr (not32 0x1f)) (new % 32) })
unfolding cpu_switch_mode switched
switch_of_ne cpu new ne = let test : (cpu.cpsr % 32 == new) ≡ false = ground arith in rw test refl

changed :
    (cpu : Cpu) (new mode r : ℕ)
    → cpu.cpsr < 2 ^ 32
    → new < 32
    → r < 16
    → cpu.cpsr % 32 ≢ new
    → (mode_reg (cpu_switch_mode cpu new) mode r ≡ mode_reg cpu mode r)
      × ((cpu_switch_mode cpu new).cpsr ≡ cpu.cpsr / 32 * 32 + new)
changed cpu new mode r h m below ne = rw (switch_of_ne cpu new ne) (seen, cpsr)
  where
    s : Cpu
    s = switched (cpu.cpsr % 32) new cpu

    cpsr : bit_or (bit_and s.cpsr (not32 0x1f)) (new % 32) ≡ cpu.cpsr / 32 * 32 + new
    cpsr =
        ap₂ (λ t n. bit_or (bit_and t (not32 0x1f)) n) (switched_cpsr (cpu.cpsr % 32) new cpu)
          (mod-eq_of_lt m)
        ∙ mode_bits cpu.cpsr new h m

    mode_of_sum : (cpu.cpsr / 32 * 32 + new) % 32 ≡ new
    mode_of_sum = omega arith

    seen :
        mode_reg (record s { cpsr = bit_or (bit_and s.cpsr (not32 0x1f)) (new % 32) }) mode r
        ≡ mode_reg cpu mode r
    seen =
        unfold mode_reg in
        ap (λ now. mode_regs s.regs s.banked now mode r) (ap (λ c. c % 32) cpsr ∙ mode_of_sum)
        ∙ mode_regs-switched (cpu.cpsr % 32) new mode r cpu below

-- A switch to any mode of five bits leaves each register R0 to R15 of every mode as that mode sees
-- it, sets the mode bits of a CPSR of 32 bits and keeps its other bits.
pub cpu_switch_mode-mode_reg :
    (cpu : Cpu) (new mode r : ℕ)
    → cpu.cpsr < 2 ^ 32
    → new < 32
    → r < 16
    → (mode_reg (cpu_switch_mode cpu new) mode r ≡ mode_reg cpu mode r)
      × ((cpu_switch_mode cpu new).cpsr % 32 ≡ new)
      × ((cpu_switch_mode cpu new).cpsr / 32 ≡ cpu.cpsr / 32)
unfolding cpu_switch_mode
cpu_switch_mode-mode_reg cpu new mode r h m below = elim (ℕ_discrete (cpu.cpsr % 32) new) [
  | yes e ↦ let test : (cpu.cpsr % 32 == new) ≡ true = ground arith in rw test (refl, e, refl)
  | no ne ↦
      let (regs, cpsr) = changed cpu new mode r h m below ne in (regs, omega arith, omega arith)
]
