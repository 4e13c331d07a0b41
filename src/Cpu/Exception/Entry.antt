-- ===== src/Cpu/Exception/Entry.antt =====
-- What an exception entry leaves.
use gba_emulator.Base.{
  ap, arith, bit, bit-div_pow, bit-put_bit, bit_and, bit_and-lt, bit_or, bit_or-lt, false,
  if◌then◌else◌, not32, refl, same, sub32, sym, test_bit, true, ℕ, ◌%◌, ◌+◌, ◌-◌, ◌/◌, ◌<◌, ◌==◌,
  ◌^◌, ◌∙◌, ◌≡◌, ◌≢◌, ◌≤◌, ◌⊎◌,
}
use gba_emulator.Cpu.State.{Cpu, cpu_mode_irq, cpu_mode_svc, cpu_flush_pipeline}
use gba_emulator.Cpu.Mode.{cpu_switch_mode}
use gba_emulator.Cpu.Banks.{mode_reg, mode_regs, sp_slot}
use gba_emulator.Cpu.Switch.{cpu_switch_mode-mode_reg}
use gba_emulator.Cpu.Exception.{enter, cpu_handle_irq, cpu_handle_swi}

-- `entered` is `cpu` after an exception to `mode`: the CPSR is in the mode's SPSR, the return
-- address in its LR, IRQs are off, ARM state on, the next fetch is at the vector, and no other
-- register of any mode has changed.
pub record Enters (cpu entered : Cpu) (mode index link vector : ℕ) : Type 0 where
  pub ranged : entered.cpsr < 2 ^ 32
  pub moded : entered.cpsr % 32 ≡ mode
  pub masked : bit entered.cpsr 7 ≡ 1
  pub in_arm : bit entered.cpsr 5 ≡ 0
  pub kept : (n : ℕ) → 5 < n → n ≢ 7 → n < 32 → bit entered.cpsr n ≡ bit cpu.cpsr n
  pub saved : entered.spsr index ≡ cpu.cpsr
  pub linked : entered.regs 14 ≡ link
  pub vectored : entered.regs 15 ≡ vector
  pub flushed : entered.pipeline_valid ≡ false
  pub others :
      (m r : ℕ)
      → r < 13 ⊎ ((r ≡ 13) ⊎ ((r ≡ 14) × (sp_slot m ≢ sp_slot mode)))
      → mode_reg entered m r ≡ mode_reg cpu m r

entry_bit :
    (c n : ℕ)
    → n < 32
    → bit (bit_and (bit_or c (2 ^ 7)) (not32 (2 ^ 5))) n
      ≡ (if n == 5 then 0 else if n == 7 then 1 else bit c n)
entry_bit c n h = ground (
  arith,
  bit-put_bit 32 5 n (bit_or c (2 ^ 7)) false (omega arith) h,
  bit-put_bit 32 7 n c true (omega arith) h,
)

pub low_bits : (a b : ℕ) → ((n : ℕ) → n < 5 → bit a n ≡ bit b n) → a % 32 ≡ b % 32
low_bits a b same = omega (
  arith,
  same 0 (omega arith),
  same 1 (omega arith),
  same 2 (omega arith),
  same 3 (omega arith),
  same 4 (omega arith),
)

entry_mode : (c : ℕ) → bit_and (bit_or c (2 ^ 7)) (not32 (2 ^ 5)) % 32 ≡ c % 32
entry_mode c =
    low_bits (bit_and (bit_or c (2 ^ 7)) (not32 (2 ^ 5))) c
      λ n h. ground (arith, entry_bit c n (omega arith))

high_bit : (a b n : ℕ) → a / 32 ≡ b / 32 → 5 ≤ n → bit a n ≡ bit b n
high_bit a b n e h =
    ap (λ t. bit a t) {x = n} {y = n - 5 + 5} (omega arith)
    ∙ sym (bit-div_pow 5 (n - 5) a)
    ∙ ap (λ t. bit t (n - 5)) e
    ∙ bit-div_pow 5 (n - 5) b
    ∙ ap (λ t. bit b t) {x = n - 5 + 5} {y = n} (omega arith)

-- The registers besides the link and the PC, under the CPSR of the entry.
entry_regs :
    (s e : Cpu) (m mode r : ℕ)
    → s.cpsr % 32 ≡ mode
    → e.cpsr % 32 ≡ mode
    → e.banked ≡ s.banked
    → ((k : ℕ) → k < 14 → e.regs k ≡ s.regs k)
    → r < 13 ⊎ ((r ≡ 13) ⊎ ((r ≡ 14) × (sp_slot m ≢ sp_slot mode)))
    → mode_reg e m r ≡ mode_reg s m r
unfolding mode_reg mode_regs
entry_regs s e m mode r sm em banks same other = rw (sm, em, banks) (ground (arith, same r))

enter_lem :
    (cpu : Cpu) (mode index : ℕ) (back : ℕ → ℕ) (vector : ℕ)
    → cpu.cpsr < 2 ^ 32
    → mode < 32
    → Enters cpu (enter cpu mode index back vector) mode index (back (cpu.regs 15)) vector
unfolding enter cpu_flush_pipeline
enter_lem cpu mode index back vector h m = record {
  ranged =
      bit_and-lt 32 (bit_or s.cpsr (2 ^ 7)) (not32 (2 ^ 5))
        (bit_or-lt 32 s.cpsr (2 ^ 7) (omega (arith, promise 15 15 (omega arith))) (omega arith));
  moded = moded;
  masked = entry_bit s.cpsr 7 (omega arith);
  in_arm = entry_bit s.cpsr 5 (omega arith);
  kept = λ n above ne below.
      ground (arith, entry_bit s.cpsr n below)
      ∙ high_bit s.cpsr cpu.cpsr n (promise 15 15 (omega arith)).2 (omega arith);
  saved = ground arith;
  linked = ap back pc;
  vectored = refl;
  flushed = refl;
  others = λ a r other.
      entry_regs s (enter cpu mode index back vector) a mode r (promise 15 15 (omega arith)).1 moded
        refl (λ k p. ground arith) other
      ∙ (promise a r (ground arith)).0;
}
  where
    s : Cpu
    s = cpu_switch_mode cpu mode

    promise :
        (a r : ℕ)
        → r < 16
        → (mode_reg s a r ≡ mode_reg cpu a r) × (s.cpsr % 32 ≡ mode) × (s.cpsr / 32 ≡ cpu.cpsr / 32)
    promise a r p = cpu_switch_mode-mode_reg cpu mode a r h m p

    moded : bit_and (bit_or s.cpsr (2 ^ 7)) (not32 (2 ^ 5)) % 32 ≡ mode
    moded = entry_mode s.cpsr ∙ (promise 15 15 (omega arith)).1

    pc : s.regs 15 ≡ cpu.regs 15
    pc = unfold mode_reg mode_regs in (promise 0 15 (omega arith)).0

-- An IRQ in any mode and state, with a CPSR of 32 bits, enters the IRQ mode at vector 0x18 with the
-- PC as the link, the old CPSR in SPSR_irq, IRQs off and ARM state on; the other bits of the CPSR
-- above the mode, and every other register of every mode as that mode sees it, stay.
pub cpu_handle_irq-Enters :
    (cpu : Cpu)
    → cpu.cpsr < 2 ^ 32
    → Enters cpu (cpu_handle_irq cpu) cpu_mode_irq 3 (cpu.regs 15) 0x18
unfolding cpu_handle_irq
cpu_handle_irq-Enters cpu h = enter_lem cpu cpu_mode_irq 3 (λ pc. pc) 0x18 h (omega arith)

-- With a BIOS image and a CPSR of 32 bits, a SWI in any mode enters the supervisor mode at vector
-- 0x08 with the PC less 2 in Thumb state and less 4 in ARM state as the link, the old CPSR in
-- SPSR_svc, IRQs off and ARM state on; the other bits of the CPSR above the mode, and every other
-- register of every mode as that mode sees it, stay.
cpu_handle_swi-Enters :
    (bios_hle_execute : Cpu → ℕ → Cpu) (cpu : Cpu) (comment : ℕ)
    → cpu.cpsr < 2 ^ 32
    → cpu.has_bios ≡ true
    → Enters cpu
        (cpu_handle_swi bios_hle_execute cpu comment)
        cpu_mode_svc
        1
        (sub32 (cpu.regs 15) (if test_bit cpu.cpsr 5 then 2 else 4))
        0x8
unfolding cpu_handle_swi
cpu_handle_swi-Enters bios_hle_execute cpu comment h bios = simp bios (
    enter_lem cpu cpu_mode_svc 1 (λ pc. sub32 pc (if test_bit cpu.cpsr 5 then 2 else 4)) 0x8 h
      (omega arith))
