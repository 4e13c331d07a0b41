-- ===== src/Cpu/Banks.antt =====
-- Each mode has its own registers: an abstract view of the register banks, which a mode switch
-- does not change.
use gba_emulator.Base.{
  arith, if◌then◌else◌, ltb, same, suc, zero, ℕ, ◌%◌, ◌+◌, ◌-◌, ◌<◌, ◌==◌, ◌||◌, ◌≡◌, ◌≤◌, ◌⊎◌,
}
use gba_emulator.Cpu.State.{
  Cpu, cpu_mode_fiq, cpu_mode_svc, cpu_mode_abt, cpu_mode_irq, cpu_mode_und,
}
use gba_emulator.Cpu.Mode.{save_outgoing, load_incoming}

-- The slot of a mode's R13; R14 has the next. Modes that share the two registers share the slot.
unfoldable pub sp_slot : ℕ → ℕ
sp_slot mode =
    if mode == cpu_mode_fiq
    then 5
    else if mode == cpu_mode_svc
    then 7
    else if mode == cpu_mode_abt
    then 9
    else if mode == cpu_mode_irq
    then 11
    else if mode == cpu_mode_und
    then 13
    else 20

-- What a mode has in R0 to R15, while the CPU is in mode `now`: R13 and R14 by the slot, R8 to R12
-- apart for FIQ only, the others shared by all.
unfoldable pub mode_regs : (ℕ → ℕ) → (ℕ → ℕ) → ℕ → ℕ → ℕ → ℕ
mode_regs regs banked now mode r =
    if ltb r 8 || r == 15
    then regs r
    else if ltb r 13
    then if same (mode == cpu_mode_fiq) (now == cpu_mode_fiq)
      then regs r
      else if mode == cpu_mode_fiq
      then banked (r - 8)
      else banked (15 + (r - 8))
    else if sp_slot mode == sp_slot now
    then regs r
    else banked (sp_slot mode + (r - 13))

-- The registers that a mode sees.
unfoldable pub mode_reg : Cpu → ℕ → ℕ → ℕ
mode_reg cpu mode r = mode_regs cpu.regs cpu.banked (cpu.cpsr % 32) mode r

save_outgoing_sp :
    (old mode k : ℕ) (cpu : Cpu)
    → k < 2
    → (save_outgoing old cpu).banked (sp_slot mode + k)
      ≡ (if sp_slot mode == sp_slot old then cpu.regs (13 + k) else cpu.banked (sp_slot mode + k))
unfolding save_outgoing sp_slot
save_outgoing_sp old mode zero cpu h = ground arith
save_outgoing_sp old mode (suc zero) cpu h = ground arith
save_outgoing_sp old mode (suc (suc k)) cpu h = absurd (omega arith)

-- R8 to R12 after the save: FIQ's are parked, and the others' are live if they were parked.
save_outgoing_high :
    (old k : ℕ) (cpu : Cpu)
    → k < 5
    → ((save_outgoing old cpu).regs (8 + k)
        ≡ (if old == cpu_mode_fiq then cpu.banked (15 + k) else cpu.regs (8 + k)))
      × ((save_outgoing old cpu).banked k
          ≡ (if old == cpu_mode_fiq then cpu.regs (8 + k) else cpu.banked k))
      × ((save_outgoing old cpu).banked (15 + k) ≡ cpu.banked (15 + k))
unfolding save_outgoing
save_outgoing_high old zero cpu h = ground arith
save_outgoing_high old (suc zero) cpu h = ground arith
save_outgoing_high old (suc (suc zero)) cpu h = ground arith
save_outgoing_high old (suc (suc (suc zero))) cpu h = ground arith
save_outgoing_high old (suc (suc (suc (suc zero)))) cpu h = ground arith
save_outgoing_high old (suc (suc (suc (suc (suc k))))) cpu h = absurd (omega arith)

save_outgoing_low :
    (old r : ℕ) (cpu : Cpu) → (r < 8) ⊎ (13 ≤ r) → (save_outgoing old cpu).regs r ≡ cpu.regs r
unfolding save_outgoing
save_outgoing_low old r cpu h = ground arith

load_incoming_sp :
    (new mode k : ℕ) (cpu : Cpu)
    → k < 2
    → ((load_incoming new cpu).regs (13 + k) ≡ cpu.banked (sp_slot new + k))
      × ((load_incoming new cpu).banked (sp_slot mode + k) ≡ cpu.banked (sp_slot mode + k))
unfolding load_incoming sp_slot
load_incoming_sp new mode zero cpu h = ground arith
load_incoming_sp new mode (suc zero) cpu h = ground arith
load_incoming_sp new mode (suc (suc k)) cpu h = absurd (omega arith)

load_incoming_high :
    (new k : ℕ) (cpu : Cpu)
    → k < 5
    → ((load_incoming new cpu).regs (8 + k)
        ≡ (if new == cpu_mode_fiq then cpu.banked k else cpu.regs (8 + k)))
      × ((load_incoming new cpu).banked k ≡ cpu.banked k)
      × ((load_incoming new cpu).banked (15 + k)
          ≡ (if new == cpu_mode_fiq then cpu.regs (8 + k) else cpu.banked (15 + k)))
unfolding load_incoming
load_incoming_high new zero cpu h = ground arith
load_incoming_high new (suc zero) cpu h = ground arith
load_incoming_high new (suc (suc zero)) cpu h = ground arith
load_incoming_high new (suc (suc (suc zero))) cpu h = ground arith
load_incoming_high new (suc (suc (suc (suc zero)))) cpu h = ground arith
load_incoming_high new (suc (suc (suc (suc (suc k))))) cpu h = absurd (omega arith)

load_incoming_low :
    (new r : ℕ) (cpu : Cpu) → (r < 8) ⊎ (r ≡ 15) → (load_incoming new cpu).regs r ≡ cpu.regs r
unfolding load_incoming
load_incoming_low new r cpu h = ground arith

-- The three ranges of registers, across the save and the load.
unfoldable pub switched : ℕ → ℕ → Cpu → Cpu
switched old new cpu = load_incoming new (save_outgoing old cpu)

pub switched_low :
    (old new mode r : ℕ) (cpu : Cpu)
    → (r < 8) ⊎ (r ≡ 15)
    → mode_regs (switched old new cpu).regs (switched old new cpu).banked new mode r
      ≡ mode_regs cpu.regs cpu.banked old mode r
unfolding mode_regs switched
switched_low old new mode r cpu h =
    ground (arith, load_incoming_low new r (save_outgoing old cpu) h, save_outgoing_low old r cpu)

pub switched_high :
    (old new mode k : ℕ) (cpu : Cpu)
    → k < 5
    → mode_regs (switched old new cpu).regs (switched old new cpu).banked new mode (8 + k)
      ≡ mode_regs cpu.regs cpu.banked old mode (8 + k)
unfolding mode_regs switched
switched_high old new mode k cpu h =
    let back : 8 + k - 8 ≡ k = omega arith in
    rw back (
      ground
        (arith, load_incoming_high new k (save_outgoing old cpu) h, save_outgoing_high old k cpu h))

pub switched_sp :
    (old new mode k : ℕ) (cpu : Cpu)
    → k < 2
    → mode_regs (switched old new cpu).regs (switched old new cpu).banked new mode (13 + k)
      ≡ mode_regs cpu.regs cpu.banked old mode (13 + k)
unfolding mode_regs switched
switched_sp old new mode k cpu h =
    let back : 13 + k - 13 ≡ k = omega arith in
    rw back (
      ground (
        arith,
        load_incoming_sp new mode k (save_outgoing old cpu) h,
        save_outgoing_sp old mode k cpu h,
        save_outgoing_sp old new k cpu h,
      ))
