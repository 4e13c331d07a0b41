-- ===== src/Cpu/Block/Rounds.antt =====
-- The loop of `arm_block_transfer`: it transfers a register at least, and leaves the count of
-- executed cycles.
use gba_emulator.Base.{
  Bool, arith, bit, either_branch, false, if◌then◌else◌, not, refl, suc, test_bit, true, u32, zero,
  ℕ, ◌%◌, ◌&&◌, ◌+◌, ◌<◌, ◌==◌, ◌^◌, ◌∙◌, ◌≡◌, ◌≢◌, ◌≤◌,
}
use native.Mathlib.Decide.{ℕ_discrete}
use gba_emulator.System.State.{Gba, set_cpu}
use gba_emulator.Cpu.State.{
  Cpu, set_reg, cpu_mode_usr, cpu_mode_sys, cpu_get_mode, cpu_get_spsr, cpu_flush_pipeline,
}
use gba_emulator.Cpu.Mode.{cpu_switch_mode}
use gba_emulator.Cpu.DataProcessing.{restore_cpsr}
use gba_emulator.Cpu.Transfer.{word_aligned}
use gba_emulator.Cpu.Run.Steady.{switch_mode_cycles, restore_at_cycles}
use gba_emulator.Cpu.Block.{
  count_registers, Block, decode_block, Progress, load_one, block_value, store_one, block_step,
  block_loop, arm_block_transfer,
}
use gba_emulator.Bus.Steady.{executed, KeepsCount, read32-cpu, write32_executed}

-- A list that is not empty has a register.
some_register :
    (n rlist : ℕ) → count_registers n rlist ≢ 0 → (k : ℕ) × (k < n) × (test_bit rlist k ≡ true)
unfolding count_registers
some_register zero rlist ne = absurd (ne refl)
some_register (suc n) rlist ne = elim (ℕ_discrete (bit rlist n) 1) [
  | yes e ↦ (n, omega arith, ground arith)
  | no ne1 ↦ let (k, below, one) = some_register n rlist (omega arith) in (k, omega arith, one)
]

pub listed :
    (cpu : Cpu) (instr : ℕ)
    → (k : ℕ) × (k < 16) × (test_bit (decode_block cpu instr).rlist k ≡ true)
unfolding decode_block
listed cpu instr = elim (ℕ_discrete (count_registers 16 (instr % 2 ^ 16)) 0) [
  | yes e ↦
      let t : (count_registers 16 (instr % 2 ^ 16) == 0) ≡ true = ground arith in
      (15, omega arith, rw t refl)
  | no ne ↦
      let t : (count_registers 16 (instr % 2 ^ 16) == 0) ≡ false = ground arith in
      let (k, below, one) = some_register 16 (instr % 2 ^ 16) ne in (k, below, rw t one)
]

-- What follows the loop leaves the count.
switch_back :
    (swaps : Bool) (cpu : Cpu) (mode : ℕ)
    → (if swaps then cpu_switch_mode cpu mode else cpu).cycles_executed ≡ cpu.cycles_executed
switch_back true cpu mode = switch_mode_cycles cpu mode
switch_back false cpu mode = refl

base_back :
    (writes : Bool) (cpu : Cpu) (rn v : ℕ)
    → (if writes then set_reg cpu rn v else cpu).cycles_executed ≡ cpu.cycles_executed
base_back true cpu rn v = refl
base_back false cpu rn v = refl

status_back :
    (restores : Bool) (cpu : Cpu)
    → (if restores then restore_cpsr cpu else cpu).cycles_executed ≡ cpu.cycles_executed
unfolding restore_cpsr
status_back true cpu = restore_at_cycles (cpu_get_spsr cpu) cpu
status_back false cpu = refl

flush_back :
    (loaded : Bool) (cpu : Cpu)
    → (if loaded then cpu_flush_pipeline cpu else cpu).cycles_executed ≡ cpu.cycles_executed
unfolding cpu_flush_pipeline
flush_back true cpu = refl
flush_back false cpu = refl

unfoldable pub counted : Progress → ℕ
counted p = executed p.gba

module _ (ctl : Gba → ℕ → ℕ → Gba) (keeps : KeepsCount ctl) (block : Block) where
  load_counted : (p : Progress) (i : ℕ) → counted (load_one p i) ≡ counted p
  unfolding load_one counted executed
  load_counted p i = ground (arith, read32-cpu p.gba (word_aligned p.addr))

  store_counted : (p : Progress) (i : ℕ) → counted (store_one ctl block p i) ≡ counted p
  unfolding store_one counted
  store_counted p i =
      write32_executed ctl keeps p.gba (word_aligned p.addr) (block_value block p.gba.cpu i)

  step_counted : (p : Progress) (i : ℕ) → counted (block_step ctl block p i) ≡ counted p
  unfolding block_step
  step_counted p i =
      let moved = if block.load then load_one p i else store_one ctl block p i in
      let next : Progress = record moved {
        addr = u32 (p.addr + 4);
        first_transfer = false;
        cycles = p.cycles + (if p.first_transfer then 2 else 1);
      } in
      let same : counted next ≡ counted moved = unfold counted in refl in
      either_branch counted (not (test_bit block.rlist i)) {x = p} {y = next} refl (
        same
        ∙ either_branch counted block.load {x = load_one p i} {y = store_one ctl block p i}
            (load_counted p i) (store_counted p i))

  step_cycles :
      (p : Progress) (i : ℕ)
      → (p.cycles ≤ (block_step ctl block p i).cycles)
        × (test_bit block.rlist i ≡ true → 1 ≤ (block_step ctl block p i).cycles)
  unfolding block_step
  step_cycles p i = (ground arith, λ on. ground (arith, on))

  pub loop_counted :
      (left i : ℕ) (p : Progress) → counted (block_loop ctl left i block p) ≡ counted p
  unfolding block_loop
  loop_counted zero i p = refl
  loop_counted (suc left) i p =
      loop_counted left (i + 1) (block_step ctl block p i) ∙ step_counted p i

  loop_grows : (left i : ℕ) (p : Progress) → p.cycles ≤ (block_loop ctl left i block p).cycles
  unfolding block_loop
  loop_grows zero i p = omega arith
  loop_grows (suc left) i p =
      omega (arith, (step_cycles p i).0, loop_grows left (i + 1) (block_step ctl block p i))

  pub loop_cycles :
      (left i k : ℕ) (p : Progress)
      → i ≤ k
      → k < i + left
      → test_bit block.rlist k ≡ true
      → 1 ≤ (block_loop ctl left i block p).cycles
  unfolding block_loop
  loop_cycles zero i k p low high on = absurd (omega arith)
  loop_cycles (suc left) i k p low high on = elim (ℕ_discrete i k) [
    | yes e ↦
        let here : test_bit block.rlist i ≡ true = rw e on in
        omega (arith, (step_cycles p i).1 here, loop_grows left (i + 1) (block_step ctl block p i))
    | no ne ↦ loop_cycles left (i + 1) k (block_step ctl block p i) (omega arith) (omega arith) on
  ]

module _ (ctl : Gba → ℕ → ℕ → Gba) (keeps : KeepsCount ctl) where
  pub block_transfer_lem :
      (gba : Gba) (instr : ℕ)
      → (executed (arm_block_transfer ctl gba instr).0 ≡ executed gba)
        × (1 ≤ (arm_block_transfer ctl gba instr).1)
  unfolding arm_block_transfer
  block_transfer_lem gba instr =
      let block = decode_block gba.cpu instr in
      let old_mode = cpu_get_mode gba.cpu in
      let swaps =
        block.user_mode_transfer
        && (not (old_mode == cpu_mode_usr) && not (old_mode == cpu_mode_sys)) in
      let started = if swaps then set_cpu gba (cpu_switch_mode gba.cpu cpu_mode_usr) else gba in
      let first : Progress = record {
        gba = started;
        addr = block.start;
        first_transfer = true;
        pc_loaded = false;
        cycles = 0;
      } in
      let done = block_loop ctl 16 0 block first in
      let cpu = done.gba.cpu in
      let back = if swaps then cpu_switch_mode cpu old_mode else cpu in
      let writes = block.writeback && not (block.load && test_bit block.rlist block.rn) in
      let based = if writes then set_reg back block.rn block.new_base else back in
      let restores = block.load && (done.pc_loaded && block.s_bit) in
      let restored = if restores then restore_cpsr based else based in
      let (k, below, on) = listed gba.cpu instr in
      let start : executed started ≡ executed gba =
        either_branch executed swaps {x = set_cpu gba (cpu_switch_mode gba.cpu cpu_mode_usr)}
          {y = gba} (unfold executed in switch_mode_cycles gba.cpu cpu_mode_usr) refl in
      let looped : executed done.gba ≡ executed started =
        unfold counted in loop_counted ctl keeps block 16 0 first in
      let ended : (if done.pc_loaded then cpu_flush_pipeline restored else restored).cycles_executed
          ≡ cpu.cycles_executed =
        flush_back done.pc_loaded restored
        ∙ status_back restores based
        ∙ base_back writes back block.rn block.new_base
        ∙ switch_back swaps cpu old_mode in
      let whole : executed (arm_block_transfer ctl gba instr).0 ≡ executed done.gba =
        unfold executed in ended in
      (
        whole ∙ looped ∙ start,
        loop_cycles ctl keeps block 16 0 k first (omega arith) (omega arith) on,
      )
