-- ===== src/Cpu/Block.antt =====
-- `arm_block_transfer` of src/cpu/arm_instr.c.
pub mod Rounds
use gba_emulator.Base.{
  Bool, bit, bit_and, bits, false, if◌then◌else◌, not, not32, sub32, suc, test_bit, true, u32, zero,
  ℕ, ◌%◌, ◌&&◌, ◌*◌, ◌+◌, ◌==◌, ◌^◌, ◌||◌,
}
use gba_emulator.System.State.{Gba, set_cpu}
use gba_emulator.Cpu.State.{
  Cpu, cpu_mode_usr, cpu_mode_sys, reg_pc, set_reg, cpu_get_mode, cpu_flush_pipeline,
}
use gba_emulator.Cpu.Mode.{cpu_switch_mode}
use gba_emulator.Cpu.DataProcessing.{restore_cpsr}
use gba_emulator.Cpu.Transfer.{put_reg, word_aligned}
use gba_emulator.Bus.Memory.{bus_read32, bus_write32}

-- "Count registers in the list": the registers below `n`
unfoldable pub count_registers : ℕ → ℕ → ℕ
count_registers zero rlist = 0
count_registers (suc n) rlist = count_registers n rlist + bit rlist n

-- Whether a register below `n` is in the list
unfoldable pub listed_below : ℕ → ℕ → Bool
listed_below zero rlist = false
listed_below (suc n) rlist = listed_below n rlist || test_bit rlist n

-- The local variables of the function that its loop reads.
pub record Block : Type 0 where
  pub load : Bool
  pub writeback : Bool
  pub s_bit : Bool
  pub rn : ℕ
  pub rlist : ℕ
  pub start : ℕ
  pub new_base : ℕ
  pub user_mode_transfer : Bool
  pub rn_first : Bool

unfoldable pub decode_block : Cpu → ℕ → Block
unfolding count_registers listed_below
decode_block cpu instr =
    let pre = test_bit instr 24 in
    let up = test_bit instr 23 in
    let load = test_bit instr 20 in
    let rn = bits instr 19 16 in
    let base = cpu.regs rn in
    let listed = count_registers 16 (instr % 2 ^ 16) in
    let rlist = if listed == 0 then 0x8000 else instr % 2 ^ 16 in
    let count = if listed == 0 then 16 else listed in
    let lowest = sub32 base (count * 4) in
    record {
      load = load;
      writeback = test_bit instr 21;
      s_bit = test_bit instr 22;
      rn = rn;
      rlist = rlist;
      start =
          if up
          then if pre then u32 (base + 4) else base
          else if pre
          then lowest
          else u32 (lowest + 4);
      new_base = if up then u32 (base + count * 4) else lowest;
      user_mode_transfer = test_bit instr 22 && not (load && test_bit rlist 15);
      rn_first = test_bit rlist rn && not (listed_below rn rlist);
    }

-- What the loop changes.
pub record Progress : Type 0 where
  pub gba : Gba
  pub addr : ℕ
  pub first_transfer : Bool
  pub pc_loaded : Bool
  pub cycles : ℕ

unfoldable pub load_one : Progress → ℕ → Progress
load_one p i =
    let (read, val) = bus_read32 p.gba (word_aligned p.addr) in
    record p {
      gba = if i == reg_pc then put_reg read reg_pc (bit_and val (not32 3)) else put_reg read i val;
      pc_loaded = if i == reg_pc then true else p.pc_loaded;
    }

unfoldable pub block_value : Block → Cpu → ℕ → ℕ
block_value block cpu i =
    if i == reg_pc
    then u32 (cpu.regs reg_pc + 4)
    else if i == block.rn && (not block.rn_first && block.writeback)
    then block.new_base
    else cpu.regs i

module _ (dma_write_control : Gba → ℕ → ℕ → Gba) where
  unfoldable pub store_one : Block → Progress → ℕ → Progress
  unfolding block_value
  store_one block p i = record p {
    gba = bus_write32 dma_write_control p.gba (word_aligned p.addr) (block_value block p.gba.cpu i);
  }

  -- One round of the loop
  unfoldable pub block_step : Block → Progress → ℕ → Progress
  unfolding load_one store_one
  block_step block p i =
      let moved = if block.load then load_one p i else store_one block p i in
      let next : Progress = record moved {
        addr = u32 (p.addr + 4);
        first_transfer = false;
        cycles = p.cycles + (if p.first_transfer then 2 else 1);
      } in
      if not (test_bit block.rlist i) then p else next

  -- The rounds from register `i` on
  unfoldable pub block_loop : ℕ → ℕ → Block → Progress → Progress
  unfolding block_step
  block_loop zero i block p = p
  block_loop (suc left) i block p = block_loop left (i + 1) block (block_step block p i)

  unfoldable pub arm_block_transfer : Gba → ℕ → Gba × ℕ
  unfolding decode_block block_loop
  arm_block_transfer gba instr =
      let block = decode_block gba.cpu instr in
      let old_mode = cpu_get_mode gba.cpu in
      let swaps =
        block.user_mode_transfer
        && (not (old_mode == cpu_mode_usr) && not (old_mode == cpu_mode_sys)) in
      let started = if swaps then set_cpu gba (cpu_switch_mode gba.cpu cpu_mode_usr) else gba in
      let done = block_loop 16 0 block record {
        gba = started;
        addr = block.start;
        first_transfer = true;
        pc_loaded = false;
        cycles = 0;
      } in
      let cpu = done.gba.cpu in
      let back = if swaps then cpu_switch_mode cpu old_mode else cpu in
      let based =
        if block.writeback && not (block.load && test_bit block.rlist block.rn)
        then set_reg back block.rn block.new_base
        else back in
      let restored =
        if block.load && (done.pc_loaded && block.s_bit) then restore_cpsr based else based in
      let flushed = if done.pc_loaded then cpu_flush_pipeline restored else restored in
      (set_cpu done.gba flushed, done.cycles)
