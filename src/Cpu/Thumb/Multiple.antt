-- ===== src/Cpu/Thumb/Multiple.antt =====
-- Formats 14 and 15 of src/cpu/thumb_instr.c: PUSH, POP, STMIA and LDMIA.
use gba_emulator.Base.{
  Bool, bit_and, bits, if◌then◌else◌, ltb, not, not32, sub32, suc, test_bit, u32, zero, ℕ, ◌%◌,
  ◌&&◌, ◌*◌, ◌+◌, ◌-◌, ◌==◌,
}
use gba_emulator.System.State.{Gba, set_cpu}
use gba_emulator.Cpu.State.{reg_lr, reg_pc, reg_sp, set_reg, cpu_flush_pipeline}
use gba_emulator.Cpu.Transfer.{put_reg}
use gba_emulator.Cpu.Block.{count_registers, listed_below}
use gba_emulator.Bus.Memory.{bus_read32, bus_write32}

-- What the loops change: the machine and the address.
pub record Walk : Type 0 where
  pub gba : Gba
  pub addr : ℕ

-- A round of the loop of POP and LDMIA
unfoldable pub load_listed : ℕ → Walk → ℕ → Walk
load_listed rlist w i =
    let (read, val) = bus_read32 w.gba w.addr in
    if test_bit rlist i then record { gba = put_reg read i val; addr = u32 (w.addr + 4) } else w

-- The rounds from register `i` on
unfoldable pub load_registers : ℕ → ℕ → ℕ → Walk → Walk
unfolding load_listed
load_registers zero i rlist w = w
load_registers (suc left) i rlist w = load_registers left (i + 1) rlist (load_listed rlist w i)

-- `cpu->regs[REG_PC] = bus_read32(cpu->bus, addr) & ~1u`, and the flush
unfoldable pub load_pc : Gba → ℕ → Gba
load_pc gba addr =
    let (read, val) = bus_read32 gba addr in
    set_cpu read (cpu_flush_pipeline (set_reg read.cpu reg_pc (bit_and val (not32 1))))

unfoldable pub pop : Gba → ℕ → Bool → Gba
unfolding load_registers load_pc
pop gba rlist r_bit =
    let w = load_registers 8 0 rlist record { gba = gba; addr = gba.cpu.regs reg_sp } in
    if r_bit
    then put_reg (load_pc w.gba w.addr) reg_sp (u32 (w.addr + 4))
    else put_reg w.gba reg_sp w.addr

unfoldable pub load_multiple : Gba → ℕ → ℕ → Gba
unfolding load_registers
load_multiple gba rb rlist =
    let w = load_registers 8 0 rlist record { gba = gba; addr = gba.cpu.regs rb } in
    if not (test_bit rlist rb) then put_reg w.gba rb w.addr else w.gba

abbrev pub store_cycles : ℕ → ℕ
store_cycles count = if ltb 0 count then count - 1 + 2 else 2

module _ (dma_write_control : Gba → ℕ → ℕ → Gba) where
  -- A round of the loop of PUSH and STMIA; `value` is what it stores of the registers.
  unfoldable pub store_listed : ℕ → ((ℕ → ℕ) → ℕ → ℕ) → Walk → ℕ → Walk
  store_listed rlist value w i =
      if test_bit rlist i
      then record {
        gba = bus_write32 dma_write_control w.gba w.addr (value w.gba.cpu.regs i);
        addr = u32 (w.addr + 4);
      }
      else w

  unfoldable pub store_registers : ℕ → ℕ → ℕ → ((ℕ → ℕ) → ℕ → ℕ) → Walk → Walk
  unfolding store_listed
  store_registers zero i rlist value w = w
  store_registers (suc left) i rlist value w =
      store_registers left (i + 1) rlist value (store_listed rlist value w i)

  unfoldable pub push : Gba → ℕ → Bool → ℕ → Gba
  unfolding store_registers
  push gba rlist r_bit count =
      let addr = sub32 (gba.cpu.regs reg_sp) (count * 4) in
      let w =
        store_registers 8 0 rlist (λ regs i. regs i)
          record { gba = put_reg gba reg_sp addr; addr = addr } in
      if r_bit then bus_write32 dma_write_control w.gba w.addr (w.gba.cpu.regs reg_lr) else w.gba

  unfoldable pub thumb_push_pop : Gba → ℕ → Gba × ℕ
  unfolding push pop
  thumb_push_pop gba instr =
      let r_bit = test_bit instr 8 in
      let rlist = instr % 256 in
      let count = count_registers 8 rlist + (if r_bit then 1 else 0) in
      if test_bit instr 11
      then (pop gba rlist r_bit, count + 1 + 1 + (if r_bit then 1 else 0))
      else (push gba rlist r_bit count, store_cycles count)

  unfoldable pub store_multiple : Gba → ℕ → ℕ → ℕ → Gba
  unfolding store_registers
  store_multiple gba rb rlist count =
      let addr = gba.cpu.regs rb in
      let new_base = u32 (addr + count * 4) in
      let rb_first = test_bit rlist rb && not (listed_below rb rlist) in
      let w =
        store_registers 8 0 rlist (λ regs i. if i == rb && not rb_first then new_base else regs i)
          record { gba = gba; addr = addr } in
      put_reg w.gba rb new_base

  -- "empty rlist on ARM7TDMI stores/loads R15 and advances address by 0x40"
  unfoldable pub empty_list : Gba → Bool → ℕ → Gba
  unfolding load_pc
  empty_list gba load rb =
      let addr = gba.cpu.regs rb in
      let moved =
        if load
        then load_pc gba addr
        else bus_write32 dma_write_control gba addr (u32 (gba.cpu.regs reg_pc + 2)) in
      put_reg moved rb (u32 (addr + 0x40))

  unfoldable pub thumb_multiple_load_store : Gba → ℕ → Gba × ℕ
  unfolding load_multiple store_multiple empty_list
  thumb_multiple_load_store gba instr =
      let load = test_bit instr 11 in
      let rb = bits instr 10 8 in
      let rlist = instr % 256 in
      let count = count_registers 8 rlist in
      if count == 0
      then (empty_list gba load rb, 3)
      else if load
      then (load_multiple gba rb rlist, count + 1 + 1)
      else (store_multiple gba rb rlist count, store_cycles count)
