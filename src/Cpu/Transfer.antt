-- ===== src/Cpu/Transfer.antt =====
-- `arm_single_transfer`, `arm_halfword_transfer` and `arm_swap` of src/cpu/arm_instr.c: the machine
-- after the instruction, and the cycles. `dma_write_control` is what a write to the bus may call.
pub mod Word
mod Tests
use gba_emulator.Base.{
  Bool, bit_and, bit_or, bits, false, sign16, sign8, if◌then◌else◌, not, not32, sub32, test_bit,
  u16, u32, u8, ℕ, ◌%◌, ◌*◌, ◌+◌, ◌-◌, ◌/◌, ◌==◌, ◌^◌,
}
use gba_emulator.System.State.{Gba, set_cpu}
use gba_emulator.Cpu.State.{Cpu, cpsr_c, reg_pc, set_reg, cpu_flush_pipeline}
use gba_emulator.Cpu.Shifter.{barrel_shift}
use gba_emulator.Bus.Memory.{
  bus_read8, bus_read16, bus_read32, bus_write8, bus_write16, bus_write32,
}

-- `cpu->regs[r] = v`
abbrev pub put_reg : Gba → ℕ → ℕ → Gba
put_reg gba r v = set_cpu gba (set_reg gba.cpu r v)

-- `up ? base + offset : base - offset`
unfoldable pub offset_address : Bool → ℕ → ℕ → ℕ
offset_address up base offset = if up then u32 (base + offset) else sub32 base offset

-- A word read at an address that is not a multiple of 4 is rotated.
unfoldable pub rotate_word : ℕ → ℕ → ℕ
rotate_word word addr =
    let rot = addr % 4 * 8 in
    if rot == 0 then word else bit_or (word / 2 ^ rot) (u32 (word * 2 ^ (32 - rot)))

-- `regs[rd] = val`, and the flush where Rd is R15
unfoldable pub load_reg : Gba → ℕ → ℕ → Gba
load_reg gba rd val =
    let written = put_reg gba rd val in
    if rd == reg_pc
    then set_cpu gba (
        cpu_flush_pipeline
          (set_reg written.cpu reg_pc (bit_and (written.cpu.regs reg_pc) (not32 3))))
    else written

abbrev pub load_cycles : ℕ → ℕ
load_cycles rd = if rd == reg_pc then 3 + 2 else 3

-- "STR with Rd = R15"
unfoldable pub stored_value : Cpu → ℕ → ℕ
stored_value cpu rd = if rd == reg_pc then u32 (cpu.regs reg_pc + 4) else cpu.regs rd

-- The effective address
unfoldable pub effective_address : ℕ → ℕ → ℕ → ℕ
unfolding offset_address
effective_address instr base offset =
    if test_bit instr 24 then offset_address (test_bit instr 23) base offset else base

-- The writeback: always after a post-indexed transfer, and by the W bit after a pre-indexed one
unfoldable pub write_back : Gba → ℕ → ℕ → ℕ → Gba
unfolding offset_address effective_address
write_back gba instr base offset =
    let rn = bits instr 19 16 in
    if not (test_bit instr 24)
    then put_reg gba rn (offset_address (test_bit instr 23) base offset)
    else if test_bit instr 21
    then put_reg gba rn (effective_address instr base offset)
    else gba

unfoldable pub single_offset : Cpu → ℕ → ℕ
single_offset cpu instr =
    let (shifted, carry) =
      barrel_shift (cpu.regs (instr % 16)) (bits instr 6 5) (bits instr 11 7)
        (test_bit cpu.cpsr cpsr_c) false in
    if test_bit instr 25 then shifted else instr % 2 ^ 12

-- The address rounded down to a word, and to a halfword
abbrev pub word_aligned : ℕ → ℕ
word_aligned addr = addr / 4 * 4

abbrev pub half_aligned : ℕ → ℕ
half_aligned addr = addr / 2 * 2

unfoldable pub load_single : Gba → Bool → ℕ → Gba × ℕ
unfolding rotate_word
load_single gba byte addr =
    let (read, word) = bus_read32 gba (word_aligned addr) in
    if byte then bus_read8 gba addr else (read, rotate_word word addr)

-- LDRH, LDRSB and LDRSH
unfoldable pub load_half : Gba → ℕ → ℕ → Gba × ℕ
unfolding sign8 sign16
load_half gba sh addr =
    let odd = addr % 2 == 1 in
    let (read_low, low) = bus_read16 gba (half_aligned addr) in
    let (read16, half) = bus_read16 gba addr in
    let (read8, byte) = bus_read8 gba addr in
    if sh == 1
    then if odd then (read_low, bit_or (low / 2 ^ 8) (u32 (low * 2 ^ 24))) else (read16, half)
    else if sh == 2
    then (read8, sign8 byte)
    else if odd
    then (read8, sign8 byte)
    else (read16, sign16 half)

unfoldable pub half_offset : Cpu → ℕ → ℕ
half_offset cpu instr =
    if test_bit instr 22
    then bit_or (bits instr 11 8 * 2 ^ 4) (instr % 16)
    else cpu.regs (instr % 16)

module _ (dma_write_control : Gba → ℕ → ℕ → Gba) where
  unfoldable pub arm_single_transfer : Gba → ℕ → Gba × ℕ
  unfolding single_offset effective_address load_single load_reg stored_value write_back
  arm_single_transfer gba instr =
      let byte = test_bit instr 22 in
      let rd = bits instr 15 12 in
      let base = gba.cpu.regs (bits instr 19 16) in
      let offset = single_offset gba.cpu instr in
      let addr = effective_address instr base offset in
      let (read, word) = load_single gba byte addr in
      let val = stored_value gba.cpu rd in
      let stored =
        if byte
        then bus_write8 dma_write_control gba addr (u8 val)
        else bus_write32 dma_write_control gba (word_aligned addr) val in
      if test_bit instr 20
      then (write_back (load_reg read rd word) instr base offset, load_cycles rd)
      else (write_back stored instr base offset, 2)

  -- With SH = 0, which `arm_execute` does not send here, nothing is read; the register write and
  -- the flush still follow for R15.
  unfoldable pub arm_halfword_transfer : Gba → ℕ → Gba × ℕ
  unfolding half_offset effective_address load_half load_reg stored_value write_back
  arm_halfword_transfer gba instr =
      let rd = bits instr 15 12 in
      let sh = bits instr 6 5 in
      let base = gba.cpu.regs (bits instr 19 16) in
      let offset = half_offset gba.cpu instr in
      let addr = effective_address instr base offset in
      let (read, half) = load_half gba sh addr in
      let loaded = if sh == 0 then load_reg gba rd (gba.cpu.regs rd) else load_reg read rd half in
      let val = u16 (stored_value gba.cpu rd) in
      let stored = bus_write16 dma_write_control gba (half_aligned addr) val in
      if test_bit instr 20
      then (write_back loaded instr base offset, load_cycles rd)
      else (write_back stored instr base offset, 2)

  unfoldable pub arm_swap : Gba → ℕ → Gba × ℕ
  unfolding rotate_word
  arm_swap gba instr =
      let addr = gba.cpu.regs (bits instr 19 16) in
      let rd = bits instr 15 12 in
      let rm = instr % 16 in
      let (read8, temp) = bus_read8 gba addr in
      let (read32, word) = bus_read32 gba (word_aligned addr) in
      let stored8 = bus_write8 dma_write_control read8 addr (u8 (read8.cpu.regs rm)) in
      let stored32 =
        bus_write32 dma_write_control read32 (word_aligned addr) (read32.cpu.regs rm) in
      if test_bit instr 22
      then (put_reg stored8 rd temp, 4)
      else (put_reg stored32 rd (rotate_word word addr), 4)
