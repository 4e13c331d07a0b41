-- ===== src/Cpu/Thumb/Memory.antt =====
-- Formats 6 to 11 of src/cpu/thumb_instr.c, which load and store one register: the machine after the
-- instruction, and the cycles.
use gba_emulator.Base.{
  Bool, bit_and, bits, false, if◌then◌else◌, not, not32, test_bit, u16, u32, u8, ℕ, ◌%◌, ◌&&◌, ◌*◌,
  ◌+◌, ◌^◌,
}
use gba_emulator.System.State.{Gba}
use gba_emulator.Cpu.State.{reg_pc, reg_sp}
use gba_emulator.Cpu.Transfer.{put_reg, half_aligned, word_aligned, load_half, load_single}
use gba_emulator.Bus.Memory.{bus_read32, bus_write8, bus_write16, bus_write32}

unfoldable pub thumb_pc_relative_load : Gba → ℕ → Gba × ℕ
thumb_pc_relative_load gba instr =
    let addr = u32 (bit_and (gba.cpu.regs reg_pc) (not32 2) + instr % 256 * 2 ^ 2) in
    let (read, word) = bus_read32 gba addr in (put_reg read (bits instr 10 8) word, 3)

-- "Word load with rotation for unaligned addresses", and the load of a byte
unfoldable pub load_to : Gba → Bool → ℕ → ℕ → Gba × ℕ
load_to gba byte addr rd = let (read, val) = load_single gba byte addr in (put_reg read rd val, 3)

-- LDRH, LDSB and LDSH by the two bits of format 8
unfoldable pub load_half_to : Gba → ℕ → ℕ → ℕ → Gba × ℕ
load_half_to gba sh addr rd = let (read, val) = load_half gba sh addr in (put_reg read rd val, 3)

module _ (dma_write_control : Gba → ℕ → ℕ → Gba) where
  unfoldable pub store_from : Gba → Bool → ℕ → ℕ → Gba × ℕ
  store_from gba byte addr rd =
      let val = gba.cpu.regs rd in
      if byte
      then (bus_write8 dma_write_control gba addr (u8 val), 2)
      else (bus_write32 dma_write_control gba (word_aligned addr) val, 2)

  unfoldable pub store_half_from : Gba → ℕ → ℕ → Gba × ℕ
  store_half_from gba addr rd =
      (bus_write16 dma_write_control gba (half_aligned addr) (u16 (gba.cpu.regs rd)), 2)

  unfoldable pub thumb_load_store_reg : Gba → ℕ → Gba × ℕ
  unfolding load_to store_from
  thumb_load_store_reg gba instr =
      let byte = test_bit instr 10 in
      let rd = bits instr 2 0 in
      let addr = u32 (gba.cpu.regs (bits instr 5 3) + gba.cpu.regs (bits instr 8 6)) in
      if test_bit instr 11 then load_to gba byte addr rd else store_from gba byte addr rd

  unfoldable pub thumb_load_store_sign_ext : Gba → ℕ → Gba × ℕ
  unfolding load_half_to store_half_from
  thumb_load_store_sign_ext gba instr =
      let h_bit = test_bit instr 11 in
      let s_bit = test_bit instr 10 in
      let rd = bits instr 2 0 in
      let addr = u32 (gba.cpu.regs (bits instr 5 3) + gba.cpu.regs (bits instr 8 6)) in
      if not s_bit && not h_bit
      then store_half_from gba addr rd
      else if not s_bit && h_bit
      then load_half_to gba 1 addr rd
      else if s_bit && not h_bit
      then load_half_to gba 2 addr rd
      else load_half_to gba 3 addr rd

  unfoldable pub thumb_load_store_imm : Gba → ℕ → Gba × ℕ
  unfolding load_to store_from
  thumb_load_store_imm gba instr =
      let byte = test_bit instr 12 in
      let offset5 = bits instr 10 6 in
      let rd = bits instr 2 0 in
      let offset = if byte then offset5 else offset5 * 2 ^ 2 in
      let addr = u32 (gba.cpu.regs (bits instr 5 3) + offset) in
      if test_bit instr 11 then load_to gba byte addr rd else store_from gba byte addr rd

  unfoldable pub thumb_load_store_halfword : Gba → ℕ → Gba × ℕ
  unfolding load_half_to store_half_from
  thumb_load_store_halfword gba instr =
      let rd = bits instr 2 0 in
      let addr = u32 (gba.cpu.regs (bits instr 5 3) + bits instr 10 6 * 2) in
      if test_bit instr 11 then load_half_to gba 1 addr rd else store_half_from gba addr rd

  unfoldable pub thumb_sp_relative_load_store : Gba → ℕ → Gba × ℕ
  unfolding load_to store_from
  thumb_sp_relative_load_store gba instr =
      let rd = bits instr 10 8 in
      let addr = u32 (gba.cpu.regs reg_sp + instr % 256 * 2 ^ 2) in
      if test_bit instr 11 then load_to gba false addr rd else store_from gba false addr rd
