-- ===== src/Cpu/Bios/BitUnpack.antt =====
-- BitUnPack of src/cpu/bios_hle.c.
use gba_emulator.Base.{
  Bool, bit_or, if◌then◌else◌, leb, ltb, not, suc, test_bit, u32, u8, zero, ℕ, ◌%◌, ◌*◌, ◌+◌, ◌/◌,
  ◌==◌, ◌^◌, ◌||◌,
}
use gba_emulator.System.State.{Gba}
use gba_emulator.Bus.Memory.{bus_read8, bus_read16, bus_read32, bus_write32}

-- The variables of the loop of BitUnPack
pub record Packed : Type 0 where
  pub gba : Gba
  pub dst : ℕ
  pub out_word : ℕ
  pub out_bits : ℕ

-- What BitUnPack reads of its info block
pub record Widths : Type 0 where
  pub src_width : ℕ
  pub dest_width : ℕ
  pub add_to_zero : Bool
  pub offset : ℕ

-- One unit of a source byte, widened
unfoldable pub widened : Widths → ℕ → ℕ
widened w unit =
    let val = if not (unit == 0) || w.add_to_zero then u32 (unit + w.offset) else unit in
    if ltb w.dest_width 32 then val % 2 ^ w.dest_width else val

module _ (dma_write_control : Gba → ℕ → ℕ → Gba) where
  unfoldable pub unpack_unit : Widths → Packed → ℕ → Packed
  unfolding widened
  unpack_unit w s unit =
      let word = bit_or s.out_word (u32 (widened w unit * 2 ^ s.out_bits)) in
      let out_bits = s.out_bits + w.dest_width in
      if leb 32 out_bits
      then record {
        gba = bus_write32 dma_write_control s.gba s.dst word;
        dst = u32 (s.dst + 4);
        out_word = 0;
        out_bits = 0;
      }
      else record s { out_word = word; out_bits = out_bits }

  -- The loop on `bit_pos`, which takes at most 8 rounds; the source shifts by the width, which is
  -- taken to be below 32.
  unfoldable pub unpack_byte : ℕ → Widths → ℕ → ℕ → Packed → Packed
  unfolding unpack_unit
  unpack_byte zero w byte bit_pos s = s
  unpack_byte (suc fuel) w byte bit_pos s =
      let unit = byte / 2 ^ bit_pos % 2 ^ w.src_width in
      let rest = unpack_byte fuel w byte (u8 (bit_pos + w.src_width)) (unpack_unit w s unit) in
      if ltb bit_pos 8 then rest else s

  unfoldable pub unpack_bytes : ℕ → Widths → ℕ → Packed → Packed
  unfolding unpack_byte
  unpack_bytes zero w addr s = s
  unpack_bytes (suc left) w addr s =
      let (read, byte) = bus_read8 s.gba addr in
      unpack_bytes left w (u32 (addr + 1)) (unpack_byte 8 w byte 0 (record s { gba = read }))

  unfoldable pub flush_bits : Packed → Gba
  flush_bits s =
      if ltb 0 s.out_bits then bus_write32 dma_write_control s.gba s.dst s.out_word else s.gba

  unfoldable pub swi_bit_unpack : Gba → Gba
  unfolding unpack_bytes flush_bits
  swi_bit_unpack gba =
      let info_ptr = gba.cpu.regs 2 in
      let (g1, src_len) = bus_read16 gba info_ptr in
      let (g2, src_width) = bus_read8 g1 (u32 (info_ptr + 2)) in
      let (g3, dest_width) = bus_read8 g2 (u32 (info_ptr + 3)) in
      let (g4, offset_raw) = bus_read32 g3 (u32 (info_ptr + 4)) in
      let w : Widths = record {
        src_width = src_width;
        dest_width = dest_width;
        add_to_zero = test_bit offset_raw 31;
        offset = offset_raw % 2 ^ 31;
      } in
      let start : Packed = record { gba = g4; dst = gba.cpu.regs 1; out_word = 0; out_bits = 0 } in
      if src_width == 0 || dest_width == 0
      then g4
      else flush_bits (unpack_bytes src_len w (gba.cpu.regs 0) start)
