-- ===== src/Cpu/Run/Bios/BitUnpacks.antt =====
-- BitUnPack leaves the count of executed cycles.
use gba_emulator.Base.{
  either_branch, either_case, leb, ltb, refl, suc, test_bit, u32, u8, zero, ℕ, ◌%◌, ◌+◌, ◌/◌, ◌==◌,
  ◌^◌, ◌||◌, ◌∙◌, ◌≡◌,
}
use gba_emulator.System.State.{Gba}
use gba_emulator.Cpu.Bios.BitUnpack.{
  Packed, Widths, unpack_unit, unpack_byte, unpack_bytes, flush_bits, swi_bit_unpack,
}
use gba_emulator.Bus.Memory.{bus_read8, bus_read16, bus_read32}
use gba_emulator.Bus.Steady.{
  executed, KeepsCount, read8_executed, read16_executed, read32_executed, write32_executed,
}

module _ (ctl : Gba → ℕ → ℕ → Gba) (keeps : KeepsCount ctl) where
  executed-unpack_unit :
      (w : Widths) (s : Packed) (unit : ℕ)
      → executed (unpack_unit ctl w s unit).gba ≡ executed s.gba
  unfolding unpack_unit
  executed-unpack_unit w s unit =
      either_case (λ (x : Packed). executed x.gba ≡ executed s.gba)
        (leb 32 (s.out_bits + w.dest_width)) (write32_executed ctl keeps s.gba s.dst _) refl

  executed-unpack_byte :
      (fuel : ℕ) (w : Widths) (byte bit_pos : ℕ) (s : Packed)
      → executed (unpack_byte ctl fuel w byte bit_pos s).gba ≡ executed s.gba
  unfolding unpack_byte
  executed-unpack_byte zero w byte bit_pos s = refl
  executed-unpack_byte (suc fuel) w byte bit_pos s =
      let unit = byte / 2 ^ bit_pos % 2 ^ w.src_width in
      either_case (λ (x : Packed). executed x.gba ≡ executed s.gba) (ltb bit_pos 8)
        (executed-unpack_byte fuel w byte (u8 (bit_pos + w.src_width)) (unpack_unit ctl w s unit)
          ∙ executed-unpack_unit w s unit)
        refl

  executed-unpack_bytes :
      (left : ℕ) (w : Widths) (addr : ℕ) (s : Packed)
      → executed (unpack_bytes ctl left w addr s).gba ≡ executed s.gba
  unfolding unpack_bytes
  executed-unpack_bytes zero w addr s = refl
  executed-unpack_bytes (suc left) w addr s =
      let byte = bus_read8 s.gba addr in
      let read : Packed = record s { gba = byte.0 } in
      executed-unpack_bytes left w (u32 (addr + 1)) (unpack_byte ctl 8 w byte.1 0 read)
      ∙ executed-unpack_byte 8 w byte.1 0 read
      ∙ read8_executed s.gba addr

  executed-flush_bits : (s : Packed) → executed (flush_bits ctl s) ≡ executed s.gba
  unfolding flush_bits
  executed-flush_bits s =
      either_branch executed (ltb 0 s.out_bits) (write32_executed ctl keeps s.gba s.dst _) refl

  pub executed-swi_bit_unpack : (gba : Gba) → executed (swi_bit_unpack ctl gba) ≡ executed gba
  unfolding swi_bit_unpack
  executed-swi_bit_unpack gba =
      let info_ptr = gba.cpu.regs 2 in
      let g1 = bus_read16 gba info_ptr in
      let g2 = bus_read8 g1.0 (u32 (info_ptr + 2)) in
      let g3 = bus_read8 g2.0 (u32 (info_ptr + 3)) in
      let g4 = bus_read32 g3.0 (u32 (info_ptr + 4)) in
      let w : Widths = record {
        src_width = g2.1;
        dest_width = g3.1;
        add_to_zero = test_bit g4.1 31;
        offset = g4.1 % 2 ^ 31;
      } in
      let start : Packed = record {
        gba = g4.0;
        dst = gba.cpu.regs 1;
        out_word = 0;
        out_bits = 0;
      } in
      let info : executed g4.0 ≡ executed gba =
        read32_executed g3.0 (u32 (info_ptr + 4))
        ∙ read8_executed g2.0 (u32 (info_ptr + 3))
        ∙ read8_executed g1.0 (u32 (info_ptr + 2))
        ∙ read16_executed gba info_ptr in
      either_branch executed (g2.1 == 0 || g3.1 == 0) info (
        executed-flush_bits (unpack_bytes ctl g1.1 w (gba.cpu.regs 0) start)
        ∙ executed-unpack_bytes g1.1 w (gba.cpu.regs 0) start
        ∙ info)
