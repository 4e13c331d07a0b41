-- ===== src/Cpu/Bios/Stream.antt =====
-- The decompressors of LZ77 and run-length data of src/cpu/bios_hle.c.
use gba_emulator.Base.{
  Bool, bit_or, false, if◌then◌else◌, ltb, not, sub32, suc, test_bit, true, u16, u32, zero, ℕ, ◌%◌,
  ◌&&◌, ◌*◌, ◌+◌, ◌/◌, ◌==◌, ◌^◌,
}
use gba_emulator.System.State.{Gba}
use gba_emulator.Bus.Memory.{bus_read8, bus_read32, bus_write16}

-- The 16-bit output of the decompressors for VRAM
pub record Emitter : Type 0 where
  pub gba : Gba
  pub src : ℕ
  pub bytes_written : ℕ
  pub out_halfword : ℕ
  pub have_low_byte : Bool

module _ (dma_write_control : Gba → ℕ → ℕ → Gba) where
  -- One decompressed byte: every second byte writes a halfword.
  unfoldable pub emit : ℕ → Emitter → ℕ → Emitter
  emit dst s val =
      let half = bit_or s.out_halfword (u16 (val * 2 ^ 8)) in
      if not s.have_low_byte
      then record s {
        out_halfword = val;
        have_low_byte = true;
        bytes_written = u32 (s.bytes_written + 1);
      }
      else record s {
        gba = bus_write16 dma_write_control s.gba (sub32 (u32 (dst + s.bytes_written)) 1) half;
        out_halfword = half;
        have_low_byte = false;
        bytes_written = u32 (s.bytes_written + 1);
      }

  -- "Flush any remaining byte"
  unfoldable pub flush_byte : ℕ → Emitter → Gba
  flush_byte dst s =
      if s.have_low_byte
      then bus_write16 dma_write_control s.gba (sub32 (u32 (dst + s.bytes_written)) 1)
          s.out_halfword
      else s.gba

  -- A round of the loop that copies `disp` bytes back
  unfoldable pub copy_byte : ℕ → ℕ → Emitter → Emitter
  unfolding emit
  copy_byte dst disp s =
      let read_addr = sub32 (u32 (dst + s.bytes_written)) disp in
      let buffered = s.have_low_byte && read_addr == sub32 (u32 (dst + s.bytes_written)) 1 in
      let (read, val) = bus_read8 s.gba read_addr in
      if buffered then emit dst s (s.out_halfword % 256) else emit dst (record s { gba = read }) val

  unfoldable pub copy_back : ℕ → ℕ → ℕ → ℕ → Emitter → Emitter
  unfolding copy_byte
  copy_back zero dst size disp s = s
  copy_back (suc left) dst size disp s =
      let rest = copy_back left dst size disp (copy_byte dst disp s) in
      if ltb s.bytes_written size then rest else s

  unfoldable pub reference_block : ℕ → ℕ → Emitter → Emitter
  unfolding copy_back
  reference_block dst size s =
      let (g1, byte1) = bus_read8 s.gba s.src in
      let (g2, byte2) = bus_read8 g1 (u32 (s.src + 1)) in
      copy_back (byte1 / 2 ^ 4 + 3) dst size (bit_or (byte1 % 16 * 2 ^ 8) byte2 + 1)
        (record s { gba = g2; src = u32 (s.src + 2) })

  unfoldable pub literal_byte : ℕ → Emitter → Emitter
  unfolding emit
  literal_byte dst s =
      let (read, val) = bus_read8 s.gba s.src in
      emit dst (record s { gba = read; src = u32 (s.src + 1) }) val

  -- The blocks of a flag byte, the highest bit first
  unfoldable pub lz77_blocks : ℕ → ℕ → ℕ → ℕ → Emitter → Emitter
  unfolding reference_block literal_byte
  lz77_blocks zero flags dst size s = s
  lz77_blocks (suc block) flags dst size s =
      let moved = if test_bit flags block then reference_block dst size s else literal_byte dst s in
      let rest = lz77_blocks block flags dst size moved in
      if ltb s.bytes_written size then rest else s

  -- Each round writes a byte at least, so as many rounds as bytes are enough.
  unfoldable pub lz77_loop : ℕ → ℕ → ℕ → Emitter → Emitter
  unfolding lz77_blocks
  lz77_loop zero dst size s = s
  lz77_loop (suc fuel) dst size s =
      let (read, flags) = bus_read8 s.gba s.src in
      let blocks = lz77_blocks 8 flags dst size (record s { gba = read; src = u32 (s.src + 1) }) in
      let rest = lz77_loop fuel dst size blocks in if ltb s.bytes_written size then rest else s

  abbrev pub emitter : Gba → ℕ → Emitter
  emitter gba src = record {
    gba = gba;
    src = u32 (src + 4);
    bytes_written = 0;
    out_halfword = 0;
    have_low_byte = false;
  }

  unfoldable pub swi_lz77_uncomp_vram : Gba → Gba
  unfolding lz77_loop flush_byte
  swi_lz77_uncomp_vram gba =
      let src = gba.cpu.regs 0 in
      let dst = gba.cpu.regs 1 in
      let (read, header) = bus_read32 gba src in
      let decomp_size = header / 2 ^ 8 in
      flush_byte dst (lz77_loop decomp_size dst decomp_size (emitter read src))

  unfoldable pub fill_run : ℕ → ℕ → ℕ → ℕ → Emitter → Emitter
  unfolding emit
  fill_run zero dst size val s = s
  fill_run (suc left) dst size val s =
      let rest = fill_run left dst size val (emit dst s val) in
      if ltb s.bytes_written size then rest else s

  unfoldable pub literal_run : ℕ → ℕ → ℕ → Emitter → Emitter
  unfolding literal_byte
  literal_run zero dst size s = s
  literal_run (suc left) dst size s =
      let rest = literal_run left dst size (literal_byte dst s) in
      if ltb s.bytes_written size then rest else s

  -- A run by its flag byte
  unfoldable pub run_block : ℕ → ℕ → ℕ → Emitter → Emitter
  unfolding fill_run literal_run
  run_block dst size flag s =
      let (read, val) = bus_read8 s.gba s.src in
      if test_bit flag 7
      then fill_run (flag % 2 ^ 7 + 3) dst size val (record s { gba = read; src = u32 (s.src + 1) })
      else literal_run (flag % 2 ^ 7 + 1) dst size s

  unfoldable pub rl_loop : ℕ → ℕ → ℕ → Emitter → Emitter
  unfolding run_block
  rl_loop zero dst size s = s
  rl_loop (suc fuel) dst size s =
      let (read, flag) = bus_read8 s.gba s.src in
      let block = run_block dst size flag (record s { gba = read; src = u32 (s.src + 1) }) in
      let rest = rl_loop fuel dst size block in if ltb s.bytes_written size then rest else s

  unfoldable pub swi_rl_uncomp_vram : Gba → Gba
  unfolding rl_loop flush_byte
  swi_rl_uncomp_vram gba =
      let src = gba.cpu.regs 0 in
      let dst = gba.cpu.regs 1 in
      let (read, header) = bus_read32 gba src in
      let decomp_size = header / 2 ^ 8 in
      flush_byte dst (rl_loop decomp_size dst decomp_size (emitter read src))
