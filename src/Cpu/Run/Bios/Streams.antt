-- ===== src/Cpu/Run/Bios/Streams.antt =====
-- The decompressors of LZ77 and run-length data leave the count of executed cycles.
use gba_emulator.Base.{
  bit_or, either_branch, either_case, if◌then◌else◌, ltb, not, refl, sub32, suc, test_bit, u32,
  zero, ℕ, ◌%◌, ◌&&◌, ◌*◌, ◌+◌, ◌/◌, ◌==◌, ◌^◌, ◌∙◌, ◌≡◌,
}
use gba_emulator.System.State.{Gba}
use gba_emulator.Cpu.Bios.Stream.{
  Emitter, emit, flush_byte, copy_byte, copy_back, reference_block, literal_byte, lz77_blocks,
  lz77_loop, emitter, swi_lz77_uncomp_vram, fill_run, literal_run, run_block, rl_loop,
  swi_rl_uncomp_vram,
}
use gba_emulator.Bus.Memory.{bus_read8, bus_read32}
use gba_emulator.Bus.Steady.{
  executed, KeepsCount, read8_executed, read32_executed, write16_executed,
}

abbrev Keeps : (Emitter → Emitter) → Type 0
Keeps body = (s : Emitter) → executed (body s).gba ≡ executed s.gba

abbrev SameCount : Gba → Emitter → Type 0
SameCount gba x = executed x.gba ≡ executed gba

module _ (ctl : Gba → ℕ → ℕ → Gba) (keeps : KeepsCount ctl) where
  executed-emit : (dst val : ℕ) → Keeps (λ s. emit ctl dst s val)
  unfolding emit
  executed-emit dst val s =
      either_case (SameCount s.gba) (not s.have_low_byte) refl
        (write16_executed ctl keeps s.gba _ _)

  executed-flush_byte : (dst : ℕ) (s : Emitter) → executed (flush_byte ctl dst s) ≡ executed s.gba
  unfolding flush_byte
  executed-flush_byte dst s =
      either_branch executed s.have_low_byte (write16_executed ctl keeps s.gba _ _) refl

  executed-copy_byte : (dst disp : ℕ) → Keeps (copy_byte ctl dst disp)
  unfolding copy_byte
  executed-copy_byte dst disp s =
      let read_addr = sub32 (u32 (dst + s.bytes_written)) disp in
      let read = bus_read8 s.gba read_addr in
      either_case (SameCount s.gba)
        (s.have_low_byte && read_addr == sub32 (u32 (dst + s.bytes_written)) 1)
        (executed-emit dst (s.out_halfword % 256) s)
        (executed-emit dst read.1 (record s { gba = read.0 }) ∙ read8_executed s.gba read_addr)

  executed-copy_back : (left dst size disp : ℕ) → Keeps (copy_back ctl left dst size disp)
  unfolding copy_back
  executed-copy_back zero dst size disp s = refl
  executed-copy_back (suc left) dst size disp s =
      either_case (SameCount s.gba) (ltb s.bytes_written size)
        (executed-copy_back left dst size disp (copy_byte ctl dst disp s)
          ∙ executed-copy_byte dst disp s)
        refl

  executed-reference_block : (dst size : ℕ) → Keeps (reference_block ctl dst size)
  unfolding reference_block
  executed-reference_block dst size s =
      let g1 = bus_read8 s.gba s.src in
      let g2 = bus_read8 g1.0 (u32 (s.src + 1)) in
      executed-copy_back (g1.1 / 2 ^ 4 + 3) dst size (bit_or (g1.1 % 16 * 2 ^ 8) g2.1 + 1)
        (record s { gba = g2.0; src = u32 (s.src + 2) })
      ∙ read8_executed g1.0 (u32 (s.src + 1))
      ∙ read8_executed s.gba s.src

  executed-literal_byte : (dst : ℕ) → Keeps (literal_byte ctl dst)
  unfolding literal_byte
  executed-literal_byte dst s =
      let read = bus_read8 s.gba s.src in
      executed-emit dst read.1 (record s { gba = read.0; src = u32 (s.src + 1) })
      ∙ read8_executed s.gba s.src

  executed-lz77_blocks : (left flags dst size : ℕ) → Keeps (lz77_blocks ctl left flags dst size)
  unfolding lz77_blocks
  executed-lz77_blocks zero flags dst size s = refl
  executed-lz77_blocks (suc block) flags dst size s =
      let moved =
        if test_bit flags block then reference_block ctl dst size s else literal_byte ctl dst s in
      let one : executed moved.gba ≡ executed s.gba =
        either_case (SameCount s.gba) (test_bit flags block) (executed-reference_block dst size s)
          (executed-literal_byte dst s) in
      either_case (SameCount s.gba) (ltb s.bytes_written size)
        (executed-lz77_blocks block flags dst size moved ∙ one) refl

  executed-lz77_loop : (fuel dst size : ℕ) → Keeps (lz77_loop ctl fuel dst size)
  unfolding lz77_loop
  executed-lz77_loop zero dst size s = refl
  executed-lz77_loop (suc fuel) dst size s =
      let read = bus_read8 s.gba s.src in
      let start : Emitter = record s { gba = read.0; src = u32 (s.src + 1) } in
      either_case (SameCount s.gba) (ltb s.bytes_written size)
        (executed-lz77_loop fuel dst size (lz77_blocks ctl 8 read.1 dst size start)
          ∙ executed-lz77_blocks 8 read.1 dst size start
          ∙ read8_executed s.gba s.src)
        refl

  pub executed-swi_lz77_uncomp_vram :
      (gba : Gba) → executed (swi_lz77_uncomp_vram ctl gba) ≡ executed gba
  unfolding swi_lz77_uncomp_vram
  executed-swi_lz77_uncomp_vram gba =
      let src = gba.cpu.regs 0 in
      let dst = gba.cpu.regs 1 in
      let header = bus_read32 gba src in
      let size = header.1 / 2 ^ 8 in
      let start = emitter ctl header.0 src in
      executed-flush_byte dst (lz77_loop ctl size dst size start)
      ∙ executed-lz77_loop size dst size start
      ∙ read32_executed gba src

  executed-fill_run : (left dst size val : ℕ) → Keeps (fill_run ctl left dst size val)
  unfolding fill_run
  executed-fill_run zero dst size val s = refl
  executed-fill_run (suc left) dst size val s =
      either_case (SameCount s.gba) (ltb s.bytes_written size)
        (executed-fill_run left dst size val (emit ctl dst s val) ∙ executed-emit dst val s) refl

  executed-literal_run : (left dst size : ℕ) → Keeps (literal_run ctl left dst size)
  unfolding literal_run
  executed-literal_run zero dst size s = refl
  executed-literal_run (suc left) dst size s =
      either_case (SameCount s.gba) (ltb s.bytes_written size)
        (executed-literal_run left dst size (literal_byte ctl dst s) ∙ executed-literal_byte dst s)
        refl

  executed-run_block : (dst size flag : ℕ) → Keeps (run_block ctl dst size flag)
  unfolding run_block
  executed-run_block dst size flag s =
      let read = bus_read8 s.gba s.src in
      either_case (SameCount s.gba) (test_bit flag 7)
        (executed-fill_run (flag % 2 ^ 7 + 3) dst size read.1
            (record s { gba = read.0; src = u32 (s.src + 1) })
          ∙ read8_executed s.gba s.src)
        (executed-literal_run (flag % 2 ^ 7 + 1) dst size s)

  executed-rl_loop : (fuel dst size : ℕ) → Keeps (rl_loop ctl fuel dst size)
  unfolding rl_loop
  executed-rl_loop zero dst size s = refl
  executed-rl_loop (suc fuel) dst size s =
      let read = bus_read8 s.gba s.src in
      let start : Emitter = record s { gba = read.0; src = u32 (s.src + 1) } in
      either_case (SameCount s.gba) (ltb s.bytes_written size)
        (executed-rl_loop fuel dst size (run_block ctl dst size read.1 start)
          ∙ executed-run_block dst size read.1 start
          ∙ read8_executed s.gba s.src)
        refl

  pub executed-swi_rl_uncomp_vram :
      (gba : Gba) → executed (swi_rl_uncomp_vram ctl gba) ≡ executed gba
  unfolding swi_rl_uncomp_vram
  executed-swi_rl_uncomp_vram gba =
      let src = gba.cpu.regs 0 in
      let dst = gba.cpu.regs 1 in
      let header = bus_read32 gba src in
      let size = header.1 / 2 ^ 8 in
      let start = emitter ctl header.0 src in
      executed-flush_byte dst (rl_loop ctl size dst size start)
      ∙ executed-rl_loop size dst size start
      ∙ read32_executed gba src
