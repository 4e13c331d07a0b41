-- ===== src/Cpu/Bios/Copy.antt =====
-- CpuSet, CpuFastSet, BgAffineSet and ObjAffineSet of src/cpu/bios_hle.c.
use gba_emulator.Base.{
  sign16, Bool, if◌then◌else◌, sub32, suc, test_bit, u16, u32, zero, ℕ, ◌%◌, ◌*◌, ◌+◌, ◌/◌, ◌^◌,
}
use gba_emulator.System.State.{Gba}
use gba_emulator.Cpu.Shifter.{asr32}
use gba_emulator.Cpu.Transfer.{half_aligned, word_aligned}
use gba_emulator.Cpu.Bios.Arith.{neg32, mul32, bios_sin, bios_cos}
use gba_emulator.Bus.Memory.{bus_read16, bus_read32, bus_write16, bus_write32}

-- What the loops change
pub record Move : Type 0 where
  pub gba : Gba
  pub src : ℕ
  pub dst : ℕ

-- `pa`, `pb`, `pc` and `pd` of a scaling and an angle, as `uint16_t`
unfoldable pub scaled : ℕ → ℕ → ℕ
scaled scale trig = u16 (asr32 (mul32 (sign16 scale) trig) 14)

-- `center - (p * disp_x + q * disp_y)`
unfoldable pub start_at : ℕ → ℕ → ℕ → ℕ → ℕ → ℕ
start_at center p q disp_x disp_y =
    sub32 center (u32 (mul32 (sign16 p) (sign16 disp_x) + mul32 (sign16 q) (sign16 disp_y)))

module _ (dma_write_control : Gba → ℕ → ℕ → Gba) where
  unfoldable pub copy_word : Bool → ℕ → Move → Move
  copy_word fill fill_val s =
      let (read, word) = bus_read32 s.gba s.src in
      if fill
      then record s {
        gba = bus_write32 dma_write_control s.gba s.dst fill_val;
        dst = u32 (s.dst + 4);
      }
      else record {
        gba = bus_write32 dma_write_control read s.dst word;
        src = u32 (s.src + 4);
        dst = u32 (s.dst + 4);
      }

  unfoldable pub copy_words : ℕ → Bool → ℕ → Move → Move
  unfolding copy_word
  copy_words zero fill fill_val s = s
  copy_words (suc left) fill fill_val s = copy_words left fill fill_val (copy_word fill fill_val s)

  unfoldable pub copy_half : Bool → ℕ → Move → Move
  copy_half fill fill_val s =
      let (read, half) = bus_read16 s.gba s.src in
      if fill
      then record s {
        gba = bus_write16 dma_write_control s.gba s.dst fill_val;
        dst = u32 (s.dst + 2);
      }
      else record {
        gba = bus_write16 dma_write_control read s.dst half;
        src = u32 (s.src + 2);
        dst = u32 (s.dst + 2);
      }

  unfoldable pub copy_halves : ℕ → Bool → ℕ → Move → Move
  unfolding copy_half
  copy_halves zero fill fill_val s = s
  copy_halves (suc left) fill fill_val s =
      copy_halves left fill fill_val (copy_half fill fill_val s)

  unfoldable pub swi_cpu_set : Gba → Gba
  unfolding copy_words copy_halves
  swi_cpu_set gba =
      let src = gba.cpu.regs 0 in
      let dst = gba.cpu.regs 1 in
      let control = gba.cpu.regs 2 in
      let fill = test_bit control 24 in
      let count = control % 2 ^ 21 in
      let (read32, word) = bus_read32 gba (word_aligned src) in
      let (read16, half) = bus_read16 gba (half_aligned src) in
      if test_bit control 26
      then (copy_words count fill word
          record { gba = read32; src = word_aligned src; dst = word_aligned dst }).gba
      else (copy_halves count fill half
          record { gba = read16; src = half_aligned src; dst = half_aligned dst }).gba

  unfoldable pub swi_cpu_fast_set : Gba → Gba
  unfolding copy_words
  swi_cpu_fast_set gba =
      let src = word_aligned (gba.cpu.regs 0) in
      let control = gba.cpu.regs 2 in
      let (read, word) = bus_read32 gba src in
      let count = (control % 2 ^ 21 + 7) / 8 * 8 in
      (copy_words count (test_bit control 24) word
        record { gba = read; src = src; dst = word_aligned (gba.cpu.regs 1) }).gba

  unfoldable pub bg_affine : Move → Move
  unfolding scaled start_at
  bg_affine s =
      let src = s.src in
      let dst = s.dst in
      let (g1, center_x) = bus_read32 s.gba src in
      let (g2, center_y) = bus_read32 g1 (u32 (src + 4)) in
      let (g3, disp_x) = bus_read16 g2 (u32 (src + 8)) in
      let (g4, disp_y) = bus_read16 g3 (u32 (src + 10)) in
      let (g5, scale_x) = bus_read16 g4 (u32 (src + 12)) in
      let (g6, scale_y) = bus_read16 g5 (u32 (src + 14)) in
      let (g7, angle) = bus_read16 g6 (u32 (src + 16)) in
      let pa = scaled scale_x (bios_cos angle) in
      let pb = scaled scale_x (neg32 (bios_sin angle)) in
      let pc = scaled scale_y (bios_sin angle) in
      let pd = scaled scale_y (bios_cos angle) in
      let w1 = bus_write16 dma_write_control g7 dst pa in
      let w2 = bus_write16 dma_write_control w1 (u32 (dst + 2)) pb in
      let w3 = bus_write16 dma_write_control w2 (u32 (dst + 4)) pc in
      let w4 = bus_write16 dma_write_control w3 (u32 (dst + 6)) pd in
      let w5 =
        bus_write32 dma_write_control w4 (u32 (dst + 8)) (start_at center_x pa pb disp_x disp_y) in
      let w6 =
        bus_write32 dma_write_control w5 (u32 (dst + 12)) (start_at center_y pc pd disp_x disp_y) in
      record { gba = w6; src = u32 (src + 20); dst = u32 (dst + 16) }

  unfoldable pub obj_affine : ℕ → Move → Move
  unfolding scaled
  obj_affine stride s =
      let src = s.src in
      let dst = s.dst in
      let (g1, scale_x) = bus_read16 s.gba src in
      let (g2, scale_y) = bus_read16 g1 (u32 (src + 2)) in
      let (g3, angle) = bus_read16 g2 (u32 (src + 4)) in
      let w1 = bus_write16 dma_write_control g3 dst (scaled scale_x (bios_cos angle)) in
      let w2 =
        bus_write16 dma_write_control w1 (u32 (dst + stride))
          (scaled scale_x (neg32 (bios_sin angle))) in
      let w3 =
        bus_write16 dma_write_control w2 (u32 (dst + stride * 2))
          (scaled scale_y (bios_sin angle)) in
      let w4 =
        bus_write16 dma_write_control w3 (u32 (dst + stride * 3))
          (scaled scale_y (bios_cos angle)) in
      record { gba = w4; src = u32 (src + 8); dst = u32 (dst + stride * 4) }

  -- The loop of the two functions
  unfoldable pub repeat_move : (Move → Move) → ℕ → Move → Move
  repeat_move body zero s = s
  repeat_move body (suc left) s = repeat_move body left (body s)

  unfoldable pub swi_bg_affine_set : Gba → Gba
  unfolding bg_affine repeat_move
  swi_bg_affine_set gba =
      let regs = gba.cpu.regs in
      (repeat_move bg_affine (regs 2) record { gba = gba; src = regs 0; dst = regs 1 }).gba

  unfoldable pub swi_obj_affine_set : Gba → Gba
  unfolding obj_affine repeat_move
  swi_obj_affine_set gba =
      let regs = gba.cpu.regs in
      (repeat_move (obj_affine (regs 3)) (regs 2)
        record { gba = gba; src = regs 0; dst = regs 1 }).gba
