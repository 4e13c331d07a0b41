-- ===== src/Cpu/Bios/Filter.antt =====
-- The three filters of differences of src/cpu/bios_hle.c.
use gba_emulator.Base.{
  Bool, bit_or, false, if◌then◌else◌, ltb, not, suc, true, u16, u32, u8, zero, ℕ, ◌*◌, ◌+◌, ◌-◌,
  ◌/◌, ◌==◌, ◌^◌,
}
use gba_emulator.System.State.{Gba}
use gba_emulator.Bus.Memory.{bus_read8, bus_read16, bus_read32, bus_write8, bus_write16}

-- The variables of the loops; `out_halfword` and `have_low_byte` are those of the VRAM variant.
pub record Filter : Type 0 where
  pub gba : Gba
  pub src : ℕ
  pub dst : ℕ
  pub prev : ℕ
  pub out_halfword : ℕ
  pub have_low_byte : Bool

module _ (dma_write_control : Gba → ℕ → ℕ → Gba) where
  unfoldable pub wram_byte : Filter → Filter
  wram_byte s =
      let (read, diff) = bus_read8 s.gba s.src in
      let prev = u8 (s.prev + diff) in
      record s {
        gba = bus_write8 dma_write_control read s.dst prev;
        src = u32 (s.src + 1);
        dst = u32 (s.dst + 1);
        prev = prev;
      }

  unfoldable pub vram_byte : Filter → Filter
  vram_byte s =
      let (read, diff) = bus_read8 s.gba s.src in
      let prev = u8 (s.prev + diff) in
      let half = bit_or s.out_halfword (u16 (prev * 2 ^ 8)) in
      let next : Filter = record s { gba = read; src = u32 (s.src + 1); prev = prev } in
      if not s.have_low_byte
      then record next { out_halfword = prev; have_low_byte = true }
      else record next {
        gba = bus_write16 dma_write_control read s.dst half;
        dst = u32 (s.dst + 2);
        out_halfword = half;
        have_low_byte = false;
      }

  unfoldable pub half_unit : Filter → Filter
  half_unit s =
      let (read, diff) = bus_read16 s.gba s.src in
      let prev = u16 (s.prev + diff) in
      record s {
        gba = bus_write16 dma_write_control read s.dst prev;
        src = u32 (s.src + 2);
        dst = u32 (s.dst + 2);
        prev = prev;
      }

  -- The loop of each of them, from its second round on
  unfoldable pub repeat_filter : (Filter → Filter) → ℕ → Filter → Filter
  repeat_filter body zero s = s
  repeat_filter body (suc left) s = repeat_filter body left (body s)

  abbrev pub filter_at : Gba → ℕ → ℕ → ℕ → Filter
  filter_at gba src dst prev = record {
    gba = gba;
    src = src;
    dst = dst;
    prev = prev;
    out_halfword = prev;
    have_low_byte = true;
  }

  unfoldable pub swi_diff8bit_unfilter_wram : Gba → Gba
  unfolding wram_byte repeat_filter
  swi_diff8bit_unfilter_wram gba =
      let dst = gba.cpu.regs 1 in
      let (g1, header) = bus_read32 gba (gba.cpu.regs 0) in
      let decomp_size = header / 2 ^ 8 in
      let src = u32 (gba.cpu.regs 0 + 4) in
      let (g2, prev) = bus_read8 g1 src in
      let first = bus_write8 dma_write_control g2 dst prev in
      if decomp_size == 0
      then g1
      else (repeat_filter wram_byte (decomp_size - 1)
          (filter_at first (u32 (src + 1)) (u32 (dst + 1)) prev)).gba

  unfoldable pub swi_diff8bit_unfilter_vram : Gba → Gba
  unfolding vram_byte repeat_filter
  swi_diff8bit_unfilter_vram gba =
      let dst = gba.cpu.regs 1 in
      let (g1, header) = bus_read32 gba (gba.cpu.regs 0) in
      let decomp_size = header / 2 ^ 8 in
      let src = u32 (gba.cpu.regs 0 + 4) in
      let (g2, prev) = bus_read8 g1 src in
      let s = repeat_filter vram_byte (decomp_size - 1) (filter_at g2 (u32 (src + 1)) dst prev) in
      if decomp_size == 0
      then g1
      else if s.have_low_byte
      then bus_write16 dma_write_control s.gba s.dst s.out_halfword
      else s.gba

  unfoldable pub swi_diff16bit_unfilter : Gba → Gba
  unfolding half_unit repeat_filter
  swi_diff16bit_unfilter gba =
      let dst = gba.cpu.regs 1 in
      let (g1, header) = bus_read32 gba (gba.cpu.regs 0) in
      let decomp_size = header / 2 ^ 8 in
      let src = u32 (gba.cpu.regs 0 + 4) in
      let (g2, prev) = bus_read16 g1 src in
      let first = bus_write16 dma_write_control g2 dst prev in
      if ltb decomp_size 2
      then g1
      else (repeat_filter half_unit (decomp_size / 2 - 1)
          (filter_at first (u32 (src + 2)) (u32 (dst + 2)) prev)).gba
