-- ===== src/Cpu/Run/Bios/Filters.antt =====
-- The filters of the high-level BIOS leave the count of executed cycles.
use gba_emulator.Base.{
  either_branch, either_case, ltb, not, refl, suc, u32, zero, ℕ, ◌+◌, ◌-◌, ◌/◌, ◌==◌, ◌^◌, ◌∙◌, ◌≡◌,
}
use gba_emulator.System.State.{Gba}
use gba_emulator.Cpu.Bios.Filter.{
  Filter, wram_byte, vram_byte, half_unit, repeat_filter, filter_at, swi_diff8bit_unfilter_wram,
  swi_diff8bit_unfilter_vram, swi_diff16bit_unfilter,
}
use gba_emulator.Bus.Memory.{bus_read8, bus_read16, bus_read32, bus_write8, bus_write16}
use gba_emulator.Bus.Steady.{
  executed, KeepsCount, read8_executed, read16_executed, read32_executed, write8_executed,
  write16_executed,
}

abbrev Keeps : (Filter → Filter) → Type 0
Keeps body = (s : Filter) → executed (body s).gba ≡ executed s.gba

module _ (ctl : Gba → ℕ → ℕ → Gba) (keeps : KeepsCount ctl) where
  executed-wram_byte : Keeps (wram_byte ctl)
  unfolding wram_byte
  executed-wram_byte s = simp (write8_executed ctl keeps, read8_executed) refl

  executed-half_unit : Keeps (half_unit ctl)
  unfolding half_unit
  executed-half_unit s = simp (write16_executed ctl keeps, read16_executed) refl

  executed-vram_byte : Keeps (vram_byte ctl)
  unfolding vram_byte
  executed-vram_byte s =
      either_case (λ (x : Filter). executed x.gba ≡ executed s.gba) (not s.have_low_byte)
        (read8_executed s.gba s.src)
        (write16_executed ctl keeps (bus_read8 s.gba s.src).0 s.dst _ ∙ read8_executed s.gba s.src)

  executed-repeat_filter :
      (body : Filter → Filter) → Keeps body → (left : ℕ) → Keeps (repeat_filter ctl body left)
  unfolding repeat_filter
  executed-repeat_filter body same zero s = refl
  executed-repeat_filter body same (suc left) s =
      executed-repeat_filter body same left (body s) ∙ same s

  pub executed-diff8_wram :
      (gba : Gba) → executed (swi_diff8bit_unfilter_wram ctl gba) ≡ executed gba
  unfolding swi_diff8bit_unfilter_wram
  executed-diff8_wram gba =
      let dst = gba.cpu.regs 1 in
      let g1 = bus_read32 gba (gba.cpu.regs 0) in
      let decomp_size = g1.1 / 2 ^ 8 in
      let src = u32 (gba.cpu.regs 0 + 4) in
      let g2 = bus_read8 g1.0 src in
      let first = bus_write8 ctl g2.0 dst g2.1 in
      let header = read32_executed gba (gba.cpu.regs 0) in
      either_branch executed (decomp_size == 0) header (
        executed-repeat_filter (wram_byte ctl) executed-wram_byte (decomp_size - 1)
          (filter_at ctl first (u32 (src + 1)) (u32 (dst + 1)) g2.1)
        ∙ write8_executed ctl keeps g2.0 dst g2.1
        ∙ read8_executed g1.0 src
        ∙ header)

  pub executed-diff8_vram :
      (gba : Gba) → executed (swi_diff8bit_unfilter_vram ctl gba) ≡ executed gba
  unfolding swi_diff8bit_unfilter_vram
  executed-diff8_vram gba =
      let dst = gba.cpu.regs 1 in
      let g1 = bus_read32 gba (gba.cpu.regs 0) in
      let decomp_size = g1.1 / 2 ^ 8 in
      let src = u32 (gba.cpu.regs 0 + 4) in
      let g2 = bus_read8 g1.0 src in
      let start = filter_at ctl g2.0 (u32 (src + 1)) dst g2.1 in
      let s = repeat_filter ctl (vram_byte ctl) (decomp_size - 1) start in
      let header = read32_executed gba (gba.cpu.regs 0) in
      let looped : executed s.gba ≡ executed gba =
        executed-repeat_filter (vram_byte ctl) executed-vram_byte (decomp_size - 1) start
        ∙ read8_executed g1.0 src
        ∙ header in
      either_branch executed (decomp_size == 0) header (
        either_branch executed s.have_low_byte
          (write16_executed ctl keeps s.gba s.dst s.out_halfword ∙ looped) looped)

  pub executed-diff16 : (gba : Gba) → executed (swi_diff16bit_unfilter ctl gba) ≡ executed gba
  unfolding swi_diff16bit_unfilter
  executed-diff16 gba =
      let dst = gba.cpu.regs 1 in
      let g1 = bus_read32 gba (gba.cpu.regs 0) in
      let decomp_size = g1.1 / 2 ^ 8 in
      let src = u32 (gba.cpu.regs 0 + 4) in
      let g2 = bus_read16 g1.0 src in
      let first = bus_write16 ctl g2.0 dst g2.1 in
      let header = read32_executed gba (gba.cpu.regs 0) in
      either_branch executed (ltb decomp_size 2) header (
        executed-repeat_filter (half_unit ctl) executed-half_unit (decomp_size / 2 - 1)
          (filter_at ctl first (u32 (src + 2)) (u32 (dst + 2)) g2.1)
        ∙ write16_executed ctl keeps g2.0 dst g2.1
        ∙ read16_executed g1.0 src
        ∙ header)
