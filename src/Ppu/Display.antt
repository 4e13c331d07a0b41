-- ===== src/Ppu/Display.antt =====
-- The display status and the line counter: src/ppu/ppu.c, less the rendering.
use gba_emulator.Base.{
  Bool, bit_and, bit_or, if◌then◌else◌, leb, not16, test_bit, u16, ℕ, ◌%◌, ◌&&◌, ◌+◌, ◌/◌, ◌==◌,
  ◌^◌,
}
use gba_emulator.Ppu.State.{Ppu}

abbrev pub total_lines : ℕ
total_lines = 228

unfoldable pub ppu_set_hblank : Ppu → Bool → Ppu
ppu_set_hblank ppu active = record ppu {
  dispstat = if active then bit_or ppu.dispstat (2 ^ 1) else bit_and ppu.dispstat (not16 (2 ^ 1));
}

unfoldable pub ppu_set_vblank : Ppu → Bool → Ppu
ppu_set_vblank ppu active = record ppu {
  dispstat = if active then bit_or ppu.dispstat (2 ^ 0) else bit_and ppu.dispstat (not16 (2 ^ 0));
}

unfoldable pub ppu_increment_vcount : Ppu → Ppu
ppu_increment_vcount ppu =
    let next = u16 (ppu.vcount + 1) in
    record ppu { vcount = if leb total_lines next then 0 else next }

-- The new state, and whether the VCount interrupt is due. A log of the first calls is left out.
unfoldable pub ppu_vcount_match : Ppu → Ppu × Bool
ppu_vcount_match ppu =
    let target = ppu.dispstat / 2 ^ 8 % 2 ^ 8 in
    let found = ppu.vcount == target in
    let dispstat =
      if found then bit_or ppu.dispstat (2 ^ 2) else bit_and ppu.dispstat (not16 (2 ^ 2)) in
    (record ppu { dispstat = dispstat }, found && test_bit dispstat 5)
