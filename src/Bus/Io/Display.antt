-- ===== src/Bus/Io/Display.antt =====
-- The writes of `io_write8` to the registers of the picture unit, 0x00 - 0x55.
use gba_emulator.Base.{
  bit_and, bit_or, if◌then◌else◌, leb, ltb, u8, update, ℕ, ◌%◌, ◌&&◌, ◌+◌, ◌-◌, ◌/◌, ◌==◌, ◌^◌,
  ◌||◌,
}
use gba_emulator.System.State.{Gba, set_ppu, store}
use gba_emulator.Ppu.State.{Ppu}
use gba_emulator.Bus.Bytes.{put_byte, word_at}

-- One byte of an element of an array of registers
abbrev pub put_at : (ℕ → ℕ) → ℕ → ℕ → ℕ → ℕ → ℕ
put_at regs i offset val = update regs i (put_byte offset (regs i) val)

-- DISPSTAT: its lowest three bits are read-only.
unfoldable pub write_dispstat : Gba → ℕ → ℕ → Gba
unfolding put_byte
write_dispstat gba offset val =
    let dispstat = bit_or (bit_and gba.ppu.dispstat 0xff07) (bit_and val 0xf8) in
    if offset == 0x04
    then store (set_ppu gba (record gba.ppu { dispstat = dispstat })) offset
        (u8 (bit_and dispstat 0xff))
    else store (set_ppu gba (record gba.ppu { dispstat = put_byte offset gba.ppu.dispstat val }))
        offset val

-- BGxHOFS and BGxVOFS
unfoldable pub write_scroll : Ppu → ℕ → ℕ → Ppu
unfolding put_byte
write_scroll ppu offset val =
    let rel = offset - 0x10 in
    if rel / 2 % 2 == 1
    then record ppu { bg_vofs = put_at ppu.bg_vofs (rel / 4) offset val }
    else record ppu { bg_hofs = put_at ppu.bg_hofs (rel / 4) offset val }

-- BGxPA - BGxPD
unfoldable pub write_affine : Ppu → ℕ → ℕ → Ppu
unfolding put_byte
write_affine ppu offset val =
    let affine_idx = if leb 0x30 offset then 1 else 0 in
    let base_off = if leb 0x30 offset then 0x30 else 0x20 in
    let param_idx = (offset - base_off) / 2 in
    if param_idx == 0
    then record ppu { bg_pa = put_at ppu.bg_pa affine_idx offset val }
    else if param_idx == 1
    then record ppu { bg_pb = put_at ppu.bg_pb affine_idx offset val }
    else if param_idx == 2
    then record ppu { bg_pc = put_at ppu.bg_pc affine_idx offset val }
    else record ppu { bg_pd = put_at ppu.bg_pd affine_idx offset val }

-- `(int32_t)(full << 4) >> 4`: the sign extension of 28 bits, as a 32-bit pattern
unfoldable pub extend28 : ℕ → ℕ
extend28 full = let low = full % 2 ^ 28 in if ltb low (2 ^ 27) then low else low + (2 ^ 32 - 2 ^ 28)

-- BGxX and BGxY, from the bytes stored so far
unfoldable pub write_reference : Ppu → (ℕ → ℕ) → ℕ → Ppu
unfolding extend28
write_reference ppu io_regs offset =
    let affine_idx = if leb 0x38 offset then 1 else 0 in
    let group_base = if leb 0x38 offset then 0x38 else 0x28 in
    let is_y = leb 4 (offset - group_base) in
    let signed_val = extend28 (word_at io_regs (group_base + (if is_y then 4 else 0))) in
    if is_y
    then record ppu {
      bg_ref_y_latch = update ppu.bg_ref_y_latch affine_idx signed_val;
      bg_ref_y = update ppu.bg_ref_y affine_idx signed_val;
    }
    else record ppu {
      bg_ref_x_latch = update ppu.bg_ref_x_latch affine_idx signed_val;
      bg_ref_x = update ppu.bg_ref_x affine_idx signed_val;
    }

-- WIN0H, WIN1H, WIN0V, WIN1V
unfoldable pub write_window : Ppu → ℕ → ℕ → Ppu
unfolding put_byte
write_window ppu offset val =
    let rel = offset - 0x40 in
    let win_idx = rel / 2 % 2 in
    if leb 4 rel
    then record ppu { win_v = put_at ppu.win_v win_idx offset val }
    else record ppu { win_h = put_at ppu.win_h win_idx offset val }

-- WININ, WINOUT, MOSAIC, BLDCNT, BLDALPHA, BLDY
unfoldable pub write_effects : Ppu → ℕ → ℕ → Ppu
unfolding put_byte
write_effects ppu offset val =
    if ltb offset 0x4a
    then record ppu { winin = put_byte offset ppu.winin val }
    else if ltb offset 0x4c
    then record ppu { winout = put_byte offset ppu.winout val }
    else if ltb offset 0x4e
    then record ppu { mosaic = put_byte offset ppu.mosaic val }
    else if ltb offset 0x52
    then record ppu { bldcnt = put_byte offset ppu.bldcnt val }
    else if ltb offset 0x54
    then record ppu { bldalpha = put_byte offset ppu.bldalpha val }
    else record ppu { bldy = put_byte offset ppu.bldy val }

-- The registers that store the byte and then put it into the picture unit; `stored` holds the
-- bytes with `val` among them. An offset without a register changes nothing.
unfoldable pub write_ppu : Ppu → (ℕ → ℕ) → ℕ → ℕ → Ppu
unfolding put_byte write_scroll write_affine write_reference write_window write_effects
write_ppu ppu stored offset val =
    if ltb offset 0x02
    then record ppu { dispcnt = put_byte offset ppu.dispcnt val }
    else if ltb offset 0x08
    then ppu
    else if ltb offset 0x10
    then record ppu { bg_cnt = put_at ppu.bg_cnt ((offset - 0x08) / 2) offset val }
    else if ltb offset 0x20
    then write_scroll ppu offset val
    else if ltb offset 0x40
    then if ltb (offset % 16) 8
      then write_affine ppu offset val
      else write_reference ppu stored offset
    else if ltb offset 0x48
    then write_window ppu offset val
    else if ltb offset 0x4e || leb 0x50 offset && ltb offset 0x56
    then write_effects ppu offset val
    else ppu

-- 0x00 - 0x5F: VCOUNT is read-only.
unfoldable pub write_display : Gba → ℕ → ℕ → Gba
unfolding write_dispstat write_ppu
write_display gba offset val =
    let stored = store gba offset val in
    if offset == 0x04 || offset == 0x05
    then write_dispstat gba offset val
    else if offset == 0x06 || offset == 0x07
    then gba
    else set_ppu stored (write_ppu gba.ppu stored.bus.io_regs offset val)
