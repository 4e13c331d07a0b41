-- ===== src/Ppu/Effects.antt =====
-- The colour effects of a scanline: src/ppu/effects.c.
pub mod Channels
use gba_emulator.Base.{
  Bool, bit_or, bits, if◌then◌else◌, ltb, not, suc, test_bit, u16, update, zero, ℕ, ◌%◌, ◌*◌, ◌+◌,
  ◌-◌, ◌/◌, ◌==◌, ◌^◌,
}
use gba_emulator.Ppu.State.{Ppu}

abbrev pub screen_width : ℕ
screen_width = 240

unfoldable pub is_first_target : ℕ → ℕ → Bool
is_first_target bldcnt layer = test_bit bldcnt layer

unfoldable pub is_second_target : ℕ → ℕ → Bool
is_second_target bldcnt layer = test_bit bldcnt (8 + layer)

-- Red, green and blue.
unfoldable pub unpack_rgb : ℕ → ℕ × ℕ × ℕ
unpack_rgb color = (color % 32, color / 2 ^ 5 % 32, color / 2 ^ 10 % 32)

unfoldable pub pack_rgb : ℕ → ℕ → ℕ → ℕ
pack_rgb r g b = u16 (bit_or (bit_or (b * 2 ^ 10) (g * 2 ^ 5)) r)

-- A coefficient of five bits, at most 16.
unfoldable pub coefficient : ℕ → ℕ
coefficient register = if ltb 16 (register % 32) then 16 else register % 32

abbrev pub mix : ℕ → ℕ → ℕ → ℕ → ℕ
mix c1 eva c2 evb = let c = (c1 * eva + c2 * evb) / 2 ^ 4 in if ltb 31 c then 31 else c

abbrev pub lighten : ℕ → ℕ → ℕ
lighten c evy = c + (31 - c) * evy / 2 ^ 4

abbrev pub darken : ℕ → ℕ → ℕ
darken c evy = c - c * evy / 2 ^ 4

-- The new colour of pixel `x`, in a mode that is not 0.
unfoldable pub blend_pixel : Ppu → ℕ → ℕ
blend_pixel ppu x =
    let bldcnt = ppu.bldcnt in
    let mode = bits bldcnt 7 6 in
    let eva = coefficient ppu.bldalpha in
    let evb = coefficient (ppu.bldalpha / 2 ^ 8) in
    let evy = coefficient ppu.bldy in
    let color = ppu.scanline_buffer x in
    let (r, g, b) = unpack_rgb color in
    let (r2, g2, b2) = unpack_rgb (ppu.second_pixel x) in
    if not (is_first_target bldcnt (ppu.top_layer x))
    then color
    else if mode == 1
    then if not (is_second_target bldcnt (ppu.second_layer x))
      then color
      else pack_rgb (mix r eva r2 evb) (mix g eva g2 evb) (mix b eva b2 evb)
    else if mode == 2
    then pack_rgb (lighten r evy) (lighten g evy) (lighten b evy)
    else if mode == 3
    then pack_rgb (darken r evy) (darken g evy) (darken b evy)
    else color

-- The loop over the pixels below `n`; a pixel that the code skips keeps its colour.
unfoldable pub blend_loop : ℕ → Ppu → Ppu
blend_loop zero ppu = ppu
blend_loop (suc n) ppu =
    let done = blend_loop n ppu in
    record done { scanline_buffer = update done.scanline_buffer n (blend_pixel done n) }

unfoldable pub ppu_apply_blend_scanline : Ppu → Ppu
ppu_apply_blend_scanline ppu = if bits ppu.bldcnt 7 6 == 0 then ppu else blend_loop screen_width ppu
