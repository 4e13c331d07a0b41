-- ===== src/Ppu/Scanline.antt =====
-- `ppu_render_scanline` of src/ppu/ppu.c, less the layer map of the X-Ray build.
pub mod Mode3
use gba_emulator.Base.{
  copy, fill, if◌then◌else◌, leb, not, sign16, test_bit, u32, update, ℕ, ◌%◌, ◌*◌, ◌+◌, ◌==◌, ◌^◌,
  ◌||◌,
}
use gba_emulator.Bus.State.{Bus}
use gba_emulator.Ppu.State.{Ppu}
use gba_emulator.Ppu.Effects.{screen_width, ppu_apply_blend_scanline}
use gba_emulator.Ppu.Pixel.{halfword}
use gba_emulator.Ppu.Bitmap.{ppu_render_mode3, ppu_render_mode4, ppu_render_mode5}
use gba_emulator.Ppu.Regular.{ppu_render_bg_regular}
use gba_emulator.Ppu.Affine.{ppu_render_bg_affine}
use gba_emulator.Ppu.Sprites.{ppu_render_sprites_at_priority, ppu_render_sprites}

-- The copy of the line to the framebuffer
unfoldable pub show_line : Ppu → Ppu
show_line ppu = record ppu {
  framebuffer = copy ppu.framebuffer (ppu.vcount * screen_width) ppu.scanline_buffer 0 screen_width;
}

-- "Fill scanline with backdrop color (palette RAM entry 0)"
unfoldable pub fill_backdrop : Bus → Ppu → Ppu
fill_backdrop bus ppu =
    let backdrop = halfword bus.palette_ram 0 in
    record ppu {
      scanline_buffer = fill ppu.scanline_buffer 0 screen_width backdrop;
      top_layer = fill ppu.top_layer 0 screen_width 5;
      second_pixel = fill ppu.second_pixel 0 screen_width backdrop;
      second_layer = fill ppu.second_layer 0 screen_width 5;
    }

-- A background, where it is on and has the priority
unfoldable pub regular_at : Bus → ℕ → Ppu → ℕ → Ppu
unfolding ppu_render_bg_regular
regular_at bus prio ppu bg =
    if not (test_bit ppu.dispcnt (8 + bg)) || not (ppu.bg_cnt bg % 2 ^ 2 == prio)
    then ppu
    else ppu_render_bg_regular bus ppu bg

unfoldable pub affine_at : Bus → ℕ → Ppu → ℕ → Ppu
unfolding ppu_render_bg_affine
affine_at bus prio ppu bg =
    if not (test_bit ppu.dispcnt (8 + bg)) || not (ppu.bg_cnt bg % 2 ^ 2 == prio)
    then ppu
    else ppu_render_bg_affine bus ppu bg

-- The sprites of a priority over the layers below
abbrev sprites_at : Bus → ℕ → Ppu → Ppu
sprites_at bus prio ppu =
    if test_bit ppu.dispcnt 12 then ppu_render_sprites_at_priority bus ppu prio else ppu

-- The layers of one priority, in the three tiled modes
unfoldable pub mode0_at : Bus → Ppu → ℕ → Ppu
unfolding regular_at
mode0_at bus ppu prio = sprites_at bus prio (
    regular_at bus prio (regular_at bus prio (regular_at bus prio (regular_at bus prio ppu 3) 2) 1)
      0)

unfoldable pub mode1_at : Bus → Ppu → ℕ → Ppu
unfolding regular_at affine_at
mode1_at bus ppu prio =
    sprites_at bus prio (regular_at bus prio (regular_at bus prio (affine_at bus prio ppu 2) 1) 0)

unfoldable pub mode2_at : Bus → Ppu → ℕ → Ppu
unfolding affine_at
mode2_at bus ppu prio = sprites_at bus prio (affine_at bus prio (affine_at bus prio ppu 3) 2)

-- `for (int prio = 3; prio >= 0; prio--)`
abbrev by_priority : (Ppu → ℕ → Ppu) → Ppu → Ppu
by_priority layers ppu = layers (layers (layers (layers ppu 3) 2) 1) 0

-- The sprites over a bitmap
abbrev sprites_over : Bus → Ppu → Ppu
sprites_over bus ppu = if test_bit ppu.dispcnt 12 then ppu_render_sprites bus ppu else ppu

-- `switch (mode)`
unfoldable pub render_mode : Bus → ℕ → Ppu → Ppu
unfolding mode0_at mode1_at mode2_at
render_mode bus mode ppu =
    if mode == 0
    then by_priority (mode0_at bus) ppu
    else if mode == 1
    then by_priority (mode1_at bus) ppu
    else if mode == 2
    then by_priority (mode2_at bus) ppu
    else if mode == 3
    then sprites_over bus (ppu_render_mode3 bus ppu)
    else if mode == 4
    then sprites_over bus (ppu_render_mode4 bus ppu)
    else if mode == 5
    then sprites_over bus (ppu_render_mode5 bus ppu)
    else ppu

-- "Advance affine internal reference points for the next scanline."
unfoldable pub advance_refs : Ppu → Ppu
unfolding sign16
advance_refs ppu = record ppu {
  bg_ref_x =
      update (update ppu.bg_ref_x 0 (u32 (ppu.bg_ref_x 0 + sign16 (ppu.bg_pb 0)))) 1
        (u32 (ppu.bg_ref_x 1 + sign16 (ppu.bg_pb 1)));
  bg_ref_y =
      update (update ppu.bg_ref_y 0 (u32 (ppu.bg_ref_y 0 + sign16 (ppu.bg_pd 0)))) 1
        (u32 (ppu.bg_ref_y 1 + sign16 (ppu.bg_pd 1)));
}

-- "Forced blank (DISPCNT bit 7): display white when set"
unfoldable pub blank_line : Ppu → Ppu
unfolding show_line
blank_line ppu =
    show_line (record ppu { scanline_buffer = fill ppu.scanline_buffer 0 screen_width 0x7fff })

unfoldable pub ppu_render_scanline : Bus → Ppu → Ppu
unfolding blank_line fill_backdrop render_mode show_line advance_refs
ppu_render_scanline bus ppu =
    let layered = render_mode bus (ppu.dispcnt % 2 ^ 3) (fill_backdrop bus ppu) in
    if leb 160 ppu.vcount
    then ppu
    else if test_bit ppu.dispcnt 7
    then blank_line ppu
    else advance_refs (show_line (ppu_apply_blend_scanline layered))
