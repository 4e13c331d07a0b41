-- ===== src/Ppu/Tests.antt =====
-- The theorems on the picture unit at concrete states.
use gba_emulator.Base.{arith, false, refl, ◌%◌, ◌+◌, ◌<◌, ◌≡◌}
use gba_emulator.System.Rest.{rest_bus}
use gba_emulator.Bus.State.{Bus, vram_size}
use gba_emulator.Ppu.Pixel.{each_pixel, vram_mirror}
use gba_emulator.Ppu.Regular.{map_address, tile_address4, tile_address8}
use gba_emulator.Ppu.Sprites.{Sprite, tile_number, sprite_address, sprite_palette}
use gba_emulator.Ppu.Sprites.Bounds.{renderers_in_bounds}
use gba_emulator.Ppu.Affine.{ppu_render_bg_affine}
use gba_emulator.Ppu.Affine.Walk.{transformed_pixel, ppu_render_bg_affine_lem}
use gba_emulator.Ppu.Scanline.{ppu_render_scanline}
use gba_emulator.Ppu.Scanline.Mode3.{mode3_line}
use gba_emulator.Ppu.State.{Ppu}
use gba_emulator.Ppu.Effects.{ppu_apply_blend_scanline}
use gba_emulator.Ppu.Effects.Channels.{channel, blended, ppu_apply_blend_scanline-channel}

abbrev display : Ppu
display = record {
  dispcnt = 0;
  dispstat = 0;
  vcount = 0;
  bg_cnt = λ _. 0;
  bg_hofs = λ _. 0;
  bg_vofs = λ _. 0;
  bg_pa = λ _. 0;
  bg_pb = λ _. 0;
  bg_pc = λ _. 0;
  bg_pd = λ _. 0;
  bg_ref_x = λ _. 0;
  bg_ref_y = λ _. 0;
  bg_ref_x_latch = λ _. 0;
  bg_ref_y_latch = λ _. 0;
  win_h = λ _. 0;
  win_v = λ _. 0;
  winin = 0;
  winout = 0;
  bldcnt = 0x1e61;
  bldalpha = 0x1010;
  bldy = 0;
  mosaic = 0;
  framebuffer = λ _. 0;
  scanline_buffer = λ _. 0x001e;
  top_layer = λ _. 0;
  second_pixel = λ _. 0x0405;
  second_layer = λ _. 1;
  cycle_counter = 0;
}

-- A sum of two layers that runs over in red
ppu_apply_blend_scanline-channel_example :
    channel 0 ((ppu_apply_blend_scanline display).scanline_buffer 3) ≡ 31
unfolding blended
ppu_apply_blend_scanline-channel_example =
    ppu_apply_blend_scanline-channel display 3 0 (omega arith)

abbrev video : Bus
video = record rest_bus { vram = λ i. i % 256 }

-- Mode 3 with background 2, on line 5
abbrev picture : Ppu
picture = record display { dispcnt = 0x403; bldcnt = 0; vcount = 5 }

mode3_line_example : (ppu_render_scanline video picture).framebuffer 1207 ≡ 28526
mode3_line_example = mode3_line video picture 1207 refl refl refl refl refl (omega arith)

-- Background 2 turned by a quarter, from the point (3, -2)
abbrev turned : Ppu
turned = record display {
  bg_cnt = λ _. 0x2004;
  bg_pa = λ _. 0;
  bg_pc = λ _. 0xff00;
  bg_ref_x = λ _. 0x300;
  bg_ref_y = λ _. 0xfffffe00;
}

ppu_render_bg_affine_lem_example :
    ppu_render_bg_affine video turned 2 ≡ each_pixel (transformed_pixel video 2 turned) 240 turned
ppu_render_bg_affine_lem_example =
    ppu_render_bg_affine_lem video turned 2 (omega arith) (omega arith)

-- The last tile of the last row of a sprite of 64 by 64
abbrev sprite : Sprite
sprite = record { attr0 = 0; attr1 = 0xc000; attr2 = 0x3ff }

renderers_in_bounds_example :
    (vram_mirror (map_address 0xffff 511 511) + 1 < vram_size)
    × (tile_address4 0xffff 1023 7 7 < vram_size)
    × (tile_address8 0xffff 1023 7 7 < vram_size)
    × (sprite_address sprite (tile_number false sprite 7 7) 7 7 < vram_size)
    × (sprite_palette sprite 15 + 1 < 0x400)
renderers_in_bounds_example =
    renderers_in_bounds 0xffff 511 511 1023 7 7 false sprite 63 63 15 (omega arith) (omega arith)
      (omega arith) (omega arith) (omega arith) (omega arith) (omega arith) (omega arith)
