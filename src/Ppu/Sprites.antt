-- ===== src/Ppu/Sprites.antt =====
-- The sprites: src/ppu/sprites.c. Signed coordinates are their 32-bit patterns.
pub mod Bounds
use gba_emulator.Base.{
  Bool, List, [], bit_or, entry, if◌then◌else◌, leb, ltb, not, sub32, suc, test_bit, u16, u32, zero,
  ℕ, ◌%◌, ◌*◌, ◌+◌, ◌-◌, ◌/◌, ◌==◌, ◌^◌, ◌||◌, ◌∷◌,
}
use gba_emulator.Bus.State.{Bus}
use gba_emulator.Ppu.State.{Ppu}
use gba_emulator.Ppu.Effects.{screen_width}
use gba_emulator.Ppu.Pixel.{halfword, vram_mirror, put_pixel, each_pixel}

abbrev pub oam_entry_count : ℕ
oam_entry_count = 128

abbrev pub obj_tile_base : ℕ
obj_tile_base = 0x10000

abbrev pub obj_palette_base : ℕ
obj_palette_base = 0x200

-- "Sprite dimensions lookup table: [shape][size]"
abbrev sprite_widths : List (List ℕ)
sprite_widths = (8 ∷ 16 ∷ 32 ∷ 64 ∷ []) ∷ (16 ∷ 32 ∷ 32 ∷ 64 ∷ []) ∷ (8 ∷ 8 ∷ 16 ∷ 32 ∷ []) ∷ []

abbrev sprite_heights : List (List ℕ)
sprite_heights = (8 ∷ 16 ∷ 32 ∷ 64 ∷ []) ∷ (8 ∷ 8 ∷ 16 ∷ 32 ∷ []) ∷ (16 ∷ 32 ∷ 32 ∷ 64 ∷ []) ∷ []

unfoldable pub sprite_width : ℕ → ℕ → ℕ
sprite_width shape size = entry 0 (entry [] sprite_widths shape) size

unfoldable pub sprite_height : ℕ → ℕ → ℕ
sprite_height shape size = entry 0 (entry [] sprite_heights shape) size

-- The three attributes of a sprite
pub record Sprite : Type 0 where
  pub attr0 : ℕ
  pub attr1 : ℕ
  pub attr2 : ℕ

unfoldable pub read_sprite : Bus → ℕ → Sprite
read_sprite bus i = record {
  attr0 = halfword bus.oam (i * 8);
  attr1 = halfword bus.oam (i * 8 + 2);
  attr2 = halfword bus.oam (i * 8 + 4);
}

unfoldable pub width : Sprite → ℕ
unfolding sprite_width
width s = sprite_width (s.attr0 / 2 ^ 14 % 2 ^ 2) (s.attr1 / 2 ^ 14 % 2 ^ 2)

unfoldable pub height : Sprite → ℕ
unfolding sprite_height
height s = sprite_height (s.attr0 / 2 ^ 14 % 2 ^ 2) (s.attr1 / 2 ^ 14 % 2 ^ 2)

abbrev pub color_8bpp : Sprite → Bool
color_8bpp s = test_bit s.attr0 13

-- "Values >= 160 are treated as negative"
unfoldable pub sprite_y : Sprite → ℕ
sprite_y s = let y = s.attr0 % 2 ^ 8 in if leb 160 y then sub32 y 256 else y

-- "9-bit signed via sign-extending bit 8"
unfoldable pub sprite_x : Sprite → ℕ
sprite_x s = let x = s.attr1 % 2 ^ 9 in if test_bit s.attr1 8 then bit_or x 0xfffffe00 else x

-- "In 8bpp mode, hardware forces tile number bit 0 to 0"
unfoldable pub base_tile : Sprite → ℕ
base_tile s = let tile = s.attr2 % 2 ^ 10 in if color_8bpp s then tile - tile % 2 else tile

-- "Compute the tile number for this pixel"
unfoldable pub tile_number : Bool → Sprite → ℕ → ℕ → ℕ
unfolding base_tile width
tile_number mapping_1d s tile_row tile_col =
    let base = base_tile s in
    if color_8bpp s
    then if mapping_1d
      then u16 (base + u16 (tile_row * (width s / 8) + tile_col) * 2)
      else u16 (base + u16 (tile_row * 32 + tile_col * 2))
    else if mapping_1d
    then u16 (base + u16 (tile_row * (width s / 8) + tile_col))
    else u16 (base + u16 (tile_row * 32 + tile_col))

-- The place of a pixel in the tiles
unfoldable pub sprite_address : Sprite → ℕ → ℕ → ℕ → ℕ
unfolding vram_mirror
sprite_address s tile_num pixel_row pixel_col =
    let tile_addr = obj_tile_base + tile_num * 32 in
    vram_mirror (
      if color_8bpp s
      then tile_addr + pixel_row * 8 + pixel_col
      else tile_addr + pixel_row * 4 + pixel_col / 2)

unfoldable pub sprite_color : Bus → Bool → Sprite → ℕ → ℕ → ℕ
unfolding tile_number sprite_address
sprite_color bus mapping_1d s tex_x tex_y =
    let tile_num = tile_number mapping_1d s (tex_y / 8) (tex_x / 8) in
    let byte = bus.vram (sprite_address s tile_num (tex_y % 8) (tex_x % 8)) in
    if color_8bpp s then byte else if tex_x % 8 % 2 == 1 then byte / 2 ^ 4 else byte % 2 ^ 4

-- "Look up the 15-bit BGR555 color from OBJ palette RAM"
unfoldable pub sprite_palette : Sprite → ℕ → ℕ
sprite_palette s color_idx =
    if color_8bpp s
    then obj_palette_base + color_idx * 2
    else obj_palette_base + (s.attr2 / 2 ^ 12 % 2 ^ 4 * 16 + color_idx) * 2

-- Pixel `px` of the row `tex_y` of a sprite
unfoldable pub sprite_pixel : Bus → Sprite → ℕ → Ppu → ℕ → Ppu
unfolding sprite_x width sprite_color sprite_palette put_pixel
sprite_pixel bus s tex_y ppu px =
    let screen_x = u32 (sprite_x s + px) in
    let tex_x = if test_bit s.attr1 12 then width s - 1 - px else px in
    let color_idx = sprite_color bus (test_bit ppu.dispcnt 6) s tex_x tex_y in
    if test_bit screen_x 31 || leb screen_width screen_x
    then ppu
    else if color_idx == 0
    then ppu
    else put_pixel ppu screen_x (halfword bus.palette_ram (sprite_palette s color_idx)) 4

-- The reasons to pass over a sprite, from its attributes
unfoldable pub is_skipped : Sprite → ℕ → Bool
is_skipped s priority =
    let obj_mode = s.attr0 / 2 ^ 8 % 2 ^ 2 in
    obj_mode == 2
    || obj_mode == 1
    || obj_mode == 3
    || not (s.attr2 / 2 ^ 10 % 2 ^ 2 == priority)
    || ltb 2 (s.attr0 / 2 ^ 14 % 2 ^ 2)

unfoldable pub render_sprite : Bus → ℕ → Ppu → ℕ → Ppu
unfolding read_sprite is_skipped sprite_y width height sprite_pixel each_pixel
render_sprite bus priority ppu i =
    let s = read_sprite bus i in
    let local_y = sub32 ppu.vcount (sprite_y s) in
    let tex_y = if test_bit s.attr1 13 then height s - 1 - local_y else local_y in
    let drawn = each_pixel (sprite_pixel bus s tex_y) (width s) ppu in
    if is_skipped s priority
    then ppu
    else if test_bit local_y 31 || leb (height s) local_y
    then ppu
    else drawn

-- The sprites below `n`, from the last one to the first
unfoldable pub sprites_below : Bus → ℕ → ℕ → Ppu → Ppu
unfolding render_sprite
sprites_below bus priority zero ppu = ppu
sprites_below bus priority (suc n) ppu =
    sprites_below bus priority n (render_sprite bus priority ppu n)

unfoldable pub ppu_render_sprites_at_priority : Bus → Ppu → ℕ → Ppu
unfolding sprites_below
ppu_render_sprites_at_priority bus ppu priority =
    if not (test_bit ppu.dispcnt 12) then ppu else sprites_below bus priority oam_entry_count ppu

unfoldable pub ppu_render_sprites : Bus → Ppu → Ppu
unfolding ppu_render_sprites_at_priority
ppu_render_sprites bus ppu =
    let p3 = ppu_render_sprites_at_priority bus ppu 3 in
    let p2 = ppu_render_sprites_at_priority bus p3 2 in
    let p1 = ppu_render_sprites_at_priority bus p2 1 in ppu_render_sprites_at_priority bus p1 0
