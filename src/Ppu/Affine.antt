-- ===== src/Ppu/Affine.antt =====
-- The rotated and scaled backgrounds: `ppu_render_bg_affine` of src/ppu/background.c, and
-- src/ppu/affine.c. Signed numbers are their 32-bit patterns, the matrix entries of 16 bits; signed
-- sums and products wrap.
pub mod Walk
use gba_emulator.Base.{
  Bool, if◌then◌else◌, leb, sign16, sub32, suc, test_bit, u32, zero, ℕ, ◌%◌, ◌*◌, ◌+◌, ◌-◌, ◌/◌,
  ◌==◌, ◌^◌, ◌||◌,
}
use gba_emulator.Cpu.Shifter.{asr32}
use gba_emulator.Cpu.Bios.Arith.{rem32}
use gba_emulator.Bus.State.{Bus}
use gba_emulator.Ppu.State.{Ppu}
use gba_emulator.Ppu.Effects.{screen_width}
use gba_emulator.Ppu.Pixel.{halfword, vram_mirror, put_pixel}
use gba_emulator.Ppu.Regular.{char_base, screen_base}

-- `ppu_affine_transform`: its results `*tex_x` and `*tex_y`, for which it does not read PB and PD
unfoldable pub ppu_affine_transform : ℕ → ℕ → ℕ → ℕ → ℕ → ℕ × ℕ
unfolding sign16
ppu_affine_transform pa pc ref_x ref_y screen_x =
    (u32 (ref_x + sign16 pa * screen_x), u32 (ref_y + sign16 pc * screen_x))

unfoldable pub ppu_affine_sprite_transform : ℕ → ℕ → ℕ → ℕ → ℕ → ℕ → ℕ → ℕ → ℕ × ℕ
unfolding sign16 asr32
ppu_affine_sprite_transform pa pb pc pd cx cy screen_x screen_y =
    let dx = sub32 screen_x cx in
    let dy = sub32 screen_y cy in
    let tex_x = asr32 (u32 (sign16 pa * dx + sign16 pb * dy)) 8 in
    let tex_y = asr32 (u32 (sign16 pc * dx + sign16 pd * dy)) 8 in
    (u32 (tex_x + cx), u32 (tex_y + cy))

-- "Affine map dimensions": `size_lut`
unfoldable pub tiles_per_side : ℕ → ℕ
tiles_per_side bgcnt = 16 * 2 ^ (bgcnt / 2 ^ 14 % 2 ^ 2)

-- "Modulo that handles negative values correctly"
unfoldable pub wrap_texture : ℕ → ℕ → ℕ
unfolding rem32
wrap_texture tex size = rem32 (u32 (rem32 tex size + size)) size

-- A pixel of the map, from its place
unfoldable pub texel : Bus → ℕ → ℕ → ℕ → ℕ
unfolding char_base screen_base tiles_per_side vram_mirror
texel bus bgcnt tex_x tex_y =
    let map_entry_addr = screen_base bgcnt + tex_y / 8 * tiles_per_side bgcnt + tex_x / 8 in
    let tile_num = bus.vram (vram_mirror map_entry_addr) in
    bus.vram (vram_mirror (char_base bgcnt + tile_num * 64 + tex_y % 8 * 8 + tex_x % 8))

-- The pixel at that place, where it is not transparent
unfoldable pub draw_texel : Bus → ℕ → Ppu → ℕ → ℕ → ℕ → Ppu
unfolding texel put_pixel
draw_texel bus bg_index ppu tex_x tex_y screen_x =
    let pixel = texel bus (ppu.bg_cnt bg_index) tex_x tex_y in
    if pixel == 0
    then ppu
    else put_pixel ppu screen_x (halfword bus.palette_ram (pixel * 2)) bg_index

unfoldable pub is_outside : ℕ → ℕ → Bool
is_outside tex size = test_bit tex 31 || leb size tex

unfoldable pub affine_pixel : Bus → ℕ → Ppu → ℕ → ℕ → ℕ → Ppu
unfolding asr32 wrap_texture tiles_per_side draw_texel is_outside
affine_pixel bus bg_index ppu px py screen_x =
    let bgcnt = ppu.bg_cnt bg_index in
    let size = tiles_per_side bgcnt * 8 in
    let tex_x = asr32 px 8 in
    let tex_y = asr32 py 8 in
    if test_bit bgcnt 13
    then draw_texel bus bg_index ppu (wrap_texture tex_x size) (wrap_texture tex_y size) screen_x
    else if is_outside tex_x size || is_outside tex_y size
    then ppu
    else draw_texel bus bg_index ppu tex_x tex_y screen_x

-- `left` pixels from `screen_x` on, with the texture coordinates `px` and `py`
unfoldable pub affine_loop : Bus → ℕ → ℕ → Ppu → ℕ → ℕ → ℕ → Ppu
unfolding affine_pixel sign16
affine_loop bus bg_index zero ppu px py screen_x = ppu
affine_loop bus bg_index (suc left) ppu px py screen_x =
    let pa = sign16 (ppu.bg_pa (bg_index - 2)) in
    let pc = sign16 (ppu.bg_pc (bg_index - 2)) in
    affine_loop bus bg_index left (affine_pixel bus bg_index ppu px py screen_x) (u32 (px + pa))
      (u32 (py + pc)) (screen_x + 1)

-- `bg_index` is 2 or 3.
unfoldable pub ppu_render_bg_affine : Bus → Ppu → ℕ → Ppu
unfolding affine_loop
ppu_render_bg_affine bus ppu bg_index =
    affine_loop bus bg_index screen_width ppu (ppu.bg_ref_x (bg_index - 2))
      (ppu.bg_ref_y (bg_index - 2)) 0
