-- ===== src/Ppu/Regular.antt =====
-- The tiled backgrounds without rotation: `ppu_render_bg_regular` of src/ppu/background.c.
use gba_emulator.Base.{Bool, if◌then◌else◌, test_bit, ℕ, ◌%◌, ◌*◌, ◌+◌, ◌-◌, ◌/◌, ◌==◌, ◌^◌}
use gba_emulator.Bus.State.{Bus}
use gba_emulator.Ppu.State.{Ppu}
use gba_emulator.Ppu.Effects.{screen_width}
use gba_emulator.Ppu.Pixel.{halfword, vram_mirror, put_pixel, each_pixel}

-- "Tile data base address" and "Tilemap base address"
unfoldable pub char_base : ℕ → ℕ
char_base bgcnt = bgcnt / 2 ^ 2 % 2 ^ 2 * 0x4000

unfoldable pub screen_base : ℕ → ℕ
screen_base bgcnt = bgcnt / 2 ^ 8 % 2 ^ 5 * 0x800

-- "Determine map dimensions in pixels from screen_size"
unfoldable pub map_width : ℕ → ℕ
map_width bgcnt = if test_bit bgcnt 14 then 512 else 256

unfoldable pub map_height : ℕ → ℕ
map_height bgcnt = if test_bit bgcnt 15 then 512 else 256

-- "Read tilemap entry": its address
unfoldable pub map_address : ℕ → ℕ → ℕ → ℕ
unfolding screen_base
map_address bgcnt map_x map_y =
    let tile_col = map_x / 8 in
    let tile_row = map_y / 8 in
    let sbb_width = if test_bit bgcnt 14 then 2 else 1 in
    let block_offset = tile_row / 32 * sbb_width + tile_col / 32 in
    screen_base bgcnt + block_offset * 0x800 + (tile_row % 32 * 32 + tile_col % 32) * 2

-- "Apply vertical flip", "Apply horizontal flip"
unfoldable pub flip : Bool → ℕ → ℕ
flip flipped k = if flipped then 7 - k else k

-- The addresses of a pixel of a tile, in the two colour modes
unfoldable pub tile_address4 : ℕ → ℕ → ℕ → ℕ → ℕ
unfolding char_base vram_mirror
tile_address4 bgcnt tile_num tx ty = vram_mirror (char_base bgcnt + tile_num * 32 + ty * 4 + tx / 2)

unfoldable pub tile_address8 : ℕ → ℕ → ℕ → ℕ → ℕ
unfolding char_base vram_mirror
tile_address8 bgcnt tile_num tx ty = vram_mirror (char_base bgcnt + tile_num * 64 + ty * 8 + tx)

-- "Low nibble = left pixel (even x), high nibble = right pixel (odd x)"
unfoldable pub nibble : ℕ → ℕ → ℕ
nibble byte tx = if tx % 2 == 1 then byte / 2 ^ 4 % 2 ^ 4 else byte % 2 ^ 4

-- The colour index of a pixel and the offset of its colour in the palette
unfoldable pub tile_color : Bus → ℕ → ℕ → ℕ → ℕ → ℕ × ℕ
unfolding tile_address4 tile_address8 nibble
tile_color bus bgcnt tile_entry tx ty =
    let tile_num = tile_entry % 2 ^ 10 in
    let pal_num = tile_entry / 2 ^ 12 % 2 ^ 4 in
    let low = nibble (bus.vram (tile_address4 bgcnt tile_num tx ty)) tx in
    let full = bus.vram (tile_address8 bgcnt tile_num tx ty) in
    if test_bit bgcnt 7 then (full, full * 2) else (low, (pal_num * 16 + low) * 2)

unfoldable pub regular_pixel : Bus → ℕ → Ppu → ℕ → Ppu
unfolding map_width map_height map_address flip tile_color put_pixel vram_mirror
regular_pixel bus bg_index ppu screen_x =
    let bgcnt = ppu.bg_cnt bg_index in
    let map_x = (screen_x + ppu.bg_hofs bg_index % 2 ^ 9) % map_width bgcnt in
    let map_y = (ppu.vcount + ppu.bg_vofs bg_index % 2 ^ 9) % map_height bgcnt in
    let tile_entry = halfword bus.vram (vram_mirror (map_address bgcnt map_x map_y)) in
    let tx = flip (test_bit tile_entry 10) (map_x % 8) in
    let ty = flip (test_bit tile_entry 11) (map_y % 8) in
    let (color_idx, pal_offset) = tile_color bus bgcnt tile_entry tx ty in
    if color_idx == 0
    then ppu
    else put_pixel ppu screen_x (halfword bus.palette_ram pal_offset) bg_index

unfoldable pub ppu_render_bg_regular : Bus → Ppu → ℕ → Ppu
unfolding regular_pixel each_pixel
ppu_render_bg_regular bus ppu bg_index = each_pixel (regular_pixel bus bg_index) screen_width ppu
