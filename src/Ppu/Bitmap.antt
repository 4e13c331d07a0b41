-- ===== src/Ppu/Bitmap.antt =====
-- The bitmap modes: src/ppu/bitmap.c.
use gba_emulator.Base.{if◌then◌else◌, leb, not, test_bit, ℕ, ◌*◌, ◌+◌}
use gba_emulator.Bus.State.{Bus}
use gba_emulator.Ppu.State.{Ppu}
use gba_emulator.Ppu.Effects.{screen_width}
use gba_emulator.Ppu.Pixel.{halfword, put_pixel, each_pixel}

-- A pixel of a direct colour, from the row at `base`
unfoldable pub direct_pixel : Bus → ℕ → Ppu → ℕ → Ppu
unfolding put_pixel
direct_pixel bus base ppu x = put_pixel ppu x (halfword bus.vram (base + x * 2)) 2

unfoldable pub ppu_render_mode3 : Bus → Ppu → Ppu
unfolding direct_pixel each_pixel
ppu_render_mode3 bus ppu =
    if not (test_bit ppu.dispcnt 10)
    then ppu
    else each_pixel (direct_pixel bus (ppu.vcount * screen_width * 2)) screen_width ppu

-- "DISPCNT bit 4 selects the page"
unfoldable pub page_base : Ppu → ℕ
page_base ppu = if test_bit ppu.dispcnt 4 then 0xa000 else 0

unfoldable pub indexed_pixel : Bus → ℕ → Ppu → ℕ → Ppu
unfolding put_pixel
indexed_pixel bus row_offset ppu x =
    put_pixel ppu x (halfword bus.palette_ram (bus.vram (row_offset + x) * 2)) 2

unfoldable pub ppu_render_mode4 : Bus → Ppu → Ppu
unfolding page_base indexed_pixel each_pixel
ppu_render_mode4 bus ppu =
    if not (test_bit ppu.dispcnt 10)
    then ppu
    else each_pixel (indexed_pixel bus (page_base ppu + ppu.vcount * screen_width)) screen_width ppu

unfoldable pub ppu_render_mode5 : Bus → Ppu → Ppu
unfolding page_base direct_pixel each_pixel
ppu_render_mode5 bus ppu =
    if not (test_bit ppu.dispcnt 10)
    then ppu
    else if leb 128 ppu.vcount
    then ppu
    else each_pixel (direct_pixel bus (page_base ppu + ppu.vcount * 160 * 2)) 160 ppu
