-- ===== src/Ppu/Pixel.antt =====
-- What the renderers of src/ppu share: the memories that they read, which are those of the bus, the
-- loop over the pixels of a line, and the write of a pixel over the one below it.
use gba_emulator.Base.{if◌then◌else◌, leb, suc, update, zero, ℕ, ◌*◌, ◌+◌, ◌-◌, ◌^◌}
use gba_emulator.Bus.State.{vram_size}
use gba_emulator.Ppu.State.{Ppu}

-- "VRAM is 96KB."
unfoldable pub vram_mirror : ℕ → ℕ
vram_mirror offset = if leb vram_size offset then offset - 0x8000 else offset

-- Two bytes of a memory, little-endian
abbrev pub halfword : (ℕ → ℕ) → ℕ → ℕ
halfword memory offset = memory offset + memory (offset + 1) * 2 ^ 8

-- "push current top pixel down to second"
unfoldable pub put_pixel : Ppu → ℕ → ℕ → ℕ → Ppu
put_pixel ppu x color layer = record ppu {
  second_pixel = update ppu.second_pixel x (ppu.scanline_buffer x);
  second_layer = update ppu.second_layer x (ppu.top_layer x);
  scanline_buffer = update ppu.scanline_buffer x color;
  top_layer = update ppu.top_layer x layer;
}

-- `for (x = 0; x < n; x++)`
unfoldable pub each_pixel : (Ppu → ℕ → Ppu) → ℕ → Ppu → Ppu
each_pixel draw zero ppu = ppu
each_pixel draw (suc n) ppu = draw (each_pixel draw n ppu) n
