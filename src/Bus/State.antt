-- ===== src/Bus/State.antt =====
-- `struct Bus` of src/memory/bus.h, less its pointers to the other parts: `gba_init` sets them all,
-- and the parts stand beside the bus in `Gba`. Memories are functions of the index.
use gba_emulator.Base.{Bool, fill, true, ℕ}

pub record Bus : Type 0 where
  pub bios : ℕ → ℕ
  pub ewram : ℕ → ℕ
  pub iwram : ℕ → ℕ
  pub io_regs : ℕ → ℕ
  pub palette_ram : ℕ → ℕ
  pub vram : ℕ → ℕ
  pub oam : ℕ → ℕ
  pub open_bus : ℕ
  pub bios_readable : Bool
  pub last_bios_read : ℕ

abbrev pub bios_size : ℕ
bios_size = 0x4000

abbrev pub ewram_size : ℕ
ewram_size = 0x40000

abbrev pub iwram_size : ℕ
iwram_size = 0x8000

abbrev pub io_size : ℕ
io_size = 0x400

abbrev pub palette_size : ℕ
palette_size = 0x400

abbrev pub vram_size : ℕ
vram_size = 0x18000

abbrev pub oam_size : ℕ
oam_size = 0x400

unfoldable pub bus_init : Bus → Bus
bus_init bus = record {
  bios = fill bus.bios 0 bios_size 0;
  ewram = fill bus.ewram 0 ewram_size 0;
  iwram = fill bus.iwram 0 iwram_size 0;
  io_regs = fill bus.io_regs 0 io_size 0;
  palette_ram = fill bus.palette_ram 0 palette_size 0;
  vram = fill bus.vram 0 vram_size 0;
  oam = fill bus.oam 0 oam_size 0;
  open_bus = 0;
  bios_readable = true;
  last_bios_read = 0;
}
