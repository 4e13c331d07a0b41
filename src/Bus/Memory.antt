-- ===== src/Bus/Memory.antt =====
-- The address decoding of src/memory/bus.c: reads and writes of 8, 16 and 32 bits.
--
-- C leaves the order of the operands of `|` open; the bytes are read in the order written here.
use gba_emulator.Base.{
  if◌then◌else◌, leb, ltb, not, u8, update, ℕ, ◌%◌, ◌&&◌, ◌*◌, ◌+◌, ◌-◌, ◌/◌, ◌==◌, ◌^◌, ◌||◌,
}
use gba_emulator.System.State.{Gba, set_apu}
use gba_emulator.Cpu.State.{reg_pc}
use gba_emulator.Bus.State.{
  bios_size, ewram_size, iwram_size, io_size, palette_size, vram_size, oam_size,
}
use gba_emulator.Bus.Bytes.{join2, join4, word_at}
use gba_emulator.Bus.Io.Read.{io_read8}
use gba_emulator.Bus.Io.Control.{io_write8}
use gba_emulator.Cartridge.Memory.{cartridge_read8, cartridge_write8}
use gba_emulator.Apu.Fifo.{apu_fifo_write}

unfoldable pub decode_region : ℕ → ℕ
decode_region addr = addr / 2 ^ 24 % 2 ^ 8

unfoldable pub vram_offset : ℕ → ℕ
vram_offset addr = let off = addr % 0x20000 in if leb vram_size off then off - 0x8000 else off

-- "BIOS protection": outside the BIOS the cached word is read.
unfoldable pub read_bios : Gba → ℕ → Gba × ℕ
read_bios gba addr =
    let bus = gba.bus in
    if not (ltb addr bios_size)
    then (gba, 0)
    else if leb (bios_size + 8) (gba.cpu.regs reg_pc)
    then (gba, u8 (bus.last_bios_read / 2 ^ (addr % 4 * 8)))
    else (
      record gba { bus = record bus { last_bios_read = word_at bus.bios (addr / 4 * 4) } },
      bus.bios addr,
    )

-- The other regions: a read changes nothing.
unfoldable pub read_region : Gba → ℕ → ℕ → ℕ
unfolding vram_offset
read_region gba region addr =
    let bus = gba.bus in
    if region == 0x02
    then bus.ewram (addr % ewram_size)
    else if region == 0x03
    then bus.iwram (addr % iwram_size)
    else if region == 0x04
    then if ltb (addr % 2 ^ 24) io_size then io_read8 gba addr else 0
    else if region == 0x05
    then bus.palette_ram (addr % palette_size)
    else if region == 0x06
    then bus.vram (vram_offset addr)
    else if region == 0x07
    then bus.oam (addr % oam_size)
    else if leb 0x08 region && leb region 0x0f
    then cartridge_read8 gba.cart addr
    else u8 bus.open_bus

unfoldable pub bus_read8 : Gba → ℕ → Gba × ℕ
unfolding decode_region read_bios read_region
bus_read8 gba addr =
    let region = decode_region addr in
    if region == 0 then read_bios gba addr else (gba, read_region gba region addr)

unfoldable pub bus_read16 : Gba → ℕ → Gba × ℕ
bus_read16 gba addr =
    let at = addr / 2 * 2 in
    let (gba1, b0) = bus_read8 gba at in
    let (gba2, b1) = bus_read8 gba1 (at + 1) in (gba2, join2 b0 b1)

unfoldable pub bus_read32 : Gba → ℕ → Gba × ℕ
bus_read32 gba addr =
    let at = addr / 4 * 4 in
    let (gba1, b0) = bus_read8 gba at in
    let (gba2, b1) = bus_read8 gba1 (at + 1) in
    let (gba3, b2) = bus_read8 gba2 (at + 2) in
    let (gba4, b3) = bus_read8 gba3 (at + 3) in (gba4, join4 b0 b1 b2 b3)

-- The arrays of the bus.
abbrev pub set_ewram : Gba → (ℕ → ℕ) → Gba
set_ewram gba m = record gba { bus = record gba.bus { ewram = m } }

abbrev pub set_iwram : Gba → (ℕ → ℕ) → Gba
set_iwram gba m = record gba { bus = record gba.bus { iwram = m } }

abbrev pub set_palette_ram : Gba → (ℕ → ℕ) → Gba
set_palette_ram gba m = record gba { bus = record gba.bus { palette_ram = m } }

abbrev pub set_vram : Gba → (ℕ → ℕ) → Gba
set_vram gba m = record gba { bus = record gba.bus { vram = m } }

abbrev pub set_oam : Gba → (ℕ → ℕ) → Gba
set_oam gba m = record gba { bus = record gba.bus { oam = m } }

-- `m[off] = b0; m[off + 1] = b1`
abbrev pub write_two : (ℕ → ℕ) → ℕ → ℕ → ℕ → ℕ → ℕ
write_two m off b0 b1 = update (update m off b0) (off + 1) b1

-- The loop over the four bytes of a word; `resolve` gives the offset of an address.
unfoldable pub write_four : (ℕ → ℕ) → (ℕ → ℕ) → ℕ → ℕ → ℕ → ℕ
write_four resolve m addr val =
    let m0 = update m (resolve addr) (u8 val) in
    let m1 = update m0 (resolve (addr + 1)) (u8 (val / 2 ^ 8)) in
    let m2 = update m1 (resolve (addr + 2)) (u8 (val / 2 ^ 16)) in
    update m2 (resolve (addr + 3)) (u8 (val / 2 ^ 24))

module _ (dma_write_control : Gba → ℕ → ℕ → Gba) where
  unfoldable pub bus_write8 : Gba → ℕ → ℕ → Gba
  unfolding decode_region vram_offset
  bus_write8 gba addr val =
      let bus = gba.bus in
      let region = decode_region addr in
      let written = io_write8 dma_write_control gba addr val in
      let pal_offset = addr % palette_size / 2 * 2 in
      let off = vram_offset addr / 2 * 2 in
      if region == 0x02
      then set_ewram gba (update bus.ewram (addr % ewram_size) val)
      else if region == 0x03
      then set_iwram gba (update bus.iwram (addr % iwram_size) val)
      else if region == 0x04
      then if ltb (addr % 2 ^ 24) io_size then written else gba
      else if region == 0x05
      then set_palette_ram gba (write_two bus.palette_ram pal_offset val val)
      else if region == 0x06
      then set_vram gba (write_two bus.vram off val val)
      else if region == 0x0e || region == 0x0f
      then record gba { cart = cartridge_write8 gba.cart addr val }
      else gba

  unfoldable pub bus_write16 : Gba → ℕ → ℕ → Gba
  unfolding decode_region vram_offset
  bus_write16 gba addr val =
      let at = addr / 2 * 2 in
      let bus = gba.bus in
      let region = decode_region at in
      let low = u8 val in
      let high = u8 (val / 2 ^ 8) in
      if region == 0x05
      then set_palette_ram gba (write_two bus.palette_ram (at % palette_size) low high)
      else if region == 0x06
      then set_vram gba (write_two bus.vram (vram_offset at) low high)
      else if region == 0x07
      then set_oam gba (write_two bus.oam (at % oam_size) low high)
      else bus_write8 (bus_write8 gba at low) (at + 1) high

  -- A word as four writes of a byte
  unfoldable pub write_bytes : Gba → ℕ → ℕ → Gba
  write_bytes gba at val =
      let gba1 = bus_write8 gba at (u8 val) in
      let gba2 = bus_write8 gba1 (at + 1) (u8 (val / 2 ^ 8)) in
      let gba3 = bus_write8 gba2 (at + 2) (u8 (val / 2 ^ 16)) in
      bus_write8 gba3 (at + 3) (u8 (val / 2 ^ 24))

  unfoldable pub bus_write32 : Gba → ℕ → ℕ → Gba
  unfolding decode_region vram_offset write_four write_bytes
  bus_write32 gba addr val =
      let at = addr / 4 * 4 in
      let bus = gba.bus in
      let region = decode_region at in
      let io_addr = at % 2 ^ 24 in
      if region == 0x04 && io_addr == 0xa0
      then set_apu gba (apu_fifo_write gba.apu 0 val)
      else if region == 0x04 && io_addr == 0xa4
      then set_apu gba (apu_fifo_write gba.apu 1 val)
      else if region == 0x05
      then set_palette_ram gba (write_four (λ a. a % palette_size) bus.palette_ram at val)
      else if region == 0x06
      then set_vram gba (write_four vram_offset bus.vram at val)
      else if region == 0x07
      then set_oam gba (write_four (λ a. a % oam_size) bus.oam at val)
      else write_bytes gba at val
