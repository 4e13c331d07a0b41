-- ===== src/Bus/Tests.antt =====
-- The theorems on the bus at concrete states.
use gba_emulator.Base.{arith, refl, ℕ, ◌≡◌}
use gba_emulator.System.State.{Gba}
use gba_emulator.System.Rest.{at_rest, rest_cpu}
use gba_emulator.Bus.Memory.{
  decode_region, bus_read8, bus_read16, bus_read32, bus_write8, bus_write16, bus_write32,
}
use gba_emulator.Bus.Ram.{in_ram, memory, set_memory, offset_in}
use gba_emulator.Bus.Storage.{read-write_ram, write_ram_only}
use gba_emulator.Bus.Narrow.{written_by, read-write_byte, with_bios, bios_protected}
use gba_emulator.Bus.Io.Read.{io_read8}
use gba_emulator.Bus.Io.Control.{io_write8}
use gba_emulator.Bus.Io.Registers.{is_plain, io_read8-io_write8}
use gba_emulator.Bus.Io.Registers.Fit.{RegistersFit}

-- No DMA channel is started here.
abbrev no_dma : Gba → ℕ → ℕ → Gba
no_dma gba ch val = gba

-- An unaligned address, and a mirror of its word.
read-write_ram_example :
    ((bus_read32 (bus_write32 no_dma at_rest 0x02000005 0x01020304) 0x02040004).1 ≡ 0x01020304)
    × ((bus_read16 (bus_write16 no_dma at_rest 0x02000005 0x0506) 0x02040004).1 ≡ 0x0506)
unfolding decode_region offset_in
read-write_ram_example =
    read-write_ram no_dma at_rest 0x02000005 0x02040004 0x01020304 0x0506 (unfold in_ram in refl)
      (unfold in_ram in refl) (omega arith) (omega arith)

write_ram_only_example :
    (set_memory (bus_write32 no_dma at_rest 0x06018004 7) 6 (memory at_rest 6) ≡ at_rest)
    × (set_memory (bus_write16 no_dma at_rest 0x06018004 7) 6 (memory at_rest 6) ≡ at_rest)
    × ((bus_read32 at_rest 0x06018004).0 ≡ at_rest)
    × ((bus_read16 at_rest 0x06018004).0 ≡ at_rest)
    × ((bus_read8 at_rest 0x06018004).0 ≡ at_rest)
unfolding decode_region
write_ram_only_example = write_ram_only no_dma at_rest 0x06018004 7 (unfold in_ram in refl)

-- Both bytes of a halfword of palette RAM.
read-write_byte_example :
    (bus_read8 (bus_write8 no_dma at_rest 0x05000003 0x1f) 0x05000402).1 ≡ 0x1f
unfolding decode_region offset_in written_by
read-write_byte_example =
    read-write_byte no_dma at_rest 0x05000003 0x05000402 0x1f (unfold in_ram in refl)
      (unfold in_ram in refl)

-- In the ROM, with a word that was read before.
abbrev in_rom : Gba
in_rom = record at_rest { cpu = record rest_cpu { regs = λ r. 0x08000100 } }

bios_protected_example :
    let other = with_bios in_rom (λ o. o) in
    ((bus_read8 other 2).1 ≡ (bus_read8 in_rom 2).1)
    × ((bus_read16 other 2).1 ≡ (bus_read16 in_rom 2).1)
    × ((bus_read32 other 2).1 ≡ (bus_read32 in_rom 2).1)
    × ((bus_read8 in_rom 2).0 ≡ in_rom)
    × ((bus_read16 in_rom 2).0 ≡ in_rom)
    × ((bus_read32 in_rom 2).0 ≡ in_rom)
bios_protected_example = bios_protected in_rom 2 (λ o. o) (omega arith)

rest-RegistersFit : RegistersFit at_rest
rest-RegistersFit = record {
  dispcnt_fits = omega arith;
  bg_cnt_fits = λ i. omega arith;
  soundcnt_l_fits = omega arith;
  soundbias_fits = omega arith;
  keycnt_fits = omega arith;
  ie_fits = omega arith;
}

-- BG1CNT
io_read8-io_write8_example : io_read8 (io_write8 no_dma at_rest 0x0400000b 0x5a) 0x0400000b ≡ 0x5a
io_read8-io_write8_example =
    io_read8-io_write8 no_dma at_rest 0x0400000b 0x5a rest-RegistersFit (omega arith)
      (unfold is_plain in refl)
