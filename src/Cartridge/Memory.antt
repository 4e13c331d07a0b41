-- ===== src/Cartridge/Memory.antt =====
-- The cartridge on the bus: `cartridge_read8` and `cartridge_write8` of src/cartridge/cartridge.c.
use gba_emulator.Base.{
  arith, if◌then◌else◌, inl, inr, leb, ltb, refl, update, ℕ, ◌%◌, ◌&&◌, ◌<◌, ◌==◌, ◌^◌, ◌≡◌, ◌≤◌,
  ◌⊎◌,
}
use gba_emulator.Cartridge.Flash
use gba_emulator.Cartridge.Flash.{FlashChip, flash_read}
use gba_emulator.Cartridge.Chip.{
  Cartridge, SaveType, save_none, save_sram, save_flash64, save_flash128, save_eeprom,
}

read_save : SaveType → Cartridge → ℕ → ℕ
read_save save_sram cart offset = cart.sram (offset % 0x8000)
read_save save_flash64 cart offset = flash_read cart.flash offset
read_save save_flash128 cart offset = flash_read cart.flash offset
read_save _ cart offset = 0

unfoldable pub cartridge_read8 : Cartridge → ℕ → ℕ
unfolding read_save
cartridge_read8 cart addr =
    if leb 0x08000000 addr && ltb addr 0x0e000000
    then if ltb (addr % 2 ^ 25) cart.rom_size then cart.rom (addr % 2 ^ 25) else 0
    else if leb 0x0e000000 addr && ltb addr 0x10000000
    then read_save cart.save_type cart (addr % 2 ^ 16)
    else 0

write_save : SaveType → Cartridge → ℕ → ℕ → Cartridge
write_save save_sram cart offset val = record cart { sram = update cart.sram (offset % 0x8000) val }
write_save save_flash64 cart offset val = record cart { flash = Flash.write cart.flash offset val }
write_save save_flash128 cart offset val = record cart { flash = Flash.write cart.flash offset val }
write_save _ cart offset val = cart

unfoldable pub cartridge_write8 : Cartridge → ℕ → ℕ → Cartridge
unfolding write_save
cartridge_write8 cart addr val =
    if leb 0x0e000000 addr && ltb addr 0x10000000
    then write_save cart.save_type cart (addr % 2 ^ 16) val
    else cart

abbrev pub InRom : ℕ → Type 0
InRom addr = (0x08000000 ≤ addr) × (addr < 0x0e000000)

abbrev pub InSave : ℕ → Type 0
InSave addr = (0x0e000000 ≤ addr) × (addr < 0x10000000)

write_save_rom :
    (s : SaveType) (cart : Cartridge) (offset val : ℕ)
    → ((write_save s cart offset val).rom ≡ cart.rom)
      × ((write_save s cart offset val).rom_size ≡ cart.rom_size)
unfolding write_save
write_save_rom save_sram cart offset val = (refl, refl)
write_save_rom _ cart offset val = (refl, refl)

-- The ROM is read-only: whatever is written, where and with whatever save memory, each address of
-- the ROM region reads as before; and there it gives the ROM byte, mirrored every 32 MB, or 0 past
-- its end.
rom_read_only :
    (cart : Cartridge) (addr val other : ℕ)
    → InRom other
    → (cartridge_read8 (cartridge_write8 cart addr val) other ≡ cartridge_read8 cart other)
      × (cartridge_read8 cart other
          ≡ (if ltb (other % 0x2000000) cart.rom_size then cart.rom (other % 0x2000000) else 0))
unfolding cartridge_read8 cartridge_write8
rom_read_only cart addr val other at =
    ground (arith, write_save_rom cart.save_type cart (addr % 2 ^ 16) val)

-- With SRAM a write to the save region is read back at that address and at its mirrors, every
-- 32 KB, and no other byte of the region changes.
sram_read-write :
    (cart : Cartridge) (addr val other : ℕ)
    → cart.save_type ≡ save_sram
    → InSave addr
    → InSave other
    → cartridge_read8 (cartridge_write8 cart addr val) other
      ≡ (if other % 0x8000 == addr % 0x8000 then val else cartridge_read8 cart other)
unfolding cartridge_read8 cartridge_write8
sram_read-write cart addr val other sram at at' = ground arith

-- A write outside the save region, and any write where there is no save memory that the code
-- serves, changes nothing.
write_ignored :
    (cart : Cartridge) (addr val : ℕ)
    → (¬ InSave addr) ⊎ ((cart.save_type ≡ save_none) ⊎ (cart.save_type ≡ save_eeprom))
    → cartridge_write8 cart addr val ≡ cart
unfolding cartridge_write8
write_ignored cart addr val (inl outside) = ground arith
write_ignored cart addr val (inr (inl e)) = ground arith
write_ignored cart addr val (inr (inr e)) = ground arith
