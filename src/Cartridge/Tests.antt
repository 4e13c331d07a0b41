-- ===== src/Cartridge/Tests.antt =====
-- The theorems on the cartridge at concrete cartridges.
use gba_emulator.Base.{[], entry, ◌∷◌, refl, ◌%◌, ◌≡◌}
use gba_emulator.Cartridge.Flash.{FlashChip, flash_ready}
use gba_emulator.Cartridge.Chip.{Cartridge, save_none, save_sram, save_flash128}
use gba_emulator.Cartridge.Rtc.{Tm}
use gba_emulator.Cartridge.Detect.{cartridge_detect_save_type}
use gba_emulator.Cartridge.Detect.Table.{FirstString, detect-FirstString}
use gba_emulator.Cartridge.Saves.{
  cartridge_save_to_file, cartridge_load_save_file, saved_byte, load-save,
}

abbrev chip : FlashChip
chip = record {
  content = λ _. 0xff;
  state = flash_ready;
  bank = 0;
  manufacturer = 0x32;
  device = 0x1b;
}

-- A game of 256 bytes with battery-backed SRAM.
abbrev game : Cartridge
game = record {
  rom = λ i. i;
  rom_size = 256;
  save_type = save_sram;
  flash = chip;
  sram = λ _. 0;
  game_code = λ _. 0x41;
}

abbrev bare : Cartridge
bare = record game { save_type = save_none }

-- "FLASH1M_V" from the fifth byte of 24 on
abbrev flash_game : Cartridge
flash_game = record game {
  rom = entry 0 (1 ∷ 2 ∷ 3 ∷ 4 ∷ 70 ∷ 76 ∷ 65 ∷ 83 ∷ 72 ∷ 49 ∷ 77 ∷ 95 ∷ 86 ∷ []);
  rom_size = 24;
}

detects_flash : (cartridge_detect_save_type flash_game).save_type ≡ save_flash128
unfolding cartridge_detect_save_type
detects_flash = refl

detect-FirstString_example : FirstString flash_game.rom 12 save_flash128
unfolding cartridge_detect_save_type
detect-FirstString_example = detect-FirstString flash_game

load-save_example :
    saved_byte save_sram
      (cartridge_load_save_file game (cartridge_save_to_file (record game { sram = λ i. i % 7 })))
      20
    ≡ 6
load-save_example = load-save (record game { sram = λ i. i % 7 }) game 20 refl

-- The last second of 2024.
abbrev new_year : Tm
new_year = record {
  tm_year = 124;
  tm_mon = 11;
  tm_mday = 31;
  tm_wday = 2;
  tm_hour = 23;
  tm_min = 59;
  tm_sec = 59;
}
