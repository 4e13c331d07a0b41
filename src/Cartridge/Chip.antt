-- ===== src/Cartridge/Chip.antt =====
-- `struct Cartridge` of src/cartridge/cartridge.h.
use gba_emulator.Base.{ℕ}
use gba_emulator.Cartridge.Flash.{FlashChip}

pub data SaveType : Type 0 where
  save_none save_sram save_flash64 save_flash128 save_eeprom : SaveType

abbrev pub max_rom_size : ℕ
max_rom_size = 0x2000000

-- The clock chip has no reader; the title and the path serve the log and the file name only.
pub record Cartridge : Type 0 where
  pub rom : ℕ → ℕ
  pub rom_size : ℕ
  pub save_type : SaveType
  pub flash : FlashChip
  pub sram : ℕ → ℕ
  pub game_code : ℕ → ℕ
