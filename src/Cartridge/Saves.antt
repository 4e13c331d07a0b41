-- ===== src/Cartridge/Saves.antt =====
-- Loading a ROM, and the save files: `cartridge_load`, `cartridge_save_to_file` and
-- `cartridge_load_save_file` of src/cartridge/cartridge.c. A file is its size and its bytes; the
-- calls of the C library are arguments: what `fopen` and `fread` give, whether `malloc` succeeds.
use gba_emulator.Base.{
  Bool, Option, arith, false, if◌then◌else◌, ltb, none, not, refl, some, true, ℕ, ◌&&◌, ◌+◌, ◌==◌,
  ◌||◌, ◌≡◌,
}
use gba_emulator.Cartridge.Flash.{FlashChip, flash_init}
use gba_emulator.Cartridge.Chip.{
  Cartridge, SaveType, save_none, save_sram, save_flash64, save_flash128, save_eeprom, max_rom_size,
}
use gba_emulator.Cartridge.Detect.{cartridge_detect_save_type}

pub record File : Type 0 where
  pub size : ℕ
  pub bytes : ℕ → ℕ

-- `fread(a, 1, n, f)`: a short file leaves the rest of the array.
abbrev pub fread : (ℕ → ℕ) → ℕ → File → ℕ → ℕ
fread a n f j = if ltb j n && ltb j f.size then f.bytes j else a j

-- What a complete `fwrite` leaves in the file; `none` where the code does not open it.
pub save_as : SaveType → Cartridge → Option File
save_as save_none cart = none
save_as save_sram cart = some (record { size = 0x8000; bytes = cart.sram })
save_as save_flash64 cart = some (record { size = 0x10000; bytes = cart.flash.content })
save_as save_flash128 cart = some (record { size = 0x20000; bytes = cart.flash.content })
save_as save_eeprom cart = some (record { size = 0; bytes = λ _. 0 })

unfoldable pub cartridge_save_to_file : Cartridge → Option File
unfolding save_as
cartridge_save_to_file cart = save_as cart.save_type cart

load_as : SaveType → Cartridge → File → Cartridge
load_as save_sram cart f = record cart { sram = fread cart.sram 0x8000 f }
load_as save_flash64 cart f = record cart {
  flash = record (cart.flash) { content = fread cart.flash.content 0x10000 f };
}
load_as save_flash128 cart f = record cart {
  flash = record (cart.flash) { content = fread cart.flash.content 0x20000 f };
}
load_as _ cart f = cart

unfoldable pub cartridge_load_save_file : Cartridge → Option File → Cartridge
unfolding load_as
cartridge_load_save_file cart none = cart
cartridge_load_save_file cart (some f) = load_as cart.save_type cart f

start_flash : SaveType → FlashChip → FlashChip
start_flash save_flash128 flash = flash_init true
start_flash save_flash64 flash = flash_init false
start_flash _ flash = flash

-- `none` where the source returns false: the program then ends. `whole` says that `fread` gave all
-- the bytes; `save_file` is the save found under the game code's path.
unfoldable pub cartridge_load :
    Cartridge → Option File → Bool → Bool → ((ℕ → ℕ) → Option File) → Option Cartridge
unfolding start_flash
cartridge_load cart none malloc_ok whole save_file = none
cartridge_load cart (some f) malloc_ok whole save_file =
    if ltb max_rom_size f.size || f.size == 0
    then none
    else if not malloc_ok
    then none
    else if not whole
    then none
    else (let found =
          cartridge_detect_save_type (record cart {
            rom = f.bytes;
            rom_size = f.size;
            game_code = λ i. f.bytes (0xac + i);
          }) in
        let started = record found { flash = start_flash found.save_type found.flash } in
        some (cartridge_load_save_file started (save_file started.game_code)))

-- The bytes of the save memory that a save type stands for.
abbrev pub saved_size : SaveType → ℕ
saved_size save_none = 0
saved_size save_sram = 0x8000
saved_size save_flash64 = 0x10000
saved_size save_flash128 = 0x20000
saved_size save_eeprom = 0

abbrev pub saved_byte : SaveType → Cartridge → ℕ → ℕ
saved_byte save_sram cart i = cart.sram i
saved_byte _ cart i = cart.flash.content i

load-save_as :
    (s : SaveType) (old new : Cartridge) (i : ℕ)
    → old.save_type ≡ s
    → new.save_type ≡ s
    → saved_byte s (cartridge_load_save_file new (cartridge_save_to_file old)) i
      ≡ (if ltb i (saved_size s) then saved_byte s old i else saved_byte s new i)
unfolding cartridge_load_save_file cartridge_save_to_file
load-save_as save_none old new i e e' = ground arith
load-save_as save_sram old new i e e' = ground arith
load-save_as save_flash64 old new i e e' = ground arith
load-save_as save_flash128 old new i e e' = ground arith
load-save_as save_eeprom old new i e e' = ground arith

-- A save that is loaded into a cartridge of the same type brings back each saved byte: the whole
-- SRAM, the first 64 KB of a 64 KB flash chip, both banks of a 128 KB chip. No other byte of that
-- memory changes.
pub load-save :
    (old new : Cartridge) (i : ℕ)
    → new.save_type ≡ old.save_type
    → let s = old.save_type in
      saved_byte s (cartridge_load_save_file new (cartridge_save_to_file old)) i
      ≡ (if ltb i (saved_size s) then saved_byte s old i else saved_byte s new i)
load-save old new i e = load-save_as old.save_type old new i refl e
