-- ===== src/Cartridge/Flash.antt =====
-- The flash chip: src/cartridge/flash.c, with the types of cartridge.h.
pub mod Commands
pub mod Safety
mod Tests
use gba_emulator.Base.{
  Bool, bit_and, false, fill, if◌then◌else◌, true, update, ℕ, ◌%◌, ◌&&◌, ◌*◌, ◌+◌, ◌==◌, ◌^◌,
}

pub data FlashState : Type 0 where
  flash_ready flash_cmd1 flash_cmd2 flash_autoselect flash_erase : FlashState
  flash_erase_cmd1 flash_erase_cmd2 flash_write flash_bankswitch : FlashState

-- `content` is the field `data`, of 0x20000 bytes.
pub record FlashChip : Type 0 where
  pub content : ℕ → ℕ
  pub state : FlashState
  pub bank : ℕ
  pub manufacturer : ℕ
  pub device : ℕ

abbrev pub macronix_manufacturer : ℕ
macronix_manufacturer = 0xc2

abbrev pub macronix_device_128k : ℕ
macronix_device_128k = 0x09

abbrev pub sanyo_manufacturer : ℕ
sanyo_manufacturer = 0x62

abbrev pub sanyo_device_64k : ℕ
sanyo_device_64k = 0x13

-- The chip before `flash_init` gives only the bytes that it overwrites.
unfoldable pub flash_init : Bool → FlashChip
flash_init is_128k = record {
  content = λ _. 0xff;
  state = flash_ready;
  bank = 0;
  manufacturer = if is_128k then macronix_manufacturer else sanyo_manufacturer;
  device = if is_128k then macronix_device_128k else sanyo_device_64k;
}

is_autoselect : FlashState → Bool
is_autoselect flash_autoselect = true
is_autoselect _ = false

-- The index into `data` of an address in the 64 KB window.
abbrev pub index : FlashChip → ℕ → ℕ
index flash addr = flash.bank * 0x10000 + addr % 2 ^ 16

unfoldable pub flash_read : FlashChip → ℕ → ℕ
unfolding is_autoselect
flash_read flash address =
    let addr = address % 2 ^ 16 in
    if is_autoselect flash.state
    then if addr == 0 then flash.manufacturer else if addr == 1 then flash.device else 0
    else flash.content (index flash address)

-- The `switch` of FLASH_CMD2 at 0x5555.
unfoldable pub command : ℕ → FlashState
command val =
    if val == 0x90
    then flash_autoselect
    else if val == 0xf0
    then flash_ready
    else if val == 0x80
    then flash_erase
    else if val == 0xa0
    then flash_write
    else if val == 0xb0
    then flash_bankswitch
    else flash_ready

-- `flash_write` by the state that it starts in.
unfoldable pub write_in : FlashState → FlashChip → ℕ → ℕ → FlashChip
unfolding command
write_in flash_ready flash addr val =
    if addr == 0x5555 && val == 0xaa then record flash { state = flash_cmd1 } else flash
write_in flash_cmd1 flash addr val = record flash {
  state = if addr == 0x2aaa && val == 0x55 then flash_cmd2 else flash_ready;
}
write_in flash_cmd2 flash addr val = record flash {
  state = if addr == 0x5555 then command val else flash_ready;
}
write_in flash_autoselect flash addr val =
    if val == 0xf0 then record flash { state = flash_ready } else flash
write_in flash_erase flash addr val = record flash {
  state = if addr == 0x5555 && val == 0xaa then flash_erase_cmd1 else flash_ready;
}
write_in flash_erase_cmd1 flash addr val = record flash {
  state = if addr == 0x2aaa && val == 0x55 then flash_erase_cmd2 else flash_ready;
}
write_in flash_erase_cmd2 flash addr val =
    if addr == 0x5555 && val == 0x10
    then record flash { content = fill flash.content 0 0x20000 0xff; state = flash_ready }
    else if val == 0x30
    then record flash {
      content = fill flash.content (flash.bank * 0x10000 + bit_and addr 0xf000) 0x1000 0xff;
      state = flash_ready;
    }
    else record flash { state = flash_ready }
write_in flash_write flash addr val = record flash {
  content =
      let at = flash.bank * 0x10000 + addr in
      update flash.content at (bit_and (flash.content at) val);
  state = flash_ready;
}
write_in flash_bankswitch flash addr val = record flash {
  bank = if addr == 0 then val % 2 else flash.bank;
  state = flash_ready;
}

unfoldable pub write : FlashChip → ℕ → ℕ → FlashChip
unfolding write_in
write flash address val = write_in flash.state flash (address % 2 ^ 16) val
