-- ===== src/Cartridge/Flash/Tests.antt =====
-- Runs of the flash chip, and its theorems at a new chip.
use gba_emulator.Base.{ltb, if◌then◌else◌, [], arith, inl, inr, refl, true, ◌<◌, ◌∷◌, ◌≡◌}
use gba_emulator.Cartridge.Flash.{FlashChip, flash_ready, flash_read, flash_init, write}
use gba_emulator.Cartridge.Flash.Commands.{issue, program, switch_bank, program_reads}
use gba_emulator.Cartridge.Flash.Safety.{IsValid, run, write-read-IsValid, run-Locked}

abbrev chip : FlashChip
chip = record {
  content = λ _. 0xff;
  state = flash_ready;
  bank = 0;
  manufacturer = 0xc2;
  device = 0x09;
}

init_is_chip : flash_init true ≡ chip
unfolding flash_init
init_is_chip = refl

two_bytes : flash_read (program (program chip 7 0x0f) 7 0x3c) 7 ≡ 0x0c
unfolding flash_read program issue write
two_bytes = refl

other_bank : flash_read (program (switch_bank chip 1) 7 0) 7 ≡ 0
unfolding flash_read program switch_bank issue write
other_bank = refl

chip-IsValid : IsValid chip
chip-IsValid = record {
  bank_fits = omega arith;
  bytes = λ i. omega arith;
  manufacturer_fits = omega arith;
  device_fits = omega arith;
}

program_reads_example :
    (flash_read (program chip 7 0x0f) 8 ≡ 0xff)
    × ((program chip 7 0x0f).state ≡ flash_ready)
    × ((program chip 7 0x0f).bank ≡ 0)
unfolding flash_read
program_reads_example = program_reads chip 7 0x0f 8 refl

write-read-IsValid_example :
    IsValid (write chip 0x5555 0xaa)
    × ((write chip 0x5555 0xaa).content 0x20003 ≡ 0xff)
    × (flash_read chip 0x5555 < 256)
    × (flash_read (record chip { content = λ j. if ltb j 0x20000 then 0xff else 0 }) 0x5555
        ≡ flash_read chip 0x5555)
write-read-IsValid_example =
    write-read-IsValid 0x5555 0xaa 0x20003 (λ j. if ltb j 0x20000 then 0xff else 0) chip-IsValid
      (omega arith) (omega arith) (λ j h. ground arith)

run-Locked_example : run chip ((0x2aaa, 0x55) ∷ (0x5555, 0xa0) ∷ (7, 0) ∷ []) ≡ chip
run-Locked_example =
    run-Locked chip ((0x2aaa, 0x55) ∷ (0x5555, 0xa0) ∷ (7, 0) ∷ []) refl
      (inl (omega arith), (inr (omega arith), (inl (omega arith), tt)))
