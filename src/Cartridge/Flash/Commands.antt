-- ===== src/Cartridge/Flash/Commands.antt =====
-- The command sequences of the flash chip, as a game issues them: unlock, command, data.
use gba_emulator.Base.{
  Bool-cases, ap, arith, bit_and, bit_and_high, fill, if◌then◌else◌, inl, inr, mask-bit_and, refl,
  update, ℕ, ◌%◌, ◌*◌, ◌+◌, ◌/◌, ◌<◌, ◌==◌, ◌^◌, ◌∙◌, ◌≡◌,
}
use gba_emulator.Cartridge.Flash.{FlashChip, flash_ready, index, flash_read, write}

-- The two unlock writes and a command.
unfoldable pub issue : FlashChip → ℕ → FlashChip
issue flash val = write (write (write flash 0x5555 0xaa) 0x2aaa 0x55) 0x5555 val

unfoldable pub program : FlashChip → ℕ → ℕ → FlashChip
program flash addr val = write (issue flash 0xa0) addr val

pub erase_sector : FlashChip → ℕ → FlashChip
erase_sector flash addr = write (write (write (issue flash 0x80) 0x5555 0xaa) 0x2aaa 0x55) addr 0x30

pub erase_chip : FlashChip → FlashChip
erase_chip flash = issue (issue flash 0x80) 0x10

unfoldable pub switch_bank : FlashChip → ℕ → FlashChip
switch_bank flash val = write (issue flash 0xb0) 0 val

program_lem :
    (flash : FlashChip) (addr val : ℕ)
    → flash.state ≡ flash_ready
    → program flash addr val ≡ record flash {
      content =
          update flash.content (index flash addr) (bit_and (flash.content (index flash addr)) val);
    }
unfolding program issue write
program_lem flash addr val ready = rw ready (rw (← ready) refl)

erase_sector_lem :
    (flash : FlashChip) (addr : ℕ)
    → flash.state ≡ flash_ready
    → erase_sector flash addr ≡ record flash {
      content =
          fill flash.content (flash.bank * 0x10000 + bit_and (addr % 2 ^ 16) 0xf000) 0x1000 0xff;
    }
unfolding erase_sector issue write
erase_sector_lem flash addr ready = rw ready (elim (Bool-cases (addr % 2 ^ 16 == 0x5555)) [
  | inl e ↦ rw e (rw (← ready) refl)
  | inr e ↦ rw e (rw (← ready) refl)
])

erase_chip_lem :
    (flash : FlashChip)
    → flash.state ≡ flash_ready
    → erase_chip flash ≡ record flash { content = fill flash.content 0 0x20000 0xff }
unfolding erase_chip issue write
erase_chip_lem flash ready = rw ready (rw (← ready) refl)

sector_base : (a : ℕ) → a < 2 ^ 16 → bit_and a 0xf000 ≡ a / 4096 * 4096
sector_base a h =
    ap (λ t. bit_and t 0xf000) {x = a} {y = a / 4096 * 4096 + a % 4096} (omega arith)
    ∙ bit_and_high 12 4 (a / 4096) (a % 4096) (omega arith) (omega arith)

read_ready :
    (flash : FlashChip) (addr : ℕ)
    → flash.state ≡ flash_ready
    → flash_read flash addr ≡ flash.content (index flash addr)
unfolding flash_read
read_ready flash addr ready = rw ready refl

-- On an idle chip the byte-program sequence puts `old & val` at the addressed byte of the current
-- bank and changes no other byte that can be read, and the chip is idle again.
pub program_reads :
    (flash : FlashChip) (addr val other : ℕ)
    → flash.state ≡ flash_ready
    → (flash_read (program flash addr val) other ≡ (
        if other % 2 ^ 16 == addr % 2 ^ 16
        then bit_and (flash_read flash addr) val
        else flash_read flash other))
      × ((program flash addr val).state ≡ flash_ready)
      × ((program flash addr val).bank ≡ flash.bank)
program_reads flash addr val other ready =
    rw (program_lem flash addr val ready)
      (rw (read_ready flash addr ready, read_ready flash other ready) (reads, ready, refl))
  where
    reads :
        flash_read
          (record flash {
            content =
                update flash.content
                  (index flash addr)
                  (bit_and (flash.content (index flash addr)) val);
          })
          other
        ≡ (if other % 2 ^ 16 == addr % 2 ^ 16
            then bit_and (flash.content (index flash addr)) val
            else flash.content (index flash other))
    reads = unfold flash_read in ground arith

-- On an idle chip of valid bank the sector-erase sequence sets to 0xFF exactly the bytes of the
-- 4 KB sector that holds the address, in the current bank, and the chip is idle again.
erase_sector_reads :
    (flash : FlashChip) (addr other : ℕ)
    → flash.state ≡ flash_ready
    → (flash_read (erase_sector flash addr) other ≡ (
        if other % 2 ^ 16 / 0x1000 == addr % 2 ^ 16 / 0x1000 then 0xff else flash_read flash other))
      × ((erase_sector flash addr).state ≡ flash_ready)
      × ((erase_sector flash addr).bank ≡ flash.bank)
erase_sector_reads flash addr other ready =
    rw (erase_sector_lem flash addr ready) (rw (read_ready flash other ready) (reads, ready, refl))
  where
    base : ℕ
    base = flash.bank * 0x10000 + bit_and (addr % 2 ^ 16) 0xf000

    reads : flash_read (record flash { content = fill flash.content base 0x1000 0xff }) other ≡ (
        if other % 2 ^ 16 / 0x1000 == addr % 2 ^ 16 / 0x1000
        then 0xff
        else flash.content (index flash other))
    reads = unfold flash_read in ground (arith, sector_base (addr % 2 ^ 16))

-- On an idle chip, erasing the sector of an address and programming a byte there stores that byte,
-- whatever the sector held.
program-erase_sector :
    (flash : FlashChip) (addr val : ℕ)
    → flash.state ≡ flash_ready
    → val < 256
    → flash_read (program (erase_sector flash addr) addr val) addr ≡ val
program-erase_sector flash addr val ready fits =
    let (erased, idle, _) = erase_sector_reads flash addr addr ready in
    let (stored, _, _) = program_reads (erase_sector flash addr) addr val addr idle in
    ground (arith, mask-bit_and 8 val)

-- On an idle chip the chip-erase sequence sets both banks to 0xFF; the chip-identification command
-- then gives the two identifiers at 0 and 1 and 0 elsewhere, and its exit brings the bytes back.
erase_chip_reads :
    (flash : FlashChip) (addr : ℕ)
    → flash.state ≡ flash_ready
    → flash.bank < 2
    → (flash_read (erase_chip flash) addr ≡ 0xff)
      × (flash_read (issue (erase_chip flash) 0x90) addr ≡ (
          if addr % 2 ^ 16 == 0
          then flash.manufacturer
          else if addr % 2 ^ 16 == 1
          then flash.device
          else 0))
      × (write (issue (erase_chip flash) 0x90) addr 0xf0 ≡ erase_chip flash)
unfolding issue write
erase_chip_reads flash addr ready bank_fits =
    rw (erase_chip_lem flash ready) (rw ready (content, unfold flash_read in refl, refl))
  where
    content :
        flash_read
          (record flash { content = fill flash.content 0 0x20000 0xff; state = flash_ready })
          addr
        ≡ 0xff
    content = unfold flash_read in ground arith
