-- ===== src/Cartridge/Flash/Safety.antt =====
-- What no sequence of writes to the flash chip can do.
use gba_emulator.Base.{
  List, [], ap, arith, bit, bit-and, bit_and-le, bit_and-lt, refl, ℕ, ◌%◌, ◌*◌, ◌+◌, ◌<◌, ◌^◌, ◌∙◌,
  ◌∷◌, ◌≡◌, ◌≢◌, ◌≤◌, ◌⊎◌,
}
use gba_emulator.Cartridge.Flash.{
  FlashState, FlashChip, flash_ready, flash_erase_cmd2, flash_write, flash_read, write, write_in,
  index,
}

pub record IsValid (flash : FlashChip) : Type 0 where
  pub bank_fits : flash.bank < 2
  pub bytes : (i : ℕ) → flash.content i < 256
  pub manufacturer_fits : flash.manufacturer < 256
  pub device_fits : flash.device < 256

abbrev pub run : FlashChip → List (ℕ × ℕ) → FlashChip
run flash [] = flash
run flash ((addr, val) ∷ more) = run (write flash addr val) more

write_in_bytes :
    (s : FlashState) (flash : FlashChip) (addr val : ℕ)
    → IsValid flash
    → val < 256
    → (i : ℕ) → (write_in s flash addr val).content i < 256
unfolding write_in
write_in_bytes flash_ready flash addr val v fits i = ground (arith, v.bytes i)
write_in_bytes flash_write flash addr val v fits i =
    let at = flash.bank * 0x10000 + addr in
    ground (arith, v.bytes i, bit_and-lt 8 (flash.content at) val, v.bytes at)
write_in_bytes _ flash addr val v fits i = ground (arith, v.bytes i)

write_in_bank :
    (s : FlashState) (flash : FlashChip) (addr val : ℕ)
    → flash.bank < 2
    → ((write_in s flash addr val).bank < 2)
      × ((write_in s flash addr val).manufacturer ≡ flash.manufacturer)
      × ((write_in s flash addr val).device ≡ flash.device)
unfolding write_in
write_in_bank flash_ready flash addr val h = ground arith
write_in_bank _ flash addr val h = ground arith

-- No write reaches past the array.
write_in_inside :
    (s : FlashState) (flash : FlashChip) (addr val i : ℕ)
    → flash.bank < 2
    → addr < 2 ^ 16
    → 0x20000 ≤ i
    → (write_in s flash addr val).content i ≡ flash.content i
unfolding write_in
write_in_inside flash_ready flash addr val i h p q = ground arith
write_in_inside flash_erase_cmd2 flash addr val i h p q =
    let sector = bit_and-le 16 addr 0xf000 p in ground arith
write_in_inside _ flash addr val i h p q = ground arith

-- A write of a byte keeps a valid chip valid and changes nothing past the 128 KB of its array; a read
-- of a valid chip gives a byte, and the same byte from any other content that agrees on the 128 KB.
pub write-read-IsValid :
    {flash : FlashChip} (addr val i : ℕ) (content : ℕ → ℕ)
    → IsValid flash
    → val < 256
    → 0x20000 ≤ i
    → ((j : ℕ) → j < 0x20000 → content j ≡ flash.content j)
    → IsValid (write flash addr val)
      × ((write flash addr val).content i ≡ flash.content i)
      × (flash_read flash addr < 256)
      × (flash_read (record flash { content = content }) addr ≡ flash_read flash addr)
unfolding write
write-read-IsValid {flash} addr val i content v fits past agree = (
  record {
    bank_fits = omega (arith, sizes.0);
    bytes = write_in_bytes flash.state flash (addr % 2 ^ 16) val v fits;
    manufacturer_fits = omega (arith, sizes.1);
    device_fits = omega (arith, sizes.2);
  },
  write_in_inside flash.state flash (addr % 2 ^ 16) val i v.bank_fits (omega arith) past,
  unfold flash_read in ground (arith, v.bytes (index flash addr)),
  unfold flash_read in ground (arith, agree (index flash addr), v.bank_fits),
)
  where
    sizes :
        ((write_in flash.state flash (addr % 2 ^ 16) val).bank < 2)
        × ((write_in flash.state flash (addr % 2 ^ 16) val).manufacturer ≡ flash.manufacturer)
        × ((write_in flash.state flash (addr % 2 ^ 16) val).device ≡ flash.device)
    sizes = write_in_bank flash.state flash (addr % 2 ^ 16) val v.bank_fits

-- No write of the list is the first unlock write.
abbrev pub Locked : List (ℕ × ℕ) → Type 0
Locked [] = Unit
Locked ((addr, val) ∷ more) = ((addr % 2 ^ 16 ≢ 0x5555) ⊎ (val ≢ 0xaa)) × Locked more

-- An idle chip is not changed at all by any number of writes, as long as none of them is the first
-- unlock write.
pub run-Locked :
    (flash : FlashChip) (writes : List (ℕ × ℕ))
    → flash.state ≡ flash_ready
    → Locked writes
    → run flash writes ≡ flash
run-Locked flash [] ready locked = refl
run-Locked flash ((addr, val) ∷ more) ready (first, rest) =
    ap (λ f. run f more) idle ∙ run-Locked flash more ready rest
  where
    idle : write flash addr val ≡ flash
    idle = unfold write write_in in rw ready (ground arith)

write_in_clears :
    (s : FlashState) (flash : FlashChip) (addr val i n : ℕ)
    → s ≢ flash_erase_cmd2
    → bit ((write_in s flash addr val).content i) n ≤ bit (flash.content i) n
unfolding write_in
write_in_clears flash_ready flash addr val i n other = ground arith
write_in_clears flash_erase_cmd2 flash addr val i n other = absurd (other refl)
write_in_clears flash_write flash addr val i n other =
    ground (arith, bit-and n (flash.content (flash.bank * 0x10000 + addr)) val)
write_in_clears _ flash addr val i n other = ground arith

-- Only the last write of an erase sequence sets a bit: any other write leaves each bit of each
-- byte as it was or clears it.
write_clears :
    (flash : FlashChip) (addr val i n : ℕ)
    → flash.state ≢ flash_erase_cmd2
    → bit ((write flash addr val).content i) n ≤ bit (flash.content i) n
unfolding write
write_clears flash addr val i n other =
    write_in_clears flash.state flash (addr % 2 ^ 16) val i n other
