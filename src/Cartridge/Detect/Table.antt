-- ===== src/Cartridge/Detect/Table.antt =====
-- The scan for the library strings against a table of them that is written apart from the code.
use gba_emulator.Base.{
  Bool, Bool-cases, by_test, List, Option, [], arith, false, inl, inr, none, refl, some, true, ℕ,
  ◌+◌, ◌-◌, ◌<◌, ◌||◌, ◌∷◌, ◌≡◌, ◌⊎◌,
}
use Prim.Native.String.{String}
use gba_emulator.Cartridge.Chip.{
  Cartridge, SaveType, save_none, save_sram, save_flash64, save_flash128, save_eeprom,
}
use gba_emulator.Cartridge.Detect.{
  codes, matches, magic_at, cartridge_detect_save_type, FirstMagic, detect-FirstMagic,
}

-- The strings and the memories that they stand for
pub data Magic : String → SaveType → Type 0 where
  flash1m : Magic "FLASH1M_V" save_flash128
  flash512 : Magic "FLASH512_V" save_flash64
  flash : Magic "FLASH_V" save_flash64
  sram : Magic "SRAM_V" save_sram
  eeprom : Magic "EEPROM_V" save_eeprom

-- The bytes of a text stand in the ROM from `at` on.
abbrev pub StandsAt : (ℕ → ℕ) → ℕ → List ℕ → Type 0
StandsAt rom at [] = Unit
StandsAt rom at (c ∷ text) = (rom at ≡ c) × StandsAt rom (at + 1) text

abbrev pub MagicAt : (ℕ → ℕ) → ℕ → SaveType → Type 0
MagicAt rom i t = (text : String) × Magic text t × StandsAt rom i (codes text)

matches-StandsAt :
    (rom : ℕ → ℕ) (at : ℕ) (text : List ℕ) → matches rom at text ≡ true → StandsAt rom at text
unfolding matches
matches-StandsAt rom at [] h = tt
matches-StandsAt rom at (c ∷ text) h =
    (ground arith, matches-StandsAt rom (at + 1) text (ground arith))

StandsAt-matches :
    (rom : ℕ → ℕ) (at : ℕ) (text : List ℕ) → StandsAt rom at text → matches rom at text ≡ true
unfolding matches
StandsAt-matches rom at [] h = refl
StandsAt-matches rom at (c ∷ text) (here, later) =
    let rest = StandsAt-matches rom (at + 1) text later in ground arith

or_left : (a b : Bool) → (a || b) ≡ false → a ≡ false
or_left a b e = ground arith

or_right : (a b : Bool) → (a || b) ≡ false → b ≡ false
or_right a b e = ground arith

or_other : (a b : Bool) → a ≡ false → (a || b) ≡ true → b ≡ true
or_other a b off e = ground arith

-- What a round should find: a string of the table at its place, or that there is none
abbrev Judged : (ℕ → ℕ) → ℕ → Option SaveType → Type 0
Judged rom i none = (t : SaveType) → ¬ MagicAt rom i t
Judged rom i (some t) = MagicAt rom i t

absent : (rom : ℕ → ℕ) (i : ℕ) (text : List ℕ) → matches rom i text ≡ false → ¬ StandsAt rom i text
absent rom i text off here = let yes = StandsAt-matches rom i text here in ground arith

nowhere :
    (rom : ℕ → ℕ) (i : ℕ)
    → matches rom i (codes "FLASH1M_V") ≡ false
    → (matches rom i (codes "FLASH512_V") || matches rom i (codes "FLASH_V")) ≡ false
    → matches rom i (codes "SRAM_V") ≡ false
    → matches rom i (codes "EEPROM_V") ≡ false
    → (t : SaveType) (text : String) → Magic text t
    → ¬ StandsAt rom i (codes text)
nowhere rom i e1 e2 e3 e4 t text flash1m = absent rom i (codes "FLASH1M_V") e1
nowhere rom i e1 e2 e3 e4 t text flash512 =
    absent rom i (codes "FLASH512_V")
      (or_left (matches rom i (codes "FLASH512_V")) (matches rom i (codes "FLASH_V")) e2)
nowhere rom i e1 e2 e3 e4 t text flash =
    absent rom i (codes "FLASH_V")
      (or_right (matches rom i (codes "FLASH512_V")) (matches rom i (codes "FLASH_V")) e2)
nowhere rom i e1 e2 e3 e4 t text sram = absent rom i (codes "SRAM_V") e3
nowhere rom i e1 e2 e3 e4 t text eeprom = absent rom i (codes "EEPROM_V") e4

flash64_at :
    (rom : ℕ → ℕ) (i : ℕ)
    → (matches rom i (codes "FLASH512_V") || matches rom i (codes "FLASH_V")) ≡ true
    → MagicAt rom i save_flash64
flash64_at rom i e = elim (Bool-cases (matches rom i (codes "FLASH512_V"))) [
  | inl long ↦ ("FLASH512_V", flash512, matches-StandsAt rom i (codes "FLASH512_V") long)
  | inr other ↦ (
    "FLASH_V",
    flash,
    matches-StandsAt rom i (codes "FLASH_V")
        (or_other (matches rom i (codes "FLASH512_V")) (matches rom i (codes "FLASH_V")) other e),
  )
]

magic_at-Judged : (rom : ℕ → ℕ) (i : ℕ) → Judged rom i (magic_at rom i)
unfolding magic_at
magic_at-Judged rom i =
    by_test (Judged rom i) (matches rom i (codes "FLASH1M_V"))
      (λ e. ("FLASH1M_V", flash1m, matches-StandsAt rom i (codes "FLASH1M_V") e))
      (λ e1.
        by_test (Judged rom i)
          (matches rom i (codes "FLASH512_V") || matches rom i (codes "FLASH_V")) (flash64_at rom i)
          (λ e2.
            by_test (Judged rom i) (matches rom i (codes "SRAM_V"))
              (λ e. ("SRAM_V", sram, matches-StandsAt rom i (codes "SRAM_V") e))
              (λ e3.
                by_test (Judged rom i) (matches rom i (codes "EEPROM_V"))
                  (λ e. ("EEPROM_V", eeprom, matches-StandsAt rom i (codes "EEPROM_V") e))
                  (λ e4 t (text, magic, here). nowhere rom i e1 e2 e3 e4 t text magic here))))

judged_as : (rom : ℕ → ℕ) (i : ℕ) (o : Option SaveType) → magic_at rom i ≡ o → Judged rom i o
judged_as rom i o e = rw⁻¹ e (magic_at-Judged rom i)

-- The type that the first string of the table stands for, of those that start from 0 to below `to`
abbrev pub FirstString : (ℕ → ℕ) → ℕ → SaveType → Type 0
FirstString rom to t =
    ((t ≡ save_none) × ((i : ℕ) → i < to → (t' : SaveType) → ¬ MagicAt rom i t'))
    ⊎ ((i : ℕ) × (i < to)
        × MagicAt rom i t
        × ((j : ℕ) → j < i → (t' : SaveType) → ¬ MagicAt rom j t'))

FirstMagic-FirstString :
    (rom : ℕ → ℕ) (to : ℕ) (t : SaveType) → FirstMagic rom 0 to t → FirstString rom to t
FirstMagic-FirstString rom to t (inl (e, none_at)) =
    inl (e, λ i below. judged_as rom i none (none_at i (omega arith) below))
FirstMagic-FirstString rom to t (inr (i, lo, below, here, first)) = inr (
  i,
  below,
  judged_as rom i (some t) here,
  λ j before. judged_as rom j none (first j (omega arith) before),
)

-- `cartridge_detect_save_type` gives the memory of the first library string, by the table of the five
-- strings and their memories, that starts below `rom_size - 12`, and SAVE_NONE where none starts there.
pub detect-FirstString :
    (cart : Cartridge)
    → FirstString cart.rom (cart.rom_size - 12) (cartridge_detect_save_type cart).save_type
detect-FirstString cart =
    FirstMagic-FirstString cart.rom (cart.rom_size - 12) (cartridge_detect_save_type cart).save_type
      (detect-FirstMagic cart)
