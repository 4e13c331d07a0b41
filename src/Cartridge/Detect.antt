-- ===== src/Cartridge/Detect.antt =====
-- `cartridge_detect_save_type` of src/cartridge/cartridge.c: the scan for the library strings.
pub mod Table
use gba_emulator.Base.{
  Bool, List, Option, [], arith, false, if◌then◌else◌, inl, inr, length, ltb, none, refl, same,
  some, suc, true, zero, ℕ, ◌&&◌, ◌+◌, ◌-◌, ◌<◌, ◌==◌, ◌||◌, ◌∷◌, ◌≡◌, ◌≤◌, ◌⊎◌,
}
use Prim.Native.Char.{code}
use Prim.Native.String.{String}
use native.Mathlib.Decide.{ℕ_discrete, dec_lt}
use gba_emulator.Cartridge.Chip.{
  Cartridge, SaveType, save_none, save_sram, save_flash64, save_flash128, save_eeprom,
}

abbrev pub codes : String → List ℕ
codes String.[] = []
codes (String.◌∷◌ c s) = code c ∷ codes s

-- `memcmp(&rom[at], text, n) == 0`
pub matches : (ℕ → ℕ) → ℕ → List ℕ → Bool
matches rom at [] = true
matches rom at (c ∷ text) = rom at == c && matches rom (at + 1) text

-- The tests of one round, in their order.
pub magic_at : (ℕ → ℕ) → ℕ → Option SaveType
magic_at rom i =
    if matches rom i (codes "FLASH1M_V")
    then some save_flash128
    else if matches rom i (codes "FLASH512_V") || matches rom i (codes "FLASH_V")
    then some save_flash64
    else if matches rom i (codes "SRAM_V")
    then some save_sram
    else if matches rom i (codes "EEPROM_V")
    then some save_eeprom
    else none

-- The loop from `i` on, with `left` rounds to go.
pub scan : (ℕ → ℕ) → ℕ → ℕ → SaveType
scan rom zero i = save_none
scan rom (suc left) i =
    let rest = scan rom left (i + 1) in elim (magic_at rom i) [ some t ↦ t | none ↦ rest ]

unfoldable pub cartridge_detect_save_type : Cartridge → Cartridge
unfolding scan magic_at matches
cartridge_detect_save_type cart = record cart {
  save_type = if ltb cart.rom_size 12 then save_none else scan cart.rom (cart.rom_size - 12) 0;
}

-- The type found is that of the first position with a magic string.
abbrev pub FirstMagic : (ℕ → ℕ) → ℕ → ℕ → SaveType → Type 0
FirstMagic rom from to t =
    ((t ≡ save_none) × ((i : ℕ) → from ≤ i → i < to → magic_at rom i ≡ none))
    ⊎ ((i : ℕ) × (from ≤ i)
        × (i < to)
        × (magic_at rom i ≡ some t)
        × ((j : ℕ) → from ≤ j → j < i → magic_at rom j ≡ none))

-- One round more, in front: by what it finds.
FirstMagic-step :
    (rom : ℕ → ℕ) (left i : ℕ) (o : Option SaveType) (t : SaveType)
    → magic_at rom i ≡ o
    → FirstMagic rom (i + 1) (i + 1 + left) t
    → FirstMagic rom i (i + suc left) (elim o [ some found ↦ found | none ↦ t ])
FirstMagic-step rom left i (some found) t here later =
    inr (i, omega arith, omega arith, here, λ j p q. absurd (omega arith))
FirstMagic-step rom left i none t here (inl (e, nowhere)) = inl (
  e,
  λ j p q. elim (ℕ_discrete j i) [
    | yes same ↦ rw same here
    | no other ↦ nowhere j (omega arith) (omega arith)
  ],
)
FirstMagic-step rom left i none t here (inr (k, lo, hi, found, first)) = inr (
  k,
  omega arith,
  omega arith,
  found,
  λ j p q. elim (ℕ_discrete j i) [ yes same ↦ rw same here | no other ↦ first j (omega arith) q ],
)

scan-FirstMagic : (rom : ℕ → ℕ) (left i : ℕ) → FirstMagic rom i (i + left) (scan rom left i)
unfolding scan
scan-FirstMagic rom zero i = inl (refl, λ j p q. absurd (omega arith))
scan-FirstMagic rom (suc left) i =
    FirstMagic-step rom left i (magic_at rom i) (scan rom left (i + 1)) refl
      (scan-FirstMagic rom left (i + 1))

-- The detected type is that of the first magic string that starts below `rom_size - 12`, and
-- SAVE_NONE where there is none.
pub detect-FirstMagic :
    (cart : Cartridge)
    → FirstMagic cart.rom 0 (cart.rom_size - 12) (cartridge_detect_save_type cart).save_type
unfolding cartridge_detect_save_type
detect-FirstMagic cart = elim (dec_lt cart.rom_size 12) [
  | yes tiny ↦
      let e : ltb cart.rom_size 12 ≡ true = ground arith in
      rw e (inl (refl, λ i p q. absurd (omega arith)))
  | no big ↦
      let e : ltb cart.rom_size 12 ≡ false = ground arith in
      let all : 0 + (cart.rom_size - 12) ≡ cart.rom_size - 12 = omega arith in
      rw e (rw all at (scan-FirstMagic cart.rom (cart.rom_size - 12) 0))
]

abbrev AgreeBelow : ℕ → (ℕ → ℕ) → (ℕ → ℕ) → Type 0
AgreeBelow n rom rom' = (i : ℕ) → i < n → rom i ≡ rom' i

matches_local :
    (n : ℕ) (rom rom' : ℕ → ℕ) (at : ℕ) (text : List ℕ)
    → AgreeBelow n rom rom'
    → at + length text ≤ n
    → matches rom at text ≡ matches rom' at text
unfolding matches
matches_local n rom rom' at [] agree fits = refl
matches_local n rom rom' at (c ∷ text) agree fits =
    ground (arith, agree at, matches_local n rom rom' (at + 1) text agree)

magic_at_local :
    (n : ℕ) (rom rom' : ℕ → ℕ) (i : ℕ)
    → AgreeBelow n rom rom'
    → i + 10 ≤ n
    → magic_at rom i ≡ magic_at rom' i
unfolding magic_at
magic_at_local n rom rom' i agree fits =
    rw
      (
        matches_local n rom rom' i (codes "FLASH1M_V") agree (omega arith),
        matches_local n rom rom' i (codes "FLASH512_V") agree (omega arith),
        matches_local n rom rom' i (codes "FLASH_V") agree (omega arith),
        matches_local n rom rom' i (codes "SRAM_V") agree (omega arith),
        matches_local n rom rom' i (codes "EEPROM_V") agree (omega arith),
      )
      refl

scan_local :
    (n : ℕ) (rom rom' : ℕ → ℕ) (left i : ℕ)
    → AgreeBelow n rom rom'
    → i + left + 12 ≤ n
    → scan rom left i ≡ scan rom' left i
unfolding scan
scan_local n rom rom' zero i agree fits = refl
scan_local n rom rom' (suc left) i agree fits = ground (
  arith,
  magic_at_local n rom rom' i agree (omega arith),
  scan_local n rom rom' left (i + 1) agree (omega arith),
)

-- The scan reads inside the ROM only: bytes from `rom_size` on make no difference.
detect_local :
    (cart : Cartridge) (rom' : ℕ → ℕ)
    → AgreeBelow cart.rom_size cart.rom rom'
    → (cartridge_detect_save_type (record cart { rom = rom' })).save_type
      ≡ (cartridge_detect_save_type cart).save_type
unfolding cartridge_detect_save_type
detect_local cart rom' agree = elim (dec_lt cart.rom_size 12) [
  | yes tiny ↦ ground arith
  | no big ↦
      ground
        (arith, scan_local cart.rom_size cart.rom rom' (cart.rom_size - 12) 0 agree (omega arith))
]
