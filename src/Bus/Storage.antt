-- ===== src/Bus/Storage.antt =====
-- What is stored in the memories of the bus is read back, at the address and its mirrors, and
-- nothing else changes.
use gba_emulator.Base.{
  Bool, Bool-cases, ap, arith, if◌then◌else◌, inl, inr, refl, true, u8, ℕ, ◌%◌, ◌&&◌, ◌*◌, ◌+◌, ◌/◌,
  ◌<◌, ◌==◌, ◌^◌, ◌∙◌, ◌≡◌,
}
use gba_emulator.System.State.{Gba}
use gba_emulator.Bus.Bytes.{join2, join4, join2_bytes, join4_bytes}
use gba_emulator.Bus.Memory.{
  decode_region, vram_offset, bus_read8, bus_read16, bus_read32, write_two, write_four, bus_write16,
  bus_write32,
}
use gba_emulator.Bus.Ram.{
  in_ram, memory, set_memory, offset_in, offset_in_half, offset_in_word, region_half, region_word,
  region_aligned, read8_ram, write16_ram, write32_ram,
}

pub memory-set_memory :
    (gba : Gba) (region r : ℕ) (m : ℕ → ℕ)
    → in_ram region ≡ true
    → in_ram r ≡ true
    → memory (set_memory gba region m) r ≡ (if r == region then m else memory gba r)
unfolding in_ram memory set_memory
memory-set_memory gba region r m h g = ground arith

half_even : (region addr : ℕ) → offset_in region (addr / 2 * 2) % 2 ≡ 0
unfolding offset_in vram_offset
half_even region addr = ground arith

word_even : (region addr : ℕ) → offset_in region (addr / 4 * 4) % 4 ≡ 0
unfolding offset_in vram_offset
word_even region addr = ground arith

-- A halfword and a word of an array, the lowest byte first
abbrev pub half_in : (ℕ → ℕ) → ℕ → ℕ
half_in m o = join2 (m o) (m (o + 1))

abbrev pub word_in : (ℕ → ℕ) → ℕ → ℕ
word_in m o = join4 (m o) (m (o + 1)) (m (o + 2)) (m (o + 3))

half_region : (addr : ℕ) → decode_region (addr / 2 * 2) ≡ decode_region addr
unfolding decode_region
half_region addr = omega arith

read16_ram :
    (gba : Gba) (addr region : ℕ)
    → decode_region addr ≡ region
    → in_ram region ≡ true
    → bus_read16 gba addr ≡ (gba, half_in (memory gba region) (offset_in region (addr / 2 * 2)))
unfolding bus_read16
read16_ram gba addr region e ram =
    rw
      (
        read8_ram gba (addr / 2 * 2) region (half_region addr ∙ e) ram,
        read8_ram gba (addr / 2 * 2 + 1) region (region_half addr 1 (omega arith) ∙ e) ram,
        offset_in_half region addr 1 (omega arith),
      )
      refl

pub read32_ram :
    (gba : Gba) (addr region : ℕ)
    → decode_region addr ≡ region
    → in_ram region ≡ true
    → bus_read32 gba addr ≡ (gba, word_in (memory gba region) (offset_in region (addr / 4 * 4)))
unfolding bus_read32
read32_ram gba addr region e ram =
    rw
      (
        read8_ram gba (addr / 4 * 4) region (region_aligned addr ∙ e) ram,
        read8_ram gba (addr / 4 * 4 + 1) region (region_word addr 1 (omega arith) ∙ e) ram,
        read8_ram gba (addr / 4 * 4 + 2) region (region_word addr 2 (omega arith) ∙ e) ram,
        read8_ram gba (addr / 4 * 4 + 3) region (region_word addr 3 (omega arith) ∙ e) ram,
        offset_in_word region addr 1 (omega arith),
        offset_in_word region addr 2 (omega arith),
        offset_in_word region addr 3 (omega arith),
      )
      refl

-- A word that `write_four` stores, read at the offset of a word
word_in-write_four :
    (resolve m : ℕ → ℕ) (at val o : ℕ)
    → resolve (at + 1) ≡ resolve at + 1
    → resolve (at + 2) ≡ resolve at + 2
    → resolve (at + 3) ≡ resolve at + 3
    → resolve at % 4 ≡ 0
    → o % 4 ≡ 0
    → val < 2 ^ 32
    → word_in (write_four resolve m at val) o ≡ (if o == resolve at then val else word_in m o)
unfolding write_four
word_in-write_four resolve m at val o e1 e2 e3 even even' small =
    rw (e1, e2, e3) (ground (arith, join4_bytes val small))

half_in-write_two :
    (m : ℕ → ℕ) (off val o : ℕ)
    → off % 2 ≡ 0
    → o % 2 ≡ 0
    → val < 2 ^ 16
    → half_in (write_two m off (u8 val) (u8 (val / 2 ^ 8))) o
      ≡ (if o == off then val else half_in m o)
half_in-write_two m off val o even even' small = ground (
  arith,
  join2_bytes val small,
  ap (λ t. join2 (val % 2 ^ 8) t) {x = val / 2 ^ 8 % 2 ^ 8} {y = val / 2 ^ 8} (omega arith),
)

restore_memory :
    (gba : Gba) (region : ℕ) (m : ℕ → ℕ)
    → set_memory (set_memory gba region m) region (memory gba region) ≡ gba
unfolding set_memory memory
restore_memory gba region m = elim (Bool-cases (region == 2)) [
  | inl e ↦ rw e refl
  | inr e ↦ elim (Bool-cases (region == 3)) [
    | inl e3 ↦ rw (e, e3) refl
    | inr e3 ↦ elim (Bool-cases (region == 5)) [
      | inl e5 ↦ rw (e, e3, e5) refl
      | inr e5 ↦ elim (Bool-cases (region == 6)) [
        | inl e6 ↦ rw (e, e3, e5, e6) refl
        | inr e6 ↦ rw (e, e3, e5, e6) refl
      ]
    ]
  ]
]

-- The two addresses lead to the same byte of the same memory.
abbrev pub same_cell : ℕ → ℕ → Bool
same_cell a b =
    decode_region a == decode_region b
    && offset_in (decode_region a) a == offset_in (decode_region b) b

module _ (ctl : Gba → ℕ → ℕ → Gba) where
  word_read :
      (gba : Gba) (addr other val : ℕ)
      → in_ram (decode_region addr) ≡ true
      → in_ram (decode_region other) ≡ true
      → val < 2 ^ 32
      → (bus_read32 (bus_write32 ctl gba addr val) other).1
        ≡ (if same_cell (other / 4 * 4) (addr / 4 * 4) then val else (bus_read32 gba other).1)
  word_read gba addr other val h g small =
      let region = decode_region addr in
      let r = decode_region other in
      let m = memory gba region in
      let at = addr / 4 * 4 in
      let resolve = offset_in region in
      rw
        (
          write32_ram ctl gba addr region val refl h,
          read32_ram (set_memory gba region (write_four resolve m at val)) other r refl g,
          read32_ram gba other r refl g,
          memory-set_memory gba region r (write_four resolve m at val) h g,
          region_aligned other,
          region_aligned addr,
        )
        (ground (
          arith,
          word_in-write_four resolve m at val (offset_in r (other / 4 * 4)),
          offset_in_word region addr 1,
          offset_in_word region addr 2,
          offset_in_word region addr 3,
          word_even region addr,
          word_even r other,
        ))

  half_read :
      (gba : Gba) (addr other val : ℕ)
      → in_ram (decode_region addr) ≡ true
      → in_ram (decode_region other) ≡ true
      → val < 2 ^ 16
      → (bus_read16 (bus_write16 ctl gba addr val) other).1
        ≡ (if same_cell (other / 2 * 2) (addr / 2 * 2) then val else (bus_read16 gba other).1)
  half_read gba addr other val h g small =
      let region = decode_region addr in
      let r = decode_region other in
      let off = offset_in region (addr / 2 * 2) in
      let m = write_two (memory gba region) off (u8 val) (u8 (val / 2 ^ 8)) in
      rw
        (
          write16_ram ctl gba addr region val refl h,
          read16_ram (set_memory gba region m) other r refl g,
          read16_ram gba other r refl g,
          memory-set_memory gba region r m h g,
          half_region other,
          half_region addr,
        )
        (ground (
          arith,
          half_in-write_two (memory gba region) off val (offset_in r (other / 2 * 2)),
          half_even region addr,
          half_even r other,
        ))

  -- In EWRAM, IWRAM, palette RAM, VRAM and OAM, a word that is written is read back at each address
  -- of its word and of the word's mirrors, and each other word of these memories reads as before; so
  -- too for a halfword. An address is rounded down to its word or halfword.
  pub read-write_ram :
      (gba : Gba) (addr other word half : ℕ)
      → in_ram (decode_region addr) ≡ true
      → in_ram (decode_region other) ≡ true
      → word < 2 ^ 32
      → half < 2 ^ 16
      → ((bus_read32 (bus_write32 ctl gba addr word) other).1
          ≡ (if same_cell (other / 4 * 4) (addr / 4 * 4) then word else (bus_read32 gba other).1))
        × ((bus_read16 (bus_write16 ctl gba addr half) other).1
            ≡ (if same_cell (other / 2 * 2) (addr / 2 * 2) then half else (bus_read16 gba other).1))
  read-write_ram gba addr other word half h g w b =
      (word_read gba addr other word h g w, half_read gba addr other half h g b)

  -- A write of a word or a halfword to one of the five memories changes that memory only: with its
  -- old contents put back the machine is the one before. A read from them changes nothing.
  pub write_ram_only :
      (gba : Gba) (addr val : ℕ)
      → in_ram (decode_region addr) ≡ true
      → let region = decode_region addr in
        (set_memory (bus_write32 ctl gba addr val) region (memory gba region) ≡ gba)
        × (set_memory (bus_write16 ctl gba addr val) region (memory gba region) ≡ gba)
        × ((bus_read32 gba addr).0 ≡ gba)
        × ((bus_read16 gba addr).0 ≡ gba)
        × ((bus_read8 gba addr).0 ≡ gba)
  write_ram_only gba addr val h =
      let region = decode_region addr in
      (
        rw (write32_ram ctl gba addr region val refl h) (restore_memory gba region _),
        rw (write16_ram ctl gba addr region val refl h) (restore_memory gba region _),
        rw (read32_ram gba addr region refl h) refl,
        rw (read16_ram gba addr region refl h) refl,
        rw (read8_ram gba addr region refl h) refl,
      )
