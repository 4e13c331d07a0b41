-- ===== src/Bus/Ram.antt =====
-- The five writable memories of the bus, EWRAM, IWRAM, palette RAM, VRAM and OAM, as arrays by the
-- region of the address: what reads and writes of each width do there.
use gba_emulator.Base.{
  Bool, ap, arith, if◌then◌else◌, inl, inr, refl, true, u8, update, ℕ, ◌%◌, ◌*◌, ◌+◌, ◌/◌, ◌<◌,
  ◌==◌, ◌^◌, ◌||◌, ◌∙◌, ◌≡◌, ◌⊎◌,
}
use native.Mathlib.Decide.{ℕ_discrete}
use gba_emulator.System.State.{Gba}
use gba_emulator.Bus.State.{ewram_size, iwram_size, palette_size, vram_size, oam_size}
use gba_emulator.Bus.Memory.{
  decode_region, vram_offset, read_region, bus_read8, set_ewram, set_iwram, set_palette_ram,
  set_vram, set_oam, write_two, write_four, bus_write8, bus_write16, write_bytes, bus_write32,
}

unfoldable pub in_ram : ℕ → Bool
in_ram region = region == 2 || region == 3 || region == 5 || region == 6 || region == 7

pub ram_cases :
    (region : ℕ)
    → in_ram region ≡ true
    → ((region ≡ 2) ⊎ (region ≡ 3)) ⊎ ((region ≡ 5) ⊎ (region ≡ 6) ⊎ (region ≡ 7))
unfolding in_ram
ram_cases region ram = elim (ℕ_discrete region 2) [
  | yes e ↦ inl (inl e)
  | no n2 ↦ elim (ℕ_discrete region 3) [
    | yes e ↦ inl (inr e)
    | no n3 ↦ elim (ℕ_discrete region 5) [
      | yes e ↦ inr (inl e)
      | no n5 ↦ elim (ℕ_discrete region 6) [
        | yes e ↦ inr (inr (inl e))
        | no n6 ↦ inr (inr (inr (ground arith)))
      ]
    ]
  ]
]

unfoldable pub memory : Gba → ℕ → ℕ → ℕ
memory gba region =
    if region == 2
    then gba.bus.ewram
    else if region == 3
    then gba.bus.iwram
    else if region == 5
    then gba.bus.palette_ram
    else if region == 6
    then gba.bus.vram
    else gba.bus.oam

unfoldable pub set_memory : Gba → ℕ → (ℕ → ℕ) → Gba
set_memory gba region m =
    if region == 2
    then set_ewram gba m
    else if region == 3
    then set_iwram gba m
    else if region == 5
    then set_palette_ram gba m
    else if region == 6
    then set_vram gba m
    else set_oam gba m

unfoldable pub offset_in : ℕ → ℕ → ℕ
offset_in region addr =
    if region == 2
    then addr % ewram_size
    else if region == 3
    then addr % iwram_size
    else if region == 5
    then addr % palette_size
    else if region == 6
    then vram_offset addr
    else addr % oam_size

unfoldable pub memory_size : ℕ → ℕ
memory_size region =
    if region == 2
    then ewram_size
    else if region == 3
    then iwram_size
    else if region == 5
    then palette_size
    else if region == 6
    then vram_size
    else oam_size

-- Where the address leads is inside the array, with the bytes that a halfword or a word spans.
offset_in-lt :
    (region addr : ℕ)
    → (offset_in region addr < memory_size region)
      × (offset_in region (addr / 2 * 2) + 1 < memory_size region)
      × (offset_in region (addr / 4 * 4) + 3 < memory_size region)
unfolding offset_in memory_size vram_offset
offset_in-lt region addr = ground arith

-- The bytes of a halfword or a word stand in their region, side by side.
pub offset_in_half :
    (region addr k : ℕ)
    → k < 2
    → offset_in region (addr / 2 * 2 + k) ≡ offset_in region (addr / 2 * 2) + k
unfolding offset_in vram_offset
offset_in_half region addr k h = ground arith

pub offset_in_word :
    (region addr k : ℕ)
    → k < 4
    → offset_in region (addr / 4 * 4 + k) ≡ offset_in region (addr / 4 * 4) + k
unfolding offset_in vram_offset
offset_in_word region addr k h = ground arith

pub region_half : (addr k : ℕ) → k < 2 → decode_region (addr / 2 * 2 + k) ≡ decode_region addr
unfolding decode_region
region_half addr k h = omega arith

pub region_word : (addr k : ℕ) → k < 4 → decode_region (addr / 4 * 4 + k) ≡ decode_region addr
unfolding decode_region
region_word addr k h = omega arith

pub region_aligned : (addr : ℕ) → decode_region (addr / 4 * 4) ≡ decode_region addr
unfolding decode_region
region_aligned addr = omega arith

pub read8_ram :
    (gba : Gba) (addr region : ℕ)
    → decode_region addr ≡ region
    → in_ram region ≡ true
    → bus_read8 gba addr ≡ (gba, memory gba region (offset_in region addr))
unfolding in_ram memory offset_in bus_read8 read_region
read8_ram gba addr region e ram = ground arith

module _ (ctl : Gba → ℕ → ℕ → Gba) where
  -- One byte of EWRAM or IWRAM
  pub write8_work :
      (gba : Gba) (addr region val : ℕ)
      → decode_region addr ≡ region
      → (region ≡ 2) ⊎ (region ≡ 3)
      → bus_write8 ctl gba addr val
        ≡ set_memory gba region (update (memory gba region) (offset_in region addr) val)
  unfolding bus_write8 set_memory memory offset_in
  write8_work gba addr region val e (inl p) = ground arith
  write8_work gba addr region val e (inr p) = ground arith

  pub write16_ram :
      (gba : Gba) (addr region val : ℕ)
      → decode_region addr ≡ region
      → in_ram region ≡ true
      → bus_write16 ctl gba addr val
        ≡ set_memory gba region (
            write_two
              (memory gba region)
              (offset_in region (addr / 2 * 2))
              (u8 val)
              (u8 (val / 2 ^ 8)))
  unfolding in_ram bus_write16 bus_write8 set_memory memory offset_in
  write16_ram gba addr region val e ram =
      ground (arith, region_half addr 0, region_half addr 1, offset_in_half region addr 1)

  write8_again :
      (gba : Gba) (m : ℕ → ℕ) (addr region val : ℕ)
      → decode_region addr ≡ region
      → (region ≡ 2) ⊎ (region ≡ 3)
      → bus_write8 ctl (set_memory gba region m) addr val
        ≡ set_memory gba region (update m (offset_in region addr) val)
  unfolding bus_write8 set_memory memory offset_in
  write8_again gba m addr region val e (inl p) = ground arith
  write8_again gba m addr region val e (inr p) = ground arith

  write_bytes_work :
      (gba : Gba) (addr region val : ℕ)
      → decode_region addr ≡ region
      → (region ≡ 2) ⊎ (region ≡ 3)
      → write_bytes ctl gba (addr / 4 * 4) val
        ≡ set_memory gba region
            (write_four (offset_in region) (memory gba region) (addr / 4 * 4) val)
  unfolding write_bytes write_four
  write_bytes_work gba addr region val e work =
      let at = addr / 4 * 4 in
      let to = offset_in region in
      let m0 = update (memory gba region) (to at) (u8 val) in
      let m1 = update m0 (to (at + 1)) (u8 (val / 2 ^ 8)) in
      let m2 = update m1 (to (at + 2)) (u8 (val / 2 ^ 16)) in
      let here : (k : ℕ) → k < 4 → decode_region (at + k) ≡ region =
        λ k p. region_word addr k p ∙ e in
      ap
        (λ g.
          bus_write8 ctl
            (bus_write8 ctl (bus_write8 ctl g (at + 1) (u8 (val / 2 ^ 8))) (at + 2)
              (u8 (val / 2 ^ 16)))
            (at + 3) (u8 (val / 2 ^ 24)))
        (write8_work gba at region (u8 val) (region_aligned addr ∙ e) work)
      ∙ ap
          (λ g.
            bus_write8 ctl (bus_write8 ctl g (at + 2) (u8 (val / 2 ^ 16))) (at + 3)
              (u8 (val / 2 ^ 24)))
          (write8_again gba m0 (at + 1) region (u8 (val / 2 ^ 8)) (here 1 (omega arith)) work)
      ∙ ap (λ g. bus_write8 ctl g (at + 3) (u8 (val / 2 ^ 24)))
          (write8_again gba m1 (at + 2) region (u8 (val / 2 ^ 16)) (here 2 (omega arith)) work)
      ∙ write8_again gba m2 (at + 3) region (u8 (val / 2 ^ 24)) (here 3 (omega arith)) work

  pub write32_ram :
      (gba : Gba) (addr region val : ℕ)
      → decode_region addr ≡ region
      → in_ram region ≡ true
      → bus_write32 ctl gba addr val
        ≡ set_memory gba region
            (write_four (offset_in region) (memory gba region) (addr / 4 * 4) val)
  write32_ram gba addr region val e ram =
      let here = region_aligned addr ∙ e in
      elim (ram_cases region ram) [
        | inl (inl p) ↦
            unfold bus_write32 in
            rw (here, p) (rw p at (write_bytes_work gba addr region val e (inl p)))
        | inl (inr p) ↦
            unfold bus_write32 in
            rw (here, p) (rw p at (write_bytes_work gba addr region val e (inr p)))
        | inr (inl p) ↦ unfold bus_write32 set_memory memory offset_in in rw (here, p) refl
        | inr (inr (inl p)) ↦ unfold bus_write32 set_memory memory offset_in in rw (here, p) refl
        | inr (inr (inr p)) ↦ unfold bus_write32 set_memory memory offset_in in rw (here, p) refl
      ]
