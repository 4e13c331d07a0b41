-- ===== src/Bus/Narrow.antt =====
-- What a write of 8 bits does in each memory, and the protection of the BIOS.
use gba_emulator.Base.{
  Bool, Bool-cases, ap, ap₂, arith, false, if◌then◌else◌, inl, inr, refl, true, update, ℕ, ◌&&◌,
  ◌*◌, ◌+◌, ◌/◌, ◌==◌, ◌||◌, ◌≡◌, ◌≤◌,
}
use gba_emulator.System.State.{Gba}
use gba_emulator.Cpu.State.{reg_pc}
use gba_emulator.Bus.State.{bios_size}
use gba_emulator.Bus.Bytes.{join2, join4}
use gba_emulator.Bus.Memory.{
  decode_region, read_bios, bus_read8, bus_read16, bus_read32, write_two, bus_write8,
}
use gba_emulator.Bus.Io.Read.{io_read8, read_display, read_timers, read_interrupts}
use gba_emulator.Bus.Ram.{in_ram, memory, set_memory, offset_in, ram_cases, read8_ram}
use gba_emulator.Bus.Storage.{memory-set_memory}

-- Whether a byte at offset `o` of memory `r` is one that an 8-bit write to `addr` sets: the byte
-- itself in EWRAM and IWRAM, both bytes of its halfword in palette RAM and VRAM, none in OAM.
unfoldable pub written_by : ℕ → ℕ → ℕ → Bool
written_by addr r o =
    let region = decode_region addr in
    let off = offset_in region addr in
    if region == 2 || region == 3
    then r == region && o == off
    else if region == 5 || region == 6
    then r == region && o / 2 == off / 2
    else false

-- The memory of a region after the write.
unfoldable stored_byte : ℕ → ℕ → (ℕ → ℕ) → ℕ → ℕ → ℕ
stored_byte region off m val =
    if region == 2 || region == 3
    then update m off val
    else if region == 5 || region == 6
    then write_two m (off / 2 * 2) val val
    else m

module _ (ctl : Gba → ℕ → ℕ → Gba) where
  write8_ram :
      (gba : Gba) (addr region val : ℕ)
      → decode_region addr ≡ region
      → in_ram region ≡ true
      → bus_write8 ctl gba addr val
        ≡ set_memory gba region (stored_byte region (offset_in region addr) (memory gba region) val)
  unfolding bus_write8 stored_byte set_memory memory offset_in
  write8_ram gba addr region val e ram = elim (ram_cases region ram) [
    | inl (inl p) ↦ rw (e, p) refl
    | inl (inr p) ↦ rw (e, p) refl
    | inr (inl p) ↦ rw (e, p) refl
    | inr (inr (inl p)) ↦ rw (e, p) refl
    | inr (inr (inr p)) ↦ rw (e, p) refl
  ]

  write8_memory :
      (gba : Gba) (addr val r o : ℕ)
      → in_ram (decode_region addr) ≡ true
      → in_ram r ≡ true
      → memory (bus_write8 ctl gba addr val) r o
        ≡ (if written_by addr r o then val else memory gba r o)
  unfolding written_by stored_byte
  write8_memory gba addr val r o h g =
      let region = decode_region addr in
      let off = offset_in region addr in
      rw (write8_ram gba addr region val refl h) (
        ground (
          arith,
          memory-set_memory gba region r (stored_byte region off (memory gba region) val) h g,
        ))

  -- An 8-bit write to one of the five memories sets the byte in EWRAM and IWRAM, both bytes of its
  -- halfword in palette RAM and VRAM, and nothing in OAM; each other byte of these memories reads as
  -- before, mirrors included.
  pub read-write_byte :
      (gba : Gba) (addr other val : ℕ)
      → in_ram (decode_region addr) ≡ true
      → in_ram (decode_region other) ≡ true
      → let r = decode_region other in
        (bus_read8 (bus_write8 ctl gba addr val) other).1
        ≡ (if written_by addr r (offset_in r other) then val else (bus_read8 gba other).1)
  read-write_byte gba addr other val h g =
      let r = decode_region other in
      rw (read8_ram (bus_write8 ctl gba addr val) other r refl g, read8_ram gba other r refl g)
        (write8_memory gba addr val r (offset_in r other) h g)

-- The machine with another BIOS
abbrev pub with_bios : Gba → (ℕ → ℕ) → Gba
with_bios gba bios = record gba { bus = record gba.bus { bios = bios } }

-- A read of a byte from outside: it changes nothing, and does not see the BIOS.
outside_read :
    (gba : Gba) (addr : ℕ) → bios_size + 8 ≤ gba.cpu.regs reg_pc → (bus_read8 gba addr).0 ≡ gba
unfolding bus_read8 read_bios
outside_read gba addr outside = ground arith

same_read :
    (gba : Gba) (addr : ℕ) (bios : ℕ → ℕ)
    → bios_size + 8 ≤ gba.cpu.regs reg_pc
    → (bus_read8 (with_bios gba bios) addr).1 ≡ (bus_read8 gba addr).1
unfolding bus_read8 read_bios io_read8 read_display read_timers read_interrupts
same_read gba addr bios outside = elim (Bool-cases (decode_region addr == 0)) [
  | inl low ↦ rw low (ground arith)
  | inr high ↦ rw high refl
]

-- The wider reads are made of bytes, all read from the same machine.
outside_read16 :
    (gba : Gba) (addr : ℕ)
    → bios_size + 8 ≤ gba.cpu.regs reg_pc
    → let at = addr / 2 * 2 in
      bus_read16 gba addr ≡ (gba, join2 (bus_read8 gba at).1 (bus_read8 gba (at + 1)).1)
unfolding bus_read16
outside_read16 gba addr outside =
    let at = addr / 2 * 2 in
    rw (outside_read gba at outside, outside_read gba (at + 1) outside) refl

outside_read32 :
    (gba : Gba) (addr : ℕ)
    → bios_size + 8 ≤ gba.cpu.regs reg_pc
    → let at = addr / 4 * 4 in
      bus_read32 gba addr ≡ (
        gba,
        join4
            (bus_read8 gba at).1
            (bus_read8 gba (at + 1)).1
            (bus_read8 gba (at + 2)).1
            (bus_read8 gba (at + 3)).1,
      )
unfolding bus_read32
outside_read32 gba addr outside =
    let at = addr / 4 * 4 in
    rw
      (
        outside_read gba at outside,
        outside_read gba (at + 1) outside,
        outside_read gba (at + 2) outside,
        outside_read gba (at + 3) outside,
      )
      refl

-- With the program counter at `bios_size + 8` or past it, no read of 8, 16 or 32 bits at any address
-- tells what the BIOS holds: two machines that differ in the BIOS only read the same value, and the
-- read changes nothing.
pub bios_protected :
    (gba : Gba) (addr : ℕ) (bios : ℕ → ℕ)
    → bios_size + 8 ≤ gba.cpu.regs reg_pc
    → let other = with_bios gba bios in
      ((bus_read8 other addr).1 ≡ (bus_read8 gba addr).1)
      × ((bus_read16 other addr).1 ≡ (bus_read16 gba addr).1)
      × ((bus_read32 other addr).1 ≡ (bus_read32 gba addr).1)
      × ((bus_read8 gba addr).0 ≡ gba)
      × ((bus_read16 gba addr).0 ≡ gba)
      × ((bus_read32 gba addr).0 ≡ gba)
bios_protected gba addr bios outside =
    let half = addr / 2 * 2 in
    let word = addr / 4 * 4 in
    let same = λ (at : ℕ). same_read gba at bios outside in
    (
      same addr,
      rw (outside_read16 (with_bios gba bios) addr outside, outside_read16 gba addr outside)
          (ap₂ join2 (same half) (same (half + 1))),
      rw (outside_read32 (with_bios gba bios) addr outside, outside_read32 gba addr outside)
          (simp (same word, same (word + 1), same (word + 2), same (word + 3)) refl),
      outside_read gba addr outside,
      ap (λ r. r.0) (outside_read16 gba addr outside),
      ap (λ r. r.0) (outside_read32 gba addr outside),
    )
