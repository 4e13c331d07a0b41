-- ===== src/Bus/Io/Registers.antt =====
-- The registers that a program writes and reads back.
pub mod Fit
mod Display
mod Sound
mod System
use gba_emulator.Base.{
  Bool, arith, false, if◌then◌else◌, inl, inr, leb, ltb, refl, true, update, ℕ, ◌%◌, ◌&&◌, ◌-◌, ◌/◌,
  ◌<◌, ◌==◌, ◌^◌, ◌||◌, ◌∙◌, ◌≡◌, ◌≤◌, ◌⊎◌,
}
use native.Mathlib.Decide.{dec_lt}
use gba_emulator.System.State.{Gba, store}
use gba_emulator.Bus.Bytes.{byte_at, put_byte, byte_at-put_byte}
use gba_emulator.Bus.Io.Read.{read_display, read_sound_control, read_interrupts, io_read8}
use gba_emulator.Bus.Io.Display.{put_at, write_ppu, write_display}
use gba_emulator.Bus.Io.Sound.{write_sound_control, write_wave_ram, write_sound}
use gba_emulator.Bus.Io.Control.{write_interrupts, write_keys, io_write8}
use gba_emulator.Bus.Io.Registers.Fit.{RegistersFit}
use gba_emulator.Bus.Io.Registers.Display.{dispcnt_lem, bg_cnt_lem}
use gba_emulator.Bus.Io.Registers.Sound.{soundcnt_l_lem, soundbias_lem, wave_ram_lem}
use gba_emulator.Bus.Io.Registers.System.{keycnt_lem, ie_lem, waitcnt_lem}

-- DISPCNT, BG0CNT - BG3CNT, SOUNDCNT_L, SOUNDBIAS, the wave RAM, KEYCNT, IE and WAITCNT
unfoldable pub is_plain : ℕ → Bool
is_plain offset =
    ltb offset 2
    || leb 0x08 offset && ltb offset 0x10
    || leb 0x80 offset && ltb offset 0x82
    || leb 0x88 offset && ltb offset 0x8a
    || leb 0x90 offset && ltb offset 0xa0
    || leb 0x132 offset && ltb offset 0x134
    || leb 0x200 offset && ltb offset 0x202
    || leb 0x204 offset && ltb offset 0x206

io_read8-offset : (gba : Gba) (addr : ℕ) → io_read8 gba addr ≡ io_read8 gba (addr % 2 ^ 10)
unfolding io_read8
io_read8-offset gba addr =
    let same : addr % 2 ^ 10 % 2 ^ 10 ≡ addr % 2 ^ 10 = omega arith in rw same refl

-- The part of `io_write8` that takes a plain register.
route : Gba → ℕ → ℕ → Gba
route gba a val =
    if ltb a 0x60
    then write_display gba a val
    else if ltb a 0xa8
    then write_sound gba a val
    else if ltb a 0x134
    then write_keys gba a val
    else write_interrupts gba a val

plain_keys : (a : ℕ) → is_plain a ≡ true → ¬ (a < 0xa8) → a < 0x134 → 0x132 ≤ a
unfolding is_plain
plain_keys a h low high = ground arith

plain_interrupts : (a : ℕ) → is_plain a ≡ true → ¬ (a < 0x134) → (0x200 ≤ a) × (a < 0x206)
unfolding is_plain
plain_interrupts a h low = ground arith

-- Past the sound registers and not at one of the DMA controls
route_high :
    (ctl : Gba → ℕ → ℕ → Gba) (gba : Gba) (addr val : ℕ)
    → 0x132 ≤ addr % 2 ^ 10
    → addr % 2 ^ 10 < 0x134 ⊎ (0x200 ≤ addr % 2 ^ 10) × (addr % 2 ^ 10 < 0x206)
    → io_write8 ctl gba addr val ≡ (
        if ltb (addr % 2 ^ 10) 0x134
        then write_keys gba (addr % 2 ^ 10) val
        else write_interrupts gba (addr % 2 ^ 10) val)
unfolding io_write8
route_high ctl gba addr val low high =
    let a = addr % 2 ^ 10 in
    let t1 : ltb a 0x60 ≡ false = ground arith in
    let t2 : ltb a 0xa8 ≡ false = ground arith in
    let t3 : (a == 0xbb) ≡ false = ground arith in
    let t4 : (a == 0xc7) ≡ false = ground arith in
    let t5 : (a == 0xd3) ≡ false = ground arith in
    let t6 : (a == 0xdf) ≡ false = ground arith in
    let t7 : ltb a 0x110 ≡ false = ground arith in rw (t1, t2, t3, t4, t5, t6, t7) (ground arith)

io_write8-route :
    (ctl : Gba → ℕ → ℕ → Gba) (gba : Gba) (addr val : ℕ)
    → is_plain (addr % 2 ^ 10) ≡ true
    → io_write8 ctl gba addr val ≡ route gba (addr % 2 ^ 10) val
unfolding route
io_write8-route ctl gba addr val h =
    let a = addr % 2 ^ 10 in
    elim (dec_lt a 0x60) [
      | yes p ↦ let t1 : ltb a 0x60 ≡ true = ground arith in unfold io_write8 in rw t1 refl
      | no p ↦ elim (dec_lt a 0xa8) [
        | yes q ↦
            let t1 : ltb a 0x60 ≡ false = ground arith in
            let t2 : ltb a 0xa8 ≡ true = ground arith in unfold io_write8 in rw (t1, t2) refl
        | no q ↦ elim (dec_lt a 0x134) [
          | yes r ↦
              let low = plain_keys a h q r in route_high ctl gba addr val low (inl r) ∙ ground arith
          | no r ↦
              let (low, high) = plain_interrupts a h r in
              route_high ctl gba addr val (omega arith) (inr (low, high)) ∙ ground arith
        ]
      ]
    ]

route_lem :
    (gba : Gba) (a val : ℕ)
    → RegistersFit gba
    → val < 2 ^ 8
    → is_plain a ≡ true
    → io_read8 (route gba a val) a ≡ val
unfolding is_plain route
route_lem gba a val fit small h = elim (dec_lt a 0x60) [
  | yes p ↦ ground (arith, dispcnt_lem gba a val fit small, bg_cnt_lem gba a val fit small)
  | no p ↦ elim (dec_lt a 0xa8) [
    | yes q ↦ ground (
      arith,
      soundcnt_l_lem gba a val fit small,
      soundbias_lem gba a val fit small,
      wave_ram_lem gba a val fit small,
    )
    | no q ↦ ground (
      arith,
      keycnt_lem gba a val fit small,
      ie_lem gba a val fit small,
      waitcnt_lem gba a val fit small,
    )
  ]
]

-- A byte that is written to DISPCNT, a BGxCNT, SOUNDCNT_L, SOUNDBIAS, the wave RAM, KEYCNT, IE or
-- WAITCNT, each of 16 bits, is read back from there.
pub io_read8-io_write8 :
    (ctl : Gba → ℕ → ℕ → Gba) (gba : Gba) (addr val : ℕ)
    → RegistersFit gba
    → val < 2 ^ 8
    → is_plain (addr % 2 ^ 10) ≡ true
    → io_read8 (io_write8 ctl gba addr val) addr ≡ val
io_read8-io_write8 ctl gba addr val fit small h =
    io_read8-offset (io_write8 ctl gba addr val) addr
    ∙ rw (io_write8-route ctl gba addr val h) (route_lem gba (addr % 2 ^ 10) val fit small h)
