-- ===== src/Bus/Steady.antt =====
-- What the bus leaves of the processor: a read leaves all of it, and a write all but the flag that
-- halts it, where a nested DMA transfer does.
use gba_emulator.Base.{
  ap, arith, either_branch, leb, ltb, refl, u8, ℕ, ◌%◌, ◌&&◌, ◌*◌, ◌+◌, ◌/◌, ◌==◌, ◌^◌, ◌||◌, ◌∙◌,
  ◌≡◌,
}
use gba_emulator.System.State.{Gba}
use gba_emulator.Bus.Memory.{
  read_bios, bus_read8, bus_read16, bus_read32, bus_write8, bus_write16, write_bytes, bus_write32,
}
use gba_emulator.Bus.Io.Display.{write_dispstat, write_display}
use gba_emulator.Bus.Io.Sound.{
  write_legacy, write_master, write_sound_control, write_wave_ram, write_fifo, write_sound,
}
use gba_emulator.Bus.Io.Control.{
  write_interrupts, write_timers, latch_channel, write_dma, write_halt, write_keys, io_write8,
}

pub read8-cpu : (gba : Gba) (addr : ℕ) → (bus_read8 gba addr).0.cpu ≡ gba.cpu
unfolding bus_read8 read_bios
read8-cpu gba addr = ground arith

pub read16-cpu : (gba : Gba) (addr : ℕ) → (bus_read16 gba addr).0.cpu ≡ gba.cpu
unfolding bus_read16
read16-cpu gba addr =
    read8-cpu (bus_read8 gba (addr / 2 * 2)).0 (addr / 2 * 2 + 1) ∙ read8-cpu gba (addr / 2 * 2)

pub read32-cpu : (gba : Gba) (addr : ℕ) → (bus_read32 gba addr).0.cpu ≡ gba.cpu
unfolding bus_read32
read32-cpu gba addr =
    let at = addr / 4 * 4 in
    let g1 = (bus_read8 gba at).0 in
    let g2 = (bus_read8 g1 (at + 1)).0 in
    let g3 = (bus_read8 g2 (at + 2)).0 in
    read8-cpu g3 (at + 3) ∙ read8-cpu g2 (at + 2) ∙ read8-cpu g1 (at + 1) ∙ read8-cpu gba at

-- The count of executed cycles
unfoldable pub executed : Gba → ℕ
executed gba = gba.cpu.cycles_executed

module _ (gba : Gba) (addr : ℕ) where
  pub read8_executed : executed (bus_read8 gba addr).0 ≡ executed gba
  unfolding executed
  read8_executed = ap (λ c. c.cycles_executed) (read8-cpu gba addr)

  pub read16_executed : executed (bus_read16 gba addr).0 ≡ executed gba
  unfolding executed
  read16_executed = ap (λ c. c.cycles_executed) (read16-cpu gba addr)

  pub read32_executed : executed (bus_read32 gba addr).0 ≡ executed gba
  unfolding executed
  read32_executed = ap (λ c. c.cycles_executed) (read32-cpu gba addr)

display_executed : (gba : Gba) (a v : ℕ) → executed (write_display gba a v) ≡ executed gba
unfolding executed write_display write_dispstat
display_executed gba a v = ground arith

control_executed : (gba : Gba) (a v : ℕ) → executed (write_sound_control gba a v) ≡ executed gba
unfolding executed write_sound_control write_master
control_executed gba a v = ground arith

legacy_executed : (gba : Gba) (a v : ℕ) → executed (write_legacy gba a v) ≡ executed gba
unfolding executed write_legacy
legacy_executed gba a v = ground arith

fifo_executed : (gba : Gba) (a v : ℕ) → executed (write_fifo gba a v) ≡ executed gba
unfolding executed write_fifo
fifo_executed gba a v = ground arith

sound_executed : (gba : Gba) (a v : ℕ) → executed (write_sound gba a v) ≡ executed gba
unfolding write_sound
sound_executed gba a v = either_branch executed (ltb a 0x80) (legacy_executed gba a v) (
    either_branch executed (ltb a 0x90) (control_executed gba a v) (
      either_branch executed (ltb a 0xa0) (unfold executed write_wave_ram in refl)
        (fifo_executed gba a v)))

interrupts_executed : (gba : Gba) (a v : ℕ) → executed (write_interrupts gba a v) ≡ executed gba
unfolding executed write_interrupts
interrupts_executed gba a v = ground arith

timers_executed : (gba : Gba) (a v : ℕ) → executed (write_timers gba a v) ≡ executed gba
unfolding executed write_timers
timers_executed gba a v = ground arith

keys_executed : (gba : Gba) (a v : ℕ) → executed (write_keys gba a v) ≡ executed gba
unfolding executed write_keys
keys_executed gba a v = ground arith

-- The call that a write may make keeps the count.
abbrev pub KeepsCount : (Gba → ℕ → ℕ → Gba) → Type 0
KeepsCount ctl = (gba : Gba) (ch val : ℕ) → executed (ctl gba ch val) ≡ executed gba

module _ (ctl : Gba → ℕ → ℕ → Gba) (keeps : KeepsCount ctl) where
  dma_executed : (gba : Gba) (a v : ℕ) → executed (write_dma ctl gba a v) ≡ executed gba
  unfolding write_dma
  dma_executed gba a v = keeps _ _ _ ∙ unfold executed latch_channel in refl

  io_executed : (gba : Gba) (addr v : ℕ) → executed (io_write8 ctl gba addr v) ≡ executed gba
  unfolding io_write8
  io_executed gba addr v =
      let a = addr % 2 ^ 10 in
      either_branch executed (ltb a 0x60) (display_executed gba a v) (
        either_branch executed (ltb a 0xa8) (sound_executed gba a v) (
          either_branch executed (a == 0xbb || a == 0xc7 || a == 0xd3 || a == 0xdf)
            (dma_executed gba a v)
            (either_branch executed (leb 0x100 a && ltb a 0x110) (timers_executed gba a v) (
              either_branch executed (leb 0x130 a && ltb a 0x134) (keys_executed gba a v) (
                either_branch executed (leb 0x200 a && ltb a 0x20a) (interrupts_executed gba a v) (
                  either_branch executed (a == 0x301) (unfold executed write_halt in refl)
                    (unfold executed in refl)))))))

  pub write8_executed :
      (gba : Gba) (addr v : ℕ) → executed (bus_write8 ctl gba addr v) ≡ executed gba
  write8_executed gba addr v =
      let io = io_executed gba addr v in unfold executed bus_write8 in ground arith

  pub write16_executed :
      (gba : Gba) (addr v : ℕ) → executed (bus_write16 ctl gba addr v) ≡ executed gba
  write16_executed gba addr v =
      let at = addr / 2 * 2 in
      let two =
        write8_executed (bus_write8 ctl gba at (u8 v)) (at + 1) (u8 (v / 2 ^ 8))
        ∙ write8_executed gba at (u8 v) in
      unfold executed bus_write16 in ground arith

  bytes_executed : (gba : Gba) (at v : ℕ) → executed (write_bytes ctl gba at v) ≡ executed gba
  unfolding write_bytes
  bytes_executed gba at v =
      let g1 = bus_write8 ctl gba at (u8 v) in
      let g2 = bus_write8 ctl g1 (at + 1) (u8 (v / 2 ^ 8)) in
      let g3 = bus_write8 ctl g2 (at + 2) (u8 (v / 2 ^ 16)) in
      write8_executed g3 (at + 3) (u8 (v / 2 ^ 24))
      ∙ write8_executed g2 (at + 2) (u8 (v / 2 ^ 16))
      ∙ write8_executed g1 (at + 1) (u8 (v / 2 ^ 8))
      ∙ write8_executed gba at (u8 v)

  pub write32_executed :
      (gba : Gba) (addr v : ℕ) → executed (bus_write32 ctl gba addr v) ≡ executed gba
  write32_executed gba addr v =
      let four = bytes_executed gba (addr / 4 * 4) v in unfold executed bus_write32 in ground arith
