-- ===== src/Cpu/Bios/Control.antt =====
-- Halt, the waits for interrupts, RegisterRamReset, SoundBias and MidiKey2Freq of
-- src/cpu/bios_hle.c.
use gba_emulator.Base.{
  Bool, bit_and, bit_or, fill, if◌then◌else◌, not32, test_bit, true, u32, u8, update, ℕ, ◌+◌, ◌-◌,
  ◌/◌, ◌==◌, ◌^◌,
}
use gba_emulator.System.State.{Gba, set_cpu}
use gba_emulator.Cpu.State.{Cpu}
use gba_emulator.Cpu.Transfer.{put_reg}
use gba_emulator.Bus.State.{ewram_size, oam_size, palette_size, vram_size}
use gba_emulator.Bus.Memory.{bus_read32, bus_write32}

unfoldable pub swi_halt : Cpu → Cpu
swi_halt cpu = record cpu { halted = true }

module _ (dma_write_control : Gba → ℕ → ℕ → Gba) where
  unfoldable pub swi_intr_wait : Gba → Gba
  unfolding swi_halt
  swi_intr_wait gba =
      let (read, old_flags) = bus_read32 gba 0x03007ff8 in
      let cleared =
        bus_write32 dma_write_control read 0x03007ff8
          (bit_and old_flags (not32 (gba.cpu.regs 1))) in
      let waited = if test_bit (gba.cpu.regs 0) 0 then cleared else gba in
      set_cpu waited (swi_halt waited.cpu)

  unfoldable pub swi_vblank_intr_wait : Gba → Gba
  unfolding swi_intr_wait
  swi_vblank_intr_wait gba = swi_intr_wait (put_reg (put_reg gba 0 1) 1 1)

-- `memset(memory + from, 0, count)` where a flag asks for it
abbrev clear_if : Bool → (ℕ → ℕ) → ℕ → ℕ → ℕ → ℕ
clear_if flag m from count = if flag then fill m from count 0 else m

-- The I/O registers by bits 5 to 7
unfoldable pub reset_io_regs : ℕ → (ℕ → ℕ) → ℕ → ℕ
reset_io_regs flags io_regs =
    let serial = clear_if (test_bit flags 5) io_regs 0x120 0x10 in
    let sound = clear_if (test_bit flags 6) serial 0x60 (0xb0 - 0x60) in
    let display = update (update (fill sound 0 0x60 0) 0 0x80) 1 0 in
    let others =
      fill (fill (fill (fill display 0xb0 (0xe0 - 0xb0) 0) 0x100 0x10 0) 0x130 4 0) 0x200 0x0c 0 in
    if test_bit flags 7 then others else sound

unfoldable pub register_ram_reset : Gba → Gba
unfolding reset_io_regs
register_ram_reset gba =
    let flags = gba.cpu.regs 0 in
    let bus = gba.bus in
    record gba {
      bus = record bus {
        ewram = clear_if (test_bit flags 0) bus.ewram 0 ewram_size;
        iwram = clear_if (test_bit flags 1) bus.iwram 0 0x7e00;
        palette_ram = clear_if (test_bit flags 2) bus.palette_ram 0 palette_size;
        vram = clear_if (test_bit flags 3) bus.vram 0 vram_size;
        oam = clear_if (test_bit flags 4) bus.oam 0 oam_size;
        io_regs = reset_io_regs flags bus.io_regs;
      };
    }

unfoldable pub swi_sound_bias : Gba → Gba
swi_sound_bias gba =
    let target = if gba.cpu.regs 0 == 0 then 0 else 0x200 in
    let soundbias = bit_or (bit_and gba.apu.soundbias 0xc000) target in
    record gba {
      apu = record gba.apu { soundbias = soundbias };
      bus = record gba.bus {
        io_regs = update (update gba.bus.io_regs 0x88 (u8 soundbias)) 0x89 (u8 (soundbias / 2 ^ 8));
      };
    }

-- `midi_freq freq key pitch` is the floating-point result as the `uint32_t` that the function
-- converts it to.
unfoldable pub swi_midi_key2freq : (ℕ → ℕ → ℕ → ℕ) → Gba → Gba
swi_midi_key2freq midi_freq gba =
    let regs = gba.cpu.regs in
    let (read, wave_freq) = bus_read32 gba (u32 (regs 0 + 4)) in
    put_reg read 0 (midi_freq wave_freq (regs 1) (regs 2))
