-- ===== src/Bus/Io/Registers/Sound.antt =====
-- SOUNDCNT_L, SOUNDBIAS and the wave RAM: the machine after a write, and what a read gives.
use gba_emulator.Base.{arith, update, ℕ, ◌-◌, ◌<◌, ◌^◌, ◌≡◌, ◌≤◌}
use gba_emulator.System.State.{Gba, store}
use gba_emulator.Bus.Bytes.{byte_at, put_byte, byte_at-put_byte}
use gba_emulator.Bus.Io.Read.{read_sound_control, io_read8}
use gba_emulator.Bus.Io.Sound.{write_sound_control, write_wave_ram, write_sound}
use gba_emulator.Bus.Io.Registers.Fit.{RegistersFit}

soundcnt_l_write :
    (gba : Gba) (a val : ℕ)
    → 0x80 ≤ a
    → a < 0x82
    → write_sound gba a val ≡ record (store gba a val) {
      apu = record gba.apu { soundcnt_l = put_byte a gba.apu.soundcnt_l val };
    }
unfolding write_sound write_sound_control
soundcnt_l_write gba a val low high = ground arith

soundcnt_l_read :
    (gba : Gba) (a : ℕ) → 0x80 ≤ a → a < 0x82 → io_read8 gba a ≡ byte_at a gba.apu.soundcnt_l
unfolding io_read8 read_sound_control
soundcnt_l_read gba a low high = ground arith

pub soundcnt_l_lem :
    (gba : Gba) (a val : ℕ)
    → RegistersFit gba
    → val < 2 ^ 8
    → 0x80 ≤ a
    → a < 0x82
    → io_read8 (write_sound gba a val) a ≡ val
soundcnt_l_lem gba a val fit small low high =
    rw
      (
        soundcnt_l_write gba a val low high,
        soundcnt_l_read
            (record (store gba a val) {
              apu = record gba.apu { soundcnt_l = put_byte a gba.apu.soundcnt_l val };
            })
            a low high,
      )
      (ground (arith, byte_at-put_byte a a gba.apu.soundcnt_l val fit.soundcnt_l_fits small))

soundbias_write :
    (gba : Gba) (a val : ℕ)
    → 0x88 ≤ a
    → a < 0x8a
    → write_sound gba a val ≡ record (store gba a val) {
      apu = record gba.apu { soundbias = put_byte a gba.apu.soundbias val };
    }
unfolding write_sound write_sound_control
soundbias_write gba a val low high = ground arith

soundbias_read :
    (gba : Gba) (a : ℕ) → 0x88 ≤ a → a < 0x8a → io_read8 gba a ≡ byte_at a gba.apu.soundbias
unfolding io_read8 read_sound_control
soundbias_read gba a low high = ground arith

pub soundbias_lem :
    (gba : Gba) (a val : ℕ)
    → RegistersFit gba
    → val < 2 ^ 8
    → 0x88 ≤ a
    → a < 0x8a
    → io_read8 (write_sound gba a val) a ≡ val
soundbias_lem gba a val fit small low high =
    rw
      (
        soundbias_write gba a val low high,
        soundbias_read
            (record (store gba a val) {
              apu = record gba.apu { soundbias = put_byte a gba.apu.soundbias val };
            })
            a low high,
      )
      (ground (arith, byte_at-put_byte a a gba.apu.soundbias val fit.soundbias_fits small))

wave_ram_write :
    (gba : Gba) (a val : ℕ)
    → 0x90 ≤ a
    → a < 0xa0
    → write_sound gba a val ≡ record (store gba a val) {
      apu = record gba.apu {
        ch3 = record gba.apu.ch3 { wave_ram = update gba.apu.ch3.wave_ram (a - 0x90) val };
      };
    }
unfolding write_sound write_wave_ram
wave_ram_write gba a val low high = ground arith

wave_ram_read :
    (gba : Gba) (a : ℕ) → 0x90 ≤ a → a < 0xa0 → io_read8 gba a ≡ gba.apu.ch3.wave_ram (a - 0x90)
unfolding io_read8
wave_ram_read gba a low high = ground arith

pub wave_ram_lem :
    (gba : Gba) (a val : ℕ)
    → RegistersFit gba
    → val < 2 ^ 8
    → 0x90 ≤ a
    → a < 0xa0
    → io_read8 (write_sound gba a val) a ≡ val
wave_ram_lem gba a val fit small low high =
    rw
      (
        wave_ram_write gba a val low high,
        wave_ram_read
            (record (store gba a val) {
              apu = record gba.apu {
                ch3 = record gba.apu.ch3 { wave_ram = update gba.apu.ch3.wave_ram (a - 0x90) val };
              };
            })
            a low high,
      )
      (ground arith)
