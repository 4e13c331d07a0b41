-- ===== src/Bus/Io/Sound.antt =====
-- The writes of `io_write8` to the registers of the sound unit, 0x60 - 0xA7.
use gba_emulator.Base.{
  Bool, bit, bit_and, bit_or, bits, false, fill, if◌then◌else◌, ltb, not, test_bit, true, u8,
  update, ℕ, ◌%◌, ◌&&◌, ◌*◌, ◌+◌, ◌-◌, ◌/◌, ◌==◌, ◌^◌, ◌||◌,
}
use gba_emulator.System.State.{Gba, set_apu, store}
use gba_emulator.Apu.State.{Apu, SquareChannel, WaveChannel, NoiseChannel, Fifo}
use gba_emulator.Apu.Square.{square_channel_trigger}
use gba_emulator.Apu.Wave.{wave_channel_trigger}
use gba_emulator.Apu.Noise.{noise_channel_trigger}
use gba_emulator.Apu.Fifo.{fifo_reset, apu_fifo_write}
use gba_emulator.Bus.Bytes.{put_byte, join4}

-- The low eight and the high three bits of a frequency
abbrev pub frequency_low : ℕ → ℕ → ℕ
frequency_low frequency val = bit_or (bit_and frequency 0x700) val

abbrev pub frequency_high : ℕ → ℕ → ℕ
frequency_high frequency val = bit_or (bit_and frequency 0xff) (val % 8 * 2 ^ 8)

-- SOUND1CNT, less the sweep, and SOUND2CNT: `reg` is 0 for length and duty, 1 for the envelope,
-- 2 for the low byte of the frequency and 3 for the byte with the trigger.
unfoldable pub write_square : Bool → SquareChannel → ℕ → ℕ → SquareChannel
write_square has_sweep ch reg val =
    let written : SquareChannel = record ch {
      frequency = frequency_high ch.frequency val;
      length_enable = test_bit val 6;
    } in
    if reg == 0
    then record ch { length_counter = 64 - val % 64; duty_cycle = val / 2 ^ 6 % 4 }
    else if reg == 1
    then record ch { vol_period = val % 8; vol_dir = test_bit val 3; volume = val / 2 ^ 4 % 16 }
    else if reg == 2
    then record ch { frequency = frequency_low ch.frequency val }
    else if test_bit val 7
    then square_channel_trigger written has_sweep
    else written

-- SOUND1CNT_L
unfoldable pub write_sweep : SquareChannel → ℕ → SquareChannel
write_sweep ch val = record ch {
  sweep_shift = val % 8;
  sweep_dir = test_bit val 3;
  sweep_period = bits val 6 4;
}

-- SOUND3CNT
unfoldable pub write_wave : WaveChannel → ℕ → ℕ → WaveChannel
write_wave ch offset val =
    let written : WaveChannel = record ch {
      frequency = frequency_high ch.frequency val;
      length_enable = test_bit val 6;
    } in
    if offset == 0x70
    then record ch {
      bank_mode = test_bit val 5;
      bank_select = bit val 6;
      enabled = if not (test_bit val 7) then false else ch.enabled;
    }
    else if offset == 0x72
    then record ch { length_counter = 256 - val }
    else if offset == 0x73
    then record ch { volume_code = bits val 6 5; force_volume = test_bit val 7 }
    else if offset == 0x74
    then record ch { frequency = frequency_low ch.frequency val }
    else if test_bit val 7
    then wave_channel_trigger written
    else written

-- SOUND4CNT
unfoldable pub write_noise : NoiseChannel → ℕ → ℕ → NoiseChannel
write_noise ch offset val =
    let written : NoiseChannel = record ch { length_enable = test_bit val 6 } in
    if offset == 0x78
    then record ch { length_counter = 64 - val % 64 }
    else if offset == 0x79
    then record ch { vol_period = val % 8; vol_dir = test_bit val 3; volume = val / 2 ^ 4 % 16 }
    else if offset == 0x7c
    then record ch { divisor_code = val % 8; width_mode = test_bit val 3; shift = val / 2 ^ 4 % 16 }
    else if test_bit val 7
    then noise_channel_trigger written
    else written

-- The offsets of 0x60 - 0x7F that `io_write8` returns from without a change
unfoldable pub unused_sound : ℕ → Bool
unused_sound offset =
    offset == 0x61
    || offset == 0x66
    || offset == 0x67
    || offset == 0x6a
    || offset == 0x6b
    || offset == 0x6e
    || offset == 0x6f
    || offset == 0x71
    || offset == 0x76
    || offset == 0x77
    || offset == 0x7a
    || offset == 0x7b
    || offset == 0x7e
    || offset == 0x7f

unfoldable pub write_channel : Apu → ℕ → ℕ → Apu
unfolding write_sweep write_square write_wave write_noise
write_channel apu offset val =
    if offset == 0x60
    then record apu { ch1 = write_sweep apu.ch1 val }
    else if ltb offset 0x66
    then record apu { ch1 = write_square true apu.ch1 (offset - 0x62) val }
    else if ltb offset 0x6a
    then record apu { ch2 = write_square false apu.ch2 (offset - 0x68) val }
    else if ltb offset 0x6e
    then record apu { ch2 = write_square false apu.ch2 (offset - 0x6a) val }
    else if ltb offset 0x76
    then record apu { ch3 = write_wave apu.ch3 offset val }
    else record apu { ch4 = write_noise apu.ch4 offset val }

-- 0x60 - 0x7F: "Ignore writes if master sound is off"
unfoldable pub write_legacy : Gba → ℕ → ℕ → Gba
unfolding unused_sound write_channel
write_legacy gba offset val =
    if unused_sound offset
    then gba
    else if not (test_bit gba.apu.soundcnt_x 7)
    then gba
    else set_apu (store gba offset val) (write_channel gba.apu offset val)

-- The channels as `memset` leaves them
abbrev pub square_off : SquareChannel
square_off = record {
  enabled = false;
  length_counter = 0;
  length_enable = false;
  frequency = 0;
  freq_timer = 0;
  duty_cycle = 0;
  duty_pos = 0;
  volume = 0;
  vol_period = 0;
  vol_dir = false;
  vol_timer = 0;
  sweep_period = 0;
  sweep_dir = false;
  sweep_shift = 0;
  sweep_timer = 0;
  sweep_freq = 0;
  sweep_enabled = false;
}

abbrev pub wave_off : WaveChannel
wave_off = record {
  enabled = false;
  length_counter = 0;
  length_enable = false;
  frequency = 0;
  freq_timer = 0;
  wave_ram = λ _. 0;
  wave_pos = 0;
  volume_code = 0;
  bank_mode = false;
  bank_select = 0;
  force_volume = false;
}

abbrev pub noise_off : NoiseChannel
noise_off = record {
  enabled = false;
  length_counter = 0;
  length_enable = false;
  volume = 0;
  vol_period = 0;
  vol_dir = false;
  vol_timer = 0;
  lfsr = 0;
  width_mode = false;
  divisor_code = 0;
  shift = 0;
  freq_timer = 0;
}

-- SOUNDCNT_H, high byte: the timers of the FIFOs and their resets
unfoldable pub write_fifo_control : Apu → ℕ → ℕ → Apu
unfolding put_byte
write_fifo_control apu offset val =
    let a : Fifo = record apu.fifo_a { timer_id = bit val 2 } in
    let b : Fifo = record apu.fifo_b { timer_id = bit val 6 } in
    record apu {
      soundcnt_h = put_byte offset apu.soundcnt_h val;
      fifo_a = if test_bit val 3 then fifo_reset a else a;
      fifo_b = if test_bit val 7 then fifo_reset b else b;
    }

-- SOUNDCNT_X: the master enable; "Turning master off resets all channel state"
unfoldable pub write_master : Gba → ℕ → Gba
write_master gba val =
    let apu = gba.apu in
    let now_enabled = test_bit val 7 in
    let soundcnt_x = bit_or (bit_and apu.soundcnt_x 0x000f) (if now_enabled then 0x80 else 0x00) in
    let written =
      store (set_apu gba (record apu { soundcnt_x = soundcnt_x })) 0x84 (u8 soundcnt_x) in
    if test_bit apu.soundcnt_x 7 && not now_enabled
    then record written {
      apu = record written.apu {
        ch1 = square_off;
        ch2 = square_off;
        ch3 = wave_off;
        ch4 = noise_off;
        soundcnt_l = 0;
      };
      bus = record written.bus { io_regs = fill written.bus.io_regs 0x60 0x22 0 };
    }
    else written

-- 0x80 - 0x8F
unfoldable pub write_sound_control : Gba → ℕ → ℕ → Gba
unfolding put_byte write_fifo_control write_master
write_sound_control gba offset val =
    let apu = gba.apu in
    let stored = store gba offset val in
    if ltb offset 0x82
    then set_apu stored (record apu { soundcnt_l = put_byte offset apu.soundcnt_l val })
    else if offset == 0x82
    then set_apu stored (record apu { soundcnt_h = put_byte offset apu.soundcnt_h val })
    else if offset == 0x83
    then set_apu stored (write_fifo_control apu offset val)
    else if offset == 0x84
    then write_master gba val
    else if offset == 0x88 || offset == 0x89
    then set_apu stored (record apu { soundbias = put_byte offset apu.soundbias val })
    else gba

-- 0x90 - 0x9F
unfoldable pub write_wave_ram : Gba → ℕ → ℕ → Gba
write_wave_ram gba offset val =
    let apu = gba.apu in
    set_apu (store gba offset val) (record apu {
      ch3 = record apu.ch3 { wave_ram = update apu.ch3.wave_ram (offset - 0x90) val };
    })

-- The word of a FIFO register: three stored bytes and the one that completes it
unfoldable pub fifo_word : (ℕ → ℕ) → ℕ → ℕ → ℕ
fifo_word io_regs base val = join4 (io_regs base) (io_regs (base + 1)) (io_regs (base + 2)) val

-- 0xA0 - 0xA7: the fourth byte of a FIFO register writes the word.
unfoldable pub write_fifo : Gba → ℕ → ℕ → Gba
unfolding fifo_word
write_fifo gba offset val =
    let stored = store gba offset val in
    if offset == 0xa3
    then set_apu stored (apu_fifo_write gba.apu 0 (fifo_word stored.bus.io_regs 0xa0 val))
    else if offset == 0xa7
    then set_apu stored (apu_fifo_write gba.apu 1 (fifo_word stored.bus.io_regs 0xa4 val))
    else stored

-- 0x60 - 0xA7
unfoldable pub write_sound : Gba → ℕ → ℕ → Gba
unfolding write_legacy write_sound_control write_wave_ram write_fifo
write_sound gba offset val =
    if ltb offset 0x80
    then write_legacy gba offset val
    else if ltb offset 0x90
    then write_sound_control gba offset val
    else if ltb offset 0xa0
    then write_wave_ram gba offset val
    else write_fifo gba offset val
