-- ===== src/Apu/Tests.antt =====
-- The theorems on the sound unit at concrete states.
use gba_emulator.Base.{inl, inr, List, [], arith, false, refl, true, ℕ, ◌+◌, ◌∷◌, ◌≡◌}
use gba_emulator.Apu.Mix.Range.{OutputIsValid, pending_samples}
use gba_emulator.Apu.Frame.{apu_tick}
use gba_emulator.Apu.Frame.Tick.{apu_tick_lem}
use gba_emulator.Apu.State.{Apu, Fifo, SquareChannel, WaveChannel, NoiseChannel}
use gba_emulator.Apu.Fifo.{fifo_write, fifo_pop}
use gba_emulator.Apu.Fifo.Queue.{IsValid, contents, push, pop, walk, fifo_write-push, fifo_pop-pop}
use gba_emulator.Apu.Square.{
  square_channel_sweep, square_channel_envelope, square_channel_length_tick, square_channel_trigger,
}
use gba_emulator.Apu.Square.Bounds.{SquareIsValid, square-IsValid}
use gba_emulator.Apu.Noise.{noise_channel_tick, noise_channel_trigger}
use gba_emulator.Apu.Noise.Lfsr.{Running, noise-Running}

-- Two samples that stand across the end of the ring.
abbrev ring : Fifo
ring = record {
  buffer = λ i. i + 100;
  read_idx = 31;
  write_idx = 1;
  count = 2;
  timer_id = 0;
  last_sample = 7;
}

ring-IsValid : IsValid ring
ring-IsValid = record { counted = omega arith; reads = omega arith; writes = refl }

fifo_write-push_example :
    IsValid (fifo_write ring 0x04030201)
    × (contents (fifo_write ring 0x04030201) ≡ 131 ∷ 100 ∷ 1 ∷ 2 ∷ 3 ∷ 4 ∷ [])
unfolding contents walk push
fifo_write-push_example = fifo_write-push ring 0x04030201 ring-IsValid

fifo_pop-pop_example :
    IsValid (fifo_pop ring).0
    × (◌≡◌ {A = List ℕ × ℕ} (contents (fifo_pop ring).0, (fifo_pop ring).1) (100 ∷ [], 131))
    × ((fifo_pop ring).0.last_sample ≡ (fifo_pop ring).1)
unfolding contents walk pop
fifo_pop-pop_example = fifo_pop-pop ring ring-IsValid

abbrev square : SquareChannel
square = record {
  enabled = true;
  length_counter = 1;
  length_enable = true;
  frequency = 2000;
  freq_timer = 700;
  duty_cycle = 2;
  duty_pos = 7;
  volume = 15;
  vol_period = 1;
  vol_dir = true;
  vol_timer = 1;
  sweep_period = 1;
  sweep_dir = false;
  sweep_shift = 1;
  sweep_timer = 1;
  sweep_freq = 2000;
  sweep_enabled = true;
}

square-IsValid_example :
    SquareIsValid (square_channel_sweep square)
    × SquareIsValid (square_channel_envelope square)
    × SquareIsValid (square_channel_length_tick square)
    × SquareIsValid (square_channel_trigger square true)
square-IsValid_example = square-IsValid square true (record {
  pitch = omega arith;
  shadow = omega arith;
  loudness = omega arith;
  remaining = omega arith;
})

abbrev wave : WaveChannel
wave = record {
  enabled = true;
  length_counter = 0;
  length_enable = false;
  frequency = 2047;
  freq_timer = 3;
  wave_ram = λ _. 0;
  wave_pos = 31;
  volume_code = 1;
  bank_mode = false;
  bank_select = 0;
  force_volume = false;
}

abbrev noise : NoiseChannel
noise = record {
  enabled = true;
  length_counter = 0;
  length_enable = false;
  volume = 3;
  vol_period = 0;
  vol_dir = false;
  vol_timer = 0;
  lfsr = 1;
  width_mode = true;
  divisor_code = 0;
  shift = 0;
  freq_timer = 0;
}

noise-Running_example :
    Running true (noise_channel_tick noise 800).lfsr
    × ((noise_channel_trigger noise).lfsr ≡ 127)
    × Running true (noise_channel_trigger noise).lfsr
unfolding Running
noise-Running_example = noise-Running noise 800 (omega arith, omega arith)

abbrev sounding : Apu
sounding = record {
  ch1 = square;
  ch2 = square;
  ch3 = wave;
  ch4 = noise;
  fifo_a = ring;
  fifo_b = ring;
  fifo_a_latch = 200;
  fifo_b_latch = 100;
  soundcnt_l = 0xff77;
  soundcnt_h = 0x330e;
  soundcnt_x = 0x80;
  soundbias = 0x200;
  frame_seq_step = 7;
  frame_seq_timer = 32000;
  sample_timer = 500;
  sample_period = 512;
  sample_buffer = λ _. 0;
  write_pos = 4094;
  read_pos = 0;
  prev_left = 0;
  prev_right = 65000;
}

-- Three samples are due, and one has a place.
apu_tick_lem_example :
    OutputIsValid (apu_tick sounding 1100)
    × (pending_samples (apu_tick sounding 1100) ≡ 4095)
    × ((apu_tick sounding 1100).sample_timer ≡ 64)
    × ((apu_tick sounding 1100).frame_seq_timer ≡ 332)
    × ((apu_tick sounding 1100).frame_seq_step ≡ 0)
apu_tick_lem_example =
    apu_tick_lem sounding 1100 (omega arith)
      (record {
        left = inl (omega arith);
        right = inr (omega arith, omega arith);
        writes = omega arith;
        reads = omega arith;
        buffered = λ i. inl (omega arith);
      })
      (omega arith)
