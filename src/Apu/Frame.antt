-- ===== src/Apu/Frame.antt =====
-- `apu_tick` of src/apu/apu.c. The loops are those of the module Period; the period of
-- the samples, which `apu_init` sets and nothing changes, is not 0.
pub mod Tick
use gba_emulator.Base.{if◌then◌else◌, not, test_bit, u32, ℕ, ◌%◌, ◌+◌, ◌-◌, ◌/◌, ◌==◌, ◌^◌, ◌||◌}
use gba_emulator.Apu.State.{Apu}
use gba_emulator.Apu.Period.{drain}
use gba_emulator.Apu.Square.{
  square_channel_tick, square_channel_sweep, square_channel_envelope, square_channel_length_tick,
}
use gba_emulator.Apu.Wave.{wave_channel_tick, wave_channel_length_tick}
use gba_emulator.Apu.Noise.{noise_channel_tick, noise_channel_envelope, noise_channel_length_tick}
use gba_emulator.Apu.Mix.{apu_mix_sample}

abbrev pub frame_seq_period : ℕ
frame_seq_period = 32768

-- "Length counters: steps 0, 2, 4, 6"
unfoldable pub tick_lengths : Apu → Apu
tick_lengths apu = record apu {
  ch1 = square_channel_length_tick apu.ch1;
  ch2 = square_channel_length_tick apu.ch2;
  ch3 = wave_channel_length_tick apu.ch3;
  ch4 = noise_channel_length_tick apu.ch4;
}

-- "Sweep (Ch1 only): steps 2, 6"
unfoldable pub tick_sweep : Apu → Apu
tick_sweep apu = record apu { ch1 = square_channel_sweep apu.ch1 }

-- "Envelope: step 7"
unfoldable pub tick_envelopes : Apu → Apu
tick_envelopes apu = record apu {
  ch1 = square_channel_envelope apu.ch1;
  ch2 = square_channel_envelope apu.ch2;
  ch4 = noise_channel_envelope apu.ch4;
}

-- A round of the frame sequencer
unfoldable pub sequence_step : Apu → Apu
unfolding tick_lengths tick_sweep tick_envelopes
sequence_step apu =
    let step = apu.frame_seq_step in
    let timed = if step % 2 == 0 then tick_lengths apu else apu in
    let swept = if step == 2 || step == 6 then tick_sweep timed else timed in
    let shaped = if step == 7 then tick_envelopes swept else swept in
    record shaped { frame_seq_step = (step + 1) % 8 }

unfoldable pub run_sequencer : Apu → ℕ → Apu
unfolding sequence_step
run_sequencer apu cycles =
    let (timer, done) =
      drain sequence_step frame_seq_period (u32 (apu.frame_seq_timer + cycles)) apu in
    record done { frame_seq_timer = timer }

unfoldable pub tick_channels : Apu → ℕ → Apu
tick_channels apu cycles = record apu {
  ch1 = square_channel_tick apu.ch1 cycles;
  ch2 = square_channel_tick apu.ch2 cycles;
  ch3 = wave_channel_tick apu.ch3 cycles;
  ch4 = noise_channel_tick apu.ch4 cycles;
}

unfoldable pub generate_samples : Apu → ℕ → Apu
generate_samples apu cycles =
    let (timer, done) =
      drain apu_mix_sample apu.sample_period (u32 (apu.sample_timer + cycles)) apu in
    record done { sample_timer = timer }

unfoldable pub apu_tick : Apu → ℕ → Apu
unfolding run_sequencer tick_channels generate_samples
apu_tick apu cycles =
    if not (test_bit apu.soundcnt_x 7)
    then apu
    else generate_samples (tick_channels (run_sequencer apu cycles) cycles) cycles
