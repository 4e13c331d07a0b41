-- ===== src/Apu/State.antt =====
-- The data of src/apu/apu.h. Arrays are functions of the index; an `int8_t` or `int16_t` is its bit
-- pattern.
use gba_emulator.Base.{Bool, ℕ}

abbrev pub fifo_size : ℕ
fifo_size = 32

pub record Fifo : Type 0 where
  pub buffer : ℕ → ℕ
  pub read_idx : ℕ
  pub write_idx : ℕ
  pub count : ℕ
  pub timer_id : ℕ
  pub last_sample : ℕ

pub record SquareChannel : Type 0 where
  pub enabled : Bool
  pub length_counter : ℕ
  pub length_enable : Bool
  pub frequency : ℕ
  pub freq_timer : ℕ
  pub duty_cycle : ℕ
  pub duty_pos : ℕ
  pub volume : ℕ
  pub vol_period : ℕ
  pub vol_dir : Bool
  pub vol_timer : ℕ
  pub sweep_period : ℕ
  pub sweep_dir : Bool
  pub sweep_shift : ℕ
  pub sweep_timer : ℕ
  pub sweep_freq : ℕ
  pub sweep_enabled : Bool

pub record WaveChannel : Type 0 where
  pub enabled : Bool
  pub length_counter : ℕ
  pub length_enable : Bool
  pub frequency : ℕ
  pub freq_timer : ℕ
  pub wave_ram : ℕ → ℕ
  pub wave_pos : ℕ
  pub volume_code : ℕ
  pub bank_mode : Bool
  pub bank_select : ℕ
  pub force_volume : Bool

pub record NoiseChannel : Type 0 where
  pub enabled : Bool
  pub length_counter : ℕ
  pub length_enable : Bool
  pub volume : ℕ
  pub vol_period : ℕ
  pub vol_dir : Bool
  pub vol_timer : ℕ
  pub lfsr : ℕ
  pub width_mode : Bool
  pub divisor_code : ℕ
  pub shift : ℕ
  pub freq_timer : ℕ

-- `struct APU`, less its pointer to the DMA controller.
pub record Apu : Type 0 where
  pub ch1 : SquareChannel
  pub ch2 : SquareChannel
  pub ch3 : WaveChannel
  pub ch4 : NoiseChannel
  pub fifo_a : Fifo
  pub fifo_b : Fifo
  pub fifo_a_latch : ℕ
  pub fifo_b_latch : ℕ
  pub soundcnt_l : ℕ
  pub soundcnt_h : ℕ
  pub soundcnt_x : ℕ
  pub soundbias : ℕ
  pub frame_seq_step : ℕ
  pub frame_seq_timer : ℕ
  pub sample_timer : ℕ
  pub sample_period : ℕ
  pub sample_buffer : ℕ → ℕ
  pub write_pos : ℕ
  pub read_pos : ℕ
  pub prev_left : ℕ
  pub prev_right : ℕ
