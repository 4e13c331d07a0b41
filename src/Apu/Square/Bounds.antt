-- ===== src/Apu/Square/Bounds.antt =====
-- The ranges that the registers and counters of a square channel keep.
use gba_emulator.Base.{Bool, arith, ◌<◌, ◌≤◌}
use gba_emulator.Apu.State.{SquareChannel}
use gba_emulator.Apu.Square.{
  square_channel_sweep, sweep_step, square_channel_envelope, square_channel_length_tick,
  square_channel_trigger, trigger_sweep,
}

pub record SquareIsValid (ch : SquareChannel) : Type 0 where
  pub pitch : ch.frequency < 2048
  pub shadow : ch.sweep_freq < 2048
  pub loudness : ch.volume < 16
  pub remaining : ch.length_counter ≤ 64

-- The sweep, the envelope, the length counter and the trigger of a square channel keep its pitches
-- below 2048, its volume below 16 and its length counter within 64.
pub square-IsValid :
    (ch : SquareChannel) (has_sweep : Bool)
    → SquareIsValid ch
    → SquareIsValid (square_channel_sweep ch)
      × SquareIsValid (square_channel_envelope ch)
      × SquareIsValid (square_channel_length_tick ch)
      × SquareIsValid (square_channel_trigger ch has_sweep)
unfolding square_channel_sweep sweep_step square_channel_envelope square_channel_length_tick
    square_channel_trigger trigger_sweep
square-IsValid ch has_sweep valid = (
  record {
    pitch = ground arith;
    shadow = ground arith;
    loudness = ground arith;
    remaining = ground arith;
  },
  record {
    pitch = ground arith;
    shadow = ground arith;
    loudness = ground arith;
    remaining = ground arith;
  },
  record {
    pitch = ground arith;
    shadow = ground arith;
    loudness = ground arith;
    remaining = ground arith;
  },
  record {
    pitch = ground arith;
    shadow = ground arith;
    loudness = ground arith;
    remaining = ground arith;
  },
)
