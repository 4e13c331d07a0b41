-- ===== src/System/Tests.antt =====
-- The timers of the machine over a long tick, while FIFO A plays at the rate of timer 1 and channel 1
-- refills it from EWRAM.
use gba_emulator.Base.{arith, false, refl, true, ℕ, ◌≡◌}
use gba_emulator.System.State.{Gba}
use gba_emulator.System.Rest.{at_rest, rest_apu, rest_dma, rest_fifo}
use gba_emulator.System.Playback.{tick_timers}
use gba_emulator.System.Timers.{RefillsOnly, writes_fifo, tick_timers_counts}
use gba_emulator.Dma.State.{channel_off}
use gba_emulator.Dma.{dma_write_control_to}
use gba_emulator.Timer.{Timer}
use gba_emulator.Timer.Count.{closed_form}
use gba_emulator.Timer.Tick.{IsValid}

abbrev fast : Timer
fast = record {
  counter = 0xfff0;
  reload = 0xfff0;
  control = 0x81;
  prescaler = 64;
  cascade = false;
  irq_enable = true;
  enabled = true;
  prescaler_counter = 0;
}

abbrev playing : Gba
playing = record at_rest {
  timers = λ _. fast;
  dma = record rest_dma {
    channels = λ _. record channel_off {
      source = 0x02000000;
      dest = 0x040000a0;
      timing = 3;
      repeat = true;
      enabled = true;
    };
  };
  apu = record rest_apu { fifo_a = record rest_fifo { timer_id = 1; count = 3 } };
}

abbrev nested : Gba → ℕ → ℕ → Gba
nested = dma_write_control_to 2

fast-IsValid : IsValid fast
fast-IsValid = record {
  counter_fits = omega arith;
  reload_fits = omega arith;
  divides = omega arith;
  divides_fits = omega arith;
  rest_below = omega arith;
}

-- 1,300 cycles are 20 ticks and a rest of 20: one wrap, and four past the reload value.
tick_timers_counts_example :
    (tick_timers nested playing 1300).timers 1
    ≡ record fast { prescaler_counter = 20; counter = 0xfff4 }
unfolding closed_form
tick_timers_counts_example =
    tick_timers_counts nested playing 1300 1 (unfold RefillsOnly writes_fifo in (refl, refl))
      (omega arith) fast-IsValid (omega arith) refl refl
