-- ===== src/Apu/Wave/Tick.antt =====
-- The frequency timer of the wave channel in closed form.
use gba_emulator.Base.{ap, arith, if◌then◌else◌, u32, ℕ, ◌%◌, ◌*◌, ◌+◌, ◌-◌, ◌/◌, ◌<◌, ◌∙◌, ◌≡◌}
use gba_emulator.Apu.State.{WaveChannel}
use gba_emulator.Apu.Period.{drain, iterate_wheel, rounds_lem}
use gba_emulator.Apu.Wave.{wave_period, wave_channel_tick, wave_channel_trigger}

-- An enabled channel of pitch `f` below 2048 and a position below 32 moves one of its 32 samples
-- for each `(2048 - f) * 8` cycles of its 32-bit timer, which keeps the rest, and a disabled one
-- keeps both; after a trigger the position is the number of whole periods of the cycles, from the
-- first sample on.
wave_channel_tick_lem :
    (ch : WaveChannel) (cycles : ℕ)
    → ch.frequency < 2048
    → ch.wave_pos < 32
    → let total = u32 (ch.freq_timer + cycles) in
      let period = (2048 - ch.frequency) * 8 in
      let ticked = wave_channel_tick ch cycles in
      (ticked.freq_timer ≡ (if ch.enabled then total % period else ch.freq_timer))
      × (ticked.wave_pos
          ≡ (if ch.enabled then (ch.wave_pos + total / period) % 32 else ch.wave_pos))
      × ((wave_channel_tick (wave_channel_trigger ch) cycles).wave_pos ≡ u32 cycles / period % 32)
unfolding wave_channel_tick wave_channel_trigger
wave_channel_tick_lem ch cycles h p =
    simp (same_period, loop total ch.wave_pos p, loop (u32 (0 + cycles)) 0 (omega arith))
      (ground arith)
  where
    total : ℕ
    total = u32 (ch.freq_timer + cycles)

    period : ℕ
    period = (2048 - ch.frequency) * 8

    same_period : wave_period ch.frequency ≡ period
    same_period = unfold wave_period in ground arith

    loop :
        (timer pos : ℕ)
        → pos < 32
        → drain (λ pos. (pos + 1) % 32) period timer pos
          ≡ (timer % period, (pos + timer / period) % 32)
    loop timer pos below =
        rounds_lem (λ pos. (pos + 1) % 32) timer period timer pos (omega arith) (omega arith)
        ∙ ap (λ pos. (timer % period, pos)) (iterate_wheel 32 (timer / period) pos (omega arith))
