-- ===== src/Apu/Square/Tick.antt =====
-- The frequency timer of a square channel in closed form.
use gba_emulator.Base.{ap, arith, if◌then◌else◌, u32, ℕ, ◌%◌, ◌*◌, ◌+◌, ◌-◌, ◌/◌, ◌<◌, ◌∙◌, ◌≡◌}
use gba_emulator.Apu.State.{SquareChannel}
use gba_emulator.Apu.Period.{drain, iterate_wheel, rounds_lem}
use gba_emulator.Apu.Square.{square_period, square_channel_tick}

-- An enabled channel of pitch `f` below 2048 and a duty position below 8 moves one position, of
-- eight, for each `(2048 - f) * 16` cycles of its 32-bit timer, which keeps the rest; a disabled
-- one keeps both.
square_channel_tick_lem :
    (ch : SquareChannel) (cycles : ℕ)
    → ch.frequency < 2048
    → ch.duty_pos < 8
    → let total = u32 (ch.freq_timer + cycles) in
      let period = (2048 - ch.frequency) * 16 in
      let ticked = square_channel_tick ch cycles in
      (ticked.freq_timer ≡ (if ch.enabled then total % period else ch.freq_timer))
      × (ticked.duty_pos ≡ (if ch.enabled then (ch.duty_pos + total / period) % 8 else ch.duty_pos))
unfolding square_channel_tick
square_channel_tick_lem ch cycles h p = simp (same_period, loop) (ground arith)
  where
    total : ℕ
    total = u32 (ch.freq_timer + cycles)

    period : ℕ
    period = (2048 - ch.frequency) * 16

    same_period : square_period ch.frequency ≡ period
    same_period = unfold square_period in ground arith

    loop :
        drain (λ pos. (pos + 1) % 8) period total ch.duty_pos
        ≡ (total % period, (ch.duty_pos + total / period) % 8)
    loop =
        rounds_lem (λ pos. (pos + 1) % 8) total period total ch.duty_pos (omega arith) (omega arith)
        ∙ ap (λ pos. (total % period, pos))
            (iterate_wheel 8 (total / period) ch.duty_pos (omega arith))
