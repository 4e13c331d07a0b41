-- ===== src/Apu/Square.antt =====
-- The square channels: the first part of src/apu/channel.c.
pub mod Tick
pub mod Bounds
use gba_emulator.Base.{
  Bool, false, if◌then◌else◌, ltb, not, true, u16, u32, ℕ, ◌%◌, ◌&&◌, ◌*◌, ◌+◌, ◌-◌, ◌/◌, ◌==◌, ◌^◌,
  ◌||◌,
}
use gba_emulator.Apu.State.{SquareChannel}
use gba_emulator.Apu.Period.{drain}

-- `(2048 - frequency) * 16` on `uint32_t`
unfoldable pub square_period : ℕ → ℕ
square_period frequency =
    let period = u32 ((2 ^ 32 + 2048 - frequency) * 16) in if period == 0 then 16 else period

unfoldable pub square_channel_tick : SquareChannel → ℕ → SquareChannel
square_channel_tick ch cycles =
    let (timer, pos) =
      drain (λ pos. (pos + 1) % 8) (square_period ch.frequency) (u32 (ch.freq_timer + cycles))
        ch.duty_pos in
    if ch.enabled then record ch { freq_timer = timer; duty_pos = pos } else ch

-- "Secondary overflow check"
abbrev pub check_next : SquareChannel → SquareChannel
check_next ch =
    if ltb 2047 (u16 (ch.sweep_freq + ch.sweep_freq / 2 ^ ch.sweep_shift))
    then record ch { enabled = false }
    else ch

abbrev pub set_sweep : SquareChannel → ℕ → SquareChannel
set_sweep ch new_freq = record ch { sweep_freq = new_freq; frequency = new_freq }

-- A sweep step, once its timer has run out.
unfoldable pub sweep_step : SquareChannel → SquareChannel
sweep_step ch =
    let delta = ch.sweep_freq / 2 ^ ch.sweep_shift in
    let up = u16 (ch.sweep_freq + delta) in
    if ltb 0 ch.sweep_shift
    then if ch.sweep_dir
      then set_sweep ch (if ltb ch.sweep_freq delta then 0 else ch.sweep_freq - delta)
      else if ltb 2047 up
      then record ch { enabled = false }
      else check_next (set_sweep ch up)
    else ch

unfoldable pub square_channel_sweep : SquareChannel → SquareChannel
unfolding sweep_step
square_channel_sweep ch =
    let timer = if ltb 0 ch.sweep_timer then ch.sweep_timer - 1 else ch.sweep_timer in
    if not ch.sweep_enabled
    then ch
    else if ch.sweep_period == 0
    then ch
    else if timer == 0
    then sweep_step (record ch { sweep_timer = ch.sweep_period })
    else record ch { sweep_timer = timer }

unfoldable pub square_channel_envelope : SquareChannel → SquareChannel
square_channel_envelope ch =
    let timer = if ltb 0 ch.vol_timer then ch.vol_timer - 1 else ch.vol_timer in
    if ch.vol_period == 0
    then ch
    else if timer == 0
    then record ch {
      vol_timer = ch.vol_period;
      volume =
          if ch.vol_dir && ltb ch.volume 15
          then ch.volume + 1
          else if not ch.vol_dir && ltb 0 ch.volume
          then ch.volume - 1
          else ch.volume;
    }
    else record ch { vol_timer = timer }

unfoldable pub square_channel_length_tick : SquareChannel → SquareChannel
square_channel_length_tick ch =
    if ch.length_enable && ltb 0 ch.length_counter
    then record ch {
      length_counter = ch.length_counter - 1;
      enabled = if ch.length_counter - 1 == 0 then false else ch.enabled;
    }
    else ch

-- The sweep part of a trigger, with its overflow check.
unfoldable pub trigger_sweep : SquareChannel → SquareChannel
trigger_sweep ch =
    let delta = ch.frequency / 2 ^ ch.sweep_shift in
    let new_freq =
      if ch.sweep_dir then u16 (ch.frequency + 2 ^ 16 - delta) else u16 (ch.frequency + delta) in
    record ch {
      sweep_freq = ch.frequency;
      sweep_timer = ch.sweep_period;
      sweep_enabled = ltb 0 ch.sweep_period || ltb 0 ch.sweep_shift;
      enabled = if ltb 0 ch.sweep_shift && ltb 2047 new_freq then false else ch.enabled;
    }

unfoldable pub square_channel_trigger : SquareChannel → Bool → SquareChannel
unfolding trigger_sweep
square_channel_trigger ch has_sweep =
    let started = record ch {
      enabled = true;
      length_counter = if ch.length_counter == 0 then 64 else ch.length_counter;
      freq_timer = 0;
      vol_timer = ch.vol_period;
    } in
    let swept = if has_sweep then trigger_sweep started else started in
    if swept.volume == 0 && not swept.vol_dir then record swept { enabled = false } else swept
