-- ===== src/Apu/Wave.antt =====
-- The wave channel: the second part of src/apu/channel.c.
pub mod Tick
use gba_emulator.Base.{false, if◌then◌else◌, ltb, true, u32, ℕ, ◌%◌, ◌&&◌, ◌*◌, ◌+◌, ◌-◌, ◌==◌, ◌^◌}
use gba_emulator.Apu.State.{WaveChannel}
use gba_emulator.Apu.Period.{drain}

-- `(2048 - frequency) * 8` on `uint32_t`
unfoldable pub wave_period : ℕ → ℕ
wave_period frequency =
    let period = u32 ((2 ^ 32 + 2048 - frequency) * 8) in if period == 0 then 8 else period

unfoldable pub wave_channel_tick : WaveChannel → ℕ → WaveChannel
wave_channel_tick ch cycles =
    let (timer, pos) =
      drain (λ pos. (pos + 1) % 32) (wave_period ch.frequency) (u32 (ch.freq_timer + cycles))
        ch.wave_pos in
    if ch.enabled then record ch { freq_timer = timer; wave_pos = pos } else ch

unfoldable pub wave_channel_trigger : WaveChannel → WaveChannel
wave_channel_trigger ch = record ch {
  enabled = true;
  length_counter = if ch.length_counter == 0 then 256 else ch.length_counter;
  freq_timer = 0;
  wave_pos = 0;
}

unfoldable pub wave_channel_length_tick : WaveChannel → WaveChannel
wave_channel_length_tick ch =
    if ch.length_enable && ltb 0 ch.length_counter
    then record ch {
      length_counter = ch.length_counter - 1;
      enabled = if ch.length_counter - 1 == 0 then false else ch.enabled;
    }
    else ch
