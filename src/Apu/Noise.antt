-- ===== src/Apu/Noise.antt =====
-- The noise channel: the third part of src/apu/channel.c.
pub mod Lfsr
use gba_emulator.Base.{
  Bool, bit_and, bit_or, bit_xor, false, if◌then◌else◌, ltb, not, not32, true, u16, u32, ℕ, ◌%◌,
  ◌&&◌, ◌*◌, ◌+◌, ◌-◌, ◌/◌, ◌==◌, ◌^◌,
}
use gba_emulator.Apu.State.{NoiseChannel}
use gba_emulator.Apu.Period.{drain}

-- The table of divisors.
unfoldable pub divisor : ℕ → ℕ
divisor code = if code == 0 then 8 else 16 * code

-- C gives `<< shift` a meaning for shifts below 32.
unfoldable pub noise_period : NoiseChannel → ℕ
unfolding divisor
noise_period ch =
    let period = u32 (divisor (ch.divisor_code % 8) * 2 ^ ch.shift) in
    if period == 0 then 8 else period

-- "Advance LFSR"
unfoldable pub advance_lfsr : Bool → ℕ → ℕ
advance_lfsr width_mode lfsr =
    let feedback = bit_xor lfsr (lfsr / 2) % 2 in
    let half = lfsr / 2 in
    if width_mode
    then u16 (bit_or (bit_and half (not32 (2 ^ 6))) (feedback * 2 ^ 6))
    else u16 (bit_or (bit_and half (not32 (2 ^ 14))) (feedback * 2 ^ 14))

unfoldable pub noise_channel_tick : NoiseChannel → ℕ → NoiseChannel
noise_channel_tick ch cycles =
    let (timer, lfsr) =
      drain (advance_lfsr ch.width_mode) (noise_period ch) (u32 (ch.freq_timer + cycles)) ch.lfsr in
    if ch.enabled then record ch { freq_timer = timer; lfsr = lfsr } else ch

unfoldable pub noise_channel_envelope : NoiseChannel → NoiseChannel
noise_channel_envelope ch =
    let timer = if ltb 0 ch.vol_timer then ch.vol_timer - 1 else ch.vol_timer in
    if ch.vol_period == 0
    then ch
    else if timer == 0
    then record ch {
      vol_timer = ch.vol_period;
      volume =
          if ch.vol_dir && ltb ch.volume 15
          then ch.volume + 1
          else if not ch.vol_dir && ltb 0 ch.volume
          then ch.volume - 1
          else ch.volume;
    }
    else record ch { vol_timer = timer }

unfoldable pub noise_channel_trigger : NoiseChannel → NoiseChannel
noise_channel_trigger ch = record ch {
  enabled = if ch.volume == 0 && not ch.vol_dir then false else true;
  length_counter = if ch.length_counter == 0 then 64 else ch.length_counter;
  freq_timer = 0;
  vol_timer = ch.vol_period;
  lfsr = if ch.width_mode then 0x7f else 0x7fff;
}

unfoldable pub noise_channel_length_tick : NoiseChannel → NoiseChannel
noise_channel_length_tick ch =
    if ch.length_enable && ltb 0 ch.length_counter
    then record ch {
      length_counter = ch.length_counter - 1;
      enabled = if ch.length_counter - 1 == 0 then false else ch.enabled;
    }
    else ch
