-- ===== src/Apu/Mix.antt =====
-- `apu_mix_sample` of src/apu/apu.c. Signed numbers are their bit patterns, of 32 bits in the sums and
-- of 16 bits in the samples.
pub mod Range
use gba_emulator.Base.{
  Bool, List, [], bits, entry, if◌then◌else◌, ltb, not, sign16, sign8, sub32, test_bit, u16, u32,
  update, ℕ, ◌%◌, ◌&&◌, ◌*◌, ◌+◌, ◌-◌, ◌/◌, ◌==◌, ◌^◌, ◌∷◌,
}
use gba_emulator.Apu.State.{Apu, SquareChannel, WaveChannel, NoiseChannel}

abbrev pub sample_buffer_size : ℕ
sample_buffer_size = 4096

-- `duty_table`
abbrev duty_rows : List (List ℕ)
duty_rows =
    (0 ∷ 0 ∷ 0 ∷ 0 ∷ 0 ∷ 0 ∷ 0 ∷ 1 ∷ [])
    ∷ (1 ∷ 0 ∷ 0 ∷ 0 ∷ 0 ∷ 0 ∷ 0 ∷ 1 ∷ [])
    ∷ (1 ∷ 0 ∷ 0 ∷ 0 ∷ 0 ∷ 1 ∷ 1 ∷ 1 ∷ [])
    ∷ (0 ∷ 1 ∷ 1 ∷ 1 ∷ 1 ∷ 1 ∷ 1 ∷ 0 ∷ [])
    ∷ []

unfoldable pub duty_table : ℕ → ℕ → ℕ
duty_table duty_cycle duty_pos = entry 0 (entry [] duty_rows duty_cycle) duty_pos

unfoldable pub square_output : SquareChannel → ℕ
unfolding duty_table
square_output ch =
    if ch.enabled then if duty_table ch.duty_cycle ch.duty_pos == 0 then 0 else ch.volume else 0

-- "Volume shift: 0=mute, 1=100%, 2=50%, 3=25%"
unfoldable pub volume_shift : ℕ → ℕ → ℕ
volume_shift code sample =
    if code == 0
    then 0
    else if code == 1
    then sample
    else if code == 2
    then sample / 2
    else if code == 3
    then sample / 4
    else sample

unfoldable pub wave_output : WaveChannel → ℕ
unfolding volume_shift
wave_output ch =
    let byte = ch.wave_ram (ch.wave_pos / 2) in
    let sample =
      volume_shift ch.volume_code (if ch.wave_pos % 2 == 1 then byte % 16 else byte / 2 ^ 4) in
    if ch.enabled then if ch.force_volume then sample * 3 / 4 else sample else 0

unfoldable pub noise_output : NoiseChannel → ℕ
noise_output ch = if ch.enabled then if ch.lfsr % 2 == 1 then 0 else ch.volume else 0

-- "Mix legacy channels": the channels whose bit from `from` on is set
unfoldable pub enabled_sum : Apu → ℕ → ℕ
unfolding square_output wave_output noise_output
enabled_sum apu from =
    let cnt_l = apu.soundcnt_l in
    (if test_bit cnt_l from then square_output apu.ch1 else 0)
    + (if test_bit cnt_l (from + 1) then square_output apu.ch2 else 0)
    + (if test_bit cnt_l (from + 2) then wave_output apu.ch3 else 0)
    + (if test_bit cnt_l (from + 3) then noise_output apu.ch4 else 0)

-- The master volume, and the ratio of SOUNDCNT_H
unfoldable pub scale_legacy : ℕ → ℕ → ℕ → ℕ
scale_legacy ratio volume sum =
    let legacy = sum * (volume + 1) / 8 in
    if ratio == 0 then legacy / 4 else if ratio == 1 then legacy / 2 else legacy

-- A FIFO sample by its volume bit, on 32 bits
unfoldable pub fifo_level : Bool → ℕ → ℕ
fifo_level full latch = u32 (sign8 latch * (if full then 4 else 2))

-- One side: `from` and `shift` are the positions of its bits in SOUNDCNT_L, and `a` and `b` are
-- those of its two FIFOs in SOUNDCNT_H.
unfoldable pub side_sum : Apu → ℕ → ℕ → ℕ → ℕ → ℕ
unfolding enabled_sum scale_legacy fifo_level
side_sum apu from shift a b =
    let cnt_h = apu.soundcnt_h in
    let legacy = scale_legacy (cnt_h % 4) (apu.soundcnt_l / 2 ^ shift % 8) (enabled_sum apu from) in
    let with_a =
      if test_bit cnt_h a
      then u32 (legacy + fifo_level (test_bit cnt_h 2) apu.fifo_a_latch)
      else legacy in
    if test_bit cnt_h b
    then u32 (with_a + fifo_level (test_bit cnt_h 3) apu.fifo_b_latch)
    else with_a

-- `(apu->soundbias >> 1) & 0x1FF`
unfoldable pub bias_of : Apu → ℕ
bias_of apu = apu.soundbias / 2 % 2 ^ 9

-- "Clamp to 10-bit unsigned range"
unfoldable pub clamp10 : ℕ → ℕ
clamp10 v = if test_bit v 31 then 0 else if ltb 0x3ff v then 0x3ff else v

-- The clamp to 16 bits
unfoldable pub clamp16 : ℕ → ℕ
clamp16 v =
    if not (test_bit v 31) && ltb 32767 v
    then 32767
    else if test_bit v 31 && ltb v (2 ^ 32 - 32768)
    then 2 ^ 32 - 32768
    else v

-- `/ 4` on `int32_t`, which rounds towards zero
unfoldable pub quarter : ℕ → ℕ
quarter v = if test_bit v 31 then sub32 0 (sub32 0 v / 4) else v / 4

-- "Single-pole IIR low-pass filter"
unfoldable pub low_pass : ℕ → ℕ → ℕ
unfolding quarter
low_pass prev sample = u16 (quarter (u32 (sign16 prev + 3 * sign16 sample)))

-- A side with its bias, as the sample before the filter
unfoldable pub raw_sample : ℕ → ℕ → ℕ
unfolding clamp10 clamp16
raw_sample bias sum = u16 (clamp16 (u32 (sub32 (clamp10 (u32 (sum + bias))) bias * 32)))

unfoldable pub apu_mix_sample : Apu → Apu
unfolding side_sum bias_of raw_sample low_pass
apu_mix_sample apu =
    let bias = bias_of apu in
    let left = low_pass apu.prev_left (raw_sample bias (side_sum apu 12 4 9 13)) in
    let right = low_pass apu.prev_right (raw_sample bias (side_sum apu 8 0 8 12)) in
    let pos = apu.write_pos in
    let next_pos = (pos + 1) % sample_buffer_size in
    let filtered : Apu = record apu { prev_left = left; prev_right = right } in
    if next_pos == apu.read_pos then filtered else record filtered {
      sample_buffer = update (update apu.sample_buffer (pos * 2) left) (pos * 2 + 1) right;
      write_pos = next_pos;
    }
