-- ===== src/Apu/Mix/Range.antt =====
-- The samples that the mixer leaves, and its ring buffer.
use gba_emulator.Base.{
  arith, by_test, either_case, if◌then◌else◌, refl, sign16, ◌∙◌, true, false, update, ℕ, ◌%◌, ◌*◌,
  ◌+◌, ◌-◌, ◌<◌, ◌==◌, ◌^◌, ◌≡◌, ◌≤◌, ◌⊎◌,
}
use gba_emulator.Apu.State.{Apu}
use gba_emulator.Apu.Mix.{
  side_sum, bias_of, clamp10, clamp16, quarter, low_pass, raw_sample, sample_buffer_size,
  apu_mix_sample,
}

-- A sample of 16 bits from -16352 to 32736, which are 32 times -511 and 32 times 1023
abbrev pub InRange : ℕ → Type 0
InRange s = (s ≤ 32736) ⊎ (2 ^ 16 - 16352 ≤ s) × (s < 2 ^ 16)

raw-InRange : (bias sum : ℕ) → bias < 2 ^ 9 → InRange (raw_sample bias sum)
unfolding raw_sample clamp10 clamp16
raw-InRange bias sum h = ground arith

low_pass-InRange : (prev s : ℕ) → InRange prev → InRange s → InRange (low_pass prev s)
unfolding low_pass quarter sign16
low_pass-InRange prev s p q = ground arith

bias_of-lt : (apu : Apu) → bias_of apu < 2 ^ 9
unfolding bias_of
bias_of-lt apu = omega arith

-- The samples that the mixer has put into the buffer and nothing has taken out
abbrev pub pending_samples : Apu → ℕ
pending_samples apu = (apu.write_pos + sample_buffer_size - apu.read_pos) % sample_buffer_size

-- The samples left behind and buffered are in range, the positions are in the buffer.
pub record OutputFits (prev_left prev_right write_pos read_pos : ℕ) (buffer : ℕ → ℕ) : Type 0 where
  pub left : InRange prev_left
  pub right : InRange prev_right
  pub writes : write_pos < sample_buffer_size
  pub reads : read_pos < sample_buffer_size
  pub buffered : (i : ℕ) → InRange (buffer i)

abbrev pub OutputIsValid : Apu → Type 0
OutputIsValid apu =
    OutputFits apu.prev_left apu.prev_right apu.write_pos apu.read_pos apu.sample_buffer

update-InRange :
    (buffer : ℕ → ℕ) (i v : ℕ)
    → ((j : ℕ) → InRange (buffer j))
    → InRange v
    → (j : ℕ) → InRange (update buffer i v j)
update-InRange buffer i v p q j = either_case InRange (j == i) q (p j)

unfoldable left_output : Apu → ℕ
left_output apu = low_pass apu.prev_left (raw_sample (bias_of apu) (side_sum apu 12 4 9 13))

unfoldable right_output : Apu → ℕ
right_output apu = low_pass apu.prev_right (raw_sample (bias_of apu) (side_sum apu 8 0 8 12))

output-InRange :
    (apu : Apu) (prev sum : ℕ)
    → InRange prev
    → InRange (low_pass prev (raw_sample (bias_of apu) sum))
output-InRange apu prev sum p =
    low_pass-InRange prev (raw_sample (bias_of apu) sum) p
      (raw-InRange (bias_of apu) sum (bias_of-lt apu))

-- The number between two positions of a ring of 4096, when the first moves on
full_ring :
    (w r : ℕ)
    → w < 4096
    → r < 4096
    → ((w + 1) % 4096 == r) ≡ true
    → (w + 4096 - r) % 4096
      ≡ (if (w + 4096 - r) % 4096 == 4095 then 4095 else (w + 4096 - r) % 4096 + 1)
full_ring w r p q full =
    let count : (w + 4096 - r) % 4096 ≡ 4095 = ground arith in count ∙ rw (count) refl

free_ring :
    (w r : ℕ)
    → w < 4096
    → r < 4096
    → ((w + 1) % 4096 == r) ≡ false
    → ((w + 1) % 4096 + 4096 - r) % 4096
      ≡ (if (w + 4096 - r) % 4096 == 4095 then 4095 else (w + 4096 - r) % 4096 + 1)
free_ring w r p q free = ground arith

-- The mixer keeps the output valid and adds one pending sample, unless 4095 are.
pub mix-IsValid :
    (apu : Apu)
    → OutputIsValid apu
    → OutputIsValid (apu_mix_sample apu)
      × (pending_samples (apu_mix_sample apu)
          ≡ (if pending_samples apu == 4095 then 4095 else pending_samples apu + 1))
unfolding apu_mix_sample left_output right_output
mix-IsValid apu h =
    let left = output-InRange apu apu.prev_left (side_sum apu 12 4 9 13) h.left in
    let right = output-InRange apu apu.prev_right (side_sum apu 8 0 8 12) h.right in
    let w = h.writes in
    let r = h.reads in
    let write_pos = apu.write_pos in
    let read_pos = apu.read_pos in
    let kept : Apu = record apu { prev_left = left_output apu; prev_right = right_output apu } in
    by_test
      (λ (after : Apu).
        OutputIsValid after
        × (pending_samples after
            ≡ (if pending_samples apu == 4095 then 4095 else pending_samples apu + 1)))
      ((write_pos + 1) % 4096 == read_pos)
      (λ full. (
        record { left = left; right = right; writes = w; reads = r; buffered = h.buffered },
        full_ring write_pos read_pos w r full,
      ))
      (λ free. (
        record {
          left = left;
          right = right;
          writes = omega arith;
          reads = r;
          buffered =
              update-InRange (update apu.sample_buffer (write_pos * 2) (left_output apu))
                (write_pos * 2 + 1) (right_output apu)
                (update-InRange apu.sample_buffer (write_pos * 2) (left_output apu) h.buffered left)
                right;
        },
        free_ring write_pos read_pos w r free,
      ))
