-- ===== src/Apu/Frame/Tick.antt =====
-- `apu_tick` in closed form: how far the frame sequencer and the timer of the samples get.
use gba_emulator.Base.{
  inl, inr, Bool-cases, ltb, ap, arith, either_case, if◌then◌else◌, refl, suc, test_bit, u32, zero,
  ℕ, ◌%◌, ◌+◌, ◌/◌, ◌<◌, ◌==◌, ◌∙◌, ◌≡◌, ◌||◌,
}
use gba_emulator.Apu.State.{Apu}
use gba_emulator.Apu.Period.{iterate, iterate_wheel, rounds_lem}
use gba_emulator.Apu.Mix.Range.{OutputIsValid, pending_samples, mix-IsValid}
use gba_emulator.Apu.Mix.{apu_mix_sample, sample_buffer_size}
use gba_emulator.Apu.Frame.{
  frame_seq_period, tick_lengths, tick_sweep, tick_envelopes, sequence_step, run_sequencer,
  tick_channels, generate_samples, apu_tick,
}

-- What follows a walk: a field that each step sends by `g`
iterate-ap :
    {A : Type 0} (step : A → A) (f : A → ℕ) (g : ℕ → ℕ)
    → ((a : A) → f (step a) ≡ g (f a))
    → (n : ℕ) (a : A) → f (iterate step n a) ≡ iterate g n (f a)
unfolding iterate
iterate-ap step f g e zero a = refl
iterate-ap step f g e (suc n) a = iterate-ap step f g e n (step a) ∙ ap (iterate g n) (e a)

iterate-keeps :
    {A : Type 0} (step : A → A) (P : A → Type 0)
    → ((a : A) → P a → P (step a))
    → (n : ℕ) (a : A) → P a
    → P (iterate step n a)
unfolding iterate
iterate-keeps step P e zero a p = p
iterate-keeps step P e (suc n) a p = iterate-keeps step P e n (step a) (e a p)

sequence_step-step : (apu : Apu) → (sequence_step apu).frame_seq_step ≡ (apu.frame_seq_step + 1) % 8
unfolding sequence_step
sequence_step-step apu = refl

-- What each part of a round keeps, such as the fields that it does not write
module _ (P : Apu → Type 0) (lengths : (a : Apu) → P a → P (tick_lengths a))
    (sweep : (a : Apu) → P a → P (tick_sweep a))
    (envelopes : (a : Apu) → P a → P (tick_envelopes a))
    (counted : (a : Apu) (n : ℕ) → P a → P (record a { frame_seq_step = n })) where
  sequence_step-keeps : (apu : Apu) → P apu → P (sequence_step apu)
  unfolding sequence_step
  sequence_step-keeps apu p =
      let step = apu.frame_seq_step in
      let timed = if step % 2 == 0 then tick_lengths apu else apu in
      let swept = if step == 2 || step == 6 then tick_sweep timed else timed in
      let shaped = if step == 7 then tick_envelopes swept else swept in
      let e1 : P timed = either_case P (step % 2 == 0) (lengths apu p) p in
      let e2 : P swept = either_case P (step == 2 || step == 6) (sweep timed e1) e1 in
      let e3 : P shaped = either_case P (step == 7) (envelopes swept e2) e2 in
      counted shaped ((step + 1) % 8) e3

-- The part of the state that the mixer writes and reads back, and its timer
abbrev Sampled : ℕ → ℕ → ℕ → Apu → Type 0
Sampled period timer count a =
    (a.sample_period ≡ period)
    × (a.sample_timer ≡ timer)
    × OutputIsValid a
    × (pending_samples a ≡ count)

sequence-Sampled :
    (period timer count n : ℕ) (apu : Apu)
    → Sampled period timer count apu
    → Sampled period timer count (iterate sequence_step n apu)
unfolding tick_lengths tick_sweep tick_envelopes
sequence-Sampled period timer count =
    iterate-keeps sequence_step (Sampled period timer count) (
      sequence_step-keeps (Sampled period timer count) (λ a p. p) (λ a p. p) (λ a p. p)
        (λ a n p. p))

-- The mixer leaves the frame sequencer.
abbrev Sequenced : ℕ → ℕ → Apu → Type 0
Sequenced timer step a = (a.frame_seq_timer ≡ timer) × (a.frame_seq_step ≡ step)

mix-Sequenced :
    (timer step : ℕ) (apu : Apu)
    → Sequenced timer step apu
    → Sequenced timer step (apu_mix_sample apu)
unfolding apu_mix_sample
mix-Sequenced timer step apu p =
    either_case (Sequenced timer step) ((apu.write_pos + 1) % sample_buffer_size == apu.read_pos) p
      p

-- Pending samples after `n` more
abbrev pub filled : ℕ → ℕ → ℕ
filled count n = if ltb 4095 (count + n) then 4095 else count + n

pending_samples-lt : (apu : Apu) → pending_samples apu < 4096
pending_samples-lt apu = omega arith

filled-zero : (count : ℕ) → count < 4096 → count ≡ filled count 0
filled-zero count h = ground arith

filled-suc :
    (count n : ℕ)
    → count < 4096
    → filled (if count == 4095 then 4095 else count + 1) n ≡ filled count (suc n)
filled-suc count n h = ground arith

mixed :
    (n : ℕ) (apu : Apu)
    → OutputIsValid apu
    → OutputIsValid (iterate apu_mix_sample n apu)
      × (pending_samples (iterate apu_mix_sample n apu) ≡ filled (pending_samples apu) n)
unfolding iterate
mixed zero apu h = (h, filled-zero (pending_samples apu) (pending_samples-lt apu))
mixed (suc n) apu h =
    let (valid, count) = mix-IsValid apu h in
    let (valid_after, count_after) = mixed n (apu_mix_sample apu) valid in
    (
      valid_after,
      count_after
          ∙ ap (λ c. filled c n) count
          ∙ filled-suc (pending_samples apu) n (pending_samples-lt apu),
    )

-- The two loops at their ends
sequencer_lem :
    (apu : Apu) (cycles : ℕ)
    → let total = u32 (apu.frame_seq_timer + cycles) in
      run_sequencer apu cycles
      ≡ record (iterate sequence_step (total / 32768) apu) { frame_seq_timer = total % 32768 }
unfolding run_sequencer
sequencer_lem apu cycles =
    let total = u32 (apu.frame_seq_timer + cycles) in
    ap (λ (r : ℕ × Apu). record r.1 { frame_seq_timer = r.0 })
      (rounds_lem sequence_step total frame_seq_period total apu (omega arith) (omega arith))

samples_lem :
    (apu : Apu) (cycles : ℕ)
    → 0 < apu.sample_period
    → let total = u32 (apu.sample_timer + cycles) in
      generate_samples apu cycles
      ≡ record (iterate apu_mix_sample (total / apu.sample_period) apu) {
        sample_timer = total % apu.sample_period;
      }
unfolding generate_samples
samples_lem apu cycles h =
    let total = u32 (apu.sample_timer + cycles) in
    ap (λ (r : ℕ × Apu). record r.1 { sample_timer = r.0 })
      (rounds_lem apu_mix_sample total apu.sample_period total apu h (omega arith))

run-Sequenced :
    (apu : Apu) (cycles : ℕ)
    → apu.frame_seq_step < 8
    → let total = u32 (apu.frame_seq_timer + cycles) in
      Sequenced
        (total % 32768)
        ((apu.frame_seq_step + total / 32768) % 8)
        (run_sequencer apu cycles)
run-Sequenced apu cycles s =
    let total = u32 (apu.frame_seq_timer + cycles) in
    let n = total / 32768 in
    rw (sequencer_lem apu cycles) (
      refl,
      iterate-ap sequence_step (λ (a : Apu). a.frame_seq_step) (λ pos. (pos + 1) % 8)
            sequence_step-step n apu
          ∙ iterate_wheel 8 n apu.frame_seq_step (omega arith),
    )

run-Sampled :
    (period timer count : ℕ) (apu : Apu) (cycles : ℕ)
    → Sampled period timer count apu
    → Sampled period timer count (run_sequencer apu cycles)
run-Sampled period timer count apu cycles p =
    rw (sequencer_lem apu cycles)
      (sequence-Sampled period timer count (u32 (apu.frame_seq_timer + cycles) / 32768) apu p)

generated-Sequenced :
    (timer step : ℕ) (apu : Apu) (cycles : ℕ)
    → 0 < apu.sample_period
    → Sequenced timer step apu
    → Sequenced timer step (generate_samples apu cycles)
generated-Sequenced timer step apu cycles h p = rw (samples_lem apu cycles h) (
    iterate-keeps apu_mix_sample (Sequenced timer step) (mix-Sequenced timer step)
      (u32 (apu.sample_timer + cycles) / apu.sample_period) apu p)

-- A run of the samples: its timer, and what is pending
generated :
    (apu : Apu) (cycles : ℕ)
    → 0 < apu.sample_period
    → OutputIsValid apu
    → let total = u32 (apu.sample_timer + cycles) in
      let after = generate_samples apu cycles in
      (after.sample_timer ≡ total % apu.sample_period)
      × OutputIsValid after
      × (pending_samples after ≡ filled (pending_samples apu) (total / apu.sample_period))
generated apu cycles h valid =
    let (valid_after, count_after) =
      mixed (u32 (apu.sample_timer + cycles) / apu.sample_period) apu valid in
    rw (samples_lem apu cycles h) (refl, valid_after, count_after)

generated-Sampled :
    (period timer count : ℕ) (apu : Apu) (cycles : ℕ)
    → 0 < period
    → Sampled period timer count apu
    → let after = generate_samples apu cycles in
      (after.sample_timer ≡ u32 (timer + cycles) % period)
      × OutputIsValid after
      × (pending_samples after ≡ filled count (u32 (timer + cycles) / period))
generated-Sampled period timer count apu cycles h (same_period, same_timer, valid, same_count) =
    let positive : 0 < apu.sample_period = rw (same_period) h in
    rw⁻¹ (same_period, same_timer, same_count) (generated apu cycles positive valid)

frame_samples :
    (apu : Apu) (cycles : ℕ)
    → 0 < apu.sample_period
    → OutputIsValid apu
    → let total = u32 (apu.sample_timer + cycles) in
      let after = generate_samples (tick_channels (run_sequencer apu cycles) cycles) cycles in
      (after.sample_timer ≡ total % apu.sample_period)
      × OutputIsValid after
      × (pending_samples after ≡ filled (pending_samples apu) (total / apu.sample_period))
unfolding tick_channels
frame_samples apu cycles h valid =
    let period = apu.sample_period in
    let timer = apu.sample_timer in
    generated-Sampled period timer (pending_samples apu)
      (tick_channels (run_sequencer apu cycles) cycles) cycles h
      (run-Sampled period timer (pending_samples apu) apu cycles (refl, refl, valid, refl))

frame_steps :
    (apu : Apu) (cycles : ℕ)
    → 0 < apu.sample_period
    → OutputIsValid apu
    → apu.frame_seq_step < 8
    → let total = u32 (apu.frame_seq_timer + cycles) in
      Sequenced
        (total % 32768)
        ((apu.frame_seq_step + total / 32768) % 8)
        (generate_samples (tick_channels (run_sequencer apu cycles) cycles) cycles)
unfolding tick_channels
frame_steps apu cycles h valid s =
    let total = u32 (apu.frame_seq_timer + cycles) in
    let kept =
      run-Sampled apu.sample_period apu.sample_timer (pending_samples apu) apu cycles
        (refl, refl, valid, refl) in
    generated-Sequenced (total % 32768) ((apu.frame_seq_step + total / 32768) % 8)
      (tick_channels (run_sequencer apu cycles) cycles) cycles (rw (kept.0) h)
      (run-Sequenced apu cycles s)

-- From a valid output, with a sample period above 0 and a sequencer step below 8: with the sound unit
-- on, `apu_tick` mixes as many samples as the 32-bit sample timer holds periods, of which the ring
-- keeps those up to 4095 pending_samples, moves the frame sequencer one of its eight steps for each 32768
-- cycles, and leaves the remainders in the two timers; with the unit off it keeps all of these.
-- The output stays valid: both positions in the ring, each sample within the clamped range.
pub apu_tick_lem :
    (apu : Apu) (cycles : ℕ)
    → 0 < apu.sample_period
    → OutputIsValid apu
    → apu.frame_seq_step < 8
    → let on = test_bit apu.soundcnt_x 7 in
      let sequence = u32 (apu.frame_seq_timer + cycles) in
      let sampling = u32 (apu.sample_timer + cycles) in
      let after = apu_tick apu cycles in
      OutputIsValid after
      × (pending_samples after ≡ (
          if on
          then filled (pending_samples apu) (sampling / apu.sample_period)
          else pending_samples apu))
      × (after.sample_timer ≡ (if on then sampling % apu.sample_period else apu.sample_timer))
      × (after.frame_seq_timer ≡ (if on then sequence % 32768 else apu.frame_seq_timer))
      × (after.frame_seq_step
          ≡ (if on then (apu.frame_seq_step + sequence / 32768) % 8 else apu.frame_seq_step))
unfolding apu_tick
apu_tick_lem apu cycles h valid s = elim (Bool-cases (test_bit apu.soundcnt_x 7)) [
  | inl on ↦
      let (timer, valid_after, count) = frame_samples apu cycles h valid in
      let (sequence, step) = frame_steps apu cycles h valid s in
      rw (on) (valid_after, count, timer, sequence, step)
  | inr off ↦ rw (off) (valid, refl, refl, refl, refl)
]
