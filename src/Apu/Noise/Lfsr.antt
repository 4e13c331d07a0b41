-- ===== src/Apu/Noise/Lfsr.antt =====
-- The shift register of the noise channel never runs dry.
use gba_emulator.Base.{
  Bool, ap, arith, bit-or, bit-put_bit, bit-xor, bit_above, bit_and, bit_and-lt, bit_ext, bit_or,
  bit_or-lt, bit_or_fields, bit_xor, false, if◌then◌else◌, not32, pow-lt, suc, true, u16, u32, zero,
  ℕ, ◌%◌, ◌*◌, ◌+◌, ◌-◌, ◌/◌, ◌<◌, ◌^◌, ◌∙◌, ◌≡◌,
}
use gba_emulator.Apu.State.{NoiseChannel}
use gba_emulator.Apu.Period.{iterate, rounds_lem}
use gba_emulator.Apu.Noise.{advance_lfsr, noise_channel_tick, noise_channel_trigger, noise_period}

-- A register that is not zero, within the 7 or 15 bits of its mode.
unfoldable pub Running : Bool → ℕ → Type 0
Running width_mode lfsr = (0 < lfsr) × (lfsr < (if width_mode then 2 ^ 7 else 2 ^ 15))

-- `(half & ~(1 << k)) | (feedback << k)`
top_digit :
    (k half feedback : ℕ)
    → k < 15
    → half < 2 ^ k
    → feedback < 2
    → bit_or (bit_and half (not32 (2 ^ k))) (feedback * 2 ^ k) ≡ half + feedback * 2 ^ k
top_digit k half feedback p h f =
    ap (λ t. bit_or t (feedback * 2 ^ k)) cleared
    ∙ bit_or_comm half (feedback * 2 ^ k) small (wide feedback f)
    ∙ bit_or_fields k feedback half h
    ∙ omega arith
  where
    bound : 2 ^ k < 2 ^ 15
    bound = pow-lt 15 k p

    small : half < 2 ^ 32
    small = omega (arith, bound)

    wide : (feedback : ℕ) → feedback < 2 → feedback * 2 ^ k < 2 ^ 32
    wide zero f = omega arith
    wide (suc zero) f = omega (arith, bound)
    wide (suc (suc n)) f = absurd (omega arith)

    cleared : bit_and half (not32 (2 ^ k)) ≡ half
    cleared =
        bit_ext 32 (bit_and half (not32 (2 ^ k))) half (bit_and-lt 32 half (not32 (2 ^ k)) small)
          small λ n below. ground (arith, bit-put_bit 32 k n half false, bit_above k n half h)

    bit_or_comm : (a b : ℕ) → a < 2 ^ 32 → b < 2 ^ 32 → bit_or a b ≡ bit_or b a
    bit_or_comm a b ha hb =
        bit_ext 32 (bit_or a b) (bit_or b a) (bit_or-lt 32 a b ha hb) (bit_or-lt 32 b a hb ha)
          λ n below. omega (arith, bit-or n a b, bit-or n b a)

-- One step is the shift with the feedback on top.
pub advance_lfsr_lem :
    (width_mode : Bool) (lfsr : ℕ)
    → Running width_mode lfsr
    → advance_lfsr width_mode lfsr
      ≡ lfsr / 2 + (lfsr % 2 + lfsr / 2 % 2) % 2 * (if width_mode then 2 ^ 6 else 2 ^ 14)
unfolding Running advance_lfsr
advance_lfsr_lem true lfsr (pos, below) =
    ap u16 (
      top_digit 6 (lfsr / 2) (bit_xor lfsr (lfsr / 2) % 2) (omega arith) (omega arith)
        (omega arith))
    ∙ omega (arith, bit-xor 0 lfsr (lfsr / 2))
advance_lfsr_lem false lfsr (pos, below) =
    ap u16 (
      top_digit 14 (lfsr / 2) (bit_xor lfsr (lfsr / 2) % 2) (omega arith) (omega arith)
        (omega arith))
    ∙ omega (arith, bit-xor 0 lfsr (lfsr / 2))

advance-Running :
    (width_mode : Bool) (lfsr : ℕ)
    → Running width_mode lfsr
    → Running width_mode (advance_lfsr width_mode lfsr)
advance-Running true lfsr running =
    rw (advance_lfsr_lem true lfsr running)
      (unfold Running in (omega (arith, running), omega (arith, running)))
advance-Running false lfsr running =
    rw (advance_lfsr_lem false lfsr running)
      (unfold Running in (omega (arith, running), omega (arith, running)))

iterate-Running :
    (width_mode : Bool) (n lfsr : ℕ)
    → Running width_mode lfsr
    → Running width_mode (iterate (advance_lfsr width_mode) n lfsr)
unfolding iterate
iterate-Running width_mode zero lfsr running = running
iterate-Running width_mode (suc n) lfsr running =
    iterate-Running width_mode n (advance_lfsr width_mode lfsr)
      (advance-Running width_mode lfsr running)

period_pos : (ch : NoiseChannel) → 0 < noise_period ch
unfolding noise_period
period_pos ch = ground arith

tick-lfsr :
    (ch : NoiseChannel) (cycles : ℕ)
    → (noise_channel_tick ch cycles).lfsr ≡ (
        if ch.enabled
        then iterate
            (advance_lfsr ch.width_mode)
            (u32 (ch.freq_timer + cycles) / noise_period ch)
            ch.lfsr
        else ch.lfsr)
unfolding noise_channel_tick
tick-lfsr ch cycles =
    let total = u32 (ch.freq_timer + cycles) in
    simp
      (rounds_lem (advance_lfsr ch.width_mode) total (noise_period ch) total ch.lfsr (period_pos ch)
        (omega arith))
      (ground arith)

either-Running :
    (width_mode b : Bool) (x y : ℕ)
    → Running width_mode x
    → Running width_mode y
    → Running width_mode (if b then x else y)
either-Running width_mode true x y hx hy = hx
either-Running width_mode false x y hx hy = hy

all_bits :
    (width_mode : Bool)
    → (if width_mode then 0x7f else 0x7fff) ≡ (if width_mode then 2 ^ 7 else 2 ^ 15) - 1
all_bits width_mode = ground arith

full : (width_mode : Bool) → Running width_mode (if width_mode then 0x7f else 0x7fff)
unfolding Running
full true = (omega arith, omega arith)
full false = (omega arith, omega arith)

-- From a shift register that is not zero and within the 7 or 15 bits of its mode, a trigger sets all
-- of these bits, and no number of cycles leads to zero or out of them.
pub noise-Running :
    (ch : NoiseChannel) (cycles : ℕ)
    → Running ch.width_mode ch.lfsr
    → Running ch.width_mode (noise_channel_tick ch cycles).lfsr
      × ((noise_channel_trigger ch).lfsr ≡ (if ch.width_mode then 2 ^ 7 else 2 ^ 15) - 1)
      × Running ch.width_mode (noise_channel_trigger ch).lfsr
unfolding noise_channel_trigger
noise-Running ch cycles running =
    let total = u32 (ch.freq_timer + cycles) in
    let steps = total / noise_period ch in
    (
      rw (tick-lfsr ch cycles) (
          either-Running ch.width_mode ch.enabled
            (iterate (advance_lfsr ch.width_mode) steps ch.lfsr) ch.lfsr
            (iterate-Running ch.width_mode steps ch.lfsr running) running),
      all_bits ch.width_mode,
      full ch.width_mode,
    )
