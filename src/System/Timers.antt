-- ===== src/System/Timers.antt =====
-- The timers of the whole machine: `timer_tick` with the audio callback of src/apu/apu.c.
use gba_emulator.Base.{
  Bool, ap, arith, by_test, either_case, false, if◌then◌else◌, inl, inr, leb, not, refl, true, u8,
  ℕ, ◌%◌, ◌&&◌, ◌+◌, ◌/◌, ◌<◌, ◌==◌, ◌^◌, ◌∙◌, ◌≡◌, ◌||◌,
}
use gba_emulator.System.State.{Gba, set_apu}
use gba_emulator.System.Playback.{
  latch_a, latch_b, play_a, play_b, apu_on_timer_overflow, on_overflow, tick_timers,
}
use gba_emulator.System.Refill.{IsFifo, execute-Kept}
use gba_emulator.Apu.State.{Apu}
use gba_emulator.Dma.{is_fifo_transfer, trigger, dma_execute, dma_on_fifo}
use gba_emulator.Dma.State.{DmaChannel}
use gba_emulator.Timer.{World}
use gba_emulator.Timer.Agree.{timer_tick-agree}
use gba_emulator.Timer.Count.{closed_form}
use gba_emulator.Timer.Tick.{IsValid, timer_tick_counts}

-- A channel that a FIFO does not start, or that writes to a FIFO
unfoldable pub writes_fifo : DmaChannel → Bool
writes_fifo dc =
    not (dc.enabled && dc.timing == 3) || dc.dest == 0x040000a0 || dc.dest == 0x040000a4

-- What a FIFO starts writes to a FIFO.
unfoldable pub RefillsOnly : Gba → Type 0
RefillsOnly gba =
    (writes_fifo (gba.dma.channels 1) ≡ true) × (writes_fifo (gba.dma.channels 2) ≡ true)

writes_fifo-IsFifo :
    (dc : DmaChannel)
    → writes_fifo dc ≡ true
    → (dc.enabled && dc.timing == 3) ≡ true
    → IsFifo dc.dest
unfolding writes_fifo
writes_fifo-IsFifo dc h on = ground arith

IsFifo-writes_fifo : (dc : DmaChannel) → IsFifo dc.dest → writes_fifo dc ≡ true
unfolding writes_fifo
IsFifo-writes_fifo dc (inl e) = ground arith
IsFifo-writes_fifo dc (inr e) = ground arith

first_is_fifo :
    (dc : DmaChannel) → (dc.enabled && dc.timing == 3) ≡ true → is_fifo_transfer dc 1 ≡ true
unfolding is_fifo_transfer
first_is_fifo dc on = ground arith

second_is_fifo :
    (dc : DmaChannel) → (dc.enabled && dc.timing == 3) ≡ true → is_fifo_transfer dc 2 ≡ true
unfolding is_fifo_transfer
second_is_fifo dc on = ground arith

-- What the playback keeps
abbrev Plays : Gba → Gba → Type 0
Plays gba after = (after.timers ≡ gba.timers) × RefillsOnly after

module _ (ctl : Gba → ℕ → ℕ → Gba) where
  first_trigger : (gba : Gba) → RefillsOnly gba → Plays gba (trigger ctl 3 gba 1)
  unfolding trigger RefillsOnly
  first_trigger gba (first, second) =
      let dc = gba.dma.channels 1 in
      by_test (Plays gba) (dc.enabled && dc.timing == 3) {x = (dma_execute ctl gba 1).0} {y = gba}
        (λ on.
          let target = writes_fifo-IsFifo dc first on in
          let (timers, dest, others) = execute-Kept ctl gba 1 target (first_is_fifo dc on) in
          let after = (dma_execute ctl gba 1).0 in
          (
            timers,
            (
              IsFifo-writes_fifo (after.dma.channels 1) (rw dest target),
              rw (others 2 (omega arith)) second,
            ),
          ))
        (λ off. (refl, (first, second)))

  second_trigger : (gba : Gba) → RefillsOnly gba → Plays gba (trigger ctl 3 gba 2)
  unfolding trigger RefillsOnly
  second_trigger gba (first, second) =
      let dc = gba.dma.channels 2 in
      by_test (Plays gba) (dc.enabled && dc.timing == 3) {x = (dma_execute ctl gba 2).0} {y = gba}
        (λ on.
          let target = writes_fifo-IsFifo dc second on in
          let (timers, dest, others) = execute-Kept ctl gba 2 target (second_is_fifo dc on) in
          let after = (dma_execute ctl gba 2).0 in
          (
            timers,
            (
              rw (others 1 (omega arith)) first,
              IsFifo-writes_fifo (after.dma.channels 2) (rw dest target),
            ),
          ))
        (λ off. (refl, (first, second)))

  -- The playback changes the sound unit first.
  same_dma : (gba : Gba) (apu : Apu) → RefillsOnly gba → RefillsOnly (set_apu gba apu)
  unfolding RefillsOnly
  same_dma gba apu h = h

  play_a-Plays : (gba : Gba) (i : ℕ) → RefillsOnly gba → Plays gba (play_a ctl gba i)
  unfolding play_a dma_on_fifo
  play_a-Plays gba i h =
      let latched = set_apu gba (latch_a gba.apu) in
      let quiet = same_dma gba (latch_a gba.apu) h in
      either_case (Plays gba) (gba.apu.fifo_a.timer_id == u8 i)
        (either_case (Plays gba) (leb latched.apu.fifo_a.count 16) (first_trigger latched quiet)
          (refl, quiet))
        (refl, h)

  play_b-Plays : (gba : Gba) (i : ℕ) → RefillsOnly gba → Plays gba (play_b ctl gba i)
  unfolding play_b dma_on_fifo
  play_b-Plays gba i h =
      let latched = set_apu gba (latch_b gba.apu) in
      let quiet = same_dma gba (latch_b gba.apu) h in
      either_case (Plays gba) (gba.apu.fifo_b.timer_id == u8 i)
        (either_case (Plays gba) (leb latched.apu.fifo_b.count 16) (second_trigger latched quiet)
          (refl, quiet))
        (refl, h)

  overflow-Plays :
      (gba : Gba) (i : ℕ) → RefillsOnly gba → Plays gba (apu_on_timer_overflow ctl gba i)
  unfolding apu_on_timer_overflow
  overflow-Plays gba i h =
      let (timers_a, kept_a) = play_a-Plays gba i h in
      let (timers_b, kept_b) = play_b-Plays (play_a ctl gba i) i kept_a in
      (timers_b ∙ timers_a, kept_b)

  callback-Plays :
      (i : ℕ) (w : World Gba)
      → RefillsOnly w.apu
      → ((on_overflow ctl i w).timers ≡ w.timers) × RefillsOnly (on_overflow ctl i w).apu
  unfolding on_overflow
  callback-Plays i w h =
      let gba : Gba = record w.apu { timers = w.timers; interrupts = w.interrupts } in
      overflow-Plays gba i (unfold RefillsOnly in h)

  -- The callback in the states of the theorem, and nothing elsewhere
  guarded : ℕ → World Gba → World Gba
  guarded i w =
      if writes_fifo (w.apu.dma.channels 1) && writes_fifo (w.apu.dma.channels 2)
      then on_overflow ctl i w
      else w

  guarded-Quiet : (i : ℕ) (w : World Gba) → (guarded i w).timers ≡ w.timers
  unfolding guarded
  guarded-Quiet i w =
      by_test (λ (v : World Gba). v.timers ≡ w.timers)
        (writes_fifo (w.apu.dma.channels 1) && writes_fifo (w.apu.dma.channels 2))
        (λ on. (callback-Plays i w (unfold RefillsOnly in (ground arith, ground arith))).0)
        (λ off. refl)

  guarded_agrees : (i : ℕ) (w : World Gba) → RefillsOnly w.apu → on_overflow ctl i w ≡ guarded i w
  unfolding guarded RefillsOnly
  guarded_agrees i w (first, second) = rw (first, second) refl

  -- Where the DMA channels 1 and 2, if they are enabled on FIFO timing, write to FIFO_A or FIFO_B, and
  -- with less than 2^31 cycles, the timers of the machine count exactly, with the playback of the FIFOs
  -- and its transfers as their callback: every valid, enabled timer
  -- that does not cascade is left at the closed form of its counter after
  -- `(prescaler_counter + cycles) / prescaler` ticks, with the remainder as its new prescaler counter
  -- and its settings as they were.
  pub tick_timers_counts :
      (gba : Gba) (cycles i : ℕ)
      → RefillsOnly gba
      → i < 4
      → IsValid (gba.timers i)
      → cycles < 2 ^ 31
      → (gba.timers i).enabled ≡ true
      → (gba.timers i).cascade ≡ false
      → (tick_timers ctl gba cycles).timers i ≡ (
          let t = gba.timers i in
          let sum = t.prescaler_counter + cycles in
          record t {
            prescaler_counter = sum % t.prescaler;
            counter = closed_form t.reload (sum / t.prescaler) t.counter;
          })
  unfolding tick_timers
  tick_timers_counts gba cycles i quiet below v small on plain =
      let world : World Gba = record {
        timers = gba.timers;
        interrupts = gba.interrupts;
        apu = gba;
      } in
      ap (λ (w : World Gba). w.timers i)
        (timer_tick-agree (on_overflow ctl) guarded RefillsOnly guarded_agrees
          (λ k w h. (callback-Plays k w h).1) cycles world quiet)
      ∙ timer_tick_counts guarded guarded-Quiet cycles world i below v small on plain
