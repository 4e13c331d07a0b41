-- ===== src/System/Playback.antt =====
-- `apu_on_timer_overflow` of src/apu/apu.c, and the call of `timer_tick` that hands it the machine.
use gba_emulator.Base.{leb, u8, if◌then◌else◌, ℕ, ◌==◌}
use gba_emulator.System.State.{Gba, set_apu}
use gba_emulator.Apu.State.{Apu}
use gba_emulator.Apu.Fifo.{apu_fifo_pop}
use gba_emulator.Dma.{dma_on_fifo}
use gba_emulator.Timer.{World, timer_tick}

-- `apu->fifo_a_latch = apu_fifo_pop(apu, 0)`, and the same for FIFO B
unfoldable pub latch_a : Apu → Apu
latch_a apu = let (popped, sample) = apu_fifo_pop apu 0 in record popped { fifo_a_latch = sample }

unfoldable pub latch_b : Apu → Apu
latch_b apu = let (popped, sample) = apu_fifo_pop apu 1 in record popped { fifo_b_latch = sample }

module _ (dma_write_control : Gba → ℕ → ℕ → Gba) where
  unfoldable pub play_a : Gba → ℕ → Gba
  unfolding latch_a
  play_a gba timer_id =
      let latched = set_apu gba (latch_a gba.apu) in
      let refilled = dma_on_fifo dma_write_control latched 0 in
      if gba.apu.fifo_a.timer_id == u8 timer_id
      then if leb latched.apu.fifo_a.count 16 then refilled else latched
      else gba

  unfoldable pub play_b : Gba → ℕ → Gba
  unfolding latch_b
  play_b gba timer_id =
      let latched = set_apu gba (latch_b gba.apu) in
      let refilled = dma_on_fifo dma_write_control latched 1 in
      if gba.apu.fifo_b.timer_id == u8 timer_id
      then if leb latched.apu.fifo_b.count 16 then refilled else latched
      else gba

  unfoldable pub apu_on_timer_overflow : Gba → ℕ → Gba
  unfolding play_a play_b
  apu_on_timer_overflow gba timer_id = play_b (play_a gba timer_id) timer_id

  -- The callback on the state of `timer_tick`, whose timers and interrupts are those of the machine
  unfoldable pub on_overflow : ℕ → World Gba → World Gba
  unfolding apu_on_timer_overflow
  on_overflow i w =
      let gba : Gba = record w.apu { timers = w.timers; interrupts = w.interrupts } in
      let played = apu_on_timer_overflow gba i in
      record { timers = played.timers; interrupts = played.interrupts; apu = played }

  -- `timer_tick(gba->timers, cycles, &gba->interrupts, &gba->apu)`
  unfoldable pub tick_timers : Gba → ℕ → Gba
  unfolding on_overflow
  tick_timers gba cycles =
      let world : World Gba = record {
        timers = gba.timers;
        interrupts = gba.interrupts;
        apu = gba;
      } in
      let ticked = timer_tick on_overflow cycles world in
      record ticked.apu { timers = ticked.timers; interrupts = ticked.interrupts }
