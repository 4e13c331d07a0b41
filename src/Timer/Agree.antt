-- ===== src/Timer/Agree.antt =====
-- `timer_tick` with two callbacks that agree on the states that it meets.
use gba_emulator.Base.{
  Bool, ap, either_case, false, true, if◌then◌else◌, leb, ltb, not, refl, suc, u16, u32, zero, ℕ,
  ◌&&◌, ◌+◌, ◌-◌, ◌/◌, ◌==◌, ◌∙◌, ◌≡◌, ◌||◌,
}
use gba_emulator.Timer.{
  World, set_timer, raise_irq, overflow, cascade_from, prescaled_step, prescaled_loop, tick_timer,
  timer_tick,
}

-- The state behind the callback is kept by a timer's interrupt.
raise_irq-apu :
    {A : Type 0} (P : A → Type 0) (w : World A) (i : ℕ) → P w.apu → P (raise_irq w i).apu
unfolding raise_irq
raise_irq-apu {A} P w i h = either_case (λ (v : World A). P v.apu) (w.timers i).irq_enable h h

module _ {A : Type 0} (on on' : ℕ → World A → World A) (Inv : A → Type 0)
    (agree : (i : ℕ) (w : World A) → Inv w.apu → on i w ≡ on' i w)
    (keeps : (i : ℕ) (w : World A) → Inv w.apu → Inv (on i w).apu) where
  -- The same state, on which the callbacks agree
  abbrev Agrees : World A → World A → Type 0
  Agrees w w' = (w ≡ w') × Inv w.apu

  both :
      (b : Bool) (w w' v v' : World A)
      → Agrees w w'
      → Agrees v v'
      → Agrees (if b then w else v) (if b then w' else v')
  both true w w' v v' p q = p
  both false w w' v v' p q = q

  overflow-Agrees : (w : World A) (i : ℕ) → Inv w.apu → Agrees (overflow on w i) (overflow on' w i)
  unfolding overflow
  overflow-Agrees w i h =
      let t = w.timers i in
      let reloaded = set_timer w i (record t { counter = t.reload }) in
      let ready = raise_irq-apu Inv reloaded i h in
      (agree i (raise_irq reloaded i) ready, keeps i (raise_irq reloaded i) ready)

  cascade-Agrees :
      (left next : ℕ) (w : World A)
      → Inv w.apu
      → Agrees (cascade_from on left next w) (cascade_from on' left next w)
  unfolding cascade_from
  cascade-Agrees zero next w h = (refl, h)
  cascade-Agrees (suc left) next w h =
      let t = w.timers next in
      let bumped = set_timer w next (record t { counter = u16 (t.counter + 1) }) in
      let (same, inv) = overflow-Agrees bumped next h in
      let (rest, kept) = cascade-Agrees left (next + 1) (overflow on bumped next) inv in
      both (ltb next 4 && t.enabled && t.cascade)
        (if u16 (t.counter + 1) == 0
          then cascade_from on left (next + 1) (overflow on bumped next)
          else bumped)
        (if u16 (t.counter + 1) == 0
          then cascade_from on' left (next + 1) (overflow on' bumped next)
          else bumped)
        w w
        (both (u16 (t.counter + 1) == 0) (cascade_from on left (next + 1) (overflow on bumped next))
          (cascade_from on' left (next + 1) (overflow on' bumped next)) bumped bumped
          (rest ∙ ap (cascade_from on' left (next + 1)) same, kept) (refl, h))
        (refl, h)

  step-Agrees :
      (w : World A) (i : ℕ) → Inv w.apu → Agrees (prescaled_step on w i) (prescaled_step on' w i)
  unfolding prescaled_step
  step-Agrees w i h =
      let t = w.timers i in
      let w' = set_timer w i (record t {
        prescaler_counter = t.prescaler_counter - t.prescaler;
        counter = u16 (t.counter + 1);
      }) in
      let (same, inv) = overflow-Agrees w' i h in
      let (rest, kept) = cascade-Agrees 4 (i + 1) (overflow on w' i) inv in
      both (u16 (t.counter + 1) == 0) (cascade_from on 4 (i + 1) (overflow on w' i))
        (cascade_from on' 4 (i + 1) (overflow on' w' i)) w' w'
        (rest ∙ ap (cascade_from on' 4 (i + 1)) same, kept) (refl, h)

  loop-Agrees :
      (fuel i : ℕ) (w : World A)
      → Inv w.apu
      → Agrees (prescaled_loop on fuel i w) (prescaled_loop on' fuel i w)
  unfolding prescaled_loop
  loop-Agrees zero i w h = (refl, h)
  loop-Agrees (suc fuel) i w h =
      let t = w.timers i in
      let (same, inv) = step-Agrees w i h in
      let (rest, kept) = loop-Agrees fuel i (prescaled_step on w i) inv in
      both (leb t.prescaler t.prescaler_counter) (prescaled_loop on fuel i (prescaled_step on w i))
        (prescaled_loop on' fuel i (prescaled_step on' w i)) w w
        (rest ∙ ap (prescaled_loop on' fuel i) same, kept) (refl, h)

  tick-Agrees :
      (cycles i : ℕ) (w w' : World A)
      → Agrees w w'
      → Agrees (tick_timer on cycles w i) (tick_timer on' cycles w' i)
  unfolding tick_timer
  tick-Agrees cycles i w w' (e, h) =
      let t = w.timers i in
      let sum = u32 (t.prescaler_counter + cycles) in
      let started = set_timer w i (record t { prescaler_counter = sum }) in
      let fuel = suc (sum / t.prescaler) in
      let (same, kept) =
        both (not t.enabled || t.cascade) w w (prescaled_loop on fuel i started)
          (prescaled_loop on' fuel i started) (refl, h) (loop-Agrees fuel i started h) in
      (same ∙ ap (λ v. tick_timer on' cycles v i) e, kept)

  pub timer_tick-agree :
      (cycles : ℕ) (w : World A) → Inv w.apu → timer_tick on cycles w ≡ timer_tick on' cycles w
  unfolding timer_tick
  timer_tick-agree cycles w h =
      let t = λ (f : ℕ → World A → World A) (v : World A) (i : ℕ). tick_timer f cycles v i in
      let a0 = tick-Agrees cycles 0 w w (refl, h) in
      let a1 = tick-Agrees cycles 1 (t on w 0) (t on' w 0) a0 in
      let a2 = tick-Agrees cycles 2 (t on (t on w 0) 1) (t on' (t on' w 0) 1) a1 in
      (tick-Agrees cycles 3 (t on (t on (t on w 0) 1) 2) (t on' (t on' (t on' w 0) 1) 2) a2).0
