-- ===== src/Timer/Tick.antt =====
-- `timer_tick` counts exactly: how a timer that does not cascade stands after any number of
-- cycles, and that the fuel of its loop is enough.
use gba_emulator.Base.{
  ap, arith, false, leb, refl, suc, true, u16, u32, zero, ℕ, ◌%◌, ◌*◌, ◌+◌, ◌-◌, ◌/◌, ◌<◌, ◌^◌, ◌∙◌,
  ◌≡◌, ◌≢◌, ◌≤◌,
}
use native.Mathlib.Nat.{div-add-mod', mod-lt}
use gba_emulator.Timer.{
  Timer, World, set_timer, overflow, prescaled_step, prescaled_loop, tick_timer, timer_tick,
}
use gba_emulator.Timer.Count.{tick_once, advance, closed_form, advance_closed}
use gba_emulator.Timer.Setup.{Quiet, overflow-timers, cascade_from-below, cascade_from-past}

-- What the register writes establish of a timer.
pub record IsValid (t : Timer) : Type 0 where
  pub counter_fits : t.counter < 2 ^ 16
  pub reload_fits : t.reload < 2 ^ 16
  pub divides : 0 < t.prescaler
  pub divides_fits : t.prescaler ≤ 1024
  pub rest_below : t.prescaler_counter < 1024

-- A timer after `cycles` of its prescaled clock.
ticked : ℕ → Timer → Timer
ticked cycles t =
    let sum = t.prescaler_counter + cycles in
    record t {
      prescaler_counter = sum % t.prescaler;
      counter = advance t.reload (sum / t.prescaler) t.counter;
    }

module _ {A : Type 0} (on_overflow : ℕ → World A → World A) (quiet : Quiet on_overflow) where
  prescaled_step_self :
      (w : World A) (i : ℕ)
      → (prescaled_step on_overflow w i).timers i ≡ record (w.timers i) {
        prescaler_counter = (w.timers i).prescaler_counter - (w.timers i).prescaler;
        counter = tick_once (w.timers i).reload (w.timers i).counter;
      }
  unfolding prescaled_step tick_once
  prescaled_step_self w i =
      let t = w.timers i in
      let w' = set_timer w i (record t {
        prescaler_counter = t.prescaler_counter - t.prescaler;
        counter = u16 (t.counter + 1);
      }) in
      ground (
        arith,
        overflow-timers on_overflow quiet w' i i,
        cascade_from-below on_overflow quiet 4 (i + 1) i (overflow on_overflow w' i),
      )

  prescaled_step_other :
      (w : World A) (i j : ℕ)
      → j ≢ i
      → (w.timers j).cascade ≡ false
      → (prescaled_step on_overflow w i).timers j ≡ w.timers j
  unfolding prescaled_step
  prescaled_step_other w i j ne plain =
      let t = w.timers i in
      let w' = set_timer w i (record t {
        prescaler_counter = t.prescaler_counter - t.prescaler;
        counter = u16 (t.counter + 1);
      }) in
      ground (
        arith,
        overflow-timers on_overflow quiet w' i j,
        cascade_from-below on_overflow quiet 4 (i + 1) j (overflow on_overflow w' i),
        cascade_from-past on_overflow quiet 4 (i + 1) j j (overflow on_overflow w' i),
      )

  prescaled_loop_other :
      (fuel i j : ℕ) (w : World A)
      → j ≢ i
      → (w.timers j).cascade ≡ false
      → (prescaled_loop on_overflow fuel i w).timers j ≡ w.timers j
  unfolding prescaled_loop
  prescaled_loop_other zero i j w ne plain = refl
  prescaled_loop_other (suc fuel) i j w ne plain = ground (
    arith,
    prescaled_step_other w i j,
    prescaled_loop_other fuel i j (prescaled_step on_overflow w i),
  )

  -- With fuel for `q` rounds the loop makes exactly `q`, and ends by its own test.
  prescaled_loop_self :
      (fuel q r i : ℕ) (w : World A)
      → q < fuel
      → (w.timers i).prescaler_counter ≡ q * (w.timers i).prescaler + r
      → r < (w.timers i).prescaler
      → (prescaled_loop on_overflow fuel i w).timers i ≡ record (w.timers i) {
        prescaler_counter = r;
        counter = advance (w.timers i).reload q (w.timers i).counter;
      }
  unfolding prescaled_loop advance
  prescaled_loop_self zero q r i w h e below = absurd (omega arith)
  prescaled_loop_self (suc fuel) zero r i w h e below = ground arith
  prescaled_loop_self (suc fuel) (suc q) r i w h e below =
      let t = w.timers i in
      let w' = prescaled_step on_overflow w i in
      let self : w'.timers i ≡ record t {
        prescaler_counter = t.prescaler_counter - t.prescaler;
        counter = tick_once t.reload t.counter;
      } =
        prescaled_step_self w i in
      let enough : leb t.prescaler t.prescaler_counter ≡ true = grind arith in
      let left : (w'.timers i).prescaler_counter ≡ q * (w'.timers i).prescaler + r =
        rw self (omega arith) in
      rw enough
        (prescaled_loop_self fuel q r i w' (omega arith) left (rw self below) ∙ rw self refl)

  -- One round of the `for` loop, on the timer that it runs and on another.
  tick_timer_self :
      (cycles : ℕ) (w : World A) (i : ℕ) {t : Timer}
      → w.timers i ≡ t
      → IsValid t
      → cycles < 2 ^ 31
      → t.enabled ≡ true
      → t.cascade ≡ false
      → (tick_timer on_overflow cycles w i).timers i ≡ ticked cycles t
  unfolding tick_timer ticked
  tick_timer_self cycles w i {t} e v small on plain =
      let sum = t.prescaler_counter + cycles in
      let started = set_timer w i (record t { prescaler_counter = sum }) in
      let fits : u32 sum ≡ sum = omega arith in
      rw (e, on, plain, fits)
        (ground (
          arith,
          prescaled_loop_self (suc (sum / t.prescaler)) (sum / t.prescaler) (sum % t.prescaler) i
              started,
          div-add-mod' sum t.prescaler,
          mod-lt sum {m = t.prescaler},
        ))

  tick_timer_other :
      (cycles : ℕ) (w : World A) (i j : ℕ) {t : Timer}
      → j ≢ i
      → t.cascade ≡ false
      → w.timers j ≡ t
      → (tick_timer on_overflow cycles w i).timers j ≡ t
  unfolding tick_timer
  tick_timer_other cycles w i j {t} ne plain e =
      let t' = w.timers i in
      let sum = u32 (t'.prescaler_counter + cycles) in
      ground (
        arith,
        prescaled_loop_other (suc (sum / t'.prescaler)) i j
            (set_timer w i (record t' { prescaler_counter = sum })),
      )

  counts :
      (cycles : ℕ) (w : World A) (i : ℕ)
      → i < 4
      → IsValid (w.timers i)
      → cycles < 2 ^ 31
      → (w.timers i).enabled ≡ true
      → (w.timers i).cascade ≡ false
      → (timer_tick on_overflow cycles w).timers i ≡ ticked cycles (w.timers i)
  unfolding timer_tick
  counts cycles w i below v small on plain = go i below refl
    where
      t : Timer
      t = w.timers i

      w1 : World A
      w1 = tick_timer on_overflow cycles w 0

      w2 : World A
      w2 = tick_timer on_overflow cycles w1 1

      w3 : World A
      w3 = tick_timer on_overflow cycles w2 2

      pass :
          (w : World A) (k j : ℕ)
          → j ≢ k
          → w.timers j ≡ ticked cycles t
          → (tick_timer on_overflow cycles w k).timers j ≡ ticked cycles t
      pass w k j ne e = tick_timer_other cycles w k j ne (unfold ticked in plain) e

      go :
          (j : ℕ)
          → j < 4
          → w.timers j ≡ t
          → (tick_timer on_overflow cycles w3 3).timers j ≡ ticked cycles t
      go zero h e = pass w3 3 0 (omega arith) (
          pass w2 2 0 (omega arith)
            (pass w1 1 0 (omega arith) (tick_timer_self cycles w 0 e v small on plain)))
      go (suc zero) h e =
          let e1 = tick_timer_other cycles w 0 1 (omega arith) plain e in
          pass w3 3 1 (omega arith)
            (pass w2 2 1 (omega arith) (tick_timer_self cycles w1 1 e1 v small on plain))
      go (suc (suc zero)) h e =
          let e1 = tick_timer_other cycles w 0 2 (omega arith) plain e in
          let e2 = tick_timer_other cycles w1 1 2 (omega arith) plain e1 in
          pass w3 3 2 (omega arith) (tick_timer_self cycles w2 2 e2 v small on plain)
      go (suc (suc (suc zero))) h e =
          let e1 = tick_timer_other cycles w 0 3 (omega arith) plain e in
          let e2 = tick_timer_other cycles w1 1 3 (omega arith) plain e1 in
          let e3 = tick_timer_other cycles w2 2 3 (omega arith) plain e2 in
          tick_timer_self cycles w3 3 e3 v small on plain
      go (suc (suc (suc (suc j)))) h e = absurd (omega arith)

  -- With a callback that leaves the timers alone and less than 2^31 cycles, `timer_tick` leaves
  -- every valid, enabled timer that does not cascade at the closed form of its counter after
  -- `(prescaler_counter + cycles) / prescaler` ticks, with the remainder as its new prescaler
  -- counter and its settings as they were.
  pub timer_tick_counts :
      (cycles : ℕ) (w : World A) (i : ℕ)
      → i < 4
      → IsValid (w.timers i)
      → cycles < 2 ^ 31
      → (w.timers i).enabled ≡ true
      → (w.timers i).cascade ≡ false
      → (timer_tick on_overflow cycles w).timers i ≡ (
          let t = w.timers i in
          let sum = t.prescaler_counter + cycles in
          record t {
            prescaler_counter = sum % t.prescaler;
            counter = closed_form t.reload (sum / t.prescaler) t.counter;
          })
  unfolding ticked
  timer_tick_counts cycles w i below v small on plain =
      let t = w.timers i in
      counts cycles w i below v small on plain
      ∙ ap
          (λ c. record t {
            prescaler_counter = (t.prescaler_counter + cycles) % t.prescaler;
            counter = c;
          })
          (advance_closed ((t.prescaler_counter + cycles) / t.prescaler) t.reload t.counter
            v.reload_fits v.counter_fits)
