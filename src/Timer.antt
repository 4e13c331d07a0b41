-- ===== src/Timer.antt =====
-- The four timers: src/timer/timer.c and timer.h.
--
-- `timer_tick` reaches the audio unit through `apu_on_timer_overflow`, and by it the DMA and the
-- bus; that call is the parameter `on_overflow` here, a function on the whole state (the identity
-- where the pointer is NULL). The X-Ray notifications are left out.
pub mod Count
pub mod Setup
pub mod Tick
pub mod Agree
mod Tests
use gba_emulator.Base.{
  Bool, false, if◌then◌else◌, leb, ltb, not, suc, test_bit, u16, u32, update, zero, ℕ, ◌%◌, ◌&&◌,
  ◌+◌, ◌-◌, ◌/◌, ◌==◌, ◌^◌, ◌||◌,
}
use gba_emulator.Interrupt.{InterruptController, interrupt_request}

pub record Timer : Type 0 where
  pub counter : ℕ
  pub reload : ℕ
  pub control : ℕ
  pub prescaler : ℕ
  pub cascade : Bool
  pub irq_enable : Bool
  pub enabled : Bool
  pub prescaler_counter : ℕ

-- What `timer_tick` reads and writes; `A` is the state behind the audio unit.
pub record World (A : Type 0) : Type 0 where
  pub timers : ℕ → Timer
  pub interrupts : InterruptController
  pub apu : A

unfoldable pub prescaler_value : ℕ → ℕ
prescaler_value val =
    if val == 0 then 1 else if val == 1 then 64 else if val == 2 then 256 else 1024

unfoldable pub timer_init : ℕ → Timer
timer_init i = record {
  counter = 0;
  reload = 0;
  control = 0;
  prescaler = 1;
  cascade = false;
  irq_enable = false;
  enabled = false;
  prescaler_counter = 0;
}

unfoldable pub timer_write_reload : Timer → ℕ → Timer
timer_write_reload t val = record t { reload = val }

unfoldable pub timer_write_control : Timer → ℕ → Timer
unfolding prescaler_value
timer_write_control t val =
    let written : Timer = record t {
      control = val;
      prescaler = prescaler_value (val % 4);
      cascade = test_bit val 2;
      irq_enable = test_bit val 6;
      enabled = test_bit val 7;
    } in
    if not t.enabled && test_bit val 7
    then record written { counter = t.reload; prescaler_counter = 0 }
    else written

unfoldable pub timer_read_counter : Timer → ℕ
timer_read_counter t = t.counter

abbrev pub timer_irq_bit : ℕ → ℕ
timer_irq_bit i = 2 ^ (3 + i)

module _ {A : Type 0} where
  abbrev pub set_timer : World A → ℕ → Timer → World A
  set_timer w i t = record w { timers = update w.timers i t }

  -- `if (timers[i].irq_enable) interrupt_request(...)`
  pub raise_irq : World A → ℕ → World A
  raise_irq w i =
      if (w.timers i).irq_enable
      then record w { interrupts = interrupt_request w.interrupts (timer_irq_bit i) }
      else w

module _ {A : Type 0} (on_overflow : ℕ → World A → World A) where
  -- What an overflow of timer `i` sets off, once its counter has wrapped to 0.
  pub overflow : World A → ℕ → World A
  overflow w i =
      let t = w.timers i in
      on_overflow i (raise_irq (set_timer w i (record t { counter = t.reload })) i)

  -- The cascade loop from timer `next` on. `left` bounds the rounds by the timers that remain.
  pub cascade_from : ℕ → ℕ → World A → World A
  cascade_from zero next w = w
  cascade_from (suc left) next w =
      let t = w.timers next in
      let bumped = set_timer w next (record t { counter = u16 (t.counter + 1) }) in
      let rest = cascade_from left (next + 1) (overflow bumped next) in
      if ltb next 4 && t.enabled && t.cascade
      then if u16 (t.counter + 1) == 0 then rest else bumped
      else w

  -- One round of the `while` loop of timer `i`.
  pub prescaled_step : World A → ℕ → World A
  prescaled_step w i =
      let t = w.timers i in
      let w' = set_timer w i (record t {
        prescaler_counter = t.prescaler_counter - t.prescaler;
        counter = u16 (t.counter + 1);
      }) in
      if u16 (t.counter + 1) == 0 then cascade_from 4 (i + 1) (overflow w' i) else w'

  -- The `while` loop, with fuel.
  pub prescaled_loop : ℕ → ℕ → World A → World A
  prescaled_loop zero i w = w
  prescaled_loop (suc fuel) i w =
      let t = w.timers i in
      let rest = prescaled_loop fuel i (prescaled_step w i) in
      if leb t.prescaler t.prescaler_counter then rest else w

  -- The body of the `for` loop: `cycles` is not negative.
  pub tick_timer : ℕ → World A → ℕ → World A
  tick_timer cycles w i =
      let t = w.timers i in
      let sum = u32 (t.prescaler_counter + cycles) in
      if not t.enabled || t.cascade
      then w
      else prescaled_loop (suc (sum / t.prescaler)) i
          (set_timer w i (record t { prescaler_counter = sum }))

  pub timer_tick : ℕ → World A → World A
  timer_tick cycles w =
      tick_timer cycles (tick_timer cycles (tick_timer cycles (tick_timer cycles w 0) 1) 2) 3
