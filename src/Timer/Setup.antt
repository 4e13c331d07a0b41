-- ===== src/Timer/Setup.antt =====
-- What the loops of `timer_tick` leave alone: the settings of every timer, and the counters of
-- the timers that do not cascade, other than the one that runs.
use gba_emulator.Base.{
  ap, arith, false, if◌then◌else◌, refl, suc, u16, zero, ℕ, ◌+◌, ◌<◌, ◌==◌, ◌∙◌, ◌≡◌, ◌≤◌,
}
use gba_emulator.Timer.{Timer, World, set_timer, raise_irq, overflow, cascade_from}

pub record SameSetup (t t' : Timer) : Type 0 where
  pub reload : t'.reload ≡ t.reload
  pub control : t'.control ≡ t.control
  pub prescaler : t'.prescaler ≡ t.prescaler
  pub cascade : t'.cascade ≡ t.cascade
  pub irq_enable : t'.irq_enable ≡ t.irq_enable
  pub enabled : t'.enabled ≡ t.enabled

pub SameSetup-trans : {t u v : Timer} → SameSetup t u → SameSetup u v → SameSetup t v
SameSetup-trans a b = ground arith

-- The audio callback leaves the timers alone.
abbrev pub Quiet : {A : Type 0} → (ℕ → World A → World A) → Type 0
Quiet {A} on_overflow = (i : ℕ) (w : World A) → (on_overflow i w).timers ≡ w.timers

module _ {A : Type 0} (on_overflow : ℕ → World A → World A) (quiet : Quiet on_overflow) where
  raise_irq-timers : (w : World A) (i : ℕ) → (raise_irq w i).timers ≡ w.timers
  unfolding raise_irq
  raise_irq-timers w i = ground arith

  pub overflow-timers :
      (w : World A) (i j : ℕ)
      → (overflow on_overflow w i).timers j
        ≡ (if j == i then record (w.timers i) { counter = (w.timers i).reload } else w.timers j)
  unfolding overflow
  overflow-timers w i j =
      let t : Timer = record (w.timers i) { counter = (w.timers i).reload } in
      ap (λ f. f j) (quiet i (raise_irq (set_timer w i t) i) ∙ raise_irq-timers (set_timer w i t) i)

  pub cascade_from-SameSetup :
      (left next j : ℕ) (w : World A)
      → SameSetup (w.timers j) ((cascade_from on_overflow left next w).timers j)
  unfolding cascade_from
  cascade_from-SameSetup zero next j w = ground arith
  cascade_from-SameSetup (suc left) next j w =
      let t = w.timers next in
      let bumped = set_timer w next (record t { counter = u16 (t.counter + 1) }) in
      ground (
        arith,
        overflow-timers bumped next j,
        cascade_from-SameSetup left (next + 1) j (overflow on_overflow bumped next),
      )

  pub cascade_from-below :
      (left next j : ℕ) (w : World A)
      → j < next
      → (cascade_from on_overflow left next w).timers j ≡ w.timers j
  unfolding cascade_from
  cascade_from-below zero next j w h = refl
  cascade_from-below (suc left) next j w h =
      let t = w.timers next in
      let bumped = set_timer w next (record t { counter = u16 (t.counter + 1) }) in
      ground (
        arith,
        overflow-timers bumped next j,
        cascade_from-below left (next + 1) j (overflow on_overflow bumped next),
      )

  -- The chain does not pass a timer that does not cascade.
  pub cascade_from-past :
      (left next m j : ℕ) (w : World A)
      → next ≤ m
      → m ≤ j
      → (w.timers m).cascade ≡ false
      → (cascade_from on_overflow left next w).timers j ≡ w.timers j
  unfolding cascade_from
  cascade_from-past zero next m j w p q off = refl
  cascade_from-past (suc left) next m j w p q off =
      let t = w.timers next in
      let bumped = set_timer w next (record t { counter = u16 (t.counter + 1) }) in
      ground (
        arith,
        overflow-timers bumped next j,
        overflow-timers bumped next m,
        cascade_from-past left (next + 1) m j (overflow on_overflow bumped next),
      )
