-- ===== src/Apu/Period.antt =====
-- The loop that the channels share: `while (timer >= period) { timer -= period; ... }`. Each round
-- takes at least one from the timer, so the timer is fuel enough.
use native.Mathlib.Decide.{dec_lt}
use native.Mathlib.Nat.{
  zero-div, zero-mod, mod-eq_of_lt, div-eq_of_lt, div-eq-sub-div, add-mod_right, mod-add-mod,
  mod-mod,
}
use gba_emulator.Base.{
  ap, arith, false, if◌then◌else◌, leb, refl, suc, sym, true, zero, ℕ, ◌%◌, ◌+◌, ◌-◌, ◌/◌, ◌<◌, ◌∙◌,
  ◌≡◌, ◌≤◌,
}

module _ {ℓ} {A : Type ℓ} (step : A → A) where
  unfoldable pub rounds : ℕ → ℕ → ℕ → A → ℕ × A
  rounds zero period timer a = (timer, a)
  rounds (suc fuel) period timer a =
      let rest = rounds fuel period (timer - period) (step a) in
      if leb period timer then rest else (timer, a)

  unfoldable pub iterate : ℕ → A → A
  iterate zero a = a
  iterate (suc n) a = iterate n (step a)

  abbrev pub drain : ℕ → ℕ → A → ℕ × A
  drain period timer a = rounds timer period timer a

  -- The loop leaves the remainder in the timer, after as many steps as the quotient.
  pub rounds_lem :
      (fuel period timer : ℕ) (a : A)
      → 0 < period
      → timer ≤ fuel
      → rounds fuel period timer a ≡ (timer % period, iterate (timer / period) a)
  unfolding rounds iterate
  rounds_lem zero period timer a h p =
      let none : timer ≡ 0 = omega arith in simp (none, zero-div, zero-mod) refl
  rounds_lem (suc fuel) period timer a h p = elim (dec_lt timer period) [
    | yes below ↦
        let test : leb period timer ≡ false = ground arith in
        simp (test, mod-eq_of_lt below, div-eq_of_lt below) refl
    | no above ↦
        let test : leb period timer ≡ true = ground arith in
        let back : timer - period + period ≡ timer = omega arith in
        let quotient : timer / period ≡ suc ((timer - period) / period) =
          div-eq-sub-div h (omega arith) ∙ omega arith in
        let remainder : timer % period ≡ (timer - period) % period =
          ap (λ t. t % period) (sym back) ∙ add-mod_right (timer - period) period in
        simp (test, quotient, remainder)
          (rounds_lem fuel period (timer - period) (step a) h (omega arith))
  ]

-- Steps on a wheel of `m` positions.
pub iterate_wheel :
    (m n pos : ℕ) → pos % m ≡ pos → iterate (λ pos. (pos + 1) % m) n pos ≡ (pos + n) % m
unfolding iterate
iterate_wheel m zero pos e = sym e ∙ ap (λ t. t % m) {x = pos} {y = pos + 0} (omega arith)
iterate_wheel m (suc n) pos e =
    iterate_wheel m n ((pos + 1) % m) (mod-mod (pos + 1) m)
    ∙ mod-add-mod (pos + 1) m n
    ∙ ap (λ t. t % m) {x = pos + 1 + n} {y = pos + suc n} (omega arith)
