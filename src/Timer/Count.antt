-- ===== src/Timer/Count.antt =====
-- A 16-bit counter that reloads: how it stands after any number of ticks, in closed form.
use gba_emulator.Base.{
  ap, arith, if◌then◌else◌, ltb, suc, u16, zero, ℕ, ◌%◌, ◌+◌, ◌-◌, ◌<◌, ◌==◌, ◌^◌, ◌∙◌, ◌≡◌,
}
use native.Mathlib.Nat.{mod-eq_of_lt, mod-eq-sub-mod}
use native.Mathlib.Decide.{dec_lt}

-- One tick: count up, and take the reload value in place of the wrap to 0.
unfoldable pub tick_once : ℕ → ℕ → ℕ
tick_once reload c = if u16 (c + 1) == 0 then reload else u16 (c + 1)

unfoldable pub advance : ℕ → ℕ → ℕ → ℕ
advance reload zero c = c
advance reload (suc k) c = advance reload k (tick_once reload c)

-- Until the first overflow the counter counts up; from then on it runs round the range from the
-- reload value to 0xFFFF.
unfoldable pub closed_form : ℕ → ℕ → ℕ → ℕ
closed_form reload k c =
    if ltb (c + k) (2 ^ 16) then c + k else reload + (c + k - 2 ^ 16) % (2 ^ 16 - reload)

tick_once_top : (reload c : ℕ) → c + 1 ≡ 2 ^ 16 → tick_once reload c ≡ reload
unfolding tick_once
tick_once_top reload c e = ground arith

tick_once_below : (reload c : ℕ) → c + 1 < 2 ^ 16 → tick_once reload c ≡ c + 1
unfolding tick_once
tick_once_below reload c h = ground arith

-- Starting over at the reload value is the same as having reached it by the wrap.
wrap_closed :
    (reload k c : ℕ)
    → reload < 2 ^ 16
    → c + 1 ≡ 2 ^ 16
    → closed_form reload k reload ≡ closed_form reload (suc k) c
unfolding closed_form
wrap_closed reload k c h e = elim (dec_lt (reload + k) (2 ^ 16)) [
  | yes p ↦ ground (arith, mod-eq_of_lt {n = k} {m = 2 ^ 16 - reload} (omega arith))
  | no p ↦ ground (
    arith,
    mod-eq-sub-mod {n = k} {m = 2 ^ 16 - reload} (omega arith),
    ap (λ t. t % (2 ^ 16 - reload)) {x = k - (2 ^ 16 - reload)} {y = reload + k - 2 ^ 16}
        (omega arith),
  )
]

pub advance_closed :
    (k reload c : ℕ) → reload < 2 ^ 16 → c < 2 ^ 16 → advance reload k c ≡ closed_form reload k c
unfolding advance
advance_closed zero reload c hr hc = unfold closed_form in ground arith
advance_closed (suc k) reload c hr hc = elim (dec_lt (c + 1) (2 ^ 16)) [
  | yes below ↦
      rw (tick_once_below reload c below)
        (advance_closed k reload (c + 1) hr below ∙ unfold closed_form in ground arith)
  | no top ↦
      rw (tick_once_top reload c (omega arith))
        (advance_closed k reload reload hr hr ∙ wrap_closed reload k c hr (omega arith))
]
