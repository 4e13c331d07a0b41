-- ===== src/Input.antt =====
-- The keypad: src/input/input.c. A key that is down is a zero of `keyinput`.
pub mod Keys
mod Tests
use gba_emulator.Base.{bit_and, bit_or, not16, ℕ}

pub record InputState : Type 0 where
  pub keyinput : ℕ
  pub keycnt : ℕ

unfoldable pub input_init : InputState
input_init = record { keyinput = 0x3ff; keycnt = 0 }

unfoldable pub input_press : InputState → ℕ → InputState
input_press input key = record input { keyinput = bit_and input.keyinput (not16 key) }

unfoldable pub input_release : InputState → ℕ → InputState
input_release input key = record input { keyinput = bit_or input.keyinput key }
