-- ===== src/Input/Tests.antt =====
-- The keys at a concrete state: A is down, and START is pressed or A is released.
use gba_emulator.Base.{refl, ◌≡◌}
use gba_emulator.Input.{InputState, input_init, input_press}

abbrev holding_a : InputState
holding_a = record { keyinput = 0x3fe; keycnt = 0 }

pressed : input_press input_init 1 ≡ holding_a
unfolding input_press input_init
pressed = refl
