-- ===== src/Input/Keys.antt =====
-- The keys that are down, as a state of each key by itself.
use gba_emulator.Base.{
  Bool, arith, bit, bit-and, bit-not, bit-or, bit_ones, false, not, not16, ℕ, ◌&&◌, ◌<◌, ◌==◌, ◌^◌,
  ◌||◌, ◌≡◌,
}
use gba_emulator.Input.{InputState, input_init, input_press, input_release}

-- Key `n` is down.
abbrev pub down : InputState → ℕ → Bool
down input n = bit input.keyinput n == 0

abbrev pub in_mask : ℕ → ℕ → Bool
in_mask key n = bit key n == 1

-- For each of the ten keys, a press puts down the keys of its 16-bit mask and a release lifts them;
-- neither touches another key, in any state; and at the start no key is down.
keys_lem :
    (input : InputState) (key n : ℕ)
    → key < 2 ^ 16
    → n < 10
    → (down (input_press input key) n ≡ (in_mask key n || down input n))
      × (down (input_release input key) n ≡ (not (in_mask key n) && down input n))
      × (down input_init n ≡ false)
unfolding input_press input_release input_init
keys_lem input key n h p = (
  ground (arith, bit-and n input.keyinput (not16 key), bit-not 16 n key h),
  ground (arith, bit-or n input.keyinput key),
  ground (arith, bit_ones 10 n p),
)
