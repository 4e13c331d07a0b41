-- ===== src/Base/Shift.antt =====
-- The digits of shifted and truncated numbers.
use Prim.Native.Nat.{ℕ, zero, suc, ◌+◌, ◌-◌, ◌*◌, ◌/◌, ◌%◌, ◌^◌, ◌≤◌, ◌<◌}
use mathlib.Core.Path.{◌≡◌, ap, ◌∙◌, sym}
use native.Mathlib.Omega.{arith}
use native.Mathlib.Nat.{pow-suc, mod-eq_of_lt, div-one, zero-div, mul_comm, div-div-eq-div-mul}
use gba_emulator.Base.Test.{ltb, if◌then◌else◌}
use gba_emulator.Base.Word.{bit}
use gba_emulator.Base.Bits.{bit-suc, mod_pow-suc, twice_pow}

-- `>>`
pub bit-div_pow : (a n v : ℕ) → bit (v / 2 ^ a) n ≡ bit v (n + a)
bit-div_pow zero n v =
    ap (λ t. bit t n) (div-one v) ∙ ap (λ k. bit v k) {x = n} {y = n + 0} (omega arith)
bit-div_pow (suc a) n v =
    ap (λ t. bit t n) halves
    ∙ bit-div_pow a n (v / 2)
    ∙ sym (bit-suc v (n + a))
    ∙ ap (λ k. bit v k) {x = suc (n + a)} {y = n + suc a} (omega arith)
  where
    halves : v / 2 ^ suc a ≡ v / 2 / 2 ^ a
    halves = rw (pow-suc 2 a, mul_comm) (sym (div-div-eq-div-mul v 2 (2 ^ a)))

-- `<<`, before it is cut to its width
pub bit-mul_pow : (a n v : ℕ) → bit (v * 2 ^ a) n ≡ (if ltb n a then 0 else bit v (n - a))
bit-mul_pow zero n v = ground arith
bit-mul_pow (suc a) zero v = ground (arith, twice_pow v a)
bit-mul_pow (suc a) (suc n) v =
    bit-suc (v * 2 ^ suc a) n
    ∙ ap (λ t. bit t n) {x = v * 2 ^ suc a / 2} {y = v * 2 ^ a} (omega (arith, twice_pow v a))
    ∙ bit-mul_pow a n v
    ∙ ground arith

-- The cut to `k` digits
pub bit-mod_pow : (k n v : ℕ) → bit (v % 2 ^ k) n ≡ (if ltb n k then bit v n else 0)
bit-mod_pow zero n v =
    ap (λ t. bit t n) {x = v % 1} {y = 0} (omega arith)
    ∙ ap (λ t. t % 2) (zero-div (2 ^ n))
    ∙ ground arith
bit-mod_pow (suc k) zero v = ground (arith, mod_pow-suc k v)
bit-mod_pow (suc k) (suc n) v =
    bit-suc (v % 2 ^ suc k) n
    ∙ ap (λ t. bit t n) {x = v % 2 ^ suc k / 2} {y = v / 2 % 2 ^ k} (omega (arith, mod_pow-suc k v))
    ∙ bit-mod_pow k n (v / 2)
    ∙ ground (arith, bit-suc v n)

-- A number of `k` digits has zeros above.
pub bit_above : (k n v : ℕ) → v < 2 ^ k → k ≤ n → bit v n ≡ 0
bit_above k n v h p = ap (λ t. bit t n) (sym (mod-eq_of_lt h)) ∙ bit-mod_pow k n v ∙ ground arith
