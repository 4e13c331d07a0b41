-- ===== src/Cpu/Bios/Arith/Sqrt.antt =====
-- Sqrt of the high-level BIOS is the integer square root.
use gba_emulator.Base.{
  arith, by_test, false, ◌≢◌, leb, ltb, refl, suc, zero, ℕ, ◌*◌, ◌+◌, ◌-◌, ◌/◌, ◌<◌, ◌==◌, ◌^◌, ◌≡◌,
  ◌≤◌,
}
use gba_emulator.Cpu.State.{Cpu, set_reg}
use gba_emulator.Cpu.Bios.Arith.{sqrt_start, sqrt_loop, sqrt_of, swi_sqrt}

-- `r` is the integer square root of `v`.
pub record IsSqrt (v r : ℕ) : Type 0 where
  pub below : r * r ≤ v
  pub above : v < (r + 1) * (r + 1)

-- Before a round that tests `bit`, `c` being 4 * bit (and 1 at the end): `t` holds the digits of the
-- root that are found.
record Found (v c bit val result t : ℕ) : Type 0 where
  digits : result ≡ t * c
  rest : val + t * t * c ≡ v
  bound : v < (t + 1) * (t + 1) * c

taken-Found :
    (v b bit val result t : ℕ)
    → Found v (4 * b) b val result t
    → result + b ≤ val
    → Found v b bit (val - (result + b)) (result / 2 + b) (2 * t + 1)
taken-Found v b bit val result t f h = record {
  digits = omega (arith, f.digits);
  rest = omega (arith, f.digits, f.rest);
  bound = omega (arith, f.bound);
}

left-Found :
    (v b bit val result t : ℕ)
    → Found v (4 * b) b val result t
    → val < result + b
    → Found v b bit val (result / 2) (2 * t)
left-Found v b bit val result t f h = record {
  digits = omega (arith, f.digits);
  rest = omega (arith, f.rest);
  bound = omega (arith, f.digits, f.rest);
}

-- 4 ^ n, and the bit that a round with n more to come tests
quad : ℕ → ℕ
quad zero = 1
quad (suc n) = 4 * quad n

bit_of : ℕ → ℕ
bit_of zero = 0
bit_of (suc n) = quad n

quad_pos : (n : ℕ) → 1 ≤ quad n
unfolding quad
quad_pos zero = omega arith
quad_pos (suc n) = omega (arith, quad_pos n)

quad_next : (n : ℕ) → quad n / 4 ≡ bit_of n
unfolding quad bit_of
quad_next zero = refl
quad_next (suc n) = omega arith

end-IsSqrt : (v bit val result t : ℕ) → Found v 1 bit val result t → IsSqrt v result
end-IsSqrt v bit val result t f =
    let e : result ≡ t = omega (arith, f.digits) in
    rw e (record { below = omega (arith, f.rest); above = omega (arith, f.bound) })

sqrt_loop-IsSqrt :
    (n fuel v val result t : ℕ)
    → n ≤ fuel
    → Found v (quad n) (bit_of n) val result t
    → IsSqrt v (sqrt_loop fuel (bit_of n) val result)
unfolding sqrt_loop quad bit_of
sqrt_loop-IsSqrt zero zero v val result t h f = end-IsSqrt v 0 val result t f
sqrt_loop-IsSqrt zero (suc fuel) v val result t h f = end-IsSqrt v 0 val result t f
sqrt_loop-IsSqrt (suc n) zero v val result t h f = absurd (omega arith)
sqrt_loop-IsSqrt (suc n) (suc fuel) v val result t h f =
    let some_bit : (quad n == 0) ≡ false = ground (arith, quad_pos n) in
    let taken =
      sqrt_loop-IsSqrt n fuel v (val - (result + quad n)) (result / 2 + quad n) (2 * t + 1)
        (omega arith) in
    let left = sqrt_loop-IsSqrt n fuel v val (result / 2) (2 * t) (omega arith) in
    rw (some_bit, quad_next n)
      (by_test (IsSqrt v) (leb (result + quad n) val)
        (λ e. taken (taken-Found v (quad n) (bit_of n) val result t f (ground arith)))
        (λ e. left (left-Found v (quad n) (bit_of n) val result t f (ground arith))))

sqrt_start-IsSqrt :
    (fuel n v : ℕ)
    → n ≤ 17
    → v < quad n
    → IsSqrt v (sqrt_loop 17 (sqrt_start fuel (bit_of n) v) v 0)
unfolding sqrt_start bit_of
sqrt_start-IsSqrt zero n v h b =
    sqrt_loop-IsSqrt n 17 v v 0 0 h
      record { digits = omega arith; rest = omega arith; bound = omega arith }
sqrt_start-IsSqrt (suc fuel) zero v h b =
    let ends : ltb v 0 ≡ false = ground arith in
    let here =
      sqrt_loop-IsSqrt zero 17 v v 0 0 h
        record { digits = omega arith; rest = omega arith; bound = omega arith } in
    rw ends here
sqrt_start-IsSqrt (suc fuel) (suc n) v h b =
    let rest = sqrt_start-IsSqrt fuel n v (omega arith) in
    let here =
      sqrt_loop-IsSqrt (suc n) 17 v v 0 0 h
        record { digits = omega arith; rest = omega arith; bound = omega arith } in
    rw (quad_next n) (
      by_test (λ bit. IsSqrt v (sqrt_loop 17 bit v 0)) (ltb v (quad n)) (λ e. rest (ground arith))
        (λ e. here))

set_other : (cpu : Cpu) (v r : ℕ) → r ≢ 0 → (set_reg cpu 0 v).regs r ≡ cpu.regs r
set_other cpu v r h = let other : (r == 0) ≡ false = ground arith in rw other refl

keeps_others : (cpu : Cpu) (r : ℕ) → r ≢ 0 → (swi_sqrt cpu).regs r ≡ cpu.regs r
unfolding swi_sqrt
keeps_others cpu r h = set_other cpu (sqrt_of (cpu.regs 0)) r h

sqrt_of-IsSqrt : (v : ℕ) → v < 2 ^ 32 → IsSqrt v (sqrt_of v)
unfolding sqrt_of quad bit_of
sqrt_of-IsSqrt v word = sqrt_start-IsSqrt 17 16 v (omega arith) word

-- On a word, R0 after Sqrt is the largest number whose square is at most R0 before, and any other
-- register `r` stays.
pub swi_sqrt-IsSqrt :
    (cpu : Cpu) (r : ℕ)
    → cpu.regs 0 < 2 ^ 32
    → r ≢ 0
    → IsSqrt (cpu.regs 0) ((swi_sqrt cpu).regs 0) × ((swi_sqrt cpu).regs r ≡ cpu.regs r)
unfolding swi_sqrt
swi_sqrt-IsSqrt cpu r word other = (sqrt_of-IsSqrt (cpu.regs 0) word, keeps_others cpu r other)
