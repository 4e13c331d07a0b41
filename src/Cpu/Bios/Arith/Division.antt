-- ===== src/Cpu/Bios/Arith/Division.antt =====
-- Div of the high-level BIOS is the division of integers that rounds towards zero.
use gba_emulator.Base.{
  Bool, sym, refl, ◌⊎◌, inl, inr, arith, false, not, if◌then◌else◌, neg_part, pos_part, same,
  signed32, test_bit, true, ℕ, ◌%◌, ◌*◌, ◌+◌, ◌-◌, ◌/◌, ◌<◌, ◌==◌, ◌^◌, ◌≡◌, ◌≢◌, ◌≤◌,
}
use native.Mathlib.Decide.{dec_lt}
use native.Mathlib.Nat
use gba_emulator.Cpu.State.{Cpu}
use gba_emulator.Cpu.Bios.Arith.{abs32, neg32, div32, rem32, swi_div}

-- The absolute value of the number that a word stands for, and whether it is negative
abbrev pub size : ℕ → ℕ
size w = pos_part (signed32 w) + neg_part (signed32 w)

abs32_size : (w : ℕ) → w < 2 ^ 32 → abs32 w ≡ size w
unfolding abs32
abs32_size w h = ground arith

-- The words `q` and `r` are quotient and remainder of `n` by `d`: in size, with a remainder that has
-- the sign of `n` and a quotient whose sign is that of the signs' product.
pub record Divides (n d q r : ℕ) : Type 0 where
  pub sum : size n ≡ size q * size d + size r
  pub smaller : size r < size d
  pub remainder_sign : (r ≡ 0) ⊎ (test_bit r 31 ≡ test_bit n 31)
  pub quotient_sign : (q ≡ 0) ⊎ (test_bit q 31 ≡ not (same (test_bit n 31) (test_bit d 31)))

-- A size below 2 ^ 31, or 2 ^ 31 with the sign, as a word with a sign
size-signed :
    (minus : Bool) (q : ℕ)
    → q ≤ 2 ^ 31
    → (q ≡ 2 ^ 31 → minus ≡ true)
    → (size (if minus then neg32 q else q) ≡ q)
      × (((if minus then neg32 q else q) ≡ 0)
          ⊎ (test_bit (if minus then neg32 q else q) 31 ≡ minus))
size-signed true q h top = (ground arith, ground arith)
size-signed false q h top = let below : q < 2 ^ 31 = ground arith in (ground arith, ground arith)

size-nonzero : (w : ℕ) → w ≢ 0 → 1 ≤ size w
size-nonzero w h = ground arith

size-le : (w : ℕ) → w < 2 ^ 32 → size w ≤ 2 ^ 31
size-le w h = ground arith

-- A size of 2 ^ 31 is the lowest number, and a size of 1 is 1 or -1.
size_top : (w : ℕ) → w < 2 ^ 32 → size w ≡ 2 ^ 31 → w ≡ 2 ^ 31
size_top w h e = ground arith

size_one : (w : ℕ) → w < 2 ^ 32 → size w ≡ 1 → (w ≡ 1) ⊎ (w ≡ 2 ^ 32 - 1)
size_one w h e = ground arith

flipped : (b : Bool) (x y : ℕ) → (if b then x else y) ≡ (if not b then y else x)
flipped true x y = refl
flipped false x y = refl

minus : ℕ → ℕ → Bool
minus n d = not (same (test_bit n 31) (test_bit d 31))

div32_lem :
    (n d : ℕ)
    → n < 2 ^ 32
    → d < 2 ^ 32
    → div32 n d ≡ (if minus n d then neg32 (size n / size d) else size n / size d)
unfolding div32 minus
div32_lem n d hn hd =
    rw (abs32_size n hn, abs32_size d hd)
      (flipped (same (test_bit n 31) (test_bit d 31)) (size n / size d) (neg32 (size n / size d)))

rem32_lem :
    (n d : ℕ)
    → n < 2 ^ 32
    → d < 2 ^ 32
    → rem32 n d ≡ (if test_bit n 31 then neg32 (size n % size d) else size n % size d)
unfolding rem32
rem32_lem n d hn hd = rw (abs32_size n hn, abs32_size d hd) refl

quotient-top :
    (n d : ℕ)
    → n < 2 ^ 32
    → d < 2 ^ 32
    → d ≢ 0
    → (n ≡ 2 ^ 31 → d ≢ 2 ^ 32 - 1)
    → size n / size d ≡ 2 ^ 31
    → minus n d ≡ true
unfolding minus
quotient-top n d hn hd some fits e = elim (dec_lt 1 (size d)) [
  | yes p ↦ absurd (
      omega (
        arith,
        Nat.div-lt_self {n = size n} {k = size d} (omega (arith, Nat.div-le_self (size n) (size d)))
            p,
        size-le n hn,
      ))
  | no p ↦
      let one : size d ≡ 1 = omega (arith, size-nonzero d some) in
      let whole : size n / size d ≡ size n = rw one (Nat.div-one (size n)) in
      let top = size_top n hn (omega (arith, whole)) in
      elim (size_one d hd one) [ inl d1 ↦ rw (top, d1) refl | inr d1 ↦ absurd (fits top d1) ]
]

signed-lt : (b : Bool) (q : ℕ) → q < 2 ^ 32 → (if b then neg32 q else q) < 2 ^ 32
signed-lt b q h = ground arith

div-Divides :
    (n d : ℕ)
    → n < 2 ^ 32
    → d < 2 ^ 32
    → d ≢ 0
    → (n ≡ 2 ^ 31 → d ≢ 2 ^ 32 - 1)
    → Divides n d (div32 n d) (rem32 n d) × (abs32 (div32 n d) ≡ size (div32 n d))
unfolding minus
div-Divides n d hn hd some fits =
    let pos = size-nonzero d some in
    let q = size n / size d in
    let r = size n % size d in
    let r_lt : r < size d = Nat.mod-lt (size n) pos in
    let q_le : q ≤ 2 ^ 31 = omega (arith, size-le n hn, Nat.div-le_self (size n) (size d)) in
    let (q_size, q_sign) = size-signed (minus n d) q q_le (quotient-top n d hn hd some fits) in
    let (r_size, r_sign) =
      size-signed (test_bit n 31) r (omega (arith, size-le d hd))
        (λ e. absurd (omega (arith, size-le d hd))) in
    let word = signed-lt (minus n d) q (omega arith) in
    rw (div32_lem n d hn hd, rem32_lem n d hn hd)
      (
        record {
          sum = rw (q_size, r_size) (sym (Nat.div-add-mod' (size n) (size d)));
          smaller = rw r_size r_lt;
          remainder_sign = r_sign;
          quotient_sign = q_sign;
        },
        abs32_size (if minus n d then neg32 q else q) word,
      )

div_regs :
    (cpu : Cpu)
    → cpu.regs 1 ≢ 0
    → ((swi_div cpu).regs 0 ≡ div32 (cpu.regs 0) (cpu.regs 1))
      × ((swi_div cpu).regs 1 ≡ rem32 (cpu.regs 0) (cpu.regs 1))
      × ((swi_div cpu).regs 3 ≡ abs32 (div32 (cpu.regs 0) (cpu.regs 1)))
unfolding swi_div
div_regs cpu some =
    let defined : (cpu.regs 1 == 0) ≡ false = ground arith in
    (simp defined refl, simp defined refl, simp defined refl)

-- On words, where R1 is not 0 and where R0 is not the lowest number over -1, Div leaves in R0 and R1
-- the quotient that is rounded towards zero and the remainder with the sign of the dividend, and in
-- R3 the size of the quotient.
pub swi_div-Divides :
    (cpu : Cpu)
    → cpu.regs 0 < 2 ^ 32
    → cpu.regs 1 < 2 ^ 32
    → cpu.regs 1 ≢ 0
    → (cpu.regs 0 ≡ 2 ^ 31 → cpu.regs 1 ≢ 2 ^ 32 - 1)
    → Divides (cpu.regs 0) (cpu.regs 1) ((swi_div cpu).regs 0) ((swi_div cpu).regs 1)
      × ((swi_div cpu).regs 3 ≡ size ((swi_div cpu).regs 0))
swi_div-Divides cpu hn hd some fits =
    let (r0, r1, r3) = div_regs cpu some in
    rw (r0, r1, r3) (div-Divides (cpu.regs 0) (cpu.regs 1) hn hd some fits)
