-- ===== src/Cpu/DataProcessing/Arith.antt =====
-- The arithmetic opcodes of `arm_data_processing`: results, carries and overflows as arithmetic on
-- the numbers that the words stand for.
use gba_emulator.Base.{
  Bool, ap, ap₂, arith, bit, bit-and, bit-xor, bit_xor, false, if◌then◌else◌, ltb, min, neg_part,
  not32, pos_part, refl, signed32, true, u32, ℕ, ◌%◌, ◌+◌, ◌-◌, ◌<◌, ◌==◌, ◌^◌, ◌↔◌, ◌∙◌, ◌≡◌, ◌≤◌,
}
use gba_emulator.Cpu.State.{Cpu}
use gba_emulator.Cpu.Flags.{flags_lem, add_overflow, sub_overflow}
use gba_emulator.Cpu.DataProcessing.{AluOut, alu, arithmetic}
use gba_emulator.Cpu.DataProcessing.Compare.{sub_overflow_lem}

-- `out` is `x + y + c`: N and Z by the result, C by the carry out of bit 31, and V clear exactly
-- when the signed sum is the result.
pub record Adds (out : AluOut) (x y c : ℕ) : Type 0 where
  pub value : out.result ≡ (x + y + c) % 2 ^ 32
  pub negative : bit out.cpu.cpsr 31 ≡ bit out.result 31
  pub zeroed : (bit out.cpu.cpsr 30 ≡ 1) ↔ (out.result ≡ 0)
  pub carried : (bit out.cpu.cpsr 29 ≡ 1) ↔ (2 ^ 32 ≤ x + y + c)
  pub exact : (bit out.cpu.cpsr 28 ≡ 0) ↔ (
      pos_part (signed32 out.result) + neg_part (signed32 x) + neg_part (signed32 y)
      ≡ neg_part (signed32 out.result) + pos_part (signed32 x) + pos_part (signed32 y) + c)

-- `out` is `x - y - (1 - c)`: C set exactly when there is no borrow.
pub record Subtracts (out : AluOut) (x y c : ℕ) : Type 0 where
  pub value : out.result ≡ (x + 2 ^ 32 - y + c - 1) % 2 ^ 32
  pub negative : bit out.cpu.cpsr 31 ≡ bit out.result 31
  pub zeroed : (bit out.cpu.cpsr 30 ≡ 1) ↔ (out.result ≡ 0)
  pub carried : (bit out.cpu.cpsr 29 ≡ 1) ↔ (y + 1 ≤ x + c)
  pub exact : (bit out.cpu.cpsr 28 ≡ 0) ↔ (
      pos_part (signed32 out.result) + neg_part (signed32 x) + pos_part (signed32 y) + 1
      ≡ neg_part (signed32 out.result) + pos_part (signed32 x) + neg_part (signed32 y) + c)

add_overflow_lem :
    (a b r : ℕ)
    → add_overflow a b r ≡ (min ((bit a 31 + bit r 31) % 2) ((bit b 31 + bit r 31) % 2) == 1)
unfolding add_overflow
add_overflow_lem a b r =
    ap (λ t. t == 1)
      (bit-and 31 (bit_xor a r) (bit_xor b r) ∙ ap₂ min (bit-xor 31 a r) (bit-xor 31 b r))

add_exact :
    (x y c : ℕ)
    → x < 2 ^ 32
    → y < 2 ^ 32
    → c < 2
    → let r = u32 (x + y + c) in
      (add_overflow x y r ≡ false) ↔ (
        pos_part (signed32 r) + neg_part (signed32 x) + neg_part (signed32 y)
        ≡ neg_part (signed32 r) + pos_part (signed32 x) + pos_part (signed32 y) + c)
add_exact x y c hx hy hc = ground (arith, add_overflow_lem x y (u32 (x + y + c)))

sub_exact :
    (x y c : ℕ)
    → x < 2 ^ 32
    → y < 2 ^ 32
    → c < 2
    → let r = u32 (x + not32 y + c) in
      (sub_overflow x y r ≡ false) ↔ (
        pos_part (signed32 r) + neg_part (signed32 x) + pos_part (signed32 y) + 1
        ≡ neg_part (signed32 r) + pos_part (signed32 x) + neg_part (signed32 y) + c)
sub_exact x y c hx hy hc = ground (arith, sub_overflow_lem x y (u32 (x + not32 y + c)))

clear_iff : (b : Bool) {n : ℕ} → n ≡ (if b then 1 else 0) → (n ≡ 0) ↔ (b ≡ false)
clear_iff b e = ground arith

module _ (cpu : Cpu) (write s : Bool) where
  added :
      (x y c : ℕ)
      → x < 2 ^ 32
      → y < 2 ^ 32
      → c < 2
      → Adds (arithmetic cpu write s true (x + y + c) (add_overflow x y)) x y c
  added x y c hx hy hc =
      let r = u32 (x + y + c) in
      let carry = ltb 0xffffffff (x + y + c) in
      let v = add_overflow x y r in
      record {
        value = refl;
        negative = flags_lem cpu r 31 carry v (omega arith);
        zeroed = ground (arith, flags_lem cpu r 30 carry v (omega arith));
        carried = ground (arith, flags_lem cpu r 29 carry v (omega arith));
        exact =
            let off = clear_iff v (flags_lem cpu r 28 carry v (omega arith)) in
            (
              λ z. (add_exact x y c hx hy hc).0 (off.0 z),
              λ e. off.1 ((add_exact x y c hx hy hc).1 e),
            );
      }

  subtracted :
      (x y c : ℕ)
      → x < 2 ^ 32
      → y < 2 ^ 32
      → c < 2
      → Subtracts (arithmetic cpu write s true (x + not32 y + c) (sub_overflow x y)) x y c
  subtracted x y c hx hy hc =
      let r = u32 (x + not32 y + c) in
      let carry = ltb 0xffffffff (x + not32 y + c) in
      let v = sub_overflow x y r in
      record {
        value = omega arith;
        negative = flags_lem cpu r 31 carry v (omega arith);
        zeroed = ground (arith, flags_lem cpu r 30 carry v (omega arith));
        carried = ground (arith, flags_lem cpu r 29 carry v (omega arith));
        exact =
            let off = clear_iff v (flags_lem cpu r 28 carry v (omega arith)) in
            (
              λ z. (sub_exact x y c hx hy hc).0 (off.0 z),
              λ e. off.1 ((sub_exact x y c hx hy hc).1 e),
            );
      }

-- On operands of 32 bits, ADDS and ADCS are the sum, without and with the carry flag, with the
-- flags of that sum; CMN sets the flags of ADDS.
pub alu-Adds :
    (cpu : Cpu) (a b : ℕ)
    → a < 2 ^ 32
    → b < 2 ^ 32
    → Adds (alu cpu 0x4 true a b) a b 0
      × Adds (alu cpu 0x5 true a b) a b (bit cpu.cpsr 29)
      × ((alu cpu 0xb false a b).cpu ≡ (alu cpu 0x4 true a b).cpu)
unfolding alu
alu-Adds cpu a b ha hb =
    let none : a + b ≡ a + b + 0 = omega arith in
    (
      rw none (added cpu true true a b 0 ha hb (omega arith)),
      added cpu true true a b (bit cpu.cpsr 29) ha hb (omega arith),
      refl,
    )

-- On operands of 32 bits, SUBS, RSBS, SBCS and RSCS are the differences, the latter two less the
-- borrow that a clear carry flag stands for, with the flags of that difference; CMP sets the flags
-- of SUBS.
pub alu-Subtracts :
    (cpu : Cpu) (a b : ℕ)
    → a < 2 ^ 32
    → b < 2 ^ 32
    → Subtracts (alu cpu 0x2 true a b) a b 1
      × Subtracts (alu cpu 0x3 true a b) b a 1
      × Subtracts (alu cpu 0x6 true a b) a b (bit cpu.cpsr 29)
      × Subtracts (alu cpu 0x7 true a b) b a (bit cpu.cpsr 29)
      × ((alu cpu 0xa false a b).cpu ≡ (alu cpu 0x2 true a b).cpu)
unfolding alu
alu-Subtracts cpu a b ha hb = (
  subtracted cpu true true a b 1 ha hb (omega arith),
  subtracted cpu true true b a 1 hb ha (omega arith),
  subtracted cpu true true a b (bit cpu.cpsr 29) ha hb (omega arith),
  subtracted cpu true true b a (bit cpu.cpsr 29) hb ha (omega arith),
  refl,
)
