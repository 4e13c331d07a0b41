-- ===== src/Base/Bits.antt =====
-- The bit operations at variables: each digit of the result, the range of the result, and two
-- numbers with the same digits.
use Prim.Native.Nat.{ℕ, zero, suc, ◌+◌, ◌-◌, ◌*◌, ◌/◌, ◌%◌, ◌^◌, ◌<◌, ◌≤◌, min, max}
use Prim.Native.Nat.{bit_and, bit_or, bit_xor, bit_and-bitwise, bit_or-bitwise, bit_xor-bitwise}
use mathlib.Core.Path.{◌≡◌, refl, ap, ◌∙◌, sym}
use mathlib.Core.Logic.{◌≢◌}
use native.Mathlib.Omega.{arith}
use native.Mathlib.Decide.{ℕ_discrete}
use native.Mathlib.Nat.{
  pow-suc, div-div-eq-div-mul, mul_comm, one-le-pow, add-mul-mod_self_right, mod-eq_of_lt,
  div-add-mod', zero-div,
}
use mathlib.Core.Bool.{Bool, true, false}
use gba_emulator.Base.Test.{◌==◌, if◌then◌else◌}
use gba_emulator.Base.Word.{bit}
use gba_emulator.Base.Step.{and_digit, or_digit, xor_digit}

pub zero-and : (b : ℕ) → bit_and 0 b ≡ 0
zero-and b = bit_and-bitwise 0 b

pub zero-or : (b : ℕ) → bit_or 0 b ≡ b
zero-or b = bit_or-bitwise 0 b

pub zero-xor : (b : ℕ) → bit_xor 0 b ≡ b
zero-xor b = bit_xor-bitwise 0 b

-- Digit `n + 1` is digit `n` of the half.
pub bit-suc : (a n : ℕ) → bit a (suc n) ≡ bit (a / 2) n
bit-suc a n = ap (λ k. k % 2) (rw (pow-suc 2 n, mul_comm) (sym (div-div-eq-div-mul a 2 (2 ^ n))))

pub bit-and : (n a b : ℕ) → bit (bit_and a b) n ≡ min (bit a n) (bit b n)
bit-and zero a b = omega (arith, and_digit a b)
bit-and (suc n) a b =
    rw (bit-suc (bit_and a b) n, bit-suc a n, bit-suc b n)
      (ap (λ k. bit k n) half ∙ bit-and n (a / 2) (b / 2))
  where
    half : bit_and a b / 2 ≡ bit_and (a / 2) (b / 2)
    half = omega (arith, and_digit a b)

pub bit-or : (n a b : ℕ) → bit (bit_or a b) n ≡ max (bit a n) (bit b n)
bit-or zero a b = omega (arith, or_digit a b)
bit-or (suc n) a b =
    rw (bit-suc (bit_or a b) n, bit-suc a n, bit-suc b n)
      (ap (λ k. bit k n) half ∙ bit-or n (a / 2) (b / 2))
  where
    half : bit_or a b / 2 ≡ bit_or (a / 2) (b / 2)
    half = omega (arith, or_digit a b)

pub bit-xor : (n a b : ℕ) → bit (bit_xor a b) n ≡ (bit a n + bit b n) % 2
bit-xor zero a b = omega (arith, xor_digit a b)
bit-xor (suc n) a b =
    rw (bit-suc (bit_xor a b) n, bit-suc a n, bit-suc b n)
      (ap (λ k. bit k n) half ∙ bit-xor n (a / 2) (b / 2))
  where
    half : bit_xor a b / 2 ≡ bit_xor (a / 2) (b / 2)
    half = omega (arith, xor_digit a b)

-- Ranges.
pub bit_and-lt : (k a b : ℕ) → a < 2 ^ k → bit_and a b < 2 ^ k
bit_and-lt zero zero b h = omega (arith, zero-and b)
bit_and-lt zero (suc a) b h = absurd (omega arith)
bit_and-lt (suc k) a b h =
    omega
      (arith, and_digit a b, pow-suc 2 k, bit_and-lt k (a / 2) (b / 2) (omega (arith, pow-suc 2 k)))

pub bit_and-le : (k a b : ℕ) → a < 2 ^ k → bit_and a b ≤ b
bit_and-le zero zero b h = omega (arith, zero-and b)
bit_and-le zero (suc a) b h = absurd (omega arith)
bit_and-le (suc k) a b h =
    omega
      (arith, and_digit a b, pow-suc 2 k, bit_and-le k (a / 2) (b / 2) (omega (arith, pow-suc 2 k)))

pub bit_or-lt : (k a b : ℕ) → a < 2 ^ k → b < 2 ^ k → bit_or a b < 2 ^ k
bit_or-lt zero zero b h g = omega (arith, zero-or b)
bit_or-lt zero (suc a) b h g = absurd (omega arith)
bit_or-lt (suc k) a b h g = omega (
  arith,
  or_digit a b,
  pow-suc 2 k,
  bit_or-lt k (a / 2) (b / 2) (omega (arith, pow-suc 2 k)) (omega (arith, pow-suc 2 k)),
)

pub bit_xor-lt : (k a b : ℕ) → a < 2 ^ k → b < 2 ^ k → bit_xor a b < 2 ^ k
bit_xor-lt zero zero b h g = omega (arith, zero-xor b)
bit_xor-lt zero (suc a) b h g = absurd (omega arith)
bit_xor-lt (suc k) a b h g = omega (
  arith,
  xor_digit a b,
  pow-suc 2 k,
  bit_xor-lt k (a / 2) (b / 2) (omega (arith, pow-suc 2 k)) (omega (arith, pow-suc 2 k)),
)

-- The products below that `omega` is handed.
pub twice_pow : (q k : ℕ) → q * 2 ^ suc k ≡ 2 * (q * 2 ^ k)
twice_pow q k = omega (arith, ap (λ (t : ℕ). q * t) (pow-suc 2 k))

pub mod_pow-suc : (k a : ℕ) → a % 2 ^ suc k ≡ a / 2 % 2 ^ k * 2 + a % 2
mod_pow-suc k a =
    ap (λ t. t % 2 ^ suc k) split
    ∙ add-mul-mod_self_right _ (a / 2 / 2 ^ k) (2 ^ suc k)
    ∙ mod-eq_of_lt (omega (arith, pow-suc 2 k, one-le-pow k 2 (omega arith)))
  where
    split : a ≡ a / 2 % 2 ^ k * 2 + a % 2 + a / 2 / 2 ^ k * 2 ^ suc k
    split = omega (arith, div-add-mod' (a / 2) (2 ^ k), twice_pow (a / 2 / 2 ^ k) k)

and-zero : (n a : ℕ) → a < n → bit_and a 0 ≡ 0
and-zero zero a h = absurd (omega arith)
and-zero (suc n) zero h = refl
and-zero (suc n) (suc a) h =
    omega (arith, and_digit (suc a) 0, and-zero n (suc a / 2) (omega arith))

-- A mask of `k` ones is the remainder by `2 ^ k`; the macros of the module Word rest on it.
pub bit_and_mask : (k a : ℕ) → bit_and a (2 ^ k - 1) ≡ a % 2 ^ k
bit_and_mask zero a = omega (arith, and-zero (suc a) a (omega arith))
bit_and_mask (suc k) a = ground (
  arith,
  and_digit a (2 ^ suc k - 1),
  pow-suc 2 k,
  one-le-pow k 2,
  mod_pow-suc k a,
  bit_and_mask k (a / 2),
)

-- `|` of disjoint fields is their sum.
pub bit_or_fields : (k q r : ℕ) → r < 2 ^ k → bit_or (q * 2 ^ k) r ≡ q * 2 ^ k + r
bit_or_fields zero q r h = or-zero (suc q) q r (omega arith) (omega arith)
  where
    or-zero : (n q r : ℕ) → q < n → r ≡ 0 → bit_or (q * 1) r ≡ q * 1 + r
    or-zero zero q r h e = absurd (omega arith)
    or-zero (suc n) zero r h e = omega (arith, zero-or r)
    or-zero (suc n) (suc q) r h e = ground (arith, or_digit (suc q) 0, or-zero n (suc q / 2) 0)
bit_or_fields (suc k) q r h = ground (
  arith,
  or_digit (q * 2 ^ suc k) r,
  twice_pow q k,
  bit_or_fields k q (r / 2) (omega (arith, pow-suc 2 k)),
)

-- A field above the digits of the first operand is added.
pub bit_or_above : (k q r : ℕ) → r < 2 ^ k → bit_or r (q * 2 ^ k) ≡ q * 2 ^ k + r
bit_or_above zero q r h =
    ap (λ t. bit_or t (q * 1)) {x = r} {y = 0} (omega arith) ∙ zero-or (q * 1) ∙ omega arith
bit_or_above (suc k) q r h =
    ground (arith, or_digit r (q * 2 ^ suc k), twice_pow q k, pow-suc 2 k, bit_or_above k q (r / 2))

-- `&` with the ones from digit `k` on clears the digits below.
pub bit_and_high :
    (k m q r : ℕ)
    → r < 2 ^ k
    → q < 2 ^ m
    → bit_and (q * 2 ^ k + r) (2 ^ m * 2 ^ k - 2 ^ k) ≡ q * 2 ^ k
bit_and_high zero m q r h g = ground (arith, bit_and_mask m q, mod-eq_of_lt g)
bit_and_high (suc k) m q r h g = ground (
  arith,
  and_digit (q * 2 ^ suc k + r) (2 ^ m * 2 ^ suc k - 2 ^ suc k),
  twice_pow q k,
  twice_pow (2 ^ m) k,
  pow-suc 2 k,
  bit_and_high k m q (r / 2),
)

-- Numbers of `k` digits with the same digits are equal.
pub bit_ext : (k a b : ℕ) → a < 2 ^ k → b < 2 ^ k → ((n : ℕ) → n < k → bit a n ≡ bit b n) → a ≡ b
bit_ext zero a b h g same = omega arith
bit_ext (suc k) a b h g same = omega (
  arith,
  same 0 (omega arith),
  bit_ext k (a / 2) (b / 2) (omega (arith, pow-suc 2 k)) (omega (arith, pow-suc 2 k))
      λ n p. sym (bit-suc a n) ∙ same (suc n) (omega arith) ∙ bit-suc b n,
)

-- A number that is not zero has a digit one.
pub bit_of_pos : (k a : ℕ) → a < 2 ^ k → 0 < a → (n : ℕ) × (n < k) × (bit a n ≡ 1)
bit_of_pos zero a h p = absurd (omega arith)
bit_of_pos (suc k) a h p = elim (ℕ_discrete (a % 2) 1) [
  | yes odd ↦ (0, omega arith, omega arith)
  | no even ↦
      let (n, below, one) = bit_of_pos k (a / 2) (omega (arith, pow-suc 2 k)) (omega arith) in
      (suc n, omega arith, bit-suc a n ∙ one)
]

-- `~a` on `k` digits flips each of them.
pub bit-not : (k n a : ℕ) → a < 2 ^ k → n < k → bit (2 ^ k - 1 - a) n ≡ 1 - bit a n
bit-not zero n a h p = absurd (omega arith)
bit-not (suc k) zero a h p = omega (arith, pow-suc 2 k)
bit-not (suc k) (suc n) a h p =
    bit-suc (2 ^ suc k - 1 - a) n
    ∙ ap (λ t. bit t n) half
    ∙ bit-not k n (a / 2) (omega (arith, pow-suc 2 k)) (omega arith)
    ∙ ap (λ t. 1 - t) (sym (bit-suc a n))
  where
    half : (2 ^ suc k - 1 - a) / 2 ≡ 2 ^ k - 1 - a / 2
    half = omega (arith, pow-suc 2 k)

pub pos_of_bit : (a n : ℕ) → bit a n ≡ 1 → a ≢ 0
pos_of_bit a zero h e = omega arith
pos_of_bit a (suc n) h e = pos_of_bit (a / 2) n (sym (bit-suc a n) ∙ h) (omega arith)

pub bit_ones : (k n : ℕ) → n < k → bit (2 ^ k - 1) n ≡ 1
bit_ones k n p =
    ap (λ t. bit t n) {x = 2 ^ k - 1} {y = 2 ^ k - 1 - 0} (omega arith)
    ∙ bit-not k n 0 (one-le-pow k 2 (omega arith)) p
    ∙ omega (arith, zero-div (2 ^ n))

-- A mask of `k` ones on the left.
pub mask-bit_and : (k a : ℕ) → a < 2 ^ k → bit_and (2 ^ k - 1) a ≡ a
mask-bit_and k a h =
    bit_ext k (bit_and (2 ^ k - 1) a) a
      (bit_and-lt k (2 ^ k - 1) a (omega (arith, one-le-pow k 2 (omega arith)))) h
      λ n p. omega (arith, bit-and n (2 ^ k - 1) a, bit_ones k n p)

-- A power of two has one digit.
pub bit_pow : (n m : ℕ) → bit (2 ^ n) m ≡ (if m == n then 1 else 0)
bit_pow zero zero = refl
bit_pow zero (suc m) = bit-suc 1 m ∙ ap (λ t. t % 2) (zero-div (2 ^ m)) ∙ ground arith
bit_pow (suc n) zero = ground (arith, pow-suc 2 n)
bit_pow (suc n) (suc m) =
    bit-suc (2 ^ suc n) m
    ∙ ap (λ t. bit t m) {x = 2 ^ suc n / 2} {y = 2 ^ n} (omega (arith, pow-suc 2 n))
    ∙ bit_pow n m
    ∙ ground arith

pub pow-lt : (k n : ℕ) → n < k → 2 ^ n < 2 ^ k
pow-lt zero n h = absurd (omega arith)
pow-lt (suc k) zero h = omega (arith, pow-suc 2 k, one-le-pow k 2 (omega arith))
pow-lt (suc k) (suc n) h = omega (arith, pow-suc 2 k, pow-suc 2 n, pow-lt k n (omega arith))

-- SET_BIT or CLR_BIT by a `bool`: that digit is the `bool`, the others stay.
pub bit-put_bit :
    (k n m v : ℕ) (b : Bool)
    → n < k
    → m < k
    → bit (if b then bit_or v (2 ^ n) else bit_and v (2 ^ k - 1 - 2 ^ n)) m
      ≡ (if m == n then (if b then 1 else 0) else bit v m)
bit-put_bit k n m v true p q = ground (arith, bit-or m v (2 ^ n), bit_pow n m)
bit-put_bit k n m v false p q =
    ground
      (arith, bit-and m v (2 ^ k - 1 - 2 ^ n), bit_pow n m, bit-not k m (2 ^ n) (pow-lt k n p) q)
