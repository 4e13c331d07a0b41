-- ===== src/Bus/Bytes.antt =====
-- Registers as bytes: how the code takes a byte of a register, replaces one, and puts bytes together.
use gba_emulator.Base.{
  ap, arith, bit_and, bit_and_high, bit_and_mask, bit_or, bit_or_above, bit_or_fields,
  if◌then◌else◌, u8, ℕ, ◌%◌, ◌*◌, ◌+◌, ◌/◌, ◌<◌, ◌==◌, ◌^◌, ◌∙◌, ◌≡◌,
}

-- The byte of a 16-bit register that stands at an even or an odd offset.
abbrev pub byte_at : ℕ → ℕ → ℕ
byte_at offset reg = if offset % 2 == 1 then u8 (reg / 2 ^ 8) else u8 reg

-- `(reg & 0x00FF) | ((uint16_t)val << 8)` at an odd offset, `(reg & 0xFF00) | val` at an even one.
unfoldable pub put_byte : ℕ → ℕ → ℕ → ℕ
put_byte offset reg val =
    if offset % 2 == 1
    then bit_or (bit_and reg 0xff) (val * 2 ^ 8)
    else bit_or (bit_and reg 0xff00) val

-- Two and four bytes put together by `|`, the lowest first.
unfoldable pub join2 : ℕ → ℕ → ℕ
join2 b0 b1 = bit_or b0 (b1 * 2 ^ 8)

unfoldable pub join4 : ℕ → ℕ → ℕ → ℕ → ℕ
join4 b0 b1 b2 b3 = bit_or (bit_or (bit_or b0 (b1 * 2 ^ 8)) (b2 * 2 ^ 16)) (b3 * 2 ^ 24)

-- Two and four bytes of an array.
abbrev pub half_at : (ℕ → ℕ) → ℕ → ℕ
half_at a i = join2 (a i) (a (i + 1))

abbrev pub word_at : (ℕ → ℕ) → ℕ → ℕ
word_at a i = join4 (a i) (a (i + 1)) (a (i + 2)) (a (i + 3))

pub put_byte_value :
    (offset reg val : ℕ)
    → reg < 2 ^ 16
    → val < 2 ^ 8
    → put_byte offset reg val
      ≡ (if offset % 2 == 1 then val * 2 ^ 8 + reg % 2 ^ 8 else reg / 2 ^ 8 * 2 ^ 8 + val)
unfolding put_byte
put_byte_value offset reg val h g = ground (
  arith,
  bit_and_mask 8 reg,
  bit_or_above 8 val (reg % 2 ^ 8) (omega arith),
  bit_and_high 8 8 (reg / 2 ^ 8) (reg % 2 ^ 8) (omega arith) (omega arith),
  ap (λ t. bit_and t 0xff00) {x = reg / 2 ^ 8 * 2 ^ 8 + reg % 2 ^ 8} {y = reg} (omega arith),
  bit_or_fields 8 (reg / 2 ^ 8) val g,
)

-- A byte that is put into a register is read back, and the other byte stays.
pub byte_at-put_byte :
    (offset other reg val : ℕ)
    → reg < 2 ^ 16
    → val < 2 ^ 8
    → byte_at other (put_byte offset reg val)
      ≡ (if other % 2 == offset % 2 then val else byte_at other reg)
byte_at-put_byte offset other reg val h g = ground (arith, put_byte_value offset reg val h g)

pub join2_value : (b0 b1 : ℕ) → b0 < 2 ^ 8 → join2 b0 b1 ≡ b0 + b1 * 2 ^ 8
unfolding join2
join2_value b0 b1 h = omega (arith, bit_or_above 8 b1 b0 h)

pub join4_value :
    (b0 b1 b2 b3 : ℕ)
    → b0 < 2 ^ 8
    → b1 < 2 ^ 8
    → b2 < 2 ^ 8
    → join4 b0 b1 b2 b3 ≡ b0 + b1 * 2 ^ 8 + b2 * 2 ^ 16 + b3 * 2 ^ 24
unfolding join4
join4_value b0 b1 b2 b3 h0 h1 h2 =
    ap (λ t. bit_or (bit_or t (b2 * 2 ^ 16)) (b3 * 2 ^ 24)) (bit_or_above 8 b1 b0 h0)
    ∙ ap (λ t. bit_or t (b3 * 2 ^ 24)) (bit_or_above 16 b2 (b1 * 2 ^ 8 + b0) (omega arith))
    ∙ bit_or_above 24 b3 (b2 * 2 ^ 16 + (b1 * 2 ^ 8 + b0)) (omega arith)
    ∙ omega arith

-- Bytes of a value put together again.
pub join2_bytes : (v : ℕ) → v < 2 ^ 16 → join2 (v % 2 ^ 8) (v / 2 ^ 8) ≡ v
join2_bytes v h = omega (arith, join2_value (v % 2 ^ 8) (v / 2 ^ 8) (omega arith))

pub join4_bytes :
    (v : ℕ)
    → v < 2 ^ 32
    → join4 (v % 2 ^ 8) (v / 2 ^ 8 % 2 ^ 8) (v / 2 ^ 16 % 2 ^ 8) (v / 2 ^ 24 % 2 ^ 8) ≡ v
join4_bytes v h = omega (
  arith,
  join4_value (v % 2 ^ 8) (v / 2 ^ 8 % 2 ^ 8) (v / 2 ^ 16 % 2 ^ 8) (v / 2 ^ 24 % 2 ^ 8)
      (omega arith) (omega arith) (omega arith),
)
