-- ===== src/Cpu/Bios/Arith.antt =====
-- The arithmetic of src/cpu/bios_hle.c, on the registers of the processor: the sine table, Div, DivArm,
-- Sqrt and ArcTan. Signed numbers are their 32-bit patterns, and signed products wrap.
pub mod Sqrt
pub mod Division
use gba_emulator.Base.{
  entry, sign16, List, ◌&&◌, [], if◌then◌else◌, leb, ltb, same, sub32, suc, test_bit, u16, u32,
  zero, ℕ, ◌%◌, ◌*◌, ◌+◌, ◌-◌, ◌/◌, ◌==◌, ◌^◌, ◌∷◌,
}
use gba_emulator.Cpu.State.{Cpu, set_reg}
use gba_emulator.Cpu.Shifter.{asr32}

-- `sin_lut`: its first half, and the values that its second half negates
abbrev sin_first : List ℕ
sin_first =
    0 ∷ 402 ∷ 804 ∷ 1205 ∷ 1606 ∷ 2006 ∷ 2404 ∷ 2801 ∷ 3196 ∷ 3590 ∷ 3981 ∷ 4370 ∷ 4756 ∷ 5139
    ∷ 5520 ∷ 5897 ∷ 6270 ∷ 6639 ∷ 7005 ∷ 7366 ∷ 7723 ∷ 8076 ∷ 8423 ∷ 8765 ∷ 9102 ∷ 9434 ∷ 9760
    ∷ 10080 ∷ 10394 ∷ 10702 ∷ 11003 ∷ 11297 ∷ 11585 ∷ 11866 ∷ 12140 ∷ 12406 ∷ 12665 ∷ 12916 ∷ 13160
    ∷ 13395 ∷ 13623 ∷ 13842 ∷ 14053 ∷ 14256 ∷ 14449 ∷ 14635 ∷ 14811 ∷ 14978 ∷ 15137 ∷ 15286 ∷ 15426
    ∷ 15557 ∷ 15679 ∷ 15791 ∷ 15893 ∷ 15986 ∷ 16069 ∷ 16143 ∷ 16207 ∷ 16261 ∷ 16305 ∷ 16340 ∷ 16364
    ∷ 16379 ∷ 16384 ∷ 16379 ∷ 16364 ∷ 16340 ∷ 16305 ∷ 16261 ∷ 16207 ∷ 16143 ∷ 16069 ∷ 15986 ∷ 15893
    ∷ 15791 ∷ 15679 ∷ 15557 ∷ 15426 ∷ 15286 ∷ 15137 ∷ 14978 ∷ 14811 ∷ 14635 ∷ 14449 ∷ 14256 ∷ 14053
    ∷ 13842 ∷ 13623 ∷ 13395 ∷ 13160 ∷ 12916 ∷ 12665 ∷ 12406 ∷ 12140 ∷ 11866 ∷ 11585 ∷ 11297 ∷ 11003
    ∷ 10702 ∷ 10394 ∷ 10080 ∷ 9760 ∷ 9434 ∷ 9102 ∷ 8765 ∷ 8423 ∷ 8076 ∷ 7723 ∷ 7366 ∷ 7005 ∷ 6639
    ∷ 6270 ∷ 5897 ∷ 5520 ∷ 5139 ∷ 4756 ∷ 4370 ∷ 3981 ∷ 3590 ∷ 3196 ∷ 2801 ∷ 2404 ∷ 2006 ∷ 1606
    ∷ 1205 ∷ 804 ∷ 402 ∷ []

abbrev sin_second : List ℕ
sin_second =
    0 ∷ 402 ∷ 804 ∷ 1205 ∷ 1606 ∷ 2006 ∷ 2404 ∷ 2801 ∷ 3196 ∷ 3590 ∷ 3981 ∷ 4370 ∷ 4756 ∷ 5139
    ∷ 5520 ∷ 5897 ∷ 6270 ∷ 6639 ∷ 7005 ∷ 7366 ∷ 7723 ∷ 8076 ∷ 8423 ∷ 8765 ∷ 9102 ∷ 9434 ∷ 9760
    ∷ 10080 ∷ 10394 ∷ 10702 ∷ 11003 ∷ 11297 ∷ 11585 ∷ 11866 ∷ 12140 ∷ 12406 ∷ 12665 ∷ 12916 ∷ 13160
    ∷ 13395 ∷ 13623 ∷ 13842 ∷ 14053 ∷ 14256 ∷ 14449 ∷ 14635 ∷ 14811 ∷ 14978 ∷ 15137 ∷ 15286 ∷ 15426
    ∷ 15557 ∷ 15679 ∷ 15791 ∷ 15893 ∷ 15986 ∷ 16069 ∷ 16143 ∷ 16207 ∷ 16261 ∷ 16305 ∷ 16340 ∷ 16364
    ∷ 16379 ∷ 16384 ∷ 16379 ∷ 16364 ∷ 16340 ∷ 16305 ∷ 16261 ∷ 16207 ∷ 16143 ∷ 16069 ∷ 15986 ∷ 15893
    ∷ 15791 ∷ 15679 ∷ 15557 ∷ 15426 ∷ 15286 ∷ 15137 ∷ 14978 ∷ 14811 ∷ 14635 ∷ 14449 ∷ 14256 ∷ 14053
    ∷ 13842 ∷ 13623 ∷ 13395 ∷ 13160 ∷ 12916 ∷ 12665 ∷ 12406 ∷ 12140 ∷ 11866 ∷ 11585 ∷ 11297 ∷ 11003
    ∷ 10702 ∷ 10394 ∷ 10080 ∷ 9760 ∷ 9434 ∷ 9102 ∷ 8765 ∷ 8423 ∷ 8076 ∷ 7723 ∷ 7366 ∷ 7005 ∷ 6639
    ∷ 6270 ∷ 5897 ∷ 5520 ∷ 5139 ∷ 4756 ∷ 4370 ∷ 3981 ∷ 3590 ∷ 3196 ∷ 2801 ∷ 2404 ∷ 2006 ∷ 1606
    ∷ 1205 ∷ 804 ∷ 402 ∷ []

-- `-v` on `int32_t`
abbrev pub neg32 : ℕ → ℕ
neg32 v = sub32 0 v

-- `a * b` on `int32_t`
abbrev pub mul32 : ℕ → ℕ → ℕ
mul32 a b = u32 (a * b)

unfoldable pub sin_lut : ℕ → ℕ
sin_lut idx = if ltb idx 128 then entry 0 sin_first idx else neg32 (entry 0 sin_second (idx - 128))

-- `angle` is a `uint16_t`; the result is widened to 32 bits.
unfoldable pub bios_sin : ℕ → ℕ
unfolding sin_lut
bios_sin angle = sin_lut (angle / 2 ^ 8)

unfoldable pub bios_cos : ℕ → ℕ
unfolding sin_lut
bios_cos angle = sin_lut (u16 (angle + 0x4000) / 2 ^ 8)

-- The absolute value of an `int32_t`
unfoldable pub abs32 : ℕ → ℕ
abs32 v = if test_bit v 31 then neg32 v else v

-- C's `/` and `%` on `int32_t`, which round towards zero
unfoldable pub div32 : ℕ → ℕ → ℕ
unfolding abs32
div32 num den =
    let q = abs32 num / abs32 den in if same (test_bit num 31) (test_bit den 31) then q else neg32 q

unfoldable pub rem32 : ℕ → ℕ → ℕ
unfolding abs32
rem32 num den = let r = abs32 num % abs32 den in if test_bit num 31 then neg32 r else r

abbrev pub set_regs : Cpu → ℕ → ℕ → ℕ → Cpu
set_regs cpu r0 r1 r3 = set_reg (set_reg (set_reg cpu 0 r0) 1 r1) 3 r3

-- The warning on a division by zero is left out.
unfoldable pub swi_div : Cpu → Cpu
unfolding div32 rem32 abs32
swi_div cpu =
    let num = cpu.regs 0 in
    let den = cpu.regs 1 in
    if den == 0
    then set_regs cpu (if test_bit num 31 then 0xffffffff else 1) num 1
    else set_regs cpu (div32 num den) (rem32 num den) (abs32 (div32 num den))

unfoldable pub swi_div_arm : Cpu → Cpu
unfolding swi_div
swi_div_arm cpu = swi_div (set_reg (set_reg cpu 0 (cpu.regs 1)) 1 (cpu.regs 0))

-- The first loop of Sqrt: `bit` is a power of 4 below 2 ^ 32, so 16 rounds are enough.
unfoldable pub sqrt_start : ℕ → ℕ → ℕ → ℕ
sqrt_start zero bit val = bit
sqrt_start (suc fuel) bit val =
    let rest = sqrt_start fuel (bit / 4) val in if ltb val bit then rest else bit

-- The second loop, until `bit` is 0
unfoldable pub sqrt_loop : ℕ → ℕ → ℕ → ℕ → ℕ
sqrt_loop zero bit val result = result
sqrt_loop (suc fuel) bit val result =
    let taken = sqrt_loop fuel (bit / 4) (val - (result + bit)) (result / 2 + bit) in
    let left = sqrt_loop fuel (bit / 4) val (result / 2) in
    if bit == 0 then result else if leb (result + bit) val then taken else left

unfoldable pub sqrt_of : ℕ → ℕ
unfolding sqrt_start sqrt_loop
sqrt_of val = sqrt_loop 17 (sqrt_start 17 (2 ^ 30) val) val 0

unfoldable pub swi_sqrt : Cpu → Cpu
unfolding sqrt_of
swi_sqrt cpu = set_reg cpu 0 (sqrt_of (cpu.regs 0))

unfoldable pub swi_arctan : Cpu → Cpu
swi_arctan cpu =
    let r0 = sign16 (u16 (cpu.regs 0)) in
    let a = asr32 (neg32 (mul32 r0 r0)) 14 in
    let r1 = u32 (asr32 (mul32 0xa9 a) 14 + 0x390) in
    let r2 = u32 (asr32 (mul32 r1 a) 14 + 0xffffa57b) in
    let r3 = u32 (asr32 (mul32 r2 a) 14 + 0x3276) in
    set_reg cpu 0 (sign16 (u16 (asr32 (mul32 r3 r0) 14)))

-- `atan2_angle x y` is the floating-point angle as the `uint32_t` that the function converts it to.
unfoldable pub swi_arctan2 : (ℕ → ℕ → ℕ) → Cpu → Cpu
swi_arctan2 atan2_angle cpu =
    let x = u16 (cpu.regs 0) in
    let y = u16 (cpu.regs 1) in
    let result = atan2_angle x y in
    if x == 0 && y == 0
    then set_reg cpu 0 0
    else set_reg cpu 0 (if leb 0x10000 result then 0 else u16 result)

unfoldable pub swi_get_bios_checksum : Cpu → Cpu
swi_get_bios_checksum cpu = set_reg cpu 0 0xbaae187f
