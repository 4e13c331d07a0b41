-- ===== src/Cpu/Flags.antt =====
-- The condition flags: `cpu_condition_passed` of src/cpu/arm7tdmi.c and the flag helpers of
-- src/cpu/arm_instr.c, which src/cpu/thumb_instr.c repeats.
use gba_emulator.Base.{
  Bool, arith, bit, bit-put_bit, bit_and, bit_and-lt, bit_or-lt, bit_xor, clr_bit, false,
  if◌then◌else◌, not, not32, same, set_bit, test_bit, true, ℕ, ◌&&◌, ◌<◌, ◌==◌, ◌^◌, ◌||◌, ◌≡◌,
}
use gba_emulator.Cpu.State.{Cpu, cpsr_n, cpsr_z, cpsr_c, cpsr_v, set_cpsr}

unfoldable pub cpu_condition_passed : Cpu → ℕ → Bool
cpu_condition_passed cpu cond =
    let n = test_bit cpu.cpsr cpsr_n in
    let z = test_bit cpu.cpsr cpsr_z in
    let c = test_bit cpu.cpsr cpsr_c in
    let v = test_bit cpu.cpsr cpsr_v in
    if cond == 0x0
    then z
    else if cond == 0x1
    then not z
    else if cond == 0x2
    then c
    else if cond == 0x3
    then not c
    else if cond == 0x4
    then n
    else if cond == 0x5
    then not n
    else if cond == 0x6
    then v
    else if cond == 0x7
    then not v
    else if cond == 0x8
    then c && not z
    else if cond == 0x9
    then not c || z
    else if cond == 0xa
    then same n v
    else if cond == 0xb
    then not (same n v)
    else if cond == 0xc
    then not z && same n v
    else if cond == 0xd
    then z || not (same n v)
    else if cond == 0xe
    then true
    else if cond == 0xf
    then true
    else false

-- SET_BIT where the test holds, CLR_BIT where it does not.
abbrev pub put_bit : ℕ → ℕ → Bool → ℕ
put_bit v n b = if b then set_bit v n else clr_bit v n

unfoldable pub set_nz_flags : Cpu → ℕ → Cpu
set_nz_flags cpu result =
    let signed = set_cpsr cpu (put_bit cpu.cpsr cpsr_n (test_bit result 31)) in
    set_cpsr signed (put_bit signed.cpsr cpsr_z (result == 0))

unfoldable pub set_c_flag : Cpu → Bool → Cpu
set_c_flag cpu carry = set_cpsr cpu (put_bit cpu.cpsr cpsr_c carry)

unfoldable pub set_v_flag : Cpu → Bool → Cpu
set_v_flag cpu overflow = set_cpsr cpu (put_bit cpu.cpsr cpsr_v overflow)

unfoldable pub add_overflow : ℕ → ℕ → ℕ → Bool
add_overflow a b result = test_bit (bit_and (bit_xor a result) (bit_xor b result)) 31

unfoldable pub sub_overflow : ℕ → ℕ → ℕ → Bool
sub_overflow a b result = test_bit (bit_and (bit_xor a b) (bit_xor a result)) 31

put_bit-lt : (v n : ℕ) (b : Bool) → v < 2 ^ 32 → 2 ^ n < 2 ^ 32 → put_bit v n b < 2 ^ 32
put_bit-lt v n true h p = bit_or-lt 32 v (2 ^ n) h p
put_bit-lt v n false h p = bit_and-lt 32 v (not32 (2 ^ n)) h

-- The four flags after the helpers have set them in the order of the instructions, and the bits
-- below them.
unfoldable pub flags : Cpu → ℕ → Bool → Bool → Cpu
flags cpu result carry overflow = set_v_flag (set_c_flag (set_nz_flags cpu result) carry) overflow

pub flags_lem :
    (cpu : Cpu) (result m : ℕ) (carry overflow : Bool)
    → m < 32
    → bit (flags cpu result carry overflow).cpsr m ≡ (
        if m == 31
        then bit result 31
        else if m == 30
        then if result == 0 then 1 else 0
        else if m == 29
        then if carry then 1 else 0
        else if m == 28
        then if overflow then 1 else 0
        else bit cpu.cpsr m)
unfolding flags set_v_flag set_c_flag set_nz_flags
flags_lem cpu result m carry overflow h =
    let c0 = cpu.cpsr in
    let c1 = put_bit c0 cpsr_n (test_bit result 31) in
    let c2 = put_bit c1 cpsr_z (result == 0) in
    let c3 = put_bit c2 cpsr_c carry in
    ground (
      arith,
      bit-put_bit 32 31 m c0 (test_bit result 31),
      bit-put_bit 32 30 m c1 (result == 0),
      bit-put_bit 32 29 m c2 carry,
      bit-put_bit 32 28 m c3 overflow,
    )

pub flags-lt :
    (cpu : Cpu) (result : ℕ) (carry overflow : Bool)
    → cpu.cpsr < 2 ^ 32
    → (flags cpu result carry overflow).cpsr < 2 ^ 32
unfolding flags set_v_flag set_c_flag set_nz_flags
flags-lt cpu result carry overflow h =
    put_bit-lt _ 28 overflow
      (put_bit-lt _ 29 carry
        (put_bit-lt _ 30 (result == 0) (put_bit-lt cpu.cpsr 31 (test_bit result 31) h (omega arith))
          (omega arith))
        (omega arith))
      (omega arith)
