-- ===== src/Cpu/Multiply/Long.antt =====
-- The value and the flags of the long multiplications.
use gba_emulator.Base.{
  Bool, ap, arith, bit, bit-put_bit, bit_or, bit_or_fields, bits, false, if◌then◌else◌, refl, sym,
  test_bit, true, ℕ, ◌%◌, ◌*◌, ◌+◌, ◌/◌, ◌<◌, ◌==◌, ◌^◌, ◌∙◌, ◌≡◌, ◌≢◌,
}
use gba_emulator.Cpu.State.{Cpu, set_reg}
use gba_emulator.Cpu.Flags.{set_nz_flags, put_bit}
use gba_emulator.Cpu.Multiply.{arm_multiply_long, write_pair}

-- `RdHi:RdLo`
abbrev pub pair : Cpu → ℕ → ℕ
pair cpu instr = cpu.regs (bits instr 19 16) * 2 ^ 32 + cpu.regs (bits instr 15 12)

write_pair_value :
    (cpu : Cpu) (rd_hi rd_lo result : ℕ) (s : Bool)
    → rd_hi ≢ rd_lo
    → (write_pair cpu rd_hi rd_lo result s).regs rd_hi * 2 ^ 32
        + (write_pair cpu rd_hi rd_lo result s).regs rd_lo
      ≡ result
unfolding write_pair set_nz_flags
write_pair_value cpu rd_hi rd_lo result s apart = ground arith

write_pair_flags :
    (cpu : Cpu) (rd_hi rd_lo result : ℕ) (s : Bool)
    → (bit (write_pair cpu rd_hi rd_lo result s).cpsr 31
        ≡ (if s then bit result 63 else bit cpu.cpsr 31))
      × (bit (write_pair cpu rd_hi rd_lo result s).cpsr 30
          ≡ (if s then if result == 0 then 1 else 0 else bit cpu.cpsr 30))
unfolding write_pair set_nz_flags
write_pair_flags cpu rd_hi rd_lo result false = (refl, refl)
write_pair_flags cpu rd_hi rd_lo result true =
    let hi =
      (if rd_hi == rd_hi
        then result / 2 ^ 32
        else (set_reg cpu rd_lo (result % 2 ^ 32)).regs rd_hi) in
    let same : hi ≡ result / 2 ^ 32 = ground arith in
    let c1 = put_bit cpu.cpsr 31 (test_bit hi 31) in
    let c2 = put_bit c1 30 (hi == 0) in
    let c3 = put_bit c2 30 (result == 0) in
    (
      bit-put_bit 32 31 31 c3 (test_bit hi 31) (omega arith) (omega arith)
          ∙ ap (λ t. if test_bit t 31 then 1 else 0) same
          ∙ ground arith,
      bit-put_bit 32 31 30 c3 (test_bit hi 31) (omega arith) (omega arith)
          ∙ bit-put_bit 32 30 30 c2 (result == 0) (omega arith) (omega arith),
    )

-- UMULL and UMLAL, with two different destinations and a low one that holds 32 bits: the pair of
-- registers becomes the product, or the pair before plus the product, modulo 2^64; with S the flags
-- N and Z are those of the 64 bits, without S they stay.
pub unsigned_long :
    (cpu : Cpu) (instr : ℕ)
    → cpu.regs (bits instr 15 12) < 2 ^ 32
    → bits instr 19 16 ≢ bits instr 15 12
    → test_bit instr 22 ≡ false
    → let out = (arm_multiply_long cpu instr).0 in
      let product = cpu.regs (instr % 16) * cpu.regs (bits instr 11 8) in
      let before = if test_bit instr 21 then pair cpu instr else 0 in
      (pair out instr ≡ (before + product) % 2 ^ 64)
      × (bit out.cpsr 31 ≡ (if test_bit instr 20 then bit (pair out instr) 63 else bit cpu.cpsr 31))
      × (bit out.cpsr 30
          ≡ (if test_bit instr 20 then if pair out instr == 0 then 1 else 0 else bit cpu.cpsr 30))
unsigned_long cpu instr fits apart unsigned =
    let (n, z) = write_pair_flags cpu rd_hi rd_lo result s in
    let same = write_pair_value cpu rd_hi rd_lo result s apart in
    rw run (
      same,
      n ∙ ap (λ t. if s then bit t 63 else bit cpu.cpsr 31) (sym same),
      z ∙ ap (λ t. if s then if t == 0 then 1 else 0 else bit cpu.cpsr 30) (sym same),
    )
  where
    rd_hi : ℕ
    rd_hi = bits instr 19 16

    rd_lo : ℕ
    rd_lo = bits instr 15 12

    product : ℕ
    product = cpu.regs (instr % 16) * cpu.regs (bits instr 11 8)

    result : ℕ
    result = ((if test_bit instr 21 then pair cpu instr else 0) + product) % 2 ^ 64

    value :
        (if test_bit instr 21
          then (product % 2 ^ 64 + bit_or (cpu.regs rd_hi * 2 ^ 32) (cpu.regs rd_lo)) % 2 ^ 64
          else product % 2 ^ 64)
        ≡ result
    value = ground (arith, bit_or_fields 32 (cpu.regs rd_hi) (cpu.regs rd_lo) fits)

    s : Bool
    s = test_bit instr 20

    run : (arm_multiply_long cpu instr).0 ≡ write_pair cpu rd_hi rd_lo result s
    run = unfold arm_multiply_long in simp unsigned (ap (λ r. write_pair cpu rd_hi rd_lo r s) value)
