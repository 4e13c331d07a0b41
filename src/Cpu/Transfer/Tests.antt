-- ===== src/Cpu/Transfer/Tests.antt =====
-- The theorems on the load and store instructions at concrete states.
use gba_emulator.Base.{arith, bit, if◌then◌else◌, refl, ℕ, ◌%◌, ◌+◌, ◌<◌, ◌==◌, ◌≡◌, ◌≢◌}
use gba_emulator.System.State.{Gba}
use gba_emulator.System.Rest.{at_rest, rest_cpu}
use gba_emulator.Cpu.Transfer.{
  offset_address, effective_address, single_offset, arm_single_transfer,
}
use gba_emulator.Cpu.Transfer.Word.{IsPlainWord, ldr-str}
use gba_emulator.Bus.Memory.{decode_region}
use gba_emulator.Bus.Ram.{in_ram}

abbrev no_dma : Gba → ℕ → ℕ → Gba
no_dma gba ch val = gba

-- STR R0, [R1, #1] and LDR R2, [R1, #1]
abbrev str_r0 : ℕ
str_r0 = 0xe5810001

abbrev ldr_r2 : ℕ
ldr_r2 = 0xe5912001

str_IsPlainWord : IsPlainWord str_r0
str_IsPlainWord = record { pre = refl; word = refl; no_writeback = refl; not_pc = omega arith }

ldr_IsPlainWord : IsPlainWord ldr_r2
ldr_IsPlainWord = record { pre = refl; word = refl; no_writeback = refl; not_pc = omega arith }

abbrev machine : Gba
machine = record at_rest {
  cpu = record rest_cpu { regs = λ r. if r == 0 then 0x01020304 else 0x03000000 };
}

-- One byte past a word: digit 31 is the lowest one of the word.
ldr-str_example :
    let after =
      (arm_single_transfer no_dma (arm_single_transfer no_dma machine str_r0).0 ldr_r2).0.cpu in
    ((n : ℕ) → n < 32 → bit (after.regs 2) n ≡ bit 0x01020304 ((n + 8) % 32))
    × ((r : ℕ) → r ≢ 2 → after.regs r ≡ machine.cpu.regs r)
unfolding effective_address offset_address single_offset
ldr-str_example =
    ldr-str no_dma machine str_r0 ldr_r2 str_IsPlainWord ldr_IsPlainWord refl refl refl
      (unfold in_ram decode_region in refl) (omega arith)
