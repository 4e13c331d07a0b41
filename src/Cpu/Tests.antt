-- ===== src/Cpu/Tests.antt =====
-- Runs of the processor's operations, and its theorems at concrete states.
use gba_emulator.Base.{
  arith, bit, false, if◌then◌else◌, inl, inr, refl, signed32, true, ℕ, ◌%◌, ◌+◌, ◌/◌, ◌<ℤ◌, ◌<◌,
  ◌==◌, ◌↔◌, ◌≡◌, ◌≢◌, ◌≤ℤ◌, ◌≤◌,
}
use gba_emulator.Cpu.State.{Cpu, cpu_mode_irq, cpu_mode_fiq}
use gba_emulator.Cpu.Mode.{cpu_switch_mode}
use gba_emulator.Cpu.Banks.{mode_reg, mode_regs, sp_slot}
use gba_emulator.Cpu.Switch.{cpu_switch_mode-mode_reg}
use gba_emulator.Cpu.Flags.{cpu_condition_passed}
use gba_emulator.Cpu.Shifter.{barrel_shift, shift_by_register, shift_by_immediate}
use gba_emulator.Cpu.Shifter.Digits.{reference, reference_carry, shift_by_register_digits}
use gba_emulator.Cpu.Shifter.Immediate.{immediate_reference, shift_by_immediate_reference}
use gba_emulator.Cpu.DataProcessing.{alu, write_rd, decode_dp_operand2, arm_data_processing}
use gba_emulator.Cpu.DataProcessing.Compare.{after, compare_unsigned, compare_signed}
use gba_emulator.Cpu.DataProcessing.Arith.{Adds, Subtracts, alu-Adds, alu-Subtracts}
use gba_emulator.Cpu.Exception.{cpu_handle_irq}
use gba_emulator.Cpu.Exception.Entry.{Enters, cpu_handle_irq-Enters}
use gba_emulator.Cpu.Branch.{arm_branch, arm_bx}
use gba_emulator.Cpu.Branch.Call.{bx_lr, call_return}
use gba_emulator.Cpu.Status.{arm_msr}
use gba_emulator.Cpu.Status.User.{arm_msr_user}
use gba_emulator.Cpu.Multiply.{arm_multiply_long}
use gba_emulator.Cpu.Multiply.Long.{pair, unsigned_long}
use gba_emulator.Cpu.Exception.Return.{subs_pc_lr_4, irq_return}

-- System mode, ARM state, the carry flag set, a full pipeline.
abbrev running : Cpu
running = record {
  regs = λ r. if r == 15 then 0x08000108 else 0x100 + r;
  cpsr = 0x2000001f;
  spsr = λ _. 0;
  banked = λ i. 0x200 + i;
  pipeline = λ _. 0;
  pipeline_valid = true;
  halted = false;
  has_bios = true;
  cycles_executed = 0;
}

-- `ADC R0, R1, R2` adds the carry: 0x101 + 0x102 + 1.
adc_run : (arm_data_processing running 0xe0a10002).0.regs 0 ≡ 0x204
unfolding arm_data_processing alu write_rd decode_dp_operand2 barrel_shift shift_by_immediate
adc_run = refl

cpu_switch_mode-mode_reg_example :
    (mode_reg (cpu_switch_mode running cpu_mode_fiq) 0x1f 13 ≡ 0x10d)
    × ((cpu_switch_mode running cpu_mode_fiq).cpsr % 32 ≡ 0x11)
    × ((cpu_switch_mode running cpu_mode_fiq).cpsr / 32 ≡ 0x1000000)
unfolding mode_reg mode_regs sp_slot
cpu_switch_mode-mode_reg_example =
    cpu_switch_mode-mode_reg running cpu_mode_fiq 0x1f 13 (omega arith) (omega arith) (omega arith)

cpu_handle_irq-Enters_example :
    Enters running (cpu_handle_irq running) cpu_mode_irq 3 0x08000108 0x18
cpu_handle_irq-Enters_example = cpu_handle_irq-Enters running (omega arith)

irq_return_example :
    let out = (arm_data_processing (cpu_handle_irq running) subs_pc_lr_4).0 in
    (out.cpsr ≡ 0x2000001f)
    × (out.regs 15 ≡ 0x08000104)
    × (out.pipeline_valid ≡ false)
    × (mode_reg out 0x1f 13 ≡ mode_reg running 0x1f 13)
irq_return_example = irq_return running 0x1f 13 (omega arith) (omega arith) (inr (inl refl))

-- ASR #1 of the smallest number: digit 30 is the sign.
shift_by_register_digits_example :
    (bit (shift_by_register 0x80000000 2 1 false).0 30 ≡ reference 0x80000000 2 1 30)
    × ((shift_by_register 0x80000000 2 1 false).1 ≡ reference_carry 0x80000000 2 1 false)
shift_by_register_digits_example =
    shift_by_register_digits 0x80000000 2 1 30 false (omega arith) (omega arith) (omega arith)
      (omega arith)

shift_by_immediate_reference_example :
    shift_by_immediate 0x80000001 1 0 true ≡ immediate_reference 0x80000001 1 0 true
shift_by_immediate_reference_example =
    shift_by_immediate_reference 0x80000001 1 0 true (omega arith) (omega arith) (omega arith)

alu-Adds_example :
    Adds (alu running 0x4 true 0xffffffff 1) 0xffffffff 1 0
    × Adds (alu running 0x5 true 0xffffffff 1) 0xffffffff 1 1
    × ((alu running 0xb false 0xffffffff 1).cpu ≡ (alu running 0x4 true 0xffffffff 1).cpu)
alu-Adds_example = alu-Adds running 0xffffffff 1 (omega arith) (omega arith)

alu-Subtracts_example :
    Subtracts (alu running 0x2 true 3 5) 3 5 1
    × Subtracts (alu running 0x3 true 3 5) 5 3 1
    × Subtracts (alu running 0x6 true 3 5) 3 5 1
    × Subtracts (alu running 0x7 true 3 5) 5 3 1
    × ((alu running 0xa false 3 5).cpu ≡ (alu running 0x2 true 3 5).cpu)
alu-Subtracts_example = alu-Subtracts running 3 5 (omega arith) (omega arith)

abbrev three : ℕ
three = 3

abbrev most : ℕ
most = 0xffffffff

abbrev compared : Cpu
compared = after running 3 0xffffffff (omega arith) (omega arith) true

compare_unsigned_example :
    ((cpu_condition_passed compared 0x0 ≡ true) ↔ (three ≡ most))
    × ((cpu_condition_passed compared 0x1 ≡ true) ↔ (three ≢ most))
    × ((cpu_condition_passed compared 0x2 ≡ true) ↔ (0xffffffff ≤ 3))
    × ((cpu_condition_passed compared 0x3 ≡ true) ↔ (3 < 0xffffffff))
    × ((cpu_condition_passed compared 0x8 ≡ true) ↔ (0xffffffff < 3))
    × ((cpu_condition_passed compared 0x9 ≡ true) ↔ (3 ≤ 0xffffffff))
compare_unsigned_example = compare_unsigned running 3 0xffffffff (omega arith) (omega arith) true

compare_signed_example :
    ((cpu_condition_passed compared 0xa ≡ true) ↔ (signed32 0xffffffff ≤ℤ signed32 3))
    × ((cpu_condition_passed compared 0xb ≡ true) ↔ (signed32 3 <ℤ signed32 0xffffffff))
    × ((cpu_condition_passed compared 0xc ≡ true) ↔ (signed32 0xffffffff <ℤ signed32 3))
    × ((cpu_condition_passed compared 0xd ≡ true) ↔ (signed32 3 ≤ℤ signed32 0xffffffff))
compare_signed_example = compare_signed running 3 0xffffffff (omega arith) (omega arith) true

-- BL at 0x08000100 to 0x08000108 - 4 * 2.
call_return_example :
    let called = (arm_branch running 0xebfffffe).0 in
    let back = (arm_bx called bx_lr).0 in
    (called.regs 15 ≡ 0x08000100)
    × (called.regs 14 ≡ 0x08000104)
    × (called.pipeline_valid ≡ false)
    × (back.regs 15 ≡ 0x08000104)
    × (bit back.cpsr 5 ≡ 0)
    × (back.pipeline_valid ≡ false)
call_return_example = call_return running 0xebfffffe (omega arith) refl refl

abbrev user : Cpu
user = record running { cpsr = 0x10 }

-- MSR CPSR_fsxc, R0
arm_msr_user_example :
    let out = (arm_msr user 0xe12ff000).0 in
    (bit out.cpsr 3 ≡ 0)
    × (out.regs ≡ user.regs)
    × (out.banked ≡ user.banked)
    × (out.spsr ≡ user.spsr)
arm_msr_user_example = arm_msr_user user 0xe12ff000 3 refl (omega arith)

-- UMULLS R4, R5, R1, R2
unsigned_long_example :
    let out = (arm_multiply_long running 0xe0954291).0 in
    (pair out 0xe0954291 ≡ 0x10302)
    × (bit out.cpsr 31 ≡ bit (pair out 0xe0954291) 63)
    × (bit out.cpsr 30 ≡ (if pair out 0xe0954291 == 0 then 1 else 0))
unsigned_long_example = unsigned_long running 0xe0954291 (omega arith) (omega arith) refl
