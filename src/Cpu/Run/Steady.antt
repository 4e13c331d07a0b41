-- ===== src/Cpu/Run/Steady.antt =====
-- What no instruction touches: the count of executed cycles, which `cpu_run` alone writes.
use gba_emulator.Base.{
  Bool, Option, arith, either_branch, false, if◌then◌else◌, none, refl, some, true, update, ℕ, ◌%◌,
  ◌==◌, ◌≡◌, ◌≤◌,
}
use gba_emulator.Cpu.State.{Cpu, cpu_get_spsr, cpu_flush_pipeline}
use gba_emulator.Cpu.Mode.{cpu_switch_mode, save_outgoing, load_incoming}
use gba_emulator.Cpu.Flags.{set_nz_flags, set_c_flag, set_v_flag, flags}
use gba_emulator.Cpu.Exception.{enter, cpu_handle_swi}
use gba_emulator.Cpu.Branch.{arm_branch, arm_bx, arm_swi}
use gba_emulator.Cpu.Status.{arm_msr, arm_mrs, msr_cpsr, msr_spsr}
use gba_emulator.Cpu.Multiply.{arm_multiply, arm_multiply_long, write_pair}
use gba_emulator.Cpu.DataProcessing.{
  AluOut, alu, restore_at, restore_cpsr, write_rd, arm_data_processing,
}

pub switch_mode_cycles :
    (cpu : Cpu) (mode : ℕ) → (cpu_switch_mode cpu mode).cycles_executed ≡ cpu.cycles_executed
unfolding cpu_switch_mode save_outgoing load_incoming
switch_mode_cycles cpu mode = ground arith

pub enter_cycles :
    (cpu : Cpu) (mode index : ℕ) (back : ℕ → ℕ) (vector : ℕ)
    → (enter cpu mode index back vector).cycles_executed ≡ cpu.cycles_executed
unfolding enter cpu_flush_pipeline
enter_cycles cpu mode index back vector = switch_mode_cycles cpu mode

pub restore_at_cycles :
    (i : Option ℕ) (cpu : Cpu) → (restore_at i cpu).cycles_executed ≡ cpu.cycles_executed
unfolding restore_at
restore_at_cycles none cpu = refl
restore_at_cycles (some index) cpu = ground (arith, switch_mode_cycles cpu (cpu.spsr index % 32))

write_rd_cycles :
    (cpu : Cpu) (rd : ℕ) (s : Bool) (result : ℕ)
    → (write_rd cpu rd s result).cycles_executed ≡ cpu.cycles_executed
unfolding write_rd restore_cpsr cpu_flush_pipeline
write_rd_cycles cpu rd s result =
    let written : Cpu = record cpu { regs = update cpu.regs rd result } in
    ground (arith, restore_at_cycles (cpu_get_spsr written) written)

pub flags_cycles :
    (cpu : Cpu) (result : ℕ) (c v : Bool)
    → (flags cpu result c v).cycles_executed ≡ cpu.cycles_executed
unfolding flags set_nz_flags set_c_flag set_v_flag
flags_cycles cpu result c v = ground arith

pub nz_cycles : (cpu : Cpu) (v : ℕ) → (set_nz_flags cpu v).cycles_executed ≡ cpu.cycles_executed
unfolding set_nz_flags
nz_cycles cpu v = ground arith

pub c_cycles : (cpu : Cpu) (b : Bool) → (set_c_flag cpu b).cycles_executed ≡ cpu.cycles_executed
unfolding set_c_flag
c_cycles cpu b = ground arith

inline_cycles :
    (cpu : Cpu) (inline : Bool) (result : ℕ) (c v : Bool)
    → (if inline then flags cpu result c v else cpu).cycles_executed ≡ cpu.cycles_executed
inline_cycles cpu true result c v = flags_cycles cpu result c v
inline_cycles cpu false result c v = refl

-- Of what the ALU leaves, shut so that its tests stay in sight
out_cycles : AluOut → ℕ
out_cycles out = out.cpu.cycles_executed

out_leaf : (out : AluOut) {k : ℕ} → out.cpu.cycles_executed ≡ k → out_cycles out ≡ k
unfolding out_cycles
out_leaf out e = e

alu_out :
    (cpu : Cpu) (opcode : ℕ) (s : Bool) (rn op2 : ℕ)
    → out_cycles (alu cpu opcode s rn op2) ≡ cpu.cycles_executed
unfolding alu
alu_out cpu opcode s rn op2 =
    (either_branch out_cycles (opcode == 0x0) (out_leaf _ refl) (
      either_branch out_cycles (opcode == 0x1) (out_leaf _ refl) (
        either_branch out_cycles (opcode == 0x2) (out_leaf _ (inline_cycles cpu s _ _ _)) (
          either_branch out_cycles (opcode == 0x3) (out_leaf _ (inline_cycles cpu s _ _ _)) (
            either_branch out_cycles (opcode == 0x4) (out_leaf _ (inline_cycles cpu s _ _ _)) (
              either_branch out_cycles (opcode == 0x5) (out_leaf _ (inline_cycles cpu s _ _ _)) (
                either_branch out_cycles (opcode == 0x6) (out_leaf _ (inline_cycles cpu s _ _ _)) (
                  either_branch out_cycles (opcode == 0x7) (out_leaf _ (inline_cycles cpu s _ _ _))
                    (either_branch out_cycles (opcode == 0x8) (out_leaf _ refl) (
                      either_branch out_cycles (opcode == 0x9) (out_leaf _ refl) (
                        either_branch out_cycles (opcode == 0xa)
                          (out_leaf _ (flags_cycles cpu _ _ _))
                          (either_branch out_cycles (opcode == 0xb)
                            (out_leaf _ (flags_cycles cpu _ _ _))
                            (either_branch out_cycles (opcode == 0xc) (out_leaf _ refl) (
                              either_branch out_cycles (opcode == 0xd) (out_leaf _ refl) (
                                either_branch out_cycles (opcode == 0xe) (out_leaf _ refl)
                                  (out_leaf _ refl))))))))))))))))

alu_cycles :
    (cpu : Cpu) (opcode : ℕ) (s : Bool) (rn op2 : ℕ)
    → (alu cpu opcode s rn op2).cpu.cycles_executed ≡ cpu.cycles_executed
unfolding out_cycles
alu_cycles cpu opcode s rn op2 = alu_out cpu opcode s rn op2

data_processing_cycles :
    (cpu : Cpu) (instr : ℕ)
    → (arm_data_processing cpu instr).0.cycles_executed ≡ cpu.cycles_executed
unfolding arm_data_processing
data_processing_cycles cpu instr = grind (arith, write_rd_cycles, c_cycles, nz_cycles, alu_cycles)

-- The instructions that reach the processor only: the count stays, and the cost is a cycle at least.
abbrev pub Steady : Cpu → Cpu × ℕ → Type 0
Steady cpu (after, cost) = (after.cycles_executed ≡ cpu.cycles_executed) × (1 ≤ cost)

pub branch-Steady : (cpu : Cpu) (instr : ℕ) → Steady cpu (arm_branch cpu instr)
unfolding arm_branch cpu_flush_pipeline
branch-Steady cpu instr = (ground arith, omega arith)

pub bx-Steady : (cpu : Cpu) (instr : ℕ) → Steady cpu (arm_bx cpu instr)
unfolding arm_bx cpu_flush_pipeline
bx-Steady cpu instr = (ground arith, omega arith)

pub swi-Steady :
    (hle : Cpu → ℕ → Cpu) (cpu : Cpu) (instr : ℕ)
    → cpu.has_bios ≡ true
    → Steady cpu (arm_swi hle cpu instr)
unfolding arm_swi cpu_handle_swi
swi-Steady hle cpu instr on = (simp on (enter_cycles cpu _ _ _ _), omega arith)

pub multiply-Steady : (cpu : Cpu) (instr : ℕ) → Steady cpu (arm_multiply cpu instr)
unfolding arm_multiply
multiply-Steady cpu instr = grind (arith, nz_cycles)

pub multiply_long-Steady : (cpu : Cpu) (instr : ℕ) → Steady cpu (arm_multiply_long cpu instr)
unfolding arm_multiply_long write_pair
multiply_long-Steady cpu instr = grind (arith, nz_cycles)

msr_spsr_cycles :
    (i : Option ℕ) (cpu : Cpu) (mask operand : ℕ)
    → (msr_spsr i cpu mask operand).cycles_executed ≡ cpu.cycles_executed
unfolding msr_spsr
msr_spsr_cycles none cpu mask operand = refl
msr_spsr_cycles (some index) cpu mask operand = refl

pub msr-Steady : (cpu : Cpu) (instr : ℕ) → Steady cpu (arm_msr cpu instr)
unfolding arm_msr msr_cpsr
msr-Steady cpu instr = grind (arith, msr_spsr_cycles, switch_mode_cycles)

pub mrs-Steady : (cpu : Cpu) (instr : ℕ) → Steady cpu (arm_mrs cpu instr)
unfolding arm_mrs
mrs-Steady cpu instr = ground arith

pub data_processing-Steady : (cpu : Cpu) (instr : ℕ) → Steady cpu (arm_data_processing cpu instr)
data_processing-Steady cpu instr =
    (data_processing_cycles cpu instr, unfold arm_data_processing in omega arith)
