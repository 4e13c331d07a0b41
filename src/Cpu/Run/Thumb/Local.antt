-- ===== src/Cpu/Run/Thumb/Local.antt =====
-- The Thumb formats that reach the processor only.
use gba_emulator.Base.{Bool, arith, refl, ℕ, ◌∙◌, ◌≡◌}
use gba_emulator.Cpu.State.{Cpu, cpu_flush_pipeline, set_reg}
use gba_emulator.Cpu.Shifter.{Shifted}
use gba_emulator.Cpu.Thumb.Jump.{
  branch_by, thumb_cond_branch, thumb_unconditional_branch, thumb_long_branch_link,
}
use gba_emulator.Cpu.Thumb.Alu.{
  sum_flags, logic_to, shift_to, thumb_move_shifted, thumb_add_subtract, thumb_mov_cmp_add_sub_imm,
  alu_result, thumb_alu, write_hi, thumb_hi_reg_bx, thumb_load_address, thumb_add_sp_offset,
}
use gba_emulator.Cpu.Run.Steady.{Steady, nz_cycles, c_cycles, flags_cycles}

logic_cycles :
    (cpu : Cpu) (rd result : ℕ) → (logic_to cpu rd result).cycles_executed ≡ cpu.cycles_executed
logic_cycles cpu rd result = nz_cycles (set_reg cpu rd result) result

shift_cycles :
    (cpu : Cpu) (rd : ℕ) (s : Shifted) → (shift_to cpu rd s).cycles_executed ≡ cpu.cycles_executed
shift_cycles cpu rd (value, carry) =
    c_cycles (logic_to cpu rd value) carry ∙ logic_cycles cpu rd value

pub sum_flags_cycles :
    (cpu : Cpu) (res64 : ℕ) (v : ℕ → Bool)
    → (sum_flags cpu res64 v).cycles_executed ≡ cpu.cycles_executed
sum_flags_cycles cpu res64 v = flags_cycles cpu _ _ _

pub move_shifted-Steady : (cpu : Cpu) (instr : ℕ) → Steady cpu (thumb_move_shifted cpu instr)
unfolding thumb_move_shifted
move_shifted-Steady cpu instr = (shift_cycles cpu _ _, omega arith)

pub add_subtract-Steady : (cpu : Cpu) (instr : ℕ) → Steady cpu (thumb_add_subtract cpu instr)
unfolding thumb_add_subtract
add_subtract-Steady cpu instr = grind (arith, flags_cycles)

pub imm-Steady : (cpu : Cpu) (instr : ℕ) → Steady cpu (thumb_mov_cmp_add_sub_imm cpu instr)
unfolding thumb_mov_cmp_add_sub_imm
imm-Steady cpu instr = grind (arith, flags_cycles, nz_cycles)

pub alu-Steady : (cpu : Cpu) (instr : ℕ) → Steady cpu (thumb_alu cpu instr)
unfolding thumb_alu alu_result
alu-Steady cpu instr = grind (arith, flags_cycles, nz_cycles, c_cycles)

pub hi-Steady : (cpu : Cpu) (instr : ℕ) → Steady cpu (thumb_hi_reg_bx cpu instr)
unfolding thumb_hi_reg_bx write_hi cpu_flush_pipeline
hi-Steady cpu instr = grind (arith, flags_cycles)

pub address-Steady : (cpu : Cpu) (instr : ℕ) → Steady cpu (thumb_load_address cpu instr)
unfolding thumb_load_address
address-Steady cpu instr = (refl, omega arith)

pub sp-Steady : (cpu : Cpu) (instr : ℕ) → Steady cpu (thumb_add_sp_offset cpu instr)
unfolding thumb_add_sp_offset
sp-Steady cpu instr = (refl, omega arith)

pub cond_branch-Steady : (cpu : Cpu) (instr : ℕ) → Steady cpu (thumb_cond_branch cpu instr)
unfolding thumb_cond_branch branch_by cpu_flush_pipeline
cond_branch-Steady cpu instr = ground arith

pub branch-Steady : (cpu : Cpu) (instr : ℕ) → Steady cpu (thumb_unconditional_branch cpu instr)
unfolding thumb_unconditional_branch branch_by cpu_flush_pipeline
branch-Steady cpu instr = (refl, omega arith)

pub link-Steady : (cpu : Cpu) (instr : ℕ) → Steady cpu (thumb_long_branch_link cpu instr)
unfolding thumb_long_branch_link cpu_flush_pipeline
link-Steady cpu instr = ground arith
