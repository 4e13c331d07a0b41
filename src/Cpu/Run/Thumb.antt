-- ===== src/Cpu/Run/Thumb.antt =====
-- Each Thumb instruction leaves the count of executed cycles and costs a cycle at least.
mod Local
mod Single
mod Several
use gba_emulator.Base.{
  ◌^◌, ap, not, ltb, sub32, ◌&&◌, ◌-◌, Bool, arith, bits, either_branch, either_case, by_test,
  false, if◌then◌else◌, refl, suc, test_bit, u16, u32, u8, zero, ℕ, ◌%◌, ◌*◌, ◌+◌, ◌/◌, ◌==◌, ◌∙◌,
  ◌≡◌, ◌≤◌,
}
use native.Mathlib.Decide.{dec_lt, ℕ_discrete}
use gba_emulator.System.State.{Gba, set_cpu}
use gba_emulator.Cpu.State.{Cpu, cpu_flush_pipeline, reg_lr, reg_sp, set_reg}
use gba_emulator.Cpu.Shifter.{Shifted}
use gba_emulator.Cpu.Exception.{cpu_handle_swi}
use gba_emulator.Cpu.Transfer.{put_reg, load_half, load_single}
use gba_emulator.Cpu.Block.{count_registers, listed_below}
use gba_emulator.Cpu.Thumb.{
  Format, long_branch_link, swi, cond_branch, unconditional_branch, push_pop, add_sp_offset,
  multiple_load_store, load_address, sp_relative_load_store, load_store_halfword, load_store_imm,
  load_store_sign_ext, load_store_reg, pc_relative_load, hi_reg_bx, alu, mov_cmp_add_sub_imm,
  add_subtract, move_shifted, unknown, to_cpu, run_format, thumb_execute, thumb_decode,
}
use gba_emulator.Cpu.Thumb.Memory.{
  thumb_pc_relative_load, load_to, load_half_to, store_from, store_half_from, thumb_load_store_reg,
  thumb_load_store_sign_ext, thumb_load_store_imm, thumb_load_store_halfword,
  thumb_sp_relative_load_store,
}
use gba_emulator.Cpu.Thumb.Multiple.{
  Walk, load_listed, load_registers, load_pc, pop, load_multiple, store_listed, store_registers,
  push, thumb_push_pop, store_multiple, empty_list, thumb_multiple_load_store,
}
use gba_emulator.Cpu.Thumb.Jump.{
  branch_by, thumb_cond_branch, thumb_swi, thumb_unconditional_branch, thumb_long_branch_link,
}
use gba_emulator.Bus.Memory.{bus_read32, bus_write32}
use gba_emulator.Bus.Steady.{
  executed, KeepsCount, read32-cpu, write8_executed, write16_executed, write32_executed,
}
use gba_emulator.Cpu.Run.Instructions.{
  Steps, executed-put_reg, executed-load_single, executed-load_half,
}
use gba_emulator.Cpu.Thumb.Alu.{
  sum_flags, sum_to, logic_to, shift_to, thumb_move_shifted, thumb_add_subtract,
  thumb_mov_cmp_add_sub_imm, alu_result, thumb_alu, write_hi, thumb_hi_reg_bx, thumb_load_address,
  thumb_add_sp_offset,
}
use gba_emulator.Cpu.Run.Steady.{Steady, nz_cycles, c_cycles, flags_cycles, enter_cycles}
use gba_emulator.Cpu.Run.Thumb.Local.{
  move_shifted-Steady, add_subtract-Steady, imm-Steady, alu-Steady, hi-Steady, address-Steady,
  sp-Steady, cond_branch-Steady, branch-Steady, link-Steady,
}
use gba_emulator.Cpu.Run.Thumb.Single.{
  pc_relative-Steps, load_store_reg-Steps, sign_ext-Steps, load_store_imm-Steps, halfword-Steps,
  sp_relative-Steps,
}
use gba_emulator.Cpu.Run.Thumb.Several.{push_pop-Steps, multiple-Steps}

to_cpu-Steps : (gba : Gba) (out : Cpu × ℕ) → Steady gba.cpu out → Steps gba (to_cpu gba out)
unfolding executed
to_cpu-Steps gba (cpu, cost) (same, some_cost) = record { count = same; cost = some_cost }

module _ (ctl : Gba → ℕ → ℕ → Gba) (keeps : KeepsCount ctl) where
  module _ (hle : Gba → ℕ → Gba)
      (hle_keeps : (gba : Gba) (comment : ℕ) → executed (hle gba comment) ≡ executed gba) where
    swi-Steps : (gba : Gba) (instr : ℕ) → Steps gba (thumb_swi hle gba instr)
    unfolding thumb_swi cpu_handle_swi
    swi-Steps gba instr =
        by_test (Steps gba) gba.cpu.has_bios
          (λ on. record {
            count = unfold executed in simp on (enter_cycles gba.cpu _ _ _ _);
            cost = omega arith;
          })
          (λ off. record { count = hle_keeps gba _; cost = omega arith })

    format-Steps : (f : Format) (gba : Gba) (instr : ℕ) → Steps gba (run_format ctl hle f gba instr)
    unfolding run_format
    format-Steps long_branch_link gba instr = to_cpu-Steps gba _ (link-Steady gba.cpu instr)
    format-Steps swi gba instr = swi-Steps gba instr
    format-Steps cond_branch gba instr = to_cpu-Steps gba _ (cond_branch-Steady gba.cpu instr)
    format-Steps unconditional_branch gba instr = to_cpu-Steps gba _ (branch-Steady gba.cpu instr)
    format-Steps push_pop gba instr = push_pop-Steps ctl keeps gba instr
    format-Steps add_sp_offset gba instr = to_cpu-Steps gba _ (sp-Steady gba.cpu instr)
    format-Steps multiple_load_store gba instr = multiple-Steps ctl keeps gba instr
    format-Steps load_address gba instr = to_cpu-Steps gba _ (address-Steady gba.cpu instr)
    format-Steps sp_relative_load_store gba instr = sp_relative-Steps ctl keeps gba instr
    format-Steps load_store_halfword gba instr = halfword-Steps ctl keeps gba instr
    format-Steps load_store_imm gba instr = load_store_imm-Steps ctl keeps gba instr
    format-Steps load_store_sign_ext gba instr = sign_ext-Steps ctl keeps gba instr
    format-Steps load_store_reg gba instr = load_store_reg-Steps ctl keeps gba instr
    format-Steps pc_relative_load gba instr = pc_relative-Steps gba instr
    format-Steps hi_reg_bx gba instr = to_cpu-Steps gba _ (hi-Steady gba.cpu instr)
    format-Steps alu gba instr = to_cpu-Steps gba _ (alu-Steady gba.cpu instr)
    format-Steps mov_cmp_add_sub_imm gba instr = to_cpu-Steps gba _ (imm-Steady gba.cpu instr)
    format-Steps add_subtract gba instr = to_cpu-Steps gba _ (add_subtract-Steady gba.cpu instr)
    format-Steps move_shifted gba instr = to_cpu-Steps gba _ (move_shifted-Steady gba.cpu instr)
    format-Steps unknown gba instr = record { count = refl; cost = omega arith }

    pub thumb-Steps : (gba : Gba) (instr : ℕ) → Steps gba (thumb_execute ctl hle gba instr)
    unfolding thumb_execute
    thumb-Steps gba instr = format-Steps (thumb_decode instr) gba instr
