-- ===== src/Cpu/Thumb.antt =====
-- The Thumb instructions: src/cpu/thumb_instr.c. Its flag helpers and its barrel shifter repeat those
-- of src/cpu/arm_instr.c, and so do the parts of its loads; the definitions of those are used.
pub mod Alu
pub mod Memory
pub mod Multiple
pub mod Jump
pub mod Arm
mod Tests
use gba_emulator.Base.{Bool, bit_and, if◌then◌else◌, ℕ, ◌==◌}
use gba_emulator.System.State.{Gba, set_cpu}
use gba_emulator.Cpu.State.{Cpu}
use gba_emulator.Cpu.Thumb.Alu.{
  thumb_move_shifted, thumb_add_subtract, thumb_mov_cmp_add_sub_imm, thumb_alu, thumb_hi_reg_bx,
  thumb_load_address, thumb_add_sp_offset,
}
use gba_emulator.Cpu.Thumb.Memory.{
  thumb_pc_relative_load, thumb_load_store_reg, thumb_load_store_sign_ext, thumb_load_store_imm,
  thumb_load_store_halfword, thumb_sp_relative_load_store,
}
use gba_emulator.Cpu.Thumb.Multiple.{thumb_push_pop, thumb_multiple_load_store}
use gba_emulator.Cpu.Thumb.Jump.{
  thumb_cond_branch, thumb_swi, thumb_unconditional_branch, thumb_long_branch_link,
}

-- The formats in the order of the tests; `unknown` is the end of `thumb_execute`.
pub data Format : Type 0 where
  long_branch_link swi cond_branch unconditional_branch push_pop add_sp_offset : Format
  multiple_load_store load_address sp_relative_load_store load_store_halfword : Format
  load_store_imm load_store_sign_ext load_store_reg pc_relative_load hi_reg_bx alu : Format
  mov_cmp_add_sub_imm add_subtract move_shifted unknown : Format

-- `(instr & mask) == pattern`
abbrev has_format : ℕ → ℕ → ℕ → Bool
has_format instr mask pattern = bit_and instr mask == pattern

unfoldable pub thumb_decode : ℕ → Format
thumb_decode instr =
    if has_format instr 0xf000 0xf000
    then long_branch_link
    else if has_format instr 0xff00 0xdf00
    then swi
    else if has_format instr 0xf000 0xd000
    then cond_branch
    else if has_format instr 0xf800 0xe000
    then unconditional_branch
    else if has_format instr 0xf600 0xb400
    then push_pop
    else if has_format instr 0xff00 0xb000
    then add_sp_offset
    else if has_format instr 0xf000 0xc000
    then multiple_load_store
    else if has_format instr 0xf000 0xa000
    then load_address
    else if has_format instr 0xf000 0x9000
    then sp_relative_load_store
    else if has_format instr 0xf000 0x8000
    then load_store_halfword
    else if has_format instr 0xe000 0x6000
    then load_store_imm
    else if has_format instr 0xf200 0x5200
    then load_store_sign_ext
    else if has_format instr 0xf200 0x5000
    then load_store_reg
    else if has_format instr 0xf800 0x4800
    then pc_relative_load
    else if has_format instr 0xfc00 0x4400
    then hi_reg_bx
    else if has_format instr 0xfc00 0x4000
    then alu
    else if has_format instr 0xe000 0x2000
    then mov_cmp_add_sub_imm
    else if has_format instr 0xf800 0x1800
    then add_subtract
    else if has_format instr 0xe000 0x0000
    then move_shifted
    else unknown

abbrev pub to_cpu : Gba → Cpu × ℕ → Gba × ℕ
to_cpu gba (cpu, cycles) = (set_cpu gba cpu, cycles)

module _ (dma_write_control : Gba → ℕ → ℕ → Gba) (bios_hle_execute : Gba → ℕ → Gba) where
  unfoldable pub run_format : Format → Gba → ℕ → Gba × ℕ
  run_format long_branch_link gba instr = to_cpu gba (thumb_long_branch_link gba.cpu instr)
  run_format swi gba instr = thumb_swi bios_hle_execute gba instr
  run_format cond_branch gba instr = to_cpu gba (thumb_cond_branch gba.cpu instr)
  run_format unconditional_branch gba instr = to_cpu gba (thumb_unconditional_branch gba.cpu instr)
  run_format push_pop gba instr = thumb_push_pop dma_write_control gba instr
  run_format add_sp_offset gba instr = to_cpu gba (thumb_add_sp_offset gba.cpu instr)
  run_format multiple_load_store gba instr = thumb_multiple_load_store dma_write_control gba instr
  run_format load_address gba instr = to_cpu gba (thumb_load_address gba.cpu instr)
  run_format sp_relative_load_store gba instr =
      thumb_sp_relative_load_store dma_write_control gba instr
  run_format load_store_halfword gba instr = thumb_load_store_halfword dma_write_control gba instr
  run_format load_store_imm gba instr = thumb_load_store_imm dma_write_control gba instr
  run_format load_store_sign_ext gba instr = thumb_load_store_sign_ext dma_write_control gba instr
  run_format load_store_reg gba instr = thumb_load_store_reg dma_write_control gba instr
  run_format pc_relative_load gba instr = thumb_pc_relative_load gba instr
  run_format hi_reg_bx gba instr = to_cpu gba (thumb_hi_reg_bx gba.cpu instr)
  run_format alu gba instr = to_cpu gba (thumb_alu gba.cpu instr)
  run_format mov_cmp_add_sub_imm gba instr = to_cpu gba (thumb_mov_cmp_add_sub_imm gba.cpu instr)
  run_format add_subtract gba instr = to_cpu gba (thumb_add_subtract gba.cpu instr)
  run_format move_shifted gba instr = to_cpu gba (thumb_move_shifted gba.cpu instr)
  run_format unknown gba instr = (gba, 1)

  -- The warning on an unknown instruction is left out.
  unfoldable pub thumb_execute : Gba → ℕ → Gba × ℕ
  unfolding thumb_decode run_format
  thumb_execute gba instr = run_format (thumb_decode instr) gba instr
