-- ===== src/Cpu/Thumb/Tests.antt =====
-- The theorem on the Thumb instructions at concrete ones.
use gba_emulator.Base.{arith, ◌≡◌}
use gba_emulator.System.Rest.{rest_cpu}
use gba_emulator.Cpu.DataProcessing.{arm_data_processing}
use gba_emulator.Cpu.Thumb.Alu.{thumb_move_shifted, thumb_add_subtract, thumb_mov_cmp_add_sub_imm}
use gba_emulator.Cpu.Thumb.Arm.{moves, adds, compares, thumb-arm}

-- ASR R1, R2, #3; SUB R1, R2, #5; CMP R3, #7
thumb-arm_example :
    (thumb_move_shifted rest_cpu 0x10d1 ≡ arm_data_processing rest_cpu (moves 0x10d1))
    × (thumb_add_subtract rest_cpu 0x1f51 ≡ arm_data_processing rest_cpu (adds 0x1f51))
    × (thumb_mov_cmp_add_sub_imm rest_cpu 0x2b07 ≡ arm_data_processing rest_cpu (compares 0x2b07))
thumb-arm_example = thumb-arm rest_cpu 0x10d1 0x1f51 0x2b07 (omega arith) (omega arith)
