-- ===== src/Cpu/Bios.antt =====
-- The high-level BIOS: src/cpu/bios_hle.c. Two parts of it compute on floating-point numbers, the angle
-- of ArcTan2 and the frequency of MidiKey2Freq; they are parameters. Warnings are left out.
pub mod Arith
pub mod Copy
pub mod BitUnpack
pub mod Stream
pub mod Huff
pub mod Filter
pub mod Control
mod Tests
use gba_emulator.Base.{if◌then◌else◌, ℕ, ◌==◌}
use gba_emulator.System.State.{Gba, set_cpu}
use gba_emulator.Cpu.State.{Cpu, reg_pc, set_reg, cpu_flush_pipeline}
use gba_emulator.Cpu.Bios.Arith.{
  swi_div, swi_div_arm, swi_sqrt, swi_arctan, swi_arctan2, swi_get_bios_checksum,
}
use gba_emulator.Cpu.Bios.Copy.{
  swi_cpu_set, swi_cpu_fast_set, swi_bg_affine_set, swi_obj_affine_set,
}
use gba_emulator.Cpu.Bios.BitUnpack.{swi_bit_unpack}
use gba_emulator.Cpu.Bios.Stream.{swi_lz77_uncomp_vram, swi_rl_uncomp_vram}
use gba_emulator.Cpu.Bios.Huff.{swi_huff_uncomp}
use gba_emulator.Cpu.Bios.Filter.{
  swi_diff8bit_unfilter_wram, swi_diff8bit_unfilter_vram, swi_diff16bit_unfilter,
}
use gba_emulator.Cpu.Bios.Control.{
  swi_halt, swi_intr_wait, swi_vblank_intr_wait, register_ram_reset, swi_sound_bias,
  swi_midi_key2freq,
}

-- The floating-point parts, and the bits that HuffUnComp may read
pub record Host : Type 0 where
  pub atan2_angle : ℕ → ℕ → ℕ
  pub midi_freq : ℕ → ℕ → ℕ → ℕ
  pub max_bits : ℕ

-- The functions that the `switch` tells apart; `nothing` is a stub or no function.
pub data Call : Type 0 where
  soft_reset ram_reset halt intr_wait vblank_intr_wait div div_arm sqrt arctan arctan2 : Call
  cpu_set cpu_fast_set checksum bg_affine obj_affine bit_unpack lz77 huff rl : Call
  diff8_wram diff8_vram diff16 sound_bias midi nothing : Call

unfoldable pub decode_call : ℕ → Call
decode_call swi_num =
    if swi_num == 0x00
    then soft_reset
    else if swi_num == 0x01
    then ram_reset
    else if swi_num == 0x02
    then halt
    else if swi_num == 0x03
    then halt
    else if swi_num == 0x04
    then intr_wait
    else if swi_num == 0x05
    then vblank_intr_wait
    else if swi_num == 0x06
    then div
    else if swi_num == 0x07
    then div_arm
    else if swi_num == 0x08
    then sqrt
    else if swi_num == 0x09
    then arctan
    else if swi_num == 0x0a
    then arctan2
    else if swi_num == 0x0b
    then cpu_set
    else if swi_num == 0x0c
    then cpu_fast_set
    else if swi_num == 0x0d
    then checksum
    else if swi_num == 0x0e
    then bg_affine
    else if swi_num == 0x0f
    then obj_affine
    else if swi_num == 0x10
    then bit_unpack
    else if swi_num == 0x11
    then lz77
    else if swi_num == 0x12
    then lz77
    else if swi_num == 0x13
    then huff
    else if swi_num == 0x14
    then rl
    else if swi_num == 0x15
    then rl
    else if swi_num == 0x16
    then diff8_wram
    else if swi_num == 0x17
    then diff8_vram
    else if swi_num == 0x18
    then diff16
    else if swi_num == 0x19
    then sound_bias
    else if swi_num == 0x1f
    then midi
    else nothing

-- "just reset PC"
unfoldable pub soft_reset_cpu : Cpu → Cpu
soft_reset_cpu cpu = cpu_flush_pipeline (set_reg cpu reg_pc 0x08000000)

module _ (dma_write_control : Gba → ℕ → ℕ → Gba) (host : Host) where
  unfoldable pub run_call : Call → Gba → Gba
  unfolding soft_reset_cpu
  run_call soft_reset gba = set_cpu gba (soft_reset_cpu gba.cpu)
  run_call ram_reset gba = register_ram_reset gba
  run_call halt gba = set_cpu gba (swi_halt gba.cpu)
  run_call intr_wait gba = swi_intr_wait dma_write_control gba
  run_call vblank_intr_wait gba = swi_vblank_intr_wait dma_write_control gba
  run_call div gba = set_cpu gba (swi_div gba.cpu)
  run_call div_arm gba = set_cpu gba (swi_div_arm gba.cpu)
  run_call sqrt gba = set_cpu gba (swi_sqrt gba.cpu)
  run_call arctan gba = set_cpu gba (swi_arctan gba.cpu)
  run_call arctan2 gba = set_cpu gba (swi_arctan2 host.atan2_angle gba.cpu)
  run_call cpu_set gba = swi_cpu_set dma_write_control gba
  run_call cpu_fast_set gba = swi_cpu_fast_set dma_write_control gba
  run_call checksum gba = set_cpu gba (swi_get_bios_checksum gba.cpu)
  run_call bg_affine gba = swi_bg_affine_set dma_write_control gba
  run_call obj_affine gba = swi_obj_affine_set dma_write_control gba
  run_call bit_unpack gba = swi_bit_unpack dma_write_control gba
  run_call lz77 gba = swi_lz77_uncomp_vram dma_write_control gba
  run_call huff gba = swi_huff_uncomp dma_write_control host.max_bits gba
  run_call rl gba = swi_rl_uncomp_vram dma_write_control gba
  run_call diff8_wram gba = swi_diff8bit_unfilter_wram dma_write_control gba
  run_call diff8_vram gba = swi_diff8bit_unfilter_vram dma_write_control gba
  run_call diff16 gba = swi_diff16bit_unfilter dma_write_control gba
  run_call sound_bias gba = swi_sound_bias gba
  run_call midi gba = swi_midi_key2freq host.midi_freq gba
  run_call nothing gba = gba

  unfoldable pub bios_hle_execute : Gba → ℕ → Gba
  unfolding decode_call run_call
  bios_hle_execute gba swi_num = run_call (decode_call swi_num) gba
