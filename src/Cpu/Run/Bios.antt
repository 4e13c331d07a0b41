-- ===== src/Cpu/Run/Bios.antt =====
-- The high-level BIOS leaves the count of executed cycles.
mod Moves
mod Filters
mod BitUnpacks
mod Streams
mod Huffs
use gba_emulator.Base.{
  ◌+◌, true, ap, either_branch, either_case, refl, test_bit, ℕ, ◌∙◌, ◌≡◌, ◌==◌, if◌then◌else◌, u32,
  bit_and, not32,
}
use gba_emulator.System.State.{Gba, set_cpu}
use gba_emulator.Cpu.State.{Cpu, cpu_flush_pipeline, set_reg}
use gba_emulator.Cpu.Transfer.{put_reg}
use gba_emulator.Cpu.Bios.{
  Host, Call, soft_reset, ram_reset, halt, intr_wait, vblank_intr_wait, div, div_arm, sqrt, arctan,
  arctan2, cpu_set, cpu_fast_set, checksum, bg_affine, obj_affine, bit_unpack, lz77, huff, rl,
  diff8_wram, diff8_vram, diff16, sound_bias, midi, nothing, decode_call, soft_reset_cpu, run_call,
  bios_hle_execute,
}
use gba_emulator.Cpu.Bios.Arith.{
  swi_div, swi_div_arm, swi_sqrt, swi_arctan, swi_arctan2, swi_get_bios_checksum,
}
use gba_emulator.Cpu.Bios.Control.{
  swi_halt, swi_intr_wait, swi_vblank_intr_wait, register_ram_reset, swi_sound_bias,
  swi_midi_key2freq,
}
use gba_emulator.Bus.Memory.{bus_read32, bus_write32}
use gba_emulator.Bus.Steady.{executed, KeepsCount, read32_executed, write32_executed}
use gba_emulator.Cpu.Run.Bios.Moves.{
  executed-swi_cpu_set, executed-swi_cpu_fast_set, executed-swi_bg_affine_set,
  executed-swi_obj_affine_set,
}
use gba_emulator.Cpu.Run.Bios.Filters.{executed-diff8_wram, executed-diff8_vram, executed-diff16}
use gba_emulator.Cpu.Run.Bios.BitUnpacks.{executed-swi_bit_unpack}
use gba_emulator.Cpu.Run.Bios.Streams.{executed-swi_lz77_uncomp_vram, executed-swi_rl_uncomp_vram}
use gba_emulator.Cpu.Run.Bios.Huffs.{executed-swi_huff_uncomp}
use gba_emulator.Cpu.Run.Instructions.{executed-put_reg}

executed-set_cpu :
    (gba : Gba) (cpu : Cpu)
    → cpu.cycles_executed ≡ gba.cpu.cycles_executed
    → executed (set_cpu gba cpu) ≡ executed gba
unfolding executed
executed-set_cpu gba cpu e = e

-- Of a processor, shut so that tests stay in sight
count_of : Cpu → ℕ
count_of cpu = cpu.cycles_executed

div_count : (cpu : Cpu) → count_of (swi_div cpu) ≡ count_of cpu
unfolding count_of swi_div
div_count cpu = either_branch (λ (c : Cpu). c.cycles_executed) (cpu.regs 1 == 0) refl refl

arctan2_count :
    (angle : ℕ → ℕ → ℕ) (cpu : Cpu) → (swi_arctan2 angle cpu).cycles_executed ≡ cpu.cycles_executed
unfolding swi_arctan2
arctan2_count angle cpu = either_branch (λ (c : Cpu). c.cycles_executed) _ refl refl

executed-ram_reset : (gba : Gba) → executed (register_ram_reset gba) ≡ executed gba
unfolding executed register_ram_reset
executed-ram_reset gba = refl

executed-sound_bias : (gba : Gba) → executed (swi_sound_bias gba) ≡ executed gba
unfolding executed swi_sound_bias
executed-sound_bias gba = refl

executed-midi :
    (freq : ℕ → ℕ → ℕ → ℕ) (gba : Gba) → executed (swi_midi_key2freq freq gba) ≡ executed gba
unfolding swi_midi_key2freq
executed-midi freq gba =
    let read = bus_read32 gba (u32 (gba.cpu.regs 0 + 4)) in
    executed-put_reg read.0 0 (freq read.1 (gba.cpu.regs 1) (gba.cpu.regs 2))
    ∙ read32_executed gba (u32 (gba.cpu.regs 0 + 4))

module _ (ctl : Gba → ℕ → ℕ → Gba) (keeps : KeepsCount ctl) where
  executed-intr_wait : (gba : Gba) → executed (swi_intr_wait ctl gba) ≡ executed gba
  unfolding swi_intr_wait swi_halt
  executed-intr_wait gba =
      let read = bus_read32 gba 0x03007ff8 in
      let cleared = bus_write32 ctl read.0 0x03007ff8 (bit_and read.1 (not32 (gba.cpu.regs 1))) in
      let waited = if test_bit (gba.cpu.regs 0) 0 then cleared else gba in
      executed-set_cpu waited (record waited.cpu { halted = true }) refl
      ∙ either_branch executed (test_bit (gba.cpu.regs 0) 0)
          (write32_executed ctl keeps read.0 0x03007ff8 _ ∙ read32_executed gba 0x03007ff8) refl

  executed-vblank_wait : (gba : Gba) → executed (swi_vblank_intr_wait ctl gba) ≡ executed gba
  unfolding swi_vblank_intr_wait
  executed-vblank_wait gba =
      let asked = put_reg (put_reg gba 0 1) 1 1 in
      executed-intr_wait asked ∙ executed-put_reg (put_reg gba 0 1) 1 1 ∙ executed-put_reg gba 0 1

  executed-run_call :
      (host : Host) (call : Call) (gba : Gba) → executed (run_call ctl host call gba) ≡ executed gba
  unfolding run_call count_of
  executed-run_call host soft_reset gba =
      executed-set_cpu gba (soft_reset_cpu gba.cpu)
        (unfold soft_reset_cpu cpu_flush_pipeline in refl)
  executed-run_call host ram_reset gba = executed-ram_reset gba
  executed-run_call host halt gba =
      executed-set_cpu gba (swi_halt gba.cpu) (unfold swi_halt in refl)
  executed-run_call host intr_wait gba = executed-intr_wait gba
  executed-run_call host vblank_intr_wait gba = executed-vblank_wait gba
  executed-run_call host div gba = executed-set_cpu gba (swi_div gba.cpu) (div_count gba.cpu)
  executed-run_call host div_arm gba = executed-set_cpu gba (swi_div_arm gba.cpu) (
      unfold swi_div_arm in
      div_count (set_reg (set_reg gba.cpu 0 (gba.cpu.regs 1)) 1 (gba.cpu.regs 0)))
  executed-run_call host sqrt gba =
      executed-set_cpu gba (swi_sqrt gba.cpu) (unfold swi_sqrt in refl)
  executed-run_call host arctan gba =
      executed-set_cpu gba (swi_arctan gba.cpu) (unfold swi_arctan in refl)
  executed-run_call host arctan2 gba =
      executed-set_cpu gba (swi_arctan2 host.atan2_angle gba.cpu)
        (arctan2_count host.atan2_angle gba.cpu)
  executed-run_call host cpu_set gba = executed-swi_cpu_set ctl keeps gba
  executed-run_call host cpu_fast_set gba = executed-swi_cpu_fast_set ctl keeps gba
  executed-run_call host checksum gba =
      executed-set_cpu gba (swi_get_bios_checksum gba.cpu) (unfold swi_get_bios_checksum in refl)
  executed-run_call host bg_affine gba = executed-swi_bg_affine_set ctl keeps gba
  executed-run_call host obj_affine gba = executed-swi_obj_affine_set ctl keeps gba
  executed-run_call host bit_unpack gba = executed-swi_bit_unpack ctl keeps gba
  executed-run_call host lz77 gba = executed-swi_lz77_uncomp_vram ctl keeps gba
  executed-run_call host huff gba = executed-swi_huff_uncomp ctl keeps host.max_bits gba
  executed-run_call host rl gba = executed-swi_rl_uncomp_vram ctl keeps gba
  executed-run_call host diff8_wram gba = executed-diff8_wram ctl keeps gba
  executed-run_call host diff8_vram gba = executed-diff8_vram ctl keeps gba
  executed-run_call host diff16 gba = executed-diff16 ctl keeps gba
  executed-run_call host sound_bias gba = executed-sound_bias gba
  executed-run_call host midi gba = executed-midi host.midi_freq gba
  executed-run_call host nothing gba = refl

  pub executed-bios :
      (host : Host) (gba : Gba) (swi_num : ℕ)
      → executed (bios_hle_execute ctl host gba swi_num) ≡ executed gba
  unfolding bios_hle_execute
  executed-bios host gba swi_num = executed-run_call host (decode_call swi_num) gba
