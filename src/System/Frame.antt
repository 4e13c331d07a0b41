-- ===== src/System/Frame.antt =====
-- `gba_run_frame` of src/gba.c. The picture unit reads the video memories of the bus, to which
-- `gba_init` points it.
use gba_emulator.Base.{false, if◌then◌else◌, ltb, suc, true, update, zero, ℕ, ◌%◌, ◌+◌, ◌==◌, ◌^◌}
use gba_emulator.System.State.{Gba, set_apu, set_ppu}
use gba_emulator.System.Playback.{tick_timers}
use gba_emulator.Ppu.State.{Ppu}
use gba_emulator.Ppu.Display.{
  ppu_set_hblank, ppu_set_vblank, ppu_increment_vcount, ppu_vcount_match, total_lines,
}
use gba_emulator.Ppu.Scanline.{ppu_render_scanline}
use gba_emulator.Interrupt.{irq_hblank, irq_vblank, irq_vcount, interrupt_request_if_enabled}
use gba_emulator.Apu.Frame.{apu_tick}
use gba_emulator.Dma.{dma_on_hblank, dma_on_vblank}
use gba_emulator.Cpu.Run.{cpu_run}

abbrev pub hdraw_cycles : ℕ
hdraw_cycles = 960

abbrev pub hblank_cycles : ℕ
hblank_cycles = 272

abbrev pub scanline_cycles : ℕ
scanline_cycles = 1232

abbrev pub vdraw_lines : ℕ
vdraw_lines = 160

-- `interrupt_request_if_enabled(&gba->interrupts, &gba->ppu, irq_bit)`
abbrev request : Gba → ℕ → Gba
request gba irq_bit = record gba {
  interrupts = interrupt_request_if_enabled gba.interrupts gba.ppu irq_bit;
}

-- `ppu->bg_ref_x[0] = ppu->bg_ref_x_latch[0]; ...`
unfoldable pub reload_refs : Ppu → Ppu
reload_refs ppu = record ppu {
  bg_ref_x = update (update ppu.bg_ref_x 0 (ppu.bg_ref_x_latch 0)) 1 (ppu.bg_ref_x_latch 1);
  bg_ref_y = update (update ppu.bg_ref_y 0 (ppu.bg_ref_y_latch 0)) 1 (ppu.bg_ref_y_latch 1);
}

-- "Check VCount match"
unfoldable pub match_vcount : Gba → Gba
match_vcount gba =
    let (ppu, found) = ppu_vcount_match gba.ppu in
    let matched = set_ppu gba ppu in if found then request matched irq_vcount else matched

module _ (dma_write_control : Gba → ℕ → ℕ → Gba) (bios_hle_execute : Gba → ℕ → Gba) where
  -- The processor, the timers and the sound unit for some cycles
  unfoldable pub run_parts : Gba → ℕ → Gba
  run_parts gba cycles =
      let ran = cpu_run dma_write_control bios_hle_execute gba cycles in
      let ticked = tick_timers dma_write_control ran cycles in
      set_apu ticked (apu_tick ticked.apu cycles)

  -- "VBlank start"
  unfoldable pub start_vblank : Gba → Gba
  unfolding reload_refs
  start_vblank gba =
      let requested = request (set_ppu gba (ppu_set_vblank gba.ppu true)) irq_vblank in
      let copied = dma_on_vblank dma_write_control requested in
      record copied { ppu = reload_refs copied.ppu; frame_complete = true }

  -- "HBlank": up to the interrupt
  unfoldable pub start_hblank : Gba → ℕ → Gba
  start_hblank gba line =
      let blank = set_ppu gba (ppu_set_hblank gba.ppu true) in
      let drawn =
        dma_on_hblank dma_write_control (set_ppu blank (ppu_render_scanline blank.bus blank.ppu)) in
      request (if ltb line vdraw_lines then drawn else blank) irq_hblank

  -- "End of scanline"
  unfoldable pub end_scanline : Gba → Gba
  unfolding match_vcount start_vblank
  end_scanline gba =
      let next = ppu_increment_vcount (ppu_set_hblank gba.ppu false) in
      let matched = match_vcount (set_ppu gba next) in
      let blanked = if matched.ppu.vcount == vdraw_lines then start_vblank matched else matched in
      let wrapped =
        if blanked.ppu.vcount == 0
        then set_ppu blanked (ppu_set_vblank blanked.ppu false)
        else blanked in
      record wrapped { total_cycles = (wrapped.total_cycles + scanline_cycles) % 2 ^ 64 }

  unfoldable pub run_line : Gba → ℕ → Gba
  unfolding run_parts start_hblank end_scanline
  run_line gba line =
      end_scanline (run_parts (start_hblank (run_parts gba hdraw_cycles) line) hblank_cycles)

  -- The `for` loop over the lines, from `line` on
  unfoldable pub run_lines : ℕ → Gba → ℕ → Gba
  unfolding run_line
  run_lines zero gba line = gba
  run_lines (suc left) gba line = run_lines left (run_line gba line) (line + 1)

  unfoldable pub gba_run_frame : Gba → Gba
  unfolding run_lines
  gba_run_frame gba = run_lines total_lines (record gba { frame_complete = false }) 0
