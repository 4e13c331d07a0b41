-- ===== src/Interrupt/Tests.antt =====
-- The theorems on the interrupt lines at a concrete controller: VBlank and timer 0 are requested,
-- and VBlank is enabled.
use gba_emulator.Base.{arith, true, ℕ, ◌↔◌, ◌≡◌}
use gba_emulator.Ppu.State.{Ppu}
use gba_emulator.Interrupt.{InterruptController, interrupt_pending}
use gba_emulator.Interrupt.Lines.{IsValid, Raised, interrupt_pending_iff}

abbrev ready : InterruptController
ready = record { ime = true; ie = 1; irf = 9 }

abbrev display : Ppu
display = record {
  dispcnt = 0;
  dispstat = 8;
  vcount = 0;
  bg_cnt = λ _. 0;
  bg_hofs = λ _. 0;
  bg_vofs = λ _. 0;
  bg_pa = λ _. 0;
  bg_pb = λ _. 0;
  bg_pc = λ _. 0;
  bg_pd = λ _. 0;
  bg_ref_x = λ _. 0;
  bg_ref_y = λ _. 0;
  bg_ref_x_latch = λ _. 0;
  bg_ref_y_latch = λ _. 0;
  win_h = λ _. 0;
  win_v = λ _. 0;
  winin = 0;
  winout = 0;
  bldcnt = 0;
  bldalpha = 0;
  bldy = 0;
  mosaic = 0;
  framebuffer = λ _. 0;
  scanline_buffer = λ _. 0;
  top_layer = λ _. 0;
  second_pixel = λ _. 0;
  second_layer = λ _. 0;
  cycle_counter = 0;
}

ready-IsValid : IsValid ready
ready-IsValid = record { ie_fits = omega arith; irf_fits = omega arith }

interrupt_pending_iff_example :
    (interrupt_pending ready ≡ true) ↔ ((true ≡ true) × ((n : ℕ) × Raised ready n))
interrupt_pending_iff_example = interrupt_pending_iff ready-IsValid
