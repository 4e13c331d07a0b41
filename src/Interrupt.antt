-- ===== src/Interrupt.antt =====
-- The interrupt controller: src/interrupt/interrupt.c. The X-Ray notifications (a build option)
-- are left out; they touch no emulator state.
pub mod Lines
mod Tests
use gba_emulator.Base.{
  Bool, bit_and, bit_or, false, if◌then◌else◌, not, not16, test_bit, ℕ, ◌&&◌, ◌==◌, ◌^◌,
}
use gba_emulator.Ppu.State.{Ppu}

pub record InterruptController : Type 0 where
  pub ime : Bool
  pub ie : ℕ
  pub irf : ℕ

abbrev pub irq_vblank : ℕ
irq_vblank = 2 ^ 0

abbrev pub irq_hblank : ℕ
irq_hblank = 2 ^ 1

abbrev pub irq_vcount : ℕ
irq_vcount = 2 ^ 2

unfoldable pub interrupt_init : InterruptController
interrupt_init = record { ime = false; ie = 0; irf = 0 }

unfoldable pub interrupt_request : InterruptController → ℕ → InterruptController
interrupt_request ic irq_bit = record ic { irf = bit_or ic.irf irq_bit }

-- The three early returns, then the request.
unfoldable pub interrupt_request_if_enabled : InterruptController → Ppu → ℕ → InterruptController
interrupt_request_if_enabled ic ppu irq_bit =
    if irq_bit == irq_vblank && not (test_bit ppu.dispstat 3)
    then ic
    else if irq_bit == irq_hblank && not (test_bit ppu.dispstat 4)
    then ic
    else if irq_bit == irq_vcount && not (test_bit ppu.dispstat 5)
    then ic
    else record ic { irf = bit_or ic.irf irq_bit }

unfoldable pub interrupt_acknowledge : InterruptController → ℕ → InterruptController
interrupt_acknowledge ic val = record ic { irf = bit_and ic.irf (not16 val) }

unfoldable pub interrupt_pending : InterruptController → Bool
interrupt_pending ic = ic.ime && not (bit_and ic.ie ic.irf == 0)
