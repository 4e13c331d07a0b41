-- ===== src/Interrupt/Lines.antt =====
-- The 16 interrupt lines, one to a bit of IE and IF.
use gba_emulator.Base.{
  Bool, arith, bit, bit-and, bit-not, bit-or, bit_and, bit_and-lt, bit_of_pos, bit_or-lt,
  if◌then◌else◌, max, pos_of_bit, refl, test_bit, true, ℕ, ◌-◌, ◌<◌, ◌==◌, ◌^◌, ◌↔◌, ◌≡◌, ◌≢◌,
}
use gba_emulator.Interrupt.{
  InterruptController, interrupt_request, interrupt_acknowledge, interrupt_pending,
  interrupt_request_if_enabled,
}
use gba_emulator.Ppu.State.{Ppu}

-- Line `n` is enabled in IE, and requested in IF.
abbrev pub Raised : InterruptController → ℕ → Type 0
Raised ic n = (n < 16) × (bit ic.ie n ≡ 1) × (bit ic.irf n ≡ 1)

pub record IsValid (ic : InterruptController) : Type 0 where
  pub ie_fits : ic.ie < 2 ^ 16
  pub irf_fits : ic.irf < 2 ^ 16

-- With IE and IF of 16 bits, `interrupt_pending` answers true exactly when the master enable is on
-- and some line is both enabled and requested.
pub interrupt_pending_iff :
    {ic : InterruptController}
    → IsValid ic
    → (interrupt_pending ic ≡ true) ↔ ((ic.ime ≡ true) × ((n : ℕ) × Raised ic n))
unfolding interrupt_pending
interrupt_pending_iff {ic} v = (there, back)
  where
    there : interrupt_pending ic ≡ true → (ic.ime ≡ true) × ((n : ℕ) × Raised ic n)
    there h =
        let pos : 0 < bit_and ic.ie ic.irf = ground arith in
        let (n, below, one) =
          bit_of_pos 16 (bit_and ic.ie ic.irf) (bit_and-lt 16 _ _ v.ie_fits) pos in
        (
          ground arith,
          (
            n,
            (below, omega (arith, bit-and n ic.ie ic.irf), omega (arith, bit-and n ic.ie ic.irf)),
          ),
        )

    back : (ic.ime ≡ true) × ((n : ℕ) × Raised ic n) → interrupt_pending ic ≡ true
    back (on, (n, (below, enabled, requested))) =
        let raised : bit_and ic.ie ic.irf ≢ 0 =
          pos_of_bit (bit_and ic.ie ic.irf) n (omega (arith, bit-and n ic.ie ic.irf)) in
        ground arith

-- With IE and IF of 16 bits, a request raises the lines of its mask and an acknowledgement of a
-- 16-bit value drops those of its value; neither touches another line, IE or the master enable.
request-acknowledge_lines :
    {ic : InterruptController} (mask val n : ℕ)
    → IsValid ic
    → val < 2 ^ 16
    → n < 16
    → (bit (interrupt_request ic mask).irf n ≡ max (bit ic.irf n) (bit mask n))
      × (bit (interrupt_acknowledge ic val).irf n ≡ (if bit val n == 1 then 0 else bit ic.irf n))
      × ((interrupt_request ic mask).ie ≡ ic.ie)
      × ((interrupt_acknowledge ic val).ie ≡ ic.ie)
      × ((interrupt_request ic mask).ime ≡ ic.ime)
      × ((interrupt_acknowledge ic val).ime ≡ ic.ime)
unfolding interrupt_request interrupt_acknowledge
request-acknowledge_lines {ic} mask val n v fits below = (
  bit-or n ic.irf mask,
  ground (arith, bit-and n ic.irf (2 ^ 16 - 1 - val), bit-not 16 n val),
  refl,
  refl,
  refl,
  refl,
)

-- A request, an acknowledgement and a gated request, each of a 16-bit mask, keep IE and IF in 16
-- bits.
operations-IsValid :
    {ic : InterruptController} (ppu : Ppu) (mask : ℕ)
    → IsValid ic
    → mask < 2 ^ 16
    → IsValid (interrupt_request ic mask)
      × IsValid (interrupt_acknowledge ic mask)
      × IsValid (interrupt_request_if_enabled ic ppu mask)
unfolding interrupt_request interrupt_acknowledge interrupt_request_if_enabled
operations-IsValid {ic} ppu mask v fits =
    ground (arith, bit_or-lt 16 ic.irf mask, bit_and-lt 16 ic.irf (2 ^ 16 - 1 - mask))

-- Whether DISPSTAT lets a request through.
unfoldable pub gate : Ppu → ℕ → Bool
gate ppu irq_bit =
    if irq_bit == 1
    then test_bit ppu.dispstat 3
    else if irq_bit == 2
    then test_bit ppu.dispstat 4
    else if irq_bit == 4
    then test_bit ppu.dispstat 5
    else true

-- DISPSTAT gates the requests of VBlank, HBlank and VCount by its bits 3, 4 and 5, and no other
-- request: one that it lets through is `interrupt_request`, and one that it stops changes nothing.
interrupt_request_if_enabled-gate :
    (ic : InterruptController) (ppu : Ppu) (irq_bit : ℕ)
    → interrupt_request_if_enabled ic ppu irq_bit
      ≡ (if gate ppu irq_bit then interrupt_request ic irq_bit else ic)
unfolding interrupt_request interrupt_request_if_enabled gate
interrupt_request_if_enabled-gate ic ppu irq_bit = ground arith
