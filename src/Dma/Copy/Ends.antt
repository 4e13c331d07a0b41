-- ===== src/Dma/Copy/Ends.antt =====
-- What precedes and what follows the loop of `dma_execute`.
use gba_emulator.Base.{
  Bool, Bool-cases, arith, false, if◌then◌else◌, inl, inr, none, not, refl, ℕ, ◌&&◌, ◌<◌, ◌==◌, ◌^◌,
  ◌∙◌, ◌≡◌,
}
use gba_emulator.System.State.{Gba}
use gba_emulator.Dma.State.{DmaChannel}
use gba_emulator.Bus.Ram.{memory}
use gba_emulator.Dma.{mask_addresses, disable, reload_dest, fire_irq, settle, finish, activate}

memory-inactive :
    (gba : Gba) (r : ℕ)
    → memory (record gba { dma = record gba.dma { active_channel = none } }) r ≡ memory gba r
unfolding memory
memory-inactive gba r = refl

memory-reload_dest :
    (gba : Gba) (ch : ℕ) (is_fifo : Bool) (r : ℕ)
    → memory (reload_dest gba ch is_fifo) r ≡ memory gba r
unfolding reload_dest memory
memory-reload_dest gba ch is_fifo r =
    elim (Bool-cases ((gba.dma.channels ch).dest_adjust == 3 && not is_fifo)) [
      | inl e ↦ rw e refl
      | inr e ↦ rw e refl
    ]

memory-fire_irq : (gba : Gba) (ch r : ℕ) → memory (fire_irq gba ch) r ≡ memory gba r
unfolding fire_irq memory
memory-fire_irq gba ch r = elim (Bool-cases (gba.dma.channels ch).irq_on_done) [
  | inl e ↦ rw e refl
  | inr e ↦ rw e refl
]

memory-settle : (gba : Gba) (ch r : ℕ) → memory (settle gba ch) r ≡ memory gba r
unfolding settle disable memory
memory-settle gba ch r =
    let dc = gba.dma.channels ch in
    elim (Bool-cases (dc.repeat && not (dc.timing == 0))) [ inl e ↦ rw e refl | inr e ↦ rw e refl ]

module _ (ch : ℕ) where
  pub memory-activate : (gba : Gba) (r : ℕ) → memory (activate gba ch) r ≡ memory gba r
  unfolding activate memory
  memory-activate gba r = refl

  pub memory-finish :
      (gba : Gba) (is_fifo : Bool) (r : ℕ) → memory (finish gba ch is_fifo) r ≡ memory gba r
  memory-finish gba is_fifo r =
      let reloaded = reload_dest gba ch is_fifo in
      let fired = fire_irq reloaded ch in
      unfold finish in
      memory-inactive (settle fired ch) r
      ∙ memory-settle fired ch r
      ∙ memory-fire_irq reloaded ch r
      ∙ memory-reload_dest gba ch is_fifo r

  -- What the last step leaves of the channel.
  pub finish-channel :
      (gba : Gba) {dc : DmaChannel}
      → gba.dma.channels ch ≡ dc
      → dc.dest_adjust ≡ 0
      → ((finish gba ch false).dma.channels ch).enabled
        ≡ (if dc.repeat && not (dc.timing == 0) then dc.enabled else false)
  unfolding finish reload_dest fire_irq settle disable
  finish-channel gba {dc} e up = ground arith

  pub finish-active :
      (gba : Gba) (is_fifo : Bool) → (finish gba ch is_fifo).dma.active_channel ≡ none
  unfolding finish
  finish-active gba is_fifo = refl

  pub activate-channel :
      (gba : Gba) {dc : DmaChannel}
      → gba.dma.channels ch ≡ dc
      → dc.source < 2 ^ 27
      → dc.dest < 2 ^ 27
      → (activate gba ch).dma.channels ch ≡ dc
  unfolding activate mask_addresses
  activate-channel gba {dc} e s d = ground arith
