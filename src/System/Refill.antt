-- ===== src/System/Refill.antt =====
-- The transfers that refill a FIFO, between the timers and the DMA: what they keep.
use gba_emulator.Base.{
  Bool, ap, arith, either_case, false, inl, inr, not, refl, suc, true, zero, ℕ, ◌&&◌, ◌+◌, ◌/◌, ◌<◌,
  ◌==◌, ◌^◌, ◌∙◌, ◌≡◌, ◌≢◌, ◌*◌, ◌⊎◌,
}
use gba_emulator.System.State.{Gba, set_channel}
use gba_emulator.Dma.State.{DmaChannel}
use gba_emulator.Dma.{
  is_fifo_transfer, transfer_count, uses_32, mask_addresses, adjust_source, adjust_dest, disable,
  reload_dest, fire_irq, settle, run_transfer, finish, activate, transfer_unit, transfer,
  dma_execute,
}
use gba_emulator.Bus.Memory.{bus_read8, read_bios, bus_read32, bus_write32, decode_region}

-- FIFO_A and FIFO_B
abbrev pub IsFifo : ℕ → Type 0
IsFifo addr = (addr ≡ 0x040000a0) ⊎ (addr ≡ 0x040000a4)

-- The timers, the destination of channel `ch` and the other channels as in `start`
abbrev pub Kept : Gba → ℕ → Gba → Type 0
Kept start ch after =
    (after.timers ≡ start.timers)
    × ((after.dma.channels ch).dest ≡ (start.dma.channels ch).dest)
    × ((j : ℕ) → j ≢ ch → after.dma.channels j ≡ start.dma.channels j)

low : (addr : ℕ) → IsFifo addr → addr < 2 ^ 27
low addr (inl e) = omega arith
low addr (inr e) = omega arith

-- A step that keeps the timers and the DMA controller
abbrev Steady : Gba → Gba → Type 0
Steady gba after = (after.timers ≡ gba.timers) × (after.dma ≡ gba.dma)

read8-Steady : (gba : Gba) (addr : ℕ) → Steady gba (bus_read8 gba addr).0
unfolding bus_read8 read_bios
read8-Steady gba addr = ground arith

Steady-trans : (a b c : Gba) → Steady a b → Steady b c → Steady a c
Steady-trans a b c (t, d) (t', d') = (t' ∙ t, d' ∙ d)

read32-Steady : (gba : Gba) (addr : ℕ) → Steady gba (bus_read32 gba addr).0
unfolding bus_read32
read32-Steady gba addr =
    let at = addr / 4 * 4 in
    let g1 = (bus_read8 gba at).0 in
    let g2 = (bus_read8 g1 (at + 1)).0 in
    let g3 = (bus_read8 g2 (at + 2)).0 in
    let g4 = (bus_read8 g3 (at + 3)).0 in
    Steady-trans gba g1 g4 (read8-Steady gba at) (
      Steady-trans g1 g2 g4 (read8-Steady g1 (at + 1))
        (Steady-trans g2 g3 g4 (read8-Steady g2 (at + 2)) (read8-Steady g3 (at + 3))))

Kept-Steady :
    (start : Gba) (ch : ℕ) (gba after : Gba)
    → Kept start ch gba
    → Steady gba after
    → Kept start ch after
Kept-Steady start ch gba after (timers, dest, others) (t, d) = (
  t ∙ timers,
  ap (λ d. (d.channels ch).dest) d ∙ dest,
  λ j other. ap (λ d. d.channels j) d ∙ others j other,
)

Kept-set_channel :
    (start : Gba) (ch : ℕ) (gba : Gba) (dc : DmaChannel)
    → Kept start ch gba
    → dc.dest ≡ (gba.dma.channels ch).dest
    → Kept start ch (set_channel gba ch dc)
Kept-set_channel start ch gba dc (timers, dest, others) e =
    (timers, ground arith, λ j other. let rest = others j other in ground arith)

adjust_source-dest : (dc : DmaChannel) → (adjust_source dc 4).dest ≡ dc.dest
unfolding adjust_source
adjust_source-dest dc = ground arith

mask-dest : (dc : DmaChannel) (ch : ℕ) → dc.dest < 2 ^ 27 → (mask_addresses dc ch).dest ≡ dc.dest
unfolding mask_addresses
mask-dest dc ch h = ground arith

disable-Kept :
    (start : Gba) (ch : ℕ) (gba : Gba) → Kept start ch gba → Kept start ch (disable gba ch)
unfolding disable
disable-Kept start ch gba (timers, dest, others) =
    (timers, ground arith, λ j other. let rest = others j other in ground arith)

settle-Kept : (start : Gba) (ch : ℕ) (gba : Gba) → Kept start ch gba → Kept start ch (settle gba ch)
unfolding settle
settle-Kept start ch gba h =
    let dc = gba.dma.channels ch in
    either_case (Kept start ch) (dc.repeat && not (dc.timing == 0)) h (disable-Kept start ch gba h)

fire_irq-Kept :
    (start : Gba) (ch : ℕ) (gba : Gba) → Kept start ch gba → Kept start ch (fire_irq gba ch)
unfolding fire_irq
fire_irq-Kept start ch gba h = either_case (Kept start ch) (gba.dma.channels ch).irq_on_done h h

and_false : (b : Bool) → (b && false) ≡ false
and_false true = refl
and_false false = refl

reload-Kept :
    (start : Gba) (ch : ℕ) (gba : Gba) → Kept start ch gba → Kept start ch (reload_dest gba ch true)
unfolding reload_dest
reload-Kept start ch gba h =
    let e : ((gba.dma.channels ch).dest_adjust == 3 && not true) ≡ false =
      and_false ((gba.dma.channels ch).dest_adjust == 3) in
    rw e h

finish-Kept :
    (start : Gba) (ch : ℕ) (gba : Gba) → Kept start ch gba → Kept start ch (finish gba ch true)
unfolding finish
finish-Kept start ch gba h =
    let reloaded = reload_dest gba ch true in
    settle-Kept start ch (fire_irq reloaded ch)
      (fire_irq-Kept start ch reloaded (reload-Kept start ch gba h))

module _ (ctl : Gba → ℕ → ℕ → Gba) where
  write32-Steady :
      (gba : Gba) (addr val : ℕ) → IsFifo addr → Steady gba (bus_write32 ctl gba addr val)
  unfolding bus_write32 decode_region
  write32-Steady gba addr val (inl e) = rw e (refl, refl)
  write32-Steady gba addr val (inr e) = rw e (refl, refl)

  unit-Kept :
      (start : Gba) (ch : ℕ) (gba : Gba)
      → IsFifo (start.dma.channels ch).dest
      → Kept start ch gba
      → Kept start ch (transfer_unit ctl gba ch true true)
  unfolding transfer_unit adjust_source adjust_dest
  unit-Kept start ch gba target (timers, dest, others) =
      let r = bus_read32 gba (gba.dma.channels ch).source in
      let read = read32-Steady gba (gba.dma.channels ch).source in
      let to = (r.0.dma.channels ch).dest in
      let same : to ≡ (start.dma.channels ch).dest = ap (λ d. (d.channels ch).dest) read.1 ∙ dest in
      let moved = bus_write32 ctl r.0 to r.1 in
      let written = write32-Steady r.0 to r.1 (rw same target) in
      let h =
        Kept-Steady start ch gba moved (timers, dest, others)
          (Steady-trans gba r.0 moved read written) in
      Kept-set_channel start ch moved (adjust_source (moved.dma.channels ch) 4) h
        (adjust_source-dest (moved.dma.channels ch))

  transfer-Kept :
      (n : ℕ) (start : Gba) (ch : ℕ) (gba : Gba)
      → IsFifo (start.dma.channels ch).dest
      → Kept start ch gba
      → Kept start ch (transfer ctl n gba ch true true)
  unfolding transfer
  transfer-Kept zero start ch gba target h = h
  transfer-Kept (suc n) start ch gba target h =
      transfer-Kept n start ch (transfer_unit ctl gba ch true true) target
        (unit-Kept start ch gba target h)

  run-Kept :
      (gba : Gba) (ch n : ℕ) (is_fifo use_32 : Bool)
      → is_fifo ≡ true
      → use_32 ≡ true
      → IsFifo (gba.dma.channels ch).dest
      → Kept gba ch (run_transfer ctl gba ch n is_fifo use_32).0
  unfolding run_transfer activate
  run-Kept gba ch n is_fifo use_32 fifo wide target =
      let dc = gba.dma.channels ch in
      let masked =
        Kept-set_channel gba ch gba (mask_addresses dc ch) (refl, refl, λ j other. refl)
          (mask-dest dc ch (low dc.dest target)) in
      rw (fifo, wide)
        (finish-Kept gba ch (transfer ctl n (activate gba ch) ch true true)
          (transfer-Kept n gba ch (activate gba ch) target masked))

  -- A refill, at a FIFO
  pub execute-Kept :
      (gba : Gba) (ch : ℕ)
      → IsFifo (gba.dma.channels ch).dest
      → is_fifo_transfer (gba.dma.channels ch) ch ≡ true
      → Kept gba ch (dma_execute ctl gba ch).0
  unfolding dma_execute
  execute-Kept gba ch target fifo =
      let dc = gba.dma.channels ch in
      let wide : uses_32 dc ch ≡ true = unfold uses_32 in rw fifo refl in
      either_case (λ (r : Gba × ℕ). Kept gba ch r.0) (not dc.enabled) (refl, refl, λ j other. refl)
        (run-Kept gba ch (transfer_count dc ch) (is_fifo_transfer dc ch) (uses_32 dc ch) fifo wide
          target)
