-- ===== src/Dma.antt =====
-- The DMA controller: src/memory/dma.c. The X-Ray notification (a build option) is left out.
--
-- A transfer writes to the bus, and a write to the bus may reach the control register of a channel
-- and start a transfer. `dma_write_control` therefore takes itself as a parameter, for the calls
-- that its own writes make; `dma_write_control_to` bounds the depth of such calls.
pub mod State
pub mod Copy
pub mod Steady
mod Tests
use gba_emulator.Base.{
  Bool, bit_and, false, if◌then◌else◌, ltb, none, not, some, sub32, suc, test_bit, true, u32,
  update, zero, ℕ, ◌%◌, ◌&&◌, ◌*◌, ◌+◌, ◌/◌, ◌==◌, ◌^◌, ◌||◌,
}
use gba_emulator.System.State.{Gba, set_channel}
use gba_emulator.Dma.State.{DmaChannel, DmaController}
use gba_emulator.Interrupt.{interrupt_request}
use gba_emulator.Bus.Memory.{bus_read16, bus_read32, bus_write16, bus_write32}

-- The settings that `dma_execute` reads once, before the loop
unfoldable pub is_fifo_transfer : DmaChannel → ℕ → Bool
is_fifo_transfer dc ch = dc.timing == 3 && (ch == 1 || ch == 2)

unfoldable pub transfer_count : DmaChannel → ℕ → ℕ
unfolding is_fifo_transfer
transfer_count dc ch =
    if is_fifo_transfer dc ch
    then 4
    else if dc.count == 0
    then if ch == 3 then 0x10000 else 0x4000
    else dc.count

unfoldable pub uses_32 : DmaChannel → ℕ → Bool
unfolding is_fifo_transfer
uses_32 dc ch = if is_fifo_transfer dc ch then true else dc.transfer_32

-- "Address masking per GBATEK"
unfoldable pub mask_addresses : DmaChannel → ℕ → DmaChannel
mask_addresses dc ch = record dc {
  source = if ch == 0 then dc.source % 2 ^ 27 else dc.source % 2 ^ 28;
  dest = if ch == 3 then dc.dest % 2 ^ 28 else dc.dest % 2 ^ 27;
}

unfoldable pub adjust_source : DmaChannel → ℕ → DmaChannel
adjust_source dc step =
    if dc.src_adjust == 0
    then record dc { source = u32 (dc.source + step) }
    else if dc.src_adjust == 1
    then record dc { source = sub32 dc.source step }
    else dc

unfoldable pub adjust_dest : DmaChannel → Bool → ℕ → DmaChannel
adjust_dest dc is_fifo step =
    if is_fifo
    then dc
    else if dc.dest_adjust == 0 || dc.dest_adjust == 3
    then record dc { dest = u32 (dc.dest + step) }
    else if dc.dest_adjust == 1
    then record dc { dest = sub32 dc.dest step }
    else dc

-- The decoded control fields
unfoldable pub decode_control : DmaChannel → ℕ → DmaChannel
decode_control dc val = record dc {
  control = val;
  dest_adjust = val / 2 ^ 5 % 4;
  src_adjust = val / 2 ^ 7 % 4;
  repeat = test_bit val 9;
  transfer_32 = test_bit val 10;
  timing = val / 2 ^ 12 % 4;
  irq_on_done = test_bit val 14;
  enabled = test_bit val 15;
}

-- The high byte of CNT_H in the stored registers
unfoldable pub cnt_h_hi : ℕ → ℕ
cnt_h_hi ch = if ch == 0 then 0xbb else if ch == 1 then 0xc7 else if ch == 2 then 0xd3 else 0xdf

unfoldable pub disable : Gba → ℕ → Gba
unfolding cnt_h_hi
disable gba ch =
    let dc = gba.dma.channels ch in
    let off : DmaChannel = record dc { enabled = false; control = bit_and dc.control 0x7fff } in
    let io_regs = gba.bus.io_regs in
    let cleared = set_channel gba ch off in
    record cleared {
      bus = record gba.bus {
        io_regs = update io_regs (cnt_h_hi ch) (bit_and (io_regs (cnt_h_hi ch)) 0x7f);
      };
    }

-- "destination reload for mode 3"
unfoldable pub reload_dest : Gba → ℕ → Bool → Gba
reload_dest gba ch is_fifo =
    let dc = gba.dma.channels ch in
    if dc.dest_adjust == 3 && not is_fifo
    then set_channel gba ch (record dc { dest = dc.dest_latch })
    else gba

-- "Fire IRQ if requested"
unfoldable pub fire_irq : Gba → ℕ → Gba
fire_irq gba ch =
    if (gba.dma.channels ch).irq_on_done
    then record gba { interrupts = interrupt_request gba.interrupts (2 ^ (8 + ch)) }
    else gba

-- "Repeat or disable"
unfoldable pub settle : Gba → ℕ → Gba
unfolding disable
settle gba ch =
    let dc = gba.dma.channels ch in
    if dc.repeat && not (dc.timing == 0) then gba else disable gba ch

-- What follows the loop
unfoldable pub finish : Gba → ℕ → Bool → Gba
unfolding reload_dest fire_irq settle
finish gba ch is_fifo =
    let kept = settle (fire_irq (reload_dest gba ch is_fifo) ch) ch in
    record kept { dma = record kept.dma { active_channel = none } }

unfoldable pub activate : Gba → ℕ → Gba
unfolding mask_addresses
activate gba ch =
    let masked = set_channel gba ch (mask_addresses (gba.dma.channels ch) ch) in
    record masked { dma = record masked.dma { active_channel = some ch } }

module _ (nested : Gba → ℕ → ℕ → Gba) where
  -- One round of the loop; each round reads the channel again.
  unfoldable pub transfer_unit : Gba → ℕ → Bool → Bool → Gba
  unfolding adjust_source adjust_dest
  transfer_unit gba ch is_fifo use_32 =
      let step = if use_32 then 4 else 2 in
      let (read, val) =
        if use_32
        then bus_read32 gba (gba.dma.channels ch).source
        else bus_read16 gba (gba.dma.channels ch).source in
      let dest = (read.dma.channels ch).dest in
      let moved =
        if use_32 then bus_write32 nested read dest val else bus_write16 nested read dest val in
      set_channel moved ch (adjust_dest (adjust_source (moved.dma.channels ch) step) is_fifo step)

  unfoldable pub transfer : ℕ → Gba → ℕ → Bool → Bool → Gba
  unfolding transfer_unit
  transfer zero gba ch is_fifo use_32 = gba
  transfer (suc left) gba ch is_fifo use_32 =
      transfer left (transfer_unit gba ch is_fifo use_32) ch is_fifo use_32

  -- The transfer with its settings, once the channel is known to be enabled
  unfoldable pub run_transfer : Gba → ℕ → ℕ → Bool → Bool → Gba × ℕ
  unfolding activate transfer finish
  run_transfer gba ch count is_fifo use_32 =
      (finish (transfer count (activate gba ch) ch is_fifo use_32) ch is_fifo, count * 2)

  -- The machine after the transfer, and its cost in cycles.
  unfoldable pub dma_execute : Gba → ℕ → Gba × ℕ
  unfolding is_fifo_transfer uses_32 transfer_count run_transfer
  dma_execute gba ch =
      let dc = gba.dma.channels ch in
      let executed =
        run_transfer gba ch (transfer_count dc ch) (is_fifo_transfer dc ch) (uses_32 dc ch) in
      if not dc.enabled then (gba, 0) else executed

  unfoldable pub dma_write_control : Gba → ℕ → ℕ → Gba
  unfolding decode_control
  dma_write_control gba ch val =
      let dc = gba.dma.channels ch in
      let decoded = decode_control dc val in
      let latched : DmaChannel = record decoded {
        source = decoded.source_latch;
        dest = decoded.dest_latch;
      } in
      let started = set_channel gba ch latched in
      let (executed, cost) = dma_execute started ch in
      if not dc.enabled && decoded.enabled
      then if decoded.timing == 0 then executed else started
      else set_channel gba ch decoded

  -- `dma_on_vblank` and `dma_on_hblank`: the channels in order, each with the state that the ones
  -- before it leave.
  unfoldable pub trigger : ℕ → Gba → ℕ → Gba
  trigger timing gba ch =
      let (executed, cost) = dma_execute gba ch in
      if (gba.dma.channels ch).enabled && (gba.dma.channels ch).timing == timing
      then executed
      else gba

  unfoldable pub dma_on_vblank : Gba → Gba
  unfolding trigger
  dma_on_vblank gba = trigger 1 (trigger 1 (trigger 1 (trigger 1 gba 0) 1) 2) 3

  unfoldable pub dma_on_hblank : Gba → Gba
  unfolding trigger
  dma_on_hblank gba = trigger 2 (trigger 2 (trigger 2 (trigger 2 gba 0) 1) 2) 3

  unfoldable pub dma_on_fifo : Gba → ℕ → Gba
  unfolding trigger
  dma_on_fifo gba fifo_id = let ch = fifo_id + 1 in if ltb ch 4 then trigger 3 gba ch else gba

-- `dma_write_control` with calls of itself nested up to the given depth; a deeper call is dropped.
unfoldable pub dma_write_control_to : ℕ → Gba → ℕ → ℕ → Gba
dma_write_control_to zero gba ch val = gba
dma_write_control_to (suc depth) gba ch val =
    dma_write_control (dma_write_control_to depth) gba ch val
