-- ===== src/Dma/Steady.antt =====
-- A DMA transfer leaves the count of executed cycles, to any depth of nested transfers.
use gba_emulator.Base.{
  Bool, ap, arith, either_branch, either_case, false, true, if◌then◌else◌, not, refl, suc, zero, ℕ,
  ◌&&◌, ◌==◌, ◌∙◌, ◌≡◌,
}
use gba_emulator.System.State.{Gba, set_channel}
use gba_emulator.Dma.State.{DmaChannel}
use gba_emulator.Dma.{
  decode_control, disable, reload_dest, fire_irq, settle, finish, activate, transfer_unit, transfer,
  run_transfer, is_fifo_transfer, uses_32, transfer_count, dma_execute, dma_write_control,
  dma_write_control_to,
}
use gba_emulator.Bus.Memory.{bus_read16, bus_read32, bus_write16, bus_write32}
use gba_emulator.Bus.Steady.{
  executed, KeepsCount, read16-cpu, read32-cpu, write16_executed, write32_executed,
}

executed-finish :
    (gba : Gba) (ch : ℕ) (is_fifo : Bool) → executed (finish gba ch is_fifo) ≡ executed gba
unfolding executed finish settle fire_irq reload_dest disable
executed-finish gba ch is_fifo = ground arith

of_cpu : (a b : Gba) → a.cpu ≡ b.cpu → executed a ≡ executed b
unfolding executed
of_cpu a b e = ap (λ c. c.cycles_executed) e

executed-set_channel :
    (gba : Gba) (ch : ℕ) (dc : DmaChannel) → executed (set_channel gba ch dc) ≡ executed gba
unfolding executed
executed-set_channel gba ch dc = refl

executed-activate : (gba : Gba) (ch : ℕ) → executed (activate gba ch) ≡ executed gba
unfolding executed activate
executed-activate gba ch = refl

module _ (ctl : Gba → ℕ → ℕ → Gba) (keeps : KeepsCount ctl) where
  unit_executed :
      (gba : Gba) (ch : ℕ) (is_fifo use_32 : Bool)
      → executed (transfer_unit ctl gba ch is_fifo use_32) ≡ executed gba
  unfolding transfer_unit
  unit_executed gba ch is_fifo true =
      let (read, val) = bus_read32 gba (gba.dma.channels ch).source in
      let same = of_cpu read gba (read32-cpu gba (gba.dma.channels ch).source) in
      executed-set_channel (bus_write32 ctl read (read.dma.channels ch).dest val) ch _
      ∙ write32_executed ctl keeps read (read.dma.channels ch).dest val
      ∙ same
  unit_executed gba ch is_fifo false =
      let (read, val) = bus_read16 gba (gba.dma.channels ch).source in
      let same = of_cpu read gba (read16-cpu gba (gba.dma.channels ch).source) in
      executed-set_channel (bus_write16 ctl read (read.dma.channels ch).dest val) ch _
      ∙ write16_executed ctl keeps read (read.dma.channels ch).dest val
      ∙ same

  executed-transfer :
      (left : ℕ) (gba : Gba) (ch : ℕ) (is_fifo use_32 : Bool)
      → executed (transfer ctl left gba ch is_fifo use_32) ≡ executed gba
  unfolding transfer
  executed-transfer zero gba ch is_fifo use_32 = refl
  executed-transfer (suc left) gba ch is_fifo use_32 =
      executed-transfer left (transfer_unit ctl gba ch is_fifo use_32) ch is_fifo use_32
      ∙ unit_executed gba ch is_fifo use_32

  run_executed :
      (gba : Gba) (ch count : ℕ) (is_fifo use_32 : Bool)
      → executed (run_transfer ctl gba ch count is_fifo use_32).0 ≡ executed gba
  unfolding run_transfer
  run_executed gba ch count is_fifo use_32 =
      executed-finish (transfer ctl count (activate gba ch) ch is_fifo use_32) ch is_fifo
      ∙ executed-transfer count (activate gba ch) ch is_fifo use_32
      ∙ executed-activate gba ch

  execute_executed : (gba : Gba) (ch : ℕ) → executed (dma_execute ctl gba ch).0 ≡ executed gba
  unfolding dma_execute
  execute_executed gba ch =
      let dc = gba.dma.channels ch in
      either_case (λ (out : Gba × ℕ). executed out.0 ≡ executed gba) (not dc.enabled) {x = (gba, 0)}
        refl (run_executed gba ch (transfer_count dc ch) (is_fifo_transfer dc ch) (uses_32 dc ch))

  control-KeepsCount : KeepsCount (dma_write_control ctl)
  unfolding dma_write_control
  control-KeepsCount gba ch val =
      let dc = gba.dma.channels ch in
      let decoded = decode_control dc val in
      let latched : DmaChannel = record decoded {
        source = decoded.source_latch;
        dest = decoded.dest_latch;
      } in
      let started = set_channel gba ch latched in
      let start = executed-set_channel gba ch latched in
      either_branch executed (not dc.enabled && decoded.enabled)
        {x = if decoded.timing == 0 then (dma_execute ctl started ch).0 else started}
        {y = set_channel gba ch decoded}
        (either_branch executed (decoded.timing == 0) (execute_executed started ch ∙ start) start)
        (executed-set_channel gba ch decoded)

pub depth-KeepsCount : (depth : ℕ) → KeepsCount (dma_write_control_to depth)
unfolding dma_write_control_to
depth-KeepsCount zero gba ch val = refl
depth-KeepsCount (suc depth) gba ch val =
    control-KeepsCount (dma_write_control_to depth) (depth-KeepsCount depth) gba ch val
