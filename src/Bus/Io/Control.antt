-- ===== src/Bus/Io/Control.antt =====
-- The writes of `io_write8` to timers, DMA channels, the keypad, the interrupt controller and
-- HALTCNT, and `io_write8` itself.
use gba_emulator.Base.{
  if◌then◌else◌, leb, ltb, not, true, update, ℕ, ◌%◌, ◌&&◌, ◌*◌, ◌+◌, ◌-◌, ◌/◌, ◌==◌, ◌^◌, ◌||◌,
}
use gba_emulator.System.State.{Gba, set_cpu, set_channel, store}
use gba_emulator.Dma.State.{DmaChannel}
use gba_emulator.Timer.{timer_write_reload, timer_write_control}
use gba_emulator.Interrupt.{interrupt_acknowledge}
use gba_emulator.Bus.Bytes.{put_byte, join2, half_at, word_at}
use gba_emulator.Bus.Io.Display.{write_display}
use gba_emulator.Bus.Io.Sound.{write_sound}

-- 0x200 - 0x209
unfoldable pub write_interrupts : Gba → ℕ → ℕ → Gba
unfolding put_byte
write_interrupts gba offset val =
    let ic = gba.interrupts in
    let stored = store gba offset val in
    if ltb offset 0x202
    then record stored { interrupts = record ic { ie = put_byte offset ic.ie val } }
    else if offset == 0x202
    then record gba { interrupts = interrupt_acknowledge ic val }
    else if offset == 0x203
    then record gba { interrupts = interrupt_acknowledge ic (val * 2 ^ 8) }
    else if offset == 0x208
    then record (store gba offset (val % 2)) { interrupts = record ic { ime = val % 2 == 1 } }
    else if offset == 0x209
    then store gba offset 0
    else stored

-- 0x100 - 0x10F: the high byte of a register completes it.
unfoldable pub write_timers : Gba → ℕ → ℕ → Gba
write_timers gba offset val =
    let stored = store gba offset val in
    let lo_offset = offset / 2 * 2 in
    let written = half_at stored.bus.io_regs lo_offset in
    let reload_idx = (lo_offset - 0x100) / 4 in
    let control_idx = (lo_offset - 0x102) / 4 in
    let timers = gba.timers in
    if not (offset % 2 == 1)
    then stored
    else if ltb (offset % 4) 2
    then record stored {
      timers = update timers reload_idx (timer_write_reload (timers reload_idx) written);
    }
    else record stored {
      timers = update timers control_idx (timer_write_control (timers control_idx) written);
    }

-- The channel whose CNT_H ends at this offset
unfoldable pub channel_at : ℕ → ℕ
channel_at offset =
    if offset == 0xbb then 0 else if offset == 0xc7 then 1 else if offset == 0xd3 then 2 else 3

unfoldable pub channel_base : ℕ → ℕ
channel_base ch = if ch == 0 then 0xb0 else if ch == 1 then 0xbc else if ch == 2 then 0xc8 else 0xd4

-- "Latch SAD, DAD, and count from io_regs before writing control"
unfoldable pub latch_channel : Gba → ℕ → Gba
unfolding channel_base
latch_channel gba ch =
    let base = channel_base ch in
    let io_regs = gba.bus.io_regs in
    let dc = gba.dma.channels ch in
    let latched : DmaChannel = record dc {
      source_latch = word_at io_regs base;
      dest_latch = word_at io_regs (base + 4);
      count = half_at io_regs (base + 8);
    } in
    set_channel gba ch latched

-- HALTCNT
unfoldable pub write_halt : Gba → ℕ → ℕ → Gba
write_halt gba offset val = set_cpu (store gba offset val) (record gba.cpu { halted = true })

-- KEYCNT is writable, KEYINPUT is not.
unfoldable pub write_keys : Gba → ℕ → ℕ → Gba
unfolding put_byte
write_keys gba offset val = if ltb offset 0x132 then gba else record (store gba offset val) {
  input = record gba.input { keycnt = put_byte offset gba.input.keycnt val };
}

module _ (dma_write_control : Gba → ℕ → ℕ → Gba) where
  -- CNT_H, high byte
  unfoldable pub write_dma : Gba → ℕ → ℕ → Gba
  unfolding channel_at latch_channel
  write_dma gba offset val =
      let stored = store gba offset val in
      let control = join2 (stored.bus.io_regs (offset - 1)) val in
      let ch = channel_at offset in dma_write_control (latch_channel stored ch) ch control

  unfoldable pub io_write8 : Gba → ℕ → ℕ → Gba
  unfolding write_display write_sound write_dma write_timers write_keys write_interrupts write_halt
  io_write8 gba addr val =
      let offset = addr % 2 ^ 10 in
      if ltb offset 0x60
      then write_display gba offset val
      else if ltb offset 0xa8
      then write_sound gba offset val
      else if offset == 0xbb || offset == 0xc7 || offset == 0xd3 || offset == 0xdf
      then write_dma gba offset val
      else if leb 0x100 offset && ltb offset 0x110
      then write_timers gba offset val
      else if leb 0x130 offset && ltb offset 0x134
      then write_keys gba offset val
      else if leb 0x200 offset && ltb offset 0x20a
      then write_interrupts gba offset val
      else if offset == 0x301
      then write_halt gba offset val
      else store gba offset val
