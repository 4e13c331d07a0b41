-- ===== src/Bus/Io/Read.antt =====
-- `io_read8` of src/memory/bus.c, by groups of registers.
use gba_emulator.Base.{
  bit_and, bit_or, if◌then◌else◌, leb, ltb, test_bit, u8, ℕ, ◌%◌, ◌&&◌, ◌-◌, ◌/◌, ◌==◌, ◌^◌, ◌||◌,
}
use gba_emulator.System.State.{Gba}
use gba_emulator.Apu.State.{Apu}
use gba_emulator.Bus.Bytes.{byte_at}
use gba_emulator.Timer.{timer_read_counter}

-- DISPCNT, DISPSTAT, VCOUNT and the background controls
unfoldable pub read_display : Gba → ℕ → ℕ
read_display gba offset =
    if ltb offset 0x02
    then byte_at offset gba.ppu.dispcnt
    else if ltb offset 0x04
    then gba.bus.io_regs offset
    else if ltb offset 0x06
    then byte_at offset gba.ppu.dispstat
    else if ltb offset 0x08
    then byte_at offset gba.ppu.vcount
    else byte_at offset (gba.ppu.bg_cnt ((offset - 0x08) / 2))

-- 0x60 - 0x7F: what is readable of the channel registers, from the stored bytes
unfoldable pub read_channels : (ℕ → ℕ) → ℕ → ℕ
read_channels io_regs offset =
    let reg = io_regs offset in
    if offset == 0x60
    then u8 (bit_and reg 0x7f)
    else if offset == 0x62 || offset == 0x68
    then bit_and reg 0xc0
    else if offset == 0x63 || offset == 0x69 || offset == 0x79 || offset == 0x7c
    then reg
    else if offset == 0x65 || offset == 0x6d || offset == 0x75 || offset == 0x7d
    then bit_and reg 0x40
    else if offset == 0x70 || offset == 0x73
    then bit_and reg 0xe0
    else 0

-- SOUNDCNT_X: the master enable and the channels that play
unfoldable pub read_status : Apu → ℕ
read_status apu =
    let status = if test_bit apu.soundcnt_x 7 then 0x80 else 0x00 in
    let status1 = if apu.ch1.enabled then bit_or status 0x01 else status in
    let status2 = if apu.ch2.enabled then bit_or status1 0x02 else status1 in
    let status3 = if apu.ch3.enabled then bit_or status2 0x04 else status2 in
    if apu.ch4.enabled then bit_or status3 0x08 else status3

-- 0x80 - 0x8F
unfoldable pub read_sound_control : Apu → ℕ → ℕ
unfolding read_status
read_sound_control apu offset =
    if ltb offset 0x82
    then byte_at offset apu.soundcnt_l
    else if offset == 0x82
    then u8 (bit_and apu.soundcnt_h 0x0f)
    else if offset == 0x83
    then u8 (bit_and (apu.soundcnt_h / 2 ^ 8) 0x77)
    else if offset == 0x84
    then read_status apu
    else if offset == 0x88 || offset == 0x89
    then byte_at offset apu.soundbias
    else 0

-- 0x200 - 0x209
unfoldable pub read_interrupts : Gba → ℕ → ℕ
read_interrupts gba offset =
    if ltb offset 0x202
    then byte_at offset gba.interrupts.ie
    else if ltb offset 0x204
    then byte_at offset gba.interrupts.irf
    else if offset == 0x208
    then if gba.interrupts.ime then 1 else 0
    else if offset == 0x209
    then 0
    else gba.bus.io_regs offset

-- 0x100 - 0x10F
unfoldable pub read_timers : Gba → ℕ → ℕ
read_timers gba offset =
    if ltb (offset % 4) 2
    then byte_at offset (timer_read_counter (gba.timers ((offset - 0x100) / 4)))
    else byte_at offset (gba.timers ((offset - 0x102) / 4)).control

unfoldable pub io_read8 : Gba → ℕ → ℕ
io_read8 gba addr =
    let offset = addr % 2 ^ 10 in
    if ltb offset 0x10
    then read_display gba offset
    else if leb 0x60 offset && ltb offset 0x80
    then read_channels gba.bus.io_regs offset
    else if leb 0x80 offset && ltb offset 0x90
    then read_sound_control gba.apu offset
    else if leb 0x90 offset && ltb offset 0xa0
    then gba.apu.ch3.wave_ram (offset - 0x90)
    else if leb 0xa0 offset && ltb offset 0xa8
    then 0
    else if leb 0x100 offset && ltb offset 0x110
    then read_timers gba offset
    else if leb 0x130 offset && ltb offset 0x132
    then byte_at offset gba.input.keyinput
    else if leb 0x132 offset && ltb offset 0x134
    then byte_at offset gba.input.keycnt
    else if leb 0x200 offset && ltb offset 0x20a
    then read_interrupts gba offset
    else gba.bus.io_regs offset
