-- ===== src/Bus/Io/Ignored.antt =====
-- The writes that `io_write8` drops.
use gba_emulator.Base.{Bool, if◌then◌else◌, leb, ltb, not, test_bit, true, ℕ, ◌&&◌, ◌==◌, ◌||◌}
use gba_emulator.System.State.{Gba}
use gba_emulator.Bus.Io.Sound.{unused_sound}

-- VCOUNT, KEYINPUT, the offsets of the sound unit without a register, and with the master sound
-- enable off the registers of the four channels.
unfoldable pub is_dropped : Gba → ℕ → Bool
is_dropped gba offset =
    if offset == 0x06 || offset == 0x07 || offset == 0x130 || offset == 0x131
    then true
    else if leb 0x60 offset && ltb offset 0x80
    then unused_sound offset || not (test_bit gba.apu.soundcnt_x 7)
    else leb 0x85 offset && ltb offset 0x88 || leb 0x8a offset && ltb offset 0x90
