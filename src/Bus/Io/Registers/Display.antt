-- ===== src/Bus/Io/Registers/Display.antt =====
-- DISPCNT and the controls of the backgrounds: the machine after a write, and what a read gives.
use gba_emulator.Base.{arith, ℕ, ◌-◌, ◌/◌, ◌<◌, ◌^◌, ◌≡◌, ◌≤◌}
use gba_emulator.System.State.{Gba, store}
use gba_emulator.Bus.Bytes.{byte_at, put_byte, byte_at-put_byte}
use gba_emulator.Bus.Io.Read.{read_display, io_read8}
use gba_emulator.Bus.Io.Display.{put_at, write_ppu, write_display}
use gba_emulator.Bus.Io.Registers.Fit.{RegistersFit}

dispcnt_write :
    (gba : Gba) (a val : ℕ)
    → a < 0x02
    → write_display gba a val ≡ record (store gba a val) {
      ppu = record gba.ppu { dispcnt = put_byte a gba.ppu.dispcnt val };
    }
unfolding write_display write_ppu
dispcnt_write gba a val high = ground arith

dispcnt_read : (gba : Gba) (a : ℕ) → a < 0x02 → io_read8 gba a ≡ byte_at a gba.ppu.dispcnt
unfolding io_read8 read_display
dispcnt_read gba a high = ground arith

pub dispcnt_lem :
    (gba : Gba) (a val : ℕ)
    → RegistersFit gba
    → val < 2 ^ 8
    → a < 0x02
    → io_read8 (write_display gba a val) a ≡ val
dispcnt_lem gba a val fit small high =
    rw
      (
        dispcnt_write gba a val high,
        dispcnt_read
            (record (store gba a val) {
              ppu = record gba.ppu { dispcnt = put_byte a gba.ppu.dispcnt val };
            })
            a high,
      )
      (ground (arith, byte_at-put_byte a a gba.ppu.dispcnt val fit.dispcnt_fits small))

bg_cnt_write :
    (gba : Gba) (a val : ℕ)
    → 0x08 ≤ a
    → a < 0x10
    → write_display gba a val ≡ record (store gba a val) {
      ppu = record gba.ppu { bg_cnt = put_at gba.ppu.bg_cnt ((a - 8) / 2) a val };
    }
unfolding write_display write_ppu
bg_cnt_write gba a val low high = ground arith

bg_cnt_read :
    (gba : Gba) (a : ℕ)
    → 0x08 ≤ a
    → a < 0x10
    → io_read8 gba a ≡ byte_at a (gba.ppu.bg_cnt ((a - 8) / 2))
unfolding io_read8 read_display
bg_cnt_read gba a low high = ground arith

pub bg_cnt_lem :
    (gba : Gba) (a val : ℕ)
    → RegistersFit gba
    → val < 2 ^ 8
    → 0x08 ≤ a
    → a < 0x10
    → io_read8 (write_display gba a val) a ≡ val
bg_cnt_lem gba a val fit small low high =
    rw
      (
        bg_cnt_write gba a val low high,
        bg_cnt_read
            (record (store gba a val) {
              ppu = record gba.ppu { bg_cnt = put_at gba.ppu.bg_cnt ((a - 8) / 2) a val };
            })
            a low high,
      )
      (ground (
        arith,
        byte_at-put_byte a a (gba.ppu.bg_cnt ((a - 8) / 2)) val (fit.bg_cnt_fits ((a - 8) / 2))
            small,
      ))
