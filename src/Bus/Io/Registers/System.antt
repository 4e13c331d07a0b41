-- ===== src/Bus/Io/Registers/System.antt =====
-- KEYCNT, IE and WAITCNT: the machine after a write, and what a read gives.
use gba_emulator.Base.{arith, ℕ, ◌<◌, ◌^◌, ◌∙◌, ◌≡◌, ◌≤◌}
use gba_emulator.System.State.{Gba, store}
use gba_emulator.Bus.Bytes.{byte_at, put_byte, byte_at-put_byte}
use gba_emulator.Bus.Io.Read.{read_interrupts, io_read8}
use gba_emulator.Bus.Io.Control.{write_interrupts, write_keys}
use gba_emulator.Bus.Io.Registers.Fit.{RegistersFit}

keycnt_write :
    (gba : Gba) (a val : ℕ)
    → 0x132 ≤ a
    → a < 0x134
    → write_keys gba a val ≡ record (store gba a val) {
      input = record gba.input { keycnt = put_byte a gba.input.keycnt val };
    }
unfolding write_keys
keycnt_write gba a val low high = ground arith

keycnt_read :
    (gba : Gba) (a : ℕ) → 0x132 ≤ a → a < 0x134 → io_read8 gba a ≡ byte_at a gba.input.keycnt
unfolding io_read8
keycnt_read gba a low high = ground arith

pub keycnt_lem :
    (gba : Gba) (a val : ℕ)
    → RegistersFit gba
    → val < 2 ^ 8
    → 0x132 ≤ a
    → a < 0x134
    → io_read8 (write_keys gba a val) a ≡ val
keycnt_lem gba a val fit small low high =
    rw
      (
        keycnt_write gba a val low high,
        keycnt_read
            (record (store gba a val) {
              input = record gba.input { keycnt = put_byte a gba.input.keycnt val };
            })
            a low high,
      )
      (ground (arith, byte_at-put_byte a a gba.input.keycnt val fit.keycnt_fits small))

interrupts_read :
    (gba : Gba) (a : ℕ) → 0x200 ≤ a → a < 0x20a → io_read8 gba a ≡ read_interrupts gba a
unfolding io_read8
interrupts_read gba a low high = ground arith

ie_write :
    (gba : Gba) (a val : ℕ)
    → 0x200 ≤ a
    → a < 0x202
    → write_interrupts gba a val ≡ record (store gba a val) {
      interrupts = record gba.interrupts { ie = put_byte a gba.interrupts.ie val };
    }
unfolding write_interrupts
ie_write gba a val low high = ground arith

ie_read : (gba : Gba) (a : ℕ) → 0x200 ≤ a → a < 0x202 → io_read8 gba a ≡ byte_at a gba.interrupts.ie
unfolding read_interrupts
ie_read gba a low high = interrupts_read gba a low (omega arith) ∙ ground arith

pub ie_lem :
    (gba : Gba) (a val : ℕ)
    → RegistersFit gba
    → val < 2 ^ 8
    → 0x200 ≤ a
    → a < 0x202
    → io_read8 (write_interrupts gba a val) a ≡ val
ie_lem gba a val fit small low high =
    rw
      (
        ie_write gba a val low high,
        ie_read
            (record (store gba a val) {
              interrupts = record gba.interrupts { ie = put_byte a gba.interrupts.ie val };
            })
            a low high,
      )
      (ground (arith, byte_at-put_byte a a gba.interrupts.ie val fit.ie_fits small))

waitcnt_write :
    (gba : Gba) (a val : ℕ) → 0x204 ≤ a → a < 0x206 → write_interrupts gba a val ≡ store gba a val
unfolding write_interrupts
waitcnt_write gba a val low high = ground arith

waitcnt_read : (gba : Gba) (a : ℕ) → 0x204 ≤ a → a < 0x206 → io_read8 gba a ≡ gba.bus.io_regs a
unfolding io_read8 read_interrupts
waitcnt_read gba a low high = ground arith

pub waitcnt_lem :
    (gba : Gba) (a val : ℕ)
    → RegistersFit gba
    → val < 2 ^ 8
    → 0x204 ≤ a
    → a < 0x206
    → io_read8 (write_interrupts gba a val) a ≡ val
waitcnt_lem gba a val fit small low high =
    rw (waitcnt_write gba a val low high, waitcnt_read (store gba a val) a low high) (ground arith)
