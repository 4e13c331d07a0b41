-- ===== src/Bus/Io/Registers/Fit.antt =====
-- The widths of the registers that a program reads back.
use gba_emulator.Base.{ℕ, ◌<◌, ◌^◌}
use gba_emulator.System.State.{Gba}

-- The 16-bit registers are 16 bits wide.
pub record RegistersFit (gba : Gba) : Type 0 where
  pub dispcnt_fits : gba.ppu.dispcnt < 2 ^ 16
  pub bg_cnt_fits : (i : ℕ) → gba.ppu.bg_cnt i < 2 ^ 16
  pub soundcnt_l_fits : gba.apu.soundcnt_l < 2 ^ 16
  pub soundbias_fits : gba.apu.soundbias < 2 ^ 16
  pub keycnt_fits : gba.input.keycnt < 2 ^ 16
  pub ie_fits : gba.interrupts.ie < 2 ^ 16
