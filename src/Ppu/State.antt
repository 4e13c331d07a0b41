-- ===== src/Ppu/State.antt =====
-- `struct PPU` of src/ppu/ppu.h. Arrays are functions of the index; an `int16_t` or `int32_t`
-- field is its bit pattern.
use gba_emulator.Base.{ℕ}

pub record Ppu : Type 0 where
  pub dispcnt : ℕ
  pub dispstat : ℕ
  pub vcount : ℕ
  pub bg_cnt : ℕ → ℕ
  pub bg_hofs : ℕ → ℕ
  pub bg_vofs : ℕ → ℕ
  pub bg_pa : ℕ → ℕ
  pub bg_pb : ℕ → ℕ
  pub bg_pc : ℕ → ℕ
  pub bg_pd : ℕ → ℕ
  pub bg_ref_x : ℕ → ℕ
  pub bg_ref_y : ℕ → ℕ
  pub bg_ref_x_latch : ℕ → ℕ
  pub bg_ref_y_latch : ℕ → ℕ
  pub win_h : ℕ → ℕ
  pub win_v : ℕ → ℕ
  pub winin : ℕ
  pub winout : ℕ
  pub bldcnt : ℕ
  pub bldalpha : ℕ
  pub bldy : ℕ
  pub mosaic : ℕ
  pub framebuffer : ℕ → ℕ
  pub scanline_buffer : ℕ → ℕ
  pub top_layer : ℕ → ℕ
  pub second_pixel : ℕ → ℕ
  pub second_layer : ℕ → ℕ
  pub cycle_counter : ℕ
