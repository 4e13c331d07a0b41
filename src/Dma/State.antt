-- ===== src/Dma/State.antt =====
-- The data of src/memory/dma.h.
use gba_emulator.Base.{Bool, Option, false, fill, none, ℕ}

pub record DmaChannel : Type 0 where
  pub source : ℕ
  pub dest : ℕ
  pub source_latch : ℕ
  pub dest_latch : ℕ
  pub count : ℕ
  pub control : ℕ
  pub dest_adjust : ℕ
  pub src_adjust : ℕ
  pub repeat : Bool
  pub transfer_32 : Bool
  pub timing : ℕ
  pub irq_on_done : Bool
  pub enabled : Bool

-- `none` is the -1 of `active_channel`.
pub record DmaController : Type 0 where
  pub channels : ℕ → DmaChannel
  pub active_channel : Option ℕ

-- A channel as `memset` leaves it.
abbrev pub channel_off : DmaChannel
channel_off = record {
  source = 0;
  dest = 0;
  source_latch = 0;
  dest_latch = 0;
  count = 0;
  control = 0;
  dest_adjust = 0;
  src_adjust = 0;
  repeat = false;
  transfer_32 = false;
  timing = 0;
  irq_on_done = false;
  enabled = false;
}

unfoldable pub dma_init : DmaController → DmaController
dma_init dma = record { channels = fill dma.channels 0 4 channel_off; active_channel = none }
