-- ===== src/Dma/Tests.antt =====
-- The theorems on the DMA controller at concrete states.
use gba_emulator.Base.{arith, copy, false, if◌then◌else◌, none, refl, true, ℕ, ◌%◌, ◌==◌, ◌≡◌}
use gba_emulator.System.State.{Gba}
use gba_emulator.System.Rest.{at_rest, rest_bus, rest_dma}
use gba_emulator.Dma.State.{DmaChannel, channel_off}
use gba_emulator.Bus.Memory.{decode_region, vram_offset}
use gba_emulator.Bus.Ram.{in_ram, memory, offset_in, memory_size}
use gba_emulator.Dma.{is_fifo_transfer, transfer_count, dma_execute, dma_write_control_to}
use gba_emulator.Dma.Copy.{dma_execute-copy}
use gba_emulator.Dma.Copy.Blocks.{Span}

-- Two words from EWRAM to VRAM.
abbrev channel : DmaChannel
channel = record channel_off {
  source = 0x02000008;
  dest = 0x06000010;
  count = 2;
  transfer_32 = true;
  enabled = true;
}

abbrev machine : Gba
machine = record at_rest {
  bus = record rest_bus { ewram = λ o. o % 256 };
  dma = record rest_dma { channels = λ _. channel };
}

abbrev nested : Gba → ℕ → ℕ → Gba
nested = dma_write_control_to 1

source_Span : Span 0x02000008 2 2
unfolding in_ram decode_region offset_in memory_size
source_Span = record {
  ram = refl;
  region_is = refl;
  aligned = refl;
  below = omega arith;
  in_region = omega arith;
  in_memory = omega arith;
}

dest_Span : Span 0x06000010 6 2
unfolding in_ram decode_region offset_in memory_size vram_offset
dest_Span = record {
  ram = refl;
  region_is = refl;
  aligned = refl;
  below = omega arith;
  in_region = omega arith;
  in_memory = omega arith;
}

dma_execute-copy_example :
    ((r o : ℕ)
      → in_ram r ≡ true
      → memory (dma_execute nested machine 0).0 r o
        ≡ (if r == 6 then copy (λ _. 0) 0x10 (λ o. o % 256) 8 8 o else memory machine r o))
    × ((dma_execute nested machine 0).1 ≡ 4)
    × ((dma_execute nested machine 0).0.dma.active_channel ≡ none)
    × (((dma_execute nested machine 0).0.dma.channels 0).enabled ≡ false)
unfolding memory offset_in vram_offset
dma_execute-copy_example =
    dma_execute-copy nested 0 machine 1 2 6 refl (unfold transfer_count is_fifo_transfer in refl)
      refl (unfold is_fifo_transfer in refl) refl refl source_Span dest_Span (omega arith)
      (λ o. omega arith) (omega arith) (omega arith)
