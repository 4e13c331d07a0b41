-- ===== src/System/State.antt =====
-- `struct GBA` of src/gba.h: the whole machine. The parts reach each other by pointers that
-- `gba_init` sets once; here a function of one part that reaches others takes the machine.
use gba_emulator.Base.{Bool, update, ℕ}
use gba_emulator.Cpu.State.{Cpu}
use gba_emulator.Bus.State.{Bus}
use gba_emulator.Ppu.State.{Ppu}
use gba_emulator.Apu.State.{Apu}
use gba_emulator.Timer.{Timer}
use gba_emulator.Dma.State.{DmaChannel, DmaController}
use gba_emulator.Interrupt.{InterruptController}
use gba_emulator.Cartridge.Chip.{Cartridge}
use gba_emulator.Input.{InputState}

pub record Gba : Type 0 where
  pub cpu : Cpu
  pub bus : Bus
  pub ppu : Ppu
  pub apu : Apu
  pub timers : ℕ → Timer
  pub dma : DmaController
  pub interrupts : InterruptController
  pub cart : Cartridge
  pub input : InputState
  pub total_cycles : ℕ
  pub frame_complete : Bool
  pub running : Bool

-- `gba->cpu = ...`, `gba->ppu = ...`, `gba->apu = ...`
abbrev pub set_cpu : Gba → Cpu → Gba
set_cpu gba c = record gba { cpu = c }

abbrev pub set_ppu : Gba → Ppu → Gba
set_ppu gba p = record gba { ppu = p }

abbrev pub set_apu : Gba → Apu → Gba
set_apu gba a = record gba { apu = a }

-- `dma->channels[ch] = ...`
abbrev pub set_channel : Gba → ℕ → DmaChannel → Gba
set_channel gba ch dc = record gba {
  dma = record gba.dma { channels = update gba.dma.channels ch dc };
}

-- `bus->io_regs[offset] = val`
abbrev pub store : Gba → ℕ → ℕ → Gba
store gba offset val = record gba {
  bus = record gba.bus { io_regs = update gba.bus.io_regs offset val };
}
