-- ===== src/System/Rest.antt =====
-- A machine at rest, for the tests: every memory holds zeros.
use gba_emulator.Base.{false, none, true, ℕ}
use gba_emulator.System.State.{Gba}
use gba_emulator.Cpu.State.{Cpu}
use gba_emulator.Bus.State.{Bus}
use gba_emulator.Ppu.State.{Ppu}
use gba_emulator.Apu.State.{Apu, Fifo}
use gba_emulator.Timer.{Timer}
use gba_emulator.Dma.State.{DmaController, channel_off}
use gba_emulator.Interrupt.{InterruptController}
use gba_emulator.Cartridge.Chip.{Cartridge, save_none}
use gba_emulator.Cartridge.Flash.{FlashChip, flash_ready}
use gba_emulator.Input.{InputState}
use gba_emulator.Bus.Io.Sound.{square_off, wave_off, noise_off}

abbrev pub zeros : ℕ → ℕ
zeros _ = 0

abbrev pub rest_cpu : Cpu
rest_cpu = record {
  regs = zeros;
  cpsr = 0x1f;
  spsr = zeros;
  banked = zeros;
  pipeline = zeros;
  pipeline_valid = false;
  halted = false;
  has_bios = false;
  cycles_executed = 0;
}

abbrev pub rest_bus : Bus
rest_bus = record {
  bios = zeros;
  ewram = zeros;
  iwram = zeros;
  io_regs = zeros;
  palette_ram = zeros;
  vram = zeros;
  oam = zeros;
  open_bus = 0;
  bios_readable = true;
  last_bios_read = 0xe129f000;
}

abbrev pub rest_fifo : Fifo
rest_fifo = record {
  buffer = zeros;
  read_idx = 0;
  write_idx = 0;
  count = 0;
  timer_id = 0;
  last_sample = 0;
}

abbrev pub rest_apu : Apu
rest_apu = record {
  ch1 = square_off;
  ch2 = square_off;
  ch3 = wave_off;
  ch4 = noise_off;
  fifo_a = rest_fifo;
  fifo_b = rest_fifo;
  fifo_a_latch = 0;
  fifo_b_latch = 0;
  soundcnt_l = 0;
  soundcnt_h = 0;
  soundcnt_x = 0;
  soundbias = 0x200;
  frame_seq_step = 0;
  frame_seq_timer = 0;
  sample_timer = 0;
  sample_period = 512;
  sample_buffer = zeros;
  write_pos = 0;
  read_pos = 0;
  prev_left = 0;
  prev_right = 0;
}

abbrev pub rest_ppu : Ppu
rest_ppu = record {
  dispcnt = 0x80;
  dispstat = 0;
  vcount = 0;
  bg_cnt = zeros;
  bg_hofs = zeros;
  bg_vofs = zeros;
  bg_pa = zeros;
  bg_pb = zeros;
  bg_pc = zeros;
  bg_pd = zeros;
  bg_ref_x = zeros;
  bg_ref_y = zeros;
  bg_ref_x_latch = zeros;
  bg_ref_y_latch = zeros;
  win_h = zeros;
  win_v = zeros;
  winin = 0;
  winout = 0;
  bldcnt = 0;
  bldalpha = 0;
  bldy = 0;
  mosaic = 0;
  framebuffer = zeros;
  scanline_buffer = zeros;
  top_layer = zeros;
  second_pixel = zeros;
  second_layer = zeros;
  cycle_counter = 0;
}

abbrev pub rest_timer : Timer
rest_timer = record {
  counter = 0;
  reload = 0;
  control = 0;
  prescaler = 1;
  cascade = false;
  irq_enable = false;
  enabled = false;
  prescaler_counter = 0;
}

abbrev pub rest_interrupts : InterruptController
rest_interrupts = record { ime = false; ie = 0; irf = 0 }

abbrev pub rest_input : InputState
rest_input = record { keyinput = 0x3ff; keycnt = 0 }

abbrev pub rest_dma : DmaController
rest_dma = record { channels = λ _. channel_off; active_channel = none }

abbrev pub rest_flash : FlashChip
rest_flash = record { content = zeros; state = flash_ready; bank = 0; manufacturer = 0; device = 0 }

abbrev pub rest_cart : Cartridge
rest_cart = record {
  rom = zeros;
  rom_size = 0;
  save_type = save_none;
  flash = rest_flash;
  sram = zeros;
  game_code = zeros;
}

abbrev pub at_rest : Gba
at_rest = record {
  cpu = rest_cpu;
  bus = rest_bus;
  ppu = rest_ppu;
  apu = rest_apu;
  timers = λ _. rest_timer;
  dma = rest_dma;
  interrupts = rest_interrupts;
  cart = rest_cart;
  input = rest_input;
  total_cycles = 0;
  frame_complete = false;
  running = true;
}
