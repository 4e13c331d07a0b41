-- ===== src/Timer/Tests.antt =====
-- The register writes that start a timer of prescaler 64.
use gba_emulator.Base.{false, refl, true, ◌≡◌}
use gba_emulator.Timer.{Timer, timer_init, timer_write_reload, timer_write_control, prescaler_value}

abbrev fast : Timer
fast = record {
  counter = 0xfff0;
  reload = 0xfff0;
  control = 0x81;
  prescaler = 64;
  cascade = false;
  irq_enable = false;
  enabled = true;
  prescaler_counter = 0;
}

started : timer_write_control (timer_write_reload (timer_init 0) 0xfff0) 0x81 ≡ fast
unfolding timer_write_control timer_write_reload timer_init prescaler_value
started = refl
