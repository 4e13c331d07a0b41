-- ===== src/System.antt =====
-- The whole machine: src/gba.c.
pub mod State
pub mod Rest
pub mod Playback
pub mod Frame
pub mod Refill
pub mod Timers
mod Tests
