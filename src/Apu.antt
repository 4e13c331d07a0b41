-- ===== src/Apu.antt =====
-- The sound unit: src/apu.
pub mod Period
pub mod State
pub mod Fifo
pub mod Square
pub mod Wave
pub mod Noise
pub mod Mix
pub mod Frame
mod Tests
