-- ===== src/Bus.antt =====
-- The memory bus: src/memory/bus.c.
pub mod State
pub mod Bytes
pub mod Io
pub mod Memory
pub mod Ram
pub mod Storage
pub mod Narrow
pub mod Steady
mod Tests
