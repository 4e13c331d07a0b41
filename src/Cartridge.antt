-- ===== src/Cartridge.antt =====
-- The cartridge: ROM, save memories and the real-time clock chip, of src/cartridge.
pub mod Flash
pub mod Rtc
pub mod Chip
pub mod Detect
pub mod Memory
pub mod Saves
mod Tests
