-- ===== src/Cpu.antt =====
-- The processor: src/cpu.
pub mod State
pub mod Mode
pub mod Banks
pub mod Switch
pub mod Flags
pub mod Shifter
pub mod DataProcessing
pub mod Exception
pub mod Branch
pub mod Status
pub mod Multiply
pub mod Transfer
pub mod Block
pub mod Thumb
pub mod Bios
pub mod Run
mod Tests
