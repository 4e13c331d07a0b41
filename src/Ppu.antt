-- ===== src/Ppu.antt =====
-- The picture unit: src/ppu.
pub mod State
pub mod Display
pub mod Effects
pub mod Pixel
pub mod Bitmap
pub mod Regular
pub mod Affine
pub mod Sprites
pub mod Scanline
mod Tests
