-- ===== src/Bus/Io.antt =====
-- The I/O registers: `io_read8` and `io_write8` of src/memory/bus.c. The pointers of the bus are set,
-- as `gba_init` leaves them, so the branches for NULL are left out; so are the diagnostic logs.
--
-- A write to the control register of a DMA channel runs the transfer at once, through
-- `dma_write_control`. That writes to the bus again, so the call is a parameter here; the module Dma
-- ties the knot.
pub mod Read
pub mod Display
pub mod Sound
pub mod Control
pub mod Registers
pub mod Ignored
