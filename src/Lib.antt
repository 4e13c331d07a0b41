-- ===== src/Lib.antt =====
-- gba_emulator: a verification library for the Game Boy Advance emulator.
--
-- The program: for each line of a frame `gba_run_frame` of src/gba.c runs the processor, the timers
-- and the sound unit for the visible and the blank part of the line, and the picture unit between
-- them; they meet in the interrupt controller, which the processor asks between two
-- instructions, and on the bus, which reaches the cartridge. This library models the components as
-- records and total functions, one function to each C function, with the state passed along.
--
--   Base.antt        what the modules share: tests, words, arrays and the laws of the bit operations
--   Cpu.antt         src/cpu: arm7tdmi.c, arm7tdmi.h and arm_instr.c, that is the register banks
--                    (`cpu_switch_mode`), the condition codes, the barrel shifter, the entry to IRQ and
--                    SWI, the ARM instructions, with loads and stores on the whole machine (Transfer,
--                    Block), and the decoder and the pipeline (Run); thumb_instr.c (Thumb); and
--                    bios_hle.c (Bios)
--   Interrupt.antt   src/interrupt/interrupt.c
--   Timer.antt       src/timer/timer.c
--   Cartridge.antt   src/cartridge: the flash chip, the clock chip, save detection and save files
--   Input.antt       src/input/input.c
--   System.antt      src/gba.c and gba.h: the record of the whole machine, `gba_run_frame` (Frame), and
--                    `apu_on_timer_overflow` of src/apu/apu.c, which reaches the DMA (Playback)
--   Bus.antt         src/memory/bus.c: the memories with their mirrors (Memory), the I/O registers (Io),
--                    and what they store (Ram, Storage, Narrow)
--   Dma.antt         src/memory/dma.c
--   Apu.antt         src/apu: the square, wave and noise channels of channel.c; and of apu.c
--                    the FIFOs, the mixer (Mix) and the frame sequencer (Frame)
--   Ppu.antt         src/ppu: the state, the status bits and the line counter of ppu.c (Display), its
--                    `ppu_render_scanline` (Scanline) with the renderers of background.c (Regular,
--                    Affine), bitmap.c and sprites.c, and the blending of effects.c
--
-- Conventions. A C integer is a native natural number; casts and the wrap-around of each width are
-- written out (`u8`, `u16`, `u32`, `sub32`, `not32`). `x & (2^k - 1)` is a remainder and a shift is a
-- product or a quotient by a power of two; the laws that this rests on are in Base/Bits.antt. An
-- array is a function of the index, and a write is `update`. A function that changes what a pointer
-- names returns the new state; a NULL that the code tests for is `none`. What a handler computes
-- before an early return is bound first and used on the branch that needs it.
--
-- The machine. Functions that reach several parts through pointers take the record `Gba` of all parts.
-- `gba_init` sets every pointer between them before anything runs, so the branches for NULL in the bus
-- and the DMA are left out.
--
-- Loops. The rounds of `while` loops are counted by fuel: `prescaled_loop` of Timer has the
-- quotient of the prescaler counter and one more, and `rounds` of Apu/Period has the timer itself,
-- of which each round takes at least one. That this is enough is part of the results below: they
-- give the closed form of what the loops leave. `run_loop` of Cpu/Run has one round more than the
-- cycles that `cpu_run` is asked for, which is enough since a round whose calls return costs a
-- cycle at least. In Cpu/Bios the loops of Sqrt have 17 rounds for the 16 powers of 4 in a word,
-- and the decompressors have a round for each byte that they are to write. `swi_huff_uncomp` is
-- given its fuel, `max_bits`: the source has no bound there and may run for ever, where the model
-- stops after so many bits. The other loops run over a counted range.
--
-- Nested calls. A write to the control register of a DMA channel starts a transfer, which writes to the
-- bus again. The functions of the bus take `dma_write_control` as a parameter for this call, and
-- `dma_write_control_to` of Dma bounds the depth of the nesting; the results on the bus and the DMA
-- hold for every value of the parameter.
--
-- Parameters. The audio callback in the timers, which System/Playback fills; `bios_hle_execute` in the
-- processor, which Cpu/Bios fills; and the floating-point parts of ArcTan2 and MidiKey2Freq, the record
-- `Host` of Cpu/Bios. Files and the host's time are arguments of the
-- functions that read them.
--
-- Not modelled: `gba_init` of src/gba.c sets the pointers and calls the init functions, and
-- `bus_load_bios` only reads a file. The SDL frontend and the X-Ray visualizer of src/frontend are input
-- and output only, and so are the logs.
pub mod Base
pub mod Ppu
pub mod Interrupt
pub mod Timer
pub mod Cartridge
pub mod Cpu
pub mod Input
pub mod Apu
pub mod Bus
pub mod Dma
pub mod System
