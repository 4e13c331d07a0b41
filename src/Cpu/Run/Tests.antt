-- ===== src/Cpu/Run/Tests.antt =====
-- The theorems on the start of the processor and on its loop at a concrete state.
use gba_emulator.Base.{arith, ℕ, ◌≡◌, ◌≤◌}
use gba_emulator.System.State.{Gba, set_cpu}
use gba_emulator.System.Rest.{at_rest}
use gba_emulator.Cpu.Run.{cpu_run, run_loop}
use gba_emulator.Cpu.Run.Ends.{cpu_run_ends}
use gba_emulator.Cpu.Bios.{Host, bios_hle_execute}
use gba_emulator.Dma.{dma_write_control_to}
use gba_emulator.Dma.Steady.{depth-KeepsCount}
use gba_emulator.Cpu.Run.Bios.{executed-bios}

abbrev nested : Gba → ℕ → ℕ → Gba
nested = dma_write_control_to 2

abbrev no_floats : Host
no_floats = record { atan2_angle = λ x y. 0; midi_freq = λ freq key pitch. freq; max_bits = 64 }

abbrev bios : Gba → ℕ → Gba
bios = bios_hle_execute nested no_floats

-- With the BIOS of the program, its floating-point parts aside, and transfers nested to depth 2.
cpu_run_ends_example :
    let started = set_cpu at_rest (record at_rest.cpu { cycles_executed = 0 }) in
    (3 ≤ (cpu_run nested bios at_rest 3).cpu.cycles_executed)
    × (run_loop nested bios 5 3 started ≡ cpu_run nested bios at_rest 3)
cpu_run_ends_example =
    cpu_run_ends nested bios (depth-KeepsCount 2)
      (executed-bios nested (depth-KeepsCount 2) no_floats) at_rest 3 5 (omega arith)
