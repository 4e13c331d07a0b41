-- ===== src/Cpu/Bios/Tests.antt =====
-- The theorems on the arithmetic of the high-level BIOS at concrete registers.
use gba_emulator.Base.{arith, if◌then◌else◌, ◌==◌, ◌≡◌}
use gba_emulator.System.Rest.{rest_cpu}
use gba_emulator.Cpu.State.{Cpu}
use gba_emulator.Cpu.Bios.Arith.{swi_div, swi_sqrt}
use gba_emulator.Cpu.Bios.Arith.Sqrt.{IsSqrt, swi_sqrt-IsSqrt}
use gba_emulator.Cpu.Bios.Arith.Division.{Divides, size, swi_div-Divides}

-- R0 = -17 and R1 = 5
abbrev dividing : Cpu
dividing = record rest_cpu { regs = λ r. if r == 0 then 0xffffffef else if r == 1 then 5 else 0 }

swi_sqrt-IsSqrt_example :
    IsSqrt 0xffffffef ((swi_sqrt dividing).regs 0) × ((swi_sqrt dividing).regs 1 ≡ 5)
swi_sqrt-IsSqrt_example = swi_sqrt-IsSqrt dividing 1 (omega arith) (omega arith)

swi_div-Divides_example :
    Divides 0xffffffef 5 ((swi_div dividing).regs 0) ((swi_div dividing).regs 1)
    × ((swi_div dividing).regs 3 ≡ size ((swi_div dividing).regs 0))
swi_div-Divides_example =
    swi_div-Divides dividing (omega arith) (omega arith) (omega arith) (λ e. absurd (omega arith))
