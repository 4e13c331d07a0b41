-- ===== src/Cpu/Run/Ends.antt =====
-- `cpu_run` ends by its own test: each round of its loop costs a cycle at least.
use gba_emulator.Base.{
  ap, arith, by_test, either_branch, either_case, false, if◌then◌else◌, leb, not, refl, same, some,
  suc, test_bit, true, u16, u32, zero, ℕ, ◌%◌, ◌&&◌, ◌+◌, ◌/◌, ◌^◌, ◌∙◌, ◌≡◌, ◌≤◌,
}
use gba_emulator.System.State.{Gba, set_cpu}
use gba_emulator.Cpu.State.{Cpu, cpsr_t, reg_pc}
use gba_emulator.Cpu.Flags.{cpu_condition_passed}
use gba_emulator.Cpu.Exception.{cpu_check_irq, cpu_handle_irq}
use gba_emulator.Cpu.Block.Rounds.{block_transfer_lem}
use gba_emulator.Cpu.Run.{
  Instruction, swi, branch, block_transfer, undefined, single_transfer, bx, swap, multiply_long,
  multiply, halfword_transfer, msr_immediate, mrs, msr_register, data_processing, arm_decode,
  arm_undefined, on_cpu, system_swi, run_instruction, arm_execute, refill, next_fetch, cpu_step,
  check_interrupt, add_cycles, run_loop, cpu_run,
}
use gba_emulator.Cpu.Run.Steady.{
  Steady, enter_cycles, branch-Steady, bx-Steady, swi-Steady, multiply-Steady, multiply_long-Steady,
  msr-Steady, mrs-Steady, data_processing-Steady,
}
use gba_emulator.Cpu.Run.Instructions.{Steps, single-Steps, halfword-Steps, swap-Steps}
use gba_emulator.Cpu.Thumb.{thumb_execute}
use gba_emulator.Cpu.Run.Thumb.{thumb-Steps}
use gba_emulator.Bus.Memory.{bus_read16, bus_read32}
use gba_emulator.Bus.Steady.{executed, KeepsCount, read16-cpu, read32-cpu}

on_cpu-Steps : (gba : Gba) (out : Cpu × ℕ) → Steady gba.cpu out → Steps gba (on_cpu gba out)
unfolding executed
on_cpu-Steps gba (cpu, cost) (same, some_cost) = record { count = same; cost = some_cost }

-- A fetch changes the processor not at all.
abbrev Fetches : (Gba → ℕ → Gba × ℕ) → Type 0
Fetches fetch = (gba : Gba) (addr : ℕ) → (fetch gba addr).0.cpu ≡ gba.cpu

record Reached (cycles : ℕ) (gba : Gba) : Type 0 where
  reached : cycles ≤ executed gba

add_executed :
    (ctl : Gba → ℕ → ℕ → Gba) (hle : Gba → ℕ → Gba) (out : Gba × ℕ)
    → executed (add_cycles ctl hle out) ≡ executed out.0 + out.1
unfolding executed
add_executed ctl hle (gba, cost) = refl

module _ (ctl : Gba → ℕ → ℕ → Gba) (hle : Gba → ℕ → Gba) (keeps : KeepsCount ctl)
    (hle_keeps : (gba : Gba) (comment : ℕ) → executed (hle gba comment) ≡ executed gba) where
  swi-Steps : (gba : Gba) (instr : ℕ) → Steps gba (system_swi ctl hle gba instr)
  unfolding system_swi
  swi-Steps gba instr =
      by_test (Steps gba) gba.cpu.has_bios
        (λ on. on_cpu-Steps gba _ (swi-Steady (λ cpu comment. cpu) gba.cpu instr on))
        (λ off. record { count = hle_keeps gba (instr / 2 ^ 16 % 256); cost = omega arith })

  instruction-Steps :
      (i : Instruction) (gba : Gba) (instr : ℕ) → Steps gba (run_instruction ctl hle i gba instr)
  unfolding run_instruction
  instruction-Steps swi gba instr = swi-Steps gba instr
  instruction-Steps branch gba instr = on_cpu-Steps gba _ (branch-Steady gba.cpu instr)
  instruction-Steps block_transfer gba instr =
      let (same, some_cost) = block_transfer_lem ctl keeps gba instr in
      record { count = same; cost = some_cost }
  instruction-Steps undefined gba instr =
      on_cpu-Steps gba (arm_undefined gba.cpu instr) (unfold arm_undefined in (refl, omega arith))
  instruction-Steps single_transfer gba instr = single-Steps ctl keeps gba instr
  instruction-Steps bx gba instr = on_cpu-Steps gba _ (bx-Steady gba.cpu instr)
  instruction-Steps swap gba instr = swap-Steps ctl keeps gba instr
  instruction-Steps multiply_long gba instr =
      on_cpu-Steps gba _ (multiply_long-Steady gba.cpu instr)
  instruction-Steps multiply gba instr = on_cpu-Steps gba _ (multiply-Steady gba.cpu instr)
  instruction-Steps halfword_transfer gba instr = halfword-Steps ctl keeps gba instr
  instruction-Steps msr_immediate gba instr = on_cpu-Steps gba _ (msr-Steady gba.cpu instr)
  instruction-Steps mrs gba instr = on_cpu-Steps gba _ (mrs-Steady gba.cpu instr)
  instruction-Steps msr_register gba instr = on_cpu-Steps gba _ (msr-Steady gba.cpu instr)
  instruction-Steps data_processing gba instr =
      on_cpu-Steps gba _ (data_processing-Steady gba.cpu instr)

  execute-Steps : (gba : Gba) (instr : ℕ) → Steps gba (arm_execute ctl hle gba instr)
  unfolding arm_execute
  execute-Steps gba instr = instruction-Steps (arm_decode instr) gba instr

  executed-refill :
      (gba : Gba) (width : ℕ) (fetch : Gba → ℕ → Gba × ℕ)
      → Fetches fetch
      → executed (refill ctl hle gba width fetch) ≡ executed gba
  unfolding executed refill
  executed-refill gba width fetch same =
      let pc = gba.cpu.regs reg_pc in
      ap (λ c. c.cycles_executed) (same (fetch gba pc).0 (u32 (pc + width)) ∙ same gba pc)

  next_executed :
      (gba : Gba) (width : ℕ) (fetch : Gba → ℕ → Gba × ℕ)
      → Fetches fetch
      → executed (next_fetch ctl hle gba width fetch) ≡ executed gba
  unfolding executed next_fetch
  next_executed gba width fetch same = let pc = gba.cpu.regs reg_pc in ground (arith, same gba pc)

  step-Steps : (gba : Gba) → Steps gba (cpu_step ctl hle gba)
  unfolding cpu_step
  step-Steps gba =
      let cpu = gba.cpu in
      let instr = cpu.pipeline 0 in
      let passed = cpu_condition_passed cpu (instr / 2 ^ 28 % 16) in
      let stays : Steps gba (gba, 1) = record { count = refl; cost = omega arith } in
      let arm : Steps gba (if passed then arm_execute ctl hle gba instr else (gba, 1)) =
        either_case (Steps gba) passed (execute-Steps gba instr) stays in
      let t = thumb-Steps ctl keeps hle hle_keeps gba (u16 instr) in
      either_case (Steps gba) (not cpu.pipeline_valid)
        (either_case (Steps gba) (test_bit cpu.cpsr cpsr_t)
          (record { count = executed-refill gba 2 bus_read16 read16-cpu; cost = omega arith })
          (record { count = executed-refill gba 4 bus_read32 read32-cpu; cost = omega arith }))
        (either_case (Steps gba) (test_bit cpu.cpsr cpsr_t)
          (record {
            count =
                next_executed (thumb_execute ctl hle gba (u16 instr)).0 2 bus_read16 read16-cpu
                ∙ t.count;
            cost = t.cost;
          })
          (record {
            count =
                next_executed (if passed then arm_execute ctl hle gba instr else (gba, 1)).0 4
                  bus_read32 read32-cpu
                ∙ arm.count;
            cost = arm.cost;
          }))

  check_executed : (gba : Gba) → executed (check_interrupt ctl hle gba) ≡ executed gba
  unfolding check_interrupt
  check_executed gba =
      either_branch executed (cpu_check_irq gba.cpu (some gba.interrupts))
        {x = set_cpu gba (cpu_handle_irq gba.cpu)} {y = gba}
        (unfold executed cpu_handle_irq in enter_cycles gba.cpu _ _ _ _) refl

  -- A round of the loop that executes an instruction
  round : Gba → Gba
  round gba =
      let woken =
        if gba.cpu.halted
        then check_interrupt ctl hle (set_cpu gba (record gba.cpu { halted = false }))
        else gba in
      add_cycles ctl hle (cpu_step ctl hle (check_interrupt ctl hle woken))

  round_costs : (gba : Gba) → executed gba + 1 ≤ executed (round gba)
  unfolding round
  round_costs gba =
      let awake = set_cpu gba (record gba.cpu { halted = false }) in
      let woken = if gba.cpu.halted then check_interrupt ctl hle awake else gba in
      let checked = check_interrupt ctl hle woken in
      let step = step-Steps checked in
      let same : executed woken ≡ executed gba =
        either_branch executed gba.cpu.halted {x = check_interrupt ctl hle awake} {y = gba}
          (check_executed awake ∙ unfold executed in refl) refl in
      let sum = add_executed ctl hle (cpu_step ctl hle checked) in
      omega (arith, same, check_executed woken, step.count, step.cost, sum)

  -- With fuel for the cycles that are missing, the loop gets there.
  loop_ends :
      (fuel cycles : ℕ) (gba : Gba)
      → cycles ≤ executed gba + fuel
      → Reached cycles (run_loop ctl hle fuel cycles gba)
  unfolding run_loop round
  loop_ends zero cycles gba h = record { reached = omega arith }
  loop_ends (suc fuel) cycles gba h =
      let rest = loop_ends fuel cycles (round gba) (omega (arith, round_costs gba)) in
      by_test (Reached cycles) (leb cycles gba.cpu.cycles_executed)
        (λ done. record { reached = unfold executed in ground arith })
        (λ more.
          either_case (Reached cycles)
            (gba.cpu.halted && not (cpu_check_irq gba.cpu (some gba.interrupts)))
            (record { reached = unfold executed in omega arith }) rest)

  -- More fuel changes nothing.
  more_fuel :
      (fuel fuel' cycles : ℕ) (gba : Gba)
      → cycles ≤ executed gba + fuel
      → cycles ≤ executed gba + fuel'
      → run_loop ctl hle fuel cycles gba ≡ run_loop ctl hle fuel' cycles gba
  unfolding run_loop round
  more_fuel zero zero cycles gba h g = refl
  more_fuel zero (suc fuel') cycles gba h g =
      let done : leb cycles gba.cpu.cycles_executed ≡ true = unfold executed in ground arith in
      rw done refl
  more_fuel (suc fuel) zero cycles gba h g =
      let done : leb cycles gba.cpu.cycles_executed ≡ true = unfold executed in ground arith in
      rw done refl
  more_fuel (suc fuel) (suc fuel') cycles gba h g =
      ap
        (λ rest.
          if leb cycles gba.cpu.cycles_executed
          then gba
          else if gba.cpu.halted && not (cpu_check_irq gba.cpu (some gba.interrupts))
          then set_cpu gba (record gba.cpu { cycles_executed = cycles })
          else rest)
        (more_fuel fuel fuel' cycles (round gba) (omega (arith, round_costs gba))
          (omega (arith, round_costs gba)))

  -- Where the two calls that the loop of `cpu_run` leaves open, those of the high-level BIOS and of the
  -- control write inside a DMA transfer, are functions that always return and keep the count of
  -- executed cycles, the loop ends from every state within as many rounds as the cycles asked for: the
  -- count is then at those cycles or past them, and any fuel that is at least the cycles leaves the
  -- same machine. Nothing is said of a call that does not return, as HuffUnComp on a tree with a cycle.
  pub cpu_run_ends :
      (gba : Gba) (cycles fuel : ℕ)
      → cycles ≤ fuel
      → let started = set_cpu gba (record gba.cpu { cycles_executed = 0 }) in
        (cycles ≤ (cpu_run ctl hle gba cycles).cpu.cycles_executed)
        × (run_loop ctl hle fuel cycles started ≡ cpu_run ctl hle gba cycles)
  unfolding cpu_run
  cpu_run_ends gba cycles fuel enough =
      let started = set_cpu gba (record gba.cpu { cycles_executed = 0 }) in
      let some_fuel : (n : ℕ) → cycles ≤ n → cycles ≤ executed started + n =
        λ n p. unfold executed in omega arith in
      let ends = loop_ends (suc cycles) cycles started (some_fuel (suc cycles) (omega arith)) in
      let at : cycles ≤ (run_loop ctl hle (suc cycles) cycles started).cpu.cycles_executed =
        unfold executed in ends.reached in
      (
        at,
        more_fuel fuel (suc cycles) cycles started (some_fuel fuel enough)
            (some_fuel (suc cycles) (omega arith)),
      )
