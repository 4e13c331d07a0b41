-- ===== src/Cpu/Run/Thumb/Several.antt =====
-- The Thumb formats that load or store several registers.
use gba_emulator.Base.{
  ap, not, sub32, ◌&&◌, Bool, arith, bits, either_branch, either_case, if◌then◌else◌, refl, suc,
  test_bit, u32, zero, ℕ, ◌%◌, ◌*◌, ◌+◌, ◌==◌, ◌∙◌, ◌≡◌,
}
use gba_emulator.System.State.{Gba}
use gba_emulator.Cpu.State.{cpu_flush_pipeline, reg_sp}
use gba_emulator.Cpu.Transfer.{put_reg}
use gba_emulator.Cpu.Block.{count_registers, listed_below}
use gba_emulator.Cpu.Thumb.Multiple.{
  Walk, load_listed, load_registers, load_pc, pop, load_multiple, store_listed, store_registers,
  push, thumb_push_pop, store_multiple, empty_list, thumb_multiple_load_store,
}
use gba_emulator.Bus.Memory.{bus_read32}
use gba_emulator.Bus.Steady.{executed, KeepsCount, read32-cpu, write32_executed}
use gba_emulator.Cpu.Run.Instructions.{Steps, executed-put_reg}

executed_cpu : (a b : Gba) → a.cpu ≡ b.cpu → executed a ≡ executed b
unfolding executed
executed_cpu a b e = ap (λ c. c.cycles_executed) e

executed-load_pc : (gba : Gba) (addr : ℕ) → executed (load_pc gba addr) ≡ executed gba
unfolding executed load_pc cpu_flush_pipeline
executed-load_pc gba addr = ap (λ c. c.cycles_executed) (read32-cpu gba addr)

executed-load_registers :
    (left i rlist : ℕ) (w : Walk) → executed (load_registers left i rlist w).gba ≡ executed w.gba
unfolding load_registers
executed-load_registers zero i rlist w = refl
executed-load_registers (suc left) i rlist w =
    executed-load_registers left (i + 1) rlist (load_listed rlist w i) ∙ one
  where
    one : executed (load_listed rlist w i).gba ≡ executed w.gba
    one =
        unfold load_listed in
        either_case (λ (x : Walk). executed x.gba ≡ executed w.gba) (test_bit rlist i)
          (executed-put_reg (bus_read32 w.gba w.addr).0 i (bus_read32 w.gba w.addr).1
            ∙ executed_cpu (bus_read32 w.gba w.addr).0 w.gba (read32-cpu w.gba w.addr))
          refl

executed-pop :
    (gba : Gba) (rlist : ℕ) (r_bit : Bool) → executed (pop gba rlist r_bit) ≡ executed gba
unfolding pop
executed-pop gba rlist r_bit =
    let w = load_registers 8 0 rlist record { gba = gba; addr = gba.cpu.regs reg_sp } in
    let loaded =
      executed-load_registers 8 0 rlist record { gba = gba; addr = gba.cpu.regs reg_sp } in
    either_branch executed r_bit
      (executed-put_reg (load_pc w.gba w.addr) reg_sp _ ∙ executed-load_pc w.gba w.addr ∙ loaded)
      (executed-put_reg w.gba reg_sp w.addr ∙ loaded)

executed-load_multiple :
    (gba : Gba) (rb rlist : ℕ) → executed (load_multiple gba rb rlist) ≡ executed gba
unfolding load_multiple
executed-load_multiple gba rb rlist =
    let w = load_registers 8 0 rlist record { gba = gba; addr = gba.cpu.regs rb } in
    let loaded = executed-load_registers 8 0 rlist record { gba = gba; addr = gba.cpu.regs rb } in
    either_branch executed (not (test_bit rlist rb)) (executed-put_reg w.gba rb w.addr ∙ loaded)
      loaded

module _ (ctl : Gba → ℕ → ℕ → Gba) (keeps : KeepsCount ctl) where
  executed-store_registers :
      (left i rlist : ℕ) (value : (ℕ → ℕ) → ℕ → ℕ) (w : Walk)
      → executed (store_registers ctl left i rlist value w).gba ≡ executed w.gba
  unfolding store_registers
  executed-store_registers zero i rlist value w = refl
  executed-store_registers (suc left) i rlist value w =
      executed-store_registers left (i + 1) rlist value (store_listed ctl rlist value w i) ∙ one
    where
      one : executed (store_listed ctl rlist value w i).gba ≡ executed w.gba
      one =
          unfold store_listed in
          either_case (λ (x : Walk). executed x.gba ≡ executed w.gba) (test_bit rlist i)
            (write32_executed ctl keeps w.gba w.addr _) refl

  executed-push :
      (gba : Gba) (rlist : ℕ) (r_bit : Bool) (count : ℕ)
      → executed (push ctl gba rlist r_bit count) ≡ executed gba
  unfolding push
  executed-push gba rlist r_bit count =
      let addr = sub32 (gba.cpu.regs reg_sp) (count * 4) in
      let start : Walk = record { gba = put_reg gba reg_sp addr; addr = addr } in
      let w = store_registers ctl 8 0 rlist (λ regs i. regs i) start in
      let stored : executed w.gba ≡ executed gba =
        executed-store_registers 8 0 rlist (λ regs i. regs i) start
        ∙ executed-put_reg gba reg_sp addr in
      either_branch executed r_bit (write32_executed ctl keeps w.gba w.addr _ ∙ stored) stored

  pub push_pop-Steps : (gba : Gba) (instr : ℕ) → Steps gba (thumb_push_pop ctl gba instr)
  unfolding thumb_push_pop
  push_pop-Steps gba instr =
      let r_bit = test_bit instr 8 in
      let rlist = instr % 256 in
      let count = count_registers 8 rlist + (if r_bit then 1 else 0) in
      either_case (Steps gba) (test_bit instr 11)
        (record { count = executed-pop gba rlist r_bit; cost = omega arith })
        (record { count = executed-push gba rlist r_bit count; cost = ground arith })

  executed-store_multiple :
      (gba : Gba) (rb rlist count : ℕ)
      → executed (store_multiple ctl gba rb rlist count) ≡ executed gba
  unfolding store_multiple
  executed-store_multiple gba rb rlist count =
      let addr = gba.cpu.regs rb in
      let new_base = u32 (addr + count * 4) in
      let rb_first = test_bit rlist rb && not (listed_below rb rlist) in
      let value : (ℕ → ℕ) → ℕ → ℕ =
        λ regs i. if i == rb && not rb_first then new_base else regs i in
      let start : Walk = record { gba = gba; addr = addr } in
      executed-put_reg (store_registers ctl 8 0 rlist value start).gba rb new_base
      ∙ executed-store_registers 8 0 rlist value start

  executed-empty_list :
      (gba : Gba) (load : Bool) (rb : ℕ) → executed (empty_list ctl gba load rb) ≡ executed gba
  unfolding empty_list
  executed-empty_list gba load rb =
      executed-put_reg _ rb _
      ∙ either_branch executed load (executed-load_pc gba (gba.cpu.regs rb))
          (write32_executed ctl keeps gba (gba.cpu.regs rb) _)

  pub multiple-Steps : (gba : Gba) (instr : ℕ) → Steps gba (thumb_multiple_load_store ctl gba instr)
  unfolding thumb_multiple_load_store
  multiple-Steps gba instr =
      let load = test_bit instr 11 in
      let rb = bits instr 10 8 in
      let rlist = instr % 256 in
      let count = count_registers 8 rlist in
      either_case (Steps gba) (count == 0)
        (record { count = executed-empty_list gba load rb; cost = omega arith })
        (either_case (Steps gba) load
          (record { count = executed-load_multiple gba rb rlist; cost = omega arith })
          (record { count = executed-store_multiple gba rb rlist count; cost = ground arith }))
