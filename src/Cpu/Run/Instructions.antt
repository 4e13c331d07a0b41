-- ===== src/Cpu/Run/Instructions.antt =====
-- Each instruction leaves the count of executed cycles and costs a cycle at least.
use gba_emulator.Base.{
  Bool, ap, arith, bits, either_branch, either_case, if◌then◌else◌, refl, test_bit, u16, u8, ℕ, ◌%◌,
  ◌*◌, ◌/◌, ◌==◌, ◌∙◌, ◌≡◌, ◌≤◌,
}
use gba_emulator.System.State.{Gba}
use gba_emulator.Cpu.State.{cpu_flush_pipeline}
use gba_emulator.Cpu.Transfer.{
  put_reg, rotate_word, load_reg, stored_value, write_back, effective_address, single_offset,
  half_offset, word_aligned, half_aligned, load_single, load_half, arm_single_transfer,
  arm_halfword_transfer, arm_swap,
}
use gba_emulator.Bus.Memory.{bus_read8, bus_read32, bus_write8, bus_write16, bus_write32}
use gba_emulator.Bus.Steady.{
  executed, KeepsCount, read8-cpu, read16-cpu, read32-cpu, write8_executed, write16_executed,
  write32_executed,
}

pub record Steps (gba : Gba) (out : Gba × ℕ) : Type 0 where
  pub count : executed out.0 ≡ executed gba
  pub cost : 1 ≤ out.1

executed-write_back :
    (gba : Gba) (instr base offset : ℕ) → executed (write_back gba instr base offset) ≡ executed gba
unfolding executed write_back
executed-write_back gba instr base offset = ground arith

executed-load_reg : (gba : Gba) (rd val : ℕ) → executed (load_reg gba rd val) ≡ executed gba
unfolding executed load_reg cpu_flush_pipeline
executed-load_reg gba rd val = ground arith

pub executed-load_single :
    (gba : Gba) (byte : Bool) (addr : ℕ) → executed (load_single gba byte addr).0 ≡ executed gba
unfolding executed load_single
executed-load_single gba byte addr =
    ground (arith, read8-cpu gba addr, read32-cpu gba (addr / 4 * 4))

pub executed-load_half :
    (gba : Gba) (sh addr : ℕ) → executed (load_half gba sh addr).0 ≡ executed gba
unfolding executed load_half
executed-load_half gba sh addr =
    ground (arith, read8-cpu gba addr, read16-cpu gba addr, read16-cpu gba (addr / 2 * 2))

pub executed-put_reg : (gba : Gba) (r v : ℕ) → executed (put_reg gba r v) ≡ executed gba
unfolding executed
executed-put_reg gba r v = refl

module _ (ctl : Gba → ℕ → ℕ → Gba) (keeps : KeepsCount ctl) where
  pub single-Steps : (gba : Gba) (instr : ℕ) → Steps gba (arm_single_transfer ctl gba instr)
  unfolding arm_single_transfer
  single-Steps gba instr =
      let byte = test_bit instr 22 in
      let rd = bits instr 15 12 in
      let base = gba.cpu.regs (bits instr 19 16) in
      let offset = single_offset gba.cpu instr in
      let addr = effective_address instr base offset in
      let read = (load_single gba byte addr).0 in
      let word = (load_single gba byte addr).1 in
      let val = stored_value gba.cpu rd in
      let stored =
        if byte
        then bus_write8 ctl gba addr (u8 val)
        else bus_write32 ctl gba (word_aligned addr) val in
      either_case (Steps gba) (test_bit instr 20)
        (record {
          count =
              executed-write_back (load_reg read rd word) instr base offset
              ∙ executed-load_reg read rd word
              ∙ executed-load_single gba byte addr;
          cost = ground arith;
        })
        (record {
          count =
              executed-write_back stored instr base offset
              ∙ either_branch executed byte (write8_executed ctl keeps gba addr (u8 val))
                  (write32_executed ctl keeps gba (word_aligned addr) val);
          cost = omega arith;
        })

  pub halfword-Steps : (gba : Gba) (instr : ℕ) → Steps gba (arm_halfword_transfer ctl gba instr)
  unfolding arm_halfword_transfer
  halfword-Steps gba instr =
      let rd = bits instr 15 12 in
      let sh = bits instr 6 5 in
      let base = gba.cpu.regs (bits instr 19 16) in
      let offset = half_offset gba.cpu instr in
      let addr = effective_address instr base offset in
      let read = (load_half gba sh addr).0 in
      let half = (load_half gba sh addr).1 in
      let same = load_reg gba rd (gba.cpu.regs rd) in
      let loaded = if sh == 0 then same else load_reg read rd half in
      let val = u16 (stored_value gba.cpu rd) in
      either_case (Steps gba) (test_bit instr 20)
        (record {
          count =
              executed-write_back loaded instr base offset
              ∙ either_branch executed (sh == 0) (executed-load_reg gba rd (gba.cpu.regs rd))
                  (executed-load_reg read rd half ∙ executed-load_half gba sh addr);
          cost = ground arith;
        })
        (record {
          count =
              executed-write_back (bus_write16 ctl gba (half_aligned addr) val) instr base offset
              ∙ write16_executed ctl keeps gba (half_aligned addr) val;
          cost = omega arith;
        })

  pub swap-Steps : (gba : Gba) (instr : ℕ) → Steps gba (arm_swap ctl gba instr)
  unfolding arm_swap
  swap-Steps gba instr =
      let addr = gba.cpu.regs (bits instr 19 16) in
      let at = addr / 4 * 4 in
      let rd = bits instr 15 12 in
      let g8 = (bus_read8 gba addr).0 in
      let g32 = (bus_read32 gba at).0 in
      let v8 = u8 (g8.cpu.regs (instr % 16)) in
      let v32 = g32.cpu.regs (instr % 16) in
      let read = rotate_word (bus_read32 gba at).1 addr in
      either_case (Steps gba) (test_bit instr 22)
        (record {
          count =
              executed-put_reg (bus_write8 ctl g8 addr v8) rd (bus_read8 gba addr).1
              ∙ write8_executed ctl keeps g8 addr v8
              ∙ unfold executed in ap (λ c. c.cycles_executed) (read8-cpu gba addr);
          cost = omega arith;
        })
        (record {
          count =
              executed-put_reg (bus_write32 ctl g32 at v32) rd read
              ∙ write32_executed ctl keeps g32 at v32
              ∙ unfold executed in ap (λ c. c.cycles_executed) (read32-cpu gba at);
          cost = omega arith;
        })
