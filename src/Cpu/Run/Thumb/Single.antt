-- ===== src/Cpu/Run/Thumb/Single.antt =====
-- The Thumb formats that load or store one register.
use gba_emulator.Base.{
  ◌^◌, ap, not, ◌&&◌, Bool, arith, bits, either_case, false, if◌then◌else◌, test_bit, u32, ℕ, ◌%◌,
  ◌*◌, ◌+◌, ◌∙◌,
}
use gba_emulator.System.State.{Gba}
use gba_emulator.Cpu.State.{reg_sp}
use gba_emulator.Cpu.Transfer.{load_half, load_single}
use gba_emulator.Cpu.Thumb.Memory.{
  thumb_pc_relative_load, load_to, load_half_to, store_from, store_half_from, thumb_load_store_reg,
  thumb_load_store_sign_ext, thumb_load_store_imm, thumb_load_store_halfword,
  thumb_sp_relative_load_store,
}
use gba_emulator.Bus.Steady.{
  executed, KeepsCount, read32-cpu, write8_executed, write16_executed, write32_executed,
}
use gba_emulator.Cpu.Run.Instructions.{
  Steps, executed-put_reg, executed-load_single, executed-load_half,
}

pub pc_relative-Steps : (gba : Gba) (instr : ℕ) → Steps gba (thumb_pc_relative_load gba instr)
unfolding thumb_pc_relative_load executed
pc_relative-Steps gba instr = record {
  count = ap (λ c. c.cycles_executed) (read32-cpu gba _);
  cost = omega arith;
}

pub load_to-Steps : (gba : Gba) (byte : Bool) (addr rd : ℕ) → Steps gba (load_to gba byte addr rd)
unfolding load_to
load_to-Steps gba byte addr rd =
    let read = load_single gba byte addr in
    record {
      count = executed-put_reg read.0 rd read.1 ∙ executed-load_single gba byte addr;
      cost = omega arith;
    }

pub load_half_to-Steps : (gba : Gba) (sh addr rd : ℕ) → Steps gba (load_half_to gba sh addr rd)
unfolding load_half_to
load_half_to-Steps gba sh addr rd =
    let read = load_half gba sh addr in
    record {
      count = executed-put_reg read.0 rd read.1 ∙ executed-load_half gba sh addr;
      cost = omega arith;
    }

module _ (ctl : Gba → ℕ → ℕ → Gba) (keeps : KeepsCount ctl) where
  pub store_from-Steps :
      (gba : Gba) (byte : Bool) (addr rd : ℕ) → Steps gba (store_from ctl gba byte addr rd)
  unfolding store_from
  store_from-Steps gba byte addr rd =
      either_case (Steps gba) byte
        (record { count = write8_executed ctl keeps gba addr _; cost = omega arith })
        (record { count = write32_executed ctl keeps gba _ _; cost = omega arith })

  pub store_half_from-Steps :
      (gba : Gba) (addr rd : ℕ) → Steps gba (store_half_from ctl gba addr rd)
  unfolding store_half_from
  store_half_from-Steps gba addr rd = record {
    count = write16_executed ctl keeps gba _ _;
    cost = omega arith;
  }

  pub load_store_reg-Steps :
      (gba : Gba) (instr : ℕ) → Steps gba (thumb_load_store_reg ctl gba instr)
  unfolding thumb_load_store_reg
  load_store_reg-Steps gba instr =
      let byte = test_bit instr 10 in
      let rd = bits instr 2 0 in
      let addr = u32 (gba.cpu.regs (bits instr 5 3) + gba.cpu.regs (bits instr 8 6)) in
      either_case (Steps gba) (test_bit instr 11) (load_to-Steps gba byte addr rd)
        (store_from-Steps gba byte addr rd)

  pub sign_ext-Steps : (gba : Gba) (instr : ℕ) → Steps gba (thumb_load_store_sign_ext ctl gba instr)
  unfolding thumb_load_store_sign_ext
  sign_ext-Steps gba instr =
      let h_bit = test_bit instr 11 in
      let s_bit = test_bit instr 10 in
      let rd = bits instr 2 0 in
      let addr = u32 (gba.cpu.regs (bits instr 5 3) + gba.cpu.regs (bits instr 8 6)) in
      either_case (Steps gba) (not s_bit && not h_bit) (store_half_from-Steps gba addr rd) (
        either_case (Steps gba) (not s_bit && h_bit) (load_half_to-Steps gba 1 addr rd) (
          either_case (Steps gba) (s_bit && not h_bit) (load_half_to-Steps gba 2 addr rd)
            (load_half_to-Steps gba 3 addr rd)))

  pub load_store_imm-Steps :
      (gba : Gba) (instr : ℕ) → Steps gba (thumb_load_store_imm ctl gba instr)
  unfolding thumb_load_store_imm
  load_store_imm-Steps gba instr =
      let byte = test_bit instr 12 in
      let offset5 = bits instr 10 6 in
      let rd = bits instr 2 0 in
      let addr =
        u32 (gba.cpu.regs (bits instr 5 3) + (if byte then offset5 else offset5 * 2 ^ 2)) in
      either_case (Steps gba) (test_bit instr 11) (load_to-Steps gba byte addr rd)
        (store_from-Steps gba byte addr rd)

  pub halfword-Steps : (gba : Gba) (instr : ℕ) → Steps gba (thumb_load_store_halfword ctl gba instr)
  unfolding thumb_load_store_halfword
  halfword-Steps gba instr =
      let rd = bits instr 2 0 in
      let addr = u32 (gba.cpu.regs (bits instr 5 3) + bits instr 10 6 * 2) in
      either_case (Steps gba) (test_bit instr 11) (load_half_to-Steps gba 1 addr rd)
        (store_half_from-Steps gba addr rd)

  pub sp_relative-Steps :
      (gba : Gba) (instr : ℕ) → Steps gba (thumb_sp_relative_load_store ctl gba instr)
  unfolding thumb_sp_relative_load_store
  sp_relative-Steps gba instr =
      let rd = bits instr 10 8 in
      let addr = u32 (gba.cpu.regs reg_sp + instr % 256 * 2 ^ 2) in
      either_case (Steps gba) (test_bit instr 11) (load_to-Steps gba false addr rd)
        (store_from-Steps gba false addr rd)
