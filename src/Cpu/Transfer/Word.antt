-- ===== src/Cpu/Transfer/Word.antt =====
-- LDR and STR in the memories of the bus.
use gba_emulator.Base.{
  ap, ap₂, arith, bit, bit-div_pow, bit-mod_pow, bit-mul_pow, bit-or, bit_above, bits, false,
  if◌then◌else◌, ltb, max, refl, same, test_bit, true, ℕ, ◌%◌, ◌*◌, ◌+◌, ◌-◌, ◌/◌, ◌<◌, ◌==◌, ◌^◌,
  ◌∙◌, ◌≡◌, ◌≢◌,
}
use native.Mathlib.Decide.{ℕ_discrete, dec_lt}
use gba_emulator.System.State.{Gba}
use gba_emulator.Cpu.State.{Cpu}
use gba_emulator.Cpu.Transfer.{
  put_reg, rotate_word, load_reg, stored_value, effective_address, write_back, single_offset,
  word_aligned, load_single, arm_single_transfer,
}
use gba_emulator.Bus.Memory.{decode_region, bus_read32, bus_write32}
use gba_emulator.Bus.Ram.{in_ram, set_memory, region_aligned, write32_ram}
use gba_emulator.Bus.Storage.{read-write_ram, write_ram_only}

-- A transfer of a word, pre-indexed without writeback, of a register other than R15.
pub record IsPlainWord (instr : ℕ) : Type 0 where
  pub pre : test_bit instr 24 ≡ true
  pub word : test_bit instr 22 ≡ false
  pub no_writeback : test_bit instr 21 ≡ false
  pub not_pc : bits instr 15 12 ≢ 15

-- The effective address of the instruction
abbrev pub address_of : Cpu → ℕ → ℕ
address_of cpu instr =
    effective_address instr (cpu.regs (bits instr 19 16)) (single_offset cpu instr)

-- The two parts of a rotated word do not overlap.
halves :
    (word rot n : ℕ)
    → word < 2 ^ 32
    → n < 32
    → rot ≢ 0
    → rot < 32
    → max
        (bit word (n + rot))
        (if ltb n 32 then (if ltb n (32 - rot) then 0 else bit word (n - (32 - rot))) else 0)
      ≡ bit word ((n + rot) % 32)
halves word rot n h p ne q = elim (dec_lt n (32 - rot)) [
  | yes low ↦ ground (arith, ap (λ k. bit word k) {x = n + rot} {y = (n + rot) % 32} (omega arith))
  | no high ↦ ground (
    arith,
    bit_above 32 (n + rot) word h,
    ap (λ k. bit word k) {x = n - (32 - rot)} {y = (n + rot) % 32} (omega arith),
  )
]

-- The rotation on digits: by eight places for each byte that the address is past a multiple of 4.
rotate_word_digits :
    (word addr n : ℕ)
    → word < 2 ^ 32
    → n < 32
    → bit (rotate_word word addr) n ≡ bit word ((n + addr % 4 * 8) % 32)
unfolding rotate_word
rotate_word_digits word addr n h p = elim (ℕ_discrete (addr % 4 * 8) 0) [
  | yes e ↦ ground (arith, ap (λ k. bit word k) {x = n} {y = (n + addr % 4 * 8) % 32} (omega arith))
  | no ne ↦
      let rot = addr % 4 * 8 in
      let apart : (rot == 0) ≡ false = ground (arith, ne) in
      rw apart (
        bit-or n (word / 2 ^ rot) (word * 2 ^ (32 - rot) % 2 ^ 32)
        ∙ rw
            (
              bit-div_pow rot n word,
              bit-mod_pow 32 n (word * 2 ^ (32 - rot)),
              bit-mul_pow (32 - rot) n word,
            )
            (halves word rot n h p ne (omega arith)))
]

module _ (ctl : Gba → ℕ → ℕ → Gba) where
  str_word :
      (gba : Gba) (instr : ℕ)
      → IsPlainWord instr
      → test_bit instr 20 ≡ false
      → (arm_single_transfer ctl gba instr).0
        ≡ bus_write32 ctl gba
            (word_aligned (address_of gba.cpu instr))
            (gba.cpu.regs (bits instr 15 12))
  str_word gba instr plain store =
      let value : stored_value gba.cpu (bits instr 15 12) ≡ gba.cpu.regs (bits instr 15 12) =
        unfold stored_value in ground (arith, plain.not_pc) in
      unfold arm_single_transfer in
      rw (store, plain.word, value) (unfold write_back in rw (plain.pre, plain.no_writeback) refl)

  ldr_word :
      (gba : Gba) (instr : ℕ)
      → IsPlainWord instr
      → test_bit instr 20 ≡ true
      → let addr = address_of gba.cpu instr in
        let (read, word) = bus_read32 gba (word_aligned addr) in
        (arm_single_transfer ctl gba instr).0
        ≡ put_reg read (bits instr 15 12) (rotate_word word addr)
  ldr_word gba instr plain load =
      let other : (bits instr 15 12 == 15) ≡ false = ground (arith, plain.not_pc) in
      unfold arm_single_transfer load_single load_reg in
      rw (load, plain.word, other) (unfold write_back in rw (plain.pre, plain.no_writeback) refl)

  set_memory-cpu : (gba : Gba) (region : ℕ) (m : ℕ → ℕ) → (set_memory gba region m).cpu ≡ gba.cpu
  unfolding set_memory
  set_memory-cpu gba region m = ground arith

  loaded :
      (g : Gba) (c : Cpu) (ld val addr r : ℕ)
      → IsPlainWord ld
      → test_bit ld 20 ≡ true
      → g.cpu ≡ c
      → address_of c ld ≡ addr
      → bus_read32 g (word_aligned addr) ≡ (g, val)
      → (arm_single_transfer ctl g ld).0.cpu.regs r
        ≡ (if r == bits ld 15 12 then rotate_word val addr else c.regs r)
  loaded g c ld val addr r plain load same e read =
      let at : address_of g.cpu ld ≡ addr = ap (λ t. address_of t ld) same ∙ e in
      ap (λ t. t.cpu.regs r) (ldr_word g ld plain load)
      ∙ rw (at, read) (ap (λ t. if r == bits ld 15 12 then rotate_word val addr else t.regs r) same)

  stored-cpu :
      (gba : Gba) (addr val : ℕ)
      → in_ram (decode_region addr) ≡ true
      → (bus_write32 ctl gba addr val).cpu ≡ gba.cpu
  stored-cpu gba addr val ram =
      ap (λ t. t.cpu) (write32_ram ctl gba addr (decode_region addr) val refl ram)
      ∙ set_memory-cpu gba (decode_region addr) _

  read_stored :
      (gba : Gba) (addr val : ℕ)
      → in_ram (decode_region addr) ≡ true
      → val < 2 ^ 32
      → let stored = bus_write32 ctl gba addr val in bus_read32 stored addr ≡ (stored, val)
  read_stored gba addr val ram fits =
      let stored = bus_write32 ctl gba addr val in
      let (word, half) = read-write_ram ctl gba addr addr val 0 ram ram fits (omega arith) in
      let (w32, w16, r32, r16, r8) = write_ram_only ctl stored addr val ram in
      ap₂ (λ g v. (g, v)) r32 (word ∙ ground arith)

  str_ldr_regs :
      (gba : Gba) (st ld : ℕ)
      → IsPlainWord st
      → IsPlainWord ld
      → test_bit st 20 ≡ false
      → test_bit ld 20 ≡ true
      → address_of gba.cpu st ≡ address_of gba.cpu ld
      → in_ram (decode_region (address_of gba.cpu ld)) ≡ true
      → gba.cpu.regs (bits st 15 12) < 2 ^ 32
      → (r : ℕ)
      → (arm_single_transfer ctl (arm_single_transfer ctl gba st).0 ld).0.cpu.regs r ≡ (
          if r == bits ld 15 12
          then rotate_word (gba.cpu.regs (bits st 15 12)) (address_of gba.cpu ld)
          else gba.cpu.regs r)
  str_ldr_regs gba st ld plain plain' store load e ram fits r =
      let addr = address_of gba.cpu ld in
      let val = gba.cpu.regs (bits st 15 12) in
      let at = word_aligned addr in
      let here : in_ram (decode_region at) ≡ true = rw (region_aligned addr) ram in
      let first : (arm_single_transfer ctl gba st).0 ≡ bus_write32 ctl gba at val =
        str_word gba st plain store ∙ ap (λ a. bus_write32 ctl gba (word_aligned a) val) e in
      ap (λ g. (arm_single_transfer ctl g ld).0.cpu.regs r) first
      ∙ loaded (bus_write32 ctl gba at val) gba.cpu ld val addr r plain' load
          (stored-cpu gba at val here) refl (read_stored gba at val here fits)

  -- A word that STR stores to one of the five memories is loaded by LDR from there: the register of
  -- the load gets it, rotated right by eight digits for each byte that the address is past a multiple
  -- of 4; no other register changes. Both are pre-indexed without writeback, neither transfers R15,
  -- and the stored register holds 32 bits.
  pub ldr-str :
      (gba : Gba) (st ld : ℕ)
      → IsPlainWord st
      → IsPlainWord ld
      → test_bit st 20 ≡ false
      → test_bit ld 20 ≡ true
      → address_of gba.cpu st ≡ address_of gba.cpu ld
      → in_ram (decode_region (address_of gba.cpu ld)) ≡ true
      → gba.cpu.regs (bits st 15 12) < 2 ^ 32
      → let addr = address_of gba.cpu ld in
        let after = (arm_single_transfer ctl (arm_single_transfer ctl gba st).0 ld).0.cpu in
        ((n : ℕ)
          → n < 32
          → bit (after.regs (bits ld 15 12)) n
            ≡ bit (gba.cpu.regs (bits st 15 12)) ((n + addr % 4 * 8) % 32))
        × ((r : ℕ) → r ≢ bits ld 15 12 → after.regs r ≡ gba.cpu.regs r)
  ldr-str gba st ld plain plain' store load e ram fits =
      let regs = str_ldr_regs gba st ld plain plain' store load e ram fits in
      (
        λ n p.
            ap (λ v. bit v n) (regs (bits ld 15 12) ∙ ground arith)
            ∙ rotate_word_digits (gba.cpu.regs (bits st 15 12)) (address_of gba.cpu ld) n fits p,
        λ r ne. regs r ∙ ground (arith, ne),
      )
