-- ===== src/Cpu/Run/Bios/Moves.antt =====
-- The functions of the high-level BIOS that copy blocks leave the count of executed cycles.
use gba_emulator.Base.{
  Bool, either_branch, either_case, refl, suc, test_bit, zero, ℕ, ◌%◌, ◌+◌, ◌/◌, ◌*◌, ◌^◌, ◌∙◌, ◌≡◌,
}
use gba_emulator.System.State.{Gba}
use gba_emulator.Cpu.Bios.Copy.{
  Move, copy_word, copy_words, copy_half, copy_halves, swi_cpu_set, swi_cpu_fast_set, bg_affine,
  obj_affine, repeat_move, swi_bg_affine_set, swi_obj_affine_set,
}
use gba_emulator.Cpu.Transfer.{half_aligned, word_aligned}
use gba_emulator.Bus.Memory.{bus_read16, bus_read32}
use gba_emulator.Bus.Steady.{
  executed, KeepsCount, read16_executed, read32_executed, write16_executed, write32_executed,
}

-- A round that leaves the count
abbrev Keeps : (Move → Move) → Type 0
Keeps body = (s : Move) → executed (body s).gba ≡ executed s.gba

module _ (ctl : Gba → ℕ → ℕ → Gba) (keeps : KeepsCount ctl) where
  executed-copy_word : (fill : Bool) (val : ℕ) → Keeps (copy_word ctl fill val)
  unfolding copy_word
  executed-copy_word fill val s =
      either_case (λ (x : Move). executed x.gba ≡ executed s.gba) fill
        (write32_executed ctl keeps s.gba s.dst val)
        (write32_executed ctl keeps (bus_read32 s.gba s.src).0 s.dst _
          ∙ read32_executed s.gba s.src)

  executed-copy_words : (left : ℕ) (fill : Bool) (val : ℕ) → Keeps (copy_words ctl left fill val)
  unfolding copy_words
  executed-copy_words zero fill val s = refl
  executed-copy_words (suc left) fill val s =
      executed-copy_words left fill val (copy_word ctl fill val s) ∙ executed-copy_word fill val s

  executed-copy_half : (fill : Bool) (val : ℕ) → Keeps (copy_half ctl fill val)
  unfolding copy_half
  executed-copy_half fill val s =
      either_case (λ (x : Move). executed x.gba ≡ executed s.gba) fill
        (write16_executed ctl keeps s.gba s.dst val)
        (write16_executed ctl keeps (bus_read16 s.gba s.src).0 s.dst _
          ∙ read16_executed s.gba s.src)

  executed-copy_halves : (left : ℕ) (fill : Bool) (val : ℕ) → Keeps (copy_halves ctl left fill val)
  unfolding copy_halves
  executed-copy_halves zero fill val s = refl
  executed-copy_halves (suc left) fill val s =
      executed-copy_halves left fill val (copy_half ctl fill val s) ∙ executed-copy_half fill val s

  pub executed-swi_cpu_set : (gba : Gba) → executed (swi_cpu_set ctl gba) ≡ executed gba
  unfolding swi_cpu_set
  executed-swi_cpu_set gba =
      let src = gba.cpu.regs 0 in
      let dst = gba.cpu.regs 1 in
      let control = gba.cpu.regs 2 in
      let fill = test_bit control 24 in
      let count = control % 2 ^ 21 in
      let word = bus_read32 gba (word_aligned src) in
      let half = bus_read16 gba (half_aligned src) in
      either_branch executed (test_bit control 26)
        (executed-copy_words count fill word.1
            record { gba = word.0; src = word_aligned src; dst = word_aligned dst }
          ∙ read32_executed gba (word_aligned src))
        (executed-copy_halves count fill half.1
            record { gba = half.0; src = half_aligned src; dst = half_aligned dst }
          ∙ read16_executed gba (half_aligned src))

  pub executed-swi_cpu_fast_set : (gba : Gba) → executed (swi_cpu_fast_set ctl gba) ≡ executed gba
  unfolding swi_cpu_fast_set
  executed-swi_cpu_fast_set gba =
      let src = word_aligned (gba.cpu.regs 0) in
      let control = gba.cpu.regs 2 in
      let word = bus_read32 gba src in
      executed-copy_words ((control % 2 ^ 21 + 7) / 8 * 8) (test_bit control 24) word.1
        record { gba = word.0; src = src; dst = word_aligned (gba.cpu.regs 1) }
      ∙ read32_executed gba src

  executed-bg_affine : Keeps (bg_affine ctl)
  unfolding bg_affine
  executed-bg_affine s =
      simp
        (write16_executed ctl keeps, write32_executed ctl keeps, read16_executed, read32_executed)
        refl

  executed-obj_affine : (stride : ℕ) → Keeps (obj_affine ctl stride)
  unfolding obj_affine
  executed-obj_affine stride s = simp (write16_executed ctl keeps, read16_executed) refl

  executed-repeat_move :
      (body : Move → Move) → Keeps body → (left : ℕ) → Keeps (repeat_move ctl body left)
  unfolding repeat_move
  executed-repeat_move body same zero s = refl
  executed-repeat_move body same (suc left) s =
      executed-repeat_move body same left (body s) ∙ same s

  pub executed-swi_bg_affine_set : (gba : Gba) → executed (swi_bg_affine_set ctl gba) ≡ executed gba
  unfolding swi_bg_affine_set
  executed-swi_bg_affine_set gba =
      let regs = gba.cpu.regs in
      executed-repeat_move (bg_affine ctl) executed-bg_affine (regs 2)
        record { gba = gba; src = regs 0; dst = regs 1 }

  pub executed-swi_obj_affine_set :
      (gba : Gba) → executed (swi_obj_affine_set ctl gba) ≡ executed gba
  unfolding swi_obj_affine_set
  executed-swi_obj_affine_set gba =
      let regs = gba.cpu.regs in
      executed-repeat_move (obj_affine ctl (regs 3)) (executed-obj_affine (regs 3)) (regs 2)
        record { gba = gba; src = regs 0; dst = regs 1 }
