-- ===== src/Cpu/Run/Bios/Huffs.antt =====
-- HuffUnComp leaves the count of executed cycles.
use gba_emulator.Base.{
  either_branch, either_case, if◌then◌else◌, leb, ltb, not, refl, suc, test_bit, u32, zero, ℕ, ◌%◌,
  ◌*◌, ◌+◌, ◌/◌, ◌==◌, ◌^◌, ◌∙◌, ◌≡◌,
}
use gba_emulator.System.State.{Gba}
use gba_emulator.Cpu.Bios.Huff.{
  Huffman, next_bit, to_root, huff_leaf, huff_step, huff_loop, swi_huff_uncomp,
}
use gba_emulator.Bus.Memory.{bus_read8, bus_read32}
use gba_emulator.Bus.Steady.{
  executed, KeepsCount, read8_executed, read32_executed, write32_executed,
}

abbrev HuffmanAt : Gba → Huffman → Type 0
HuffmanAt gba x = executed x.gba ≡ executed gba

executed-next_bit : (s : Huffman) → executed (next_bit s).gba ≡ executed s.gba
unfolding next_bit
executed-next_bit s =
    either_case (HuffmanAt s.gba) (leb 32 (s.bit_pos + 1)) (read32_executed s.gba s.data_addr) refl

module _ (ctl : Gba → ℕ → ℕ → Gba) (keeps : KeepsCount ctl) where
  executed-to_root :
      (tree_offset : ℕ) (s : Huffman) → executed (to_root tree_offset s).gba ≡ executed s.gba
  unfolding to_root
  executed-to_root tree_offset s = read8_executed s.gba tree_offset

  executed-huff_leaf :
      (dst bit_width tree_offset : ℕ) (s : Huffman)
      → executed (huff_leaf ctl dst bit_width tree_offset s).gba ≡ executed s.gba
  unfolding huff_leaf
  executed-huff_leaf dst bit_width tree_offset s =
      let read = bus_read8 s.gba s.node_addr in
      let leaf = read8_executed s.gba s.node_addr in
      either_case (HuffmanAt s.gba) (leb 32 (s.out_bits + bit_width))
        (write32_executed ctl keeps read.0 _ _ ∙ leaf) leaf

  executed-huff_step :
      (dst size bit_width tree_offset : ℕ) (s : Huffman)
      → executed (huff_step ctl dst size bit_width tree_offset s).gba ≡ executed s.gba
  unfolding huff_step
  executed-huff_step dst size bit_width tree_offset s =
      let right = test_bit s.current_data s.bit_pos in
      let child_base = u32 (s.node_addr / 2 * 2 + (s.node % 2 ^ 6 + 1) * 2) in
      let moved : Huffman = record (next_bit s) {
        node_addr = if right then u32 (child_base + 1) else child_base;
      } in
      let leaf = huff_leaf ctl dst bit_width tree_offset moved in
      let output : executed leaf.gba ≡ executed s.gba =
        executed-huff_leaf dst bit_width tree_offset moved ∙ executed-next_bit s in
      either_case (HuffmanAt s.gba) (not (if right then test_bit s.node 6 else test_bit s.node 7))
        (read8_executed moved.gba moved.node_addr ∙ executed-next_bit s)
        (either_case (HuffmanAt s.gba) (ltb leaf.bytes_written size)
          (executed-to_root tree_offset leaf ∙ output) output)

  executed-huff_loop :
      (fuel dst size bit_width tree_offset : ℕ) (s : Huffman)
      → executed (huff_loop ctl fuel dst size bit_width tree_offset s).gba ≡ executed s.gba
  unfolding huff_loop
  executed-huff_loop zero dst size bit_width tree_offset s = refl
  executed-huff_loop (suc fuel) dst size bit_width tree_offset s =
      either_case (HuffmanAt s.gba) (ltb s.bytes_written size)
        (executed-huff_loop fuel dst size bit_width tree_offset
            (huff_step ctl dst size bit_width tree_offset s)
          ∙ executed-huff_step dst size bit_width tree_offset s)
        refl

  pub executed-swi_huff_uncomp :
      (max_bits : ℕ) (gba : Gba) → executed (swi_huff_uncomp ctl max_bits gba) ≡ executed gba
  unfolding swi_huff_uncomp
  executed-swi_huff_uncomp max_bits gba =
      let start = gba.cpu.regs 0 in
      let dst = gba.cpu.regs 1 in
      let g1 = bus_read32 gba start in
      let bit_width = if g1.1 % 16 == 0 then 8 else g1.1 % 16 in
      let size = g1.1 / 2 ^ 8 in
      let src = u32 (start + 4) in
      let g2 = bus_read8 g1.0 src in
      let tree_offset = u32 (src + 1) in
      let data_offset = u32 (src + (g2.1 + 1) * 2) in
      let g3 = bus_read32 g2.0 data_offset in
      let s : Huffman = record {
        gba = g3.0;
        node_addr = tree_offset;
        node = 0;
        bit_pos = 0;
        current_data = g3.1;
        data_addr = u32 (data_offset + 4);
        bytes_written = 0;
        out_word = 0;
        out_bits = 0;
      } in
      let header : executed g3.0 ≡ executed gba =
        read32_executed g2.0 data_offset ∙ read8_executed g1.0 src ∙ read32_executed gba start in
      either_branch executed (ltb 0 size)
        (executed-huff_loop max_bits dst size bit_width tree_offset (to_root tree_offset s)
          ∙ executed-to_root tree_offset s
          ∙ header)
        header
