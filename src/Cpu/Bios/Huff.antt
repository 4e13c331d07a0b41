-- ===== src/Cpu/Bios/Huff.antt =====
-- HuffUnComp of src/cpu/bios_hle.c.
use gba_emulator.Base.{
  bit_or, if◌then◌else◌, leb, ltb, not, suc, test_bit, u32, zero, ℕ, ◌%◌, ◌*◌, ◌+◌, ◌/◌, ◌==◌, ◌^◌,
}
use gba_emulator.System.State.{Gba}
use gba_emulator.Bus.Memory.{bus_read8, bus_read32, bus_write32}

-- The variables of the loops of HuffUnComp
pub record Huffman : Type 0 where
  pub gba : Gba
  pub node_addr : ℕ
  pub node : ℕ
  pub bit_pos : ℕ
  pub current_data : ℕ
  pub data_addr : ℕ
  pub bytes_written : ℕ
  pub out_word : ℕ
  pub out_bits : ℕ

-- "Read one bit from the bitstream"
unfoldable pub next_bit : Huffman → Huffman
next_bit s =
    let (read, word) = bus_read32 s.gba s.data_addr in
    if leb 32 (s.bit_pos + 1)
    then record s {
      gba = read;
      current_data = word;
      data_addr = u32 (s.data_addr + 4);
      bit_pos = 0;
    }
    else record s { bit_pos = s.bit_pos + 1 }

-- "Start from root"
unfoldable pub to_root : ℕ → Huffman → Huffman
to_root tree_offset s =
    let (read, node) = bus_read8 s.gba tree_offset in
    record s { gba = read; node_addr = tree_offset; node = node }

module _ (dma_write_control : Gba → ℕ → ℕ → Gba) where
  -- A leaf: its value is output, and the next one starts from the root.
  unfoldable pub huff_leaf : ℕ → ℕ → ℕ → Huffman → Huffman
  unfolding to_root
  huff_leaf dst bit_width tree_offset s =
      let (read, leaf_val) = bus_read8 s.gba s.node_addr in
      let word = bit_or s.out_word (u32 (leaf_val * 2 ^ s.out_bits)) in
      let out_bits = s.out_bits + bit_width in
      if leb 32 out_bits
      then record s {
        gba = bus_write32 dma_write_control read (u32 (dst + s.bytes_written)) word;
        bytes_written = u32 (s.bytes_written + 4);
        out_word = 0;
        out_bits = 0;
      }
      else record s { gba = read; out_word = word; out_bits = out_bits }

  -- A round of the inner loop, which follows one bit of the stream
  unfoldable pub huff_step : ℕ → ℕ → ℕ → ℕ → Huffman → Huffman
  unfolding next_bit to_root huff_leaf
  huff_step dst size bit_width tree_offset s =
      let right = test_bit s.current_data s.bit_pos in
      let child_base = u32 (s.node_addr / 2 * 2 + (s.node % 2 ^ 6 + 1) * 2) in
      let is_leaf = if right then test_bit s.node 6 else test_bit s.node 7 in
      let moved : Huffman = record (next_bit s) {
        node_addr = if right then u32 (child_base + 1) else child_base;
      } in
      let (read, node) = bus_read8 moved.gba moved.node_addr in
      let leaf = huff_leaf dst bit_width tree_offset moved in
      if not is_leaf
      then record moved { gba = read; node = node }
      else if ltb leaf.bytes_written size
      then to_root tree_offset leaf
      else leaf

  -- Both loops, with fuel for the bits of the stream
  unfoldable pub huff_loop : ℕ → ℕ → ℕ → ℕ → ℕ → Huffman → Huffman
  unfolding huff_step
  huff_loop zero dst size bit_width tree_offset s = s
  huff_loop (suc fuel) dst size bit_width tree_offset s =
      let next = huff_step dst size bit_width tree_offset s in
      let rest = huff_loop fuel dst size bit_width tree_offset next in
      if ltb s.bytes_written size then rest else s

  -- `max_bits` is the fuel. The source has no bound: along a cycle of the tree it reads for ever.
  unfoldable pub swi_huff_uncomp : ℕ → Gba → Gba
  unfolding to_root huff_loop
  swi_huff_uncomp max_bits gba =
      let start = gba.cpu.regs 0 in
      let dst = gba.cpu.regs 1 in
      let (g1, header) = bus_read32 gba start in
      let bit_width = if header % 16 == 0 then 8 else header % 16 in
      let decomp_size = header / 2 ^ 8 in
      let src = u32 (start + 4) in
      let (g2, tree_size_byte) = bus_read8 g1 src in
      let tree_offset = u32 (src + 1) in
      let data_offset = u32 (src + (tree_size_byte + 1) * 2) in
      let (g3, current_data) = bus_read32 g2 data_offset in
      let s : Huffman = record {
        gba = g3;
        node_addr = tree_offset;
        node = 0;
        bit_pos = 0;
        current_data = current_data;
        data_addr = u32 (data_offset + 4);
        bytes_written = 0;
        out_word = 0;
        out_bits = 0;
      } in
      if ltb 0 decomp_size
      then (huff_loop max_bits dst decomp_size bit_width tree_offset (to_root tree_offset s)).gba
      else g3
