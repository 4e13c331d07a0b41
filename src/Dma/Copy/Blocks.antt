-- ===== src/Dma/Copy/Blocks.antt =====
-- Blocks of words in one memory.
use gba_emulator.Base.{arith, suc, true, ℕ, ◌%◌, ◌*◌, ◌+◌, ◌<◌, ◌^◌, ◌∙◌, ◌≡◌, ◌≤◌}
use gba_emulator.Bus.Memory.{decode_region, vram_offset}
use gba_emulator.Bus.Ram.{in_ram, offset_in, memory_size}

-- Each element is a byte.
abbrev pub IsBytes : (ℕ → ℕ) → Type 0
IsBytes m = (o : ℕ) → m o < 2 ^ 8

-- A block of `n` words from `addr` on: inside one region and one round of its mirrors.
pub record Span (addr region n : ℕ) : Type 0 where
  pub ram : in_ram region ≡ true
  pub region_is : decode_region addr ≡ region
  pub aligned : addr % 4 ≡ 0
  pub below : addr < 2 ^ 27
  pub in_region : addr % 2 ^ 24 + 4 * n ≤ 2 ^ 24
  pub in_memory : offset_in region addr + 4 * n ≤ memory_size region

pub offset_next :
    {addr region n : ℕ}
    → Span addr region (suc (suc n))
    → offset_in region (addr + 4) ≡ offset_in region addr + 4
unfolding offset_in memory_size vram_offset
offset_next {addr} {region} {n} s = ground arith

pub region_next :
    (addr : ℕ) → addr % 2 ^ 24 + 8 ≤ 2 ^ 24 → decode_region (addr + 4) ≡ decode_region addr
unfolding decode_region
region_next addr h = omega arith

pub Span-next :
    {addr region n : ℕ}
    → Span addr region (suc (suc n))
    → addr + 4 < 2 ^ 27
    → Span (addr + 4) region (suc n)
Span-next {addr} {region} {n} s low = record {
  ram = s.ram;
  region_is = region_next addr (omega (arith, s.in_region)) ∙ s.region_is;
  aligned = omega (arith, s.aligned);
  below = low;
  in_region = omega (arith, s.in_region);
  in_memory = omega (arith, s.in_memory, offset_next s);
}

pub Span-first : {addr region n : ℕ} → Span addr region (suc n) → Span addr region 1
Span-first s = record {
  ram = s.ram;
  region_is = s.region_is;
  aligned = s.aligned;
  below = s.below;
  in_region = omega (arith, s.in_region);
  in_memory = omega (arith, s.in_memory);
}
