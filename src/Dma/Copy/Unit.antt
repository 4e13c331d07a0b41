-- ===== src/Dma/Copy/Unit.antt =====
-- One round of the loop of `dma_execute`.
use gba_emulator.Base.{
  ap, arith, copy, false, if◌then◌else◌, refl, suc, true, ℕ, ◌%◌, ◌*◌, ◌+◌, ◌-◌, ◌/◌, ◌<◌, ◌==◌,
  ◌^◌, ◌∙◌, ◌≡◌,
}
use gba_emulator.System.State.{Gba, set_channel}
use gba_emulator.Dma.State.{DmaChannel}
use gba_emulator.Bus.Bytes.{join4_value}
use gba_emulator.Bus.Memory.{write_four}
use gba_emulator.Bus.Ram.{in_ram, memory, set_memory, offset_in, offset_in_word, write32_ram}
use gba_emulator.Bus.Storage.{memory-set_memory, word_in, read32_ram}
use gba_emulator.Dma.{adjust_source, adjust_dest, transfer_unit}
use gba_emulator.Dma.Copy.Blocks.{IsBytes, Span}

set_memory-dma : (gba : Gba) (region : ℕ) (m : ℕ → ℕ) → (set_memory gba region m).dma ≡ gba.dma
unfolding set_memory
set_memory-dma gba region m = ground arith

-- A word that is read and stored is its four bytes.
write_four-word_in :
    (resolve m src : ℕ → ℕ) (at o from : ℕ)
    → IsBytes src
    → resolve (at + 1) ≡ resolve at + 1
    → resolve (at + 2) ≡ resolve at + 2
    → resolve (at + 3) ≡ resolve at + 3
    → write_four resolve m at (word_in src from) o ≡ copy m (resolve at) src from 4 o
unfolding write_four
write_four-word_in resolve m src at o from bytes e1 e2 e3 =
    rw
      (
        e1,
        e2,
        e3,
        join4_value (src from) (src (from + 1)) (src (from + 2)) (src (from + 3)) (bytes from)
            (bytes (from + 1)) (bytes (from + 2)),
      )
      (ground (arith, bytes from, bytes (from + 1), bytes (from + 2), bytes (from + 3)))

unfoldable pub stepped : DmaChannel → DmaChannel
stepped dc = record dc { source = dc.source + 4; dest = dc.dest + 4 }

adjust_lem :
    (dc : DmaChannel)
    → dc.src_adjust ≡ 0
    → dc.dest_adjust ≡ 0
    → dc.source < 2 ^ 27
    → dc.dest < 2 ^ 27
    → adjust_dest (adjust_source dc 4) false 4 ≡ stepped dc
unfolding adjust_source adjust_dest stepped
adjust_lem dc up up' s d = ground arith

-- The memory of the region after a word has moved.
abbrev pub moved : Gba → ℕ → ℕ → ℕ → ℕ → ℕ → ℕ
moved gba rs source rd dest =
    write_four (offset_in rd) (memory gba rd) dest (word_in (memory gba rs) (offset_in rs source))

pub whole_word : (addr : ℕ) → addr % 4 ≡ 0 → addr / 4 * 4 ≡ addr
whole_word addr h = omega arith

memory_channel :
    (gba : Gba) (ch : ℕ) (dc : DmaChannel) (r : ℕ) → memory (set_channel gba ch dc) r ≡ memory gba r
unfolding memory
memory_channel gba ch dc r = refl

-- A copy of four bytes, and of the rest after them.
pub copy_more :
    (m m1 src src1 : ℕ → ℕ) (to from n o : ℕ)
    → m1 o ≡ copy m to src from 4 o
    → ((x : ℕ) → src1 x ≡ src x)
    → copy m1 (to + 4) src1 (from + 4) (4 * suc n) o ≡ copy m to src from (4 * suc (suc n)) o
copy_more m m1 src src1 to from n o first kept = ground (
  arith,
  first,
  kept (from + 4 + (o - (to + 4))),
  ap src {x = from + 4 + (o - (to + 4))} {y = from + (o - to)},
)

module _ (nested : Gba → ℕ → ℕ → Gba) (ch : ℕ) where
  unit_state :
      (gba : Gba) (dc : DmaChannel) (rs rd : ℕ)
      → gba.dma.channels ch ≡ dc
      → Span dc.source rs 1
      → Span dc.dest rd 1
      → dc.src_adjust ≡ 0
      → dc.dest_adjust ≡ 0
      → transfer_unit nested gba ch false true
        ≡ set_channel (set_memory gba rd (moved gba rs dc.source rd dc.dest)) ch (stepped dc)
  unfolding transfer_unit
  unit_state gba dc rs rd e s d up up' =
      let m = moved gba rs dc.source rd dc.dest in
      let same : (set_memory gba rd m).dma.channels ch ≡ dc =
        ap (λ t. t.channels ch) (set_memory-dma gba rd m) ∙ e in
      rw
        (
          e,
          read32_ram gba dc.source rs s.region_is s.ram,
          whole_word dc.source s.aligned,
          e,
          write32_ram nested gba dc.dest rd (word_in (memory gba rs) (offset_in rs dc.source))
              d.region_is d.ram,
          whole_word dc.dest d.aligned,
          same,
          adjust_lem dc up up' s.below d.below,
        )
        refl

  -- One round of the loop moves four bytes and steps both addresses.
  pub unit_lem :
      (gba : Gba) (dc : DmaChannel) (rs rd : ℕ)
      → gba.dma.channels ch ≡ dc
      → Span dc.source rs 1
      → Span dc.dest rd 1
      → dc.src_adjust ≡ 0
      → dc.dest_adjust ≡ 0
      → IsBytes (memory gba rs)
      → ((transfer_unit nested gba ch false true).dma.channels ch ≡ stepped dc)
        × ((r o : ℕ)
            → in_ram r ≡ true
            → memory (transfer_unit nested gba ch false true) r o ≡ (
                if r == rd
                then copy
                    (memory gba rd)
                    (offset_in rd dc.dest)
                    (memory gba rs)
                    (offset_in rs dc.source)
                    4
                    o
                else memory gba r o))
  unit_lem gba dc rs rd e s d up up' bytes =
      let m = moved gba rs dc.source rd dc.dest in
      let to = offset_in rd in
      let side = λ (k : ℕ) (p : k < 4).
        let whole = whole_word dc.dest d.aligned in rw whole at (offset_in_word rd dc.dest k p) in
      rw (unit_state gba dc rs rd e s d up up') (
        ground arith,
        λ r o ram.
            ap (λ f. f o) (memory_channel (set_memory gba rd m) ch (stepped dc) r)
            ∙ ap (λ f. f o) (memory-set_memory gba rd r m d.ram ram)
            ∙ ground (
              arith,
              write_four-word_in to (memory gba rd) (memory gba rs) dc.dest o
                  (offset_in rs dc.source) bytes (side 1 (omega arith)) (side 2 (omega arith))
                  (side 3 (omega arith)),
            ),
      )
