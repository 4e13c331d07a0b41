-- ===== src/Dma/Copy.antt =====
-- A transfer between two memories of the bus is a copy of bytes.
pub mod Blocks
mod Unit
mod Ends
use gba_emulator.Base.{
  Bool, Bool-cases, ap, arith, copy, false, if◌then◌else◌, inl, inr, none, not, refl, suc, true,
  zero, ℕ, ◌%◌, ◌&&◌, ◌*◌, ◌+◌, ◌-◌, ◌/◌, ◌<◌, ◌==◌, ◌^◌, ◌∙◌, ◌≡◌, ◌≢◌, ◌≤◌,
}
use gba_emulator.System.State.{Gba, set_channel}
use gba_emulator.Dma.State.{DmaChannel}
use gba_emulator.Bus.Bytes.{join4_value}
use gba_emulator.Bus.Memory.{decode_region, vram_offset, write_four}
use gba_emulator.Bus.Ram.{
  in_ram, memory, set_memory, offset_in, offset_in_word, memory_size, write32_ram,
}
use gba_emulator.Bus.Storage.{memory-set_memory, word_in, read32_ram}
use gba_emulator.Dma.{
  is_fifo_transfer, transfer_count, uses_32, mask_addresses, adjust_source, adjust_dest, disable,
  reload_dest, fire_irq, settle, run_transfer, finish, activate, transfer_unit, transfer,
  dma_execute,
}
use gba_emulator.Dma.Copy.Blocks.{IsBytes, Span, offset_next, region_next, Span-next, Span-first}
use gba_emulator.Dma.Copy.Unit.{stepped, moved, whole_word, copy_more, unit_lem}
use gba_emulator.Dma.Copy.Ends.{
  memory-activate, memory-finish, finish-channel, finish-active, activate-channel,
}

when_enabled : (b : Bool) → b ≡ true → (off run : Gba × ℕ) → (if not b then off else run) ≡ run
when_enabled b on off run = rw on refl

module _ (nested : Gba → ℕ → ℕ → Gba) (ch : ℕ) where
  transfer_lem :
      (n : ℕ) (gba : Gba) (dc : DmaChannel) (rs rd : ℕ)
      → gba.dma.channels ch ≡ dc
      → Span dc.source rs (suc n)
      → Span dc.dest rd (suc n)
      → rs ≢ rd
      → dc.src_adjust ≡ 0
      → dc.dest_adjust ≡ 0
      → IsBytes (memory gba rs)
      → dc.source + 4 * n < 2 ^ 27
      → dc.dest + 4 * n < 2 ^ 27
      → ((transfer nested (suc n) gba ch false true).dma.channels ch
          ≡ record dc { source = dc.source + 4 * suc n; dest = dc.dest + 4 * suc n })
        × ((r o : ℕ)
            → in_ram r ≡ true
            → memory (transfer nested (suc n) gba ch false true) r o ≡ (
                if r == rd
                then copy
                    (memory gba rd)
                    (offset_in rd dc.dest)
                    (memory gba rs)
                    (offset_in rs dc.source)
                    (4 * suc n)
                    o
                else memory gba r o))
  unfolding transfer
  transfer_lem zero gba dc rs rd e s d ne up up' bytes low low' =
      unfold stepped in unit_lem nested ch gba dc rs rd e s d up up' bytes
  transfer_lem (suc n) gba dc rs rd e s d ne up up' bytes low low' =
      let (channel, bytes_of) =
        unit_lem nested ch gba dc rs rd e (Span-first s) (Span-first d) up up' bytes in
      let next = transfer_unit nested gba ch false true in
      let from = offset_in rs dc.source in
      let to = offset_in rd dc.dest in
      let kept : (x : ℕ) → memory next rs x ≡ memory gba rs x =
        λ x. bytes_of rs x s.ram ∙ ground (arith, ne) in
      let (last, rest) =
        transfer_lem n next (stepped dc) rs rd channel
          (unfold stepped in Span-next s (omega (arith, low)))
          (unfold stepped in Span-next d (omega (arith, low'))) ne (unfold stepped in up)
          (unfold stepped in up') (λ x. omega (arith, kept x, bytes x))
          (unfold stepped in omega (arith, low)) (unfold stepped in omega (arith, low')) in
      (
        last ∙ unfold stepped in ground arith,
        λ r o ram.
            rest r o ram
            ∙ unfold stepped in
              rw (offset_next s, offset_next d)
                (ground (
                  arith,
                  copy_more (memory gba rd) (memory next rd) (memory gba rs) (memory next rs) to
                      from n o (bytes_of rd o d.ram ∙ ground arith) kept,
                  bytes_of r o ram,
                )),
      )

  -- The settings that the transfer runs with
  settings :
      (gba : Gba) (n : ℕ)
      → let dc = gba.dma.channels ch in
        dc.enabled ≡ true
        → transfer_count dc ch ≡ suc n
        → dc.transfer_32 ≡ true
        → is_fifo_transfer dc ch ≡ false
        → dma_execute nested gba ch
          ≡ (finish (transfer nested (suc n) (activate gba ch) ch false true) ch false, suc n * 2)
  settings gba n on counted wide plain =
      let dc = gba.dma.channels ch in
      let use_32 : uses_32 dc ch ≡ true = unfold uses_32 in rw plain wide in
      let run = run_transfer nested gba ch in
      unfold dma_execute in
      when_enabled dc.enabled on (gba, 0)
        (run (transfer_count dc ch) (is_fifo_transfer dc ch) (uses_32 dc ch))
      ∙ ap (λ c. run c (is_fifo_transfer dc ch) (uses_32 dc ch)) counted
      ∙ ap (λ f. run (suc n) f (uses_32 dc ch)) plain
      ∙ ap (λ u. run (suc n) false u) use_32
      ∙ unfold run_transfer in refl

  -- A channel that is enabled for words, counts both addresses up and is not a FIFO channel, with at
  -- least one word to transfer by `transfer_count` (where a count of 0 stands for the most), copies its
  -- block of words byte for byte, from one memory of bytes on the bus to another, where both addresses
  -- are multiples of 4, both blocks lie inside one region, one round of its mirrors and the first
  -- 2^27 bytes: each byte of the block at the destination is the one at the source, and every other
  -- byte of the five memories is as before. It takes two cycles for each word; afterwards no channel is active, and
  -- the channel stays enabled only where it repeats on a timing that is not immediate.
  pub dma_execute-copy :
      (gba : Gba) (n rs rd : ℕ)
      → let dc = gba.dma.channels ch in
        dc.enabled ≡ true
        → transfer_count dc ch ≡ suc n
        → dc.transfer_32 ≡ true
        → is_fifo_transfer dc ch ≡ false
        → dc.src_adjust ≡ 0
        → dc.dest_adjust ≡ 0
        → Span dc.source rs (suc n)
        → Span dc.dest rd (suc n)
        → rs ≢ rd
        → IsBytes (memory gba rs)
        → dc.source + 4 * n < 2 ^ 27
        → dc.dest + 4 * n < 2 ^ 27
        → let (after, cost) = dma_execute nested gba ch in
          ((r o : ℕ)
            → in_ram r ≡ true
            → memory after r o ≡ (
                if r == rd
                then copy
                    (memory gba rd)
                    (offset_in rd dc.dest)
                    (memory gba rs)
                    (offset_in rs dc.source)
                    (4 * suc n)
                    o
                else memory gba r o))
          × (cost ≡ 2 * suc n)
          × (after.dma.active_channel ≡ none)
          × ((after.dma.channels ch).enabled ≡ (dc.repeat && not (dc.timing == 0)))
  dma_execute-copy gba n rs rd on counted wide plain up up' s d ne bytes low low' =
      let dc = gba.dma.channels ch in
      let started = activate gba ch in
      let (last, copied) =
        transfer_lem n started dc rs rd (activate-channel ch gba refl s.below d.below) s d ne up up'
          (λ o. rw (memory-activate ch gba rs) (bytes o)) low low' in
      let done = transfer nested (suc n) started ch false true in
      rw (settings gba n on counted wide plain) (
        λ r o ram.
            ap (λ f. f o) (memory-finish ch done false r)
            ∙ copied r o ram
            ∙ rw (memory-activate ch gba r, memory-activate ch gba rd, memory-activate ch gba rs)
                refl,
        omega arith,
        finish-active ch done false,
        finish-channel ch done last up' ∙ ground (arith, on),
      )
