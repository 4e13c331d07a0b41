-- ===== src/Apu/Fifo/Queue.antt =====
-- A FIFO holds a list of samples, oldest first: an abstract view of the ring.
use gba_emulator.Base.{
  List, [], ap, ap₂, arith, false, if◌then◌else◌, leb, length, refl, suc, sym, true, u8, update,
  zero, ℕ, ◌%◌, ◌++◌, ◌+◌, ◌-◌, ◌/◌, ◌<◌, ◌==◌, ◌^◌, ◌∙◌, ◌∷◌, ◌≡◌, ◌≢◌, ◌≤◌,
}
use native.Mathlib.Decide.{dec_lt, ℕ_discrete}
use gba_emulator.Apu.State.{Fifo, fifo_size}
use gba_emulator.Apu.Fifo.{fifo_reset, write_sample, fifo_write, fifo_pop}

-- `n` samples from slot `at` on.
unfoldable pub walk : (ℕ → ℕ) → ℕ → ℕ → List ℕ
walk buffer at zero = []
walk buffer at (suc n) = buffer (at % fifo_size) ∷ walk buffer (at + 1) n

unfoldable pub contents : Fifo → List ℕ
contents fifo = walk fifo.buffer fifo.read_idx fifo.count

pub record IsValid (fifo : Fifo) : Type 0 where
  pub counted : fifo.count ≤ fifo_size
  pub reads : fifo.read_idx < fifo_size
  pub writes : fifo.write_idx ≡ (fifo.read_idx + fifo.count) % fifo_size

walk_mod : (b : ℕ → ℕ) (a c n : ℕ) → a % 32 ≡ c % 32 → walk b a n ≡ walk b c n
unfolding walk
walk_mod b a c zero e = refl
walk_mod b a c (suc n) e = ap₂ (λ x t. x ∷ t) (ap b e) (walk_mod b (a + 1) (c + 1) n (omega arith))

walk_snoc : (b : ℕ → ℕ) (at n : ℕ) → walk b at (suc n) ≡ walk b at n ++ (b ((at + n) % 32) ∷ [])
unfolding walk
walk_snoc b at zero = ap (λ k. b (k % 32) ∷ []) {x = at} {y = at + 0} (omega arith)
walk_snoc b at (suc n) =
    ap (λ t. b (at % 32) ∷ t) (walk_snoc b (at + 1) n)
    ∙ ap (λ k. b (at % 32) ∷ (walk b (at + 1) n ++ (b (k % 32) ∷ []))) {x = at + 1 + n}
        {y = at + suc n} (omega arith)

-- A write outside the samples is not seen.
walk-update :
    (b : ℕ → ℕ) (i v at n : ℕ)
    → ((k : ℕ) → k < n → (at + k) % 32 ≢ i)
    → walk (update b i v) at n ≡ walk b at n
unfolding walk
walk-update b i v at zero apart = refl
walk-update b i v at (suc n) apart =
    ap₂ (λ x t. x ∷ t) (ground (arith, apart 0 (omega arith)))
      (walk-update b i v (at + 1) n λ k p e.
        apart (suc k) (omega arith)
          (ap (λ t. t % 32) {x = at + suc k} {y = at + 1 + k} (omega arith) ∙ e))

-- The queue: a write to a full one empties it first, and a pop of an empty one gives the last
-- sample again.
unfoldable pub push : List ℕ → ℕ → List ℕ
push queue sample = (if leb 32 (length queue) then [] else queue) ++ (sample % 256 ∷ [])

unfoldable pub pop : List ℕ → ℕ → List ℕ × ℕ
pop [] last = ([], last)
pop (sample ∷ queue) last = (queue, sample)

length-walk : (b : ℕ → ℕ) (at n : ℕ) → length (walk b at n) ≡ n
unfolding walk
length-walk b at zero = refl
length-walk b at (suc n) = omega (arith, length-walk b (at + 1) n)

reset-IsValid : (fifo : Fifo) → IsValid (fifo_reset fifo)
unfolding fifo_reset
reset-IsValid fifo = record { counted = omega arith; reads = omega arith; writes = refl }

-- A write where there is room.
appended : Fifo → ℕ → Fifo
appended fifo sample = record fifo {
  buffer = update fifo.buffer fifo.write_idx (u8 sample);
  write_idx = (fifo.write_idx + 1) % fifo_size;
  count = u8 (fifo.count + 1);
}

appended_lem :
    (fifo : Fifo) (sample : ℕ)
    → IsValid fifo
    → fifo.count < 32
    → IsValid (appended fifo sample)
      × (contents (appended fifo sample) ≡ contents fifo ++ (sample % 256 ∷ []))
unfolding appended contents
appended_lem fifo sample valid room =
    let w = fifo.write_idx in
    let b = update fifo.buffer w (u8 sample) in
    let n = fifo.count in
    let at = fifo.read_idx in
    let wide : u8 (n + 1) ≡ suc n = omega arith in
    (
      record {
        counted = omega arith;
        reads = valid.reads;
        writes = omega (arith, valid.writes, valid.reads);
      },
      ap (walk b at) wide
          ∙ walk_snoc b at n
          ∙ ap₂ (λ s t. s ++ (t ∷ []))
              (walk-update fifo.buffer w (u8 sample) at n
                λ k p. omega (arith, valid.writes, valid.reads))
              (ground (arith, valid.writes)),
    )

write_sample_lem :
    (fifo : Fifo) (sample : ℕ)
    → IsValid fifo
    → IsValid (write_sample fifo sample)
      × (contents (write_sample fifo sample) ≡ push (contents fifo) sample)
unfolding write_sample push appended contents walk
write_sample_lem fifo sample valid = elim (dec_lt fifo.count 32) [
  | yes room ↦
      let test : leb 32 fifo.count ≡ false = ground arith in
      simp (length-walk, test) (appended_lem fifo sample valid room)
  | no full ↦
      let test : leb 32 fifo.count ≡ true = ground arith in
      simp (length-walk, test)
        (appended_lem (fifo_reset fifo) sample (reset-IsValid fifo)
          (unfold fifo_reset in omega arith))
]

-- A write of a word puts its four bytes, the lowest first, at the end of the queue, and a full
-- queue is emptied before a byte; in any valid FIFO, which stays valid.
pub fifo_write-push :
    (fifo : Fifo) (word : ℕ)
    → IsValid fifo
    → IsValid (fifo_write fifo word)
      × (contents (fifo_write fifo word)
          ≡ push
              (push (push (push (contents fifo) word) (word / 2 ^ 8)) (word / 2 ^ 16))
              (word / 2 ^ 24))
unfolding fifo_write
fifo_write-push fifo word valid =
    let f1 = write_sample fifo word in
    let f2 = write_sample f1 (word / 2 ^ 8) in
    let f3 = write_sample f2 (word / 2 ^ 16) in
    let (v1, e1) = write_sample_lem fifo word valid in
    let (v2, e2) = write_sample_lem f1 (word / 2 ^ 8) v1 in
    let (v3, e3) = write_sample_lem f2 (word / 2 ^ 16) v2 in
    let (v4, e4) = write_sample_lem f3 (word / 2 ^ 24) v3 in
    (
      v4,
      e4
          ∙ ap (λ q. push q (word / 2 ^ 24))
              (e3 ∙ ap (λ q. push q (word / 2 ^ 16)) (e2 ∙ ap (λ q. push q (word / 2 ^ 8)) e1)),
    )

pop_some :
    (fifo : Fifo) (n : ℕ)
    → IsValid fifo
    → fifo.count ≡ suc n
    → let (popped, sample) = fifo_pop fifo in
      IsValid popped
      × ((contents popped, sample) ≡ pop (contents fifo) fifo.last_sample)
      × (popped.last_sample ≡ sample)
unfolding fifo_pop contents pop walk
pop_some fifo n valid e =
    let test : (fifo.count == 0) ≡ false = ground arith in
    let less : fifo.count - 1 ≡ n = omega arith in
    let at = fifo.read_idx in
    let buffer = fifo.buffer in
    let whole : contents fifo ≡ buffer (at % 32) ∷ walk buffer (at + 1) n = ap (walk buffer at) e in
    simp test (
      record {
        counted = omega (arith, valid.counted);
        reads = omega arith;
        writes = omega (arith, valid.writes);
      },
      ap₂ (λ s k. (walk buffer ((at + 1) % 32) k, s))
            (ap buffer {x = at} {y = at % 32} (omega (arith, valid.reads))) less
          ∙ ap (λ q. (q, buffer (at % 32)))
              (walk_mod buffer ((at + 1) % 32) (at + 1) n (omega arith))
          ∙ ap (λ q. pop q fifo.last_sample) (sym whole),
      refl,
    )

-- A pop takes the oldest sample, or gives the last one again where the queue is empty; the sample is
-- then the last one, and the FIFO stays valid.
pub fifo_pop-pop :
    (fifo : Fifo)
    → IsValid fifo
    → let (popped, sample) = fifo_pop fifo in
      IsValid popped
      × ((contents popped, sample) ≡ pop (contents fifo) fifo.last_sample)
      × (popped.last_sample ≡ sample)
unfolding fifo_pop contents pop walk
fifo_pop-pop fifo valid = elim (ℕ_discrete fifo.count 0) [
  | yes e ↦ let test : (fifo.count == 0) ≡ true = ground arith in simp (test, e) (valid, refl, refl)
  | no ne ↦ pop_some fifo (fifo.count - 1) valid (omega arith)
]
