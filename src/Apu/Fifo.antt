-- ===== src/Apu/Fifo.antt =====
-- The DirectSound FIFOs: src/apu/fifo.c and the FIFO functions of src/apu/apu.c.
pub mod Queue
use gba_emulator.Base.{if◌then◌else◌, leb, u8, update, ℕ, ◌%◌, ◌+◌, ◌-◌, ◌/◌, ◌==◌, ◌^◌}
use gba_emulator.Apu.State.{Fifo, Apu, fifo_size}

unfoldable pub fifo_reset : Fifo → Fifo
fifo_reset fifo = record fifo { read_idx = 0; write_idx = 0; count = 0 }

-- The body of the loop of `apu_fifo_write`.
unfoldable pub write_sample : Fifo → ℕ → Fifo
unfolding fifo_reset
write_sample fifo sample =
    let ready = if leb fifo_size fifo.count then fifo_reset fifo else fifo in
    record ready {
      buffer = update ready.buffer ready.write_idx (u8 sample);
      write_idx = (ready.write_idx + 1) % fifo_size;
      count = u8 (ready.count + 1);
    }

-- The four rounds.
unfoldable pub fifo_write : Fifo → ℕ → Fifo
fifo_write fifo word =
    write_sample
      (write_sample (write_sample (write_sample fifo word) (word / 2 ^ 8)) (word / 2 ^ 16))
      (word / 2 ^ 24)

-- The FIFO after the pop, and the sample.
unfoldable pub fifo_pop : Fifo → Fifo × ℕ
fifo_pop fifo =
    let sample = fifo.buffer fifo.read_idx in
    if fifo.count == 0 then (fifo, fifo.last_sample) else (
      record fifo {
        read_idx = (fifo.read_idx + 1) % fifo_size;
        count = fifo.count - 1;
        last_sample = sample;
      },
      sample,
    )

unfoldable pub apu_fifo_write : Apu → ℕ → ℕ → Apu
apu_fifo_write apu fifo_id word =
    if fifo_id == 0
    then record apu { fifo_a = fifo_write apu.fifo_a word }
    else record apu { fifo_b = fifo_write apu.fifo_b word }

unfoldable pub apu_fifo_pop : Apu → ℕ → Apu × ℕ
apu_fifo_pop apu fifo_id =
    let (a, sample_a) = fifo_pop apu.fifo_a in
    let (b, sample_b) = fifo_pop apu.fifo_b in
    if fifo_id == 0
    then (record apu { fifo_a = a }, sample_a)
    else (record apu { fifo_b = b }, sample_b)
