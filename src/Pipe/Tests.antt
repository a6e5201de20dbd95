-- ===== src/Pipe/Tests.antt =====
-- Runs of the pipe model, and the theorems at concrete buffers.
use neuclear.Base.{
  ℕ, zero, suc, ◌+◌, ◌%◌, ◌<◌, ◌≡◌, refl, [], ◌∷◌, ◌++◌, arith, replicate, get_elem?,
}
use neuclear.Base.Outcome.{ok}
use neuclear.Pipe.{
  PipeRingBuffer, normal, read, write, read_end_with_buffer, write_end_with_buffer, read_rounds,
  drain, read_byte, available_read, all_write_ends_closed, returned,
}
use neuclear.Pipe.Ring.{Holds}
use neuclear.Pipe.Passes.{Reads, Writes, read-Reads, write-Writes}
use neuclear.Pipe.Stream.{reads, writes, run, Fifo, run-Fifo}

-- Two bytes, 8 then 9, round the end of the storage.
abbrev wrapped : PipeRingBuffer
wrapped = record {
  arr = 9 ∷ replicate 30 0 ++ 8 ∷ [];
  head = 31;
  tail = 1;
  status = normal;
  write_end_count = 1;
}

wrapped_bytes : (i : ℕ) → i < 2 → get_elem? wrapped.arr ((31 + i) % 32) ≡ get_elem? (8 ∷ 9 ∷ []) i
wrapped_bytes zero h = refl
wrapped_bytes (suc zero) h = refl
wrapped_bytes (suc (suc i)) h = absurd (omega arith)

wrapped-Holds : Holds wrapped (8 ∷ 9 ∷ [])
wrapped-Holds = record {
  storage = refl;
  head_in = omega arith;
  tail_at = refl;
  fits = omega arith;
  bytes = wrapped_bytes;
}

run_wrapped :
    read read_end_with_buffer 1 wrapped ≡ ok (returned (8 ∷ []) (record wrapped { head = 0 }))
unfolding read read_end_with_buffer read_rounds drain read_byte available_read all_write_ends_closed
run_wrapped = refl

read-Reads_example : Reads wrapped (8 ∷ 9 ∷ []) 1 [] (read read_end_with_buffer 1 wrapped)
read-Reads_example = read-Reads (8 ∷ 9 ∷ []) 1 wrapped-Holds

write-Writes_example :
    Writes wrapped (8 ∷ 9 ∷ []) (7 ∷ []) [] (write write_end_with_buffer (7 ∷ []) wrapped)
write-Writes_example = write-Writes (8 ∷ 9 ∷ []) (7 ∷ []) wrapped-Holds

run-Fifo_example : Fifo (8 ∷ 9 ∷ []) (run (writes (1 ∷ 2 ∷ []) ∷ reads 3 ∷ []) wrapped)
run-Fifo_example = run-Fifo (writes (1 ∷ 2 ∷ []) ∷ reads 3 ∷ []) (8 ∷ 9 ∷ []) wrapped-Holds
