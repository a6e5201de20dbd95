-- ===== src/Pipe/Stream.antt =====
-- A pipe between suspensions: any sequence of reader and writer runs over one buffer.
use neuclear.Base.{
  ℕ, ◌≡◌, refl, List, [], ◌∷◌, ◌++◌, arith, take, drop, append_assoc, append-nil, take-append-drop,
  take_of_length-le, ◌∙◌, Bool,
}
use neuclear.Base.Outcome.{Outcome, ok, ◌>>=◌}
use neuclear.Pipe.{
  PipeRingBuffer, Progress, returned, suspended, out_of_fuel, read_rounds, write_rounds,
}
use neuclear.Pipe.Ring.{Holds}
use neuclear.Pipe.Passes.{
  read_rounds-Reads, write_rounds-Writes, read_leaves, write_leaves, room_of,
}

-- A run of a reader with this many places left, or of a writer with these bytes left.
pub data Run : Type 0 where
  reads : ℕ → Run
  writes : List ℕ → Run

abbrev pub moved : {L : Type 0} → Progress L → PipeRingBuffer → List ℕ × PipeRingBuffer
moved (returned out r') r = (out, r')
moved (suspended left out r') r = (out, r')
moved out_of_fuel r = ([], r)

-- What the readers got, what the writers put in, and the buffer at the end.
pub run : List Run → PipeRingBuffer → Outcome (List ℕ × List ℕ × PipeRingBuffer)
run [] r = ok ([], [], r)
run (reads n ∷ es) r = do
  p ← read_rounds 2 n [] r
  (got, put, r') ← run es (moved p r).1
  ok ((moved p r).0 ++ got, put, r')
run (writes ys ∷ es) r = do
  p ← write_rounds 2 ys [] r
  (got, put, r') ← run es (moved p r).1
  ok (got, (moved p r).0 ++ put, r')

moved-read_leaves :
    (closed : Bool) (xs : List ℕ) (n : ℕ) (r r' : PipeRingBuffer)
    → moved (read_leaves closed xs n [] r') r ≡ (take n xs, r')
moved-read_leaves closed xs n r r' = ground (arith, take_of_length-le n xs)

moved-write_leaves :
    (xs ys : List ℕ) (r r' : PipeRingBuffer)
    → moved (write_leaves xs ys [] r') r ≡ (take (room_of xs) ys, r')
moved-write_leaves xs ys r r' = ground (arith, take_of_length-le (room_of xs) ys)

abbrev pub Fifo : List ℕ → Outcome (List ℕ × List ℕ × PipeRingBuffer) → Type 0
Fifo xs result =
    (got : List ℕ) × (put : List ℕ) × (r' : PipeRingBuffer) × (rest : List ℕ) × (result
      ≡ ok (got, put, r'))
    × Holds r' rest
    × (got ++ rest ≡ xs ++ put)

-- Whatever the interleaving, no run panics, and the bytes that came out, followed by those still
-- held, are the bytes that were held at the start followed by those put in, in order.
pub run-Fifo : (es : List Run) (xs : List ℕ) {r : PipeRingBuffer} → Holds r xs → Fifo xs (run es r)
unfolding run
run-Fifo [] xs {r} v = ([], [], r, xs, refl, v, rw append-nil)
run-Fifo (reads n ∷ es) xs {r} v =
    let (r₁, e, v₁, _) = read_rounds-Reads xs n [] v in
    let (got, put, r₂, rest, f, v₂, fifo) = run-Fifo es (drop n xs) v₁ in
    (
      take n xs ++ got,
      put,
      r₂,
      rest,
      rw (e, moved-read_leaves, f),
      v₂,
      rw (append_assoc, fifo, ← append_assoc, take-append-drop),
    )
run-Fifo (writes ys ∷ es) xs {r} v =
    let (r₁, e, v₁, _) = write_rounds-Writes xs ys [] v in
    let (got, put, r₂, rest, f, v₂, fifo) = run-Fifo es (xs ++ take (room_of xs) ys) v₁ in
    (
      got,
      take (room_of xs) ys ++ put,
      r₂,
      rest,
      rw (e, moved-write_leaves, f),
      v₂,
      fifo ∙ append_assoc xs (take (room_of xs) ys) put,
    )
