-- ===== src/Pipe/Passes.antt =====
-- `Pipe::read` and `Pipe::write` up to where they return or give up the CPU, in terms of the queue.
use neuclear.Base.{
  ℕ, zero, suc, ◌+◌, ◌-◌, ◌≤◌, ◌<◌, ◌≡◌, refl, ap, ◌∙◌, inl, inr, Bool, List, [], ◌∷◌, ◌++◌, arith,
  ltb, if◌then◌else◌, length, take, drop, append_assoc, append-nil, Bool-cases, length-append,
  leb→le, drop_of_length-le, take_of_length-le, length-take,
}
use neuclear.Base.Outcome.{Outcome, ok, ◌>>=◌}
use neuclear.Pipe.{
  PipeRingBuffer, ring_buffer_size, Progress, returned, suspended, done, next, drain, leave_or,
  read_rounds, read, read_end_with_buffer, fill, write_rounds, write, write_end_with_buffer,
  all_write_ends_closed, available_read, available_write,
}
use neuclear.Pipe.Ring.{
  Holds, Holds-le, available_read-length, available_write-length, read_byte-Holds, write_byte-Holds,
}

-- The inner loop of `read` on a buffer that has too little room.
drain_short :
    (xs : List ℕ) (left : ℕ) (out : List ℕ) {r : PipeRingBuffer}
    → Holds r xs
    → left < length xs
    → (r' : PipeRingBuffer) × (drain (length xs) left out r ≡ ok (done (out ++ take left xs) r'))
      × Holds r' (drop left xs)
      × (r'.write_end_count ≡ r.write_end_count)
unfolding drain
drain_short [] left out v h = elim h [ ]
drain_short (x ∷ xs) zero out {r} v h = (r, rw append-nil, v, refl)
drain_short (x ∷ xs) (suc left) out {r} v h =
    let (r₁, one, v₁, same) = read_byte-Holds x xs v in
    let (r₂, rest, v₂, same₂) = drain_short xs left (out ++ x ∷ []) v₁ (omega arith) in
    (r₂, rw (one, rest, append_assoc), v₂, same₂ ∙ same)

-- The inner loop of `read` when all that is held fits.
drain_all :
    (xs : List ℕ) (left : ℕ) (out : List ℕ) {r : PipeRingBuffer}
    → Holds r xs
    → length xs ≤ left
    → (r' : PipeRingBuffer) × (drain (length xs) left out r
        ≡ ok (next (left - length xs) (out ++ xs) r'))
      × Holds r' []
      × (r'.write_end_count ≡ r.write_end_count)
unfolding drain
drain_all [] left out {r} v h =
    (r, rw append-nil (ap (λ k. ok (next k out r)) (omega arith)), v, refl)
drain_all (x ∷ xs) zero out v h = absurd (omega arith)
drain_all (x ∷ xs) (suc left) out {r} v h =
    let (r₁, one, v₁, same) = read_byte-Holds x xs v in
    let (r₂, rest, v₂, same₂) = drain_all xs left (out ++ x ∷ []) v₁ (omega arith) in
    (
      r₂,
      rw (one, rest, append_assoc) (ap (λ k. ok (next k (out ++ x ∷ xs) r₂)) (omega arith)),
      v₂,
      same₂ ∙ same,
    )

-- Where `read` of `left` more bytes leaves the loop.
abbrev pub read_leaves : Bool → List ℕ → ℕ → List ℕ → PipeRingBuffer → Progress ℕ
read_leaves closed xs left out r' =
    if ltb left (length xs)
    then returned (out ++ take left xs) r'
    else (if closed then returned (out ++ xs) r' else suspended (left - length xs) (out ++ xs) r')

abbrev pub Reads : PipeRingBuffer → List ℕ → ℕ → List ℕ → Outcome (Progress ℕ) → Type 0
Reads r xs left out result =
    (r' : PipeRingBuffer) × (result ≡ ok (read_leaves (all_write_ends_closed r) xs left out r'))
    × Holds r' (drop left xs)
    × (r'.write_end_count ≡ r.write_end_count)

-- What happens when the buffer is empty: the loop ends at its first test.
read_rounds_empty :
    (fuel left : ℕ) (out : List ℕ) (r : PipeRingBuffer)
    → available_read r ≡ 0
    → read_rounds (suc fuel) left out r
      ≡ ok (if all_write_ends_closed r then returned out r else suspended left out r)
unfolding read_rounds
read_rounds_empty fuel left out r e = ground arith

read_rounds_some :
    (fuel left n : ℕ) (out : List ℕ) (r : PipeRingBuffer)
    → available_read r ≡ suc n
    → read_rounds (suc fuel) left out r ≡ (drain (suc n) left out r >>= leave_or (read_rounds fuel))
unfolding read_rounds
read_rounds_some fuel left n out r e = ground arith

pub read_rounds-Reads :
    (xs : List ℕ) (left : ℕ) (out : List ℕ) {r : PipeRingBuffer}
    → Holds r xs
    → Reads r xs left out (read_rounds 2 left out r)
unfolding all_write_ends_closed
read_rounds-Reads [] left out {r} v = (
  r,
  rw (read_rounds_empty 1 left out r (available_read-length [] v), append-nil) (ground arith),
  rw (drop_of_length-le {A = ℕ} left [] (omega arith)) v,
  refl,
)
read_rounds-Reads (x ∷ xs) left out {r} v = elim (Bool-cases (ltb left (length (x ∷ xs)))) [
  | inl short ↦
      let (r', e, v', same) = drain_short (x ∷ xs) left out v (ground arith) in
      (
        r',
        rw (short, read_rounds_some 1 left (length xs) out r (available_read-length (x ∷ xs) v), e),
        v',
        same,
      )
  | inr long ↦
      let (r', e, v', same) = drain_all (x ∷ xs) left out v (ground arith) in
      (
        r',
        rw (
          long,
          read_rounds_some 1 left (length xs) out r (available_read-length (x ∷ xs) v),
          e,
          read_rounds_empty 0 (left - length (x ∷ xs)) (out ++ x ∷ xs) r'
              (available_read-length [] v'),
          same,
        ),
        rw (drop_of_length-le left (x ∷ xs) (ground arith)) v',
        same,
      )
]

-- What one call of `read` does with a buffer that holds `xs`: with fewer than `len(xs)` places it
-- returns the oldest bytes; otherwise it takes them all, and returns only if every write end is closed.
pub read-Reads :
    (xs : List ℕ) (len : ℕ) {r : PipeRingBuffer}
    → Holds r xs
    → Reads r xs len [] (read read_end_with_buffer len r)
unfolding read read_end_with_buffer
read-Reads xs len v = read_rounds-Reads xs len [] v

-- The inner loop of `write` when the bytes are fewer than the rounds.
fill_all :
    (ys : List ℕ) (room : ℕ) (out xs : List ℕ) {r : PipeRingBuffer}
    → Holds r xs
    → room + length xs ≡ ring_buffer_size
    → length ys < room
    → (r' : PipeRingBuffer) × (fill room ys out r ≡ ok (done (out ++ ys) r'))
      × Holds r' (xs ++ ys)
      × (r'.write_end_count ≡ r.write_end_count)
unfolding fill
fill_all [] zero out xs v e h = absurd (omega arith)
fill_all [] (suc room) out xs {r} v e h = (r, rw append-nil, rw append-nil v, refl)
fill_all (y ∷ ys) zero out xs v e h = absurd (omega arith)
fill_all (y ∷ ys) (suc room) out xs {r} v e h =
    let (r₁, one, v₁, same) = write_byte-Holds xs y v (omega arith) in
    let (r₂, rest, v₂, same₂) =
      fill_all ys room (out ++ y ∷ []) (xs ++ y ∷ []) v₁ (omega (arith, length-append xs (y ∷ [])))
        (omega arith) in
    (r₂, rw (one, rest, append_assoc), rw (← append_assoc xs (y ∷ []) ys) v₂, same₂ ∙ same)

-- The inner loop of `write` when the buffer fills up.
fill_full :
    (ys : List ℕ) (room : ℕ) (out xs : List ℕ) {r : PipeRingBuffer}
    → Holds r xs
    → room + length xs ≡ ring_buffer_size
    → room ≤ length ys
    → (r' : PipeRingBuffer) × (fill room ys out r
        ≡ ok (next (drop room ys) (out ++ take room ys) r'))
      × Holds r' (xs ++ take room ys)
      × (r'.write_end_count ≡ r.write_end_count)
unfolding fill
fill_full ys zero out xs {r} v e h = (r, rw append-nil, rw append-nil v, refl)
fill_full [] (suc room) out xs v e h = absurd (omega arith)
fill_full (y ∷ ys) (suc room) out xs {r} v e h =
    let (r₁, one, v₁, same) = write_byte-Holds xs y v (omega arith) in
    let (r₂, rest, v₂, same₂) =
      fill_full ys room (out ++ y ∷ []) (xs ++ y ∷ []) v₁ (omega (arith, length-append xs (y ∷ [])))
        (omega arith) in
    (
      r₂,
      rw (one, rest, append_assoc),
      rw (← append_assoc xs (y ∷ []) (take room ys)) v₂,
      same₂ ∙ same,
    )

abbrev pub room_of : List ℕ → ℕ
room_of xs = ring_buffer_size - length xs

abbrev pub write_leaves : List ℕ → List ℕ → List ℕ → PipeRingBuffer → Progress (List ℕ)
write_leaves xs ys out r' =
    if ltb (length ys) (room_of xs)
    then returned (out ++ ys) r'
    else suspended (drop (room_of xs) ys) (out ++ take (room_of xs) ys) r'

abbrev pub Writes : PipeRingBuffer → List ℕ → List ℕ → List ℕ → Outcome (Progress (List ℕ)) → Type 0
Writes r xs ys out result =
    (r' : PipeRingBuffer) × (result ≡ ok (write_leaves xs ys out r'))
    × Holds r' (xs ++ take (room_of xs) ys)
    × (r'.write_end_count ≡ r.write_end_count)

write_rounds_full :
    (fuel : ℕ) (ys out : List ℕ) (r : PipeRingBuffer)
    → available_write r ≡ 0
    → write_rounds (suc fuel) ys out r ≡ ok (suspended ys out r)
unfolding write_rounds
write_rounds_full fuel ys out r e = ground arith

write_rounds_some :
    (fuel n : ℕ) (ys out : List ℕ) (r : PipeRingBuffer)
    → available_write r ≡ suc n
    → write_rounds (suc fuel) ys out r ≡ (fill (suc n) ys out r >>= leave_or (write_rounds fuel))
unfolding write_rounds
write_rounds_some fuel n ys out r e = ground arith

write_rounds_room :
    (n : ℕ) (xs ys out : List ℕ) {r : PipeRingBuffer}
    → Holds r xs
    → room_of xs ≡ n
    → Writes r xs ys out (write_rounds 2 ys out r)
write_rounds_room zero xs ys out {r} v e = (
  r,
  rw (e, write_rounds_full 1 ys out r (available_write-length xs v ∙ e), append-nil) (ground arith),
  rw (e, append-nil) v,
  refl,
)
write_rounds_room (suc n) xs ys out {r} v e = elim (Bool-cases (ltb (length ys) (suc n))) [
  | inl short ↦
      let (r', f, v', same) =
        fill_all ys (suc n) out xs v (omega (arith, Holds-le xs v)) (ground arith) in
      (
        r',
        rw (e, short, write_rounds_some 1 n ys out r (available_write-length xs v ∙ e), f),
        rw (e, take_of_length-le (suc n) ys (ground arith)) v',
        same,
      )
  | inr long ↦
      let (r', f, v', same) =
        fill_full ys (suc n) out xs v (omega (arith, Holds-le xs v)) (ground arith) in
      let none_left : available_write r' ≡ 0 =
        available_write-length (xs ++ take (suc n) ys) v'
        ∙ omega (
          arith,
          length-append xs (take (suc n) ys),
          length-take (suc n) ys,
          leb→le (suc n) (length ys) (ground arith),
        ) in
      (
        r',
        rw (
          e,
          long,
          write_rounds_some 1 n ys out r (available_write-length xs v ∙ e),
          f,
          write_rounds_full 0 (drop (suc n) ys) (out ++ take (suc n) ys) r' none_left,
        ),
        rw e v',
        same,
      )
]

pub write_rounds-Writes :
    (xs ys out : List ℕ) {r : PipeRingBuffer}
    → Holds r xs
    → Writes r xs ys out (write_rounds 2 ys out r)
write_rounds-Writes xs ys out v = write_rounds_room (room_of xs) xs ys out v refl

-- What one call of `write` does with a buffer that holds `xs`: it appends as much as there is room
-- for, and returns only if some room is left after the last byte.
pub write-Writes :
    (xs ys : List ℕ) {r : PipeRingBuffer}
    → Holds r xs
    → Writes r xs ys [] (write write_end_with_buffer ys r)
unfolding write write_end_with_buffer
write-Writes xs ys v = write_rounds-Writes xs ys [] v
