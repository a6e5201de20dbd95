-- ===== src/Pipe/Ring.antt =====
-- The ring buffer holds a queue of at most 32 bytes.
use neuclear.Base.{
  Bool-cases, ==_iff, get_elem?-in, sym, ap, ◌∙◌, inl, inr, ℕ_discrete, ℕ, suc, ◌+◌, ◌-◌, ◌%◌, ◌≤◌,
  ◌<◌, ◌≡◌, refl, List, [], ◌∷◌, ◌++◌, some, arith, ◌==◌, if◌then◌else◌, get_elem?, set, length,
  length-set, length-append, get_elem?-set_self, get_elem?-set_ne, get_elem?-append_lt,
  get_elem?-append_length,
}
use neuclear.Base.Outcome.{ok}
use neuclear.Pipe.{
  PipeRingBuffer, RingBufferStatus, full, empty, normal, ring_buffer_size, new, read_byte,
  write_byte, available_read, available_write, available_read_of,
}

abbrev pub StatusFits : RingBufferStatus → ℕ → Type 0
StatusFits full n = n ≡ ring_buffer_size
StatusFits empty n = n ≡ 0
StatusFits normal n = (0 < n) × (n < ring_buffer_size)

-- The buffer holds the bytes `xs`, oldest first.
pub record Holds (r : PipeRingBuffer) (xs : List ℕ) : Type 0 where
  pub storage : length r.arr ≡ ring_buffer_size
  pub head_in : r.head < ring_buffer_size
  pub tail_at : r.tail ≡ (r.head + length xs) % ring_buffer_size
  pub fits : StatusFits r.status (length xs)
  pub bytes :
      (i : ℕ) → i < length xs → get_elem? r.arr ((r.head + i) % ring_buffer_size) ≡ get_elem? xs i

-- A new buffer is empty.
pub new-Holds : Holds new []
unfolding new
new-Holds = record {
  storage = refl;
  head_in = omega arith;
  tail_at = refl;
  fits = refl;
  bytes = λ i h. elim h [ ];
}

available_read_of-fits :
    (s : RingBufferStatus) (head n : ℕ)
    → StatusFits s n
    → head < ring_buffer_size
    → available_read_of s head ((head + n) % ring_buffer_size) ≡ n
unfolding available_read_of
available_read_of-fits full head n f h = ground arith
available_read_of-fits empty head n f h = omega arith
available_read_of-fits normal head n f h = ground arith

-- `available_read` counts the bytes held.
pub available_read-length :
    {r : PipeRingBuffer} (xs : List ℕ) → Holds r xs → available_read r ≡ length xs
unfolding available_read
available_read-length {r} xs v =
    rw v.tail_at (available_read_of-fits r.status r.head (length xs) v.fits v.head_in)

StatusFits-le : (s : RingBufferStatus) (n : ℕ) → StatusFits s n → n ≤ ring_buffer_size
StatusFits-le full n f = omega arith
StatusFits-le empty n f = omega arith
StatusFits-le normal n f = omega arith

pub Holds-le : {r : PipeRingBuffer} (xs : List ℕ) → Holds r xs → length xs ≤ ring_buffer_size
Holds-le {r} xs v = StatusFits-le r.status (length xs) v.fits

-- `available_write` counts the free places.
pub available_write-length :
    {r : PipeRingBuffer} (xs : List ℕ)
    → Holds r xs
    → available_write r ≡ ring_buffer_size - length xs
unfolding available_write
available_write-length xs v = omega (arith, available_read-length xs v)

status_after_read :
    (head n : ℕ)
    → n < ring_buffer_size
    → head < ring_buffer_size
    → StatusFits
        (if (head + 1) % ring_buffer_size == (head + suc n) % ring_buffer_size
          then empty
          else normal)
        n
status_after_read head n h k = elim (Bool-cases ((head + 1) % 32 == (head + suc n) % 32)) [
  | inl e ↦ rw e (omega (arith, (==_iff _ _).0 e))
  | inr e ↦ rw e (ground arith)
]

status_after_write :
    (head n : ℕ)
    → n < ring_buffer_size
    → head < ring_buffer_size
    → StatusFits
        (if head == ((head + n) % ring_buffer_size + 1) % ring_buffer_size then full else normal)
        (n + 1)
status_after_write head n h k = elim (Bool-cases (head == ((head + n) % 32 + 1) % 32)) [
  | inl e ↦ rw e (omega (arith, (==_iff _ _).0 e))
  | inr e ↦ rw e (ground arith)
]

-- Reading takes the oldest byte and keeps the rest in order.
pub read_byte-Holds :
    {r : PipeRingBuffer} (x : ℕ) (xs : List ℕ)
    → Holds r (x ∷ xs)
    → (r' : PipeRingBuffer) × (read_byte r ≡ ok (x, r'))
      × Holds r' xs
      × (r'.write_end_count ≡ r.write_end_count)
unfolding read_byte
read_byte-Holds {r} x xs v = (after, rw first, holds, refl)
  where
    first : get_elem? r.arr r.head ≡ some x
    first = ap (get_elem? r.arr) (omega arith) ∙ v.bytes 0 (omega arith)

    after : PipeRingBuffer
    after = record r {
      head = (r.head + 1) % ring_buffer_size;
      status = if (r.head + 1) % ring_buffer_size == r.tail then empty else normal;
    }

    holds : Holds after xs
    holds = record {
      storage = v.storage;
      head_in = omega arith;
      tail_at = omega arith;
      fits =
          rw v.tail_at
            (status_after_read r.head (length xs) (omega (arith, Holds-le (x ∷ xs) v)) v.head_in);
      bytes = λ i h. ap (get_elem? r.arr) (omega arith) ∙ v.bytes (suc i) (omega arith);
    }

-- Writing to a buffer that is not full appends the byte.
pub write_byte-Holds :
    {r : PipeRingBuffer} (xs : List ℕ) (y : ℕ)
    → Holds r xs
    → length xs < ring_buffer_size
    → (r' : PipeRingBuffer) × (write_byte r y ≡ ok r')
      × Holds r' (xs ++ y ∷ [])
      × (r'.write_end_count ≡ r.write_end_count)
unfolding write_byte
write_byte-Holds {r} xs y v room = (after, ground (arith, inside), holds, refl)
  where
    inside : (c : ℕ) × (get_elem? r.arr r.tail ≡ some c)
    inside = get_elem?-in r.arr r.tail (omega arith)

    after : PipeRingBuffer
    after = record r {
      arr = set r.arr r.tail y;
      tail = (r.tail + 1) % ring_buffer_size;
      status = if r.head == (r.tail + 1) % ring_buffer_size then full else normal;
    }

    bytes :
        (i : ℕ)
        → i < length (xs ++ y ∷ [])
        → get_elem? after.arr ((r.head + i) % ring_buffer_size) ≡ get_elem? (xs ++ y ∷ []) i
    bytes i h = elim (ℕ_discrete i (length xs)) [
      | yes last ↦
          rw (last, ← v.tail_at, get_elem?-append_length xs y [])
            (get_elem?-set_self r.arr r.tail y (omega arith))
      | no old ↦
          let i_lt : i < length xs = omega (arith, length-append xs (y ∷ [])) in
          get_elem?-set_ne r.arr r.tail _ y (omega arith)
          ∙ v.bytes i i_lt
          ∙ sym (get_elem?-append_lt xs (y ∷ []) i i_lt)
    ]

    holds : Holds after (xs ++ y ∷ [])
    holds = record {
      storage = length-set r.arr r.tail y ∙ v.storage;
      head_in = v.head_in;
      tail_at = omega (arith, length-append xs (y ∷ []));
      fits =
          rw (length-append xs (y ∷ []), v.tail_at)
            (status_after_write r.head (length xs) room v.head_in);
      bytes = bytes;
    }
