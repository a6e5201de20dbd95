-- ===== src/Pipe.antt =====
-- kernel/crates/filesystem/src/pipe.rs: the ring buffer of a pipe, and the read and write loops.
-- The buffer is shared by all ends, so an operation returns the new buffer. The loops of `read` and
-- `write` give up the CPU inside: a run up to the next suspension is one call here, and what other
-- tasks do to the buffer in between is a step of the environment.
pub mod Ring
pub mod Passes
pub mod Stream
mod Tests
use neuclear.Base.{
  ℕ, zero, suc, ◌+◌, ◌-◌, ◌%◌, Bool, true, false, List, [], ◌∷◌, ◌++◌, ltb, ◌==◌, if◌then◌else◌,
  get_elem?, set, length, replicate,
}
use neuclear.Base.Outcome.{Outcome, ok, panic, ◌>>=◌, ◌>>◌, assert, unwrap}

abbrev pub ring_buffer_size : ℕ
ring_buffer_size = 32

pub data RingBufferStatus : Type 0 where
  full empty normal : RingBufferStatus

-- `write_end_count` is the strong count of the weak reference `write_end`.
pub record PipeRingBuffer : Type 0 where
  pub arr : List ℕ
  pub head : ℕ
  pub tail : ℕ
  pub status : RingBufferStatus
  pub write_end_count : ℕ

pub new : PipeRingBuffer
new = record {
  arr = replicate ring_buffer_size 0;
  head = 0;
  tail = 0;
  status = empty;
  write_end_count = 0;
}

-- The write end is alive with this many owners.
pub set_write_end : PipeRingBuffer → ℕ → PipeRingBuffer
set_write_end r owners = record r { write_end_count = owners }

pub read_byte : PipeRingBuffer → Outcome (ℕ × PipeRingBuffer)
read_byte r = do
  c ← unwrap (get_elem? r.arr r.head)
  let head = (r.head + 1) % ring_buffer_size
  ok (c, record r { head = head; status = if head == r.tail then empty else normal })

pub write_byte : PipeRingBuffer → ℕ → Outcome PipeRingBuffer
write_byte r byte = do
  _ ← unwrap (get_elem? r.arr r.tail)
  let tail = (r.tail + 1) % ring_buffer_size
  ok (record r {
    arr = set r.arr r.tail byte;
    tail = tail;
    status = if r.head == tail then full else normal;
  })

available_read_of : RingBufferStatus → ℕ → ℕ → ℕ
available_read_of empty head tail = 0
available_read_of _ head tail =
    if ltb head tail then tail - head else tail + ring_buffer_size - head

pub available_read : PipeRingBuffer → ℕ
unfolding available_read_of
available_read r = available_read_of r.status r.head r.tail

pub available_write : PipeRingBuffer → ℕ
available_write r = ring_buffer_size - available_read r

pub all_write_ends_closed : PipeRingBuffer → Bool
all_write_ends_closed r = r.write_end_count == 0

pub record Pipe : Type 0 where
  pub readable : Bool
  pub writable : Bool

pub read_end_with_buffer : Pipe
read_end_with_buffer = record { readable = true; writable = false }

pub write_end_with_buffer : Pipe
write_end_with_buffer = record { readable = false; writable = true }

-- Both ends, and the buffer with the new write end's one owner.
pub make_pipe : Pipe × Pipe × PipeRingBuffer
unfolding new set_write_end read_end_with_buffer write_end_with_buffer
make_pipe = (read_end_with_buffer, write_end_with_buffer, set_write_end new 1)

-- Where a call stands when it next leaves the loop. `left` is what is still to be transferred.
pub data Progress (L : Type 0) : Type 0 where
  returned : List ℕ → PipeRingBuffer → Progress L
  suspended : L → List ℕ → PipeRingBuffer → Progress L
  out_of_fuel : Progress L

-- The `for` loop of `read`: at most `available` bytes go to a buffer with `left` places.
-- `inl` is the return inside the loop.
pub data Inner (L : Type 0) : Type 0 where
  done : List ℕ → PipeRingBuffer → Inner L
  next : L → List ℕ → PipeRingBuffer → Inner L

-- After the inner loop: return from it, or go round the outer loop again.
abbrev pub leave_or :
    {L : Type 0}
    → (L → List ℕ → PipeRingBuffer → Outcome (Progress L))
    → Inner L
    → Outcome (Progress L)
leave_or again (done out r) = ok (returned out r)
leave_or again (next left out r) = again left out r

pub drain : ℕ → ℕ → List ℕ → PipeRingBuffer → Outcome (Inner ℕ)
drain zero left out r = ok (next left out r)
drain (suc available) zero out r = ok (done out r)
drain (suc available) (suc left) out r = do
  (c, r') ← read_byte r
  drain available left (out ++ c ∷ []) r'

pub read_rounds : ℕ → ℕ → List ℕ → PipeRingBuffer → Outcome (Progress ℕ)
read_rounds zero left out r = ok out_of_fuel
read_rounds (suc fuel) left out r =
    let round = drain (available_read r) left out r >>= leave_or (read_rounds fuel) in
    if available_read r == 0
    then (if all_write_ends_closed r then ok (returned out r) else ok (suspended left out r))
    else round

-- `Pipe::read` with a buffer of `len` bytes.
pub read : Pipe → ℕ → PipeRingBuffer → Outcome (Progress ℕ)
read p len r = assert p.readable >> read_rounds 2 len [] r

-- The `for` loop of `write`; `out` is what has been written so far.
pub fill : ℕ → List ℕ → List ℕ → PipeRingBuffer → Outcome (Inner (List ℕ))
fill zero bytes out r = ok (next bytes out r)
fill (suc loop_write) [] out r = ok (done out r)
fill (suc loop_write) (b ∷ bytes) out r = do
  r' ← write_byte r b
  fill loop_write bytes (out ++ b ∷ []) r'

pub write_rounds : ℕ → List ℕ → List ℕ → PipeRingBuffer → Outcome (Progress (List ℕ))
write_rounds zero bytes out r = ok out_of_fuel
write_rounds (suc fuel) bytes out r =
    let round = fill (available_write r) bytes out r >>= leave_or (write_rounds fuel) in
    if available_write r == 0 then ok (suspended bytes out r) else round

pub write : Pipe → List ℕ → PipeRingBuffer → Outcome (Progress (List ℕ))
write p buf r = assert p.writable >> write_rounds 2 buf [] r
