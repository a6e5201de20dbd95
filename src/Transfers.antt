-- ===== src/Transfers.antt =====
-- The transfers of kernel/crates/major/src/trap/syscall/fs.rs: `read`, `write`, `readv` and `writev`. The
-- methods `read` and `write` of the trait `File` are parameters over the state `S` of the open
-- files. What a call puts into the user's memory is a list of the addresses with their bytes, in the
-- order of the writes; a result is the total before its cast to `isize`.
pub mod Scatter
pub mod Gather
mod Tests
use neuclear.Base.{ℕ, Bool, true, false, List, [], ◌∷◌, ◌==◌, if◌then◌else◌, length, add64}
use neuclear.Base.Outcome.{Outcome, ok, err, panic, ◌>>=◌}
use neuclear.Files.{FileRef}
use neuclear.FdTable.{State, read_target, write_target, readv_target, writev_target}
use neuclear.Memory.Frames.{Memory}
use neuclear.Memory.PageTable.{PageTable}
use neuclear.Task.UserPtr.{check_slice, check_slice_mut}

pub record IoVec : Type 0 where
  pub iov_base : ℕ
  pub iov_len : ℕ

-- An address, and the bytes that go there.
abbrev pub Filling : Type 0
Filling = ℕ × List ℕ

-- A descriptor's file, behind the check of the pointer.
pub checked_file : Outcome (ℕ × ℕ) → Outcome FileRef → Outcome FileRef
checked_file checked file = do (ptr, len) ← checked; file

module _ {ℓ} {S : Type ℓ} (pt : PageTable) (memory : Memory) where
  module _ (read : FileRef → ℕ → S → List ℕ × S) where
    pub sys_read : State → ℕ → ℕ → ℕ → S → Outcome ℕ × List Filling × S
    unfolding checked_file
    sys_read table fd buf len s =
        elim (checked_file (check_slice_mut pt memory buf len) (read_target table fd)) [
          | ok file ↦
              let (bytes, s') = read file len s in (ok (length bytes), (buf, bytes) ∷ [], s')
          | err e ↦ (err e, [], s)
          | panic ↦ (panic, [], s)
        ]

    -- The loop of `readv`, with what was read before.
    pub read_each : FileRef → List IoVec → ℕ → S → Outcome ℕ × List Filling × S
    read_each file [] tot_read s = (ok tot_read, [], s)
    read_each file (iov ∷ iovec) tot_read s =
        let (bytes, s') = read file iov.iov_len s in
        let (result, fillings, s'') = read_each file iovec (add64 tot_read (length bytes)) s' in
        elim (check_slice_mut pt memory iov.iov_base iov.iov_len) [
          | ok (base, len) ↦
              if length bytes == 0
              then (ok tot_read, [], s')
              else (result, (base, bytes) ∷ fillings, s'')
          | err e ↦ (err e, [], s)
          | panic ↦ (panic, [], s)
        ]

    -- `vectors` is what the program has at a pointer and a length.
    pub sys_readv : (ℕ → ℕ → List IoVec) → State → ℕ → ℕ → ℕ → S → Outcome ℕ × List Filling × S
    unfolding checked_file
    sys_readv vectors table fd iovec vlen s =
        elim (checked_file (check_slice pt memory iovec vlen) (readv_target table fd)) [
          | ok file ↦ read_each file (vectors iovec vlen) 0 s
          | err e ↦ (err e, [], s)
          | panic ↦ (panic, [], s)
        ]

  -- `bytes_at` is what the program has in a buffer.
  module _ (write : FileRef → List ℕ → S → ℕ × S) (bytes_at : ℕ → ℕ → List ℕ) where
    pub sys_write : State → ℕ → ℕ → ℕ → S → Outcome ℕ × S
    unfolding checked_file
    sys_write table fd buf len s =
        elim (checked_file (check_slice pt memory buf len) (write_target table fd)) [
          | ok file ↦ let (nwrite, s') = write file (bytes_at buf len) s in (ok nwrite, s')
          | err e ↦ (err e, s)
          | panic ↦ (panic, s)
        ]

    pub write_each : FileRef → List IoVec → ℕ → S → Outcome ℕ × S
    write_each file [] total_write s = (ok total_write, s)
    write_each file (iov ∷ iovec) total_write s =
        let (nwrite, s') = write file (bytes_at iov.iov_base iov.iov_len) s in
        let (result, s'') = write_each file iovec (add64 total_write nwrite) s' in
        elim (check_slice pt memory iov.iov_base iov.iov_len) [
          | ok (base, len) ↦ if nwrite == 0 then (ok total_write, s') else (result, s'')
          | err e ↦ (err e, s)
          | panic ↦ (panic, s)
        ]

    -- The file has to be readable, as for `readv`.
    pub sys_writev : (ℕ → ℕ → List IoVec) → State → ℕ → ℕ → ℕ → S → Outcome ℕ × S
    unfolding checked_file
    sys_writev vectors table fd iovec vlen s =
        elim (checked_file (check_slice pt memory iovec vlen) (writev_target table fd)) [
          | ok file ↦ write_each file (vectors iovec vlen) 0 s
          | err e ↦ (err e, s)
          | panic ↦ (panic, s)
        ]
