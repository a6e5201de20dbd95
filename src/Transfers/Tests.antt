-- ===== src/Transfers/Tests.antt =====
-- Reading a file into two buffers, and writing them to it, two bytes at a time.
use neuclear.Base.{
  ℕ, ◌<◌, ◌≤◌, ◌≡◌, refl, List, [], ◌∷◌, ◌++◌, some, true, false, take, drop, sym, take-append-drop,
  length-take, length, replicate, length-replicate, min, arith,
}
use neuclear.Base.Outcome.{ok}
use neuclear.Files.{FileRef, inode, InodeFile, readable, is_dir}
use neuclear.FdTable.{State, open_file_at, prepare_io, readv_target, writev_target}
use neuclear.Memory.Address.{vpn_floor}
use neuclear.Memory.Bump.{bump, bump_laws, ekernel, empty, room}
use neuclear.Memory.Frames.{Memory}
use neuclear.Memory.PageTable.{PageTable}
use neuclear.Memory.Space.{perm_rwu}
use neuclear.Task.UserPtr.{check_slice, check_slice_mut}
use neuclear.Task.UserPtr.Granted.{checks-Filled}
use neuclear.Task.UserPtr.Tests.{inserted}
use neuclear.Transfers.{IoVec, sys_readv, sys_writev}
use neuclear.Transfers.Scatter.{Reading, no_buffer, buffer, Scattered, sys_readv-Scattered}
use neuclear.Transfers.Gather.{Taking, no_source, source, Gathered, sys_writev-Gathered}

abbrev pt : PageTable
pt = inserted.0.table

abbrev memory : Memory
memory = inserted.0.machine.memory

-- Pages 0x100 and 0x101 are the user's, to read and to write.
granted :
    (ptr len : ℕ)
    → 0x100 ≤ vpn_floor ptr
    → vpn_floor ptr < 0x102
    → (check_slice pt memory ptr len ≡ ok (ptr, len))
      × (check_slice_mut pt memory ptr len ≡ ok (ptr, len))
granted ptr len low high =
    let (_, _, c, d) =
      checks-Filled bump bump_laws ekernel room empty inserted.0 0x100 2 perm_rwu inserted.1 ptr len
        inserted.2 (omega arith) low high in
    (c, d)

abbrev disk_file : InodeFile
disk_file = record {
  readable = true;
  writable = true;
  path = [];
  entry = 1;
  entry_is_dir = false;
  flags = 2;
}

abbrev table : State
table = record { fd_table = some 4 ∷ []; files = λ r. inode disk_file }

abbrev first : IoVec
first = record { iov_base = 0x101008; iov_len = 3 }

abbrev second : IoVec
second = record { iov_base = 0x100010; iov_len = 4 }

abbrev vectors : ℕ → ℕ → List IoVec
vectors ptr len = first ∷ second ∷ []

in_first : vpn_floor 0x101008 ≡ 0x101
unfolding vpn_floor
in_first = refl

in_second : vpn_floor 0x100010 ≡ 0x100
unfolding vpn_floor
in_second = refl

in_vector : vpn_floor 0x100100 ≡ 0x100
unfolding vpn_floor
in_vector = refl

-- The whole state is what is left of the file, of which a read gives two bytes at most.
abbrev read : FileRef → ℕ → List ℕ → List ℕ × List ℕ
read file n s = (take (min 2 n) s, drop (min 2 n) s)

read-Reading : Reading read 4 (λ s. s)
read-Reading = record {
  fits = λ n s. omega (arith, length-take (min 2 n) s);
  front = λ n s. sym (take-append-drop (min 2 n) s);
  at_end = λ n s pos e. no_bytes s (omega (arith, length-take (min 2 n) s));
}
  where
    no_bytes : (s : List ℕ) → length s ≡ 0 → s ≡ []
    no_bytes [] e = refl
    no_bytes (b ∷ s) e = absurd (omega arith)

opened : (readv_target table 0 ≡ ok 4) × (writev_target table 0 ≡ ok 4)
unfolding readv_target writev_target prepare_io open_file_at readable is_dir
opened = (refl, refl)

abbrev hello : List ℕ
hello = b'h' ∷ b'e' ∷ b'l' ∷ b'l' ∷ b'o' ∷ []

-- The first buffer gets two of its three bytes, and the second one goes on from there.
sys_readv-Scattered_example :
    let (result, fillings, s') = sys_readv pt memory read vectors table 0 0x100100 2 hello in
    Scattered pt memory read 4 (λ s. s) read-Reading (vectors 0x100100 2) 0 hello result fillings s'
sys_readv-Scattered_example =
    sys_readv-Scattered pt memory read 4 (λ s. s) read-Reading vectors table 0 0x100100 2 hello
      opened.0 (granted 0x100100 2 (omega (arith, in_vector)) (omega (arith, in_vector))).0
      (buffer (omega arith)
        (granted 0x101008 3 (omega (arith, in_first)) (omega (arith, in_first))).1
        (buffer (omega arith)
          (granted 0x100010 4 (omega (arith, in_second)) (omega (arith, in_second))).1 no_buffer))
      (omega arith)

-- All that was written; a write takes two bytes at most.
abbrev write : FileRef → List ℕ → List ℕ → ℕ × List ℕ
write file bytes s = (min 2 (length bytes), s ++ take (min 2 (length bytes)) bytes)

write-Taking : Taking write 4 (λ s. s) (λ s. ⊥)
write-Taking = record {
  fits = λ bytes s. omega arith;
  appends = λ bytes s. refl;
  stops = λ bytes s pos e. absurd (omega arith);
}

abbrev bytes_at : ℕ → ℕ → List ℕ
bytes_at base len = replicate len b'x'

sys_writev-Gathered_example :
    let (result, s') = sys_writev pt memory write bytes_at vectors table 0 0x100100 2 hello in
    Gathered pt memory write bytes_at
      (λ base len. length-replicate len b'x')
      4
      (λ s. s)
      (λ s. ⊥)
      write-Taking
      (vectors 0x100100 2)
      0
      hello
      result
      s'
sys_writev-Gathered_example =
    sys_writev-Gathered pt memory write bytes_at (λ base len. length-replicate len b'x') 4 (λ s. s)
      (λ s. ⊥) write-Taking vectors table 0 0x100100 2 hello opened.1
      (granted 0x100100 2 (omega (arith, in_vector)) (omega (arith, in_vector))).0
      (source (omega arith)
        (granted 0x101008 3 (omega (arith, in_first)) (omega (arith, in_first))).0
        (source (omega arith)
          (granted 0x100010 4 (omega (arith, in_second)) (omega (arith, in_second))).0 no_source))
      (omega arith)
