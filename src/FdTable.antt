-- ===== src/FdTable.antt =====
-- File descriptors: the table of kernel/crates/major/src/task/process.rs, and the system calls on it
-- of kernel/crates/major/src/trap/syscall/fs.rs. A call returns its result beside the new state.
pub mod Alloc
pub mod Calls
mod Tests
use neuclear.Base.{
  ℕ, zero, suc, ◌+◌, ◌-◌, ◌%◌, Bool, true, false, not, ◌&&◌, ◌||◌, List, [], ◌∷◌, ◌++◌, Option,
  none, some, ltb, leb, ◌==◌, if◌then◌else◌, get_elem?, set, length, replicate, is_none, has_bit,
}
use neuclear.Base.Int.{ℤ, pos}
use neuclear.Base.Outcome.{
  Outcome, ok, err, panic, ◌>>=◌, ◌>>◌, Error, ebadf, einval, eisdir, temp, fail_if, unwrap,
}
use neuclear.Files.{
  File, FileRef, FileStore, stdin, stdout, pipe, readable, writable, is_dir, set_close_on_exec,
  status, o_cloexec, update,
}

abbrev pub Table : Type 0
Table = List (Option FileRef)

-- The index of the first free entry at or after `i`; `i` counts up with the list.
find_free : ℕ → ℕ → Table → Option ℕ
find_free min i [] = none
find_free min i (none ∷ t) = if leb min i then some i else find_free min (suc i) t
find_free min i (some f ∷ t) = find_free min (suc i) t

-- `extend(repeat(None).take(min - len))`, when `min` is beyond the table.
extended : ℕ → Table → Table
extended min t = if ltb (length t) min then t ++ replicate (min - length t) none else t

take_free : Option ℕ → Table → ℕ × Table
take_free (some fd) t = (fd, t)
take_free none t = (length t, t ++ none ∷ [])

-- Finds a place, but leaves it empty: the caller fills it.
unfoldable pub alloc_fd_from : Table → ℕ → ℕ × Table
unfolding find_free extended take_free
alloc_fd_from t min = let t' = extended min t in take_free (find_free min 0 t') t'

unfoldable pub alloc_fd : Table → ℕ × Table
unfolding alloc_fd_from
alloc_fd t = alloc_fd_from t 0

-- `fd_table.get(fd)`, matched with `Some(Some(file))`.
unfoldable pub open_file_at : Table → ℕ → Option FileRef
open_file_at t fd = elim (get_elem? t fd) [ some (some f) ↦ some f | _ ↦ none ]

-- What a call reads and changes: the table of the process, and the open files.
pub record State : Type 0 where
  pub fd_table : Table
  pub files : FileStore

abbrev pub Call : Type 0
Call = State → Outcome ℤ × State

-- `fd_table[fd] = Some(file)`
unfoldable pub install : State → FileRef → Outcome ℤ × State
unfolding alloc_fd
install s f =
    let (fd, t) = alloc_fd s.fd_table in (ok (pos fd), record s { fd_table = set t fd (some f) })

pub sys_close : ℕ → Call
sys_close fd s = elim (open_file_at s.fd_table fd) [
  | none ↦ (err ebadf, s)
  | some f ↦ (ok (pos 0), record s { fd_table = set s.fd_table fd none })
]

pub sys_dup : ℕ → Call
unfolding install
sys_dup fd s =
    if leb (length s.fd_table) fd
    then (err temp, s)
    else elim (open_file_at s.fd_table fd) [ none ↦ (err temp, s) | some f ↦ install s f ]

-- The table grows before `old` is looked at.
pub sys_dup3 : ℕ → ℕ → Call
sys_dup3 old new s =
    if leb (length s.fd_table) old
    then (err temp, s)
    else (let t =
          if leb (length s.fd_table) new
          then s.fd_table ++ replicate (new + 1 - length s.fd_table) none
          else s.fd_table in
        elim (open_file_at t old) [
          | none ↦ (err temp, record s { fd_table = t })
          | some f ↦ (ok (pos new), record s { fd_table = set t new (some f) })
        ])

abbrev pub f_dupfd : ℕ
f_dupfd = 0

abbrev pub f_getfd : ℕ
f_getfd = 1

abbrev pub f_setfd : ℕ
f_setfd = 2

abbrev pub f_dupfd_cloexec : ℕ
f_dupfd_cloexec = 1030

dup_from : Bool → ℕ → FileRef → Call
unfolding alloc_fd_from
dup_from cloexec arg f s =
    let (fd, t) = alloc_fd_from s.fd_table arg in
    let files =
      if cloexec then update s.files f (set_close_on_exec (s.files f) true) else s.files in
    (ok (pos fd), record { fd_table = set t fd (some f); files = files })

fcntl : ℕ → ℕ → FileRef → Call
unfolding dup_from
fcntl cmd arg f s =
    if cmd == f_dupfd || cmd == f_dupfd_cloexec
    then dup_from (cmd == f_dupfd_cloexec) arg f s
    else (if cmd == f_getfd
        then (ok (pos (if has_bit (status (s.files f)) o_cloexec then 1 else 0)), s)
        else (if cmd == f_setfd
            then (
              ok (pos 0),
              record s {
                files = update s.files f (set_close_on_exec (s.files f) (not (arg % 2 == 0)));
              },
            )
            else (err einval, s)))

pub sys_fcntl64 : ℕ → ℕ → ℕ → Call
unfolding fcntl
sys_fcntl64 fd cmd arg s = elim (open_file_at s.fd_table fd) [
  | none ↦ (err ebadf, s)
  | some f ↦ fcntl cmd arg f s
]

unfoldable pub prepare_io : State → ℕ → Bool → Outcome FileRef
prepare_io s fd is_read = elim (open_file_at s.fd_table fd) [
  | none ↦ err ebadf
  | some f ↦
      if is_read && readable (s.files f) || not is_read && writable (s.files f)
      then (if is_dir (s.files f) then err eisdir else ok f)
      else err ebadf
]

-- The files that the four calls hand their buffers to.
pub read_target : State → ℕ → Outcome FileRef
read_target s fd = prepare_io s fd true

pub write_target : State → ℕ → Outcome FileRef
write_target s fd = prepare_io s fd false

unfoldable pub readv_target : State → ℕ → Outcome FileRef
readv_target s fd = prepare_io s fd true

unfoldable pub writev_target : State → ℕ → Outcome FileRef
writev_target s fd = prepare_io s fd true

-- The ends of a new pipe, at two references of the store that no descriptor holds.
pub sys_pipe2 : FileRef → FileRef → State → (ℕ × ℕ) × State
unfolding alloc_fd
sys_pipe2 read_end write_end s =
    let (read_fd, t) = alloc_fd s.fd_table in
    let t' = set t read_fd (some read_end) in
    let (write_fd, t'') = alloc_fd t' in
    ((read_fd, write_fd), record s { fd_table = set t'' write_fd (some write_end) })

-- Exec: the descriptors whose file has the flag are closed.
pub close_on_exec : FileStore → Table → Table
close_on_exec files [] = []
close_on_exec files (none ∷ t) = none ∷ close_on_exec files t
close_on_exec files (some f ∷ t) =
    (if has_bit (status (files f)) o_cloexec then none else some f) ∷ close_on_exec files t
