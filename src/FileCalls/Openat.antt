-- ===== src/FileCalls/Openat.antt =====
-- What `openat` leaves behind.
use neuclear.Base.{ℕ, ◌≡◌, false, some, ◌==◌, if◌then◌else◌, has_bit}
use neuclear.Base.Int.{ℤ, pos}
use neuclear.Base.Holds.{Holds}
use neuclear.Files.{File, FileRef, status, o_cloexec}
use neuclear.FdTable.{open_file_at}
use neuclear.FdTable.Calls.{IsLeastFree}
use neuclear.FileCalls.{FileSystem, FileState}

module _ (fs : FileSystem) where
  -- The file is open at the least free descriptor, at which it was not before; every other descriptor
  -- is as it was; the working directory too. The file has not the flag of close-on-exec.
  pub record OpensAt (s : FileState fs) (new : FileRef) (n : ℤ) (s' : FileState fs) : Type 0 where
    pub fd : ℕ
    pub returned : n ≡ pos fd
    pub least : IsLeastFree s.fds.fd_table fd
    pub entries :
        (j : ℕ)
        → open_file_at s'.fds.fd_table j
          ≡ (if j == fd then some new else open_file_at s.fds.fd_table j)
    pub same_cwd : s'.cwd ≡ s.cwd
    pub not_close_on_exec : has_bit (status (s'.fds.files new)) o_cloexec ≡ false

  abbrev NoCloexec : File → Type 0
  NoCloexec file = has_bit (status file) o_cloexec ≡ false
