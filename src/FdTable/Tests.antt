-- ===== src/FdTable/Tests.antt =====
-- Runs of the descriptor calls, and the theorems at a concrete table.
use neuclear.Base.{◌≡◌, refl, [], ◌∷◌, none, some, true, false, ◌==◌, if◌then◌else◌}
use neuclear.Files.{FileStore, stdin, stdout, inode, InodeFile}
use neuclear.FdTable.{State, alloc_fd_from}
use neuclear.FdTable.Alloc.{Least, alloc_fd_from-Least}

abbrev disk_file : InodeFile
disk_file = record {
  readable = true;
  writable = false;
  path = [];
  entry = 1;
  entry_is_dir = false;
  flags = 0;
}

-- File 0 is the console's input, file 1 its output, and every other file is one on the disk.
abbrev files : FileStore
files r = if r == 0 then stdin else (if r == 1 then stdout else inode disk_file)

-- Descriptor 1 was closed; 3 and 4 share a disk file.
abbrev shared : State
shared = record { fd_table = some 0 ∷ none ∷ some 1 ∷ some 2 ∷ some 2 ∷ []; files = files }

alloc_fd_from_end :
    alloc_fd_from (some 0 ∷ some 1 ∷ []) 4 ≡ (4, some 0 ∷ some 1 ∷ none ∷ none ∷ none ∷ [])
unfolding alloc_fd_from
alloc_fd_from_end = refl

alloc_fd_from-Least_example :
    Least shared.fd_table 3 (alloc_fd_from shared.fd_table 3).0 (alloc_fd_from shared.fd_table 3).1
alloc_fd_from-Least_example = alloc_fd_from-Least shared.fd_table 3
