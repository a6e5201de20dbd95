-- ===== src/FileCalls/Tests.antt =====
-- A small file system, and the calls on it.
use neuclear.Base.{ℕ, suc, ◌≡◌, refl, true, false, [], ◌∷◌, none, some, ◌==◌, if◌then◌else◌}
use neuclear.Base.Outcome.{err, eexist, enotdir}
use neuclear.Files.{stdin, read_write, inode, update}
use neuclear.Paths.{slash, same_text, strip_prefix, split}
use neuclear.FileCalls.{FileSystem, found, missing, invalid_type, FileState, open_inode}
use neuclear.FileCalls.Walks.{Walks}

-- The root has a file `a`; a disk is the number of the next node.
abbrev small : FileSystem
small = record {
  Disk = ℕ;
  root = 0;
  is_directory = λ disk node. node == 0;
  find = λ disk node name.
      if node == 0 then (if same_text name (b'a' ∷ []) then found 1 else missing) else invalid_type;
  create_dir = λ disk node name. some (disk, suc disk);
  create_file = λ disk node name. some (disk, suc disk);
  truncate = λ disk node. disk;
  remove_entry = λ disk node name. some disk;
}

abbrev start : FileState small
start = record {
  fds = record { fd_table = some 0 ∷ none ∷ []; files = λ f. stdin };
  cwd = slash ∷ [];
  disk = 5;
}

-- The file `a`, opened at descriptor 1.
abbrev opened : FileState small
opened = record start {
  fds = record {
    fd_table = some 0 ∷ some 9 ∷ [];
    files = update start.fds.files 9 (
        inode (record {
          readable = true;
          writable = false;
          path = b'/' ∷ b'a' ∷ [];
          entry = 1;
          entry_is_dir = false;
          flags = 0;
        }));
  };
}

exclusive : open_inode small (b'/' ∷ b'a' ∷ []) 192 5 ≡ err eexist
unfolding open_inode same_text read_write strip_prefix split
exclusive = refl

below_a_file : open_inode small (b'/' ∷ b'a' ∷ b'/' ∷ b'b' ∷ []) 0 5 ≡ err enotdir
unfolding open_inode same_text read_write strip_prefix split
below_a_file = refl
