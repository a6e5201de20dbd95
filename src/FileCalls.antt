-- ===== src/FileCalls.antt =====
-- Opening, making and removing files by their path: `open_inode` and `open_file` of
-- kernel/crates/filesystem/src (inode.rs, lib.rs), and the calls openat, mkdirat and unlinkat of
-- kernel/crates/major/src/trap/syscall/fs.rs. The file system of the disk is an interface, whose nodes
-- have numbers. The paths are those that check_cstr read.
pub mod Walks
pub mod Openat
mod Tests
use neuclear.Base.{
  ℕ, ◌+◌, ◌^◌, Bool, true, false, not, ◌&&◌, ◌||◌, List, [], ◌∷◌, Option, none, some, leb, has_bit,
  if◌then◌else◌,
}
use neuclear.Base.Int.{ℤ, pos}
use neuclear.Base.Outcome.{
  Outcome, ok, err, panic, ◌>>=◌, ◌>>◌, unwrap, fail_if, temp, enoent, enotdir, eexist,
}
use neuclear.Files.{
  File, FileRef, stdout, passwd, inode, InodeFile, read_write, o_creat, o_excl, o_trunc, o_append,
  o_dsync, o_async, o_directory, update,
}
use neuclear.FdTable.{State, install}
use neuclear.Paths.{slash, same_text, strip_prefix, split, path_with_fd, cut_path}

-- What `find` answers: `broken` is an error of the file system itself.
pub data FindResult : Type 0 where
  found : ℕ → FindResult
  missing invalid_type broken : FindResult

-- The trait `Entry` of the file system: what the calls use of it.
pub record FileSystem : Type 1 where
  pub Disk : Type 0
  pub root : ℕ
  pub is_directory : Disk → ℕ → Bool
  pub find : Disk → ℕ → List ℕ → FindResult
  pub create_dir : Disk → ℕ → List ℕ → Option (ℕ × Disk)
  pub create_file : Disk → ℕ → List ℕ → Option (ℕ × Disk)
  pub truncate : Disk → ℕ → Disk
  pub remove_entry : Disk → ℕ → List ℕ → Option Disk

abbrev pub is_nil : List (List ℕ) → Bool
is_nil [] = true
is_nil (x ∷ xs) = false

-- `OpenFlags::from_bits` has no answer: a bit that is not defined is set.
unfoldable pub undefined_flags : ℕ → Bool
undefined_flags flags =
    leb (2 ^ 22) flags
    || has_bit flags 2
    || has_bit flags 3
    || has_bit flags 4
    || has_bit flags 5
    || has_bit flags 11
    || has_bit flags 16
    || has_bit flags 17
    || has_bit flags 18
    || has_bit flags 20

abbrev pub dev : List ℕ
dev = b'/' ∷ b'd' ∷ b'e' ∷ b'v' ∷ []

abbrev pub dev_tty : List ℕ
dev_tty = b'/' ∷ b'd' ∷ b'e' ∷ b'v' ∷ b'/' ∷ b't' ∷ b't' ∷ b'y' ∷ []

abbrev pub etc_passwd : List ℕ
etc_passwd = b'/' ∷ b'e' ∷ b't' ∷ b'c' ∷ b'/' ∷ b'p' ∷ b'a' ∷ b's' ∷ b's' ∷ b'w' ∷ b'd' ∷ []

module _ (fs : FileSystem) where
  -- The last component of a path is made.
  unfoldable pub create : ℕ → fs.Disk → ℕ → List ℕ → Outcome (ℕ × fs.Disk)
  create flags disk curr name = unwrap (
      if has_bit flags o_directory
      then fs.create_dir disk curr name
      else fs.create_file disk curr name)

  -- The loop over the components: the node, the disk, and whether the node is new.
  unfoldable pub walk_path : ℕ → fs.Disk → ℕ → List (List ℕ) → Outcome (ℕ × fs.Disk × Bool)
  unfolding create
  walk_path flags disk curr [] = ok (curr, disk, false)
  walk_path flags disk curr (name ∷ names) = elim (fs.find disk curr name) [
    | found next ↦ walk_path flags disk next names
    | missing ↦
        if is_nil names && has_bit flags o_creat
        then (do (node, disk') ← create flags disk curr name; ok (node, disk', true))
        else err enoent
    | invalid_type ↦ err enotdir
    | broken ↦ panic
  ]

  -- `InodeFile::new`: no flags.
  abbrev pub inode_new : List ℕ → Bool → Bool → fs.Disk → ℕ → InodeFile
  inode_new path readable writable disk node = record {
    readable = readable;
    writable = writable;
    path = path;
    entry = node;
    entry_is_dir = fs.is_directory disk node;
    flags = 0;
  }

  -- What is checked of a file that was there before.
  unfoldable pub open_existing :
      List ℕ → ℕ → Bool → Bool → fs.Disk → ℕ → Outcome (InodeFile × fs.Disk)
  open_existing path flags readable writable disk node = do
    fail_if (has_bit flags o_creat && has_bit flags o_excl) eexist
    fail_if (has_bit flags o_directory && not (fs.is_directory disk node)) enotdir
    let disk' = if has_bit flags o_trunc && writable then fs.truncate disk node else disk
    ok (inode_new path readable writable disk' node, disk')

  abbrev pub components : List ℕ → List (List ℕ)
  components path = elim (strip_prefix (slash ∷ []) path) [
    | some rest ↦ split rest
    | none ↦ split path
  ]

  unfoldable pub open_inode : List ℕ → ℕ → fs.Disk → Outcome (InodeFile × fs.Disk)
  unfolding walk_path open_existing
  open_inode path flags disk = do
    (readable, writable) ← read_write flags
    (if same_text path (slash ∷ [])
        then ok (inode_new path readable writable disk fs.root, disk)
        else (do
          (node, disk', is_new) ← walk_path flags disk fs.root (components path)
          (if is_new
              then ok (inode_new path readable writable disk' node, disk')
              else open_existing path flags readable writable disk' node)))

  unfoldable pub open_file : List ℕ → ℕ → fs.Disk → Outcome (File × fs.Disk)
  unfolding open_inode
  open_file path flags disk = elim (strip_prefix dev path) [
    | some rest ↦ if same_text path dev_tty then ok (stdout, disk) else err enoent
    | none ↦
        if same_text path etc_passwd
        then ok (passwd, disk)
        else (do (file, disk') ← open_inode path flags disk; ok (inode file, disk'))
  ]

  -- What the calls read and change.
  pub record FileState : Type 0 where
    pub fds : State
    pub cwd : List ℕ
    pub disk : fs.Disk

  abbrev pub resolve : ℕ → List ℕ → FileState → Outcome (List ℕ)
  resolve dir_fd name s = path_with_fd s.fds.files s.fds.fd_table s.cwd dir_fd name

  -- The opened file is at a reference of the store that no descriptor holds.
  unfoldable pub install_file : FileRef → File → fs.Disk → FileState → Outcome (ℤ × FileState)
  install_file new file disk s =
      let opened = install (record s.fds { files = update s.fds.files new file }) new in
      (do n ← opened.0; ok (n, record s { fds = opened.1; disk = disk }))

  unfoldable pub sys_openat : FileRef → ℕ → List ℕ → ℕ → FileState → Outcome (ℤ × FileState)
  unfolding undefined_flags open_file install_file
  sys_openat new dir_fd name flags s = do
    fail_if (undefined_flags flags) temp
    fail_if (has_bit flags o_async || has_bit flags o_append || has_bit flags o_dsync) temp
    absolute_path ← resolve dir_fd name s
    (file, disk) ← open_file absolute_path flags s.disk
    install_file new file disk s

  -- The directory is opened besides, and stays open.
  unfoldable pub sys_mkdirat : FileRef → ℕ → List ℕ → FileState → Outcome (ℤ × FileState)
  unfolding open_file install_file
  sys_mkdirat new dir_fd name s = do
    absolute_path ← resolve dir_fd name s
    (file, disk) ← open_file absolute_path (2 ^ o_creat + 2 ^ o_directory) s.disk
    (n, s') ← install_file new file disk s
    ok (pos 0, s')

  unfoldable pub sys_unlinkat : ℕ → List ℕ → FileState → Outcome (ℤ × FileState)
  unfolding open_inode
  sys_unlinkat dir_fd name s = do
    absolute_path ← resolve dir_fd name s
    (dir_path, base_name) ← cut_path absolute_path
    (dir, disk) ← open_inode dir_path (2 ^ 0 + 2 ^ o_directory) s.disk
    disk' ← unwrap (fs.remove_entry disk dir.entry base_name)
    ok (pos 0, record s { disk = disk' })
