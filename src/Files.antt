-- ===== src/Files.antt =====
-- kernel/crates/filesystem/src: the trait `File` and the kinds of open files (stdio.rs, special.rs,
-- pipe.rs, inode.rs), and the store of open files that descriptors share.
use neuclear.Base.{
  ℕ, ◌%◌, Bool, true, false, List, Option, none, some, ◌==◌, if◌then◌else◌, set_bit,
}
use neuclear.Base.Outcome.{Outcome, ok, panic}
use neuclear.Pipe.{Pipe}

-- `OpenFlags`, as bits; only the positions that the code tests have a name.
abbrev pub o_creat : ℕ
o_creat = 6

abbrev pub o_excl : ℕ
o_excl = 7

abbrev pub o_trunc : ℕ
o_trunc = 9

abbrev pub o_append : ℕ
o_append = 10

abbrev pub o_dsync : ℕ
o_dsync = 12

abbrev pub o_async : ℕ
o_async = 13

abbrev pub o_cloexec : ℕ
o_cloexec = 19

abbrev pub o_directory : ℕ
o_directory = 21

-- (readable, writable); both low bits set is `unreachable!()`.
unfoldable pub read_write : ℕ → Outcome (Bool × Bool)
read_write flags =
    if flags % 4 == 0
    then ok (true, false)
    else (if flags % 4 == 1
        then ok (false, true)
        else (if flags % 4 == 2 then ok (true, true) else panic))

-- `entry` names a node of the disk's tree.
pub record InodeFile : Type 0 where
  pub readable : Bool
  pub writable : Bool
  pub path : List ℕ
  pub entry : ℕ
  pub entry_is_dir : Bool
  pub flags : ℕ

pub data File : Type 0 where
  stdin stdout passwd : File
  pipe : Pipe → File
  inode : InodeFile → File

unfoldable pub readable : File → Bool
readable stdin = true
readable stdout = false
readable passwd = true
readable (pipe p) = p.readable
readable (inode f) = f.readable

unfoldable pub writable : File → Bool
writable stdin = false
writable stdout = true
writable passwd = false
writable (pipe p) = p.writable
writable (inode f) = f.writable

unfoldable pub is_dir : File → Bool
is_dir (inode f) = f.entry_is_dir
is_dir _ = false

-- Only an inode file keeps the flag; for the others the default method does nothing.
unfoldable pub set_close_on_exec : File → Bool → File
set_close_on_exec (inode f) bit = inode (record f { flags = set_bit f.flags o_cloexec bit })
set_close_on_exec f bit = f

unfoldable pub status : File → ℕ
status (inode f) = f.flags
status _ = 0

unfoldable pub path : File → Option (List ℕ)
path (inode f) = some f.path
path _ = none

-- Open files live in a store, since descriptors share them (`Arc<dyn File>`).
abbrev pub FileRef : Type 0
FileRef = ℕ

abbrev pub FileStore : Type 0
FileStore = FileRef → File

abbrev pub update : FileStore → FileRef → File → FileStore
update store r f q = if q == r then f else store q
