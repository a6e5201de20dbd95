-- ===== src/Fat32.antt =====
-- The entries of the FAT file system: `Fat32` and `Fat32Entry` of kernel/crates/fat32/src/lib.rs, which
-- implement the traits `Fs` and `Entry` of kernel/crates/vfs/src/lib.rs. The FAT library is an interface
-- over the state of the disk.
pub mod Whole
pub mod Names
mod Tests
use neuclear.Base.{
  ℕ, zero, suc, Bool, true, false, List, [], ◌∷◌, ◌++◌, Option, none, some, ◌==◌, ltb,
  if◌then◌else◌, length,
}
use neuclear.Base.Outcome.{Outcome, ok, panic}
use neuclear.BlockCache.{block_size}
use neuclear.Paths.{same_text}

-- The library's `Result`.
pub data Answer {ℓ} (E A : Type ℓ) : Type ℓ where
  done : A → Answer E A
  failed : E → Answer E A

-- `vfs::Error`
pub data VfsError (E : Type 0) : Type 0 where
  fs_error : E → VfsError E
  invalid_type : VfsError E

abbrev pub map_err : {E A : Type 0} → Answer E A → Answer (VfsError E) A
map_err (done a) = done a
map_err (failed e) = failed (fs_error e)

-- What the adapter uses of the library. `create_file` and `create_dir` open an entry that exists.
pub record Fatfs : Type 1 where
  pub Disk : Type 0
  pub Dir : Type 0
  pub File : Type 0
  pub Error : Type 0
  pub DirEntry : Type 0
  pub root_dir : Disk → Dir
  pub iter : Dir → Disk → List (Answer Error DirEntry)
  pub file_name : DirEntry → List ℕ
  pub entry_is_dir : DirEntry → Bool
  pub to_dir : DirEntry → Dir
  pub to_file : DirEntry → File
  pub dir_remove : Dir → List ℕ → Disk → Answer Error (Unit {0}) × Disk
  pub dir_create_file : Dir → List ℕ → Disk → Answer Error File × Disk
  pub dir_create_dir : Dir → List ℕ → Disk → Answer Error Dir × Disk
  pub file_read : ℕ → File × Disk → Answer Error (List ℕ) × (File × Disk)
  pub file_write : List ℕ → File × Disk → Answer Error ℕ × (File × Disk)
  pub seek_start : ℕ → File × Disk → Answer Error ℕ × (File × Disk)
  pub truncate : File × Disk → Answer Error (Unit {0}) × (File × Disk)
  pub file_size : File → Option ℕ

module _ (fat : Fatfs) where
  pub data Fat32Entry : Type 0 where
    dir : fat.Dir → Fat32Entry
    file : fat.File → Fat32Entry

  abbrev pub Result : Type 0 → Type 0
  Result A = Answer (VfsError fat.Error) A

  -- A method on `&mut self`.
  abbrev pub Method : Type 0 → Type 0
  Method A = Fat32Entry → fat.Disk → Result A × Fat32Entry × fat.Disk

  pub root_dir : fat.Disk → Fat32Entry
  root_dir disk = dir (fat.root_dir disk)

  pub is_dir : Fat32Entry → Bool
  is_dir (dir d) = true
  is_dir (file f) = false

  pub is_file : Fat32Entry → Bool
  is_file (dir d) = false
  is_file (file f) = true

  -- `for entry in dir.iter()`
  pub names : List (Answer fat.Error fat.DirEntry) → Result (List (List ℕ))
  names [] = done []
  names (failed e ∷ entries) = failed (fs_error e)
  names (done entry ∷ entries) = elim (names entries) [
    | failed e ↦ failed e
    | done files ↦ done (fat.file_name entry ∷ files)
  ]

  pub ls : Fat32Entry → fat.Disk → Result (List (List ℕ))
  unfolding names
  ls (dir d) disk = names (fat.iter d disk)
  ls (file f) disk = failed invalid_type

  pub read : ℕ → Method (List ℕ)
  read len (dir d) disk = (failed invalid_type, dir d, disk)
  read len (file f) disk =
      let (result, (f', disk')) = fat.file_read len (f, disk) in (map_err result, file f', disk')

  -- The loop; it panics out of fuel, and `&buf[..nread]` behind the end of the buffer.
  pub read_on : ℕ → fat.File × fat.Disk → Outcome (Result (List ℕ) × fat.File × fat.Disk)
  read_on zero s = panic
  read_on (suc fuel) s =
      let (result, s') = fat.file_read block_size s in
      let rest = read_on fuel s' in
      elim result [
        | failed e ↦ ok (failed (fs_error e), s'.0, s'.1)
        | done bytes ↦
            if length bytes == 0
            then ok (done [], s'.0, s'.1)
            else (if ltb block_size (length bytes) then panic else elim rest [
              | ok (done more, f, disk) ↦ ok (done (bytes ++ more), f, disk)
              | other ↦ other
            ])
      ]

  pub read_all : ℕ → Fat32Entry → fat.Disk → Outcome (Result (List ℕ) × Fat32Entry × fat.Disk)
  unfolding read_on
  read_all fuel (dir d) disk = ok (failed invalid_type, dir d, disk)
  read_all fuel (file f) disk = elim (read_on fuel (f, disk)) [
    | ok (result, f', disk') ↦ ok (result, file f', disk')
    | _ ↦ panic
  ]

  pub write : List ℕ → Method ℕ
  write buf (dir d) disk = (failed invalid_type, dir d, disk)
  write buf (file f) disk =
      let (result, (f', disk')) = fat.file_write buf (f, disk) in (map_err result, file f', disk')

  pub remove : List ℕ → Fat32Entry → fat.Disk → Result (Unit {0}) × fat.Disk
  remove name (dir d) disk =
      let (result, disk') = fat.dir_remove d name disk in (map_err result, disk')
  remove name (file f) disk = (failed invalid_type, disk)

  pub node_of : fat.DirEntry → Fat32Entry
  node_of entry =
      if fat.entry_is_dir entry then dir (fat.to_dir entry) else file (fat.to_file entry)

  pub find_in : List ℕ → List (Answer fat.Error fat.DirEntry) → Result (Option Fat32Entry)
  unfolding node_of
  find_in name [] = done none
  find_in name (failed e ∷ entries) = failed (fs_error e)
  find_in name (done entry ∷ entries) =
      if same_text (fat.file_name entry) name
      then done (some (node_of entry))
      else find_in name entries

  pub find : List ℕ → Fat32Entry → fat.Disk → Result (Option Fat32Entry)
  unfolding find_in
  find name (dir d) disk = find_in name (fat.iter d disk)
  find name (file f) disk = failed invalid_type

  pub create_file : List ℕ → Fat32Entry → fat.Disk → Result Fat32Entry × fat.Disk
  create_file name (file f) disk = (failed invalid_type, disk)
  create_file name (dir d) disk =
      let (result, disk') = fat.dir_create_file d name disk in
      elim result [ done f ↦ (done (file f), disk') | failed e ↦ (failed (fs_error e), disk') ]

  pub create_dir : List ℕ → Fat32Entry → fat.Disk → Result Fat32Entry × fat.Disk
  create_dir name (file f) disk = (failed invalid_type, disk)
  create_dir name (dir d) disk =
      let (result, disk') = fat.dir_create_dir d name disk in
      elim result [ done d' ↦ (done (dir d'), disk') | failed e ↦ (failed (fs_error e), disk') ]

  is_done : {E A : Type 0} → Answer E A → Bool
  is_done (done a) = true
  is_done (failed e) = false

  -- `seek(..).unwrap()`, then `truncate`.
  pub clear : Fat32Entry → fat.Disk → Outcome (Bool × Fat32Entry × fat.Disk)
  unfolding is_done
  clear (dir d) disk = ok (false, dir d, disk)
  clear (file f) disk =
      let (sought, s) = fat.seek_start 0 (f, disk) in
      let (cut, (f', disk')) = fat.truncate s in
      elim sought [ done p ↦ ok (is_done cut, file f', disk') | failed e ↦ panic ]

  pub size : Fat32Entry → ℕ
  size (dir d) = 0
  size (file f) = elim (fat.file_size f) [ none ↦ 0 | some n ↦ n ]
