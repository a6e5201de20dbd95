-- ===== src/Paths/Tests.antt =====
-- Paths at concrete texts.
use neuclear.Base.{
  ℕ, ◌≡◌, ◌⊎◌, refl, true, false, List, [], ◌∷◌, some, if◌then◌else◌, ◌==◌, Bool-cases, inl, inr,
  subst,
}
use neuclear.Base.Int.{pos}
use neuclear.Base.Outcome.{ok, err, panic, erange, enotdir}
use neuclear.Files.{FileStore, stdin, inode, InodeFile, is_dir}
use neuclear.FdTable.{Table, open_file_at}
use neuclear.Paths.{
  slash, starts_with_slash, ends_with_slash, path_with_fd, sys_chdir, sys_getcwd, cut_path,
}
use neuclear.Paths.Resolve.{
  IsAbsolute, IsCwd, AbsoluteFiles, Resolves, sys_chdir-IsCwd, path_with_fd-Resolves,
}
use neuclear.Paths.Cut.{Cuts, cut_path-Cuts}

-- /a
abbrev slash_a : List ℕ
slash_a = b'/' ∷ b'a' ∷ []

abbrev dir_a : InodeFile
dir_a = record {
  readable = true;
  writable = false;
  path = slash_a;
  entry = 1;
  entry_is_dir = true;
  flags = 0;
}

abbrev some_files : FileStore
some_files f = if f == 1 then inode dir_a else stdin

abbrev some_table : Table
some_table = some 0 ∷ some 1 ∷ []

some_files-AbsoluteFiles : AbsoluteFiles some_files
unfolding starts_with_slash
some_files-AbsoluteFiles f i e = elim (Bool-cases (f == 1)) [
  | inl first ↦ subst (λ j. IsAbsolute j.path) (same_inode (rw first at e)) refl
  | inr other ↦ no_inode (rw other at e)
]
  where
    same_inode : inode dir_a ≡ inode i → dir_a ≡ i
    same_inode x = cc x

    no_inode : stdin ≡ inode i → IsAbsolute i.path
    no_inode x = cc x

root-IsCwd : IsCwd (slash ∷ [])
unfolding starts_with_slash ends_with_slash
root-IsCwd = (refl, refl)

sys_chdir-IsCwd_example : IsCwd (sys_chdir slash_a)
sys_chdir-IsCwd_example = sys_chdir-IsCwd slash_a

path_with_fd-Resolves_example :
    Resolves some_files some_table
      (slash ∷ [])
      1
      (b'b' ∷ [])
      (path_with_fd some_files some_table (slash ∷ []) 1 (b'b' ∷ []))
path_with_fd-Resolves_example =
    path_with_fd-Resolves some_files some_table (slash ∷ []) 1 (b'b' ∷ []) root-IsCwd
      some_files-AbsoluteFiles

-- /a/
abbrev closed_a : List ℕ
closed_a = b'/' ∷ b'a' ∷ b'/' ∷ []

closed_a-IsAbsolute : IsAbsolute closed_a
unfolding starts_with_slash
closed_a-IsAbsolute = refl

cut_path-Cuts_example : ((closed_a ≡ slash ∷ []) × (cut_path closed_a ≡ panic)) ⊎ Cuts closed_a
cut_path-Cuts_example = cut_path-Cuts closed_a closed_a-IsAbsolute

-- A relative argument does not go below the old working directory.
chdir_relative : sys_chdir (b'a' ∷ []) ≡ b'/' ∷ b'a' ∷ b'/' ∷ []
unfolding sys_chdir
chdir_relative = refl

getcwd_short : sys_getcwd (λ buf. ok tt) slash_a 0x100 2 ≡ err erange
unfolding sys_getcwd
getcwd_short = refl

getcwd_fits : sys_getcwd (λ buf. ok tt) slash_a 0x100 3 ≡ ok (pos 0x100, b'/' ∷ b'a' ∷ 0 ∷ [])
unfolding sys_getcwd
getcwd_fits = refl

not_a_directory : path_with_fd some_files some_table (slash ∷ []) 0 (b'b' ∷ []) ≡ err enotdir
unfolding path_with_fd open_file_at is_dir
not_a_directory = refl

cut_twice :
    cut_path (b'/' ∷ b'a' ∷ b'/' ∷ b'b' ∷ b'/' ∷ []) ≡ ok (b'/' ∷ b'a' ∷ b'/' ∷ [], b'b' ∷ [])
unfolding cut_path
cut_twice = refl
