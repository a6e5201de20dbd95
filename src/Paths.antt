-- ===== src/Paths.antt =====
-- Paths, as lists of bytes: `path_with_fd`, the calls chdir and getcwd, and the place where unlinkat
-- cuts a path, of kernel/crates/major/src/trap/syscall/fs.rs.
pub mod Resolve
pub mod Cut
mod Tests
use neuclear.Base.{
  ℕ, ◌+◌, ◌-◌, ◌^◌, Bool, true, false, ◌&&◌, List, [], ◌∷◌, ◌++◌, Option, none, some, ◌==◌, ltb,
  if◌then◌else◌, length, take, drop,
}
use neuclear.Base.Int.{ℤ, pos}
use neuclear.Base.Outcome.{
  Outcome, ok, err, panic, ◌>>=◌, ◌>>◌, unwrap, fail_if, enotdir, ebadf, erange,
}
use neuclear.Files.{File, FileRef, FileStore, is_dir, path}
use neuclear.FdTable.{Table, open_file_at}

abbrev pub slash : ℕ
slash = b'/'

abbrev pub dot : ℕ
dot = b'.'

-- `starts_with('/')`
unfoldable pub starts_with_slash : List ℕ → Bool
starts_with_slash [] = false
starts_with_slash (c ∷ s) = c == slash

-- `ends_with('/')`
unfoldable pub ends_with_slash : List ℕ → Bool
ends_with_slash [] = false
ends_with_slash (c ∷ []) = c == slash
ends_with_slash (c ∷ d ∷ s) = ends_with_slash (d ∷ s)

unfoldable pub strip_prefix : List ℕ → List ℕ → Option (List ℕ)
strip_prefix [] s = some s
strip_prefix (p ∷ ps) [] = none
strip_prefix (p ∷ ps) (c ∷ s) = let rest = strip_prefix ps s in if p == c then rest else none

unfoldable pub same_text : List ℕ → List ℕ → Bool
same_text [] [] = true
same_text [] (d ∷ t) = false
same_text (c ∷ s) [] = false
same_text (c ∷ s) (d ∷ t) = c == d && same_text s t

-- -100 as a usize
abbrev pub at_fdcwd : ℕ
at_fdcwd = 2 ^ 64 - 100

-- A name under the working directory.
unfoldable pub under_cwd : List ℕ → List ℕ → List ℕ
unfolding same_text strip_prefix
under_cwd cwd name =
    if same_text name (dot ∷ []) then cwd else (elim (strip_prefix (dot ∷ slash ∷ []) name) [
      | some rest ↦ cwd ++ rest
      | none ↦ cwd ++ name
    ])

unfoldable pub path_with_fd : FileStore → Table → List ℕ → ℕ → List ℕ → Outcome (List ℕ)
unfolding starts_with_slash under_cwd
path_with_fd files t cwd fd name =
    if starts_with_slash name
    then ok name
    else (if fd == at_fdcwd then ok (under_cwd cwd name) else (elim (open_file_at t fd) [
      | none ↦ err ebadf
      | some f ↦
          if is_dir (files f)
          then (do base ← unwrap (path (files f)); ok (base ++ slash ∷ name))
          else err enotdir
    ]))

-- The working directory after `chdir`.
unfoldable pub sys_chdir : List ℕ → List ℕ
unfolding starts_with_slash ends_with_slash
sys_chdir name =
    let new_cwd = if starts_with_slash name then name else slash ∷ name in
    if ends_with_slash new_cwd then new_cwd else new_cwd ++ slash ∷ []

-- The bytes that `getcwd` writes at `buf`; whether the user may write there is a parameter.
unfoldable pub sys_getcwd : (ℕ → Outcome (Unit {0})) → List ℕ → ℕ → ℕ → Outcome (ℤ × List ℕ)
sys_getcwd check cwd buf size = do
  fail_if (ltb size (length cwd + 1)) erange
  check buf
  ok (pos buf, cwd ++ 0 ∷ [])

-- `split('/')`
unfoldable pub split : List ℕ → List (List ℕ)
split [] = [] ∷ []
split (c ∷ s) = elim (split s) [
  | [] ↦ (c ∷ []) ∷ []
  | first ∷ rest ↦ if c == slash then [] ∷ first ∷ rest else (c ∷ first) ∷ rest
]

-- `next_back()`
unfoldable pub next_back : List (List ℕ) → Option (List ℕ)
next_back [] = none
next_back (s ∷ []) = some s
next_back (s ∷ t ∷ rest) = next_back (t ∷ rest)

-- `path[from..to]`
unfoldable pub slice : ℕ → ℕ → List ℕ → Outcome (List ℕ)
slice from to s =
    if ltb to from then panic else (if ltb (length s) to then panic else ok (drop from (take to s)))

-- The directory and the name in it, of which `unlinkat` removes the name.
unfoldable pub cut_path : List ℕ → Outcome (List ℕ × List ℕ)
unfolding ends_with_slash slice split next_back
cut_path s =
    if ends_with_slash s
    then (do
      inner ← slice 1 (length s - 1) s
      base ← unwrap (next_back (split inner))
      ok (take (length s - length base - 1) s, base))
    else (do
      inner ← slice 1 (length s) s
      base ← unwrap (next_back (split inner))
      ok (take (length s - length base) s, base))
