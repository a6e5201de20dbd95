-- ===== src/Paths/Resolve.antt =====
-- Paths that come out of `path_with_fd` are absolute, and the working directory stays a directory.
use neuclear.Base.{
  ℕ, ◌≡◌, ◌≢◌, refl, sym, ◌∙◌, ap, arith, ==_iff, ==_refl, inl, inr, true, false, List, [], ◌∷◌,
  ◌++◌, none, some, ◌==◌, if◌then◌else◌, Bool-cases, Option-cases,
}
use neuclear.Base.Outcome.{Outcome, ok, err, ebadf, enotdir}
use neuclear.Files.{
  File, FileRef, FileStore, stdin, stdout, passwd, pipe, inode, InodeFile, is_dir, path,
}
use neuclear.FdTable.{Table, open_file_at}
use neuclear.Paths.{
  slash, dot, starts_with_slash, ends_with_slash, under_cwd, path_with_fd, at_fdcwd, sys_chdir,
  same_text, strip_prefix,
}

abbrev pub IsAbsolute : List ℕ → Type 0
IsAbsolute s = starts_with_slash s ≡ true

-- What a comment in the code asks of the working directory: /xxx/yyy/.
abbrev pub IsCwd : List ℕ → Type 0
IsCwd s = IsAbsolute s × (ends_with_slash s ≡ true)

-- The open files know absolute paths.
abbrev pub AbsoluteFiles : FileStore → Type 0
AbsoluteFiles files = (f : FileRef) (i : InodeFile) → files f ≡ inode i → IsAbsolute i.path

pub ends_with_slash-append : (s : List ℕ) → ends_with_slash (s ++ slash ∷ []) ≡ true
unfolding ends_with_slash
ends_with_slash-append [] = refl
ends_with_slash-append (c ∷ []) = refl
ends_with_slash-append (c ∷ d ∷ s) = ends_with_slash-append (d ∷ s)

IsAbsolute-append : (s t : List ℕ) → IsAbsolute s → IsAbsolute (s ++ t)
unfolding starts_with_slash
IsAbsolute-append [] t h = cc h
IsAbsolute-append (c ∷ s) t h = h

-- After `chdir`, whatever its argument, the working directory begins and ends with a slash.
pub sys_chdir-IsCwd : (name : List ℕ) → IsCwd (sys_chdir name)
unfolding sys_chdir
sys_chdir-IsCwd name = elim (Bool-cases (starts_with_slash name)) [
  | inl absolute ↦ rw absolute (closed name absolute)
  | inr relative ↦ rw relative (closed (slash ∷ name) refl)
]
  where
    closed : (s : List ℕ) → IsAbsolute s → IsCwd (if ends_with_slash s then s else s ++ slash ∷ [])
    closed s absolute = elim (Bool-cases (ends_with_slash s)) [
      | inl ends ↦ rw ends (absolute, ends)
      | inr open_end ↦
          rw open_end (IsAbsolute-append s (slash ∷ []) absolute, ends_with_slash-append s)
    ]

-- A name under the working directory: `.` is that directory, and a leading `./` is left out.
pub data UnderCwd (cwd name : List ℕ) : List ℕ → Type 0 where
  itself : name ≡ dot ∷ [] → UnderCwd cwd name cwd
  below : (rest : List ℕ) → name ≡ dot ∷ slash ∷ rest → UnderCwd cwd name (cwd ++ rest)
  plain :
      name ≢ dot ∷ []
      → ((rest : List ℕ) → name ≢ dot ∷ slash ∷ rest)
      → UnderCwd cwd name (cwd ++ name)

-- What `path_with_fd` comes to: an absolute path, or the error for the descriptor.
pub data Resolves (files : FileStore) (t : Table) (cwd : List ℕ) (fd : ℕ) (name : List ℕ)
    (result : Outcome (List ℕ)) : Type 0 where
  given : IsAbsolute name → result ≡ ok name → Resolves files t cwd fd name result
  in_cwd :
      (s : List ℕ)
      → starts_with_slash name ≡ false
      → fd ≡ at_fdcwd
      → UnderCwd cwd name s
      → IsAbsolute s
      → result ≡ ok s
      → Resolves files t cwd fd name result
  in_directory :
      (f : FileRef) (i : InodeFile)
      → starts_with_slash name ≡ false
      → fd ≢ at_fdcwd
      → open_file_at t fd ≡ some f
      → files f ≡ inode i
      → IsAbsolute (i.path ++ slash ∷ name)
      → result ≡ ok (i.path ++ slash ∷ name)
      → Resolves files t cwd fd name result
  closed :
      starts_with_slash name ≡ false
      → fd ≢ at_fdcwd
      → open_file_at t fd ≡ none
      → result ≡ err ebadf
      → Resolves files t cwd fd name result
  no_directory :
      (f : FileRef)
      → starts_with_slash name ≡ false
      → fd ≢ at_fdcwd
      → open_file_at t fd ≡ some f
      → is_dir (files f) ≡ false
      → result ≡ err enotdir
      → Resolves files t cwd fd name result

same_text-eq : (s t : List ℕ) → same_text s t ≡ true → s ≡ t
unfolding same_text
same_text-eq [] [] h = refl
same_text-eq [] (d ∷ t) h = cc h
same_text-eq (c ∷ s) [] h = cc h
same_text-eq (c ∷ s) (d ∷ t) h = elim (Bool-cases (c == d)) [
  | inl same ↦ ap (λ x. x ∷ s) ((==_iff c d).0 same) ∙ ap (◌∷◌ d) (same_text-eq s t (rw same at h))
  | inr other ↦ absurd (differ (rw other at h))
]
  where
    differ : false ≢ true
    differ e = cc e

same_text_refl : (s : List ℕ) → same_text s s ≡ true
unfolding same_text
same_text_refl [] = refl
same_text_refl (c ∷ s) = rw (==_refl c) (same_text_refl s)

stripped_dot :
    (name rest : List ℕ)
    → strip_prefix (dot ∷ slash ∷ []) name ≡ some rest
    → name ≡ dot ∷ slash ∷ rest
unfolding strip_prefix
stripped_dot [] rest h = cc h
stripped_dot (c ∷ []) rest h = ground arith
stripped_dot (c ∷ d ∷ s) rest h = ground arith

unstripped_dot :
    (name : List ℕ)
    → strip_prefix (dot ∷ slash ∷ []) name ≡ none
    → (rest : List ℕ) → name ≢ dot ∷ slash ∷ rest
unfolding strip_prefix
unstripped_dot name h rest e = absurd (no_prefix (sym (ap (strip_prefix (dot ∷ slash ∷ [])) e) ∙ h))
  where
    no_prefix : some rest ≢ none
    no_prefix x = cc x

under_cwd-UnderCwd : (cwd name : List ℕ) → UnderCwd cwd name (under_cwd cwd name)
unfolding under_cwd
under_cwd-UnderCwd cwd name = elim (Bool-cases (same_text name (dot ∷ []))) [
  | inl here ↦ rw here (itself (same_text-eq name (dot ∷ []) here))
  | inr other ↦ elim (Option-cases (strip_prefix (dot ∷ slash ∷ []) name)) [
    | inl unstripped ↦
        rw (other, unstripped)
          (plain (λ e. cc (other, same_text_refl (dot ∷ []), ap (λ s. same_text s (dot ∷ [])) e))
            (unstripped_dot name unstripped))
    | inr (rest, stripped) ↦ rw (other, stripped) (below rest (stripped_dot name rest stripped))
  ]
]

under_cwd-IsAbsolute : (cwd name : List ℕ) → IsAbsolute cwd → IsAbsolute (under_cwd cwd name)
unfolding under_cwd
under_cwd-IsAbsolute cwd name h = elim (Bool-cases (same_text name (dot ∷ []))) [
  | inl here ↦ rw here h
  | inr other ↦ elim (Option-cases (strip_prefix (dot ∷ slash ∷ []) name)) [
    | inl unstripped ↦ rw (other, unstripped) (IsAbsolute-append cwd name h)
    | inr (rest, stripped) ↦ rw (other, stripped) (IsAbsolute-append cwd rest h)
  ]
]

directory_is_inode : (file : File) → is_dir file ≡ true → (i : InodeFile) × (file ≡ inode i)
unfolding is_dir
directory_is_inode (inode i) h = (i, refl)
directory_is_inode stdin h = cc h
directory_is_inode stdout h = cc h
directory_is_inode passwd h = cc h
directory_is_inode (pipe p) h = cc h

inode_path : (file : File) (i : InodeFile) → file ≡ inode i → path file ≡ some i.path
unfolding path
inode_path file i e = rw e refl

-- `path_with_fd`, if the working directory begins and ends with a slash and the paths of the open files
-- are absolute, never panics and returns: an absolute name as it is; with AT_FDCWD any other name below
-- the working directory, where `.` is that directory and a leading `./` is left out; otherwise EBADF for
-- a closed descriptor, ENOTDIR for one of another file than a directory, and else the directory's path
-- with a slash and the name. What is returned is absolute.
pub path_with_fd-Resolves :
    (files : FileStore) (t : Table) (cwd : List ℕ) (fd : ℕ) (name : List ℕ)
    → IsCwd cwd
    → AbsoluteFiles files
    → Resolves files t cwd fd name (path_with_fd files t cwd fd name)
unfolding path_with_fd
path_with_fd-Resolves files t cwd fd name h all = elim (Bool-cases (starts_with_slash name)) [
  | inl is_absolute ↦ given is_absolute (rw is_absolute refl)
  | inr relative ↦ elim (Bool-cases (fd == at_fdcwd)) [
    | inl here ↦
        in_cwd (under_cwd cwd name) relative ((==_iff fd at_fdcwd).0 here)
          (under_cwd-UnderCwd cwd name) (under_cwd-IsAbsolute cwd name h.0)
          (rw (relative, here) refl)
    | inr other ↦
        let ne : fd ≢ at_fdcwd = ground arith in
        elim (Option-cases (open_file_at t fd)) [
          | inl none_open ↦ closed relative ne none_open (rw (relative, other, none_open) refl)
          | inr (f, open_at) ↦ elim (Bool-cases (is_dir (files f))) [
            | inl directory ↦
                let (i, is_inode) = directory_is_inode (files f) directory in
                in_directory f i relative ne open_at is_inode
                  (IsAbsolute-append i.path (slash ∷ name) (all f i is_inode))
                  (rw (relative, other, open_at, directory, inode_path (files f) i is_inode) refl)
            | inr file ↦
                no_directory f relative ne open_at file (rw (relative, other, open_at, file) refl)
          ]
        ]
  ]
]
