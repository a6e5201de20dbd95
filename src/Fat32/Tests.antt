-- ===== src/Fat32/Tests.antt =====
-- A file system of one directory and one file, which is read three bytes at a time.
use neuclear.Base.{
  ℕ, ◌≡◌, refl, sym, true, false, Bool, List, [], ◌∷◌, none, arith, length, length-take, take, drop,
  take-append-drop, min,
}
use neuclear.Base.Outcome.{ok}
use neuclear.Fat32.{Answer, done, failed, Fatfs, file, read_all}
use neuclear.Fat32.Whole.{ReadsOn, read_all-content}

-- An entry is its name with whether it is a directory; the state is what is left of the file.
abbrev Entry : Type 0
Entry = List ℕ × Bool

abbrev entries : List (Answer ℕ Entry)
entries = done (b'a' ∷ [], true) ∷ done (b'b' ∷ [], false) ∷ done (b'b' ∷ [], true) ∷ []

abbrev small : Fatfs
small = record {
  Disk = List ℕ;
  Dir = ℕ;
  File = ℕ;
  Error = ℕ;
  DirEntry = Entry;
  root_dir = λ disk. 0;
  iter = λ d disk. entries;
  file_name = λ entry. entry.0;
  entry_is_dir = λ entry. entry.1;
  to_dir = λ entry. 1;
  to_file = λ entry. 2;
  dir_remove = λ d name disk. (failed 1, disk);
  dir_create_file = λ d name disk. (failed 1, disk);
  dir_create_dir = λ d name disk. (failed 1, disk);
  file_read = λ n s. (done (take (min 3 n) s.1), (s.0, drop (min 3 n) s.1));
  file_write = λ buf s. (failed 1, s);
  seek_start = λ p s. (failed 1, s);
  truncate = λ s. (failed 1, s);
  file_size = λ f. none;
}

small-ReadsOn : (s : ℕ × List ℕ) → ReadsOn small (λ s'. s'.1) s
small-ReadsOn (f, disk) = record {
  bytes = take 3 disk;
  answered = refl;
  fits = omega (arith, length-take 3 disk);
  front = sym (take-append-drop 3 disk);
  at_end = at_end disk;
}
  where
    at_end : (bs : List ℕ) → length (take 3 bs) ≡ 0 → bs ≡ []
    at_end [] e = refl
    at_end (b ∷ bs) e = absurd (omega arith)

read_all-content_example :
    (f' : ℕ) × (disk' : List ℕ) × (read_all small 5 (file 2) (7 ∷ 8 ∷ 9 ∷ 10 ∷ [])
      ≡ ok (done (7 ∷ 8 ∷ 9 ∷ 10 ∷ []), file f', disk'))
    × (disk' ≡ [])
read_all-content_example =
    read_all-content small (λ s. s.1) small-ReadsOn 5 2 (7 ∷ 8 ∷ 9 ∷ 10 ∷ []) (omega arith)

abbrev files : List (List ℕ)
files = (b'a' ∷ []) ∷ (b'b' ∷ []) ∷ (b'b' ∷ []) ∷ []
