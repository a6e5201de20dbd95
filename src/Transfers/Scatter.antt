-- ===== src/Transfers/Scatter.antt =====
-- What `readv` puts into its buffers.
use neuclear.Base.{
  ℕ, ◌⊎◌, ==_iff, append_assoc, length-append, ◌+◌, ◌≤◌, ◌<◌, ◌≡◌, refl, sym, ◌∙◌, ap, inl, inr,
  Bool-cases, List, [], ◌∷◌, ◌++◌, ◌==◌, arith, length, add64, word,
}
use neuclear.Base.Outcome.{Outcome, ok}
use neuclear.Files.{FileRef}
use neuclear.FdTable.{State, readv_target}
use neuclear.Memory.Frames.{Memory}
use neuclear.Memory.PageTable.{PageTable}
use neuclear.Task.UserPtr.{check_slice, check_slice_mut}
use neuclear.Transfers.{IoVec, Filling, checked_file, read_each, sys_readv}

-- The bytes of all the buffers.
abbrev pub capacity : List IoVec → ℕ
capacity [] = 0
capacity (iov ∷ iovec) = iov.iov_len + capacity iovec

abbrev pub all_bytes : List Filling → List ℕ
all_bytes [] = []
all_bytes ((base, bytes) ∷ fillings) = bytes ++ all_bytes fillings

-- Each filling is in the buffer of its place, and fits.
pub data Fits : List IoVec → List Filling → Type 0 where
  no_more : {iovec : List IoVec} → Fits iovec []
  next :
      {iov : IoVec} {iovec : List IoVec} {bytes : List ℕ} {fillings : List Filling}
      → length bytes ≤ iov.iov_len
      → Fits iovec fillings
      → Fits (iov ∷ iovec) ((iov.iov_base, bytes) ∷ fillings)

-- The buffers are not empty, and the program may write to them.
pub data AllWritable (pt : PageTable) (memory : Memory) : List IoVec → Type 0 where
  no_buffer : AllWritable pt memory []
  buffer :
      {iov : IoVec} {iovec : List IoVec}
      → 0 < iov.iov_len
      → check_slice_mut pt memory iov.iov_base iov.iov_len ≡ ok (iov.iov_base, iov.iov_len)
      → AllWritable pt memory iovec
      → AllWritable pt memory (iov ∷ iovec)

-- A file that is read from the front, as far as it likes, and of which nothing is read only at its
-- end: `content` is what is left of it.
pub record Reading {ℓ} {S : Type ℓ} (read : FileRef → ℕ → S → List ℕ × S) (file : FileRef)
    (content : S → List ℕ) : Type ℓ where
  pub fits : (n : ℕ) (s : S) → length (read file n s).0 ≤ n
  pub front : (n : ℕ) (s : S) → content s ≡ (read file n s).0 ++ content (read file n s).1
  pub at_end : (n : ℕ) (s : S) → 0 < n → length (read file n s).0 ≡ 0 → content s ≡ []

module _ {ℓ} {S : Type ℓ} (pt : PageTable) (memory : Memory) (read : FileRef → ℕ → S → List ℕ × S)
    (file : FileRef) (content : S → List ℕ) (reading : Reading read file content) where
  -- The buffers have the next bytes of the file, and those only are gone from it.
  pub record Scattered (iovec : List IoVec) (tot : ℕ) (s : S) (result : Outcome ℕ)
      (fillings : List Filling) (s' : S) : Type ℓ where
    pub total : result ≡ ok (tot + length (all_bytes fillings))
    pub bytes : content s ≡ all_bytes fillings ++ content s'
    pub fits : Fits iovec fillings
    pub ends : (length fillings ≡ length iovec) ⊎ (content s' ≡ [])

  nothing_left : (xs ys : List ℕ) → length xs ≡ 0 → xs ++ ys ≡ ys
  nothing_left [] ys e = refl
  nothing_left (x ∷ xs) ys e = absurd (omega arith)

  pub read_each-Scattered :
      (iovec : List IoVec) (tot : ℕ) (s : S)
      → AllWritable pt memory iovec
      → tot + capacity iovec < word
      → let (result, fillings, s') = read_each pt memory read file iovec tot s in
        Scattered iovec tot s result fillings s'
  unfolding read_each
  read_each-Scattered [] tot s no_buffer small = record {
    total = ap ok (omega arith);
    bytes = refl;
    fits = no_more;
    ends = inl refl;
  }
  read_each-Scattered (iov ∷ iovec) tot s (buffer pos checked w) small =
      let n = iov.iov_len in
      let bytes = (read file n s).0 in
      let s' = (read file n s).1 in
      let fits : length bytes ≤ n = reading.fits n s in
      elim (Bool-cases (length bytes == 0)) [
        | inl empty ↦
            let none_read : length bytes ≡ 0 = (==_iff (length bytes) 0).0 empty in
            let kept : content s ≡ content s' =
              reading.front n s ∙ nothing_left bytes (content s') none_read in
            rw (checked, empty, read_each)
              (record {
                total = ap ok (omega arith);
                bytes = kept;
                fits = no_more;
                ends = inr (sym kept ∙ reading.at_end n s pos none_read);
              })
        | inr some_read ↦
            let later = (read_each pt memory read file iovec (add64 tot (length bytes)) s').1 in
            let more = read_each-Scattered iovec (add64 tot (length bytes)) s' w (omega arith) in
            rw (checked, some_read, read_each)
              (record {
                total = more.total ∙ ap ok (omega (arith, length-append bytes (all_bytes later)));
                bytes =
                    reading.front n s
                    ∙ ap (◌++◌ bytes) more.bytes
                    ∙ sym (append_assoc bytes (all_bytes later) _);
                fits = next fits more.fits;
                ends = elim more.ends [ inl all ↦ inl (omega (arith, all)) | inr over ↦ inr over ];
              })
      ]

  -- `readv` into buffers that the program may write to and none of which is empty, from a file that
  -- gives the next bytes at each read, as many as it likes but none only at its end: it returns how many
  -- bytes it took from the file. These are the next bytes, none lost and none twice; each of the
  -- buffers, from the first one on, has a part of them at its beginning, in order. All buffers have a
  -- part, or the file is at its end.
  pub sys_readv-Scattered :
      (vectors : ℕ → ℕ → List IoVec) (table : State) (fd iovec vlen : ℕ) (s : S)
      → readv_target table fd ≡ ok file
      → check_slice pt memory iovec vlen ≡ ok (iovec, vlen)
      → AllWritable pt memory (vectors iovec vlen)
      → capacity (vectors iovec vlen) < word
      → let (result, fillings, s') = sys_readv pt memory read vectors table fd iovec vlen s in
        Scattered (vectors iovec vlen) 0 s result fillings s'
  unfolding sys_readv checked_file
  sys_readv-Scattered vectors table fd iovec vlen s open_at checked w small =
      rw (checked, open_at, sys_readv, checked_file)
        (read_each-Scattered (vectors iovec vlen) 0 s w (omega arith))
