-- ===== src/Transfers/Gather.antt =====
-- What `writev` takes of its buffers.
use neuclear.Base.{
  ℕ, ◌+◌, ◌<◌, ◌≤◌, ◌⊎◌, inl, inr, Bool-cases, ==_iff, take, refl, ◌≡◌, sym, ◌∙◌, ap, List, [], ◌∷◌,
  ◌++◌, ◌==◌, arith, length, add64, word, append-nil, append_assoc,
}
use neuclear.Base.Outcome.{Outcome, ok}
use neuclear.Files.{FileRef}
use neuclear.FdTable.{State, writev_target}
use neuclear.Memory.Frames.{Memory}
use neuclear.Memory.PageTable.{PageTable}
use neuclear.Task.UserPtr.{check_slice}
use neuclear.Transfers.{IoVec, checked_file, write_each, sys_writev}
use neuclear.Transfers.Scatter.{capacity}

-- The buffers are not empty, and the program may read them.
pub data AllReadable (pt : PageTable) (memory : Memory) : List IoVec → Type 0 where
  no_source : AllReadable pt memory []
  source :
      {iov : IoVec} {iovec : List IoVec}
      → 0 < iov.iov_len
      → check_slice pt memory iov.iov_base iov.iov_len ≡ ok (iov.iov_base, iov.iov_len)
      → AllReadable pt memory iovec
      → AllReadable pt memory (iov ∷ iovec)

-- A file that takes a front part of what it is given, all of it or less, and nothing only when it is
-- full: `content` is what was written to it so far.
pub record Taking {ℓ} {S : Type ℓ} (write : FileRef → List ℕ → S → ℕ × S) (file : FileRef)
    (content : S → List ℕ) (IsFull : S → Type 0) : Type ℓ where
  pub fits : (bytes : List ℕ) (s : S) → (write file bytes s).0 ≤ length bytes
  pub appends :
      (bytes : List ℕ) (s : S)
      → content (write file bytes s).1 ≡ content s ++ take (write file bytes s).0 bytes
  pub stops :
      (bytes : List ℕ) (s : S)
      → 0 < length bytes
      → (write file bytes s).0 ≡ 0
      → IsFull (write file bytes s).1

abbrev pub sum : List ℕ → ℕ
sum [] = 0
sum (n ∷ ns) = n + sum ns

-- A count for each buffer from the first one on, of at least one byte and at most those of the buffer.
pub data Counts : List IoVec → List ℕ → Type 0 where
  none_left : {iovec : List IoVec} → Counts iovec []
  count :
      {iov : IoVec} {iovec : List IoVec} {n : ℕ} {ns : List ℕ}
      → 0 < n
      → n ≤ iov.iov_len
      → Counts iovec ns
      → Counts (iov ∷ iovec) (n ∷ ns)

module _ (bytes_at : ℕ → ℕ → List ℕ) where
  -- Of each buffer the front part of its count.
  abbrev pub gathered : List IoVec → List ℕ → List ℕ
  gathered [] ns = []
  gathered (iov ∷ iovec) [] = []
  gathered (iov ∷ iovec) (n ∷ ns) = take n (bytes_at iov.iov_base iov.iov_len) ++ gathered iovec ns

module _ {ℓ} {S : Type ℓ} (pt : PageTable) (memory : Memory) (write : FileRef → List ℕ → S → ℕ × S)
    (bytes_at : ℕ → ℕ → List ℕ) (as_long : (base len : ℕ) → length (bytes_at base len) ≡ len)
    (file : FileRef) (content : S → List ℕ) (IsFull : S → Type 0)
    (taking : Taking write file content IsFull) where
  -- What was taken of the buffers, one after the other.
  pub record Gathered (iovec : List IoVec) (tot : ℕ) (s : S) (result : Outcome ℕ) (s' : S)
      : Type ℓ where
    pub counts : List ℕ
    pub within : Counts iovec counts
    pub total : result ≡ ok (tot + sum counts)
    pub wrote : content s' ≡ content s ++ gathered bytes_at iovec counts
    pub ends : (length counts ≡ length iovec) ⊎ IsFull s'

  pub write_each-Gathered :
      (iovec : List IoVec) (tot : ℕ) (s : S)
      → AllReadable pt memory iovec
      → tot + capacity iovec < word
      → let (result, s') = write_each pt memory write bytes_at file iovec tot s in
        Gathered iovec tot s result s'
  unfolding write_each
  write_each-Gathered [] tot s no_source small = record {
    counts = [];
    within = none_left;
    total = ap ok (omega arith);
    wrote = sym (append-nil (content s));
    ends = inl refl;
  }
  write_each-Gathered (iov ∷ iovec) tot s (source pos checked w) small =
      let bytes = bytes_at iov.iov_base iov.iov_len in
      let n = (write file bytes s).0 in
      let s' = (write file bytes s).1 in
      let fits : n ≤ iov.iov_len =
        omega (arith, taking.fits bytes s, as_long iov.iov_base iov.iov_len) in
      elim (Bool-cases (n == 0)) [
        | inl nothing ↦
            let zero_written : n ≡ 0 = (==_iff n 0).0 nothing in
            rw (checked, nothing, write_each)
              (record {
                counts = [];
                within = none_left;
                total = ap ok (omega arith);
                wrote = taking.appends bytes s ∙ ap (λ k. content s ++ take k bytes) zero_written;
                ends = inr (
                    taking.stops bytes s (omega (arith, as_long iov.iov_base iov.iov_len))
                      zero_written);
              })
        | inr some_written ↦
            let more = write_each-Gathered iovec (add64 tot n) s' w (omega arith) in
            rw (checked, some_written, write_each)
              (record {
                counts = n ∷ more.counts;
                within = count (ground arith) fits more.within;
                total = more.total ∙ ap ok (omega arith);
                wrote =
                    more.wrote
                    ∙ ap (λ bs. bs ++ gathered bytes_at iovec more.counts) (taking.appends bytes s)
                    ∙ append_assoc (content s) (take n bytes) (gathered bytes_at iovec more.counts);
                ends = elim more.ends [ inl all ↦ inl (omega (arith, all)) | inr full ↦ inr full ];
              })
      ]

  -- `writev` from buffers that the program may read and none of which is empty, to a file that is
  -- readable too and takes a front part of what it is given, none only when it is full: each buffer from
  -- the first one on has a count of its bytes, the file gets just those front parts of the buffers one
  -- after the other, and the result is the sum of the counts. All buffers have a count, or the file is
  -- full. So a file that takes a part of a buffer only goes on with the next one.
  pub sys_writev-Gathered :
      (vectors : ℕ → ℕ → List IoVec) (table : State) (fd iovec vlen : ℕ) (s : S)
      → writev_target table fd ≡ ok file
      → check_slice pt memory iovec vlen ≡ ok (iovec, vlen)
      → AllReadable pt memory (vectors iovec vlen)
      → capacity (vectors iovec vlen) < word
      → let (result, s') = sys_writev pt memory write bytes_at vectors table fd iovec vlen s in
        Gathered (vectors iovec vlen) 0 s result s'
  unfolding sys_writev checked_file
  sys_writev-Gathered vectors table fd iovec vlen s open_at checked w small =
      rw (checked, open_at, sys_writev, checked_file)
        (write_each-Gathered (vectors iovec vlen) 0 s w (omega arith))
