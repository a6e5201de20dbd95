-- ===== src/Fat32/Whole.antt =====
-- Reading a whole file.
use neuclear.Base.{
  ℕ, zero, suc, ◌<◌, ◌≤◌, ltb, ◌≡◌, refl, sym, ◌∙◌, ap, inl, inr, Bool-cases, false, List, [], ◌∷◌,
  ◌++◌, ◌==◌, arith, length, length-append,
}
use neuclear.Base.Outcome.{ok}
use neuclear.BlockCache.{block_size}
use neuclear.Fat32.{done, Fatfs, file, read_on, read_all}

-- A read does not fail: the bytes come from the front of what is left, as many as the library likes up
-- to the length of the buffer, but none only at the end of the file.
pub record ReadsOn (fat : Fatfs) (content : fat.File × fat.Disk → List ℕ) (s : fat.File × fat.Disk)
    : Type 0 where
  pub bytes : List ℕ
  pub answered : (fat.file_read block_size s).0 ≡ done bytes
  pub fits : length bytes ≤ block_size
  pub front : content s ≡ bytes ++ content (fat.file_read block_size s).1
  pub at_end : length bytes ≡ 0 → content s ≡ []

nothing_left : (xs ys : List ℕ) → xs ++ ys ≡ [] → ys ≡ []
nothing_left [] ys e = e
nothing_left (x ∷ xs) ys e = cc e

in_buffer : (bytes : List ℕ) → length bytes ≤ block_size → ltb block_size (length bytes) ≡ false
in_buffer bytes h = ground arith

module _ (fat : Fatfs) (content : fat.File × fat.Disk → List ℕ)
    (reads : (s : fat.File × fat.Disk) → ReadsOn fat content s) where
  read_on-content :
      (fuel : ℕ) (s : fat.File × fat.Disk)
      → length (content s) < fuel
      → (s' : fat.File × fat.Disk) × (read_on fat fuel s ≡ ok (done (content s), s'.0, s'.1))
        × (content s' ≡ [])
  unfolding read_on
  read_on-content zero s h = elim h [ ]
  read_on-content (suc fuel) s h =
      let r = reads s in
      let later = (fat.file_read block_size s).1 in
      elim (Bool-cases (length r.bytes == 0)) [
        | inl none_read ↦
            let over : content s ≡ [] = r.at_end (ground arith) in
            (
              later,
              rw (r.answered, none_read, read_on, over) refl,
              nothing_left r.bytes (content later) (sym r.front ∙ over),
            )
        | inr some_read ↦
            let (s', rest, left) =
              read_on-content fuel later
                (ground (arith, ap length r.front, length-append r.bytes (content later))) in
            (
              s',
              rw (r.answered, some_read, in_buffer r.bytes r.fits, rest, read_on)
                  (ap (λ bs. ok (done bs, s'.0, s'.1)) (sym r.front)),
              left,
            )
      ]

  -- `read_all` of a file, from wherever it stands, with fuel for one read more than it has bytes, if no
  -- read of the library fails or gives more than a block, and one gives nothing only at the end of the
  -- file: it returns all bytes that are left, however short the reads are, and leaves none.
  pub read_all-content :
      (fuel : ℕ) (f : fat.File) (disk : fat.Disk)
      → length (content (f, disk)) < fuel
      → (f' : fat.File) × (disk' : fat.Disk) × (read_all fat fuel (file f) disk
          ≡ ok (done (content (f, disk)), file f', disk'))
        × (content (f', disk') ≡ [])
  unfolding read_all
  read_all-content fuel f disk h =
      let (s', e, left) = read_on-content fuel (f, disk) h in
      (s'.0, s'.1, rw (e, read_all) refl, left)
