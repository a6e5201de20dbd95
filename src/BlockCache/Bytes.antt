-- ===== src/BlockCache/Bytes.antt =====
-- The bytes of one cached block.
use neuclear.Base.{
  ℕ, zero, suc, ◌+◌, ◌-◌, ◌%◌, ◌^◌, ◌<◌, ◌≤◌, ◌≡◌, refl, sym, ◌∙◌, ap, true, List, [], ◌∷◌, ◌++◌,
  arith, length, take, drop, min, length-append, length-take, length-drop, ltb, ◌||◌, not, ◌==◌,
}
use neuclear.Base.Outcome.{ok}
use neuclear.BlockCache.{BlockCache, block_size, read_cached, write_cached, splice}

drop-append_length : (n : ℕ) (xs ys : List ℕ) → length xs ≡ n → drop n (xs ++ ys) ≡ ys
drop-append_length zero [] ys e = refl
drop-append_length zero (x ∷ xs) ys e = absurd (omega arith)
drop-append_length (suc n) [] ys e = absurd (omega arith)
drop-append_length (suc n) (x ∷ xs) ys e = drop-append_length n xs ys (omega arith)

take-append_length : (n : ℕ) (xs ys : List ℕ) → length xs ≡ n → take n (xs ++ ys) ≡ xs
take-append_length zero [] ys e = refl
take-append_length zero (x ∷ xs) ys e = absurd (omega arith)
take-append_length (suc n) [] ys e = absurd (omega arith)
take-append_length (suc n) (x ∷ xs) ys e = ap (◌∷◌ x) (take-append_length n xs ys (omega arith))

take-drop-splice :
    (offset : ℕ) (buf bytes : List ℕ)
    → offset + length buf ≤ length bytes
    → take (length buf) (drop offset (splice offset buf bytes)) ≡ buf
take-drop-splice offset buf bytes h =
    ap (take (length buf)) (
      drop-append_length offset (take offset bytes) (buf ++ drop (offset + length buf) bytes)
        (omega (arith, length-take offset bytes)))
    ∙ take-append_length (length buf) buf (drop (offset + length buf) bytes) refl

pub length-splice :
    (offset : ℕ) (buf bytes : List ℕ)
    → offset + length buf ≤ length bytes
    → length (splice offset buf bytes) ≡ length bytes
length-splice offset buf bytes h = omega (
  arith,
  length-append (take offset bytes) (buf ++ drop (offset + length buf) bytes),
  length-append buf (drop (offset + length buf) bytes),
  length-take offset bytes,
  length-drop (offset + length buf) bytes,
)

-- Writing a buffer at an offset inside a full block takes as many bytes as fit, and keeps the block
-- full; reading that many bytes there gives them back.
pub write_cached-read_cached :
    (offset : ℕ) (buf : List ℕ) (b : BlockCache)
    → length b.cache ≡ block_size
    → offset < block_size
    → length buf < 2 ^ 32
    → let n = min (block_size - offset) (length buf) in
      (b' : BlockCache) × (write_cached offset buf b ≡ ok (n, b'))
      × (length b'.cache ≡ block_size)
      × (read_cached offset n b' ≡ ok (n, take n buf))
unfolding write_cached read_cached
write_cached-read_cached offset buf b full inside small =
    let n = min (block_size - offset) (length buf) in
    let test : ltb offset block_size ≡ true = ground arith in
    let len : length buf % 2 ^ 32 ≡ length buf = omega arith in
    let again : min (block_size - offset) (n % 2 ^ 32) ≡ n = omega arith in
    let size : length (take n buf) ≡ n = omega (arith, length-take n buf) in
    let fits : offset + length (take n buf) ≤ length b.cache = omega (arith, size, full) in
    (
      record b {
        modified = b.modified || not (length buf == 0);
        cache = splice offset (take n buf) b.cache;
      },
      rw (write_cached, test, len) refl,
      length-splice offset (take n buf) b.cache fits ∙ full,
      rw (read_cached, test, again)
          (ap (λ bytes. ok (n, bytes))
            (ap (λ k. take k (drop offset (splice offset (take n buf) b.cache))) (sym size)
              ∙ take-drop-splice offset (take n buf) b.cache fits)),
    )
