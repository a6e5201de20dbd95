-- ===== src/DiskDriver/Loops.antt =====
-- The loops of reading and writing.
use neuclear.Base.{
  ℕ, zero, suc, ◌+◌, ◌-◌, ◌^◌, ◌≤◌, ◌<◌, ◌≡◌, refl, ◌∙◌, ap, false, List, [], ◌∷◌, ◌++◌, arith,
  length, take, drop, ltb, leb, ◌&&◌, get_or, ◌==◌, length-drop, if◌then◌else◌, word,
}
use neuclear.Base.Outcome.{ok}
use neuclear.BlockCache.{BlockDevice, State, block_size}
use neuclear.BlockCache.View.{BlockDeviceLaws}
use neuclear.DiskDriver.{DiskDriver, advance, read_loop, write_loop}
use neuclear.DiskDriver.Flat.{bytes_from, over, bytes_from_same, bytes_from-append, over-append}
use neuclear.DiskDriver.Ready.{IsReady}
use neuclear.DiskDriver.Chunks.{
  place, chunk, byte, advance-place, read_here-ReadChunk, write_cached-WroteChunk,
}

module _ (device : BlockDevice) (laws : BlockDeviceLaws device) where
  -- The cursor is `n` bytes further, in a block.
  pub record Moved (n : ℕ) (d d' : DiskDriver) : Type 0 where
    pub at : place d' ≡ place d + n
    pub inside : d'.block_offset < block_size

  pub read_loop-bytes_from :
      (fuel left : ℕ) (d : DiskDriver) (s : State device)
      → left ≤ fuel
      → IsReady device laws s
      → d.block_offset < block_size
      → left < 2 ^ 32
      → place d + left ≤ word
      → (d' : DiskDriver) × (s' : State device) × (read_loop device fuel left d s
          ≡ ok (bytes_from (byte device laws s) (place d) left, d', s'))
        × Moved left d d'
        × IsReady device laws s'
        × ((q : ℕ) → byte device laws s' q ≡ byte device laws s q)
  unfolding read_loop
  read_loop-bytes_from fuel zero d s le r h small fits =
      (d, s, done fuel, record { at = omega arith; inside = h }, r, λ q. refl)
    where
      done : (fuel : ℕ) → read_loop device fuel 0 d s ≡ ok ([], d, s)
      done zero = refl
      done (suc fuel) = refl
  read_loop-bytes_from zero (suc left) d s le r h small fits = absurd (omega arith)
  read_loop-bytes_from (suc fuel) (suc left) d s le r h small fits =
      let n = chunk d (suc left) in
      let (s₁, c) = read_here-ReadChunk device laws d (suc left) s r h small in
      let (further, inside) = advance-place n d (omega arith) (omega arith) in
      let (d', s', result, moved, ready, same) =
        read_loop-bytes_from fuel (suc left - n) (advance n d) s₁ (omega arith) c.ready inside
          (omega arith) (omega (arith, further)) in
      let more : bytes_from (byte device laws s₁) (place (advance n d)) (suc left - n)
          ≡ bytes_from (byte device laws s) (place d + n) (suc left - n) =
        ap (λ p. bytes_from (byte device laws s₁) p (suc left - n)) further
        ∙ bytes_from_same (byte device laws s₁) (byte device laws s) (place d + n) (place d + n)
            (suc left - n) (λ i l. c.same (place d + n + i)) in
      let whole : bytes_from (byte device laws s) (place d) n
            ++ bytes_from (byte device laws s₁) (place (advance n d)) (suc left - n)
          ≡ bytes_from (byte device laws s) (place d) (suc left) =
        ap (λ bs. bytes_from (byte device laws s) (place d) n ++ bs) more
        ∙ bytes_from-append (byte device laws s) (place d) n (suc left - n) (suc left)
            (omega arith) in
      let more_left : (suc left == 0) ≡ false = ground arith in
      (
        d',
        s',
        rw (more_left, c.result, result, read_loop) (ap (λ bs. ok (bs, d', s')) whole),
        record { at = omega (arith, moved.at, further); inside = moved.inside },
        ready,
        λ q. same q ∙ c.same q,
      )

  pub write_loop-over :
      (fuel : ℕ) (buf : List ℕ) (d : DiskDriver) (s : State device)
      → length buf ≤ fuel
      → IsReady device laws s
      → d.block_offset < block_size
      → length buf < 2 ^ 32
      → place d + length buf ≤ word
      → (d' : DiskDriver) × (s' : State device) × (write_loop device fuel buf d s ≡ ok (d', s'))
        × Moved (length buf) d d'
        × IsReady device laws s'
        × ((q : ℕ) → byte device laws s' q ≡ over (place d) buf (byte device laws s) q)
  unfolding write_loop
  write_loop-over fuel [] d s le r h small fits =
      (d, s, done fuel, record { at = omega arith; inside = h }, r, λ q. ground arith)
    where
      done : (fuel : ℕ) → write_loop device fuel [] d s ≡ ok (d, s)
      done zero = refl
      done (suc fuel) = refl
  write_loop-over zero (x ∷ buf) d s le r h small fits = absurd (omega arith)
  write_loop-over (suc fuel) (x ∷ buf) d s le r h small fits =
      let whole = x ∷ buf in
      let n = chunk d (length whole) in
      let (s₁, c) = write_cached-WroteChunk device laws d whole s r h (omega arith) small in
      let (further, inside) = advance-place n d (omega arith) (omega arith) in
      let left : length (drop n whole) ≡ length whole - n = length-drop n whole in
      let (d', s', result, moved, ready, changed) =
        write_loop-over fuel (drop n whole) (advance n d) s₁ (omega (arith, left)) c.ready inside
          (omega (arith, left)) (omega (arith, further, left)) in
      let more_left : (length whole == 0) ≡ false = ground arith in
      (
        d',
        s',
        rw (more_left, c.result, result, write_loop) refl,
        record { at = omega (arith, moved.at, further, left); inside = moved.inside },
        ready,
        λ q.
            changed q
            ∙ ap (λ p. over p (drop n whole) (byte device laws s₁) q) further
            ∙ over_same (place d + n) (drop n whole) (byte device laws s₁)
                (over (place d) (take n whole) (byte device laws s)) q (c.changed q)
            ∙ over-append (place d) n whole (byte device laws s) q (omega arith),
      )
    where
      over_same :
          (p : ℕ) (bytes : List ℕ) (f g : ℕ → ℕ) (q : ℕ)
          → f q ≡ g q
          → over p bytes f q ≡ over p bytes g q
      over_same p bytes f g q e =
          ap (λ v. if leb p q && ltb q (p + length bytes) then get_or bytes (q - p) 0 else v) e
