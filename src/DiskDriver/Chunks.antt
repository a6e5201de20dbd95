-- ===== src/DiskDriver/Chunks.antt =====
-- One round of the loops: the bytes of one block.
use neuclear.Base.{
  ℕ, ◌+◌, ◌-◌, ◌*◌, ◌/◌, ◌%◌, ◌^◌, ◌≤◌, ◌<◌, ◌≡◌, ◌≢◌, ◌⊎◌, refl, sym, ◌∙◌, ap, ap₂, inl, inr, true,
  false, not, ◌||◌, List, arith, length, take, drop, get_or, min, ltb, ◌==◌, ==_iff, Bool-cases,
  length-take, if◌then◌else◌, word, dec_lt,
}
use neuclear.Base.Outcome.{Outcome, ok}
use neuclear.BlockCache.{
  BlockDevice, BlockCache, State, read_cached, write_cached, splice, block_size,
}
use neuclear.BlockCache.Bytes.{length-splice}
use neuclear.BlockCache.View.{BlockDeviceLaws}
use neuclear.DiskDriver.{DiskDriver, advance, with_block, read_here}
use neuclear.DiskDriver.Blocks.{view, Keeps}
use neuclear.DiskDriver.Flat.{
  bytes_from, over, bytes_from_same, take-drop-bytes_from, splice-over, over-in, over-out,
}
use neuclear.DiskDriver.Ready.{IsReady, with_block-Called}

-- The place of the cursor on the disk.
abbrev pub place : DiskDriver → ℕ
place d = d.block_id * block_size + d.block_offset

-- The bytes of a round.
abbrev pub chunk : DiskDriver → ℕ → ℕ
chunk d left = min (block_size - d.block_offset) left

pub advance-place :
    (n : ℕ) (d : DiskDriver)
    → d.block_offset + n ≤ block_size
    → place d + n ≤ word
    → (place (advance n d) ≡ place d + n) × ((advance n d).block_offset < block_size)
unfolding advance
advance-place n d h l = (ground arith, ground arith)

module _ (device : BlockDevice) (laws : BlockDeviceLaws device) where
  -- The disk as a client sees it, byte for byte.
  abbrev pub byte : State device → ℕ → ℕ
  byte s q = get_or (view device laws s (q / block_size)) (q % block_size) 0

  byte_in_block :
      (s : State device) (d : DiskDriver) (i : ℕ)
      → d.block_offset + i < block_size
      → get_or (view device laws s d.block_id) (d.block_offset + i) 0 ≡ byte s (place d + i)
  byte_in_block s d i h =
      ap₂ (λ id k. get_or (view device laws s id) k 0) {x = d.block_id}
        {y = (place d + i) / block_size} {u = d.block_offset + i} {v = (place d + i) % block_size}
        (omega arith) (omega arith)

  read_here-answer :
      (offset left : ℕ) (b : BlockCache)
      → offset < block_size
      → left < 2 ^ 32
      → let n = min (block_size - offset) left in
        read_here device offset left b ≡ ok ((n, take n (drop offset b.cache)), b)
  unfolding read_cached
  read_here-answer offset left b h small =
      let test : ltb offset block_size ≡ true = ground arith in
      let len : left % 2 ^ 32 ≡ left = omega arith in rw (test, len, read_cached) refl

  parts :
      {A : Type 0} (a : A) (b : BlockCache) (a' : A) (b' : BlockCache)
      → ◌≡◌ {A = Outcome (A × BlockCache)} (ok (a, b)) (ok (a', b'))
      → (a ≡ a') × (b ≡ b')
  parts a b a' b' e = (cc e, cc e)

  -- A round of reading gives the next bytes, and changes none.
  pub record ReadChunk (d : DiskDriver) (left : ℕ) (s s' : State device) : Type 0 where
    pub result :
        with_block device d.block_id (read_here device d.block_offset left) s
        ≡ ok ((chunk d left, bytes_from (byte s) (place d) (chunk d left)), s')
    pub ready : IsReady device laws s'
    pub same : (q : ℕ) → byte s' q ≡ byte s q

  pub read_here-ReadChunk :
      (d : DiskDriver) (left : ℕ) (s : State device)
      → IsReady device laws s
      → d.block_offset < block_size
      → left < 2 ^ 32
      → (s' : State device) × ReadChunk d left s s'
  read_here-ReadChunk d left s r h small =
      let f = read_here device d.block_offset left in
      let (b, b', a, s', c) = with_block-Called device laws d.block_id f s r (λ b full. (
        _,
        b,
        read_here-answer d.block_offset left b h small,
        record { same_id = refl; full = full; marked = inr refl },
      )) in
      let n = chunk d left in
      let (a_is, b_is) =
        parts a b' (n, take n (drop d.block_offset b.cache)) b
          (sym c.called ∙ read_here-answer d.block_offset left b h small) in
      let bytes : take n (drop d.block_offset b.cache) ≡ bytes_from (byte s) (place d) n =
        ap (λ xs. take n (drop d.block_offset xs)) c.before
        ∙ take-drop-bytes_from (view device laws s d.block_id) d.block_offset n
            (omega (arith, r.full d.block_id))
        ∙ bytes_from_same (λ j. get_or (view device laws s d.block_id) j 0) (byte s) d.block_offset
            (place d) n (λ i l. byte_in_block s d i (omega arith)) in
      let same : (other : ℕ) → view device laws s' other ≡ view device laws s other =
        λ other. c.after other ∙ unchanged other (ap (λ x. x.cache) b_is ∙ c.before) in
      (
        s',
        record {
          result = c.result ∙ ap (λ x. ok (x, s')) (a_is ∙ ap (λ xs. (n, xs)) bytes);
          ready = c.ready;
          same = λ q. ap (λ xs. get_or xs (q % block_size) 0) (same (q / block_size));
        },
      )
    where
      unchanged :
          (other : ℕ) {xs : List ℕ}
          → xs ≡ view device laws s d.block_id
          → (if d.block_id == other then xs else view device laws s other)
            ≡ view device laws s other
      unchanged other e = elim (Bool-cases (d.block_id == other)) [
        | inl here ↦ rw here (e ∙ ap (view device laws s) ((==_iff _ _).0 here))
        | inr elsewhere ↦ rw elsewhere refl
      ]

  written : BlockCache → ℕ → List ℕ → BlockCache
  written b offset buf = record b {
    modified = b.modified || not (length buf == 0);
    cache = splice offset (take (min (block_size - offset) (length buf)) buf) b.cache;
  }

  -- A round of writing takes as many bytes as fit into the block.
  pub record WroteChunk (d : DiskDriver) (buf : List ℕ) (s s' : State device) : Type 0 where
    pub result :
        with_block device d.block_id (write_cached d.block_offset buf) s
        ≡ ok (chunk d (length buf), s')
    pub ready : IsReady device laws s'
    pub changed : (q : ℕ) → byte s' q ≡ over (place d) (take (chunk d (length buf)) buf) (byte s) q

  write_cached-answer :
      (offset : ℕ) (buf : List ℕ) (b : BlockCache)
      → offset < block_size
      → length buf < 2 ^ 32
      → write_cached offset buf b
        ≡ ok (min (block_size - offset) (length buf), written b offset buf)
  unfolding write_cached written
  write_cached-answer offset buf b h small =
      let test : ltb offset block_size ≡ true = ground arith in
      let len : length buf % 2 ^ 32 ≡ length buf = omega arith in rw (test, len, write_cached) refl

  written-Keeps :
      (offset : ℕ) (buf : List ℕ) (b : BlockCache)
      → offset < block_size
      → 0 < length buf
      → length b.cache ≡ block_size
      → Keeps device laws b (written b offset buf)
  unfolding written
  written-Keeps offset buf b h some_bytes full = record {
    same_id = refl;
    full =
        length-splice offset (take (min (block_size - offset) (length buf)) buf) b.cache
          (omega (arith, full, length-take (min (block_size - offset) (length buf)) buf))
        ∙ full;
    marked = inl (ground arith);
  }

  moved :
      (d : DiskDriver) (xs : List ℕ) (s : State device) (q : ℕ)
      → d.block_offset + length xs ≤ block_size
      → d.block_id ≡ q / block_size
      → over d.block_offset xs (λ i. get_or (view device laws s d.block_id) i 0) (q % block_size)
        ≡ over (place d) xs (byte s) q
  moved d xs s q fits here =
      let f : ℕ → ℕ = λ i. get_or (view device laws s d.block_id) i 0 in
      let at : q ≡ d.block_id * block_size + q % block_size = omega (arith, here) in
      elim (dec_lt q (place d)) [
        | yes below ↦
            over-out d.block_offset xs f (q % block_size) (inl (omega (arith, at)))
            ∙ ap (λ id. get_or (view device laws s id) (q % block_size) 0) here
            ∙ sym (over-out (place d) xs (byte s) q (inl below))
        | no above ↦ elim (dec_lt q (place d + length xs)) [
          | yes inside ↦
              over-in d.block_offset xs f (q % block_size) (omega (arith, at)) (omega (arith, at))
              ∙ ap (λ k. get_or xs k 0) {x = q % block_size - d.block_offset} {y = q - place d}
                  (omega (arith, at))
              ∙ sym (over-in (place d) xs (byte s) q (omega arith) inside)
          | no behind ↦
              over-out d.block_offset xs f (q % block_size) (inr (omega (arith, at)))
              ∙ ap (λ id. get_or (view device laws s id) (q % block_size) 0) here
              ∙ sym (over-out (place d) xs (byte s) q (inr (omega arith)))
        ]
      ]

  overwrites :
      (d : DiskDriver) (xs cache : List ℕ) (s : State device) (q : ℕ)
      → IsReady device laws s
      → d.block_offset < block_size
      → d.block_offset + length xs ≤ block_size
      → cache ≡ splice d.block_offset xs (view device laws s d.block_id)
      → get_or
          (if d.block_id == q / block_size then cache else view device laws s (q / block_size))
          (q % block_size)
          0
        ≡ over (place d) xs (byte s) q
  overwrites d xs cache s q r h fits e = elim (Bool-cases (d.block_id == q / block_size)) [
    | inl here ↦ rw here (
        ap (λ ys. get_or ys (q % block_size) 0) e
        ∙ splice-over d.block_offset xs (view device laws s d.block_id) (q % block_size)
            (omega (arith, r.full d.block_id))
        ∙ moved d xs s q fits ((==_iff _ _).0 here))
    | inr elsewhere ↦
        rw elsewhere (sym (over-out (place d) xs (byte s) q (outside (apart elsewhere))))
  ]
    where
      apart : (d.block_id == q / block_size) ≡ false → d.block_id ≢ q / block_size
      apart elsewhere same = cc (elsewhere, (==_iff _ _).1 same)

      outside : d.block_id ≢ q / block_size → (q < place d) ⊎ (place d + length xs ≤ q)
      outside ne = elim (dec_lt q (place d)) [
        | yes below ↦ inl below
        | no above ↦ inr (omega arith)
      ]

  pub write_cached-WroteChunk :
      (d : DiskDriver) (buf : List ℕ) (s : State device)
      → IsReady device laws s
      → d.block_offset < block_size
      → 0 < length buf
      → length buf < 2 ^ 32
      → (s' : State device) × WroteChunk d buf s s'
  unfolding written
  write_cached-WroteChunk d buf s r h some_bytes small =
      let n = chunk d (length buf) in
      let (b, b', a, s', c) =
        with_block-Called device laws d.block_id (write_cached d.block_offset buf) s r (λ b full. (
          _,
          written b d.block_offset buf,
          write_cached-answer d.block_offset buf b h small,
          written-Keeps d.block_offset buf b h some_bytes full,
        )) in
      let size : d.block_offset + length (take n buf) ≤ block_size =
        omega (arith, length-take n buf) in
      let (a_is, b_is) =
        parts a b' n (written b d.block_offset buf)
          (sym c.called ∙ write_cached-answer d.block_offset buf b h small) in
      let cache : b'.cache ≡ splice d.block_offset (take n buf) (view device laws s d.block_id) =
        ap (λ x. x.cache) b_is ∙ ap (splice d.block_offset (take n buf)) c.before in
      (
        s',
        record {
          result = c.result ∙ ap (λ x. ok (x, s')) a_is;
          ready = c.ready;
          changed = λ q.
              ap (λ xs. get_or xs (q % block_size) 0) (c.after (q / block_size))
              ∙ overwrites d (take n buf) b'.cache s q r h size cache;
        },
      )
