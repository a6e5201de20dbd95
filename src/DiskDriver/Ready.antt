-- ===== src/DiskDriver/Ready.antt =====
-- A cache with no handle out: a call on a block of it always succeeds.
use neuclear.Base.{
  ℕ, ◌≤◌, ◌≡◌, refl, sym, ◌∙◌, ap, subst, inl, inr, List, [], ◌∷◌, none, some, Bool-cases,
  Option-cases, ◌==◌, ==_iff, if◌then◌else◌, arith, length,
}
use neuclear.Base.Outcome.{Outcome, ok, panic}
use neuclear.BlockCache.{
  BlockDevice, BlockCache, Cached, State, find_cached, load_block, substitute, push_back,
  get_block_cache, block_cache_size, block_size,
}
use neuclear.BlockCache.View.{BlockDeviceLaws, IsValid, absent_ne}
use neuclear.BlockCache.Get.{Got, get_block_cache-Got}
use neuclear.DiskDriver.{give_back, with_block}
use neuclear.DiskDriver.Blocks.{
  NoUsers, not_full, length-give_back, give_back-share, give_back-last, view, view-found, Keeps,
  give_back-view, give_back-IsValid,
}

module _ (device : BlockDevice) (laws : BlockDeviceLaws device) where
  push_back-NoUsers :
      (id : ℕ) (b : BlockCache) (queue : List Cached) (disk : device.Disk)
      → find_cached id queue ≡ none
      → NoUsers queue
      → NoUsers (give_back id b (push_back device id queue disk).queue)
  unfolding push_back load_block
  push_back-NoUsers id b queue disk absent n =
      give_back-last id b (record { block = load_block device id disk; users = 1 }) queue refl refl
        absent n

  abbrev AfterGet : ℕ → BlockCache → Outcome (State device) → Type 0
  AfterGet id b (ok s') = NoUsers (give_back id b s'.queue)
  AfterGet id b _ = Unit

  substituted :
      (id : ℕ) (b : BlockCache) (queue : List Cached) (disk : device.Disk)
      → find_cached id queue ≡ none
      → NoUsers queue
      → AfterGet id b (elim (substitute device queue disk) [
        | none ↦ panic
        | some (queue', disk') ↦ ok (push_back device id queue' disk')
      ])
  unfolding substitute
  substituted id b [] disk absent n = tt
  substituted id b (c ∷ queue) disk absent (free, n) =
      rw ((==_iff c.users 0).1 free)
        (push_back-NoUsers id b queue _ (absent_ne device laws c queue id absent).1 n)

  -- With no handle before, there is none after the block was given back.
  get-NoUsers :
      (id : ℕ) (b : BlockCache) (s : State device)
      → NoUsers s.queue
      → AfterGet id b (get_block_cache device id s)
  unfolding get_block_cache
  get-NoUsers id b s n = elim (Option-cases (find_cached id s.queue)) [
    | inr (c, found) ↦ rw (found, get_block_cache) (give_back-share id b s.queue n)
    | inl absent ↦ elim (Bool-cases (length s.queue == block_cache_size)) [
      | inr some_room ↦
          rw (absent, some_room, get_block_cache) (push_back-NoUsers id b s.queue s.disk absent n)
      | inl full ↦ rw (absent, full, get_block_cache) (substituted id b s.queue s.disk absent n)
    ]
  ]

  -- Between the statements of the driver: the cache is valid, no handle is out, and blocks are full.
  pub record IsReady (s : State device) : Type 0 where
    pub valid : IsValid device laws s.queue s.disk
    pub fits : length s.queue ≤ block_cache_size
    pub free : NoUsers s.queue
    pub full : (id : ℕ) → length (view device laws s id) ≡ block_size

  getting :
      (id : ℕ) (s : State device)
      → IsReady s
      → (s' : State device) × (get_block_cache device id s ≡ ok s') × Got device laws id s s'
  getting id s r = elim (get_block_cache-Got device laws id s r.valid r.fits) [
    | inl (p, count, used, absent) ↦ absurd (omega (arith, not_full s.queue r.free used))
    | inr got ↦ got
  ]

  -- What a call on block `id` comes to: it is called on the bytes that the block shows, the block then
  -- shows what the call left, and no other block has changed.
  pub record Called {A : Type 0} (id : ℕ) (f : BlockCache → Outcome (A × BlockCache))
      (s : State device) (b b' : BlockCache) (a : A) (s' : State device) : Type 0 where
    pub result : with_block device id f s ≡ ok (a, s')
    pub before : b.cache ≡ view device laws s id
    pub called : f b ≡ ok (a, b')
    pub ready : IsReady s'
    pub after :
        (other : ℕ)
        → view device laws s' other ≡ (if id == other then b'.cache else view device laws s other)

  -- A function that always answers on a full block.
  abbrev pub Answers : {A : Type 0} → (BlockCache → Outcome (A × BlockCache)) → Type 0
  Answers {A} f =
      (b : BlockCache)
      → length b.cache ≡ block_size
      → (a : A) × (b' : BlockCache) × (f b ≡ ok (a, b')) × Keeps device laws b b'

  pub with_block-Called :
      {A : Type 0} (id : ℕ) (f : BlockCache → Outcome (A × BlockCache)) (s : State device)
      → IsReady s
      → Answers f
      → (b : BlockCache) × (b' : BlockCache) × (a : A) × (s' : State device) × Called id f s b b' a
          s'
  unfolding with_block
  with_block-Called id f s r answers =
      let (s₁, e, got) = getting id s r in
      let (c, found, used) = got.cached in
      let (same_id, shows) = view-found device laws id c s₁.queue s₁.disk found in
      let shown : c.block.cache ≡ view device laws s id = sym shows ∙ got.views id in
      let (a, b', called, keeps) = answers c.block (ap length shown ∙ r.full id) in
      let after : (other : ℕ)
          → view device laws (record s₁ { queue = give_back id b' s₁.queue }) other
            ≡ (if id == other then b'.cache else view device laws s other) =
        λ other.
          give_back-view device laws id other b' c s₁.queue s₁.disk found (keeps.same_id ∙ same_id)
          ∙ ap (λ bytes. if id == other then b'.cache else bytes) (got.views other) in
      (
        c.block,
        b',
        a,
        record s₁ { queue = give_back id b' s₁.queue },
        record {
          result = rw (e, found, called, with_block) refl;
          before = shown;
          called = called;
          ready = record {
            valid =
                give_back-IsValid device laws id b' c s₁.queue s₁.disk found keeps same_id
                  got.valid;
            fits = omega (arith, length-give_back id b' s₁.queue, got.fits);
            free = subst (AfterGet id b') e (get-NoUsers id b' s r.free);
            full = λ other.
                ap length (after other)
                ∙ full_after other b'.cache (view device laws s other) keeps.full (r.full other);
          };
          after = after;
        },
      )
    where
      full_after :
          (other : ℕ) (xs ys : List ℕ)
          → length xs ≡ block_size
          → length ys ≡ block_size
          → length (if id == other then xs else ys) ≡ block_size
      full_after other xs ys e e' = ground arith
