-- ===== src/BlockCache/Get.antt =====
-- Getting a block changes no block that a client sees.
use neuclear.Base.{
  ℕ, suc, ◌+◌, ◌≤◌, ◌≡◌, ◌≢◌, refl, sym, ◌∙◌, ap, ◌⊎◌, inl, inr, true, false, List, [], ◌∷◌, ◌++◌,
  Option, none, some, Bool-cases, Option-cases, ◌==◌, ==_refl, ==_iff, arith, length, length-append,
}
use mathlib.Core.Path.{subst}
use neuclear.Base.Outcome.{ok, panic}
use neuclear.BlockCache.{
  BlockDevice, Cached, State, find_cached, share, load_block, substitute, push_back,
  get_block_cache, block_cache_size,
}
use neuclear.BlockCache.View.{
  BlockDeviceLaws, view_of, IsValid, absent_ne, Substituted, substitute-Substituted,
}

-- Some handle is held on every block.
abbrev pub AllUsed : List Cached → Type 0
AllUsed [] = Unit
AllUsed (c ∷ queue) = (c.users ≢ 0) × AllUsed queue

length-share : (id : ℕ) (queue : List Cached) → length (share id queue) ≡ length queue
unfolding share
length-share id [] = refl
length-share id (c ∷ queue) = let later = length-share id queue in ground arith

find_cached-share-none :
    (id other : ℕ) (queue : List Cached)
    → find_cached other queue ≡ none
    → find_cached other (share id queue) ≡ none
unfolding find_cached share
find_cached-share-none id other [] e = refl
find_cached-share-none id other (c ∷ queue) e =
    let later = find_cached-share-none id other queue in ground arith

find_cached-share :
    (id : ℕ) (queue : List Cached) (c : Cached)
    → find_cached id queue ≡ some c
    → find_cached id (share id queue) ≡ some (record c { users = c.users + 1 })
unfolding find_cached share
find_cached-share id [] c e = cc e
find_cached-share id (d ∷ queue) c e = let later = find_cached-share id queue c in ground arith

module _ (device : BlockDevice) (laws : BlockDeviceLaws device) where
  view_of-share :
      (id other : ℕ) (queue : List Cached) (disk : device.Disk)
      → view_of device laws (share id queue) disk other ≡ view_of device laws queue disk other
  unfolding view_of share
  view_of-share id other [] disk = refl
  view_of-share id other (c ∷ queue) disk =
      let later = view_of-share id other queue disk in ground arith

  share-IsValid :
      (id : ℕ) (queue : List Cached) (disk : device.Disk)
      → IsValid device laws queue disk
      → IsValid device laws (share id queue) disk
  unfolding share
  share-IsValid id [] disk v = tt
  share-IsValid id (c ∷ queue) disk (once, clean, v) = elim (Bool-cases (c.block.block_id == id)) [
    | inl same ↦ rw same (once, clean, v)
    | inr other ↦ rw other (
      find_cached-share-none id c.block.block_id queue once,
      clean,
      share-IsValid id queue disk v,
    )
  ]

  abbrev new_cached : ℕ → device.Disk → Cached
  new_cached id disk = record { block = load_block device id disk; users = 1 }

  view_of-push :
      (id other : ℕ) (queue : List Cached) (disk : device.Disk)
      → view_of device laws (queue ++ new_cached id disk ∷ []) disk other
        ≡ view_of device laws queue disk other
  unfolding view_of load_block
  view_of-push id other [] disk = elim (Bool-cases (id == other)) [
    | inl same ↦ rw same (ap (λ k. device.read_block k disk) ((==_iff id other).0 same))
    | inr ne ↦ rw ne refl
  ]
  view_of-push id other (c ∷ queue) disk =
      let later = view_of-push id other queue disk in ground arith

  find_cached-push_ne :
      (id other : ℕ) (queue : List Cached) (disk : device.Disk)
      → id ≢ other
      → find_cached other queue ≡ none
      → find_cached other (queue ++ new_cached id disk ∷ []) ≡ none
  unfolding find_cached load_block
  find_cached-push_ne id other [] disk ne e = ground arith
  find_cached-push_ne id other (c ∷ queue) disk ne e =
      let later = find_cached-push_ne id other queue disk ne in ground arith

  find_cached-push :
      (id : ℕ) (queue : List Cached) (disk : device.Disk)
      → find_cached id queue ≡ none
      → find_cached id (queue ++ new_cached id disk ∷ []) ≡ some (new_cached id disk)
  unfolding find_cached load_block
  find_cached-push id [] disk e = rw (==_refl id) refl
  find_cached-push id (c ∷ queue) disk e =
      let later = find_cached-push id queue disk in ground arith

  push-IsValid :
      (id : ℕ) (queue : List Cached) (disk : device.Disk)
      → find_cached id queue ≡ none
      → IsValid device laws queue disk
      → IsValid device laws (queue ++ new_cached id disk ∷ []) disk
  unfolding find_cached load_block
  push-IsValid id [] disk e v = (refl, inr refl, tt)
  push-IsValid id (c ∷ queue) disk e (once, clean, v) =
      let (ne, later) = absent_ne device laws c queue id e in
      (
        find_cached-push_ne id c.block.block_id queue disk (λ same. ne (sym same)) once,
        clean,
        push-IsValid id queue disk later v,
      )

  substitute-AllUsed :
      (queue : List Cached) (disk : device.Disk)
      → substitute device queue disk ≡ none
      → AllUsed queue
  unfolding substitute
  substitute-AllUsed [] disk e = tt
  substitute-AllUsed (c ∷ queue) disk e = elim (Bool-cases (c.users == 0)) [
    | inl free ↦ absurd (some_free free e)
    | inr used ↦ (
      (λ zero. cc (used, (==_iff c.users 0).1 zero)),
      substitute-AllUsed queue disk (rest_none used e),
    )
  ]
    where
      some_free : (c.users == 0) ≡ true → substitute device (c ∷ queue) disk ≢ none
      some_free free e = ground arith

      rest_none :
          (c.users == 0) ≡ false
          → substitute device (c ∷ queue) disk ≡ none
          → substitute device queue disk ≡ none
      rest_none used e = ground arith

  -- The state shows the same blocks as before, is valid and not too long, and block `id` is cached with
  -- a handle on it.
  pub record Got (id : ℕ) (s s' : State device) : Type 0 where
    pub views :
        (other : ℕ)
        → view_of device laws s'.queue s'.disk other ≡ view_of device laws s.queue s.disk other
    pub valid : IsValid device laws s'.queue s'.disk
    pub fits : length s'.queue ≤ block_cache_size
    pub cached : (c : Cached) × (find_cached id s'.queue ≡ some c) × (c.users ≢ 0)

  push-Got :
      (id : ℕ) (s : State device) (queue : List Cached) (disk : device.Disk)
      → IsValid device laws queue disk
      → find_cached id queue ≡ none
      → suc (length queue) ≤ block_cache_size
      → ((other : ℕ)
          → view_of device laws queue disk other ≡ view_of device laws s.queue s.disk other)
      → Got id s (push_back device id queue disk)
  unfolding push_back
  push-Got id s queue disk v absent room views = record {
    views = λ other. view_of-push id other queue disk ∙ views other;
    valid = push-IsValid id queue disk absent v;
    fits = omega (arith, length-append queue (new_cached id disk ∷ []));
    cached = (new_cached id disk, find_cached-push id queue disk absent, λ e. cc e);
  }

  -- Getting a block of a valid cache: either the cache is full of other blocks with a handle on each,
  -- and the code panics; or it succeeds, and no block that a client sees has changed, whichever block
  -- was written back to make room, the cache is valid and not too long, and the block is cached with a
  -- handle on it.
  pub get_block_cache-Got :
      (id : ℕ) (s : State device)
      → IsValid device laws s.queue s.disk
      → length s.queue ≤ block_cache_size
      → ((get_block_cache device id s ≡ panic)
          × (length s.queue ≡ block_cache_size)
          × AllUsed s.queue
          × (find_cached id s.queue ≡ none))
        ⊎ ((s' : State device) × (get_block_cache device id s ≡ ok s') × Got id s s')
  unfolding get_block_cache
  get_block_cache-Got id s v le = elim (Option-cases (find_cached id s.queue)) [
    | inr (c, found) ↦ inr (
      record s { queue = share id s.queue },
      rw (get_block_cache, found) refl,
      record {
        views = λ other. view_of-share id other s.queue s.disk;
        valid = share-IsValid id s.queue s.disk v;
        fits = omega (arith, length-share id s.queue);
        cached = (
          record c { users = c.users + 1 },
          find_cached-share id s.queue c found,
          λ e. omega arith,
        );
      },
    )
    | inl absent ↦ elim (Bool-cases (length s.queue == block_cache_size)) [
      | inr some_room ↦ inr (
        push_back device id s.queue s.disk,
        rw (get_block_cache, absent, some_room) refl,
        push-Got id s s.queue s.disk v absent (shorter some_room) (λ other. refl),
      )
      | inl full ↦ when_full absent full (substitute device s.queue s.disk) refl
    ]
  ]
    where
      shorter :
          (length s.queue == block_cache_size) ≡ false → suc (length s.queue) ≤ block_cache_size
      shorter e = ground arith

      when_full :
          find_cached id s.queue ≡ none
          → (length s.queue == block_cache_size) ≡ true
          → (r : Option (List Cached × device.Disk)) → substitute device s.queue s.disk ≡ r
          → ((get_block_cache device id s ≡ panic)
              × (length s.queue ≡ block_cache_size)
              × AllUsed s.queue
              × (find_cached id s.queue ≡ none))
            ⊎ ((s' : State device) × (get_block_cache device id s ≡ ok s') × Got id s s')
      when_full absent full none e = inl (
        rw (get_block_cache, absent, full, e) refl,
        (==_iff _ _).0 full,
        substitute-AllUsed s.queue s.disk e,
        absent,
      )
      when_full absent full (some (queue, disk)) e =
          let (views, valid, none_new, count) : Substituted device laws s.queue s.disk
              (some (queue, disk)) =
            subst (Substituted device laws s.queue s.disk) e
              (substitute-Substituted device laws s.queue s.disk v) in
          inr (
            push_back device id queue disk,
            rw (get_block_cache, absent, full, e) refl,
            push-Got id s queue disk valid (none_new id absent) (omega (arith, count)) views,
          )
