-- ===== src/DiskDriver/Blocks.antt =====
-- One call on one block of the cache.
use neuclear.Base.{
  ℕ, ◌≡◌, ◌≢◌, refl, sym, ◌∙◌, ap, subst, ◌⊎◌, inl, inr, true, false, List, [], ◌∷◌, ◌++◌, none,
  some, Bool-cases, ◌==◌, ==_refl, ==_iff, if◌then◌else◌, arith, length,
}
use neuclear.BlockCache.{BlockDevice, BlockCache, Cached, State, find_cached, share, block_size}
use neuclear.BlockCache.View.{BlockDeviceLaws, view_of, IsValid}
use neuclear.BlockCache.Get.{AllUsed}
use neuclear.DiskDriver.{give_back}

-- No handle is held on any block.
abbrev pub NoUsers : List Cached → Type 0
NoUsers [] = Unit
NoUsers (c ∷ queue) = (c.users ≡ 0) × NoUsers queue

pub not_full : (queue : List Cached) → NoUsers queue → AllUsed queue → length queue ≡ 0
not_full [] n a = refl
not_full (c ∷ queue) n a = absurd (a.0 n.0)

pub length-give_back :
    (id : ℕ) (b : BlockCache) (queue : List Cached) → length (give_back id b queue) ≡ length queue
unfolding give_back
length-give_back id b [] = refl
length-give_back id b (c ∷ queue) = let later = length-give_back id b queue in ground arith

pub give_back-share :
    (id : ℕ) (b : BlockCache) (queue : List Cached)
    → NoUsers queue
    → NoUsers (give_back id b (share id queue))
unfolding give_back share
give_back-share id b [] n = tt
give_back-share id b (c ∷ queue) (free, n) = elim (Bool-cases (c.block.block_id == id)) [
  | inl same ↦ rw (same, same) (omega arith, n)
  | inr other ↦ rw (other, other) (free, give_back-share id b queue n)
]

pub give_back-last :
    (id : ℕ) (b : BlockCache) (last : Cached) (queue : List Cached)
    → last.block.block_id ≡ id
    → last.users ≡ 1
    → find_cached id queue ≡ none
    → NoUsers queue
    → NoUsers (give_back id b (queue ++ last ∷ []))
unfolding give_back find_cached
give_back-last id b last [] e one absent n = rw (e, ==_refl id) (omega arith, tt)
give_back-last id b last (c ∷ queue) e one absent (free, n) =
    elim (Bool-cases (c.block.block_id == id)) [
      | inl same ↦ absurd (found same absent)
      | inr other ↦ rw other (free, give_back-last id b last queue e one (later other absent) n)
    ]
  where
    found : (c.block.block_id == id) ≡ true → find_cached id (c ∷ queue) ≢ none
    found same absent = ground arith

    later :
        (c.block.block_id == id) ≡ false
        → find_cached id (c ∷ queue) ≡ none
        → find_cached id queue ≡ none
    later other absent = ground arith

give_back-absent :
    (id other : ℕ) (b : BlockCache) (queue : List Cached)
    → b.block_id ≡ id
    → find_cached other queue ≡ none
    → find_cached other (give_back id b queue) ≡ none
unfolding give_back find_cached
give_back-absent id other b [] e absent = refl
give_back-absent id other b (c ∷ queue) e absent =
    let later = give_back-absent id other b queue e in ground arith

module _ (device : BlockDevice) (laws : BlockDeviceLaws device) where
  abbrev pub view : State device → ℕ → List ℕ
  view s = view_of device laws s.queue s.disk

  pub view-found :
      (id : ℕ) (c : Cached) (queue : List Cached) (disk : device.Disk)
      → find_cached id queue ≡ some c
      → (c.block.block_id ≡ id) × (view_of device laws queue disk id ≡ c.block.cache)
  unfolding view_of find_cached
  view-found id c [] disk e = cc e
  view-found id c (d ∷ queue) disk e = elim (Bool-cases (d.block.block_id == id)) [
    | inl same ↦
        let e' : d ≡ c = first same e in
        rw same
          (ap (λ x. x.block.block_id) (sym e') ∙ (==_iff _ _).0 same, ap (λ x. x.block.cache) e')
    | inr other ↦ rw other (view-found id c queue disk (later other e))
  ]
    where
      first : (d.block.block_id == id) ≡ true → find_cached id (d ∷ queue) ≡ some c → d ≡ c
      first same e = ground arith

      later :
          (d.block.block_id == id) ≡ false
          → find_cached id (d ∷ queue) ≡ some c
          → find_cached id queue ≡ some c
      later other e = ground arith

  -- What a call on a block leaves: the same block, marked as modified if it changed.
  pub record Keeps (b b' : BlockCache) : Type 0 where
    pub same_id : b'.block_id ≡ b.block_id
    pub full : length b'.cache ≡ block_size
    pub marked : (b'.modified ≡ true) ⊎ (b' ≡ b)

  pub give_back-view :
      (id other : ℕ) (b : BlockCache) (c : Cached) (queue : List Cached) (disk : device.Disk)
      → find_cached id queue ≡ some c
      → b.block_id ≡ id
      → view_of device laws (give_back id b queue) disk other
        ≡ (if id == other then b.cache else view_of device laws queue disk other)
  unfolding give_back view_of find_cached
  give_back-view id other b c [] disk found e = cc found
  give_back-view id other b c (d ∷ queue) disk found e =
      let later = give_back-view id other b c queue disk in ground arith

  pub give_back-IsValid :
      (id : ℕ) (b : BlockCache) (c : Cached) (queue : List Cached) (disk : device.Disk)
      → find_cached id queue ≡ some c
      → Keeps c.block b
      → c.block.block_id ≡ id
      → IsValid device laws queue disk
      → IsValid device laws (give_back id b queue) disk
  unfolding give_back find_cached
  give_back-IsValid id b c [] disk found k e v = tt
  give_back-IsValid id b c (d ∷ queue) disk found k e (once, clean, v) =
      elim (Bool-cases (d.block.block_id == id)) [
        | inl same ↦
            let e' : d ≡ c = first same found in
            rw same (
              ap (λ i. find_cached i queue) (k.same_id ∙ ap (λ x. x.block.block_id) (sym e'))
                  ∙ once,
              elim k.marked [
                | inl dirty ↦ inl dirty
                | inr unchanged ↦
                    subst (λ x. (x.modified ≡ true) ⊎ (device.read_block x.block_id disk ≡ x.cache))
                      (ap (λ x. x.block) e' ∙ sym unchanged) clean
              ],
              v,
            )
        | inr other ↦ rw other (
          give_back-absent id d.block.block_id b queue (k.same_id ∙ e) once,
          clean,
          give_back-IsValid id b c queue disk (later other found) k e v,
        )
      ]
    where
      first : (d.block.block_id == id) ≡ true → find_cached id (d ∷ queue) ≡ some c → d ≡ c
      first same found = ground arith

      later :
          (d.block.block_id == id) ≡ false
          → find_cached id (d ∷ queue) ≡ some c
          → find_cached id queue ≡ some c
      later other found = ground arith
