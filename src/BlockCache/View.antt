-- ===== src/BlockCache/View.antt =====
-- The blocks as a client sees them: what is cached stands before what is on the disk.
pub mod Synced
use neuclear.Base.{
  ℕ, suc, ◌≡◌, ◌≢◌, refl, sym, ◌∙◌, ap, ◌⊎◌, inl, inr, true, List, [], ◌∷◌, Option, none, some,
  Bool-cases, ◌==◌, ==_refl, ==_iff, if◌then◌else◌, arith, length,
}
use neuclear.BlockCache.{BlockDevice, BlockCache, Cached, find_cached, sync, substitute, sync_all}

-- What a device promises: a block reads back as it was written, and the others are as they were.
pub record BlockDeviceLaws (device : BlockDevice) : Type 0 where
  pub read-write_self :
      (id : ℕ) (bytes : List ℕ) (disk : device.Disk)
      → device.read_block id (device.write_block id bytes disk) ≡ bytes
  pub read-write_ne :
      (id other : ℕ) (bytes : List ℕ) (disk : device.Disk)
      → other ≢ id
      → device.read_block other (device.write_block id bytes disk) ≡ device.read_block other disk

module _ (device : BlockDevice) (laws : BlockDeviceLaws device) where
  -- The bytes of a block.
  unfoldable pub view_of : List Cached → device.Disk → ℕ → List ℕ
  view_of [] disk id = device.read_block id disk
  view_of (c ∷ queue) disk id =
      if c.block.block_id == id then c.block.cache else view_of queue disk id

  -- No block is cached twice, and one that was not modified is as on the disk.
  abbrev pub IsValid : List Cached → device.Disk → Type 0
  IsValid [] disk = Unit
  IsValid (c ∷ queue) disk =
      (find_cached c.block.block_id queue ≡ none)
      × ((c.block.modified ≡ true) ⊎ (device.read_block c.block.block_id disk ≡ c.block.cache))
      × IsValid queue disk

  view_absent :
      (queue : List Cached) (disk : device.Disk) (id : ℕ)
      → find_cached id queue ≡ none
      → view_of queue disk id ≡ device.read_block id disk
  unfolding view_of find_cached
  view_absent [] disk id e = refl
  view_absent (c ∷ queue) disk id e = let later = view_absent queue disk id in ground arith

  view_other :
      (queue : List Cached) (disk disk' : device.Disk) (id : ℕ)
      → device.read_block id disk' ≡ device.read_block id disk
      → view_of queue disk' id ≡ view_of queue disk id
  unfolding view_of
  view_other [] disk disk' id e = e
  view_other (c ∷ queue) disk disk' id e =
      let later = view_other queue disk disk' id e in ground arith

  sync-view :
      (b : BlockCache) (disk : device.Disk)
      → (b.modified ≡ true) ⊎ (device.read_block b.block_id disk ≡ b.cache)
      → device.read_block b.block_id (sync device b disk).1 ≡ b.cache
  unfolding sync
  sync-view b disk clean = elim (Bool-cases b.modified) [
    | inl dirty ↦ rw dirty (laws.read-write_self b.block_id b.cache disk)
    | inr unmodified ↦
        rw unmodified (elim clean [ inl dirty ↦ cc (unmodified, dirty) | inr same ↦ same ])
  ]

  sync-other :
      (b : BlockCache) (disk : device.Disk) (id : ℕ)
      → id ≢ b.block_id
      → device.read_block id (sync device b disk).1 ≡ device.read_block id disk
  unfolding sync
  sync-other b disk id ne = elim (Bool-cases b.modified) [
    | inl dirty ↦ rw dirty (laws.read-write_ne b.block_id id b.cache disk ne)
    | inr unmodified ↦ rw unmodified refl
  ]

  pub absent_ne :
      (c : Cached) (queue : List Cached) (id : ℕ)
      → find_cached id (c ∷ queue) ≡ none
      → (c.block.block_id ≢ id) × (find_cached id queue ≡ none)
  unfolding find_cached
  absent_ne c queue id e = ground (arith, ==_refl id)

  -- Writing a block that is not in the queue to the disk keeps the rest valid.
  IsValid-sync :
      (b : BlockCache) (queue : List Cached) (disk : device.Disk)
      → find_cached b.block_id queue ≡ none
      → IsValid queue disk
      → IsValid queue (sync device b disk).1
  IsValid-sync b [] disk absent v = tt
  IsValid-sync b (c ∷ queue) disk absent (once, clean, v) =
      let (ne, later) = absent_ne c queue b.block_id absent in
      (
        once,
        elim clean [
          | inl dirty ↦ inl dirty
          | inr same ↦ inr (sync-other b disk c.block.block_id ne ∙ same)
        ],
        IsValid-sync b queue disk later v,
      )

  -- A substitution keeps what every block shows, takes one block out and adds none.
  abbrev pub Substituted : List Cached → device.Disk → Option (List Cached × device.Disk) → Type 0
  Substituted queue disk none = Unit
  Substituted queue disk (some (queue', disk')) =
      ((id : ℕ) → view_of queue' disk' id ≡ view_of queue disk id)
      × IsValid queue' disk'
      × ((id : ℕ) → find_cached id queue ≡ none → find_cached id queue' ≡ none)
      × (suc (length queue') ≡ length queue)

  first-Substituted :
      (c : Cached) (queue : List Cached) (disk : device.Disk)
      → IsValid (c ∷ queue) disk
      → Substituted (c ∷ queue) disk (some (queue, (sync device c.block disk).1))
  unfolding view_of
  first-Substituted c queue disk (once, clean, v) = (
    same_view,
    IsValid-sync c.block queue disk once v,
    (λ id e. (absent_ne c queue id e).1),
    refl,
  )
    where
      same_view :
          (id : ℕ) → view_of queue (sync device c.block disk).1 id ≡ view_of (c ∷ queue) disk id
      same_view id = elim (Bool-cases (c.block.block_id == id)) [
        | inl same ↦ rw same (
            ap (view_of queue (sync device c.block disk).1)
              (sym ((==_iff c.block.block_id id).0 same))
            ∙ view_absent queue (sync device c.block disk).1 c.block.block_id once
            ∙ sync-view c.block disk clean)
        | inr other ↦ rw other (
            view_other queue disk (sync device c.block disk).1 id (
              sync-other c.block disk id (λ e. cc (other, (==_iff c.block.block_id id).1 (sym e)))))
      ]

  later-Substituted :
      (c : Cached) (queue : List Cached) (disk : device.Disk)
      (rest : Option (List Cached × device.Disk))
      → IsValid (c ∷ queue) disk
      → Substituted queue disk rest
      → Substituted (c ∷ queue) disk (elim rest [ none ↦ none | some (q, d) ↦ some (c ∷ q, d) ])
  unfolding view_of find_cached
  later-Substituted c queue disk none v r = tt
  later-Substituted c queue disk (some (queue', disk')) (once, clean, v)
        (views, valid, none_new, count) =
      (
        (λ id. ap (λ bytes. if c.block.block_id == id then c.block.cache else bytes) (views id)),
        (
          none_new c.block.block_id once,
          elim clean [
            | inl dirty ↦ inl dirty
            | inr same ↦ inr (
                sym (view_absent queue' disk' c.block.block_id (none_new c.block.block_id once))
                ∙ views c.block.block_id
                ∙ view_absent queue disk c.block.block_id once
                ∙ same)
          ],
          valid,
        ),
        (λ id e.
            let (ne, later) = absent_ne c queue id e in
            let still = none_new id later in ground arith),
        ap suc count,
      )

  pub substitute-Substituted :
      (queue : List Cached) (disk : device.Disk)
      → IsValid queue disk
      → Substituted queue disk (substitute device queue disk)
  unfolding substitute
  substitute-Substituted [] disk v = tt
  substitute-Substituted (c ∷ queue) disk v = elim (Bool-cases (c.users == 0)) [
    | inl free ↦ rw free (first-Substituted c queue disk v)
    | inr used ↦ rw used (
        later-Substituted c queue disk (substitute device queue disk) v
          (substitute-Substituted queue disk v.2))
  ]

  -- Writing all blocks of a valid cache back brings to the disk what every block shows.
  pub sync_all-flushes :
      (queue : List Cached) (disk : device.Disk) (id : ℕ)
      → IsValid queue disk
      → device.read_block id (sync_all device queue disk).1 ≡ view_of queue disk id
  unfolding sync_all view_of
  sync_all-flushes [] disk id v = refl
  sync_all-flushes (c ∷ queue) disk id v =
      sync_all-flushes queue (sync device c.block disk).1 id
        (IsValid-sync c.block queue disk v.0 v.2)
      ∙ (first-Substituted c queue disk v).0 id
