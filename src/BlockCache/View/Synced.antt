-- ===== src/BlockCache/View/Synced.antt =====
-- The cache after all blocks were written back.
use neuclear.Base.{
  ℕ, ◌≡◌, refl, sym, ◌∙◌, inl, inr, List, [], ◌∷◌, none, Bool-cases, ◌==◌, ==_iff, arith, length,
}
use neuclear.BlockCache.{BlockDevice, BlockCache, Cached, find_cached, sync, sync_all}
use neuclear.BlockCache.View.{
  BlockDeviceLaws, view_of, IsValid, view_absent, view_other, sync-view, sync-other, IsValid-sync,
  sync_all-flushes,
}

module _ (device : BlockDevice) (laws : BlockDeviceLaws device) where
  sync-same :
      (b : BlockCache) (disk : device.Disk)
      → ((sync device b disk).0.block_id ≡ b.block_id) × ((sync device b disk).0.cache ≡ b.cache)
  unfolding sync
  sync-same b disk = elim (Bool-cases b.modified) [
    | inl dirty ↦ rw dirty (refl, refl)
    | inr clean ↦ rw clean (refl, refl)
  ]

  pub length-sync_all :
      (queue : List Cached) (disk : device.Disk)
      → length (sync_all device queue disk).0 ≡ length queue
  unfolding sync_all
  length-sync_all [] disk = refl
  length-sync_all (c ∷ queue) disk =
      let later = length-sync_all queue (sync device c.block disk).1 in omega arith

  sync_all-absent :
      (queue : List Cached) (disk : device.Disk) (id : ℕ)
      → find_cached id queue ≡ none
      → find_cached id (sync_all device queue disk).0 ≡ none
  unfolding sync_all find_cached
  sync_all-absent [] disk id e = refl
  sync_all-absent (c ∷ queue) disk id e =
      let (same_id, _) = sync-same c.block disk in
      let later = sync_all-absent queue (sync device c.block disk).1 id in rw same_id (ground arith)

  pub sync_all-IsValid :
      (queue : List Cached) (disk : device.Disk)
      → IsValid device laws queue disk
      → IsValid device laws (sync_all device queue disk).0 (sync_all device queue disk).1
  unfolding sync_all
  sync_all-IsValid [] disk v = tt
  sync_all-IsValid (c ∷ queue) disk (once, clean, v) =
      let (same_id, same_cache) = sync-same c.block disk in
      let disk' = (sync device c.block disk).1 in
      let v' = IsValid-sync device laws c.block queue disk once v in
      let on_disk : device.read_block c.block.block_id (sync_all device queue disk').1
          ≡ c.block.cache =
        sync_all-flushes device laws queue disk' c.block.block_id v'
        ∙ view_absent device laws queue disk' c.block.block_id once
        ∙ sync-view device laws c.block disk clean in
      (
        rw same_id (sync_all-absent queue disk' c.block.block_id once),
        inr (rw same_id on_disk ∙ sym same_cache),
        sync_all-IsValid queue disk' v',
      )

  pub sync_all-view :
      (queue : List Cached) (disk : device.Disk) (id : ℕ)
      → view_of device laws (sync_all device queue disk).0 (sync_all device queue disk).1 id
        ≡ view_of device laws queue disk id
  unfolding sync_all view_of
  sync_all-view [] disk id = refl
  sync_all-view (c ∷ queue) disk id =
      let (same_id, same_cache) = sync-same c.block disk in
      rw same_id (elim (Bool-cases (c.block.block_id == id)) [
        | inl here ↦ rw here same_cache
        | inr elsewhere ↦ rw elsewhere (
            sync_all-view queue (sync device c.block disk).1 id
            ∙ view_other device laws queue disk (sync device c.block disk).1 id (
                sync-other device laws c.block disk id
                  (λ e. cc (elsewhere, (==_iff c.block.block_id id).1 (sym e)))))
      ])
