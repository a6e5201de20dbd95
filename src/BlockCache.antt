-- ===== src/BlockCache.antt =====
-- kernel/crates/drivers/src/block: the cache of blocks over a device. `Arc` handles on a cached block
-- are counted in `users`, without the queue's own; a handle is named by its block. The first half of a
-- pair of the queue is the id that its block cache has too.
pub mod View
pub mod Get
pub mod Bytes
mod Tests
use neuclear.Base.{
  ℕ, ◌+◌, ◌-◌, ◌%◌, ◌^◌, Bool, true, false, not, ◌||◌, List, [], ◌∷◌, ◌++◌, Option, none, some,
  ◌==◌, ltb, if◌then◌else◌, length, take, drop, min,
}
use neuclear.Base.Outcome.{Outcome, ok, panic, ◌>>=◌, ◌>>◌, assert}

abbrev pub block_size : ℕ
block_size = 512

abbrev pub block_cache_size : ℕ
block_cache_size = 16

-- The trait `BlockDevice`, with the device's state.
pub record BlockDevice : Type 1 where
  pub Disk : Type 0
  pub read_block : ℕ → Disk → List ℕ
  pub write_block : ℕ → List ℕ → Disk → Disk

pub record BlockCache : Type 0 where
  pub cache : List ℕ
  pub block_id : ℕ
  pub modified : Bool

pub record Cached : Type 0 where
  pub block : BlockCache
  pub users : ℕ

-- `BlockCache::read`: the number of bytes, and the bytes.
unfoldable pub read_cached : ℕ → ℕ → BlockCache → Outcome (ℕ × List ℕ)
read_cached offset len b = do
  assert (ltb offset block_size)
  let nread = min (block_size - offset) (len % 2 ^ 32)
  ok (nread, take nread (drop offset b.cache))

-- The bytes from `offset` on are replaced.
abbrev pub splice : ℕ → List ℕ → List ℕ → List ℕ
splice offset buf bytes = take offset bytes ++ (buf ++ drop (offset + length buf) bytes)

-- `BlockCache::write`
unfoldable pub write_cached : ℕ → List ℕ → BlockCache → Outcome (ℕ × BlockCache)
write_cached offset buf b = do
  assert (ltb offset block_size)
  let nwrite = min (block_size - offset) (length buf % 2 ^ 32)
  ok (
    nwrite,
    record b {
      modified = b.modified || not (length buf == 0);
      cache = splice offset (take nwrite buf) b.cache;
    },
  )

unfoldable pub find_cached : ℕ → List Cached → Option Cached
find_cached id [] = none
find_cached id (c ∷ queue) = if c.block.block_id == id then some c else find_cached id queue

-- One more handle on the block.
unfoldable pub share : ℕ → List Cached → List Cached
share id [] = []
share id (c ∷ queue) =
    if c.block.block_id == id then record c { users = c.users + 1 } ∷ queue else c ∷ share id queue

module _ (device : BlockDevice) where
  pub record State : Type 0 where
    pub queue : List Cached
    pub disk : device.Disk

  -- `BlockCache::new`
  unfoldable pub load_block : ℕ → device.Disk → BlockCache
  load_block id disk = record { cache = device.read_block id disk; block_id = id; modified = false }

  -- `BlockCache::sync`, which dropping a block cache calls as well.
  unfoldable pub sync : BlockCache → device.Disk → BlockCache × device.Disk
  sync b disk =
      if b.modified
      then (record b { modified = false }, device.write_block b.block_id b.cache disk)
      else (b, disk)

  -- The first block that only the queue holds is removed.
  unfoldable pub substitute : List Cached → device.Disk → Option (List Cached × device.Disk)
  unfolding sync
  substitute [] disk = none
  substitute (c ∷ queue) disk =
      let rest = substitute queue disk in
      if c.users == 0
      then some (queue, (sync c.block disk).1)
      else elim rest [ none ↦ none | some (queue', disk') ↦ some (c ∷ queue', disk') ]

  -- The new block goes to the end, with one handle.
  unfoldable pub push_back : ℕ → List Cached → device.Disk → State
  unfolding load_block
  push_back id queue disk = record {
    queue = queue ++ record { block = load_block id disk; users = 1 } ∷ [];
    disk = disk;
  }

  unfoldable pub get_block_cache : ℕ → State → Outcome State
  unfolding find_cached share substitute push_back
  get_block_cache id s = elim (find_cached id s.queue) [
    | some c ↦ ok (record s { queue = share id s.queue })
    | none ↦
        if length s.queue == block_cache_size
        then elim (substitute s.queue s.disk) [
          | none ↦ panic
          | some (queue, disk) ↦ ok (push_back id queue disk)
        ]
        else ok (push_back id s.queue s.disk)
  ]

  unfoldable pub sync_all : List Cached → device.Disk → List Cached × device.Disk
  unfolding sync
  sync_all [] disk = ([], disk)
  sync_all (c ∷ queue) disk =
      let (b, disk') = sync c.block disk in
      let (queue', disk'') = sync_all queue disk' in (record c { block = b } ∷ queue', disk'')
