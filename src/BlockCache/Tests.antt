-- ===== src/BlockCache/Tests.antt =====
-- Runs of the cache over a disk that is a function from blocks to bytes.
use neuclear.Base.{
  ℕ, ◌≡◌, refl, ◌⊎◌, inl, true, [], ◌∷◌, none, ◌==◌, ==_refl, if◌then◌else◌, arith, List,
}
use neuclear.Base.Outcome.{ok, panic}
use neuclear.BlockCache.{BlockDevice, Cached, State, find_cached, get_block_cache, block_cache_size}
use neuclear.BlockCache.View.{BlockDeviceLaws, IsValid}
use neuclear.BlockCache.Get.{AllUsed, Got, get_block_cache-Got}

abbrev array : BlockDevice
array = record {
  Disk = ℕ → List ℕ;
  read_block = λ id disk. disk id;
  write_block = λ id bytes disk k. if k == id then bytes else disk k;
}

array_laws : BlockDeviceLaws array
array_laws = record {
  read-write_self = λ id bytes disk. rw (==_refl id) refl;
  read-write_ne = λ id other bytes disk ne. ground arith;
}

-- Block 7 was changed in the cache, and has no handle any more.
abbrev dirty : Cached
dirty = record { block = record { cache = 1 ∷ 2 ∷ []; block_id = 7; modified = true }; users = 0 }

abbrev start : State array
start = record { queue = dirty ∷ []; disk = λ id. 0 ∷ 0 ∷ [] }

start-IsValid : IsValid array array_laws start.queue start.disk
unfolding find_cached
start-IsValid = (refl, inl refl, tt)

get_block_cache-Got_example :
    ((get_block_cache array 3 start ≡ panic)
      × (1 ≡ block_cache_size)
      × AllUsed start.queue
      × (find_cached 3 start.queue ≡ none))
    ⊎ ((s' : State array) × (get_block_cache array 3 start ≡ ok s')
        × Got array array_laws 3 start s')
get_block_cache-Got_example =
    get_block_cache-Got array array_laws 3 start start-IsValid (omega arith)
