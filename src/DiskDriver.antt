-- ===== src/DiskDriver.antt =====
-- The disk of the FAT library: `DiskDriver` of kernel/crates/fat32/src/lib.rs, a cursor over the cache of
-- blocks. The lock and the handle of a block live for one statement, so they are not in the state
-- between the statements. An Err(()) is `none`.
pub mod Blocks
pub mod Flat
pub mod Ready
pub mod Chunks
pub mod Loops
pub mod ByteDisk
pub mod Runs
mod Tests
use neuclear.Base.{
  ℕ, zero, suc, ◌+◌, ◌-◌, ◌*◌, ◌/◌, ◌%◌, ◌^◌, true, false, List, [], ◌∷◌, ◌++◌, Option, none, some,
  ◌==◌, ltb, leb, if◌then◌else◌, length, drop, add64, mul64, word,
}
use neuclear.Base.Int.{ℤ, pos, negsuc}
use neuclear.Base.Outcome.{Outcome, ok, panic, ◌>>=◌, unwrap}
use neuclear.BlockCache.{
  BlockDevice, BlockCache, Cached, State, find_cached, get_block_cache, read_cached, write_cached,
  sync_all, block_size,
}

pub record DiskDriver : Type 0 where
  pub block_id : ℕ
  pub block_offset : ℕ

pub data SeekFrom : Type 0 where
  start : ℕ → SeekFrom
  end current : ℤ → SeekFrom

-- The statement's end: the block is as the call left it, and its handle is dropped.
pub give_back : ℕ → BlockCache → List Cached → List Cached
give_back id b [] = []
give_back id b (c ∷ queue) =
    if c.block.block_id == id
    then record c { block = b; users = c.users - 1 } ∷ queue
    else c ∷ give_back id b queue

-- `self.block_offset += n`, and the step to the next block.
unfoldable pub advance : ℕ → DiskDriver → DiskDriver
advance n d =
    let offset = (d.block_offset + n) % 2 ^ 32 in
    if leb block_size offset
    then record { block_id = add64 d.block_id 1; block_offset = offset - block_size }
    else record d { block_offset = offset }

unfoldable pub position : DiskDriver → ℕ
position d = add64 (mul64 d.block_id block_size) d.block_offset

unfoldable pub checked_add_signed : ℕ → ℤ → Option ℕ
checked_add_signed p (pos n) = if ltb (p + n) word then some (p + n) else none
checked_add_signed p (negsuc n) = if ltb n p then some (p - suc n) else none

unfoldable pub at_offset : ℕ → DiskDriver
at_offset offset = record {
  block_id = offset / block_size;
  block_offset = offset % block_size % 2 ^ 32;
}

unfoldable pub seek_to : Option ℕ → DiskDriver → Option ℕ × DiskDriver
unfolding at_offset
seek_to none d = (none, d)
seek_to (some offset) d = (some offset, at_offset offset)

-- From the end is a `todo!`.
unfoldable pub seek : SeekFrom → DiskDriver → Outcome (Option ℕ × DiskDriver)
unfolding position checked_add_signed seek_to
seek (start offset) d = ok (seek_to (some offset) d)
seek (end k) d = panic
seek (current k) d = ok (seek_to (checked_add_signed (position d) k) d)

module _ (device : BlockDevice) where
  -- `get_block_cache(id).lock()`, with one call on the block.
  pub with_block :
      {A : Type 0}
      → ℕ
      → (BlockCache → Outcome (A × BlockCache))
      → State device
      → Outcome (A × State device)
  unfolding give_back
  with_block id f s = do
    s' ← get_block_cache device id s
    c ← unwrap (find_cached id s'.queue)
    (a, b) ← f c.block
    ok (a, record s' { queue = give_back id b s'.queue })

  abbrev pub read_here : ℕ → ℕ → BlockCache → Outcome ((ℕ × List ℕ) × BlockCache)
  read_here offset len b = do r ← read_cached offset len b; ok (r, b)

  -- The loop, with the length of the buffer that is left. It panics out of fuel.
  pub read_loop : ℕ → ℕ → DiskDriver → State device → Outcome (List ℕ × DiskDriver × State device)
  unfolding with_block advance
  read_loop zero left d s = if left == 0 then ok ([], d, s) else panic
  read_loop (suc fuel) left d s = elim (left == 0) [
    | true ↦ ok ([], d, s)
    | false ↦ do
      ((nread, bytes), s') ← with_block d.block_id (read_here d.block_offset left) s
      (more, d', s'') ← read_loop fuel (left - nread) (advance nread d) s'
      ok (bytes ++ more, d', s'')
  ]

  -- What is read, which is as long as the buffer.
  pub driver_read : ℕ → DiskDriver → State device → Outcome (List ℕ × DiskDriver × State device)
  driver_read len = read_loop len len

  pub write_loop : ℕ → List ℕ → DiskDriver → State device → Outcome (DiskDriver × State device)
  unfolding with_block advance
  write_loop zero buf d s = if length buf == 0 then ok (d, s) else panic
  write_loop (suc fuel) buf d s = elim (length buf == 0) [
    | true ↦ ok (d, s)
    | false ↦ do
      (nwrite, s') ← with_block d.block_id (write_cached d.block_offset buf) s
      write_loop fuel (drop nwrite buf) (advance nwrite d) s'
  ]

  pub driver_write : List ℕ → DiskDriver → State device → Outcome (ℕ × DiskDriver × State device)
  driver_write buf d s = do (d', s') ← write_loop (length buf) buf d s; ok (length buf, d', s')

  -- `block_cache_sync_all`
  pub flush : State device → State device
  flush s =
      let (queue, disk) = sync_all device s.queue s.disk in record { queue = queue; disk = disk }
