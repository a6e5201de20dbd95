-- ===== src/Memory/Fork.antt =====
-- Copying an address space: `from_existed_user` of kernel/crates/memory/src/memory_set.rs. The clone of
-- an area shares the handles of the old frames, and mapping replaces these page by page; a handle that
-- another space holds too frees nothing when it goes, so the clone begins with none.
pub mod Copying
pub mod Step
pub mod Areas
pub mod Kernel
pub mod Whole
mod Tests
use neuclear.Base.{ℕ, zero, suc, ◌-◌, ◌&&◌, List, [], ◌∷◌, ltb, ◌==◌, if◌then◌else◌}
use neuclear.Base.Outcome.{Outcome, ok, ◌>>=◌, unwrap}
use neuclear.Config.{pte_per_page}
use neuclear.Memory.Frames.{Buddy, Memory, Machine}
use neuclear.Memory.PageTable.{PageTable, State, translate}
use neuclear.Memory.Space.{
  MapType, linear, framed, MapArea, MemorySet, push, new_bare, map_kernel_areas,
}

pub cloned_type : MapType → MapType
cloned_type (linear offset) = linear offset
cloned_type (framed frames) = framed []

pub from_another : MapArea → MapArea
unfolding cloned_type
from_another another = record another { map_type = cloned_type another.map_type }

-- `copy_from_slice` of a page, word by word.
abbrev pub copy_page : ℕ → ℕ → Memory → Memory
copy_page src dst m f i = if f == dst && ltb i pte_per_page then m src i else m f i

module _ (buddy : Buddy) (ekernel : ℕ) where
  -- `for vpn in area.vpn_range`, by the number of pages.
  pub copy_range : ℕ → ℕ → PageTable → State buddy ekernel → Outcome (State buddy ekernel)
  copy_range zero vpn user s = ok s
  copy_range (suc count) vpn user s = do
    src_ppn ← unwrap (translate user s.machine.memory vpn)
    dst_ppn ← unwrap (translate s.table s.machine.memory vpn)
    copy_range count (suc vpn) user (record s {
      machine = record s.machine { memory = copy_page src_ppn dst_ppn s.machine.memory };
    })

  pub copy_areas :
      List MapArea → PageTable → MemorySet buddy ekernel → Outcome (MemorySet buddy ekernel)
  unfolding from_another copy_range
  copy_areas [] user ms = ok ms
  copy_areas (area ∷ areas) user ms = do
    ms' ← push buddy ekernel (from_another area) ms
    s ← copy_range (area.end - area.start) area.start user ms'.pages
    copy_areas areas user (record ms' { pages = s })

  -- The machine is that of the old space.
  pub from_existed_user :
      List MapArea → PageTable → Machine buddy ekernel → Outcome (MemorySet buddy ekernel)
  unfolding copy_areas
  from_existed_user areas user machine = do
    ms ← new_bare buddy ekernel machine
    ms' ← copy_areas areas user ms
    ok (map_kernel_areas buddy ekernel user ms')
