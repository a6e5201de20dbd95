-- ===== src/Memory/Space/Tests.antt =====
-- Runs on an address space with a user stack at the top.
use neuclear.Base.{ℕ, ◌+◌, ◌-◌, ◌≤◌, ◌≡◌, refl, inl, inr, List, [], ◌∷◌, some, none, arith, false}
use neuclear.Base.Outcome.{ok, panic}
use neuclear.Memory.Address.{page_start}
use neuclear.Memory.Bump.{
  bump, bump_laws, ekernel, empty, room, root_only, empty-IsTable, nothing_mapped,
}
use neuclear.Memory.PageTable.Descend.{IsTable}
use neuclear.Memory.PageTable.Tree.{Place}
use neuclear.Memory.Space.{
  MapArea, MemorySet, framed, remove_area, insert_area, insert_framed_area, try_map, find_gap,
  perm_rwu,
}
use neuclear.Memory.Space.Areas.{Filled, Beside}
use neuclear.Memory.Space.Insert.{insert_framed_area-Filled}
use neuclear.Memory.Space.Gaps.{AllApart, Spread, NotAt, low_pages, find_gap-Apart}
use neuclear.Memory.Space.Again.{first_page, try_map-again}

abbrev stack : MapArea
stack = record { start = low_pages - 2; end = low_pages; map_type = framed []; map_perm = perm_rwu }

abbrev heap : MapArea
heap = record { start = 0x100; end = 0x104; map_type = framed []; map_perm = perm_rwu }

abbrev areas : List MapArea
areas = heap ∷ stack ∷ []

abbrev space : MemorySet bump ekernel
space = record { pages = empty; areas = areas }

spread : Spread 0 areas
spread = (omega arith, omega arith, omega arith, (omega arith, omega arith, omega arith, tt))

not_first : NotAt first_page areas
not_first = (inl (omega arith, omega arith), (inr (omega arith), tt))

gap : find_gap 3 first_page areas ≡ some first_page
unfolding find_gap
gap = refl

free : (remove_area first_page areas).0 ≡ none
unfolding remove_area
free = refl

find_gap-Apart_example :
    AllApart first_page 3 areas × (first_page ≤ first_page) × (first_page + 3 ≤ low_pages)
find_gap-Apart_example =
    find_gap-Apart 3 first_page first_page areas 0 (omega arith) (omega arith) spread not_first gap

insert_framed_area-Filled_example :
    (area : MapArea) × (ms' : MemorySet bump ekernel) × (place' : ℕ → Place) × (frame : ℕ → ℕ)
    × (insert_framed_area bump ekernel first_page (first_page + 3) perm_rwu space ≡ ok ms')
    × Filled bump bump_laws ekernel room empty first_page 3 perm_rwu ms'.pages frame
    × IsTable bump bump_laws ekernel room ms'.pages place'
    × (ms'.areas ≡ (insert_area area areas).1)
    × (area.start ≡ first_page)
    × (area.end ≡ first_page + 3)
    × Beside bump bump_laws ekernel room empty root_only first_page 3 ms'.pages place' frame
insert_framed_area-Filled_example =
    insert_framed_area-Filled bump bump_laws ekernel room space root_only first_page
      (first_page + 3) perm_rwu (omega arith) (omega arith) (omega arith) empty-IsTable
      (omega arith) (λ v low high. nothing_mapped v) free

try_map-again_example :
    (ms' : MemorySet bump ekernel) × (try_map bump ekernel 0 3 perm_rwu false space
      ≡ ok (page_start first_page, ms'))
    × (try_map bump ekernel 0 1 perm_rwu false ms' ≡ panic)
try_map-again_example =
    try_map-again bump bump_laws ekernel room space root_only 3 1 perm_rwu (omega arith)
      (omega arith) (omega arith) (omega arith) empty-IsTable (omega arith)
      (λ v low high. nothing_mapped v) free spread not_first gap
