-- ===== src/MapCalls/Tests.antt =====
-- Runs of mmap and brk.
use neuclear.Base.{ℕ, ◌-◌, ◌≡◌, refl, [], ◌∷◌, some, arith}
use neuclear.Base.Int.{pos}
use neuclear.Base.Outcome.{ok}
use neuclear.Memory.Address.{vpn_ceil}
use neuclear.Memory.Bump.{
  bump, bump_laws, ekernel, empty, room, root_only, empty-IsTable, nothing_mapped,
}
use neuclear.Memory.PageTable.Descend.{IsTable}
use neuclear.Memory.PageTable.Tree.{Place}
use neuclear.Memory.Space.{Frames, MapArea, MemorySet, framed, remove_area, remove_frame, perm_rwu}
use neuclear.Memory.Space.Areas.{Filled}
use neuclear.Memory.Space.One.{NoneFrom}
use neuclear.Memory.Space.Gaps.{low_pages}
use neuclear.MapCalls.{Heap, sys_brk}
use neuclear.MapCalls.Brk.{EndsAt, heap, sys_brk-Filled}

abbrev stack : MapArea
stack = record { start = low_pages - 2; end = low_pages; map_type = framed []; map_perm = perm_rwu }

abbrev heap_frames : Frames
heap_frames = (0x100, record { ppn = 0x80401; num = 1 }) ∷ []

abbrev heap_area : MapArea
heap_area = record {
  start = 0x100;
  end = 0x101;
  map_type = framed heap_frames;
  map_perm = perm_rwu;
}

abbrev space : MemorySet bump ekernel
space = record { pages = empty; areas = heap_area ∷ stack ∷ [] }

abbrev process : Heap bump ekernel
process = record { memory_set = space; heap_start = 0x100; brk = 0x100800 }

found : (remove_area 0x100 space.areas).0 ≡ some heap_area
unfolding remove_area
found = refl

nothing_behind : NoneFrom 0x101 heap_frames
unfolding remove_frame
nothing_behind v l = ground arith

ends : EndsAt bump bump_laws ekernel room process 0x101 perm_rwu
ends = heap heap_area heap_frames found refl nothing_behind (omega arith) (omega arith)

rounded : vpn_ceil 0x102800 ≡ 0x103
unfolding vpn_ceil
rounded = refl

sys_brk-Filled_example :
    (h' : Heap bump ekernel) × (place' : ℕ → Place) × (frame : ℕ → ℕ) × (sys_brk bump ekernel
        0x102800 process
      ≡ ok (pos 0x102800, h'))
    × (h'.brk ≡ 0x102800)
    × Filled bump bump_laws ekernel room empty 0x101
        (vpn_ceil 0x102800 - 0x101)
        perm_rwu
        h'.memory_set.pages
        frame
    × IsTable bump bump_laws ekernel room h'.memory_set.pages place'
sys_brk-Filled_example =
    sys_brk-Filled bump bump_laws ekernel room process root_only 0x102800 0x101 perm_rwu ends
      (omega (arith, rounded)) (omega (arith, rounded)) empty-IsTable (omega (arith, rounded))
      (λ v low high. nothing_mapped v)
