-- ===== src/Memory/Fork/Tests.antt =====
-- A copy of a space with two pages of heap.
use neuclear.Base.{ℕ, ◌≡◌, refl, ◌∙◌, ap, inl, inr, List, [], ◌∷◌, some, none, arith, set_bit, true}
use neuclear.Base.Outcome.{ok}
use neuclear.Memory.Bump.{
  bump, bump_laws, ekernel, empty, room, root_only, empty-IsTable, nothing_mapped,
}
use neuclear.Memory.Fork.{from_existed_user}
use neuclear.Memory.Fork.Areas.{Ordered}
use neuclear.Memory.Fork.Whole.{Mapped, Forked, from_existed_user-Forked}
use neuclear.Memory.PageTable.{State, pte_new, flag_v}
use neuclear.Memory.PageTable.Descend.{IsTable}
use neuclear.Memory.PageTable.Entry.{pte_new-fields, set_valid}
use neuclear.Memory.PageTable.Map.{translate-entry_of}
use neuclear.Memory.PageTable.Tree.{Place}
use neuclear.Memory.Space.{MapArea, MemorySet, framed, perm_rwu, remove_area}
use neuclear.Memory.Space.Areas.{Filled}
use neuclear.Memory.Space.Insert.{insert_framed_area-Filled}

abbrev space : MemorySet bump ekernel
space = record { pages = empty; areas = [] }

free : (remove_area 0x100 space.areas).0 ≡ none
unfolding remove_area
free = refl

abbrev Parent : Type 0
Parent =
    (s : State bump ekernel) × (place : ℕ → Place) × (frame : ℕ → ℕ) × Filled bump bump_laws ekernel
      room empty 0x100 2 perm_rwu s frame
    × IsTable bump bump_laws ekernel room s place

abbrev parent : Parent
parent =
    let (_, ms', place', frame, _, filled, t, _, _, _, _) =
      insert_framed_area-Filled bump bump_laws ekernel room space root_only 0x100 0x102 perm_rwu
        (omega arith) (omega arith) (omega arith) empty-IsTable (omega arith)
        (λ v low high. nothing_mapped v) free in
    (ms'.pages, place', frame, filled, t)

abbrev heap : List MapArea
heap = record { start = 0x100; end = 0x102; map_type = framed []; map_perm = perm_rwu } ∷ []

ordered : Ordered 0 heap
ordered = (([], refl), omega arith, omega arith, omega arith, omega arith, tt)

heap_mapped : Mapped bump bump_laws ekernel room parent.0 heap parent.2
heap_mapped v (inr e) = absurd e
heap_mapped v (inl (low, high)) =
    let filled = parent.3 in
    let (_, byte) = set_valid perm_rwu (omega arith) in
    (
      translate-entry_of bump bump_laws ekernel room parent.0 v
            (pte_new (parent.2 v) (set_bit perm_rwu flag_v true)) (filled.pages v low high)
          ∙ ap some
              (pte_new-fields (parent.2 v) (set_bit perm_rwu flag_v true) (filled.small v low high)
                byte).0,
      filled.now v low high,
    )

from_existed_user-Forked_example :
    (ms : MemorySet bump ekernel) × (frame : ℕ → ℕ) × (from_existed_user bump ekernel heap
        parent.0.table parent.0.machine
      ≡ ok ms)
    × Forked bump bump_laws ekernel room parent.0 heap parent.2 ms frame
from_existed_user-Forked_example =
    from_existed_user-Forked bump bump_laws ekernel room parent.0 parent.1 heap parent.2 parent.4
      ordered (omega (arith, parent.3.left)) heap_mapped
