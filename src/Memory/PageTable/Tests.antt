-- ===== src/Memory/PageTable/Tests.antt =====
-- Runs on a table in a small memory, with pages mapped and unmapped.
use neuclear.Base.{ℕ, ◌+◌, ◌^◌, ◌<◌, ◌≡◌, ◌≢◌, ◌≤◌, none, some, arith, true, set_bit}
use neuclear.Base.Outcome.{ok}
use neuclear.Memory.Bump.{
  bump, bump_laws, ekernel, empty, room, root_only, empty-IsTable, nothing_mapped,
}
use neuclear.Memory.PageTable.{State, map, unmap, translate, flag_r, flag_v, pte_new}
use neuclear.Memory.PageTable.Tree.{Place}
use neuclear.Memory.PageTable.Pool.{held_frames}
use neuclear.Memory.PageTable.Descend.{IsTable, Spared}
use neuclear.Memory.PageTable.Map.{entry_of, map-Maps, unmap-Unmaps}

abbrev Mapped : Type 0
Mapped =
    (s' : State bump ekernel) × (place' : ℕ → Place) × (map bump ekernel 0x10005 0x80450
        (2 ^ flag_r) empty
      ≡ ok s')
    × (entry_of bump bump_laws ekernel room s' 0x10005
        ≡ some (pte_new 0x80450 (set_bit (2 ^ flag_r) flag_v true)))
    × (translate s'.table s'.machine.memory 0x10005 ≡ some 0x80450)
    × ((other : ℕ)
        → other < 2 ^ 27
        → other ≢ 0x10005
        → entry_of bump bump_laws ekernel room s' other
          ≡ entry_of bump bump_laws ekernel room empty other)
    × IsTable bump bump_laws ekernel room s' place'
    × (bump_laws.left empty.machine.pool ≤ 2 + bump_laws.left s'.machine.pool)
    × ((f : ℕ)
        → held_frames bump bump_laws ekernel room empty.machine.pool f ≡ true
        → held_frames bump bump_laws ekernel room s'.machine.pool f ≡ true)
    × Spared bump bump_laws ekernel room empty root_only s' place'

map-Maps_example : Mapped
map-Maps_example =
    map-Maps bump bump_laws ekernel room empty root_only 0x10005 0x80450 (2 ^ flag_r) empty-IsTable
      (omega arith) (omega arith) (omega arith) (omega arith) (nothing_mapped 0x10005)

-- The state behind that mapping.
abbrev mapped : Mapped
mapped =
    map-Maps bump bump_laws ekernel room empty root_only 0x10005 0x80450 (2 ^ flag_r) empty-IsTable
      (omega arith) (omega arith) (omega arith) (omega arith) (nothing_mapped 0x10005)

unmap-Unmaps_example :
    (s' : State bump ekernel) × (place' : ℕ → Place) × (unmap bump ekernel 0x10005 mapped.0 ≡ ok s')
    × (entry_of bump bump_laws ekernel room s' 0x10005 ≡ none)
    × (translate s'.table s'.machine.memory 0x10005 ≡ none)
    × ((other : ℕ)
        → other < 2 ^ 27
        → other ≢ 0x10005
        → entry_of bump bump_laws ekernel room s' other
          ≡ entry_of bump bump_laws ekernel room mapped.0 other)
    × IsTable bump bump_laws ekernel room s' place'
unmap-Unmaps_example =
    unmap-Unmaps bump bump_laws ekernel room mapped.0 mapped.1 0x10005
      (pte_new 0x80450 (set_bit (2 ^ flag_r) flag_v true)) mapped.6 (omega (arith, mapped.7))
      (omega arith) mapped.3
