-- ===== src/Task/UserPtr/Tests.antt =====
-- A pointer into an area of an address space.
use neuclear.Base.{ℕ, ◌≡◌, refl, [], none, arith}
use neuclear.Base.Outcome.{ok}
use neuclear.Memory.Address.{vpn_floor}
use neuclear.Memory.Bump.{
  bump, bump_laws, ekernel, empty, room, root_only, empty-IsTable, nothing_mapped,
}
use neuclear.Memory.Space.{MemorySet, perm_rwu, remove_area}
use neuclear.Memory.Space.Areas.{Filled}
use neuclear.Memory.Space.Insert.{insert_framed_area-Filled}
use neuclear.Memory.PageTable.{State}
use neuclear.Task.UserPtr.{check_ptr, check_ptr_mut, check_slice, check_slice_mut}
use neuclear.Task.UserPtr.Granted.{checks-Filled}

abbrev pub space : MemorySet bump ekernel
space = record { pages = empty; areas = [] }

pub free : (remove_area 0x100 space.areas).0 ≡ none
unfolding remove_area
free = refl

abbrev pub Inserted : Type 0
Inserted =
    (s' : State bump ekernel) × (frame : ℕ → ℕ) × Filled bump bump_laws ekernel room empty 0x100 2
      perm_rwu s' frame

abbrev pub inserted : Inserted
inserted =
    let (_, ms', _, frame, _, filled, _, _, _, _, _) =
      insert_framed_area-Filled bump bump_laws ekernel room space root_only 0x100 0x102 perm_rwu
        (omega arith) (omega arith) (omega arith) empty-IsTable (omega arith)
        (λ v low high. nothing_mapped v) free in
    (ms'.pages, frame, filled)

page : vpn_floor 0x101008 ≡ 0x101
unfolding vpn_floor
page = refl

checks-Filled_example :
    (check_ptr inserted.0.table inserted.0.machine.memory 0x101008 ≡ ok 0x101008)
    × (check_ptr_mut inserted.0.table inserted.0.machine.memory 0x101008 ≡ ok 0x101008)
    × (check_slice inserted.0.table inserted.0.machine.memory 0x101008 9000 ≡ ok (0x101008, 9000))
    × (check_slice_mut inserted.0.table inserted.0.machine.memory 0x101008 9000
        ≡ ok (0x101008, 9000))
checks-Filled_example =
    checks-Filled bump bump_laws ekernel room empty inserted.0 0x100 2 perm_rwu inserted.1 0x101008
      9000 inserted.2 (omega arith) (omega (arith, page)) (omega (arith, page))
