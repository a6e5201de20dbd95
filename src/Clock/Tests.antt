-- ===== src/Clock/Tests.antt =====
-- The clock a second after the start.
use neuclear.Base.{ℕ, ◌+◌, ◌*◌, ◌≤◌, ◌<◌, ◌≡◌, ◌≢◌, ◌⊎◌, refl, arith}
use neuclear.Base.Outcome.{ok, panic}
use neuclear.Memory.Address.{vpn_floor}
use neuclear.Memory.Bump.{bump, bump_laws, ekernel, empty, room}
use neuclear.Memory.Frames.{Memory}
use neuclear.Memory.PageTable.{PageTable}
use neuclear.Memory.Space.{perm_rwu}
use neuclear.Task.UserPtr.{check_ptr_mut}
use neuclear.Task.UserPtr.Granted.{checks-Filled}
use neuclear.Task.UserPtr.Tests.{inserted}
use neuclear.Clock.{TimeSpec, clock_realtime, nano_per_sec, sys_clock_gettime}
use neuclear.Clock.Range.{wraps_at, sys_clock_gettime_range}

abbrev pt : PageTable
pt = inserted.0.table

abbrev memory : Memory
memory = inserted.0.machine.memory

-- And 240 nanoseconds.
abbrev one_second : ℕ
one_second = 12500003

page : vpn_floor 0x101008 ≡ 0x101
unfolding vpn_floor
page = refl

writable : check_ptr_mut pt memory 0x101008 ≡ ok 0x101008
writable =
    (checks-Filled bump bump_laws ekernel room empty inserted.0 0x100 2 perm_rwu inserted.1 0x101008
      16 inserted.2 (omega arith) (omega (arith, page)) (omega (arith, page))).1

sys_clock_gettime_range_example :
    ((clock_realtime ≢ 0)
      × (sys_clock_gettime pt memory one_second clock_realtime 0x101008 ≡ panic))
    ⊎ ((clock_realtime ≡ 0)
        × ((spec : TimeSpec) × (sys_clock_gettime pt memory one_second clock_realtime 0x101008
              ≡ ok spec)
            × (spec.nsec < nano_per_sec)
            × (((one_second < wraps_at) × (spec.sec * nano_per_sec + spec.nsec ≡ 80 * one_second))
                ⊎ ((wraps_at ≤ one_second) × (spec.sec ≤ 1475)))))
sys_clock_gettime_range_example =
    sys_clock_gettime_range pt memory one_second clock_realtime 0x101008 writable
