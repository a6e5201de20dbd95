-- ===== src/Clock/Range.antt =====
-- How far the clock of nanoseconds goes.
use neuclear.Base.{
  ℕ, zero, suc, ◌+◌, ◌*◌, ◌/◌, ◌%◌, ◌≤◌, ◌<◌, ◌≡◌, ◌≢◌, ◌⊎◌, inl, inr, refl, arith, dec_lt, false,
  ◌==◌,
}
use neuclear.Base.Outcome.{ok, panic}
use neuclear.Memory.Frames.{Memory}
use neuclear.Memory.PageTable.{PageTable}
use neuclear.Task.UserPtr.{check_ptr_mut}
use neuclear.Clock.{TimeSpec, nano_per_sec, get_time_ns, sys_clock_gettime}

-- The first count of ticks whose nanoseconds do not fit.
abbrev pub wraps_at : ℕ
wraps_at = 18446744074

exact : (ticks : ℕ) → ticks < wraps_at → get_time_ns ticks ≡ 80 * ticks
unfolding get_time_ns
exact ticks h = omega arith

bounded : (ticks : ℕ) → get_time_ns ticks / nano_per_sec ≤ 1475
unfolding get_time_ns
bounded ticks = omega arith

-- `clock_gettime` at a pointer that may be written: nanoseconds below a second, and with the seconds
-- they are 80 for each tick, as long as the ticks are below 18446744074. From then on the
-- multiplication wraps: the clock never shows more than 1475 seconds. Any clock but the first is a
-- panic.
pub sys_clock_gettime_range :
    (pt : PageTable) (memory : Memory) (ticks clock_id ts : ℕ)
    → check_ptr_mut pt memory ts ≡ ok ts
    → ((clock_id ≢ 0) × (sys_clock_gettime pt memory ticks clock_id ts ≡ panic))
      ⊎ ((clock_id ≡ 0)
          × ((spec : TimeSpec) × (sys_clock_gettime pt memory ticks clock_id ts ≡ ok spec)
              × (spec.nsec < nano_per_sec)
              × (((ticks < wraps_at) × (spec.sec * nano_per_sec + spec.nsec ≡ 80 * ticks))
                  ⊎ ((wraps_at ≤ ticks) × (spec.sec ≤ 1475)))))
unfolding sys_clock_gettime
sys_clock_gettime_range pt memory ticks zero ts checked = inr (
  refl,
  (
    record { sec = get_time_ns ticks / nano_per_sec; nsec = get_time_ns ticks % nano_per_sec },
    rw (checked, sys_clock_gettime) refl,
    omega arith,
    elim (dec_lt ticks wraps_at) [
      | yes below ↦ inl (below, omega (arith, exact ticks below))
      | no beyond ↦ inr (omega arith, bounded ticks)
    ],
  ),
)
sys_clock_gettime_range pt memory ticks (suc clock_id) ts checked =
    inl ((λ e. omega arith), rw (other, sys_clock_gettime) refl)
  where
    other : (suc clock_id == 0) ≡ false
    other = ground arith
