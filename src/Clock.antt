-- ===== src/Clock.antt =====
-- kernel/crates/utils/src/time.rs and the calls of kernel/crates/major/src/trap/syscall/process.rs that tell
-- the time. `ticks` is what the register `time` holds at the call. A call returns what it writes at
-- the user's pointer.
pub mod Range
mod Tests
use neuclear.Base.{ℕ, ◌+◌, ◌*◌, ◌/◌, ◌%◌, ◌==◌, word}
use neuclear.Base.Outcome.{Outcome, ok, ◌>>=◌, ◌>>◌, assert}
use neuclear.Config.{clock_freq}
use neuclear.Memory.Frames.{Memory}
use neuclear.Memory.PageTable.{PageTable}
use neuclear.Task.UserPtr.{check_ptr_mut}

abbrev pub milli_per_sec : ℕ
milli_per_sec = 1000

abbrev pub micro_per_sec : ℕ
micro_per_sec = 1000000

abbrev pub nano_per_sec : ℕ
nano_per_sec = 1000000000

abbrev pub clock_realtime : ℕ
clock_realtime = 0

pub record TimeSpec : Type 0 where
  pub sec : ℕ
  pub nsec : ℕ

pub record TimeVal : Type 0 where
  pub sec : ℕ
  pub usec : ℕ

pub record Tms : Type 0 where
  pub tms_utime : ℕ
  pub tms_stime : ℕ
  pub tms_cutime : ℕ
  pub tms_cstime : ℕ

pub get_time_us : ℕ → ℕ
get_time_us ticks = ticks * micro_per_sec % word / clock_freq

pub get_time_ms : ℕ → ℕ
get_time_ms ticks = ticks * milli_per_sec % word / clock_freq

pub get_time_ns : ℕ → ℕ
get_time_ns ticks = ticks * nano_per_sec % word / clock_freq

module _ (pt : PageTable) (memory : Memory) (ticks : ℕ) where
  pub sys_get_time_of_day : ℕ → ℕ → Outcome TimeVal
  unfolding get_time_us
  sys_get_time_of_day tv tz = do
    assert (tz == 0)
    ptr ← check_ptr_mut pt memory tv
    let us = get_time_us ticks
    ok (record { sec = us / micro_per_sec; usec = us % micro_per_sec })

  pub sys_clock_gettime : ℕ → ℕ → Outcome TimeSpec
  unfolding get_time_ns
  sys_clock_gettime clock_id ts = do
    assert (clock_id == clock_realtime)
    ptr ← check_ptr_mut pt memory ts
    let us = get_time_ns ticks
    ok (record { sec = us / nano_per_sec; nsec = us % nano_per_sec })

  pub sys_times : ℕ → Outcome Tms
  sys_times tms = do
    ptr ← check_ptr_mut pt memory tms
    let quarter = ticks / 4
    ok (record {
      tms_utime = quarter;
      tms_stime = quarter;
      tms_cutime = quarter;
      tms_cstime = quarter;
    })
