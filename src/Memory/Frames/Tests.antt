-- ===== src/Memory/Frames/Tests.antt =====
-- Runs of the frame allocator.
use neuclear.Base.{ℕ, ◌+◌, ◌≡◌, ◌≢◌, refl, some, if◌then◌else◌, arith}
use neuclear.Base.Outcome.{ok}
use neuclear.Memory.Address.{pa_ceil, kernel_va_to_pa}
use neuclear.Memory.Bump.{ekernel}
use neuclear.Memory.Frames.{
  Buddy, FrameTracker, Machine, in_range, begin_frame, frame_alloc, drop_tracker,
}
use neuclear.Memory.Frames.Ranges.{drop_tracker_range}

-- A pool that keeps what was handed back to it last.
abbrev recording : Buddy
recording = record {
  Pool = ℕ × (ℕ × ℕ);
  add_frame = λ start end pool. pool;
  alloc = λ num pool. some (pool.0, (pool.0 + num, pool.1));
  dealloc = λ start end pool. (pool.0, (start, end));
}

abbrev machine : Machine recording ekernel
machine = record { pool = (3, (0, 0)); memory = λ f i. 7 }

begin : begin_frame recording ekernel ≡ 0x80400
unfolding begin_frame pa_ceil kernel_va_to_pa
begin = refl

abbrev allocated : FrameTracker
allocated = record { ppn = 0x80403; num = 2 }

abbrev after : Machine recording ekernel
after = record { pool = (5, (0, 0)); memory = λ f i. if in_range 0x80403 2 f then 0 else 7 }

alloc_two : frame_alloc recording ekernel 2 machine ≡ ok (some allocated, after)
unfolding frame_alloc begin_frame pa_ceil kernel_va_to_pa
alloc_two = refl

drop_tracker_range_example :
    let start = 3 + begin_frame recording ekernel in
    ((drop_tracker recording ekernel allocated after).pool ≡ (5, (start, start + 2)))
    × (start ≢ 3)
    × (start + 2 ≢ 2)
drop_tracker_range_example =
    drop_tracker_range recording ekernel 2 3 machine after (5, (0, 0)) allocated (omega arith) refl
      (omega (arith, begin)) (omega (arith, begin)) alloc_two
