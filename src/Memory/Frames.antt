-- ===== src/Memory/Frames.antt =====
-- kernel/crates/memory/src/frame_allocator.rs over the buddy system allocator of deps, which is an
-- interface here, and the physical memory that the page tables read: 512 words to a frame.
pub mod Ranges
mod Tests
use neuclear.Base.{
  ℕ, ◌+◌, ◌-◌, ◌*◌, ◌/◌, ◌≤◌, ◌<◌, ◌≡◌, Bool, true, false, not, ◌||◌, ◌&&◌, Option, none, some,
  ◌==◌, leb, ltb, if◌then◌else◌, add64, sub64,
}
use neuclear.Base.Outcome.{Outcome, ok, panic, ◌>>=◌, ◌>>◌, assert, unwrap}
use neuclear.Memory.Address.{pa_ceil, pa_floor, kernel_va_to_pa}

-- What the kernel calls of `buddy_system_allocator::FrameAllocator`. Its frames are numbered from 0.
pub record Buddy : Type 1 where
  pub Pool : Type 0
  pub add_frame : ℕ → ℕ → Pool → Pool
  pub alloc : ℕ → Pool → Option (ℕ × Pool)
  pub dealloc : ℕ → ℕ → Pool → Pool

abbrev pub memory_end : ℕ
memory_end = 0x88000000

-- The words of the frames, by frame number and index.
abbrev pub Memory : Type 0
Memory = ℕ → ℕ → ℕ

pub record FrameTracker : Type 0 where
  pub ppn : ℕ
  pub num : ℕ

abbrev pub in_range : ℕ → ℕ → ℕ → Bool
in_range start num f = leb start f && ltb f (start + num)

-- `ekernel` is the address of the linker's symbol.
module _ (buddy : Buddy) (ekernel : ℕ) where
  pub record Machine : Type 0 where
    pub pool : buddy.Pool
    pub memory : Memory

  -- The first frame behind the kernel.
  unfoldable pub begin_frame : ℕ
  begin_frame = pa_ceil (kernel_va_to_pa ekernel)

  pub init_frame_allocator : Machine → Machine
  init_frame_allocator m = record m {
    pool = buddy.add_frame 0 (sub64 (pa_floor memory_end) begin_frame) m.pool;
  }

  -- `FrameTracker::new` fills the frames with zeros.
  unfoldable pub new_tracker : ℕ → ℕ → Memory → Outcome (FrameTracker × Memory)
  new_tracker ppn num memory = do
    assert (leb 1 num)
    ok (record { ppn = ppn; num = num }, λ f i. if in_range ppn num f then 0 else memory f i)

  -- `none` where the pool is empty.
  unfoldable pub frame_alloc : ℕ → Machine → Outcome (Option FrameTracker × Machine)
  unfolding new_tracker
  frame_alloc num m = elim (buddy.alloc num m.pool) [
    | none ↦ ok (none, m)
    | some (first, pool) ↦ do
      (frame, memory) ← new_tracker (add64 first begin_frame) num m.memory
      ok (some frame, record { pool = pool; memory = memory })
  ]

  -- `dealloc` hands the range's two ends to the pool.
  unfoldable pub frame_dealloc : ℕ → ℕ → Machine → Machine
  frame_dealloc start end m = record m { pool = buddy.dealloc start end m.pool }

  -- `Drop for FrameTracker`
  unfoldable pub drop_tracker : FrameTracker → Machine → Machine
  unfolding frame_dealloc
  drop_tracker frame m = frame_dealloc frame.ppn (add64 frame.ppn frame.num) m
