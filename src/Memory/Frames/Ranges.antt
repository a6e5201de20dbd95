-- ===== src/Memory/Frames/Ranges.antt =====
-- What comes out of the pool and what goes back into it.
use neuclear.Base.{
  ap, leb, ℕ, ◌+◌, ◌≤◌, ◌<◌, ◌≡◌, ◌≢◌, true, some, arith, word, if◌then◌else◌, add64,
}
use neuclear.Base.Outcome.{ok}
use neuclear.Memory.Frames.{
  Buddy, Memory, FrameTracker, Machine, in_range, begin_frame, frame_alloc, new_tracker,
  drop_tracker,
}

module _ (buddy : Buddy) (ekernel : ℕ) where
  abbrev frame_of : ℕ → ℕ → FrameTracker
  frame_of first num = record { ppn = first + begin_frame buddy ekernel; num = num }

  abbrev zeroed : FrameTracker → buddy.Pool → Memory → Machine buddy ekernel
  zeroed frame pool memory = record {
    pool = pool;
    memory = λ f i. if in_range frame.ppn frame.num f then 0 else memory f i;
  }

  frame_alloc_lem :
      (num first : ℕ) (m : Machine buddy ekernel) (pool : buddy.Pool)
      → 1 ≤ num
      → buddy.alloc num m.pool ≡ some (first, pool)
      → first + begin_frame buddy ekernel + num < word
      → frame_alloc buddy ekernel num m
        ≡ ok (some (frame_of first num), zeroed (frame_of first num) pool m.memory)
  unfolding frame_alloc
  frame_alloc_lem num first m pool one e small =
      let no_wrap : add64 first (begin_frame buddy ekernel) ≡ first + begin_frame buddy ekernel =
        omega arith in
      let positive : leb 1 num ≡ true = ground arith in
      rw (e, frame_alloc, no_wrap, new_tracker, positive)

  -- Dropping the tracker of `num` frames, which the pool numbers from `first`, does not give the pool
  -- that range back: it is handed the physical number of the first frame, which is another number than
  -- `first`, and where it takes a count the physical number of the end, which is not `num`.
  pub drop_tracker_range :
      (num first : ℕ) (m m' : Machine buddy ekernel) (pool : buddy.Pool) (frame : FrameTracker)
      → 1 ≤ num
      → buddy.alloc num m.pool ≡ some (first, pool)
      → first + begin_frame buddy ekernel + num < word
      → 0 < begin_frame buddy ekernel
      → frame_alloc buddy ekernel num m ≡ ok (some frame, m')
      → let start = first + begin_frame buddy ekernel in
        ((drop_tracker buddy ekernel frame m').pool ≡ buddy.dealloc start (start + num) pool)
        × (start ≢ first)
        × (start + num ≢ num)
  unfolding frame_alloc drop_tracker
  drop_tracker_range num first m m' pool frame one e small pos alloc =
      let known : frame_alloc buddy ekernel num m
          ≡ ok (some (frame_of first num), zeroed (frame_of first num) pool m.memory) =
        frame_alloc_lem num first m pool one e small in
      let same_frame : frame ≡ frame_of first num = cc (known, alloc) in
      let same_pool : m'.pool ≡ pool = cc (known, alloc) in
      let no_wrap : add64 (first + begin_frame buddy ekernel) num
          ≡ first + begin_frame buddy ekernel + num =
        omega arith in
      (
        rw (same_frame, same_pool)
            (ap (λ end. buddy.dealloc (first + begin_frame buddy ekernel) end pool) no_wrap),
        omega arith,
        omega arith,
      )
