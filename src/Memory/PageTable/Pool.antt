-- ===== src/Memory/PageTable/Pool.antt =====
-- What the page tables rely on of the frame pool, and `add_table` in those terms.
use neuclear.Base.{
  ℕ, suc, ◌+◌, ◌-◌, ◌^◌, ◌<◌, ◌≡◌, refl, sym, ◌∙◌, ap, fun_ext, inl, inr, Bool, true, false, ◌&&◌,
  some, arith, ◌==◌, leb, if◌then◌else◌, add64, ◌∷◌, [], ◌++◌,
}
use neuclear.Base.Outcome.{ok}
use neuclear.Memory.Frames.{
  Buddy, Memory, FrameTracker, in_range, begin_frame, frame_alloc, new_tracker,
}
use neuclear.Memory.PageTable.{State, Slot, add_table, write_entry, pte_new, flag_v}
use neuclear.Memory.PageTable.Grow.{grown, also}
use neuclear.Memory.PageTable.Tree.{Place, IsTree}

-- A pool of single frames: the frames that are out, and the count of those that are left. While one is
-- left, asking for one frame gives a frame that was not out.
pub record BuddyLaws (buddy : Buddy) : Type 0 where
  pub capacity : ℕ
  pub held : buddy.Pool → ℕ → Bool
  pub left : buddy.Pool → ℕ
  pub alloc_one :
      (pool : buddy.Pool)
      → 0 < left pool
      → (first : ℕ) × (pool' : buddy.Pool) × (buddy.alloc 1 pool ≡ some (first, pool'))
        × (first < capacity)
        × (held pool first ≡ false)
        × ((f : ℕ) → held pool' f ≡ (if f == first then true else held pool f))
        × (suc (left pool') ≡ left pool)

pub held-IsTree :
    {m : Memory} {root : ℕ} {held held' : ℕ → Bool} {place : ℕ → Place}
    → ((f : ℕ) → held f ≡ held' f)
    → IsTree m root held place
    → IsTree m root held' place
held-IsTree same t = record {
  at_top = t.at_top;
  mids = t.mids;
  leaves = t.leaves;
  owned = λ f. elim (t.owned f) [ inl e ↦ inl e | inr h ↦ inr (sym (same f) ∙ h) ];
}

module _ (buddy : Buddy) (laws : BuddyLaws buddy) (ekernel : ℕ)
    (room : laws.capacity + begin_frame buddy ekernel < 2 ^ 44) where
  -- The frames that are out, by their physical numbers.
  abbrev pub held_frames : buddy.Pool → ℕ → Bool
  held_frames pool n =
      leb (begin_frame buddy ekernel) n && laws.held pool (n - begin_frame buddy ekernel)

  -- What `add_table` did: frame `n`, which was not out, is hung into the slot.
  pub record Added (s : State buddy ekernel) (slot : Slot) (n : ℕ) (s' : State buddy ekernel)
      : Type 0 where
    pub result : add_table buddy ekernel slot s ≡ ok (n, s')
    pub memory : s'.machine.memory ≡ grown s.machine.memory slot.0 slot.1 n
    pub root : s'.table.root_ppn ≡ s.table.root_ppn
    pub small : n < 2 ^ 44
    pub fresh : held_frames s.machine.pool n ≡ false
    pub holds : (f : ℕ) → also n (held_frames s.machine.pool) f ≡ held_frames s'.machine.pool f
    pub left : suc (laws.left s'.machine.pool) ≡ laws.left s.machine.pool

  pub in_range_one : (n f : ℕ) → in_range n 1 f ≡ (f == n)
  in_range_one n f = ground arith

  abbrev table_tracker : ℕ → FrameTracker
  table_tracker n = record { ppn = n; num = 1 }

  abbrev zeroed_frame : Memory → ℕ → Memory
  zeroed_frame m n f i = if in_range n 1 f then 0 else m f i

  abbrev added : State buddy ekernel → Slot → ℕ → buddy.Pool → State buddy ekernel
  added s slot n pool = record {
    table = record s.table { frames = s.table.frames ++ table_tracker n ∷ [] };
    machine = record {
      pool = pool;
      memory = write_entry (zeroed_frame s.machine.memory n) slot (pte_new n (2 ^ flag_v));
    };
  }

  add_table_result :
      (s : State buddy ekernel) (slot : Slot) (first : ℕ) (pool : buddy.Pool)
      → buddy.alloc 1 s.machine.pool ≡ some (first, pool)
      → first < laws.capacity
      → add_table buddy ekernel slot s
        ≡ ok (
          first + begin_frame buddy ekernel,
          added s slot (first + begin_frame buddy ekernel) pool,
        )
  unfolding add_table frame_alloc new_tracker
  add_table_result s slot first pool e small =
      let no_wrap : add64 first (begin_frame buddy ekernel) ≡ first + begin_frame buddy ekernel =
        omega (arith, room) in
      rw (add_table, frame_alloc, e, no_wrap, new_tracker) refl

  zeroed-grown :
      (m : Memory) (p i n : ℕ)
      → write_entry (zeroed_frame m n) (p, i) (pte_new n (2 ^ flag_v)) ≡ grown m p i n
  zeroed-grown m p i n =
      ap (λ (z : Memory). write_entry z (p, i) (pte_new n (2 ^ flag_v)))
        (fun_ext λ f. fun_ext λ k. ap (λ b. if b then 0 else m f k) (in_range_one n f))

  pub holds_shifted :
      (pool pool' : buddy.Pool) (first f : ℕ)
      → ((f : ℕ) → laws.held pool' f ≡ (if f == first then true else laws.held pool f))
      → also (first + begin_frame buddy ekernel) (held_frames pool) f ≡ held_frames pool' f
  holds_shifted pool pool' first f h = ground (arith, h (f - begin_frame buddy ekernel))

  pub add_table-Added :
      (s : State buddy ekernel) (slot : Slot)
      → 0 < laws.left s.machine.pool
      → (n : ℕ) × (s' : State buddy ekernel) × Added s slot n s'
  add_table-Added s slot h =
      let (first, pool, e, small, fresh, holds, left) = laws.alloc_one s.machine.pool h in
      (
        first + begin_frame buddy ekernel,
        added s slot (first + begin_frame buddy ekernel) pool,
        record {
          result = add_table_result s slot first pool e small;
          memory = zeroed-grown s.machine.memory slot.0 slot.1 (first + begin_frame buddy ekernel);
          root = refl;
          small = omega (arith, room, small);
          fresh = ground (arith, fresh);
          holds = λ f. holds_shifted s.machine.pool pool first f holds;
          left = left;
        },
      )
