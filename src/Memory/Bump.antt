-- ===== src/Memory/Bump.antt =====
-- A small pool of frames for the tests, which hands out frames in order and takes none back, and a
-- machine with an empty page table.
use neuclear.Base.{
  ◌^◌, ◌⊎◌, inl, inr, refl, ◌∙◌, Bool-cases, ==_iff, [], ◌∷◌, ℕ, suc, ◌+◌, ◌-◌, ◌<◌, ◌≡◌, true,
  false, none, some, arith, leb, ltb, ◌==◌, if◌then◌else◌,
}
use neuclear.Memory.Frames.{Buddy}
use neuclear.Memory.PageTable.Pool.{BuddyLaws}
use neuclear.Memory.Address.{pa_ceil, kernel_va_to_pa}
use neuclear.Memory.Frames.{begin_frame}
use neuclear.Memory.PageTable.{State, is_valid}
use neuclear.Memory.PageTable.Pool.{held_frames}
use neuclear.Memory.PageTable.Descend.{IsTable}
use neuclear.Memory.PageTable.Map.{entry_of, entry_of-entry_at}
use neuclear.Memory.PageTable.Tree.{Place, top, elsewhere, child, bits_at_no_mid}

abbrev pub bump : Buddy
bump = record {
  Pool = ℕ;
  add_frame = λ start end pool. pool;
  alloc = λ num pool. if leb (pool + num) 100 then some (pool, pool + num) else none;
  dealloc = λ start end pool. pool;
}

-- The address behind a kernel image of two megabytes.
abbrev pub ekernel : ℕ
ekernel = 0xFFFFFFFF80400000

pub bump-alloc :
    (pool : ℕ)
    → 0 < 100 - pool
    → (first : ℕ) × (pool' : ℕ) × (bump.alloc 1 pool ≡ some (first, pool'))
      × (first < 100)
      × (ltb first pool ≡ false)
      × ((f : ℕ) → ltb f pool' ≡ (if f == first then true else ltb f pool))
      × (suc (100 - pool') ≡ 100 - pool)
bump-alloc pool h =
    (pool, pool + 1, ground arith, omega arith, ground arith, (λ f. ground arith), omega arith)

abbrev pub bump_laws : BuddyLaws bump
bump_laws = record {
  capacity = 100;
  held = λ pool f. ltb f pool;
  left = λ pool. 100 - pool;
  alloc_one = bump-alloc;
}

begin : begin_frame bump ekernel ≡ 0x80400
unfolding begin_frame pa_ceil kernel_va_to_pa
begin = refl

-- One frame is out: the root, all of whose entries are 0.
abbrev pub empty : State bump ekernel
empty = record {
  table = record { root_ppn = 0x80400; frames = record { ppn = 0x80400; num = 1 } ∷ [] };
  machine = record { pool = 1; memory = λ f i. 0 };
}

pub room : bump_laws.capacity + begin_frame bump ekernel < 2 ^ 44
room = omega (arith, begin)

abbrev pub root_only : ℕ → Place
root_only f = if f == 0x80400 then top else elsewhere

no_child : (f i : ℕ) → child empty.machine.memory f i ≡ none
unfolding child is_valid
no_child f i = refl

root_owned :
    (f : ℕ)
    → (root_only f ≡ elsewhere)
      ⊎ (held_frames bump bump_laws ekernel room empty.machine.pool f ≡ true)
root_owned f = elim (Bool-cases (f == 0x80400)) [
  | inl same ↦ inr (rw ((==_iff f 0x80400).0 same, begin) refl)
  | inr other ↦ inl (rw other refl)
]

pub empty-IsTable : IsTable bump bump_laws ekernel room empty root_only
empty-IsTable = record {
  tree = record {
    at_top = refl;
    mids = λ i f e. cc (e, no_child 0x80400 i);
    leaves = λ i f j g e. cc (e, no_child 0x80400 i);
    owned = root_owned;
  };
}

pub nothing_mapped : (v : ℕ) → entry_of bump bump_laws ekernel room empty v ≡ none
nothing_mapped v =
    entry_of-entry_at bump bump_laws ekernel room empty v
    ∙ bits_at_no_mid empty.machine.memory 0x80400 _ _ _ (no_child 0x80400 _)
