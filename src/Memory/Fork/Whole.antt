-- ===== src/Memory/Fork/Whole.antt =====
-- The whole copy: from a new table to the kernel's half.
use neuclear.Base.{
  ℕ, ◌*◌, ◌+◌, ◌^◌, ◌<◌, ◌≡◌, ◌≢◌, refl, sym, ◌∙◌, ap, ◌⊎◌, inl, inr, Bool, true, false, List, [],
  ◌∷◌, none, some, arith, ◌==◌, ==_iff, ==_refl, Bool-cases, if◌then◌else◌,
}
use neuclear.Base.Outcome.{ok}
use neuclear.Config.{pte_per_page}
use neuclear.Memory.Fork.{from_existed_user}
use neuclear.Memory.Fork.Areas.{InAreas, Ordered, page_count, InAreas-low, copy_areas-Copies}
use neuclear.Memory.Fork.Copying.{with_memory, entry_of-Agrees, Source}
use neuclear.Memory.Fork.Kernel.{map_kernel_areas-SameBelow, map_kernel_areas-translate}
use neuclear.Memory.Fork.Step.{Copies}
use neuclear.Memory.Frames.{Buddy, Memory, Machine, begin_frame}
use neuclear.Memory.PageTable.{State, with_root, translate}
use neuclear.Memory.PageTable.Descend.{IsTable, also-true}
use neuclear.Memory.PageTable.Entry.{is_valid-zero}
use neuclear.Memory.PageTable.Fresh.{Took, zeroed, frame_alloc-Took}
use neuclear.Memory.PageTable.Map.{entry_of-entry_at, translated, translate-translated}
use neuclear.Memory.PageTable.Pool.{BuddyLaws, held_frames}
use neuclear.Memory.PageTable.Tree.{Place, top, elsewhere, IsTree, child, bits_at_no_mid}
use neuclear.Memory.Space.{MapArea, MemorySet, new_bare, map_kernel_areas}
use neuclear.Memory.Space.One.{held}

-- A tree of the root alone.
abbrev alone : ℕ → ℕ → Place
alone n f = if f == n then top else elsewhere

no_child : (m : Memory) (n i : ℕ) → m n i ≡ 0 → child m n i ≡ none
unfolding child
no_child m n i e = rw (e, is_valid-zero) refl

alone-IsTree :
    (m : Memory) (n : ℕ) (held : ℕ → Bool)
    → ((i : ℕ) → m n i ≡ 0)
    → held n ≡ true
    → IsTree m n held (alone n)
alone-IsTree m n held zero h = record {
  at_top = rw (==_refl n) refl;
  mids = λ i f e. cc (e, no_child m n i (zero i));
  leaves = λ i f j g e. cc (e, no_child m n i (zero i));
  owned = λ f. elim (Bool-cases (f == n)) [
    | inl same ↦ inr (ap held ((==_iff f n).0 same) ∙ h)
    | inr other ↦ inl (rw other refl)
  ];
}

module _ (buddy : Buddy) (laws : BuddyLaws buddy) (ekernel : ℕ)
    (room : laws.capacity + begin_frame buddy ekernel < 2 ^ 44) where
  abbrev rooted : ℕ → Machine buddy ekernel → MemorySet buddy ekernel
  rooted n m = record {
    pages = record {
      table = record { root_ppn = n; frames = record { ppn = n; num = 1 } ∷ [] };
      machine = m;
    };
    areas = [];
  }

  new_bare-rooted :
      (m m' : Machine buddy ekernel) (n : ℕ)
      → Took buddy laws ekernel room m n m'
      → new_bare buddy ekernel m ≡ ok (rooted n m')
  unfolding new_bare with_root
  new_bare-rooted m m' n took = rw took.result refl

  rooted-Copies :
      (m m' : Machine buddy ekernel) (n : ℕ) (src : ℕ → ℕ)
      → Took buddy laws ekernel room m n m'
      → Copies buddy laws ekernel room m.memory
          (held_frames buddy laws ekernel room m.pool)
          src
          (rooted n m').pages
          (alone n)
          (λ v. ⊥)
          0
          src
  rooted-Copies m m' n src took =
      let before = held_frames buddy laws ekernel room m.pool in
      let after = held_frames buddy laws ekernel room m'.pool in
      let zero : (i : ℕ) → m'.memory n i ≡ 0 =
        λ i. ap (λ (mem : Memory). mem n i) took.memory ∙ rw (==_refl n) refl in
      let other : (f : ℕ) → before f ≡ true → f ≢ n = λ f h e. cc (h, took.fresh, ap before e) in
      record {
        table = record {
          tree = alone-IsTree m'.memory n after zero (sym (took.holds n) ∙ rw (==_refl n) refl);
        };
        same = λ f h i. ap (λ (mem : Memory). mem f i) took.memory ∙ unchanged f i (other f h);
        spare = λ f h. let ne = other f h in ground arith;
        out = λ f h. sym (took.holds f) ∙ also-true n before f h;
        vacant = λ v low' high.
            entry_of-entry_at buddy laws ekernel room (rooted n m').pages v
            ∙ bits_at_no_mid m'.memory n _ _ _ (no_child m'.memory n _ (zero _));
        below = λ v d. absurd d;
        pages = λ v d. absurd d;
        apart = λ v w d. absurd d;
      }
    where
      unchanged : (f i : ℕ) → f ≢ n → zeroed m.memory n f i ≡ m.memory f i
      unchanged f i ne = ground arith

  -- The pages of the space `s` that are in the areas, and the frames that they lie in.
  abbrev pub Mapped : State buddy ekernel → List MapArea → (ℕ → ℕ) → Type 0
  Mapped s areas src =
      (v : ℕ)
      → InAreas areas v
      → (translate s.table s.machine.memory v ≡ some (src v))
        × (held buddy laws ekernel room s (src v) ≡ true)

  Mapped-Source :
      (s : State buddy ekernel) (place : ℕ → Place) (areas : List MapArea) (src : ℕ → ℕ)
      → IsTable buddy laws ekernel room s place
      → Mapped s areas src
      → (v : ℕ) → InAreas areas v
      → Source buddy laws ekernel room s.machine.memory
          (held buddy laws ekernel room s)
          s.table
          v
          (src v)
  Mapped-Source s place areas src t mapped v h = record {
    reads = λ m same.
        let s' = with_memory buddy laws ekernel room s m in
        translate-translated buddy laws ekernel room s' v
        ∙ ap translated (
            entry_of-Agrees buddy laws ekernel room s place m t
              (λ f in_tree i. elim (t.tree.owned f) [
                | inl e ↦ absurd (in_tree e)
                | inr out ↦ same f out i
              ])
              v)
        ∙ sym (translate-translated buddy laws ekernel room s v)
        ∙ (mapped v h).0;
    out = (mapped v h).1;
  }

  -- What the copy of a space is: every page of the areas lies in a frame of its own, which was not out
  -- before, and has the words of the old page; what was out before is as it was.
  pub record Forked (s : State buddy ekernel) (areas : List MapArea) (src : ℕ → ℕ)
      (ms : MemorySet buddy ekernel) (frame : ℕ → ℕ) : Type 0 where
    pub pages :
        (v : ℕ)
        → InAreas areas v
        → translate ms.pages.table ms.pages.machine.memory v ≡ some (frame v)
    pub fresh : (v : ℕ) → InAreas areas v → held buddy laws ekernel room s (frame v) ≡ false
    pub copied :
        (v : ℕ)
        → InAreas areas v
        → (i : ℕ) → i < pte_per_page
        → ms.pages.machine.memory (frame v) i ≡ s.machine.memory (src v) i
    pub apart : (v w : ℕ) → InAreas areas v → InAreas areas w → v < w → frame v ≢ frame w
    pub kept :
        (f : ℕ)
        → held buddy laws ekernel room s f ≡ true
        → (i : ℕ) → ms.pages.machine.memory f i ≡ s.machine.memory f i

  Copies-Forked :
      (s : State buddy ekernel) (areas : List MapArea) (src : ℕ → ℕ) (ms : MemorySet buddy ekernel)
      (place : ℕ → Place) (low : ℕ) (frame : ℕ → ℕ)
      → Ordered 0 areas
      → Copies buddy laws ekernel room s.machine.memory
          (held buddy laws ekernel room s)
          src
          ms.pages
          place
          (λ v. ⊥ ⊎ InAreas areas v)
          low
          frame
      → Forked s areas src (map_kernel_areas buddy ekernel s.table ms) frame
  unfolding map_kernel_areas
  Copies-Forked s areas src ms place low frame ordered c =
      let below = map_kernel_areas-SameBelow buddy laws ekernel room s.table ms in
      let not_root : (f : ℕ) → place f ≡ elsewhere → f ≢ ms.pages.table.root_ppn =
        λ f e same. cc (e, c.table.tree.at_top, ap place same) in
      record {
        pages = λ v h.
            let target = (c.pages v (inr h)).target in
            map_kernel_areas-translate buddy laws ekernel room s.table ms place v target.bits
              c.table (InAreas-low 0 areas v ordered h) target.found
            ∙ ap some target.points;
        fresh = λ v h. (c.pages v (inr h)).target.new;
        copied = λ v h i inside.
            let page = c.pages v (inr h) in
            below (frame v) i (inl (not_root (frame v) page.target.outside)) ∙ page.copied i inside;
        apart = λ v w h k. c.apart v w (inr h) (inr k);
        kept = λ f h i. below f i (inl (not_root f (c.spare f h))) ∙ c.same f h i;
      }

  -- Copying a space whose table is a tree, and whose areas are framed, have pages, lie in order below
  -- 256 GiB and have each page translated to a frame that is out of the pool, succeeds while more than
  -- three frames to a page are left. Then every page of the areas is translated by the new space to a
  -- frame of its own, which was in the pool before and holds the words of the old space's frame; and
  -- every frame that was out of the pool before, those of the old space among them, is unchanged.
  pub from_existed_user-Forked :
      (s : State buddy ekernel) (place : ℕ → Place) (areas : List MapArea) (src : ℕ → ℕ)
      → IsTable buddy laws ekernel room s place
      → Ordered 0 areas
      → 3 * page_count areas < laws.left s.machine.pool
      → Mapped s areas src
      → (ms : MemorySet buddy ekernel) × (frame : ℕ → ℕ) × (from_existed_user buddy ekernel areas
            s.table s.machine
          ≡ ok ms)
        × Forked s areas src ms frame
  unfolding from_existed_user
  from_existed_user-Forked s place areas src t ordered room_left mapped =
      let (n, m, took) = frame_alloc-Took buddy laws ekernel room s.machine (omega arith) in
      let (ms, place', low, frame, result, c) =
        copy_areas-Copies buddy laws ekernel room s.machine.memory (held buddy laws ekernel room s)
          src areas s.table (rooted n m) (alone n) (λ v. ⊥) 0 src ordered
          (rooted-Copies s.machine m n src took) tt (omega (arith, took.left))
          (Mapped-Source s place areas src t mapped) in
      (
        map_kernel_areas buddy ekernel s.table ms,
        frame,
        rw (new_bare-rooted s.machine m n took, result) refl,
        Copies-Forked s areas src ms place' low frame ordered c,
      )
