-- ===== src/Memory/Fork/Step.antt =====
-- What copying one area does to the pages that were copied before.
use neuclear.Base.{
  ℕ, ◌+◌, ◌-◌, ◌^◌, ◌<◌, ◌≤◌, ◌≡◌, ◌≢◌, refl, ◌∙◌, ap, ◌⊎◌, inl, inr, Bool, true, false, none,
  arith, ltb, if◌then◌else◌, Bool-cases, set_bit,
}
use neuclear.Config.{pte_per_page}
use neuclear.Memory.Fork.Copying.{
  with_memory, IsTable-Agrees, entry_of-Agrees, Unchanged, Target, Target-Agrees, CopiedRange,
}
use neuclear.Memory.Frames.{Buddy, Memory, begin_frame}
use neuclear.Memory.PageTable.{State, pte_new, flag_v}
use neuclear.Memory.PageTable.Apart.{Agrees}
use neuclear.Memory.PageTable.Descend.{IsTable}
use neuclear.Memory.PageTable.Entry.{pte_new-fields, set_valid}
use neuclear.Memory.PageTable.Map.{entry_of}
use neuclear.Memory.PageTable.Pool.{BuddyLaws}
use neuclear.Memory.PageTable.Tree.{Place, elsewhere}
use neuclear.Memory.Space.Areas.{Filled, Beside}
use neuclear.Memory.Space.One.{held}

abbrev pub Or : (ℕ → Type 0) → ℕ → ℕ → ℕ → Type 0
Or Done start end v = Done v ⊎ ((start ≤ v) × (v < end))

abbrev pub joined : ℕ → (ℕ → ℕ) → (ℕ → ℕ) → ℕ → ℕ
joined start frame frame₁ v = if ltb v start then frame v else frame₁ v

module _ (buddy : Buddy) (laws : BuddyLaws buddy) (ekernel : ℕ)
    (room : laws.capacity + begin_frame buddy ekernel < 2 ^ 44) (m₀ : Memory) (old : ℕ → Bool)
    (src : ℕ → ℕ) where
  -- Page `v` was copied to frame `dst`.
  pub record Page (s : State buddy ekernel) (place : ℕ → Place) (v dst : ℕ) : Type 0 where
    pub target : Target buddy laws ekernel room m₀ old s place v dst
    pub out : held buddy laws ekernel room s dst ≡ true
    pub copied : (i : ℕ) → i < pte_per_page → s.machine.memory dst i ≡ m₀ (src v) i

  -- The pages of `Done` were copied, each to a frame of its own; nothing is mapped from `low` on; the
  -- old frames are unchanged and not in the new tree.
  pub record Copies (s : State buddy ekernel) (place : ℕ → Place) (Done : ℕ → Type 0) (low : ℕ)
      (frame : ℕ → ℕ) : Type 0 where
    pub table : IsTable buddy laws ekernel room s place
    pub same : Unchanged buddy laws ekernel room m₀ old s.machine.memory
    pub spare : (f : ℕ) → old f ≡ true → place f ≡ elsewhere
    pub out : (f : ℕ) → old f ≡ true → held buddy laws ekernel room s f ≡ true
    pub vacant : (v : ℕ) → low ≤ v → v < 2 ^ 27 → entry_of buddy laws ekernel room s v ≡ none
    pub below : (v : ℕ) → Done v → v < low
    pub pages : (v : ℕ) → Done v → Page s place v (frame v)
    pub apart : (v w : ℕ) → Done v → Done w → v < w → frame v ≢ frame w

  module _ (s : State buddy ekernel) (place : ℕ → Place) (Done : ℕ → Type 0) (low : ℕ)
      (frame : ℕ → ℕ) (c : Copies s place Done low frame) (start end perm : ℕ) (le : low ≤ start)
      (some_pages : start < end) (top : end ≤ 2 ^ 27) (byte : perm < 256) (s₁ : State buddy ekernel)
      (place₁ : ℕ → Place) (frame₁ : ℕ → ℕ)
      (filled : Filled buddy laws ekernel room s start (end - start) perm s₁ frame₁)
      (t : IsTable buddy laws ekernel room s₁ place₁)
      (beside : Beside buddy laws ekernel room s place start (end - start) s₁ place₁ frame₁) where
    -- A frame that was out before is none of the new ones.
    not_new :
        (f v : ℕ) → held buddy laws ekernel room s f ≡ true → start ≤ v → v < end → f ≢ frame₁ v
    not_new f v h low' high e =
        cc (h, filled.fresh v low' (omega arith), ap (held buddy laws ekernel room s) e)

    not_old : (v : ℕ) → start ≤ v → v < end → old (frame₁ v) ≡ false
    not_old v low' high = elim (Bool-cases (old (frame₁ v))) [
      | inr new ↦ new
      | inl h ↦ absurd (not_new (frame₁ v) v (c.out (frame₁ v) h) low' high refl)
    ]

    pub target₁ :
        (v : ℕ)
        → start ≤ v
        → v < start + (end - start)
        → Target buddy laws ekernel room m₀ old s₁ place₁ v (frame₁ v)
    target₁ v low' high =
        let (_, byte') = set_valid perm byte in
        record {
          bits = pte_new (frame₁ v) (set_bit perm flag_v true);
          found = filled.pages v low' high;
          points =
              (pte_new-fields (frame₁ v) (set_bit perm flag_v true) (filled.small v low' high)
                byte').0;
          outside = beside.data_frames v low' high;
          new = not_old v low' (omega arith);
        }

    pub same₁ : Unchanged buddy laws ekernel room m₀ old s₁.machine.memory
    same₁ f h i = beside.spared.same f (c.out f h) (c.spare f h) i ∙ c.same f h i

    -- After the copy as well.
    module _ (m' : Memory)
        (copied : CopiedRange buddy laws ekernel room m₀ old start
          (end - start)
          src
          frame₁
          s₁.machine.memory
          m') where
      abbrev s₂ : State buddy ekernel
      s₂ = with_memory buddy laws ekernel room s₁ m'

      agrees : Agrees s₁.machine.memory m' place₁
      agrees f in_tree i =
          copied.others f (λ v low' high e. in_tree (ap place₁ e ∙ beside.data_frames v low' high))
            i

      -- A frame that was out before has not changed since.
      kept :
          (f : ℕ)
          → held buddy laws ekernel room s f ≡ true
          → place f ≡ elsewhere
          → (i : ℕ) → m' f i ≡ s.machine.memory f i
      kept f h e i =
          copied.others f (λ v low' high. not_new f v h low' (omega arith)) i
          ∙ beside.spared.same f h e i

      entry_kept :
          (v : ℕ)
          → v < 2 ^ 27
          → (v < start) ⊎ (end ≤ v)
          → entry_of buddy laws ekernel room s₂ v ≡ entry_of buddy laws ekernel room s v
      entry_kept v k side =
          entry_of-Agrees buddy laws ekernel room s₁ place₁ m' t agrees v
          ∙ filled.others v k (elim side [ inl b ↦ inl b | inr a ↦ inr (omega arith) ])

      old_page : (v : ℕ) → Done v → Page s₂ place₁ v (frame v)
      old_page v d =
          let page = c.pages v d in
          record {
            target = record {
              bits = page.target.bits;
              found =
                  entry_kept v (omega (arith, c.below v d)) (inl (omega (arith, c.below v d)))
                  ∙ page.target.found;
              points = page.target.points;
              outside = beside.spared.still (frame v) page.out page.target.outside;
              new = page.target.new;
            };
            out = filled.out (frame v) page.out;
            copied = λ i h. kept (frame v) page.out page.target.outside i ∙ page.copied i h;
          }

      new_page : (v : ℕ) → start ≤ v → v < end → Page s₂ place₁ v (frame₁ v)
      new_page v low' high = record {
        target =
            Target-Agrees buddy laws ekernel room m₀ old s₁ place₁ m' v (frame₁ v) t agrees
              (target₁ v low' (omega arith));
        out = filled.now v low' (omega arith);
        copied = copied.pages v low' (omega arith);
      }

      joined_old : (v : ℕ) → Done v → joined start frame frame₁ v ≡ frame v
      joined_old v d = let b = c.below v d in ground arith

      joined_new : (v : ℕ) → start ≤ v → joined start frame frame₁ v ≡ frame₁ v
      joined_new v h = ground arith

      page_of : (v : ℕ) → Or Done start end v → Page s₂ place₁ v (joined start frame frame₁ v)
      page_of v (inl d) = rw (joined_old v d) (old_page v d)
      page_of v (inr (low', high)) = rw (joined_new v low') (new_page v low' high)

      all_apart :
          (v w : ℕ)
          → Or Done start end v
          → Or Done start end w
          → v < w
          → joined start frame frame₁ v ≢ joined start frame frame₁ w
      all_apart v w (inl d) (inl d') l = rw (joined_old v d, joined_old w d') (c.apart v w d d' l)
      all_apart v w (inl d) (inr (low', high)) l =
          rw (joined_old v d, joined_new w low') (not_new (frame v) w (c.pages v d).out low' high)
      all_apart v w (inr (low', high)) (inl d') l = absurd (omega (arith, c.below w d'))
      all_apart v w (inr (low', high)) (inr (low'', high')) l =
          rw (joined_new v low', joined_new w low'') (filled.apart v w low' l (omega arith))

      pub next-Copies : Copies s₂ place₁ (Or Done start end) end (joined start frame frame₁)
      next-Copies = record {
        table = IsTable-Agrees buddy laws ekernel room s₁ place₁ m' t agrees;
        same = λ f h i. kept f (c.out f h) (c.spare f h) i ∙ c.same f h i;
        spare = λ f h. beside.spared.still f (c.out f h) (c.spare f h);
        out = λ f h. filled.out f (c.out f h);
        vacant = λ v h k. entry_kept v k (inr h) ∙ c.vacant v (omega arith) k;
        below = λ v d. elim d [ inl d' ↦ omega (arith, c.below v d') | inr (low', high) ↦ high ];
        pages = page_of;
        apart = all_apart;
      }
