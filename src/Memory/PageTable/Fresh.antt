-- ===== src/Memory/PageTable/Fresh.antt =====
-- A frame that is taken for data: zeroing it changes no table.
use neuclear.Base.{
  ℕ, suc, ◌+◌, ◌^◌, ◌<◌, ◌≡◌, ◌≢◌, refl, sym, ◌∙◌, ap, fun_ext, ◌⊎◌, inl, inr, Bool, true, false,
  some, arith, ◌==◌, Bool-cases, Option-cases, if◌then◌else◌, add64,
}
use neuclear.Base.Outcome.{ok}
use neuclear.Memory.Frames.{Buddy, Memory, Machine, in_range, begin_frame, frame_alloc, new_tracker}
use neuclear.Memory.PageTable.Grow.{also}
use neuclear.Memory.PageTable.Pool.{BuddyLaws, held_frames, holds_shifted, in_range_one}
use neuclear.Memory.PageTable.Tree.{
  child, bits_at, bits_at_via, bits_at_no_mid, bits_at_no_leaf, bits_leaf, Place, elsewhere, IsTree,
}

abbrev pub zeroed : Memory → ℕ → Memory
zeroed m n f i = if f == n then 0 else m f i

module _ (m : Memory) (root : ℕ) (held : ℕ → Bool) (place : ℕ → Place)
    (t : IsTree m root held place) (n : ℕ) (fresh : held n ≡ false) where
  unowned : place n ≡ elsewhere
  unowned = elim (t.owned n) [ inl e ↦ e | inr h ↦ cc (fresh, h) ]

  root-ne : root ≢ n
  root-ne e = cc (t.at_top, unowned, ap place e)

  mid-ne : (x f : ℕ) → child m root x ≡ some f → f ≢ n
  mid-ne x f c e = cc (t.mids x f c, unowned, ap place e)

  leaf-ne : (x f y g : ℕ) → child m root x ≡ some f → child m f y ≡ some g → g ≢ n
  leaf-ne x f y g c d e = cc (t.leaves x f y g c d, unowned, ap place e)

  child-zeroed : (f i : ℕ) → f ≢ n → child (zeroed m n) f i ≡ child m f i
  unfolding child
  child-zeroed f i ne = ground arith

  leaf-zeroed : (g z : ℕ) → g ≢ n → bits_leaf (zeroed m n) g z ≡ bits_leaf m g z
  leaf-zeroed g z ne = ground arith

  also_owned : (f : ℕ) → (place f ≡ elsewhere) ⊎ (also n held f ≡ true)
  also_owned f = elim (Bool-cases (f == n)) [
    | inl same ↦ inr (rw same refl)
    | inr other ↦ rw other (t.owned f)
  ]

  pub zeroed-IsTree : IsTree (zeroed m n) root (also n held) place
  zeroed-IsTree = record {
    at_top = t.at_top;
    mids = λ x f c. t.mids x f (sym (child-zeroed root x root-ne) ∙ c);
    leaves = λ x f y g c d.
        let c' = sym (child-zeroed root x root-ne) ∙ c in
        t.leaves x f y g c' (sym (child-zeroed f y (mid-ne x f c')) ∙ d);
    owned = also_owned;
  }

  pub bits_at-zeroed : (x y z : ℕ) → bits_at (zeroed m n) root x y z ≡ bits_at m root x y z
  bits_at-zeroed x y z =
      let up = child-zeroed root x root-ne in
      elim (Option-cases (child m root x)) [
        | inl no_mid ↦
            bits_at_no_mid (zeroed m n) root x y z (up ∙ no_mid)
            ∙ sym (bits_at_no_mid m root x y z no_mid)
        | inr (f, c) ↦
            let down = child-zeroed f y (mid-ne x f c) in
            elim (Option-cases (child m f y)) [
              | inl no_leaf ↦
                  bits_at_no_leaf (zeroed m n) root x y z f (up ∙ c) (down ∙ no_leaf)
                  ∙ sym (bits_at_no_leaf m root x y z f c no_leaf)
              | inr (g, d) ↦
                  bits_at_via (zeroed m n) root x y z f g (up ∙ c) (down ∙ d)
                  ∙ leaf-zeroed g z (leaf-ne x f y g c d)
                  ∙ sym (bits_at_via m root x y z f g c d)
            ]
      ]

module _ (buddy : Buddy) (laws : BuddyLaws buddy) (ekernel : ℕ)
    (room : laws.capacity + begin_frame buddy ekernel < 2 ^ 44) where
  -- One frame, `n`, came out of the pool and is zero.
  pub record Took (m : Machine buddy ekernel) (n : ℕ) (m' : Machine buddy ekernel) : Type 0 where
    pub result : frame_alloc buddy ekernel 1 m ≡ ok (some (record { ppn = n; num = 1 }), m')
    pub memory : m'.memory ≡ zeroed m.memory n
    pub small : n < 2 ^ 44
    pub fresh : held_frames buddy laws ekernel room m.pool n ≡ false
    pub holds :
        (f : ℕ)
        → also n (held_frames buddy laws ekernel room m.pool) f
          ≡ held_frames buddy laws ekernel room m'.pool f
    pub left : suc (laws.left m'.pool) ≡ laws.left m.pool

  abbrev taken : Machine buddy ekernel → ℕ → buddy.Pool → Machine buddy ekernel
  taken m n pool = record {
    pool = pool;
    memory = λ f i. if in_range n 1 f then 0 else m.memory f i;
  }

  frame_alloc_result :
      (m : Machine buddy ekernel) (first : ℕ) (pool : buddy.Pool)
      → buddy.alloc 1 m.pool ≡ some (first, pool)
      → first < laws.capacity
      → frame_alloc buddy ekernel 1 m
        ≡ ok (
          some (record { ppn = first + begin_frame buddy ekernel; num = 1 }),
          taken m (first + begin_frame buddy ekernel) pool,
        )
  unfolding frame_alloc new_tracker
  frame_alloc_result m first pool e small =
      let no_wrap : add64 first (begin_frame buddy ekernel) ≡ first + begin_frame buddy ekernel =
        omega (arith, room) in
      rw (frame_alloc, e, no_wrap, new_tracker) refl

  pub frame_alloc-Took :
      (m : Machine buddy ekernel)
      → 0 < laws.left m.pool
      → (n : ℕ) × (m' : Machine buddy ekernel) × Took m n m'
  frame_alloc-Took m h =
      let (first, pool, e, small, fresh, holds, left) = laws.alloc_one m.pool h in
      let n = first + begin_frame buddy ekernel in
      (
        n,
        taken m n pool,
        record {
          result = frame_alloc_result m first pool e small;
          memory = fun_ext λ f. fun_ext λ i.
              ap (λ b. if b then 0 else m.memory f i) (in_range_one buddy laws ekernel room n f);
          small = omega (arith, room, small);
          fresh = ground (arith, fresh);
          holds = λ f. holds_shifted buddy laws ekernel room m.pool pool first f holds;
          left = left;
        },
      )
