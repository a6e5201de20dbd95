-- ===== src/Memory/PageTable/Descend.antt =====
-- The walk of `find_pte_create` level by level: a missing table is added, and no page's entry changes.
use neuclear.Base.{
  ℕ, Bool, sym, ◌+◌, ◌^◌, ◌<◌, ◌≤◌, ◌≡◌, ◌≢◌, refl, ◌∙◌, ap, inl, inr, true, false, Option, none,
  some, arith, Option-cases, ◌∷◌, [],
}
use neuclear.Base.Outcome.{ok, ◌>>=◌}
use neuclear.Memory.Address.{indexes}
use neuclear.Memory.Frames.{Buddy, Memory, begin_frame}
use neuclear.Memory.PageTable.{
  State, add_table, descend, find_pte_create, create_from, is_valid, pte_ppn,
}
use neuclear.Memory.PageTable.Grow.{
  also, grown, placed, child-grown_self, root-ne_fresh, mid-ne_fresh, with_mid-IsTree,
  bits_at-with_mid, with_leaf-IsTree, bits_at-with_leaf, child-with_leaf_root,
}
use neuclear.Memory.PageTable.Pool.{BuddyLaws, held_frames, held-IsTree, Added, add_table-Added}
use neuclear.Memory.PageTable.Tree.{child, bits_at, Place, mid, leaf, elsewhere, IsTree}

child-valid :
    (m : Memory) (f i g : ℕ)
    → child m f i ≡ some g
    → (is_valid (m f i) ≡ true) × (pte_ppn (m f i) ≡ g)
unfolding child
child-valid m f i g e = ground arith

child-invalid : (m : Memory) (f i : ℕ) → child m f i ≡ none → is_valid (m f i) ≡ false
unfolding child
child-invalid m f i e = ground arith

pub also-true : (n : ℕ) (held : ℕ → Bool) (f : ℕ) → held f ≡ true → also n held f ≡ true
also-true n held f h = ground arith

module _ (buddy : Buddy) (laws : BuddyLaws buddy) (ekernel : ℕ)
    (room : laws.capacity + begin_frame buddy ekernel < 2 ^ 44) where
  -- The table of the state is a tree of frames that are out of the pool.
  pub record IsTable (s : State buddy ekernel) (place : ℕ → Place) : Type 0 where
    pub tree :
        IsTree s.machine.memory s.table.root_ppn
          (held_frames buddy laws ekernel room s.machine.pool)
          place

  -- The entry of a page, by its three indexes.
  abbrev pub entry_at : State buddy ekernel → ℕ → ℕ → ℕ → Option ℕ
  entry_at s = bits_at s.machine.memory s.table.root_ppn

  -- The child of a table.
  abbrev pub below : State buddy ekernel → ℕ → ℕ → Option ℕ
  below s = child s.machine.memory

  -- A walk kept the root and every page's entry, and took at most `n` frames.
  pub record Kept (s s' : State buddy ekernel) (n : ℕ) : Type 0 where
    pub root : s'.table.root_ppn ≡ s.table.root_ppn
    pub entries : (x y z : ℕ) → entry_at s' x y z ≡ entry_at s x y z
    pub left : laws.left s.machine.pool ≤ n + laws.left s'.machine.pool
    pub out :
        (f : ℕ)
        → held_frames buddy laws ekernel room s.machine.pool f ≡ true
        → held_frames buddy laws ekernel room s'.machine.pool f ≡ true

  -- Frames that are out of the pool and not in the tree are as they were, and still not in it.
  pub record Spared (s : State buddy ekernel) (place : ℕ → Place) (s' : State buddy ekernel)
      (place' : ℕ → Place) : Type 0 where
    pub same :
        (f : ℕ)
        → held_frames buddy laws ekernel room s.machine.pool f ≡ true
        → place f ≡ elsewhere
        → (i : ℕ) → s'.machine.memory f i ≡ s.machine.memory f i
    pub still :
        (f : ℕ)
        → held_frames buddy laws ekernel room s.machine.pool f ≡ true
        → place f ≡ elsewhere
        → place' f ≡ elsewhere

  pub Spared-refl : (s : State buddy ekernel) (place : ℕ → Place) → Spared s place s place
  Spared-refl s place = record { same = λ f h e i. refl; still = λ f h e. e }

  pub Spared-trans :
      (s s₁ s₂ : State buddy ekernel) (place place₁ place₂ : ℕ → Place)
      → ((f : ℕ)
          → held_frames buddy laws ekernel room s.machine.pool f ≡ true
          → held_frames buddy laws ekernel room s₁.machine.pool f ≡ true)
      → Spared s place s₁ place₁
      → Spared s₁ place₁ s₂ place₂
      → Spared s place s₂ place₂
  Spared-trans s s₁ s₂ place place₁ place₂ out a b = record {
    same = λ f h e i. b.same f (out f h) (a.still f h e) i ∙ a.same f h e i;
    still = λ f h e. b.still f (out f h) (a.still f h e);
  }

  -- A table was added below a table of the tree.
  Added-Spared :
      (s s' : State buddy ekernel) (place : ℕ → Place) (p i n : ℕ) (at : Place)
      → Added buddy laws ekernel room s (p, i) n s'
      → place p ≢ elsewhere
      → Spared s place s' (placed n at place)
  Added-Spared s s' place p i n at a in_tree = record {
    same = λ f h e k.
        ap (λ m. m f k) a.memory
        ∙ other f k (λ same. cc (h, a.fresh, same)) (λ same. in_tree (ap place (sym same) ∙ e));
    still = λ f h e. other_place f (λ same. cc (h, a.fresh, same)) ∙ e;
  }
    where
      other : (f k : ℕ) → f ≢ n → f ≢ p → grown s.machine.memory p i n f k ≡ s.machine.memory f k
      other f k ne ne_p = ground arith

      other_place : (f : ℕ) → f ≢ n → placed n at place f ≡ place f
      other_place f ne = ground arith

  descend_old :
      (s : State buddy ekernel) (p i f : ℕ)
      → below s p i ≡ some f
      → descend buddy ekernel p i s ≡ ok (f, s)
  unfolding descend
  descend_old s p i f e =
      let (valid, points) = child-valid s.machine.memory p i f e in rw (descend, valid, points) refl

  descend_new :
      (s s' : State buddy ekernel) (p i n : ℕ)
      → below s p i ≡ none
      → add_table buddy ekernel (p, i) s ≡ ok (n, s')
      → below s' p i ≡ some n
      → descend buddy ekernel p i s ≡ ok (n, s')
  unfolding descend
  descend_new s s' p i n e added e' =
      let (_, points) = child-valid s'.machine.memory p i n e' in
      rw (descend, child-invalid s.machine.memory p i e, added, points) refl

  pub descend_root :
      (s : State buddy ekernel) (place : ℕ → Place) (i : ℕ)
      → IsTable s place
      → 0 < laws.left s.machine.pool
      → (f : ℕ) × (s' : State buddy ekernel) × (place' : ℕ → Place) × (descend buddy ekernel
            s.table.root_ppn i s
          ≡ ok (f, s'))
        × IsTable s' place'
        × (below s' s'.table.root_ppn i ≡ some f)
        × Kept s s' 1
        × Spared s place s' place'
  descend_root s place i t h = elim (Option-cases (below s s.table.root_ppn i)) [
    | inr (f, old) ↦ (
      f,
      s,
      place,
      descend_old s s.table.root_ppn i f old,
      t,
      old,
      record { root = refl; entries = λ x y z. refl; left = omega arith; out = λ f h. h },
      Spared-refl s place,
    )
    | inl absent ↦
        let (n, s', a) = add_table-Added buddy laws ekernel room s (s.table.root_ppn, i) h in
        let held = held_frames buddy laws ekernel room s.machine.pool in
        let at : below s' s.table.root_ppn i ≡ some n =
          ap (λ m. child m s.table.root_ppn i) a.memory
          ∙ child-grown_self s.machine.memory s.table.root_ppn i n a.small (
              root-ne_fresh s.machine.memory s.table.root_ppn held place t.tree n a.small
                a.fresh) in
        (
          n,
          s',
          placed n (mid i) place,
          descend_new s s' s.table.root_ppn i n absent a.result at,
          record {
            tree =
                rw (a.memory, a.root)
                  (held-IsTree a.holds (
                    with_mid-IsTree s.machine.memory s.table.root_ppn held place t.tree n a.small
                      a.fresh i absent));
          },
          ap (λ r. below s' r i) a.root ∙ at,
          record {
            root = a.root;
            entries = λ x y z.
                rw (a.memory, a.root)
                  (bits_at-with_mid s.machine.memory s.table.root_ppn held place t.tree n a.small
                    a.fresh i absent x y z);
            left = omega (arith, a.left);
            out = λ f h.
                sym (a.holds f)
                ∙ also-true n (held_frames buddy laws ekernel room s.machine.pool) f h;
          },
          Added-Spared s s' place s.table.root_ppn i n (mid i) a (λ e. cc (e, t.tree.at_top)),
        )
  ]

  pub descend_mid :
      (s : State buddy ekernel) (place : ℕ → Place) (i j f : ℕ)
      → IsTable s place
      → 0 < laws.left s.machine.pool
      → below s s.table.root_ppn i ≡ some f
      → (g : ℕ) × (s' : State buddy ekernel) × (place' : ℕ → Place) × (descend buddy ekernel f j s
          ≡ ok (g, s'))
        × IsTable s' place'
        × (below s' s'.table.root_ppn i ≡ some f)
        × (below s' f j ≡ some g)
        × Kept s s' 1
        × Spared s place s' place'
  descend_mid s place i j f t h up = elim (Option-cases (below s f j)) [
    | inr (g, old) ↦ (
      g,
      s,
      place,
      descend_old s f j g old,
      t,
      up,
      old,
      record { root = refl; entries = λ x y z. refl; left = omega arith; out = λ f h. h },
      Spared-refl s place,
    )
    | inl absent ↦
        let (n, s', a) = add_table-Added buddy laws ekernel room s (f, j) h in
        let held = held_frames buddy laws ekernel room s.machine.pool in
        let at : below s' f j ≡ some n =
          ap (λ m. child m f j) a.memory
          ∙ child-grown_self s.machine.memory f j n a.small (
              mid-ne_fresh s.machine.memory s.table.root_ppn held place t.tree n a.small a.fresh i f
                up) in
        (
          n,
          s',
          placed n (leaf i j) place,
          descend_new s s' f j n absent a.result at,
          record {
            tree =
                rw (a.memory, a.root)
                  (held-IsTree a.holds (
                    with_leaf-IsTree s.machine.memory s.table.root_ppn held place t.tree n a.small
                      a.fresh i j f up absent));
          },
          rw (a.memory, a.root)
              (child-with_leaf_root s.machine.memory s.table.root_ppn held place t.tree n a.small
                  a.fresh i j f up absent i
                ∙ up),
          at,
          record {
            root = a.root;
            entries = λ x y z.
                rw (a.memory, a.root)
                  (bits_at-with_leaf s.machine.memory s.table.root_ppn held place t.tree n a.small
                    a.fresh i j f up absent x y z);
            left = omega (arith, a.left);
            out = λ f h.
                sym (a.holds f)
                ∙ also-true n (held_frames buddy laws ekernel room s.machine.pool) f h;
          },
          Added-Spared s s' place f j n (leaf i j) a (λ e. cc (e, t.tree.mids i f up)),
        )
  ]

  create_from_two :
      (p i j k : ℕ) (s : State buddy ekernel)
      → create_from buddy ekernel p (i ∷ j ∷ k ∷ []) s ≡ (
          descend buddy ekernel p i s >>= λ r.
          descend buddy ekernel r.0 j r.1 >>= λ q. ok ((q.0, k), q.1))
  unfolding create_from
  create_from_two p i j k s = refl

  -- With two frames left, the walk arrives at the leaf table.
  pub find_pte_create_lem :
      (s : State buddy ekernel) (place : ℕ → Place) (vpn : ℕ)
      → IsTable s place
      → 2 ≤ laws.left s.machine.pool
      → let (i, j, k) = indexes vpn in
        (f g : ℕ) × (s' : State buddy ekernel) × (place' : ℕ → Place) × (find_pte_create buddy
            ekernel vpn s
          ≡ ok ((g, k), s'))
        × IsTable s' place'
        × (below s' s'.table.root_ppn i ≡ some f)
        × (below s' f j ≡ some g)
        × Kept s s' 2
        × Spared s place s' place'
  unfolding find_pte_create
  find_pte_create_lem s place vpn t h =
      let (i, j, k) = indexes vpn in
      let (f, s1, place1, walk, t1, up, kept, spared) = descend_root s place i t (omega arith) in
      let (g, s2, place2, walk', t2, up', down, kept', spared') =
        descend_mid s1 place1 i j f t1 (omega (arith, kept.left)) up in
      (
        f,
        g,
        s2,
        place2,
        rw (find_pte_create, create_from_two s.table.root_ppn i j k s, walk, walk') refl,
        t2,
        up',
        down,
        record {
          root = kept'.root ∙ kept.root;
          entries = λ x y z. kept'.entries x y z ∙ kept.entries x y z;
          left = omega (arith, kept.left, kept'.left);
          out = λ q h. kept'.out q (kept.out q h);
        },
        Spared-trans s s1 s2 place place1 place2 kept.out spared spared',
      )
