-- ===== src/Memory/PageTable/Grow.antt =====
-- Hanging a fresh, zeroed frame into a tree: every page keeps its entry.
use neuclear.Base.{
  ℕ, ◌^◌, ◌<◌, ◌≡◌, ◌≢◌, refl, sym, ◌∙◌, ap, ap₂, ◌⊎◌, inl, inr, Bool, true, false, none, some,
  arith, ◌==◌, ==_refl, ==_iff, Bool-cases, Option-cases, if◌then◌else◌, ℕ_discrete,
}
use neuclear.Memory.Frames.{Memory}
use neuclear.Memory.PageTable.{write_entry, is_valid, pte_new, pte_ppn, flag_v}
use neuclear.Memory.PageTable.Entry.{pte_new-fields, is_valid-zero}
use neuclear.Memory.PageTable.Tree.{
  child, bits_at, bits_at_via, bits_at_no_mid, bits_at_no_leaf, bits_leaf, Place, mid, leaf,
  elsewhere, IsTree,
}

some-inj : {a b : ℕ} → some a ≡ some b → a ≡ b
some-inj e = cc

-- Frame `n` is zeroed, and entry `(p, i)` points to it.
abbrev pub grown : Memory → ℕ → ℕ → ℕ → Memory
grown m p i n = write_entry (λ f k. if f == n then 0 else m f k) (p, i) (pte_new n (2 ^ flag_v))

abbrev pub also : ℕ → (ℕ → Bool) → ℕ → Bool
also n held f = if f == n then true else held f

abbrev pub placed : ℕ → Place → (ℕ → Place) → ℕ → Place
placed n at place f = if f == n then at else place f

pub pte_ppn-table :
    (n : ℕ) → n < 2 ^ 44 → (pte_ppn (pte_new n 1) ≡ n) × (is_valid (pte_new n 1) ≡ true)
pte_ppn-table n h = let (a, _, c) = pte_new-fields n 1 h (omega arith) in (a, c)

module _ (m : Memory) (p i n : ℕ) (small : n < 2 ^ 44) (new : p ≢ n) where
  pub child-grown_self : child (grown m p i n) p i ≡ some n
  unfolding child
  child-grown_self =
      rw (==_refl p, ==_refl i, (pte_ppn-table n small).1, (pte_ppn-table n small).0) refl

  pub child-grown_new : (k : ℕ) → child (grown m p i n) n k ≡ none
  unfolding child
  child-grown_new k = ground (arith, is_valid-zero)

  pub child-grown_ne :
      (f k : ℕ) → f ≢ n → (f ≢ p) ⊎ (k ≢ i) → child (grown m p i n) f k ≡ child m f k
  unfolding child
  child-grown_ne f k ne other = ground arith

module _ (m : Memory) (root : ℕ) (held : ℕ → Bool) (place : ℕ → Place)
    (t : IsTree m root held place) (n : ℕ) (small : n < 2 ^ 44) (fresh : held n ≡ false) where
  unowned : place n ≡ elsewhere
  unowned = elim (t.owned n) [ inl e ↦ e | inr h ↦ cc (fresh, h) ]

  pub root-ne_fresh : root ≢ n
  root-ne_fresh e = cc (t.at_top, unowned, ap place e)

  pub mid-ne_fresh : (x f : ℕ) → child m root x ≡ some f → f ≢ n
  mid-ne_fresh x f c e = cc (t.mids x f c, unowned, ap place e)

  leaf-ne_fresh : (x f y g : ℕ) → child m root x ≡ some f → child m f y ≡ some g → g ≢ n
  leaf-ne_fresh x f y g c d e = cc (t.leaves x f y g c d, unowned, ap place e)

  mid-ne_root : (x f : ℕ) → child m root x ≡ some f → f ≢ root
  mid-ne_root x f c e = cc (t.mids x f c, t.at_top, ap place e)

  placed_ne : (at : Place) (f : ℕ) → f ≢ n → placed n at place f ≡ place f
  placed_ne at f ne = ground arith

  placed_self : (at : Place) → placed n at place n ≡ at
  placed_self at = rw (==_refl n) refl

  also_owned : (at : Place) (f : ℕ) → (placed n at place f ≡ elsewhere) ⊎ (also n held f ≡ true)
  also_owned at f = elim (Bool-cases (f == n)) [
    | inl same ↦ inr (rw same refl)
    | inr other ↦ rw other (t.owned f)
  ]

  -- A table of the second level, where there was none.
  module _ (i : ℕ) (absent : child m root i ≡ none) where
    abbrev with_mid : Memory
    with_mid = grown m root i n

    -- A child of the root now is the new one or an old one.
    mid_cases :
        (x f : ℕ)
        → child with_mid root x ≡ some f
        → ((x ≡ i) × (f ≡ n)) ⊎ ((x ≢ i) × (child m root x ≡ some f))
    mid_cases x f c = elim (ℕ_discrete x i) [
      | yes e ↦ inl (
        e,
        some-inj
            (sym c ∙ ap (child with_mid root) e ∙ child-grown_self m root i n small root-ne_fresh),
      )
      | no ne ↦ inr (
        ne,
        sym (child-grown_ne m root i n small root-ne_fresh root x root-ne_fresh (inr ne)) ∙ c,
      )
    ]

    mid_leaf :
        (x f y g : ℕ)
        → child with_mid root x ≡ some f
        → child with_mid f y ≡ some g
        → (child m root x ≡ some f) × (child m f y ≡ some g)
    mid_leaf x f y g c d = elim (mid_cases x f c) [
      | inl (_, e) ↦ cc (
          sym d ∙ ap (λ h. child with_mid h y) e ∙ child-grown_new m root i n small root-ne_fresh y)
      | inr (_, c') ↦ (
        c',
        sym (
              child-grown_ne m root i n small root-ne_fresh f y (mid-ne_fresh x f c')
                (inl (mid-ne_root x f c')))
            ∙ d,
      )
    ]

    pub with_mid-IsTree : IsTree with_mid root (also n held) (placed n (mid i) place)
    with_mid-IsTree = record {
      at_top = placed_ne (mid i) root root-ne_fresh ∙ t.at_top;
      mids = λ x f c. elim (mid_cases x f c) [
        | inl (e, new) ↦ ap (placed n (mid i) place) new ∙ placed_self (mid i) ∙ ap mid (sym e)
        | inr (_, c') ↦ placed_ne (mid i) f (mid-ne_fresh x f c') ∙ t.mids x f c'
      ];
      leaves = λ x f y g c d.
          let (c', d') = mid_leaf x f y g c d in
          placed_ne (mid i) g (leaf-ne_fresh x f y g c' d') ∙ t.leaves x f y g c' d';
      owned = also_owned (mid i);
    }

    leaf-ne_root : (x f y g : ℕ) → child m root x ≡ some f → child m f y ≡ some g → g ≢ root
    leaf-ne_root x f y g c d e = cc (t.leaves x f y g c d, t.at_top, ap place e)

    mid_leaf_same : (g z : ℕ) → g ≢ n → g ≢ root → bits_leaf with_mid g z ≡ bits_leaf m g z
    mid_leaf_same g z ne ne_root = ground arith

    bits_at-with_mid_old :
        (x y z f : ℕ)
        → child m root x ≡ some f
        → child with_mid root x ≡ some f
        → bits_at with_mid root x y z ≡ bits_at m root x y z
    bits_at-with_mid_old x y z f c c' =
        let same : child with_mid f y ≡ child m f y =
          child-grown_ne m root i n small root-ne_fresh f y (mid-ne_fresh x f c)
            (inl (mid-ne_root x f c)) in
        elim (Option-cases (child m f y)) [
          | inl no_leaf ↦
              bits_at_no_leaf with_mid root x y z f c' (same ∙ no_leaf)
              ∙ sym (bits_at_no_leaf m root x y z f c no_leaf)
          | inr (g, d) ↦
              bits_at_via with_mid root x y z f g c' (same ∙ d)
              ∙ mid_leaf_same g z (leaf-ne_fresh x f y g c d) (leaf-ne_root x f y g c d)
              ∙ sym (bits_at_via m root x y z f g c d)
        ]

    pub bits_at-with_mid : (x y z : ℕ) → bits_at with_mid root x y z ≡ bits_at m root x y z
    bits_at-with_mid x y z = elim (ℕ_discrete x i) [
      | yes e ↦
          bits_at_no_leaf with_mid root x y z n
            (ap (child with_mid root) e ∙ child-grown_self m root i n small root-ne_fresh)
            (child-grown_new m root i n small root-ne_fresh y)
          ∙ sym (bits_at_no_mid m root x y z (ap (child m root) e ∙ absent))
      | no ne ↦
          let same : child with_mid root x ≡ child m root x =
            child-grown_ne m root i n small root-ne_fresh root x root-ne_fresh (inr ne) in
          elim (Option-cases (child m root x)) [
            | inl no_mid ↦
                bits_at_no_mid with_mid root x y z (same ∙ no_mid)
                ∙ sym (bits_at_no_mid m root x y z no_mid)
            | inr (f, c) ↦ bits_at-with_mid_old x y z f c (same ∙ c)
          ]
    ]

  -- A table of the third level, where there was none.
  module _ (i j f : ℕ) (up : child m root i ≡ some f) (absent : child m f j ≡ none) where
    abbrev with_leaf : Memory
    with_leaf = grown m f j n

    f-ne_fresh : f ≢ n
    f-ne_fresh = mid-ne_fresh i f up

    pub child-with_leaf_root : (x : ℕ) → child with_leaf root x ≡ child m root x
    child-with_leaf_root x =
        child-grown_ne m f j n small f-ne_fresh root x root-ne_fresh
          (inl (λ e. mid-ne_root i f up (sym e)))

    -- Below an old table, a child is the new one or an old one.
    leaf_cases :
        (x h y g : ℕ)
        → child m root x ≡ some h
        → child with_leaf h y ≡ some g
        → ((x ≡ i) × (y ≡ j) × (g ≡ n)) ⊎ (child m h y ≡ some g)
    leaf_cases x h y g c d = elim (ℕ_discrete h f) [
      | no ne ↦
          inr (sym (child-grown_ne m f j n small f-ne_fresh h y (mid-ne_fresh x h c) (inl ne)) ∙ d)
      | yes same ↦ elim (ℕ_discrete y j) [
        | no ne ↦
            inr
              (sym (child-grown_ne m f j n small f-ne_fresh h y (mid-ne_fresh x h c) (inr ne)) ∙ d)
        | yes e ↦ inl (
          mid-inj (sym (t.mids x h c) ∙ ap place same ∙ t.mids i f up),
          e,
          some-inj (
              sym d
              ∙ ap (λ q. child with_leaf q y) same
              ∙ ap (child with_leaf f) e
              ∙ child-grown_self m f j n small f-ne_fresh),
        )
      ]
    ]
      where
        mid-inj : {a b : ℕ} → mid a ≡ mid b → a ≡ b
        mid-inj q = cc

    pub with_leaf-IsTree : IsTree with_leaf root (also n held) (placed n (leaf i j) place)
    with_leaf-IsTree = record {
      at_top = placed_ne (leaf i j) root root-ne_fresh ∙ t.at_top;
      mids = λ x h c.
          let c' = sym (child-with_leaf_root x) ∙ c in
          placed_ne (leaf i j) h (mid-ne_fresh x h c') ∙ t.mids x h c';
      leaves = λ x h y g c d.
          let c' = sym (child-with_leaf_root x) ∙ c in
          elim (leaf_cases x h y g c' d) [
            | inl (ex, ey, new) ↦
                ap (placed n (leaf i j) place) new
                ∙ placed_self (leaf i j)
                ∙ ap₂ leaf (sym ex) (sym ey)
            | inr d' ↦ placed_ne (leaf i j) g (leaf-ne_fresh x h y g c' d') ∙ t.leaves x h y g c' d'
          ];
      owned = also_owned (leaf i j);
    }

    leaf_leaf_same : (g z : ℕ) → g ≢ n → g ≢ f → bits_leaf with_leaf g z ≡ bits_leaf m g z
    leaf_leaf_same g z ne ne_f = ground arith

    leaf_new : (z : ℕ) → bits_leaf with_leaf n z ≡ none
    leaf_new z = elim (Bool-cases (n == f)) [
      | inl same ↦ absurd (f-ne_fresh (sym ((==_iff n f).0 same)))
      | inr other ↦ rw (other, ==_refl n, is_valid-zero) refl
    ]

    leaf-ne_f : (x h y g : ℕ) → child m root x ≡ some h → child m h y ≡ some g → g ≢ f
    leaf-ne_f x h y g c d e = cc (t.leaves x h y g c d, t.mids i f up, ap place e)

    new_leaf_empty :
        (x y z h : ℕ)
        → child m root x ≡ some h
        → child m h y ≡ none
        → bits_at with_leaf root x y z ≡ none
    new_leaf_empty x y z h c d = elim (Option-cases (child with_leaf h y)) [
      | inl still ↦ bits_at_no_leaf with_leaf root x y z h (child-with_leaf_root x ∙ c) still
      | inr (g, now) ↦ elim (leaf_cases x h y g c now) [
        | inl (_, _, new) ↦
            bits_at_via with_leaf root x y z h g (child-with_leaf_root x ∙ c) now
            ∙ ap (λ q. bits_leaf with_leaf q z) new
            ∙ leaf_new z
        | inr old ↦ cc (old, d)
      ]
    ]

    old_leaf_same :
        (x y z h g : ℕ)
        → child m root x ≡ some h
        → child m h y ≡ some g
        → bits_at with_leaf root x y z ≡ bits_at m root x y z
    old_leaf_same x y z h g c d =
        bits_at_via with_leaf root x y z h g (child-with_leaf_root x ∙ c)
          (child-grown_ne m f j n small f-ne_fresh h y (mid-ne_fresh x h c) not_new ∙ d)
        ∙ leaf_leaf_same g z (leaf-ne_fresh x h y g c d) (leaf-ne_f x h y g c d)
        ∙ sym (bits_at_via m root x y z h g c d)
      where
        not_new : (h ≢ f) ⊎ (y ≢ j)
        not_new = elim (ℕ_discrete h f) [
          | no ne ↦ inl ne
          | yes same ↦
              inr (λ e. cc (sym d ∙ ap (λ q. child m q y) same ∙ ap (child m f) e ∙ absent))
        ]

    pub bits_at-with_leaf : (x y z : ℕ) → bits_at with_leaf root x y z ≡ bits_at m root x y z
    bits_at-with_leaf x y z = elim (Option-cases (child m root x)) [
      | inl no_mid ↦
          bits_at_no_mid with_leaf root x y z (child-with_leaf_root x ∙ no_mid)
          ∙ sym (bits_at_no_mid m root x y z no_mid)
      | inr (h, c) ↦ elim (Option-cases (child m h y)) [
        | inl no_leaf ↦
            new_leaf_empty x y z h c no_leaf ∙ sym (bits_at_no_leaf m root x y z h c no_leaf)
        | inr (g, d) ↦ old_leaf_same x y z h g c d
      ]
    ]
