-- ===== src/Memory/PageTable/Apart.antt =====
-- Memory outside of a table's tree.
use neuclear.Base.{
  ℕ, ◌≡◌, ◌≢◌, sym, ◌∙◌, ap, inl, inr, Bool, true, some, none, Option-cases, if◌then◌else◌,
}
use neuclear.Memory.Frames.{Memory}
use neuclear.Memory.PageTable.{is_valid, pte_ppn}
use neuclear.Memory.PageTable.Tree.{
  child, bits_at, bits_at_via, bits_at_no_mid, bits_at_no_leaf, Place, elsewhere, IsTree,
}

-- The two memories hold the same in the frames of the tree.
abbrev pub Agrees : Memory → Memory → (ℕ → Place) → Type 0
Agrees m m' place = (f : ℕ) → place f ≢ elsewhere → (i : ℕ) → m' f i ≡ m f i

child-same : (m m' : Memory) (f i : ℕ) → m' f i ≡ m f i → child m' f i ≡ child m f i
unfolding child
child-same m m' f i e = ap (λ bits. if is_valid bits then some (pte_ppn bits) else none) e

module _ (m m' : Memory) (root : ℕ) (held held' : ℕ → Bool) (place : ℕ → Place)
    (t : IsTree m root held place) (agrees : Agrees m m' place) where
  root_same : (x : ℕ) → child m' root x ≡ child m root x
  root_same x = child-same m m' root x (agrees root (λ e. cc (e, t.at_top)) x)

  mid_same : (x f y : ℕ) → child m root x ≡ some f → child m' f y ≡ child m f y
  mid_same x f y c = child-same m m' f y (agrees f (λ e. cc (e, t.mids x f c)) y)

  -- The same tree is in the other memory, if no frame went back.
  pub IsTree-Agrees : ((f : ℕ) → held f ≡ true → held' f ≡ true) → IsTree m' root held' place
  IsTree-Agrees out = record {
    at_top = t.at_top;
    mids = λ x f c. t.mids x f (sym (root_same x) ∙ c);
    leaves = λ x f y g c d.
        let c' = sym (root_same x) ∙ c in t.leaves x f y g c' (sym (mid_same x f y c') ∙ d);
    owned = λ f. elim (t.owned f) [ inl e ↦ inl e | inr h ↦ inr (out f h) ];
  }

  pub bits_at-Agrees : (x y z : ℕ) → bits_at m' root x y z ≡ bits_at m root x y z
  bits_at-Agrees x y z = elim (Option-cases (child m root x)) [
    | inl no_mid ↦
        bits_at_no_mid m' root x y z (root_same x ∙ no_mid)
        ∙ sym (bits_at_no_mid m root x y z no_mid)
    | inr (f, c) ↦ elim (Option-cases (child m f y)) [
      | inl no_leaf ↦
          bits_at_no_leaf m' root x y z f (root_same x ∙ c) (mid_same x f y c ∙ no_leaf)
          ∙ sym (bits_at_no_leaf m root x y z f c no_leaf)
      | inr (g, d) ↦
          bits_at_via m' root x y z f g (root_same x ∙ c) (mid_same x f y c ∙ d)
          ∙ ap (λ bits. if is_valid bits then some bits else none)
              (agrees g (λ e. cc (e, t.leaves x f y g c d)) z)
          ∙ sym (bits_at_via m root x y z f g c d)
    ]
  ]
