-- ===== src/Memory/PageTable/Tree.antt =====
-- A page table in memory is a tree: every frame of it has one place. The entry of a page by levels,
-- and writing to a leaf table.
use neuclear.Base.{
  ℕ, ◌≡◌, ◌≢◌, refl, sym, ◌∙◌, ap, ℕ_discrete, ◌⊎◌, inl, inr, Bool, true, Option, none, some, arith,
  ==_refl, Option-cases, if◌then◌else◌,
}
use neuclear.Memory.Frames.{Memory}
use neuclear.Memory.PageTable.{PageTable, Slot, entry, write_entry, is_valid, pte_ppn, find_pte}
use neuclear.Memory.Address.{indexes}

unfoldable pub child : Memory → ℕ → ℕ → Option ℕ
child m f i = if is_valid (m f i) then some (pte_ppn (m f i)) else none

leaf_of : Memory → ℕ → ℕ → Option Slot
leaf_of m g k = if is_valid (m g k) then some (g, k) else none

-- The slot of a valid leaf entry, level by level.
slot_at : Memory → ℕ → ℕ → ℕ → ℕ → Option Slot
slot_at m root i j k = elim (child m root i) [
  | none ↦ none
  | some f ↦ elim (child m f j) [ none ↦ none | some g ↦ leaf_of m g k ]
]

-- Its bits.
pub bits_at : Memory → ℕ → ℕ → ℕ → ℕ → Option ℕ
unfolding slot_at leaf_of
bits_at m root i j k = elim (slot_at m root i j k) [ none ↦ none | some slot ↦ some (entry m slot) ]

find_pte-slot_at :
    (pt : PageTable) (m : Memory) (vpn : ℕ)
    → let (i, j, k) = indexes vpn in find_pte pt m vpn ≡ slot_at m pt.root_ppn i j k
unfolding find_pte slot_at child leaf_of
find_pte-slot_at pt m vpn = ground arith

pub entry-slot_at :
    (pt : PageTable) (m : Memory) (vpn : ℕ)
    → let (i, j, k) = indexes vpn in
      elim (find_pte pt m vpn) [ none ↦ none | some slot ↦ some (entry m slot) ]
      ≡ bits_at m pt.root_ppn i j k
unfolding bits_at
entry-slot_at pt m vpn = rw (find_pte-slot_at pt m vpn) refl

abbrev pub bits_leaf : Memory → ℕ → ℕ → Option ℕ
bits_leaf m g k = if is_valid (m g k) then some (m g k) else none

pub bits_at_via :
    (m : Memory) (root i j k f g : ℕ)
    → child m root i ≡ some f
    → child m f j ≡ some g
    → bits_at m root i j k ≡ bits_leaf m g k
unfolding bits_at
bits_at_via m root i j k f g up down = ground arith

pub bits_at_no_mid :
    (m : Memory) (root i j k : ℕ) → child m root i ≡ none → bits_at m root i j k ≡ none
unfolding bits_at
bits_at_no_mid m root i j k up = ground arith

pub bits_at_no_leaf :
    (m : Memory) (root i j k f : ℕ)
    → child m root i ≡ some f
    → child m f j ≡ none
    → bits_at m root i j k ≡ none
unfolding bits_at
bits_at_no_leaf m root i j k f up down = ground arith

-- Where a frame stands in the tree.
pub data Place : Type 0 where
  top : Place
  mid : ℕ → Place
  leaf : ℕ → ℕ → Place
  elsewhere : Place

pub record IsTree (m : Memory) (root : ℕ) (held : ℕ → Bool) (place : ℕ → Place) : Type 0 where
  pub at_top : place root ≡ top
  pub mids : (i f : ℕ) → child m root i ≡ some f → place f ≡ mid i
  pub leaves : (i f j g : ℕ) → child m root i ≡ some f → child m f j ≡ some g → place g ≡ leaf i j
  pub owned : (f : ℕ) → (place f ≡ elsewhere) ⊎ (held f ≡ true)

child-write_entry :
    (m : Memory) (g k bits f i : ℕ) → f ≢ g → child (write_entry m (g, k) bits) f i ≡ child m f i
unfolding child
child-write_entry m g k bits f i ne = ground arith

module _ (m : Memory) (root : ℕ) (held : ℕ → Bool) (place : ℕ → Place)
    (t : IsTree m root held place) (i j f g : ℕ) (up : child m root i ≡ some f)
    (down : child m f j ≡ some g) (k bits : ℕ) where
  abbrev after : Memory
  after = write_entry m (g, k) bits

  root-ne : root ≢ g
  root-ne e = cc (t.leaves i f j g up down, t.at_top, ap place e)

  mid-ne : (x h : ℕ) → child m root x ≡ some h → h ≢ g
  mid-ne x h c e = cc (t.leaves i f j g up down, t.mids x h c, ap place e)

  child-root : (x : ℕ) → child after root x ≡ child m root x
  child-root x = child-write_entry m g k bits root x root-ne

  child-mid : (x h y : ℕ) → child m root x ≡ some h → child after h y ≡ child m h y
  child-mid x h y c = child-write_entry m g k bits h y (mid-ne x h c)

  -- A leaf table's entries are not part of the tree's shape.
  pub write_entry-IsTree : IsTree after root held place
  write_entry-IsTree = record {
    at_top = t.at_top;
    mids = λ x h c. t.mids x h (sym (child-root x) ∙ c);
    leaves = λ x h y l c d.
        let c' = sym (child-root x) ∙ c in t.leaves x h y l c' (sym (child-mid x h y c') ∙ d);
    owned = t.owned;
  }

  -- The written entry is what is found at its page.
  pub bits_at-write_entry_self :
      bits_at after root i j k ≡ (if is_valid bits then some bits else none)
  bits_at-write_entry_self =
      bits_at_via after root i j k f g (child-root i ∙ up) (child-mid i f j up ∙ down)
      ∙ rw (==_refl g, ==_refl k) refl

  leaf_same : (l z : ℕ) → (l ≢ g) ⊎ (z ≢ k) → bits_leaf after l z ≡ bits_leaf m l z
  leaf_same l z ne = ground arith

  -- Every other page keeps its entry.
  pub bits_at-write_entry_ne :
      (x y z : ℕ) → (x ≢ i) ⊎ (y ≢ j) ⊎ (z ≢ k) → bits_at after root x y z ≡ bits_at m root x y z
  bits_at-write_entry_ne x y z ne = elim (Option-cases (child m root x)) [
    | inl no_mid ↦
        bits_at_no_mid after root x y z (child-root x ∙ no_mid)
        ∙ sym (bits_at_no_mid m root x y z no_mid)
    | inr (h, up') ↦
        let up_after : child after root x ≡ some h = child-root x ∙ up' in
        elim (Option-cases (child m h y)) [
          | inl no_leaf ↦
              bits_at_no_leaf after root x y z h up_after (child-mid x h y up' ∙ no_leaf)
              ∙ sym (bits_at_no_leaf m root x y z h up' no_leaf)
          | inr (l, down') ↦
              bits_at_via after root x y z h l up_after (child-mid x h y up' ∙ down')
              ∙ leaf_same l z (apart l (t.leaves x h y l up' down'))
              ∙ sym (bits_at_via m root x y z h l up' down')
        ]
  ]
    where
      apart : (l : ℕ) → place l ≡ leaf x y → (l ≢ g) ⊎ (z ≢ k)
      apart l at = elim (ℕ_discrete l g) [
        | no other ↦ inl other
        | yes same ↦ inr (other_index (sym at ∙ ap place same ∙ t.leaves i f j g up down) ne)
      ]
        where
          other_index : leaf x y ≡ leaf i j → (x ≢ i) ⊎ (y ≢ j) ⊎ (z ≢ k) → z ≢ k
          other_index e (inl ne_x) = absurd (ne_x (cc))
          other_index e (inr (inl ne_y)) = absurd (ne_y (cc))
          other_index e (inr (inr ne_z)) = ne_z
