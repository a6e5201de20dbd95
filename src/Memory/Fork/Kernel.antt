-- ===== src/Memory/Fork/Kernel.antt =====
-- The entries of the kernel's half of the root: a page of the user's half keeps its entry.
use neuclear.Base.{
  ℕ, ◌+◌, ◌^◌, ◌<◌, ◌≡◌, ◌≢◌, sym, ◌∙◌, ap, ◌⊎◌, inl, inr, Bool, some, none, arith, if◌then◌else◌,
  Option-cases,
}
use neuclear.Memory.Address.{indexes}
use neuclear.Memory.Frames.{Buddy, Memory, begin_frame}
use neuclear.Memory.PageTable.{PageTable, translate, pte_ppn, is_valid}
use neuclear.Memory.PageTable.Descend.{IsTable}
use neuclear.Memory.PageTable.Map.{entry_of, entry_of-entry_at, translate-entry_of}
use neuclear.Memory.PageTable.Pool.{BuddyLaws, held_frames}
use neuclear.Memory.PageTable.Tree.{
  child, bits_at, bits_at_via, bits_at_no_mid, bits_at_no_leaf, Place, IsTree,
}
use neuclear.Memory.Space.{MemorySet, map_kernel_areas}

-- The root of the table has new entries from 508 on.
abbrev pub SameBelow : Memory → Memory → ℕ → Type 0
SameBelow m m' root = (f i : ℕ) → (f ≢ root) ⊎ (i < 508) → m' f i ≡ m f i

child_same : (m m' : Memory) (f i : ℕ) → m' f i ≡ m f i → child m' f i ≡ child m f i
unfolding child
child_same m m' f i e = ap (λ bits. if is_valid bits then some (pte_ppn bits) else none) e

module _ (m m' : Memory) (root : ℕ) (held : ℕ → Bool) (place : ℕ → Place)
    (t : IsTree m root held place) (same : SameBelow m m' root) where
  user_bits : (x y z : ℕ) → x < 508 → bits_at m' root x y z ≡ bits_at m root x y z
  user_bits x y z h =
      let up = child_same m m' root x (same root x (inr h)) in
      elim (Option-cases (child m root x)) [
        | inl no_mid ↦
            bits_at_no_mid m' root x y z (up ∙ no_mid) ∙ sym (bits_at_no_mid m root x y z no_mid)
        | inr (f, c) ↦
            let down =
              child_same m m' f y (same f y (inl λ e. cc (t.mids x f c, t.at_top, ap place e))) in
            elim (Option-cases (child m f y)) [
              | inl no_leaf ↦
                  bits_at_no_leaf m' root x y z f (up ∙ c) (down ∙ no_leaf)
                  ∙ sym (bits_at_no_leaf m root x y z f c no_leaf)
              | inr (g, d) ↦
                  bits_at_via m' root x y z f g (up ∙ c) (down ∙ d)
                  ∙ ap (λ bits. if is_valid bits then some bits else none)
                      (same g z (inl λ e. cc (t.leaves x f y g c d, t.at_top, ap place e)))
                  ∙ sym (bits_at_via m root x y z f g c d)
            ]
      ]

first_index : (v : ℕ) → v < 2 ^ 26 → (indexes v).0 < 508
unfolding indexes
first_index v h = omega arith

module _ (buddy : Buddy) (laws : BuddyLaws buddy) (ekernel : ℕ)
    (room : laws.capacity + begin_frame buddy ekernel < 2 ^ 44) where
  pub map_kernel_areas-SameBelow :
      (kernel : PageTable) (ms : MemorySet buddy ekernel)
      → SameBelow ms.pages.machine.memory
          (map_kernel_areas buddy ekernel kernel ms).pages.machine.memory
          ms.pages.table.root_ppn
  unfolding map_kernel_areas
  map_kernel_areas-SameBelow kernel ms f i (inl ne) = ground arith
  map_kernel_areas-SameBelow kernel ms f i (inr h) = ground arith

  pub map_kernel_areas-translate :
      (kernel : PageTable) (ms : MemorySet buddy ekernel) (place : ℕ → Place) (v bits : ℕ)
      → IsTable buddy laws ekernel room ms.pages place
      → v < 2 ^ 26
      → entry_of buddy laws ekernel room ms.pages v ≡ some bits
      → let s = (map_kernel_areas buddy ekernel kernel ms).pages in
        translate s.table s.machine.memory v ≡ some (pte_ppn bits)
  unfolding map_kernel_areas
  map_kernel_areas-translate kernel ms place v bits t h e =
      let s = (map_kernel_areas buddy ekernel kernel ms).pages in
      translate-entry_of buddy laws ekernel room s v bits (
        entry_of-entry_at buddy laws ekernel room s v
        ∙ user_bits ms.pages.machine.memory s.machine.memory ms.pages.table.root_ppn
            (held_frames buddy laws ekernel room ms.pages.machine.pool) place t.tree
            (map_kernel_areas-SameBelow kernel ms) _ _ _ (first_index v h)
        ∙ sym (entry_of-entry_at buddy laws ekernel room ms.pages v)
        ∙ e)
