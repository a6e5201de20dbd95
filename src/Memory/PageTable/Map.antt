-- ===== src/Memory/PageTable/Map.antt =====
-- Mapping and unmapping a page of a table in memory.
use neuclear.Base.{
  ℕ, ◌+◌, ◌^◌, ◌<◌, ◌≤◌, ◌≡◌, ◌≢◌, refl, sym, ◌∙◌, ap, ◌⊎◌, inl, inr, true, false, Option, none,
  some, arith, Bool-cases, if◌then◌else◌, set_bit, ℕ_discrete,
}
use neuclear.Base.Outcome.{ok, panic}
use neuclear.Memory.Address.{indexes}
use neuclear.Memory.Address.Pages.{indexes_lem}
use neuclear.Memory.Frames.{Buddy, begin_frame}
use neuclear.Memory.PageTable.{
  State, entry, find_pte, translate, put_entry, map, unmap, is_valid, pte_new, pte_ppn, flag_v,
  find_pte_create,
}
use neuclear.Memory.PageTable.Entry.{pte_new-fields, is_valid-zero, set_valid}
use neuclear.Memory.PageTable.Pool.{BuddyLaws, held_frames}
use neuclear.Memory.PageTable.Descend.{
  IsTable, Kept, Spared, Spared-trans, entry_at, below, find_pte_create_lem,
}
use neuclear.Memory.PageTable.Tree.{
  bits_at_via, entry-slot_at, Place, write_entry-IsTree, bits_at-write_entry_self,
  bits_at-write_entry_ne,
}

indexes_apart :
    (vpn other : ℕ)
    → vpn < 2 ^ 27
    → other < 2 ^ 27
    → other ≢ vpn
    → let (i, j, k) = indexes vpn in let (x, y, z) = indexes other in (x ≢ i) ⊎ (y ≢ j) ⊎ (z ≢ k)
indexes_apart vpn other h h' ne =
    let e = (indexes_lem vpn h).0 in
    let e' = (indexes_lem other h').0 in
    let (i, j, k) = indexes vpn in
    let (x, y, z) = indexes other in
    elim (ℕ_discrete x i) [
      | no a ↦ inl a
      | yes a ↦ elim (ℕ_discrete y j) [
        | no b ↦ inr (inl b)
        | yes b ↦ inr (inr λ c. ne (omega (arith, e, e', a, b, c)))
      ]
    ]

-- The frame of a page, from its entry.
pub translated : Option ℕ → Option ℕ
translated none = none
translated (some bits) = some (pte_ppn bits)

module _ (buddy : Buddy) (laws : BuddyLaws buddy) (ekernel : ℕ)
    (room : laws.capacity + begin_frame buddy ekernel < 2 ^ 44) where
  -- The valid entry that the walk finds for a page.
  abbrev pub entry_of : State buddy ekernel → ℕ → Option ℕ
  entry_of s vpn = elim (find_pte s.table s.machine.memory vpn) [
    | none ↦ none
    | some slot ↦ some (entry s.machine.memory slot)
  ]

  pub entry_of-entry_at :
      (s : State buddy ekernel) (vpn : ℕ)
      → let (i, j, k) = indexes vpn in entry_of s vpn ≡ entry_at buddy laws ekernel room s i j k
  entry_of-entry_at s vpn = entry-slot_at s.table s.machine.memory vpn

  pub translate-entry_of :
      (s : State buddy ekernel) (vpn bits : ℕ)
      → entry_of s vpn ≡ some bits
      → translate s.table s.machine.memory vpn ≡ some (pte_ppn bits)
  unfolding translate
  translate-entry_of s vpn bits e = ground arith

  pub translate-translated :
      (s : State buddy ekernel) (vpn : ℕ)
      → translate s.table s.machine.memory vpn ≡ translated (entry_of s vpn)
  unfolding translate translated
  translate-translated s vpn = ground arith

  -- The walk to the slot of a page.
  record Walk (s : State buddy ekernel) (vpn f g : ℕ) (s1 : State buddy ekernel) (place : ℕ → Place)
      : Type 0 where
    result : find_pte_create buddy ekernel vpn s ≡ ok ((g, (indexes vpn).2), s1)
    table : IsTable buddy laws ekernel room s1 place
    up : below buddy laws ekernel room s1 s1.table.root_ppn (indexes vpn).0 ≡ some f
    down : below buddy laws ekernel room s1 f (indexes vpn).1 ≡ some g
    kept : Kept buddy laws ekernel room s s1 2

  walk :
      (s : State buddy ekernel) (place : ℕ → Place) (vpn : ℕ)
      → IsTable buddy laws ekernel room s place
      → 2 ≤ laws.left s.machine.pool
      → (f g : ℕ) × (s1 : State buddy ekernel) × (place' : ℕ → Place) × Walk s vpn f g s1 place'
        × Spared buddy laws ekernel room s place s1 place'
  walk s place vpn t h =
      let (f, g, s1, place', result, table, up, down, kept, spared) =
        find_pte_create_lem buddy laws ekernel room s place vpn t h in
      (
        f,
        g,
        s1,
        place',
        record { result = result; table = table; up = up; down = down; kept = kept },
        spared,
      )

  -- One entry is written: page `vpn` has it, all others and the shape are as they were.
  record Wrote (s : State buddy ekernel) (vpn bits : ℕ) (s' : State buddy ekernel)
      (place : ℕ → Place) : Type 0 where
    here : entry_of s' vpn ≡ (if is_valid bits then some bits else none)
    others : (other : ℕ) → other < 2 ^ 27 → other ≢ vpn → entry_of s' other ≡ entry_of s other
    table : IsTable buddy laws ekernel room s' place
    left : laws.left s.machine.pool ≤ 2 + laws.left s'.machine.pool
    out :
        (f : ℕ)
        → held_frames buddy laws ekernel room s.machine.pool f ≡ true
        → held_frames buddy laws ekernel room s'.machine.pool f ≡ true

  module _ (s : State buddy ekernel) (vpn f g : ℕ) (s1 : State buddy ekernel) (place : ℕ → Place)
      (w : Walk s vpn f g s1 place) where
    abbrev old_bits : ℕ
    old_bits = entry s1.machine.memory (g, (indexes vpn).2)

    walk_entry : entry_of s vpn ≡ (if is_valid old_bits then some old_bits else none)
    walk_entry =
        entry_of-entry_at s vpn
        ∙ sym (w.kept.entries _ _ _)
        ∙ bits_at_via s1.machine.memory s1.table.root_ppn _ _ _ f g w.up w.down

    walk_write :
        (bits : ℕ)
        → vpn < 2 ^ 27
        → Wrote s vpn bits (put_entry buddy ekernel (g, (indexes vpn).2) bits s1) place
    walk_write bits h =
        let m = s1.machine.memory in
        let root = s1.table.root_ppn in
        let held = held_frames buddy laws ekernel room s1.machine.pool in
        let (i, j, k) = indexes vpn in
        let s' = put_entry buddy ekernel (g, k) bits s1 in
        record {
          here =
              entry_of-entry_at s' vpn
              ∙ bits_at-write_entry_self m root held place w.table.tree i j f g w.up w.down k bits;
          others = λ other h' ne.
              entry_of-entry_at s' other
              ∙ bits_at-write_entry_ne m root held place w.table.tree i j f g w.up w.down k bits _ _
                  _ (indexes_apart vpn other h h' ne)
              ∙ w.kept.entries _ _ _
              ∙ sym (entry_of-entry_at s other);
          table = record {
            tree = write_entry-IsTree m root held place w.table.tree i j f g w.up w.down k bits;
          };
          left = w.kept.left;
          out = w.kept.out;
        }

  -- Writing an entry of a leaf table.
  leaf-Spared :
      (s s1 : State buddy ekernel) (vpn f g bits : ℕ) (place : ℕ → Place)
      → Walk s vpn f g s1 place
      → Spared buddy laws ekernel room s1 place
          (put_entry buddy ekernel (g, (indexes vpn).2) bits s1)
          place
  leaf-Spared s s1 vpn f g bits place w = record {
    same = λ h held e i.
        other h i (λ same. cc (sym e ∙ ap place same, w.table.tree.leaves _ f _ g w.up w.down));
    still = λ h held e. e;
  }
    where
      other :
          (h i : ℕ)
          → h ≢ g
          → (put_entry buddy ekernel (g, (indexes vpn).2) bits s1).machine.memory h i
            ≡ s1.machine.memory h i
      other h i ne = ground arith

  -- `map` of a page that has no valid entry succeeds while two frames are left, for the missing tables.
  -- The page then has the frame number and the flags with V; every other page keeps its entry; the
  -- table is still a tree of frames that are out of the pool, of which at most two are new; no frame
  -- went back; and every frame that was out of the pool and not in the tree is as it was, and still
  -- not in it.
  pub map-Maps :
      (s : State buddy ekernel) (place : ℕ → Place) (vpn ppn flags : ℕ)
      → IsTable buddy laws ekernel room s place
      → 2 ≤ laws.left s.machine.pool
      → vpn < 2 ^ 27
      → ppn < 2 ^ 44
      → flags < 256
      → entry_of s vpn ≡ none
      → (s' : State buddy ekernel) × (place' : ℕ → Place) × (map buddy ekernel vpn ppn flags s
          ≡ ok s')
        × (entry_of s' vpn ≡ some (pte_new ppn (set_bit flags flag_v true)))
        × (translate s'.table s'.machine.memory vpn ≡ some ppn)
        × ((other : ℕ) → other < 2 ^ 27 → other ≢ vpn → entry_of s' other ≡ entry_of s other)
        × IsTable buddy laws ekernel room s' place'
        × (laws.left s.machine.pool ≤ 2 + laws.left s'.machine.pool)
        × ((f : ℕ)
            → held_frames buddy laws ekernel room s.machine.pool f ≡ true
            → held_frames buddy laws ekernel room s'.machine.pool f ≡ true)
        × Spared buddy laws ekernel room s place s' place'
  unfolding map
  map-Maps s place vpn ppn flags t room_left h small byte absent =
      let (f, g, s1, place', w, spared) = walk s place vpn t room_left in
      let bits = pte_new ppn (set_bit flags flag_v true) in
      let s' = put_entry buddy ekernel (g, (indexes vpn).2) bits s1 in
      let wrote = walk_write s vpn f g s1 place' w bits h in
      let (set, byte') = set_valid flags byte in
      let (same_ppn, _, valid) = pte_new-fields ppn (set_bit flags flag_v true) small byte' in
      let free : is_valid (old_bits s vpn f g s1 place' w) ≡ false =
        not_some (old_bits s vpn f g s1 place' w)
          (sym (walk_entry s vpn f g s1 place' w) ∙ absent) in
      let found : entry_of s' vpn ≡ some bits = wrote.here ∙ rw (valid, set) refl in
      (
        s',
        place',
        rw (w.result, free) refl,
        found,
        translate-entry_of s' vpn bits found ∙ ap some same_ppn,
        wrote.others,
        wrote.table,
        wrote.left,
        wrote.out,
        Spared-trans buddy laws ekernel room s s1 s' place place' place' w.kept.out spared
            (leaf-Spared s s1 vpn f g bits place' w),
      )
    where
      not_some : (b : ℕ) → (if is_valid b then some b else none) ≡ none → is_valid b ≡ false
      not_some b e = ground arith

  -- `map` of a page that has a valid entry, and `unmap` of one that has none, panic.
  pub map-unmap-panic :
      (s : State buddy ekernel) (place : ℕ → Place) (vpn ppn flags : ℕ)
      → IsTable buddy laws ekernel room s place
      → 2 ≤ laws.left s.machine.pool
      → ((entry_of s vpn ≢ none) × (map buddy ekernel vpn ppn flags s ≡ panic))
        ⊎ ((entry_of s vpn ≡ none) × (unmap buddy ekernel vpn s ≡ panic))
  unfolding map unmap
  map-unmap-panic s place vpn ppn flags t h =
      let (f, g, s1, place', w, spared) = walk s place vpn t h in
      let at = walk_entry s vpn f g s1 place' w in
      elim (Bool-cases (is_valid (old_bits s vpn f g s1 place' w))) [
        | inl valid ↦
            inl (present (old_bits s vpn f g s1 place' w) valid at, rw (w.result, valid) refl)
        | inr not_valid ↦ inr (at ∙ rw not_valid refl, rw (w.result, not_valid) refl)
      ]
    where
      present :
          (b : ℕ)
          → is_valid b ≡ true
          → entry_of s vpn ≡ (if is_valid b then some b else none)
          → entry_of s vpn ≢ none
      present b valid e absent = ground arith

  -- `unmap` of a page that has a valid entry succeeds, while two frames are left: the page has none then,
  -- every other page keeps its entry, and the table is still a tree of frames that are out of the pool.
  pub unmap-Unmaps :
      (s : State buddy ekernel) (place : ℕ → Place) (vpn bits : ℕ)
      → IsTable buddy laws ekernel room s place
      → 2 ≤ laws.left s.machine.pool
      → vpn < 2 ^ 27
      → entry_of s vpn ≡ some bits
      → (s' : State buddy ekernel) × (place' : ℕ → Place) × (unmap buddy ekernel vpn s ≡ ok s')
        × (entry_of s' vpn ≡ none)
        × (translate s'.table s'.machine.memory vpn ≡ none)
        × ((other : ℕ) → other < 2 ^ 27 → other ≢ vpn → entry_of s' other ≡ entry_of s other)
        × IsTable buddy laws ekernel room s' place'
  unfolding unmap translate
  unmap-Unmaps s place vpn bits t room_left h present =
      let (f, g, s1, place', w, spared) = walk s place vpn t room_left in
      let s' = put_entry buddy ekernel (g, (indexes vpn).2) 0 s1 in
      let wrote = walk_write s vpn f g s1 place' w 0 h in
      let valid : is_valid (old_bits s vpn f g s1 place' w) ≡ true =
        was_some (old_bits s vpn f g s1 place' w)
          (sym (walk_entry s vpn f g s1 place' w) ∙ present) in
      let gone : entry_of s' vpn ≡ none = wrote.here ∙ rw is_valid-zero refl in
      (s', place', rw (w.result, valid) refl, gone, none_found s' gone, wrote.others, wrote.table)
    where
      was_some : (b : ℕ) → (if is_valid b then some b else none) ≡ some bits → is_valid b ≡ true
      was_some b e = ground arith

      none_found :
          (s : State buddy ekernel)
          → entry_of s vpn ≡ none
          → translate s.table s.machine.memory vpn ≡ none
      none_found s e = ground arith
