-- ===== src/Memory/Space/Areas.antt =====
-- Mapping the pages of a framed area one after the other.
use neuclear.Base.{
  ℕ, zero, suc, ◌+◌, ◌*◌, ◌^◌, ◌<◌, ◌≤◌, ◌≡◌, ◌≢◌, refl, ◌∙◌, ◌⊎◌, inl, inr, true, false, ◌∷◌, none,
  some, arith, ◌==◌, ==_refl, Bool-cases, if◌then◌else◌, set_bit, ℕ_discrete,
}
use neuclear.Base.Outcome.{ok}
use neuclear.Memory.Frames.{Buddy, begin_frame}
use neuclear.Memory.PageTable.{State, pte_new, flag_v}
use neuclear.Memory.PageTable.Descend.{IsTable, Spared, Spared-refl, Spared-trans}
use neuclear.Memory.PageTable.Pool.{BuddyLaws}
use neuclear.Memory.PageTable.Tree.{Place, elsewhere}
use neuclear.Memory.Space.{Frames, MapArea, framed, remove_frame, with_frame, map_range}
use neuclear.Memory.Space.One.{
  NoneFrom, NoneFrom-with_frame, entry, held, One, tracker, map_one-One,
}

module _ (buddy : Buddy) (laws : BuddyLaws buddy) (ekernel : ℕ)
    (room : laws.capacity + begin_frame buddy ekernel < 2 ^ 44) where
  -- Pages `vpn..vpn + count` were mapped, page `v` to frame `frame v`.
  pub record Filled (s : State buddy ekernel) (vpn count perm : ℕ) (s' : State buddy ekernel)
      (frame : ℕ → ℕ) : Type 0 where
    pub pages :
        (v : ℕ)
        → vpn ≤ v
        → v < vpn + count
        → entry buddy laws ekernel room s' v ≡ some (pte_new (frame v) (set_bit perm flag_v true))
    pub others :
        (v : ℕ)
        → v < 2 ^ 27
        → (v < vpn) ⊎ (vpn + count ≤ v)
        → entry buddy laws ekernel room s' v ≡ entry buddy laws ekernel room s v
    pub fresh :
        (v : ℕ) → vpn ≤ v → v < vpn + count → held buddy laws ekernel room s (frame v) ≡ false
    pub now : (v : ℕ) → vpn ≤ v → v < vpn + count → held buddy laws ekernel room s' (frame v) ≡ true
    pub apart : (v w : ℕ) → vpn ≤ v → v < w → w < vpn + count → frame v ≢ frame w
    pub out :
        (f : ℕ) → held buddy laws ekernel room s f ≡ true → held buddy laws ekernel room s' f ≡ true
    pub left : laws.left s.machine.pool ≤ 3 * count + laws.left s'.machine.pool
    pub small : (v : ℕ) → vpn ≤ v → v < vpn + count → frame v < 2 ^ 44

  -- The new data frames are outside of the tree, as is every frame that was so before, and those are
  -- unchanged.
  pub record Beside (s : State buddy ekernel) (place : ℕ → Place) (vpn count : ℕ)
      (s' : State buddy ekernel) (place' : ℕ → Place) (frame : ℕ → ℕ) : Type 0 where
    pub spared : Spared buddy laws ekernel room s place s' place'
    pub data_frames : (v : ℕ) → vpn ≤ v → v < vpn + count → place' (frame v) ≡ elsewhere

  abbrev then_frames : ℕ → ℕ → (ℕ → ℕ) → ℕ → ℕ
  then_frames vpn n frame v = if v == vpn then n else frame v

  One-Filled :
      (s s1 s' : State buddy ekernel) (vpn count perm n : ℕ) (frame : ℕ → ℕ)
      → vpn < 2 ^ 27
      → One buddy laws ekernel room s vpn perm n s1
      → Filled s1 (suc vpn) count perm s' frame
      → Filled s vpn (suc count) perm s' (then_frames vpn n frame)
  One-Filled s s1 s' vpn count perm n frame h one rest = record {
    pages = λ v low high. elim (ℕ_discrete v vpn) [
      | yes e ↦ rw (e, ==_refl vpn) (rest.others vpn h (inl (omega arith)) ∙ one.here)
      | no ne ↦ rw (unequal v ne) (rest.pages v (omega arith) (omega arith))
    ];
    others = λ v k side. rest.others v k (omega arith) ∙ one.others v k (omega arith);
    fresh = λ v low high. elim (ℕ_discrete v vpn) [
      | yes e ↦ rw (e, ==_refl vpn) one.fresh
      | no ne ↦ rw (unequal v ne) (was_free (frame v) (rest.fresh v (omega arith) (omega arith)))
    ];
    now = λ v low high. elim (ℕ_discrete v vpn) [
      | yes e ↦ rw (e, ==_refl vpn) (rest.out n one.now)
      | no ne ↦ rw (unequal v ne) (rest.now v (omega arith) (omega arith))
    ];
    apart = λ v w low l high. elim (ℕ_discrete v vpn) [
      | yes e ↦
          rw (e, ==_refl vpn, unequal w (omega arith))
            (λ same. cc (rest.fresh w (omega arith) (omega arith), one.now))
      | no ne ↦
          rw (unequal v ne, unequal w (omega arith)) (rest.apart v w (omega arith) l (omega arith))
    ];
    out = λ f e. rest.out f (one.out f e);
    left = omega (arith, one.left, rest.left);
    small = λ v low high. elim (ℕ_discrete v vpn) [
      | yes e ↦ rw (e, ==_refl vpn) one.small
      | no ne ↦ rw (unequal v ne) (rest.small v (omega arith) (omega arith))
    ];
  }
    where
      unequal : (v : ℕ) → v ≢ vpn → (v == vpn) ≡ false
      unequal v ne = ground arith

      was_free :
          (f : ℕ)
          → held buddy laws ekernel room s1 f ≡ false
          → held buddy laws ekernel room s f ≡ false
      was_free f e = elim (Bool-cases (held buddy laws ekernel room s f)) [
        | inl yes_held ↦ cc (e, one.out f yes_held)
        | inr free ↦ free
      ]

  One-Beside :
      (s s1 s' : State buddy ekernel) (place place1 place' : ℕ → Place) (vpn count perm n : ℕ)
      (frame : ℕ → ℕ)
      → One buddy laws ekernel room s vpn perm n s1
      → Spared buddy laws ekernel room s place s1 place1
      → place1 n ≡ elsewhere
      → Beside s1 place1 (suc vpn) count s' place' frame
      → Beside s place vpn (suc count) s' place' (then_frames vpn n frame)
  One-Beside s s1 s' place place1 place' vpn count perm n frame one spared outside rest = record {
    spared =
        Spared-trans buddy laws ekernel room s s1 s' place place1 place' one.out spared rest.spared;
    data_frames = λ v low high. elim (ℕ_discrete v vpn) [
      | yes e ↦ rw (e, ==_refl vpn) (rest.spared.still n one.now outside)
      | no ne ↦ rw (unequal v ne) (rest.data_frames v (omega arith) (omega arith))
    ];
  }
    where
      unequal : (v : ℕ) → v ≢ vpn → (v == vpn) ≡ false
      unequal v ne = ground arith

  pub map_range-Filled :
      (count : ℕ) (s : State buddy ekernel) (place : ℕ → Place) (vpn : ℕ) (area : MapArea)
      (frames : Frames)
      → area.map_type ≡ framed frames
      → NoneFrom vpn frames
      → area.map_perm < 256
      → IsTable buddy laws ekernel room s place
      → 3 * count ≤ laws.left s.machine.pool
      → vpn + count ≤ 2 ^ 27
      → ((v : ℕ) → vpn ≤ v → v < vpn + count → entry buddy laws ekernel room s v ≡ none)
      → (area' : MapArea) × (s' : State buddy ekernel) × (place' : ℕ → Place) × (frame : ℕ → ℕ)
        × (map_range buddy ekernel count vpn area s ≡ ok (area', s'))
        × Filled s vpn count area.map_perm s' frame
        × IsTable buddy laws ekernel room s' place'
        × (area'.start ≡ area.start)
        × (area'.end ≡ area.end)
        × Beside s place vpn count s' place' frame
  unfolding map_range
  map_range-Filled zero s place vpn area frames kind absent byte t room_left h unmapped = (
    area,
    s,
    place,
    (λ v. v),
    refl,
    record {
      pages = λ v low high. absurd (omega arith);
      others = λ v k side. refl;
      fresh = λ v low high. absurd (omega arith);
      now = λ v low high. absurd (omega arith);
      apart = λ v w low l high. absurd (omega arith);
      out = λ f e. e;
      left = omega arith;
      small = λ v low high. absurd (omega arith);
    },
    t,
    refl,
    refl,
    record {
      spared = Spared-refl buddy laws ekernel room s place;
      data_frames = λ v low high. absurd (omega arith);
    },
  )
  map_range-Filled (suc count) s place vpn area frames kind absent byte t room_left h unmapped =
      let (n, s1, place1, first, one, t1, spared, outside) =
        map_one-One buddy laws ekernel room s place vpn area frames kind (absent vpn (omega arith))
          byte t (omega arith) (omega arith) (unmapped vpn (omega arith) (omega arith)) in
      let area1 = with_frame buddy ekernel area vpn (tracker buddy laws ekernel room n) frames in
      let (area', s', place', frame, rest, filled, t', starts, ends, beside) =
        map_range-Filled count s1 place1 (suc vpn) area1
          ((vpn, tracker buddy laws ekernel room n) ∷ (remove_frame vpn frames).1) refl
          (NoneFrom-with_frame vpn (tracker buddy laws ekernel room n) frames absent) byte t1
          (omega (arith, one.left)) (omega arith)
          (λ v low high.
            one.others v (omega arith) (omega arith) ∙ unmapped v (omega arith) (omega arith)) in
      (
        area',
        s',
        place',
        then_frames vpn n frame,
        rw (first, rest) refl,
        One-Filled s s1 s' vpn count area.map_perm n frame (omega arith) one filled,
        t',
        starts,
        ends,
        One-Beside s s1 s' place place1 place' vpn count area.map_perm n frame one spared outside
            beside,
      )
