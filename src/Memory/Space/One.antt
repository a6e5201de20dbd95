-- ===== src/Memory/Space/One.antt =====
-- Mapping one page of a framed area.
use neuclear.Base.{
  ℕ, suc, ◌+◌, ◌^◌, ◌<◌, ◌≤◌, ◌≡◌, ◌≢◌, refl, sym, ◌∙◌, ap, inl, inr, Bool, true, false, [], ◌∷◌,
  Option, none, some, arith, ◌==◌, ==_refl, Bool-cases, set_bit,
}
use neuclear.Base.Outcome.{ok}
use neuclear.Memory.Frames.{Buddy, Memory, FrameTracker, Machine, begin_frame}
use neuclear.Memory.PageTable.{State, pte_new, flag_v}
use neuclear.Memory.PageTable.Descend.{IsTable, Spared, Spared-trans, also-true}
use neuclear.Memory.PageTable.Fresh.{Took, zeroed, frame_alloc-Took, zeroed-IsTree, bits_at-zeroed}
use neuclear.Memory.PageTable.Map.{entry_of, entry_of-entry_at, map-Maps}
use neuclear.Memory.PageTable.Pool.{BuddyLaws, held_frames, held-IsTree}
use neuclear.Memory.PageTable.Tree.{Place, elsewhere}
use neuclear.Memory.Space.{Frames, MapArea, framed, remove_frame, with_frame, map_one}

-- No frame is kept for page `vpn` or a later one.
abbrev pub NoneFrom : ℕ → Frames → Type 0
NoneFrom vpn frames = (v : ℕ) → vpn ≤ v → (remove_frame v frames).0 ≡ none

remove_frame-absent :
    (vpn : ℕ) (frames : Frames)
    → (remove_frame vpn frames).0 ≡ none
    → (remove_frame vpn frames).1 ≡ frames
unfolding remove_frame
remove_frame-absent vpn [] e = refl
remove_frame-absent vpn ((key, frame) ∷ rest) e = elim (Bool-cases (key == vpn)) [
  | inl same ↦ absurd (found same e)
  | inr other ↦ rw (other, remove_frame-absent vpn rest (later other e)) refl
]
  where
    found : (key == vpn) ≡ true → (remove_frame vpn ((key, frame) ∷ rest)).0 ≢ none
    found same e = ground arith

    later :
        (key == vpn) ≡ false
        → (remove_frame vpn ((key, frame) ∷ rest)).0 ≡ none
        → (remove_frame vpn rest).0 ≡ none
    later other e = ground arith

pub NoneFrom-with_frame :
    (vpn : ℕ) (frame : FrameTracker) (frames : Frames)
    → NoneFrom vpn frames
    → NoneFrom (suc vpn) ((vpn, frame) ∷ (remove_frame vpn frames).1)
unfolding remove_frame
NoneFrom-with_frame vpn frame frames h v l =
    let other : (vpn == v) ≡ false = ground arith in
    rw (other, remove_frame-absent vpn frames (h vpn (omega arith))) (h v (omega arith))

module _ (buddy : Buddy) (laws : BuddyLaws buddy) (ekernel : ℕ)
    (room : laws.capacity + begin_frame buddy ekernel < 2 ^ 44) where
  abbrev pub entry : State buddy ekernel → ℕ → Option ℕ
  entry = entry_of buddy laws ekernel room

  -- The frame is out of the pool.
  abbrev pub held : State buddy ekernel → ℕ → Bool
  held s = held_frames buddy laws ekernel room s.machine.pool

  -- The frame of one page, and the page mapped to it.
  pub record One (s : State buddy ekernel) (vpn perm n : ℕ) (s' : State buddy ekernel)
      : Type 0 where
    pub here : entry s' vpn ≡ some (pte_new n (set_bit perm flag_v true))
    pub others : (v : ℕ) → v < 2 ^ 27 → v ≢ vpn → entry s' v ≡ entry s v
    pub fresh : held s n ≡ false
    pub now : held s' n ≡ true
    pub out : (f : ℕ) → held s f ≡ true → held s' f ≡ true
    pub left : laws.left s.machine.pool ≤ 3 + laws.left s'.machine.pool
    pub small : n < 2 ^ 44

  abbrev pub tracker : ℕ → FrameTracker
  tracker n = record { ppn = n; num = 1 }

  pub Took-entry :
      (s : State buddy ekernel) (place : ℕ → Place) (n : ℕ) (m : Machine buddy ekernel)
      → IsTable buddy laws ekernel room s place
      → Took buddy laws ekernel room s.machine n m
      → (v : ℕ) → entry (record s { machine = m }) v ≡ entry s v
  Took-entry s place n m t took v =
      entry_of-entry_at buddy laws ekernel room (record s { machine = m }) v
      ∙ rw took.memory (
          bits_at-zeroed s.machine.memory s.table.root_ppn (held s) place t.tree n took.fresh _ _ _)
      ∙ sym (entry_of-entry_at buddy laws ekernel room s v)

  pub Took-IsTable :
      (s : State buddy ekernel) (place : ℕ → Place) (n : ℕ) (m : Machine buddy ekernel)
      → IsTable buddy laws ekernel room s place
      → Took buddy laws ekernel room s.machine n m
      → IsTable buddy laws ekernel room (record s { machine = m }) place
  Took-IsTable s place n m t took = record {
    tree = rw took.memory (
        held-IsTree took.holds
          (zeroed-IsTree s.machine.memory s.table.root_ppn (held s) place t.tree n took.fresh));
  }

  Took-Spared :
      (s : State buddy ekernel) (place : ℕ → Place) (n : ℕ) (m : Machine buddy ekernel)
      → Took buddy laws ekernel room s.machine n m
      → Spared buddy laws ekernel room s place (record s { machine = m }) place
  Took-Spared s place n m took = record {
    same = λ f h e i.
        ap (λ (mem : Memory). mem f i) took.memory ∙ other f i (λ same. cc (h, took.fresh, same));
    still = λ f h e. e;
  }
    where
      other : (f i : ℕ) → f ≢ n → zeroed s.machine.memory n f i ≡ s.machine.memory f i
      other f i ne = ground arith

  fresh_elsewhere :
      (s : State buddy ekernel) (place : ℕ → Place) (n : ℕ)
      → IsTable buddy laws ekernel room s place
      → held s n ≡ false
      → place n ≡ elsewhere
  fresh_elsewhere s place n t fresh = elim (t.tree.owned n) [ inl e ↦ e | inr h ↦ cc (fresh, h) ]

  pub map_one-One :
      (s : State buddy ekernel) (place : ℕ → Place) (vpn : ℕ) (area : MapArea) (frames : Frames)
      → area.map_type ≡ framed frames
      → (remove_frame vpn frames).0 ≡ none
      → area.map_perm < 256
      → IsTable buddy laws ekernel room s place
      → 3 ≤ laws.left s.machine.pool
      → vpn < 2 ^ 27
      → entry s vpn ≡ none
      → (n : ℕ) × (s' : State buddy ekernel) × (place' : ℕ → Place) × (map_one buddy ekernel vpn
            area s
          ≡ ok (with_frame buddy ekernel area vpn (tracker n) frames, s'))
        × One s vpn area.map_perm n s'
        × IsTable buddy laws ekernel room s' place'
        × Spared buddy laws ekernel room s place s' place'
        × (place' n ≡ elsewhere)
  unfolding map_one
  map_one-One s place vpn area frames kind absent byte t room_left h unmapped =
      let (n, m, took) = frame_alloc-Took buddy laws ekernel room s.machine (omega arith) in
      let s1 = record s { machine = m } in
      let (s', place', mapped, here, _, others, t', left, out, spared) =
        map-Maps buddy laws ekernel room s1 place vpn n area.map_perm
          (Took-IsTable s place n m t took) (omega (arith, took.left)) h took.small byte
          (Took-entry s place n m t took vpn ∙ unmapped) in
      (
        n,
        s',
        place',
        rw (kind, took.result, absent, mapped) refl,
        record {
          here = here;
          others = λ v k ne. others v k ne ∙ Took-entry s place n m t took v;
          fresh = took.fresh;
          now = out n (sym (took.holds n) ∙ rw (==_refl n) refl);
          out = λ f e. out f (sym (took.holds f) ∙ also-true n (held s) f e);
          left = omega (arith, took.left, left);
          small = took.small;
        },
        t',
        Spared-trans buddy laws ekernel room s s1 s' place place place'
            (λ f e. sym (took.holds f) ∙ also-true n (held s) f e) (Took-Spared s place n m took)
            spared,
        spared.still n (sym (took.holds n) ∙ rw (==_refl n) refl)
            (fresh_elsewhere s place n t took.fresh),
      )
