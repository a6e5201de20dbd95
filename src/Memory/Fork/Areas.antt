-- ===== src/Memory/Fork/Areas.antt =====
-- Copying the areas one after the other.
use neuclear.Base.{
  ℕ, ◌+◌, ◌*◌, ◌-◌, ◌^◌, ◌<◌, ◌≤◌, ◌≡◌, refl, ◌∙◌, ◌⊎◌, inl, inr, Bool, List, [], ◌∷◌, none, arith,
  Bool-cases, ltb, ◌==◌,
}
use neuclear.Base.Outcome.{ok}
use neuclear.Memory.Fork.{cloned_type, from_another, copy_range, copy_areas}
use neuclear.Memory.Fork.Copying.{with_memory, Source, copy_range-CopiedRange}
use neuclear.Memory.Fork.Step.{Copies, Or, joined, target₁, same₁, next-Copies}
use neuclear.Memory.Frames.{Buddy, Memory, begin_frame}
use neuclear.Memory.PageTable.{PageTable, State}
use neuclear.Memory.PageTable.Pool.{BuddyLaws}
use neuclear.Memory.PageTable.Tree.{Place}
use neuclear.Memory.Space.{
  Frames, MapArea, MemorySet, framed, push, insert_framed_area, insert_area, remove_area,
}
use neuclear.Memory.Space.Insert.{insert_framed_area-Filled, push_framed}

-- Page `v` is in one of the areas.
abbrev pub InAreas : List MapArea → ℕ → Type 0
InAreas [] v = ⊥
InAreas (a ∷ areas) v = ((a.start ≤ v) × (v < a.end)) ⊎ InAreas areas v

-- Framed areas with pages between `low` and the end of the user's half, in order and apart.
abbrev pub Ordered : ℕ → List MapArea → Type 0
Ordered low [] = Unit
Ordered low (a ∷ areas) =
    ((frames : Frames) × (a.map_type ≡ framed frames))
    × (low ≤ a.start)
    × (a.start < a.end)
    × (a.end ≤ 2 ^ 26)
    × (a.map_perm < 256)
    × Ordered a.end areas

-- How many pages the areas have.
abbrev pub page_count : List MapArea → ℕ
page_count [] = 0
page_count (a ∷ areas) = (a.end - a.start) + page_count areas

pub InAreas-low :
    (low : ℕ) (areas : List MapArea) (v : ℕ) → Ordered low areas → InAreas areas v → v < 2 ^ 26
InAreas-low low [] v ordered h = absurd h
InAreas-low low (a ∷ areas) v (_, _, _, top, _, _) (inl (_, high)) = omega arith
InAreas-low low (a ∷ areas) v (_, _, _, _, _, ordered) (inr h) = InAreas-low a.end areas v ordered h

abbrev pub AllBelow : ℕ → List MapArea → Type 0
AllBelow low [] = Unit
AllBelow low (a ∷ areas) = (a.start < low) × AllBelow low areas

remove_area-AllBelow :
    (low start : ℕ) (areas : List MapArea)
    → low ≤ start
    → AllBelow low areas
    → (remove_area start areas).0 ≡ none
unfolding remove_area
remove_area-AllBelow low start [] le b = refl
remove_area-AllBelow low start (a ∷ areas) le (h, b) =
    let rest = remove_area-AllBelow low start areas le b in ground arith

insert_area-AllBelow :
    (low low' : ℕ) (area : MapArea) (areas : List MapArea)
    → area.start < low'
    → low ≤ low'
    → AllBelow low areas
    → AllBelow low' (insert_area area areas).1
unfolding insert_area
insert_area-AllBelow low low' area [] h le b = (h, tt)
insert_area-AllBelow low low' area (a ∷ areas) h le (h', b) =
    let wider = widen areas b in
    let rest = insert_area-AllBelow low low' area areas h le b in
    elim (Bool-cases (ltb area.start a.start)) [
      | inl before ↦ rw (before) (h, (omega arith, wider))
      | inr behind ↦ elim (Bool-cases (a.start == area.start)) [
        | inl same ↦ rw (behind, same) (h, wider)
        | inr other ↦ rw (behind, other) (omega arith, rest)
      ]
    ]
  where
    widen : (others : List MapArea) → AllBelow low others → AllBelow low' others
    widen [] c = tt
    widen (o ∷ others) (k, c) = (omega arith, widen others c)

module _ (buddy : Buddy) (laws : BuddyLaws buddy) (ekernel : ℕ)
    (room : laws.capacity + begin_frame buddy ekernel < 2 ^ 44) (m₀ : Memory) (old : ℕ → Bool)
    (src : ℕ → ℕ) where
  Copies-of :
      (s : State buddy ekernel) (place : ℕ → Place) (Done Pages : ℕ → Type 0) (low : ℕ)
      (frame : ℕ → ℕ)
      → ((v : ℕ) → Pages v → Done v)
      → Copies buddy laws ekernel room m₀ old src s place Done low frame
      → Copies buddy laws ekernel room m₀ old src s place Pages low frame
  Copies-of s place Done Pages low frame sub c = record {
    table = c.table;
    same = c.same;
    spare = c.spare;
    out = c.out;
    vacant = c.vacant;
    below = λ v p. c.below v (sub v p);
    pages = λ v p. c.pages v (sub v p);
    apart = λ v w p q l. c.apart v w (sub v p) (sub w q) l;
  }

  push_area :
      (a : MapArea) (frames : Frames) (ms : MemorySet buddy ekernel)
      → a.map_type ≡ framed frames
      → push buddy ekernel (from_another a) ms
        ≡ insert_framed_area buddy ekernel a.start a.end a.map_perm ms
  unfolding from_another cloned_type
  push_area a frames ms e = rw e (push_framed buddy laws ekernel room a ms)

  -- One area.
  area-Copies :
      (a : MapArea) (frames : Frames) (user : PageTable) (ms : MemorySet buddy ekernel)
      (place : ℕ → Place) (Done : ℕ → Type 0) (low : ℕ) (frame : ℕ → ℕ)
      → a.map_type ≡ framed frames
      → low ≤ a.start
      → a.start < a.end
      → a.end ≤ 2 ^ 26
      → a.map_perm < 256
      → Copies buddy laws ekernel room m₀ old src ms.pages place Done low frame
      → AllBelow low ms.areas
      → 3 * (a.end - a.start) ≤ laws.left ms.pages.machine.pool
      → ((v : ℕ) → a.start ≤ v → v < a.end → Source buddy laws ekernel room m₀ old user v (src v))
      → (ms₁ : MemorySet buddy ekernel) × (s : State buddy ekernel) × (place' : ℕ → Place)
        × (frame' : ℕ → ℕ) × (push buddy ekernel (from_another a) ms ≡ ok ms₁)
        × (copy_range buddy ekernel (a.end - a.start) a.start user ms₁.pages ≡ ok s)
        × Copies buddy laws ekernel room m₀ old src s place' (Or Done a.start a.end) a.end frame'
        × AllBelow a.end ms₁.areas
        × (laws.left ms.pages.machine.pool ≤ 3 * (a.end - a.start) + laws.left s.machine.pool)
  area-Copies a frames user ms place Done low frame kind le some_pages top byte c b room_left
        sources =
      let (area, ms₁, place₁, frame₁, result, filled, t, areas, starts, ends, beside) =
        insert_framed_area-Filled buddy laws ekernel room ms place a.start a.end a.map_perm
          (omega arith) (omega arith) byte c.table room_left
          (λ v low' high. c.vacant v (omega arith) (omega arith))
          (remove_area-AllBelow low a.start ms.areas le b) in
      let (m', copy, copied) =
        copy_range-CopiedRange buddy laws ekernel room m₀ old (a.end - a.start) a.start user
          ms₁.pages place₁ src frame₁ t
          (same₁ buddy laws ekernel room m₀ old src ms.pages place Done low frame c a.start a.end
            a.map_perm le some_pages (omega arith) byte ms₁.pages place₁ frame₁ filled t beside)
          (λ v low' high. sources v low' (omega arith))
          (target₁ buddy laws ekernel room m₀ old src ms.pages place Done low frame c a.start a.end
            a.map_perm le some_pages (omega arith) byte ms₁.pages place₁ frame₁ filled t beside)
          filled.apart in
      (
        ms₁,
        with_memory buddy laws ekernel room ms₁.pages m',
        place₁,
        joined a.start frame frame₁,
        push_area a frames ms kind ∙ result,
        copy,
        next-Copies buddy laws ekernel room m₀ old src ms.pages place Done low frame c a.start a.end
            a.map_perm le some_pages (omega arith) byte ms₁.pages place₁ frame₁ filled t beside m'
            copied,
        rw areas
            (insert_area-AllBelow low a.end area ms.areas (omega (arith, starts)) (omega arith) b),
        filled.left,
      )

  pub copy_areas-Copies :
      (areas : List MapArea) (user : PageTable) (ms : MemorySet buddy ekernel) (place : ℕ → Place)
      (Done : ℕ → Type 0) (low : ℕ) (frame : ℕ → ℕ)
      → Ordered low areas
      → Copies buddy laws ekernel room m₀ old src ms.pages place Done low frame
      → AllBelow low ms.areas
      → 3 * page_count areas ≤ laws.left ms.pages.machine.pool
      → ((v : ℕ) → InAreas areas v → Source buddy laws ekernel room m₀ old user v (src v))
      → (ms' : MemorySet buddy ekernel) × (place' : ℕ → Place) × (low' : ℕ) × (frame' : ℕ → ℕ)
        × (copy_areas buddy ekernel areas user ms ≡ ok ms')
        × Copies buddy laws ekernel room m₀ old src ms'.pages place'
            (λ v. Done v ⊎ InAreas areas v)
            low'
            frame'
  unfolding copy_areas
  copy_areas-Copies [] user ms place Done low frame ordered c b room_left sources = (
    ms,
    place,
    low,
    frame,
    refl,
    Copies-of ms.pages place Done (λ v. Done v ⊎ InAreas [] v) low frame
        (λ v p. elim p [ inl d ↦ d | inr e ↦ absurd e ]) c,
  )
  copy_areas-Copies (a ∷ areas) user ms place Done low frame
        ((frames, kind), le, some_pages, top, byte, ordered) c b room_left sources =
      let (ms₁, s, place₁, frame₁, pushed, copied, c₁, b₁, left) =
        area-Copies a frames user ms place Done low frame kind le some_pages top byte c b
          (omega arith) (λ v low' high. sources v (inl (low', high))) in
      let (ms', place', low', frame', rest, c') =
        copy_areas-Copies areas user (record ms₁ { pages = s }) place₁ (Or Done a.start a.end) a.end
          frame₁ ordered c₁ b₁ (omega (arith, left)) (λ v p. sources v (inr p)) in
      (
        ms',
        place',
        low',
        frame',
        rw (pushed, copied) rest,
        Copies-of ms'.pages place' (λ v. Or Done a.start a.end v ⊎ InAreas areas v)
            (λ v. Done v ⊎ InAreas (a ∷ areas) v) low' frame'
            (λ v p. elim p [
              | inl d ↦ inl (inl d)
              | inr (inl h) ↦ inl (inr h)
              | inr (inr q) ↦ inr q
            ])
            c',
      )
