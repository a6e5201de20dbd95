-- ===== src/Memory/Space/Gaps.antt =====
-- The gap that `try_map` looks for.
use neuclear.Base.{
  ℕ, suc, ◌+◌, ◌/◌, ◌<◌, ◌≤◌, ◌≡◌, ◌⊎◌, inl, inr, ◌&&◌, List, [], ◌∷◌, some, arith, add64, ltb, leb,
  Bool-cases,
}
use neuclear.Config.{low_end, page_size}
use neuclear.Memory.Space.{MapArea, find_gap, insert_area}

abbrev pub low_pages : ℕ
low_pages = low_end / page_size

-- The gap `start..start + len` and the area have no page in common.
abbrev pub Apart : ℕ → ℕ → MapArea → Type 0
Apart start len a = (start + len ≤ a.start) ⊎ (a.end ≤ start)

abbrev pub AllApart : ℕ → ℕ → List MapArea → Type 0
AllApart start len [] = Unit
AllApart start len (a ∷ areas) = Apart start len a × AllApart start len areas

-- Every area is in order and begins at page `from` or later, with a page between it and the next.
abbrev pub Spread : ℕ → List MapArea → Type 0
Spread from [] = Unit
Spread from (a ∷ areas) =
    (from ≤ a.start) × (a.start ≤ a.end) × (a.end ≤ low_pages) × Spread (suc a.end) areas

-- No area holds page `start`, or begins there.
abbrev pub NotAt : ℕ → List MapArea → Type 0
NotAt start [] = Unit
NotAt start (a ∷ areas) =
    (((a.end ≤ start) × (a.start < start)) ⊎ (start < a.start)) × NotAt start areas

-- How one area of the list decides.
gap_cases :
    (len start gap : ℕ) (a : MapArea) (areas : List MapArea)
    → start ≤ low_pages
    → len ≤ low_pages
    → find_gap len start (a ∷ areas) ≡ some gap
    → ((gap ≡ start) × (start < a.start) × (start + len ≤ a.start) × (start + len ≤ low_pages))
      ⊎ ((start < a.start) × (find_gap len a.end areas ≡ some gap))
      ⊎ (((a.start ≤ start) ⊎ (low_pages < start + len)) × (find_gap len start areas ≡ some gap))
unfolding find_gap
gap_cases len start gap a areas h k e =
    let no_wrap : add64 start len ≡ start + len = omega arith in
    elim (Bool-cases (ltb start a.start && leb (add64 start len) low_pages)) [
      | inl both ↦ elim (Bool-cases (leb (add64 start len) a.start)) [
        | inl fits ↦ inl (ground arith)
        | inr full ↦ inr (inl (ground arith))
      ]
      | inr skip ↦ inr (inr (ground arith))
    ]

gap_low :
    (len start gap : ℕ) (areas : List MapArea) (from : ℕ)
    → start ≤ low_pages
    → len ≤ low_pages
    → Spread from areas
    → find_gap len start areas ≡ some gap
    → (start ≤ gap) × (gap + len ≤ low_pages)
unfolding find_gap
gap_low len start gap [] from h k spread e = cc e
gap_low len start gap (a ∷ areas) from h k (_, le, top, spread) e =
    elim (gap_cases len start gap a areas h k e) [
      | inl (same, _, _, fits) ↦ (omega (arith, same), omega (arith, same, fits))
      | inr (inl (below, later)) ↦
          let (low, fits) = gap_low len a.end gap areas (suc a.end) top k spread later in
          (omega (arith, below, low, le), fits)
      | inr (inr (_, later)) ↦ gap_low len start gap areas (suc a.end) h k spread later
    ]

before_all :
    (start len from : ℕ) (areas : List MapArea)
    → Spread from areas
    → start + len ≤ from
    → AllApart start len areas
before_all start len from [] spread h = tt
before_all start len from (a ∷ areas) (low, le, _, spread) h =
    (inl (omega arith), before_all start len (suc a.end) areas spread (omega arith))

not_at :
    (start from : ℕ) (areas : List MapArea) → Spread from areas → start < from → NotAt start areas
not_at start from [] spread h = tt
not_at start from (a ∷ areas) (low, le, _, spread) h =
    (inr (omega arith), not_at start (suc a.end) areas spread (omega arith))

-- The gap of `try_map` lies below 256 GiB and has no page in common with any area, if no two areas
-- touch, none ends above 256 GiB, and none holds the first page of the search or begins there.
pub find_gap-Apart :
    (len start gap : ℕ) (areas : List MapArea) (from : ℕ)
    → start ≤ low_pages
    → len ≤ low_pages
    → Spread from areas
    → NotAt start areas
    → find_gap len start areas ≡ some gap
    → AllApart gap len areas × (start ≤ gap) × (gap + len ≤ low_pages)
unfolding find_gap
find_gap-Apart len start gap [] from h k spread free e = cc e
find_gap-Apart len start gap (a ∷ areas) from h k (low, le, top, spread) (free, rest) e =
    let bounds = gap_low len start gap (a ∷ areas) from h k (low, le, top, spread) e in
    elim (gap_cases len start gap a areas h k e) [
      | inl (same, _, before, _) ↦ (
        (
          inl (omega (arith, same, before)),
          before_all gap len (suc a.end) areas spread (omega (arith, same, before, le)),
        ),
        bounds.0,
        bounds.1,
      )
      | inr (inl (_, later)) ↦
          let (apart, above, _) =
            find_gap-Apart len a.end gap areas (suc a.end) top k spread
              (not_at a.end (suc a.end) areas spread (omega arith)) later in
          ((inr above, apart), bounds.0, bounds.1)
      | inr (inr (side, later)) ↦
          let (apart, above, fits) =
            find_gap-Apart len start gap areas (suc a.end) h k spread rest later in
          ((beside side above fits free, apart), bounds.0, bounds.1)
    ]
  where
    beside :
        (a.start ≤ start) ⊎ (low_pages < start + len)
        → start ≤ gap
        → gap + len ≤ low_pages
        → ((a.end ≤ start) × (a.start < start)) ⊎ (start < a.start)
        → Apart gap len a
    beside side above fits (inl (ends, _)) = inr (omega arith)
    beside (inl begins) above fits (inr after) = absurd (omega arith)
    beside (inr beyond) above fits (inr after) = absurd (omega arith)

again_skip :
    (len start : ℕ) (a : MapArea) (areas : List MapArea)
    → a.start ≤ start
    → find_gap len start (a ∷ areas) ≡ find_gap len start areas
unfolding find_gap
again_skip len start a areas h = ground arith

again_here :
    (len start : ℕ) (a : MapArea) (areas : List MapArea)
    → start < a.start
    → start + len ≤ a.start
    → start + len ≤ low_pages
    → find_gap len start (a ∷ areas) ≡ some start
unfolding find_gap
again_here len start a areas h k l =
    let no_wrap : add64 start len ≡ start + len = omega arith in ground arith

-- After a mapping at the first page of the search, the search for no more pages than that finds the
-- same gap again, which is now taken, if no area began there before.
pub find_gap-insert_area :
    (len again start : ℕ) (area : MapArea) (areas : List MapArea) (from : ℕ)
    → start ≤ low_pages
    → len ≤ low_pages
    → again ≤ len
    → Spread from areas
    → NotAt start areas
    → area.start ≡ start
    → find_gap len start areas ≡ some start
    → find_gap again start (insert_area area areas).1 ≡ some start
unfolding find_gap insert_area
find_gap-insert_area len again start area [] from h k l spread free at e = cc e
find_gap-insert_area len again start area (a ∷ areas) from h k l (low, le, top, spread) (free, rest)
      at e =
    elim (gap_cases len start start a areas h k e) [
      | inl (_, below, before, fits) ↦
          rw (inserted_here below, again_skip again start area (a ∷ areas) (omega (arith, at)))
            (again_here again start a areas below (omega arith) (omega arith))
      | inr (inl (below, later)) ↦ absurd (
          omega
            (arith, below, le, (gap_low len a.end start areas (suc a.end) top k spread later).0))
      | inr (inr (inl begins, later)) ↦
          rw (inserted_later begins, again_skip again start a (insert_area area areas).1 begins)
            (find_gap-insert_area len again start area areas (suc a.end) h k l spread rest at later)
      | inr (inr (inr beyond, later)) ↦
          absurd
            (omega (arith, beyond, (gap_low len start start areas (suc a.end) h k spread later).1))
    ]
  where
    inserted_here : start < a.start → (insert_area area (a ∷ areas)).1 ≡ area ∷ a ∷ areas
    inserted_here below = ground (arith, at)

    inserted_later :
        a.start ≤ start → (insert_area area (a ∷ areas)).1 ≡ a ∷ (insert_area area areas).1
    inserted_later begins = ground (arith, at, free)
