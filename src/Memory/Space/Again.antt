-- ===== src/Memory/Space/Again.antt =====
-- A second `try_map` behind a first one.
use neuclear.Base.{
  ℕ, zero, suc, ◌+◌, ◌*◌, ◌-◌, ◌/◌, ◌^◌, ◌<◌, ◌≤◌, ◌≡◌, ◌≢◌, refl, sym, ◌∙◌, ap, inl, inr, false,
  [], none, some, arith, add64, sub64,
}
use neuclear.Base.Outcome.{Outcome, ok, panic, ◌>>=◌}
use neuclear.Config.{mmap_start, page_size}
use neuclear.Memory.Address.{page_start}
use neuclear.Memory.Frames.{Buddy, begin_frame}
use neuclear.Memory.PageTable.{State}
use neuclear.Memory.PageTable.Descend.{IsTable}
use neuclear.Memory.PageTable.Fresh.{frame_alloc-Took}
use neuclear.Memory.PageTable.Map.{map-unmap-panic}
use neuclear.Memory.PageTable.Pool.{BuddyLaws}
use neuclear.Memory.PageTable.Tree.{Place}
use neuclear.Memory.Space.{
  MapArea, MemorySet, framed, remove_frame, remove_area, map_one, map_range, area_map, push,
  insert_framed_area, try_map, map_gap, find_gap,
}
use neuclear.Memory.Space.One.{entry, Took-entry, Took-IsTable}
use neuclear.Memory.Space.Insert.{insert_framed_area-Filled}
use neuclear.Memory.Space.Gaps.{Spread, NotAt, low_pages, find_gap-insert_area}

abbrev pub first_page : ℕ
first_page = mmap_start / page_size

module _ (buddy : Buddy) (laws : BuddyLaws buddy) (ekernel : ℕ)
    (room : laws.capacity + begin_frame buddy ekernel < 2 ^ 44) where
  map_one-panic :
      (s : State buddy ekernel) (place : ℕ → Place) (vpn : ℕ) (area : MapArea)
      → area.map_type ≡ framed []
      → IsTable buddy laws ekernel room s place
      → 3 ≤ laws.left s.machine.pool
      → entry buddy laws ekernel room s vpn ≢ none
      → map_one buddy ekernel vpn area s ≡ panic
  unfolding map_one remove_frame
  map_one-panic s place vpn area kind t room_left taken =
      let (n, m, took) = frame_alloc-Took buddy laws ekernel room s.machine (omega arith) in
      let s1 = record s { machine = m } in
      elim (map-unmap-panic buddy laws ekernel room s1 place vpn n area.map_perm
        (Took-IsTable buddy laws ekernel room s place n m t took) (omega (arith, took.left))) [
          | inl (_, fails) ↦ rw (kind, took.result, fails) refl
          | inr (absent, _) ↦
              absurd
                (taken (sym (Took-entry buddy laws ekernel room s place n m t took vpn) ∙ absent))
        ]

  insert_framed_area-panic :
      (ms : MemorySet buddy ekernel) (place : ℕ → Place) (start end perm : ℕ)
      → start < end
      → IsTable buddy laws ekernel room ms.pages place
      → 3 ≤ laws.left ms.pages.machine.pool
      → entry buddy laws ekernel room ms.pages start ≢ none
      → insert_framed_area buddy ekernel start end perm ms ≡ panic
  unfolding insert_framed_area push area_map map_range
  insert_framed_area-panic ms place start end perm h t room_left taken =
      let area : MapArea = record {
        start = start;
        end = end;
        map_type = framed [];
        map_perm = perm;
      } in
      rw
        (map_range-panic (end - start) start area ms.pages (omega arith)
          (map_one-panic ms.pages place start area refl t room_left taken))
        refl
    where
      map_range-panic :
          (count vpn : ℕ) (area : MapArea) (s : State buddy ekernel)
          → 0 < count
          → map_one buddy ekernel vpn area s ≡ panic
          → map_range buddy ekernel count vpn area s ≡ panic
      map_range-panic zero vpn area s h e = absurd (omega arith)
      map_range-panic (suc count) vpn area s h e = rw e refl

  pub try_map_at :
      (start end perm pages gap top : ℕ) (ms : MemorySet buddy ekernel)
      (r : Outcome (MemorySet buddy ekernel))
      → sub64 end start ≡ pages
      → find_gap pages first_page ms.areas ≡ some gap
      → add64 gap pages ≡ top
      → insert_framed_area buddy ekernel gap top perm ms ≡ r
      → try_map buddy ekernel start end perm false ms ≡ (r >>= λ ms'. ok (page_start gap, ms'))
  unfolding try_map map_gap
  try_map_at start end perm pages gap top ms r e found sum result =
      ap (λ p. map_gap buddy ekernel p perm (find_gap p first_page ms.areas) ms) e
      ∙ ap (λ g. map_gap buddy ekernel pages perm g ms) found
      ∙ rw (sum, result) refl

  -- Two mappings at no fixed address, the first of which goes to the first page of the search: the first
  -- succeeds, and the second, of at least one page and no more than the first, panics. The areas before
  -- are apart from each other, none is at that page, the first gap has no valid entry, and there are
  -- frames enough for both.
  pub try_map-again :
      (ms : MemorySet buddy ekernel) (place : ℕ → Place) (pages again perm : ℕ)
      → 0 < again
      → again ≤ pages
      → pages ≤ low_pages
      → perm < 256
      → IsTable buddy laws ekernel room ms.pages place
      → 3 * pages + 3 ≤ laws.left ms.pages.machine.pool
      → ((v : ℕ)
          → first_page ≤ v
          → v < first_page + pages
          → entry buddy laws ekernel room ms.pages v ≡ none)
      → (remove_area first_page ms.areas).0 ≡ none
      → Spread 0 ms.areas
      → NotAt first_page ms.areas
      → find_gap pages first_page ms.areas ≡ some first_page
      → (ms' : MemorySet buddy ekernel) × (try_map buddy ekernel 0 pages perm false ms
          ≡ ok (page_start first_page, ms'))
        × (try_map buddy ekernel 0 again perm false ms' ≡ panic)
  try_map-again ms place pages again perm pos le top byte t room_left unmapped free spread not_at
        gap =
      let (area, ms', place', frame, result, filled, t', same, starts, ends, beside) =
        insert_framed_area-Filled buddy laws ekernel room ms place first_page (first_page + pages)
          perm (omega arith) (omega arith) byte t (omega arith) unmapped free in
      let found : find_gap again first_page ms'.areas ≡ some first_page =
        ap (find_gap again first_page) same
        ∙ find_gap-insert_area pages again first_page area ms.areas 0 (omega arith) top le spread
            not_at starts gap in
      let length : sub64 pages 0 ≡ pages = omega arith in
      let length_again : sub64 again 0 ≡ again = omega arith in
      let end : add64 first_page pages ≡ first_page + pages = omega arith in
      let end_again : add64 first_page again ≡ first_page + again = omega arith in
      let taken : entry buddy laws ekernel room ms'.pages first_page ≢ none =
        (λ e. cc (sym e ∙ filled.pages first_page (omega arith) (omega arith))) in
      (
        ms',
        try_map_at 0 pages perm pages first_page (first_page + pages) ms (ok ms') length gap end
            result,
        try_map_at 0 again perm again first_page (first_page + again) ms' panic length_again found
            end_again
            (insert_framed_area-panic ms' place' first_page (first_page + again) perm (omega arith)
              t' (omega (arith, filled.left)) taken),
      )
