-- ===== src/Memory/Space/Insert.antt =====
-- Inserting a framed area into an address space.
use neuclear.Base.{ℕ, ◌+◌, ◌*◌, ◌-◌, ◌^◌, ◌<◌, ◌≤◌, ◌≡◌, refl, ◌∙◌, ap, List, [], ◌∷◌, none, arith}
use neuclear.Base.Outcome.{ok}
use neuclear.Memory.Frames.{Buddy, begin_frame}
use neuclear.Memory.PageTable.Descend.{IsTable}
use neuclear.Memory.PageTable.Pool.{BuddyLaws}
use neuclear.Memory.PageTable.Tree.{Place}
use neuclear.Memory.Space.{
  MapArea, MemorySet, insert_framed_area, push, drop_area, insert_area, remove_area, framed,
  remove_frame, area_map,
}
use neuclear.Memory.Space.Areas.{Filled, Beside, map_range-Filled}
use neuclear.Memory.Space.One.{entry}

insert_area-absent :
    (area : MapArea) (areas : List MapArea)
    → (remove_area area.start areas).0 ≡ none
    → (insert_area area areas).0 ≡ none
unfolding remove_area insert_area
insert_area-absent area [] e = refl
insert_area-absent area (a ∷ rest) e = let later = insert_area-absent area rest in ground arith

module _ (buddy : Buddy) (laws : BuddyLaws buddy) (ekernel : ℕ)
    (room : laws.capacity + begin_frame buddy ekernel < 2 ^ 44) where
  -- `insert_framed_area` of pages that have no valid entry, at a start where no area is, succeeds while
  -- three frames to a page are left. Every page of the area then has the permissions with V and a frame
  -- of its own, which came out of the pool; every other page keeps its entry; the table is still a
  -- tree; no frame went back; every frame that was out and not in the tree is as it was; and the area
  -- is recorded in its place.
  pub insert_framed_area-Filled :
      (ms : MemorySet buddy ekernel) (place : ℕ → Place) (start end perm : ℕ)
      → start ≤ end
      → end ≤ 2 ^ 27
      → perm < 256
      → IsTable buddy laws ekernel room ms.pages place
      → 3 * (end - start) ≤ laws.left ms.pages.machine.pool
      → ((v : ℕ) → start ≤ v → v < end → entry buddy laws ekernel room ms.pages v ≡ none)
      → (remove_area start ms.areas).0 ≡ none
      → (area : MapArea) × (ms' : MemorySet buddy ekernel) × (place' : ℕ → Place) × (frame : ℕ → ℕ)
        × (insert_framed_area buddy ekernel start end perm ms ≡ ok ms')
        × Filled buddy laws ekernel room ms.pages start (end - start) perm ms'.pages frame
        × IsTable buddy laws ekernel room ms'.pages place'
        × (ms'.areas ≡ (insert_area area ms.areas).1)
        × (area.start ≡ start)
        × (area.end ≡ end)
        × Beside buddy laws ekernel room ms.pages place start (end - start) ms'.pages place' frame
  unfolding insert_framed_area push area_map drop_area remove_frame
  insert_framed_area-Filled ms place start end perm le top byte t room_left unmapped free =
      let area : MapArea = record {
        start = start;
        end = end;
        map_type = framed [];
        map_perm = perm;
      } in
      let (area', s', place', frame, result, filled, t', starts, ends, beside) =
        map_range-Filled buddy laws ekernel room (end - start) ms.pages place start area [] refl
          (λ v l. refl) byte t room_left (omega arith)
          (λ v low high. unmapped v low (omega arith)) in
      let nothing : (insert_area area' ms.areas).0 ≡ none =
        insert_area-absent area' ms.areas (ap (λ k. (remove_area k ms.areas).0) starts ∙ free) in
      (
        area',
        record { pages = s'; areas = (insert_area area' ms.areas).1 },
        place',
        frame,
        rw (result, nothing) refl,
        filled,
        t',
        refl,
        starts,
        ends,
        beside,
      )

  -- An area that has no frame yet.
  pub push_framed :
      (a : MapArea) (ms : MemorySet buddy ekernel)
      → push buddy ekernel (record a { map_type = framed [] }) ms
        ≡ insert_framed_area buddy ekernel a.start a.end a.map_perm ms
  unfolding insert_framed_area
  push_framed a ms = refl
