-- ===== src/MapCalls/Brk.antt =====
-- Moving the break up.
use neuclear.Base.{ℕ, ◌+◌, ◌*◌, ◌-◌, ◌^◌, ◌<◌, ◌≤◌, ◌≡◌, refl, ◌∙◌, false, some, none, arith, leb}
use neuclear.Base.Int.{pos}
use neuclear.Base.Outcome.{ok}
use neuclear.Memory.Address.{vpn_ceil}
use neuclear.Memory.Frames.{Buddy, begin_frame}
use neuclear.Memory.PageTable.{State}
use neuclear.Memory.PageTable.Descend.{IsTable}
use neuclear.Memory.PageTable.Pool.{BuddyLaws}
use neuclear.Memory.PageTable.Tree.{Place}
use neuclear.Memory.Space.{
  Frames, MapArea, MemorySet, framed, perm_rwu, remove_area, insert_area, set_user_brk, expand,
  map_range, insert_framed_area,
}
use neuclear.Memory.Space.Areas.{Filled, map_range-Filled}
use neuclear.Memory.Space.One.{NoneFrom, entry}
use neuclear.Memory.Space.Insert.{insert_framed_area-Filled}
use neuclear.MapCalls.{Heap, sys_brk}

module _ (buddy : Buddy) (laws : BuddyLaws buddy) (ekernel : ℕ)
    (room : laws.capacity + begin_frame buddy ekernel < 2 ^ 44) where
  -- The heap ends at page `from`, and its pages have permissions `perm`: there is no area of the heap
  -- yet, or one that keeps no frame from there on.
  pub data EndsAt (h : Heap buddy ekernel) : ℕ → ℕ → Type 0 where
    no_heap :
        (remove_area h.heap_start h.memory_set.areas).0 ≡ none → EndsAt h h.heap_start perm_rwu
    heap :
        (area : MapArea) (frames : Frames)
        → (remove_area h.heap_start h.memory_set.areas).0 ≡ some area
        → area.map_type ≡ framed frames
        → NoneFrom area.end frames
        → h.heap_start ≤ area.end
        → area.map_perm < 256
        → EndsAt h area.end area.map_perm

  expand_at :
      (ms : MemorySet buddy ekernel) (area area' : MapArea) (s' : State buddy ekernel)
      (start new_end : ℕ)
      → (remove_area start ms.areas).0 ≡ some area
      → leb new_end area.end ≡ false
      → map_range buddy ekernel (new_end - area.end) area.end area ms.pages ≡ ok (area', s')
      → set_user_brk buddy ekernel new_end start ms
        ≡ ok (record {
          pages = s';
          areas = (insert_area (record area' { end = new_end }) ms.areas).1;
        })
  unfolding set_user_brk expand
  expand_at ms area area' s' start new_end found up e = rw (set_user_brk, found, up, expand, e) refl

  insert_at :
      (ms : MemorySet buddy ekernel) (start new_end : ℕ)
      → (remove_area start ms.areas).0 ≡ none
      → set_user_brk buddy ekernel new_end start ms
        ≡ insert_framed_area buddy ekernel start new_end perm_rwu ms
  unfolding set_user_brk
  insert_at ms start new_end free = rw (set_user_brk, free) refl

  grown_brk :
      (ms : MemorySet buddy ekernel) (place : ℕ → Place) (area : MapArea) (frames : Frames)
      (start new_end : ℕ)
      → (remove_area start ms.areas).0 ≡ some area
      → area.map_type ≡ framed frames
      → NoneFrom area.end frames
      → area.map_perm < 256
      → area.end < new_end
      → new_end ≤ 2 ^ 27
      → IsTable buddy laws ekernel room ms.pages place
      → 3 * (new_end - area.end) ≤ laws.left ms.pages.machine.pool
      → ((v : ℕ) → area.end ≤ v → v < new_end → entry buddy laws ekernel room ms.pages v ≡ none)
      → (ms' : MemorySet buddy ekernel) × (place' : ℕ → Place) × (frame : ℕ → ℕ) × (set_user_brk
            buddy ekernel new_end start ms
          ≡ ok ms')
        × Filled buddy laws ekernel room ms.pages area.end
            (new_end - area.end)
            area.map_perm
            ms'.pages
            frame
        × IsTable buddy laws ekernel room ms'.pages place'
  grown_brk ms place area frames start new_end found kind absent byte less top t room_left
        unmapped =
      let (area', s', place', frame, result, filled, t', starts, ends, beside) =
        map_range-Filled buddy laws ekernel room (new_end - area.end) ms.pages place area.end area
          frames kind absent byte t room_left (omega arith)
          (λ v low high. unmapped v low (omega arith)) in
      let up : leb new_end area.end ≡ false = ground arith in
      (
        record { pages = s'; areas = (insert_area (record area' { end = new_end }) ms.areas).1 },
        place',
        frame,
        expand_at ms area area' s' start new_end found up result,
        filled,
        t',
      )

  begun_brk :
      (ms : MemorySet buddy ekernel) (place : ℕ → Place) (start new_end : ℕ)
      → (remove_area start ms.areas).0 ≡ none
      → start < new_end
      → new_end ≤ 2 ^ 27
      → IsTable buddy laws ekernel room ms.pages place
      → 3 * (new_end - start) ≤ laws.left ms.pages.machine.pool
      → ((v : ℕ) → start ≤ v → v < new_end → entry buddy laws ekernel room ms.pages v ≡ none)
      → (ms' : MemorySet buddy ekernel) × (place' : ℕ → Place) × (frame : ℕ → ℕ) × (set_user_brk
            buddy ekernel new_end start ms
          ≡ ok ms')
        × Filled buddy laws ekernel room ms.pages start (new_end - start) perm_rwu ms'.pages frame
        × IsTable buddy laws ekernel room ms'.pages place'
  begun_brk ms place start new_end free less top t room_left unmapped =
      let (_, ms', place', frame, result, filled, t', _, _, _, _) =
        insert_framed_area-Filled buddy laws ekernel room ms place start new_end perm_rwu
          (omega arith) top (omega arith) t room_left unmapped free in
      (ms', place', frame, insert_at ms start new_end free ∙ result, filled, t')

  sys_brk-set_user_brk :
      (h : Heap buddy ekernel) (brk : ℕ) (ms : MemorySet buddy ekernel)
      → h.heap_start < vpn_ceil brk
      → set_user_brk buddy ekernel (vpn_ceil brk) h.heap_start h.memory_set ≡ ok ms
      → sys_brk buddy ekernel brk h ≡ ok (pos brk, record h { memory_set = ms; brk = brk })
  unfolding sys_brk
  sys_brk-set_user_brk h brk ms less e =
      let up : leb (vpn_ceil brk) h.heap_start ≡ false = ground arith in rw (up, e) refl

  -- `brk` to an address whose page, rounded up, is behind the end of the heap, when there is a heap or
  -- none yet, the pages between have no valid entry and three frames for each of them are left: it
  -- returns the address and records it. Just these pages are mapped, each to a frame of its own with
  -- the permissions of the heap and V, and the table is still a tree.
  pub sys_brk-Filled :
      (h : Heap buddy ekernel) (place : ℕ → Place) (brk from perm : ℕ)
      → EndsAt h from perm
      → from < vpn_ceil brk
      → vpn_ceil brk ≤ 2 ^ 27
      → IsTable buddy laws ekernel room h.memory_set.pages place
      → 3 * (vpn_ceil brk - from) ≤ laws.left h.memory_set.pages.machine.pool
      → ((v : ℕ)
          → from ≤ v
          → v < vpn_ceil brk
          → entry buddy laws ekernel room h.memory_set.pages v ≡ none)
      → (h' : Heap buddy ekernel) × (place' : ℕ → Place) × (frame : ℕ → ℕ) × (sys_brk buddy ekernel
            brk h
          ≡ ok (pos brk, h'))
        × (h'.brk ≡ brk)
        × Filled buddy laws ekernel room h.memory_set.pages from
            (vpn_ceil brk - from)
            perm
            h'.memory_set.pages
            frame
        × IsTable buddy laws ekernel room h'.memory_set.pages place'
  sys_brk-Filled h place brk from perm (no_heap free) less top t room_left unmapped =
      let (ms', place', frame, result, filled, t') =
        begun_brk h.memory_set place h.heap_start (vpn_ceil brk) free less top t room_left
          unmapped in
      (
        record h { memory_set = ms'; brk = brk },
        place',
        frame,
        sys_brk-set_user_brk h brk ms' less result,
        refl,
        filled,
        t',
      )
  sys_brk-Filled h place brk from perm (heap area frames found kind absent behind byte) less top t
        room_left unmapped =
      let (ms', place', frame, result, filled, t') =
        grown_brk h.memory_set place area frames h.heap_start (vpn_ceil brk) found kind absent byte
          less top t room_left unmapped in
      (
        record h { memory_set = ms'; brk = brk },
        place',
        frame,
        sys_brk-set_user_brk h brk ms' (omega arith) result,
        refl,
        filled,
        t',
      )
