-- ===== src/Memory/Space.antt =====
-- kernel/crates/memory/src/memory_set.rs: areas of virtual pages and address spaces. A BTreeMap is a
-- list in the order of its keys; what a map drops goes back to the pool.
pub mod One
pub mod Areas
pub mod Insert
pub mod Gaps
pub mod Again
mod Tests
use neuclear.Base.{
  ℕ, zero, suc, ◌+◌, ◌-◌, ◌*◌, ◌/◌, ◌^◌, Bool, true, false, not, ◌&&◌, List, [], ◌∷◌, Option, none,
  some, ◌==◌, ltb, leb, if◌then◌else◌, add64, sub64,
}
use neuclear.Base.Outcome.{Outcome, ok, err, panic, ◌>>=◌, unwrap, enomem}
use neuclear.Config.{low_end, mmap_start, pa_to_va, page_size}
use neuclear.Memory.Address.{page_start, vpn_floor, vpn_ceil}
use neuclear.Memory.Frames.{Buddy, Memory, FrameTracker, Machine, frame_alloc, drop_tracker}
use neuclear.Memory.PageTable.{PageTable, State, map, unmap, with_root, drop_all, clear_except_root}

-- `MapPermission`: R and W and U.
abbrev pub perm_rwu : ℕ
perm_rwu = 2 + 4 + 16

-- `data_frames`, by page.
abbrev pub Frames : Type 0
Frames = List (ℕ × FrameTracker)

pub data MapType : Type 0 where
  linear : ℕ → MapType
  framed : Frames → MapType

-- `vpn_range` is `start..end`.
pub record MapArea : Type 0 where
  pub start : ℕ
  pub end : ℕ
  pub map_type : MapType
  pub map_perm : ℕ

pub area_new : ℕ → ℕ → MapType → ℕ → MapArea
area_new start_va end_va map_type map_perm = record {
  start = vpn_floor start_va;
  end = vpn_ceil end_va;
  map_type = map_type;
  map_perm = map_perm;
}

pub kernel_map : ℕ → ℕ → ℕ → MapArea
kernel_map start_pa end_pa map_perm = record {
  start = vpn_floor (add64 start_pa pa_to_va);
  end = vpn_ceil (add64 end_pa pa_to_va);
  map_type = linear pa_to_va;
  map_perm = map_perm;
}

-- In bytes; the subtraction saturates.
pub len : MapArea → ℕ
len area = (area.end - area.start) * page_size

pub is_empty : MapArea → Bool
unfolding len
is_empty area = len area == 0

-- `BTreeMap::remove` for frames: what was there, and the rest.
unfoldable pub remove_frame : ℕ → Frames → Option FrameTracker × Frames
remove_frame vpn [] = (none, [])
remove_frame vpn ((key, frame) ∷ rest) =
    let (found, others) = remove_frame vpn rest in
    if key == vpn then (some frame, rest) else (found, (key, frame) ∷ others)

-- `BTreeMap::insert` for areas, keyed by their first page: what was there, and the new list.
unfoldable pub insert_area : MapArea → List MapArea → Option MapArea × List MapArea
insert_area area [] = (none, area ∷ [])
insert_area area (a ∷ rest) =
    let (old, others) = insert_area area rest in
    if ltb area.start a.start
    then (none, area ∷ a ∷ rest)
    else (if a.start == area.start then (some a, area ∷ rest) else (old, a ∷ others))

unfoldable pub remove_area : ℕ → List MapArea → Option MapArea × List MapArea
remove_area start [] = (none, [])
remove_area start (a ∷ rest) =
    let (found, others) = remove_area start rest in
    if a.start == start then (some a, rest) else (found, a ∷ others)

-- The loop of `try_map`: it goes on behind an area that begins after `start` and is in the way.
unfoldable pub find_gap : ℕ → ℕ → List MapArea → Option ℕ
find_gap len start [] = none
find_gap len start (a ∷ areas) =
    let behind = find_gap len a.end areas in
    let same = find_gap len start areas in
    if ltb start a.start && leb (add64 start len) (low_end / page_size)
    then (if leb (add64 start len) a.start then some start else behind)
    else same

module _ (buddy : Buddy) (ekernel : ℕ) where
  pub record MemorySet : Type 0 where
    pub pages : State buddy ekernel
    pub areas : List MapArea

  drop_found : Option FrameTracker → State buddy ekernel → State buddy ekernel
  drop_found none s = s
  drop_found (some frame) s = record s { machine = drop_tracker buddy ekernel frame s.machine }

  -- `data_frames.insert(vpn, frame)`
  abbrev pub with_frame : MapArea → ℕ → FrameTracker → Frames → MapArea
  with_frame area vpn frame frames = record area {
    map_type = framed ((vpn, frame) ∷ (remove_frame vpn frames).1);
  }

  pub map_one : ℕ → MapArea → State buddy ekernel → Outcome (MapArea × State buddy ekernel)
  unfolding drop_found
  map_one vpn area s = elim area.map_type [
    | linear offset ↦ do
      s' ← map buddy ekernel vpn (sub64 vpn (offset / page_size)) area.map_perm s
      ok (area, s')
    | framed frames ↦ do
      (found, machine) ← frame_alloc buddy ekernel 1 s.machine
      frame ← unwrap found
      let s' = drop_found (remove_frame vpn frames).0 (record s { machine = machine })
      s'' ← map buddy ekernel vpn frame.ppn area.map_perm s'
      ok (with_frame area vpn frame frames, s'')
  ]

  pub unmap_one : ℕ → MapArea → State buddy ekernel → Outcome (MapArea × State buddy ekernel)
  unfolding drop_found
  unmap_one vpn area s = elim area.map_type [
    | linear offset ↦ do s' ← unmap buddy ekernel vpn s; ok (area, s')
    | framed frames ↦ do
      let (found, rest) = remove_frame vpn frames
      s' ← unmap buddy ekernel vpn (drop_found found s)
      ok (record area { map_type = framed rest }, s')
  ]

  -- `for vpn in start..end`, by the number of pages.
  pub map_range : ℕ → ℕ → MapArea → State buddy ekernel → Outcome (MapArea × State buddy ekernel)
  map_range zero vpn area s = ok (area, s)
  map_range (suc count) vpn area s = do
    (area', s') ← map_one vpn area s
    map_range count (suc vpn) area' s'

  pub unmap_range : ℕ → ℕ → MapArea → State buddy ekernel → Outcome (MapArea × State buddy ekernel)
  unmap_range zero vpn area s = ok (area, s)
  unmap_range (suc count) vpn area s = do
    (area', s') ← unmap_one vpn area s
    unmap_range count (suc vpn) area' s'

  pub area_map : MapArea → State buddy ekernel → Outcome (MapArea × State buddy ekernel)
  area_map area = map_range (area.end - area.start) area.start area

  pub area_unmap : MapArea → State buddy ekernel → Outcome (MapArea × State buddy ekernel)
  area_unmap area = unmap_range (area.end - area.start) area.start area

  pub shrink : ℕ → MapArea → State buddy ekernel → Outcome (MapArea × State buddy ekernel)
  shrink new_end area s = do
    (area', s') ← unmap_range (area.end - new_end) new_end area s
    ok (record area' { end = new_end }, s')

  unfoldable pub expand :
      ℕ → MapArea → State buddy ekernel → Outcome (MapArea × State buddy ekernel)
  expand new_end area s = do
    (area', s') ← map_range (new_end - area.end) area.end area s
    ok (record area' { end = new_end }, s')

  trackers : Frames → List FrameTracker
  trackers [] = []
  trackers ((vpn, frame) ∷ rest) = frame ∷ trackers rest

  drop_area : Option MapArea → State buddy ekernel → State buddy ekernel
  unfolding trackers
  drop_area none s = s
  drop_area (some area) s = elim area.map_type [
    | linear offset ↦ s
    | framed frames ↦ record s { machine = drop_all buddy ekernel (trackers frames) s.machine }
  ]

  -- `push` without data.
  pub push : MapArea → MemorySet → Outcome MemorySet
  unfolding drop_area
  push area ms = do
    (area', s) ← area_map area ms.pages
    let (old, areas) = insert_area area' ms.areas
    ok (record { pages = drop_area old s; areas = areas })

  pub insert_framed_area : ℕ → ℕ → ℕ → MemorySet → Outcome MemorySet
  insert_framed_area start end perm =
      push (record { start = start; end = end; map_type = framed []; map_perm = perm })

  -- The removed area is unmapped, and then dropped.
  pub remove_area_with_start_vpn : ℕ → MemorySet → Outcome MemorySet
  unfolding drop_area
  remove_area_with_start_vpn start ms =
      let (found, areas) = remove_area start ms.areas in
      elim found [
        | none ↦ ok ms
        | some area ↦ do
          (area', s) ← area_unmap area ms.pages
          ok (record { pages = drop_area (some area') s; areas = areas })
      ]

  -- The area of the heap is changed where it stands.
  unfoldable pub set_user_brk : ℕ → ℕ → MemorySet → Outcome MemorySet
  set_user_brk new_end heap_start ms = elim (remove_area heap_start ms.areas).0 [
    | none ↦ insert_framed_area heap_start new_end perm_rwu ms
    | some area ↦ do
      (area', s) ←
          (if leb new_end area.end
            then shrink new_end area ms.pages
            else expand new_end area ms.pages)
      ok (record { pages = s; areas = (insert_area area' ms.areas).1 })
  ]

  pub map_gap : ℕ → ℕ → Option ℕ → MemorySet → Outcome (ℕ × MemorySet)
  map_gap pages perm none ms = err enomem
  map_gap pages perm (some gap) ms = do
    ms' ← insert_framed_area gap (add64 gap pages) perm ms
    ok (page_start gap, ms')

  -- The value is the page number in the first case, and the address in the second.
  pub try_map : ℕ → ℕ → ℕ → Bool → MemorySet → Outcome (ℕ × MemorySet)
  unfolding find_gap
  try_map start end perm true ms = do ms' ← insert_framed_area start end perm ms; ok (start, ms')
  try_map start end perm false ms =
      map_gap (sub64 end start) perm (find_gap (sub64 end start) (mmap_start / page_size) ms.areas)
        ms

  unfoldable pub new_bare : Machine buddy ekernel → Outcome MemorySet
  new_bare m = do s ← with_root buddy ekernel m; ok (record { pages = s; areas = [] })

  -- `retain` drops the areas below 256 GiB; then the tables go, and the lower half of the root is
  -- cleared.
  retain_user : List MapArea → State buddy ekernel → List MapArea × State buddy ekernel
  unfolding drop_area
  retain_user [] s = ([], s)
  retain_user (a ∷ areas) s =
      let (kept, s') = retain_user areas s in
      let (kept', s'') = retain_user areas (drop_area (some a) s) in
      if leb (low_end / page_size) a.start then (a ∷ kept, s') else (kept', s'')

  pub recycle_user_pages : MemorySet → MemorySet
  unfolding retain_user
  recycle_user_pages ms =
      let (areas, s) = retain_user ms.areas ms.pages in
      let s' = clear_except_root buddy ekernel s in
      record {
        areas = areas;
        pages = record s' {
          machine = record s'.machine {
            memory =
                λ f i. if f == s'.table.root_ppn && ltb i 256 then 0 else s'.machine.memory f i;
          };
        };
      }

  -- The root entries of the kernel's half.
  unfoldable pub map_kernel_areas : PageTable → MemorySet → MemorySet
  map_kernel_areas kernel ms = record ms {
    pages = record ms.pages {
      machine = record ms.pages.machine {
        memory = λ f i.
            if f == ms.pages.table.root_ppn && not (ltb i 508) && not (i == 509) && ltb i 512
            then ms.pages.machine.memory kernel.root_ppn i
            else ms.pages.machine.memory f i;
      };
    };
  }
