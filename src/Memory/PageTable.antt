-- ===== src/Memory/PageTable.antt =====
-- kernel/crates/memory/src/page_table.rs: page table entries and three-level page tables. A reference
-- to an entry is the frame and the index where it stands; the frames of a table are physical memory
-- that the kernel reads through its window, so the state is the machine beside the table.
pub mod Entry
pub mod Tree
pub mod Apart
pub mod Grow
pub mod Pool
pub mod Descend
pub mod Map
pub mod Fresh
mod Tests
use neuclear.Base.{
  ℕ, zero, suc, ◌+◌, ◌*◌, ◌/◌, ◌%◌, ◌^◌, Bool, true, false, not, ◌&&◌, List, [], ◌∷◌, ◌++◌, Option,
  none, some, ◌==◌, ltb, if◌then◌else◌, has_bit, set_bit, word, add64, is_some, take, drop,
}
use neuclear.Base.Outcome.{Outcome, ok, err, panic, ◌>>=◌, ◌>>◌, assert, unwrap, ok_or, efault}
use neuclear.Memory.Address.{page_start, page_offset, vpn_floor, indexes, kernel_pa_to_va}
use neuclear.Memory.Frames.{Buddy, Memory, FrameTracker, Machine, frame_alloc, drop_tracker}

-- `PageTableEntry`, as its bits. The low ten bits of the shifted number are 0, so `|` adds.
unfoldable pub pte_new : ℕ → ℕ → ℕ
pte_new ppn flags = ppn * 2 ^ 10 % word + flags

unfoldable pub pte_ppn : ℕ → ℕ
pte_ppn bits = bits / 2 ^ 10 % 2 ^ 44

-- All eight bits are flags.
unfoldable pub pte_flags : ℕ → ℕ
pte_flags bits = bits % 256

abbrev pub flag_v : ℕ
flag_v = 0

abbrev pub flag_r : ℕ
flag_r = 1

abbrev pub flag_w : ℕ
flag_w = 2

abbrev pub flag_u : ℕ
flag_u = 4

unfoldable pub is_valid : ℕ → Bool
unfolding pte_flags
is_valid bits = has_bit (pte_flags bits) flag_v

abbrev pub Slot : Type 0
Slot = ℕ × ℕ

abbrev pub entry : Memory → Slot → ℕ
entry memory (frame, i) = memory frame i

abbrev pub write_entry : Memory → Slot → ℕ → Memory
write_entry memory (frame, i) bits f k = if f == frame && k == i then bits else memory f k

pub record PageTable : Type 0 where
  pub root_ppn : ℕ
  pub frames : List FrameTracker

-- `PageTable::from_token`: it owns no frame.
pub from_token : ℕ → PageTable
from_token token = record { root_ppn = token % 2 ^ 44; frames = [] }

-- Mode Sv39 is 8.
pub token : PageTable → ℕ
token pt = 8 * 2 ^ 60 % word + pt.root_ppn

-- The loop of `find_pte`.
find_from : Memory → ℕ → List ℕ → Option Slot → Option Slot
find_from memory ppn [] ret = ret
find_from memory ppn (idx ∷ idxs) ret =
    if is_valid (memory ppn idx)
    then find_from memory (pte_ppn (memory ppn idx)) idxs (some (ppn, idx))
    else none

abbrev index_list : ℕ → List ℕ
index_list vpn = let (i, j, k) = indexes vpn in i ∷ j ∷ k ∷ []

pub find_pte : PageTable → Memory → ℕ → Option Slot
unfolding find_from
find_pte pt memory vpn = find_from memory pt.root_ppn (index_list vpn) none

pub translate : PageTable → Memory → ℕ → Option ℕ
translate pt memory vpn = elim (find_pte pt memory vpn) [
  | none ↦ none
  | some slot ↦ some (pte_ppn (entry memory slot))
]

pub trans_va_to_pa : PageTable → Memory → ℕ → Option ℕ
trans_va_to_pa pt memory va = elim (find_pte pt memory (vpn_floor va)) [
  | none ↦ none
  | some slot ↦ some (add64 (page_start (pte_ppn (entry memory slot))) (page_offset va))
]

pub trans_va : PageTable → Memory → ℕ → Outcome ℕ
trans_va pt memory va = do pa ← ok_or (trans_va_to_pa pt memory va) efault; ok (kernel_pa_to_va pa)

module _ (buddy : Buddy) (ekernel : ℕ) where
  pub record State : Type 0 where
    pub table : PageTable
    pub machine : Machine buddy ekernel

  -- A new frame for a table one level down; an empty pool is a panic.
  pub add_table : Slot → State → Outcome (ℕ × State)
  add_table slot s = do
    (found, machine) ← frame_alloc buddy ekernel 1 s.machine
    frame ← unwrap found
    ok (
      frame.ppn,
      record {
        table = record s.table { frames = s.table.frames ++ frame ∷ [] };
        machine = record machine {
          memory = write_entry machine.memory slot (pte_new frame.ppn (2 ^ flag_v));
        };
      },
    )

  -- One round of the loop of `find_pte_create` above the last level: the next table.
  pub descend : ℕ → ℕ → State → Outcome (ℕ × State)
  unfolding add_table
  descend ppn idx s =
      if is_valid (s.machine.memory ppn idx)
      then ok (pte_ppn (s.machine.memory ppn idx), s)
      else (do (_, s') ← add_table (ppn, idx) s; ok (pte_ppn (s'.machine.memory ppn idx), s'))

  -- The loop: the last index is not followed.
  pub create_from : ℕ → List ℕ → State → Outcome (Slot × State)
  create_from ppn [] s = panic
  create_from ppn (idx ∷ []) s = ok ((ppn, idx), s)
  create_from ppn (idx ∷ j ∷ idxs) s = do
    (next, s') ← descend ppn idx s
    create_from next (j ∷ idxs) s'

  pub find_pte_create : ℕ → State → Outcome (Slot × State)
  unfolding create_from
  find_pte_create vpn s = create_from s.table.root_ppn (index_list vpn) s

  abbrev pub put_entry : Slot → ℕ → State → State
  put_entry slot bits s = record s {
    machine = record s.machine { memory = write_entry s.machine.memory slot bits };
  }

  pub map : ℕ → ℕ → ℕ → State → Outcome State
  map vpn ppn flags s = do
    (slot, s') ← find_pte_create vpn s
    assert (not (is_valid (entry s'.machine.memory slot)))
    ok (put_entry slot (pte_new ppn (set_bit flags flag_v true)) s')

  pub unmap : ℕ → State → Outcome State
  unmap vpn s = do
    (slot, s') ← find_pte_create vpn s
    assert (is_valid (entry s'.machine.memory slot))
    ok (put_entry slot 0 s')

  unfoldable pub with_root : Machine buddy ekernel → Outcome State
  with_root m = do
    (found, machine) ← frame_alloc buddy ekernel 1 m
    frame ← unwrap found
    ok (record { table = record { root_ppn = frame.ppn; frames = frame ∷ [] }; machine = machine })

  pub drop_all : List FrameTracker → Machine buddy ekernel → Machine buddy ekernel
  drop_all [] m = m
  drop_all (frame ∷ frames) m = drop_all frames (drop_tracker buddy ekernel frame m)

  -- `frames.truncate(1)` drops the trackers behind the first.
  pub clear_except_root : State → State
  unfolding drop_all
  clear_except_root s = record {
    table = record s.table { frames = take 1 s.table.frames };
    machine = drop_all (drop 1 s.table.frames) s.machine;
  }
