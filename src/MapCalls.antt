-- ===== src/MapCalls.antt =====
-- The calls mmap and brk: kernel/crates/major/src/trap/syscall/process.rs and flags.rs, and the break
-- of a process in kernel/crates/major/src/task/process.rs.
pub mod Brk
pub mod Mmap
mod Tests
use neuclear.Base.{
  ℕ, ◌+◌, ◌*◌, ◌/◌, ◌%◌, ◌^◌, Bool, true, false, not, ◌&&◌, ◌||◌, Option, none, some, ◌==◌, ltb,
  leb, if◌then◌else◌, has_bit, set_bit, add64,
}
use neuclear.Base.Int.{ℤ, pos, negsuc}
use neuclear.Base.Outcome.{
  Outcome, ok, err, ◌>>=◌, ◌>>◌, fail_if, ok_or, einval, temp, eperm, unsupported,
}
use neuclear.Memory.Address.{page_offset, vpn_floor, vpn_ceil}
use neuclear.Memory.Frames.{Buddy}
use neuclear.Memory.PageTable.{flag_u}
use neuclear.Memory.Space.{MemorySet, try_map, set_user_brk}

-- `MmapFlags`, by the numbers of the bits.
abbrev pub map_shared : ℕ
map_shared = 0

abbrev pub map_private : ℕ
map_private = 1

abbrev pub map_fixed : ℕ
map_fixed = 4

abbrev pub map_anonymous : ℕ
map_anonymous = 5

abbrev pub map_noreserve : ℕ
map_noreserve = 14

-- `MmapProt::from_bits`: the three lowest bits are flags.
unfoldable pub prot_from_bits : ℕ → Option ℕ
prot_from_bits bits = if ltb bits 8 then some bits else none

-- `MmapFlags::from_bits`: bits 2, 3 and 6 to 13, and those behind 14, are none.
unfoldable pub flags_from_bits : ℕ → Option ℕ
flags_from_bits bits =
    if bits / 2 ^ 2 % 2 ^ 2 == 0 && bits / 2 ^ 6 % 2 ^ 8 == 0 && ltb bits (2 ^ 15)
    then some bits
    else none

-- `MapPermission::from`: shifted to a byte, cut to the bits R, W, X and U, and with U.
unfoldable pub map_permission : ℕ → ℕ
map_permission prot = set_bit (prot * 2 % 2 ^ 8 / 2 % 2 ^ 4 * 2) flag_u true

is_minus_one : ℤ → Bool
is_minus_one (pos n) = false
is_minus_one (negsuc n) = n == 0

module _ (buddy : Buddy) (ekernel : ℕ) where
  pub sys_mmap :
      ℕ → ℕ → ℕ → ℕ → ℤ → ℕ → MemorySet buddy ekernel → Outcome (ℤ × MemorySet buddy ekernel)
  unfolding is_minus_one
  sys_mmap addr len prot flags fd offset ms = do
    fail_if (not (page_offset addr == 0) || len == 0) einval
    prot' ← ok_or (prot_from_bits prot) temp
    flags' ← ok_or (flags_from_bits flags) temp
    fail_if (has_bit flags' map_anonymous && has_bit flags' map_shared) eperm
    if has_bit flags' map_anonymous
        then (do
          fail_if (not (is_minus_one fd) || not (offset == 0)) eperm
          (start, ms') ←
              try_map buddy ekernel (vpn_floor addr) (vpn_floor (add64 addr len))
                (map_permission prot') false ms
          ok (pos start, ms'))
        else err unsupported

  -- What the break is about of a process.
  pub record Heap : Type 0 where
    pub memory_set : MemorySet buddy ekernel
    pub heap_start : ℕ
    pub brk : ℕ

  -- `ProcessControlBlockInner::set_user_brk`
  inner_set_user_brk : ℕ → Heap → Outcome (ℕ × Heap)
  inner_set_user_brk new_brk h = if leb (vpn_ceil new_brk) h.heap_start then ok (h.brk, h) else (do
    ms ← set_user_brk buddy ekernel (vpn_ceil new_brk) h.heap_start h.memory_set
    ok (new_brk, record h { memory_set = ms; brk = new_brk }))

  pub sys_brk : ℕ → Heap → Outcome (ℤ × Heap)
  unfolding inner_set_user_brk
  sys_brk brk h = do (new_brk, h') ← inner_set_user_brk brk h; ok (pos new_brk, h')
