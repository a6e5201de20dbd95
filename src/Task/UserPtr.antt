-- ===== src/Task/UserPtr.antt =====
-- The checks of user pointers in kernel/crates/major/src/task/process.rs, against the page table of the
-- current process. What a check returns is the pointer, with the length of a slice.
pub mod Granted
pub mod Tests
use neuclear.Base.{ℕ, Bool, true, false, ◌&&◌, Option, none, some, if◌then◌else◌, has_bit}
use neuclear.Base.Outcome.{Outcome, ok, err, efault}
use neuclear.Memory.Address.{vpn_floor}
use neuclear.Memory.Frames.{Memory}
use neuclear.Memory.PageTable.{PageTable, find_pte, entry, pte_flags, flag_r, flag_w, flag_u}

-- `flags().contains(R | U)`
pub grants_read : ℕ → Bool
grants_read bits = has_bit (pte_flags bits) flag_r && has_bit (pte_flags bits) flag_u

-- `flags().contains(R | W | U)`
pub grants_write : ℕ → Bool
grants_write bits =
    has_bit (pte_flags bits) flag_r
    && has_bit (pte_flags bits) flag_w
    && has_bit (pte_flags bits) flag_u

pub check_ptr : PageTable → Memory → ℕ → Outcome ℕ
check_ptr pt memory ptr = elim (find_pte pt memory (vpn_floor ptr)) [
  | none ↦ err efault
  | some slot ↦ if grants_read (entry memory slot) then ok ptr else err efault
]

pub check_ptr_mut : PageTable → Memory → ℕ → Outcome ℕ
check_ptr_mut pt memory ptr = elim (find_pte pt memory (vpn_floor ptr)) [
  | none ↦ err efault
  | some slot ↦ if grants_write (entry memory slot) then ok ptr else err efault
]

-- Only the page of the first byte is checked.
pub check_slice : PageTable → Memory → ℕ → ℕ → Outcome (ℕ × ℕ)
check_slice pt memory ptr len = elim (find_pte pt memory (vpn_floor ptr)) [
  | none ↦ err efault
  | some slot ↦ if grants_read (entry memory slot) then ok (ptr, len) else err efault
]

pub check_slice_mut : PageTable → Memory → ℕ → ℕ → Outcome (ℕ × ℕ)
check_slice_mut pt memory ptr len = elim (find_pte pt memory (vpn_floor ptr)) [
  | none ↦ err efault
  | some slot ↦ if grants_write (entry memory slot) then ok (ptr, len) else err efault
]
