-- ===== src/Memory/Address.antt =====
-- kernel/crates/memory/src/address.rs and lib.rs: addresses and page numbers. All of them are a usize.
-- `x & (2^k - 1)` and `x >> k` are written `x % 2 ^ k` and `x / 2 ^ k`.
pub mod Pages
use neuclear.Base.{
  ℕ, ◌+◌, ◌*◌, ◌/◌, ◌%◌, ◌^◌, ◌-◌, Option, none, some, ltb, if◌then◌else◌, word, add64, sub64,
}
use neuclear.Config.{pa_to_va, page_size, page_size_bits, pte_per_page}

-- `PhysAddr::floor`, `PhysAddr::ceil`
unfoldable pub pa_floor : ℕ → ℕ
pa_floor pa = pa / page_size

unfoldable pub pa_ceil : ℕ → ℕ
pa_ceil pa = sub64 (add64 pa page_size) 1 / page_size

-- `page_start` of a physical or a virtual page number.
unfoldable pub page_start : ℕ → ℕ
page_start n = n * 2 ^ page_size_bits % word

-- `VirtAddr::page_offset`, `vpn_floor` (also `vpn`) and `vpn_ceil`
unfoldable pub page_offset : ℕ → ℕ
page_offset va = va % page_size

unfoldable pub vpn_floor : ℕ → ℕ
vpn_floor va = va / 2 ^ page_size_bits

unfoldable pub vpn_ceil : ℕ → ℕ
vpn_ceil va = add64 (sub64 va 1) page_size / page_size

pub va_add : ℕ → ℕ → ℕ
va_add va offset = add64 va offset

-- `VirtPageNum::indexes`: the loop fills the array from its end.
unfoldable pub indexes : ℕ → ℕ × ℕ × ℕ
indexes vpn =
    let low = vpn in
    let mid = low / 2 ^ 9 in
    let high = mid / 2 ^ 9 in (high % pte_per_page, mid % pte_per_page, low % pte_per_page)

-- `Step` of the two kinds of page number.
pub steps_between : ℕ → ℕ → Option ℕ
steps_between start end = if ltb end start then none else some (end - start)

pub forward_checked : ℕ → ℕ → Option ℕ
forward_checked start count = if ltb (start + count) word then some (start + count) else none

pub backward_checked : ℕ → ℕ → Option ℕ
backward_checked start count = if ltb start count then none else some (start - count)

unfoldable pub kernel_va_to_pa : ℕ → ℕ
kernel_va_to_pa va = sub64 va pa_to_va

unfoldable pub kernel_pa_to_va : ℕ → ℕ
kernel_pa_to_va pa = add64 pa pa_to_va

unfoldable pub kernel_ppn_to_vpn : ℕ → ℕ
kernel_ppn_to_vpn ppn = add64 ppn (pa_to_va / page_size)
