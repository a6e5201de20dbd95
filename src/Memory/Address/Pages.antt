-- ===== src/Memory/Address/Pages.antt =====
-- Pages and addresses agree.
mod Tests
use neuclear.Base.{
  ℕ, ◌+◌, ◌*◌, ◌-◌, ◌/◌, ◌%◌, ◌^◌, ◌≤◌, ◌<◌, ◌≡◌, refl, max, ◌↔◌, Option, none, some, arith, word,
  ltb, if◌then◌else◌,
}
use neuclear.Config.{page_size, pte_per_page}
use neuclear.Memory.Address.{
  page_start, page_offset, vpn_floor, vpn_ceil, indexes, steps_between, forward_checked,
  backward_checked, kernel_va_to_pa, kernel_pa_to_va, kernel_ppn_to_vpn,
}

-- An address is its page's start and its offset in the page, and the offset is below a page's size.
pub page_start-add-page_offset :
    (va : ℕ)
    → va < word
    → (page_start (vpn_floor va) + page_offset va ≡ va) × (page_offset va < page_size)
unfolding page_start vpn_floor page_offset
page_start-add-page_offset va h = omega arith

-- The pages from `vpn_floor(start)` up to `vpn_ceil(end)`, which an area maps, are those that hold a
-- byte of it, if the end does not wrap.
pub pages_cover :
    (start end vpn : ℕ)
    → start < end
    → end + page_size < word
    → ((vpn_floor start ≤ vpn) × (vpn < vpn_ceil end))
      ↔ ((va : ℕ) × (start ≤ va) × (va < end) × (vpn_floor va ≡ vpn))
unfolding vpn_floor vpn_ceil
pages_cover start end vpn h k = (
  (λ b. (max start (vpn * page_size), omega arith, omega arith, omega arith)),
  λ (va, a, b, e). omega arith,
)

vpn_ceil-zero : vpn_ceil 0 ≡ 0
unfolding vpn_ceil
vpn_ceil-zero = refl

-- The three indexes of a page number of 27 bits are in range and make it up again.
pub indexes_lem :
    (vpn : ℕ)
    → vpn < 2 ^ 27
    → let (i, j, k) = indexes vpn in
      ((i * 2 ^ 18 + j * 2 ^ 9 + k ≡ vpn)
        × (i < pte_per_page)
        × (j < pte_per_page)
        × (k < pte_per_page))
unfolding indexes
indexes_lem vpn h = omega arith

-- The kernel's window on physical memory goes both ways, and maps pages to pages.
pub kernel_pa_to_va-inverse :
    (pa : ℕ)
    → pa < 2 ^ 32
    → (kernel_va_to_pa (kernel_pa_to_va pa) ≡ pa)
      × (vpn_floor (kernel_pa_to_va pa) ≡ kernel_ppn_to_vpn (pa / page_size))
unfolding kernel_va_to_pa kernel_pa_to_va kernel_ppn_to_vpn vpn_floor
kernel_pa_to_va-inverse pa h = omega arith

-- Stepping forward and back are inverse where they are defined, and `steps_between` counts the steps.
pub steps_agree :
    (start count end : ℕ)
    → forward_checked start count ≡ some end
    → (backward_checked end count ≡ some start) × (steps_between start end ≡ some count)
unfolding steps_between forward_checked backward_checked
steps_agree start count end h = ground arith
