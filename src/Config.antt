-- ===== src/Config.antt =====
-- kernel/crates/utils/src/config.rs: the constants of the kernel.
use neuclear.Base.{ℕ, ◌*◌, ◌^◌}

abbrev pub page_size_bits : ℕ
page_size_bits = 12

abbrev pub page_size : ℕ
page_size = 2 ^ page_size_bits

abbrev pub pte_per_page : ℕ
pte_per_page = 512

abbrev pub pa_to_va : ℕ
pa_to_va = 0xFFFFFFFF00000000

abbrev pub low_end : ℕ
low_end = 0x4000000000

abbrev pub mmap_start : ℕ
mmap_start = 0x2000000000

abbrev pub user_stack_size : ℕ
user_stack_size = 0x2000

abbrev pub kernel_stack_size : ℕ
kernel_stack_size = 16 * page_size

abbrev pub clock_freq : ℕ
clock_freq = 12500000
