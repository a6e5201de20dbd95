-- ===== src/Memory/PageTable/Entry.antt =====
-- The fields of a page table entry come back out.
use neuclear.Base.{
  ℕ, ◌+◌, ◌*◌, ◌%◌, ◌^◌, ◌<◌, ◌≡◌, refl, true, false, has_bit, set_bit, arith, word,
}
use neuclear.Memory.PageTable.{pte_new, pte_ppn, pte_flags, flag_v, is_valid}

-- An entry gives back the frame number and the flags that it was made of.
pub pte_new-fields :
    (ppn flags : ℕ)
    → ppn < 2 ^ 44
    → flags < 256
    → (pte_ppn (pte_new ppn flags) ≡ ppn)
      × (pte_flags (pte_new ppn flags) ≡ flags)
      × (is_valid (pte_new ppn flags) ≡ has_bit flags flag_v)
unfolding pte_new pte_ppn pte_flags is_valid
pte_new-fields ppn flags h k = (omega arith, omega arith, rw (low ppn flags h k))
  where
    low : (ppn flags : ℕ) → ppn < 2 ^ 44 → flags < 256 → (ppn * 2 ^ 10 % word + flags) % 256 ≡ flags
    low ppn flags h k = omega arith

pub is_valid-zero : is_valid 0 ≡ false
unfolding is_valid
is_valid-zero = refl

pub set_valid :
    (flags : ℕ)
    → flags < 256
    → (has_bit (set_bit flags flag_v true) flag_v ≡ true) × (set_bit flags flag_v true < 256)
set_valid flags h = (ground arith, ground arith)
