-- ===== src/Task/UserPtr/Granted.antt =====
-- User pointers and the areas of an address space.
use neuclear.Base.{
  ℕ, ◌+◌, ◌^◌, ◌<◌, ◌≤◌, ◌≡◌, ◌∙◌, ap, Bool, true, ◌&&◌, some, arith, if◌then◌else◌, has_bit,
  set_bit,
}
use neuclear.Base.Outcome.{ok, err, efault}
use neuclear.Memory.Address.{vpn_floor}
use neuclear.Memory.Frames.{Buddy, begin_frame}
use neuclear.Memory.PageTable.{State, pte_new, pte_flags, flag_v, flag_r, flag_w, flag_u}
use neuclear.Memory.PageTable.Pool.{BuddyLaws}
use neuclear.Memory.PageTable.Map.{entry_of}
use neuclear.Memory.Space.Areas.{Filled}
use neuclear.Task.UserPtr.{
  grants_read, grants_write, check_ptr, check_ptr_mut, check_slice, check_slice_mut,
}

pte_flags-pte_new : (ppn flags : ℕ) → flags < 256 → pte_flags (pte_new ppn flags) ≡ flags
unfolding pte_flags pte_new
pte_flags-pte_new ppn flags h = omega arith

-- The permissions of user data: R and U, and W besides.
abbrev pub has_read : ℕ → Bool
has_read perm = has_bit perm flag_r && has_bit perm flag_u

abbrev pub has_write : ℕ → Bool
has_write perm = has_bit perm flag_r && has_bit perm flag_w && has_bit perm flag_u

set_valid-keeps :
    (perm : ℕ)
    → perm < 256
    → (set_bit perm flag_v true < 256)
      × (has_read (set_bit perm flag_v true) ≡ has_read perm)
      × (has_write (set_bit perm flag_v true) ≡ has_write perm)
set_valid-keeps perm h = (ground arith, ground arith, ground arith)

grants-pte_new :
    (ppn perm : ℕ)
    → perm < 256
    → (grants_read (pte_new ppn (set_bit perm flag_v true)) ≡ has_read perm)
      × (grants_write (pte_new ppn (set_bit perm flag_v true)) ≡ has_write perm)
unfolding grants_read grants_write
grants-pte_new ppn perm h =
    let (byte, read, write) = set_valid-keeps perm h in
    let flags = pte_flags-pte_new ppn (set_bit perm flag_v true) byte in
    (rw flags read, rw flags write)

module _ (buddy : Buddy) (laws : BuddyLaws buddy) (ekernel : ℕ)
    (room : laws.capacity + begin_frame buddy ekernel < 2 ^ 44) where
  checks_at :
      (s : State buddy ekernel) (ptr len bits : ℕ)
      → entry_of buddy laws ekernel room s (vpn_floor ptr) ≡ some bits
      → (check_ptr s.table s.machine.memory ptr ≡ (if grants_read bits then ok ptr else err efault))
        × (check_ptr_mut s.table s.machine.memory ptr
            ≡ (if grants_write bits then ok ptr else err efault))
        × (check_slice s.table s.machine.memory ptr len
            ≡ (if grants_read bits then ok (ptr, len) else err efault))
        × (check_slice_mut s.table s.machine.memory ptr len
            ≡ (if grants_write bits then ok (ptr, len) else err efault))
  unfolding check_ptr check_ptr_mut check_slice check_slice_mut
  checks_at s ptr len bits e = (ground arith, ground arith, ground arith, ground arith)

  -- A pointer into an area that was just filled passes the checks for reading exactly if the area is
  -- readable for the user, and those for writing exactly if it is writable besides; any other answer
  -- is EFAULT. For a slice its first byte decides, whatever the length.
  pub checks-Filled :
      (s s' : State buddy ekernel) (vpn count perm : ℕ) (frame : ℕ → ℕ) (ptr len : ℕ)
      → Filled buddy laws ekernel room s vpn count perm s' frame
      → perm < 256
      → vpn ≤ vpn_floor ptr
      → vpn_floor ptr < vpn + count
      → (check_ptr s'.table s'.machine.memory ptr ≡ (if has_read perm then ok ptr else err efault))
        × (check_ptr_mut s'.table s'.machine.memory ptr
            ≡ (if has_write perm then ok ptr else err efault))
        × (check_slice s'.table s'.machine.memory ptr len
            ≡ (if has_read perm then ok (ptr, len) else err efault))
        × (check_slice_mut s'.table s'.machine.memory ptr len
            ≡ (if has_write perm then ok (ptr, len) else err efault))
  checks-Filled s s' vpn count perm frame ptr len filled byte low high =
      let (a, b, c, d) = checks_at s' ptr len _ (filled.pages (vpn_floor ptr) low high) in
      let (read, write) = grants-pte_new (frame (vpn_floor ptr)) perm byte in
      (
        a ∙ ap (λ t. if t then ok ptr else err efault) read,
        b ∙ ap (λ t. if t then ok ptr else err efault) write,
        c ∙ ap (λ t. if t then ok (ptr, len) else err efault) read,
        d ∙ ap (λ t. if t then ok (ptr, len) else err efault) write,
      )
