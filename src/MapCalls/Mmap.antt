-- ===== src/MapCalls/Mmap.antt =====
-- Mapping pages at no fixed address.
use neuclear.Base.{ℕ, ◌≡◌, true, false, some, has_bit}
use neuclear.MapCalls.{flags_from_bits, map_anonymous, map_shared}

-- The flags that are served: known, with MAP_ANONYMOUS, without MAP_SHARED. MAP_PRIVATE and MAP_FIXED
-- may be set or not.
pub record IsServed (flags : ℕ) : Type 0 where
  pub known : flags_from_bits flags ≡ some flags
  pub anonymous : has_bit flags map_anonymous ≡ true
  pub unshared : has_bit flags map_shared ≡ false
