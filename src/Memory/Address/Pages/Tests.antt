-- ===== src/Memory/Address/Pages/Tests.antt =====
-- The laws of pages at concrete addresses.
use neuclear.Base.{ℕ, ◌≤◌, ◌<◌, ◌≡◌, ◌↔◌, arith}
use neuclear.Memory.Address.{vpn_floor, vpn_ceil}
use neuclear.Memory.Address.Pages.{pages_cover}

pages_cover_example :
    ((vpn_floor 0x1abc ≤ 2) × (2 < vpn_ceil 0x3001))
    ↔ ((va : ℕ) × (0x1abc ≤ va) × (va < 0x3001) × (vpn_floor va ≡ 2))
pages_cover_example = pages_cover 0x1abc 0x3001 2 (omega arith) (omega arith)
