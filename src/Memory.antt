-- ===== src/Memory.antt =====
-- kernel/crates/memory/src: addresses, physical frames, page tables and address spaces.
pub mod Address
pub mod Frames
pub mod PageTable
pub mod Space
pub mod Fork
pub mod Bump
