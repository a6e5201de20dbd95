-- ===== src/Task/Resource/Stacks.antt =====
-- User stacks of different threads do not meet.
use neuclear.Base.{ℕ, ◌+◌, ◌≤◌, ◌<◌, ◌≡◌, arith}
use neuclear.Config.{low_end, page_size, user_stack_size}
use neuclear.Task.Resource.{user_stack_high_addr, user_stack_low_addr}

-- The number of stacks that fit below 256 GiB.
abbrev pub max_stacks : ℕ
max_stacks = 22369621

-- A stack has its full size, and at least a guard page between it and the stack of the next tid.
pub user_stacks_apart :
    (t u : ℕ)
    → t < u
    → u < max_stacks
    → (user_stack_low_addr t + user_stack_size ≡ user_stack_high_addr t)
      × (user_stack_high_addr u + page_size ≤ user_stack_low_addr t)
      × (user_stack_high_addr t ≤ low_end)
unfolding user_stack_high_addr user_stack_low_addr
user_stacks_apart t u h k = omega arith
