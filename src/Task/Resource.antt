-- ===== src/Task/Resource.antt =====
-- kernel/crates/major/src/task/resource.rs: the allocator of pids and tids, and the places of the
-- stacks. `recycled` is a stack, its end at the head of the list.
pub mod Ids
pub mod Stacks
mod Tests
use neuclear.Base.{ℕ, ◌+◌, ◌*◌, Bool, not, List, [], ◌∷◌, ltb, contains, add64, sub64, mul64}
use neuclear.Base.Outcome.{Outcome, ok, ◌>>=◌, ◌>>◌, assert}
use neuclear.Config.{low_end, page_size, user_stack_size}

pub record RecycleAllocator : Type 0 where
  pub current : ℕ
  pub recycled : List ℕ

pub begin_with : ℕ → RecycleAllocator
begin_with begin = record { current = begin; recycled = [] }

alloc_from : List ℕ → RecycleAllocator → ℕ × RecycleAllocator
alloc_from [] a =
    let current = add64 a.current 1 in (sub64 current 1, record a { current = current })
alloc_from (id ∷ rest) a = (id, record a { recycled = rest })

unfoldable pub alloc : RecycleAllocator → ℕ × RecycleAllocator
unfolding alloc_from
alloc a = alloc_from a.recycled a

unfoldable pub dealloc : RecycleAllocator → ℕ → Outcome RecycleAllocator
dealloc a id = do
  assert (ltb id a.current)
  assert (not (contains a.recycled id))
  ok (record a { recycled = id ∷ a.recycled })

-- `ThreadUserRes`, by its tid.
pub user_stack_high_addr : ℕ → ℕ
user_stack_high_addr tid = sub64 low_end (mul64 tid (user_stack_size + page_size))

pub user_stack_low_addr : ℕ → ℕ
unfolding user_stack_high_addr
user_stack_low_addr tid = sub64 (user_stack_high_addr tid) user_stack_size
