-- ===== src/Task/Resource/Tests.antt =====
-- Runs of the allocator, and the theorems at concrete states.
use neuclear.Base.{◌+◌, ◌≤◌, ◌≡◌, refl, [], ◌∷◌, arith}
use neuclear.Base.Outcome.{panic}
use neuclear.Config.{low_end, page_size, user_stack_size}
use neuclear.Task.Resource.{
  RecycleAllocator, user_stack_high_addr, user_stack_low_addr, alloc, dealloc,
}
use neuclear.Task.Resource.Ids.{Frees, dealloc-Frees}
use neuclear.Task.Resource.Stacks.{user_stacks_apart}

-- Ids 1 to 4 were handed out, and 3 came back.
abbrev some_back : RecycleAllocator
some_back = record { current = 5; recycled = 3 ∷ [] }

alloc_reuses : (alloc some_back).0 ≡ 3
unfolding alloc
alloc_reuses = refl

dealloc_twice : dealloc some_back 3 ≡ panic
unfolding dealloc
dealloc_twice = refl

dealloc-Frees_example : Frees some_back 4 (dealloc some_back 4)
dealloc-Frees_example = dealloc-Frees some_back 4 (omega arith, refl, tt)

user_stacks_apart_example :
    (user_stack_low_addr 0 + user_stack_size ≡ user_stack_high_addr 0)
    × (user_stack_high_addr 1 + page_size ≤ user_stack_low_addr 0)
    × (user_stack_high_addr 0 ≤ low_end)
user_stacks_apart_example = user_stacks_apart 0 1 (omega arith) (omega arith)
