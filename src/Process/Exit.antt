-- ===== src/Process/Exit.antt =====
-- `__exit_curr_and_run_next` of kernel/crates/major/src/task/mod.rs, with what the drop of a thread's
-- user resources does (resource.rs). A second borrow of a process that is borrowed panics.
use neuclear.Base.{
  ℕ, ◌%◌, true, not, List, [], ◌∷◌, ◌++◌, Option, none, some, ◌==◌, if◌then◌else◌, get_elem?,
}
use neuclear.Base.Outcome.{Outcome, ok, ◌>>=◌, ◌>>◌, assert, unwrap}
use neuclear.Memory.Address.{vpn_floor}
use neuclear.Task.Resource.{dealloc, user_stack_low_addr}
use neuclear.Process.{AddressSpaces, Kernel, upgrade, put_process, put_thread, curr_task}

module _ (mem : AddressSpaces) where
  -- The drop of a `ThreadUserRes`.
  unfoldable pub drop_res : ℕ → ℕ → Kernel mem → Outcome (Kernel mem)
  drop_res r tid k = elim (upgrade mem k.processes r) [
    | none ↦ ok k
    | some p ↦ do
      allocator ← dealloc p.thread_res_allocator tid
      let start = vpn_floor (user_stack_low_addr tid)
      (memory_set, frames) ← mem.remove_area_at start p.memory_set k.frames
      let p' = record p { thread_res_allocator = allocator; memory_set = memory_set }
      ok (record (put_process mem r p' k) { frames = frames })
  ]

  -- The children go to the first process, one by one.
  unfoldable pub adopt : List ℕ → Kernel mem → Outcome (Kernel mem)
  adopt [] k = ok k
  adopt (c ∷ cs) k = do
    assert (not (c == k.initproc))
    child ← unwrap (upgrade mem k.processes c)
    let k₁ = put_process mem c (record child { parent = some k.initproc }) k
    init ← unwrap (upgrade mem k₁.processes k₁.initproc)
    adopt cs (put_process mem k₁.initproc (record init { children = init.children ++ c ∷ [] }) k₁)

  -- The first process itself is borrowed here, and panics.
  unfoldable pub give_children : ℕ → Kernel mem → Outcome (Kernel mem)
  unfolding adopt
  give_children r k = do
    assert (not (r == k.initproc))
    p ← unwrap (upgrade mem k.processes r)
    adopt p.children (put_process mem r (record p { children = [] }) k)

  -- `res.take()` of every thread; the tids are what was taken.
  unfoldable pub take_res : List (Option ℕ) → Kernel mem → Outcome (List ℕ × Kernel mem)
  take_res [] k = ok ([], k)
  take_res (none ∷ ts) k = take_res ts k
  take_res (some t ∷ ts) k = do
    task ← unwrap (get_elem? k.threads t)
    (tids, k') ← take_res ts (put_thread mem t (record task { res = none }) k)
    ok (elim task.res [ none ↦ tids | some tid ↦ tid ∷ tids ], k')

  unfoldable pub drop_each : ℕ → List ℕ → Kernel mem → Outcome (Kernel mem)
  unfolding drop_res
  drop_each r [] k = ok k
  drop_each r (tid ∷ tids) k = do k' ← drop_res r tid k; drop_each r tids k'

  -- The exit of a main thread.
  unfoldable pub exit_process : ℕ → ℕ → Kernel mem → Outcome (Kernel mem)
  unfolding give_children take_res drop_each
  exit_process r code k = do
    p ← unwrap (upgrade mem k.processes r)
    let k₁ = put_process mem r (record p { is_zombie = true; exit_code = code }) k
    k₂ ← (if p.pid == 0 then ok k₁ else give_children r k₁)
    (tids, k₃) ← take_res p.threads k₂
    k₄ ← drop_each r tids k₃
    q ← unwrap (upgrade mem k₄.processes r)
    let (memory_set, frames) = mem.recycle_all_pages q.memory_set k₄.frames
    let q' = record q { children = []; memory_set = memory_set; fd_table = [] }
    ok (record (put_process mem r q' k₄) { frames = frames })

  unfoldable pub exit_curr_and_run_next : ℕ → Kernel mem → Outcome (Kernel mem)
  unfolding drop_res exit_process
  exit_curr_and_run_next code k = do
    (t, task) ← curr_task mem k
    process ← unwrap (upgrade mem k.processes task.process)
    tid ← unwrap task.res
    let ended = record task { exit_code = some code; res = none }
    k₁ ← drop_res task.process tid (record (put_thread mem t ended k) { current = none })
    (if tid == 0 then exit_process task.process code k₁ else ok k₁)

  -- `exit_code & 0xff`
  unfoldable pub sys_exit : ℕ → Kernel mem → Outcome (Kernel mem)
  unfolding exit_curr_and_run_next
  sys_exit exit_code = exit_curr_and_run_next (exit_code % 256)
