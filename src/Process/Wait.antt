-- ===== src/Process/Wait.antt =====
-- `sys_wait4` of kernel/crates/major/src/trap/syscall/process.rs. A pass of its loop returns, or gives
-- the processor away and begins again later. The user's memory is as in `Signal`.
use neuclear.Base.{
  ℕ, zero, suc, ◌+◌, ◌*◌, ◌-◌, ◌%◌, ◌^◌, Bool, true, false, not, ◌&&◌, ◌||◌, List, [], ◌∷◌, Option,
  none, some, ltb, ◌==◌, if◌then◌else◌, set, has_bit, contains,
}
use neuclear.Base.Int.{ℤ, pos}
use neuclear.Base.Outcome.{
  Outcome, Error, ok, err, panic, ◌>>=◌, ◌>>◌, assert, unwrap, fail_if, einval, echild, unsupported,
}
use neuclear.Task.Resource.{dealloc}
use neuclear.Signal.{Memory, save}
use neuclear.Task.Timers.{TimerCondVar}
use neuclear.Process.{AddressSpaces, Process, Kernel, upgrade, put_process, curr_process}
use neuclear.Process.Schedule.{suspend_curr_and_run_next, drop_thread}

-- What a pass comes to.
pub data Waited : Type 0 where
  returned : ℤ → Waited
  failed : Error → Waited
  suspended : Waited

-- How often an index is in a list.
unfoldable pub count : ℕ → List ℕ → ℕ
count c [] = 0
count c (x ∷ xs) = (if x == c then 1 else 0) + count c xs

-- `Vec::remove`
unfoldable pub remove_at : ℕ → List ℕ → Option (ℕ × List ℕ)
remove_at i [] = none
remove_at zero (x ∷ xs) = some (x, xs)
remove_at (suc i) (x ∷ xs) = elim (remove_at i xs) [ none ↦ none | some (y, ys) ↦ some (y, x ∷ ys) ]

-- -1 as a usize
abbrev pub any_child : ℕ
any_child = 2 ^ 64 - 1

module _ (mem : AddressSpaces) where
  unfoldable pub is_proper : ℕ → Process mem → Bool
  is_proper pid child = pid == any_child || child.pid == pid

  -- The `for` over the children: whether there is a proper one, and the index of a zombie.
  unfoldable pub scan : ℕ → Kernel mem → ℕ → List ℕ → Bool × Option ℕ → Outcome (Bool × Option ℕ)
  unfolding is_proper
  scan pid k index [] found = ok found
  scan pid k index (c ∷ cs) (proper, at) = do
    child ← unwrap (upgrade mem k.processes c)
    let found =
        if is_proper pid child
        then (true, if child.is_zombie then some index else at)
        else (proper, at)
    scan pid k (suc index) cs found

  -- The `Arc`s of a process that others hold.
  unfoldable pub strong_count : ℕ → List (Option (Process mem)) → ℕ
  unfolding count
  strong_count c [] = 0
  strong_count c (none ∷ ps) = strong_count c ps
  strong_count c (some p ∷ ps) = count c p.children + strong_count c ps

  -- A thread that runs, is ready or sleeps is held besides by its process.
  abbrev pub sleeps_at : ℕ → List TimerCondVar → Bool
  sleeps_at t [] = false
  sleeps_at t (timer ∷ timers) = timer.thread == t || sleeps_at t timers

  abbrev pub is_current : ℕ → Option ℕ → Bool
  is_current t none = false
  is_current t (some u) = u == t

  pub is_held : Kernel mem → ℕ → Bool
  is_held k t = is_current t k.current || contains k.tasks.ready_queue t || sleeps_at t k.timers

  -- The threads of a process that is dropped: those that nobody else holds go too.
  unfoldable pub drop_threads : List (Option ℕ) → Kernel mem → mem.Physical → mem.Physical
  unfolding is_held
  drop_threads [] k frames = frames
  drop_threads (none ∷ ts) k frames = drop_threads ts k frames
  drop_threads (some t ∷ ts) k frames =
      drop_threads ts k (if is_held k t then frames else drop_thread mem k t frames)

  -- Takes a child out of the list, and drops it, with its address space and its threads: its pid and
  -- its exit code.
  unfoldable pub reap : ℕ → ℕ → Kernel mem → Outcome (ℕ × ℕ × Kernel mem)
  unfolding remove_at strong_count drop_threads
  reap r index k = do
    p ← unwrap (upgrade mem k.processes r)
    (c, children) ← unwrap (remove_at index p.children)
    let k' = put_process mem r (record p { children = children }) k
    assert (strong_count c k'.processes + (if c == k.initproc then 1 else 0) == 0)
    child ← unwrap (upgrade mem k'.processes c)
    pids ← dealloc k'.pids child.pid
    ok (
      child.pid,
      child.exit_code,
      record k' {
        processes = set k'.processes c none;
        pids = pids;
        frames = drop_threads child.threads k' (mem.drop_space child.memory_set k'.frames);
      },
    )

  module _ (can_read can_write : ℕ → Bool) where
    -- The child is gone, whether or not its exit code reaches the user.
    unfoldable pub report :
        ℕ → ℕ × ℕ × Kernel mem → Memory ℕ → Outcome (Waited × Kernel mem × Memory ℕ)
    report wstatus (pid, exit_code, k) memory =
        elim (save can_read can_write wstatus (exit_code * 2 ^ 8 % 2 ^ 32) memory) [
          | ok memory' ↦ ok (returned (pos pid), k, memory')
          | err e ↦ ok (failed e, k, memory)
          | panic ↦ panic
        ]

    -- What follows the `for`.
    unfoldable pub conclude :
        ℕ
        → ℕ
        → Bool
        → Bool
        → Option ℕ
        → Kernel mem
        → Memory ℕ
        → Outcome (Waited × Kernel mem × Memory ℕ)
    unfolding reap report
    conclude r wstatus nohang false child_index k memory = err echild
    conclude r wstatus nohang true (some index) k memory = do
      reaped ← reap r index k
      report wstatus reaped memory
    conclude r wstatus nohang true none k memory =
        if nohang
        then ok (returned (pos 0), k, memory)
        else (do k' ← suspend_curr_and_run_next mem k; ok (suspended, k', memory))

    unfoldable pub wait_pass :
        ℕ → ℕ → Bool → Kernel mem → Memory ℕ → Outcome (Waited × Kernel mem × Memory ℕ)
    unfolding scan conclude
    wait_pass pid wstatus nohang k memory = do
      (r, p) ← curr_process mem k
      (has_proper_child, child_index) ← scan pid k 0 p.children (false, none)
      conclude r wstatus nohang has_proper_child child_index k memory

    -- `WaitFlags` are the bits 0, 1 and 3; only the first is supported.
    unfoldable pub sys_wait4 :
        ℕ → ℕ → ℕ → ℕ → Kernel mem → Memory ℕ → Outcome (Waited × Kernel mem × Memory ℕ)
    unfolding wait_pass
    sys_wait4 pid wstatus options rusage k memory = do
      assert (pid == any_child || not (pid == 0) && ltb pid (2 ^ 63))
      assert (rusage == 0)
      let flags = options % 2 ^ 32
      fail_if (not (ltb flags 16) || has_bit flags 2) einval
      fail_if (has_bit flags 1 || has_bit flags 3) unsupported
      wait_pass pid wstatus (has_bit flags 0) k memory
