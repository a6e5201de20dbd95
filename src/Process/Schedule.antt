-- ===== src/Process/Schedule.antt =====
-- The scheduler: kernel/crates/major/src/task/mod.rs and processor.rs, and the calls yield and sleep of
-- kernel/crates/major/src/trap/syscall/process.rs and sync.rs. A step ends where `__switch` gives the
-- processor away; the time that the clock shows is an argument.
use neuclear.Base.{
  ℕ, List, [], ◌∷◌, leb, if◌then◌else◌, ◌/◌, Bool, none, some, get_elem?, is_none, not, add64,
  mul64,
}
use neuclear.Base.Outcome.{Outcome, ok, ◌>>=◌, unwrap}
use neuclear.Task.Timers.{TimerCondVar, add, fetch, add_timer, check_timer}
use neuclear.Process.{
  AddressSpaces, ready, running, blocking, Kernel, upgrade, put_thread, curr_task,
}

module _ (mem : AddressSpaces) where
  unfoldable pub block_curr_and_run_next : Kernel mem → Outcome (Kernel mem)
  unfolding curr_task
  block_curr_and_run_next k = do
    (t, task) ← curr_task mem k
    let k' = put_thread mem t (record task { thread_status = blocking }) k
    ok (record k' { current = none })

  unfoldable pub suspend_curr_and_run_next : Kernel mem → Outcome (Kernel mem)
  unfolding curr_task
  suspend_curr_and_run_next k = do
    (t, task) ← curr_task mem k
    let k' = put_thread mem t (record task { thread_status = ready }) k
    ok (record k' { current = none; tasks = add k.tasks t })

  -- One round of the loop in `run_tasks`.
  unfoldable pub run_next : Kernel mem → Outcome (Kernel mem)
  run_next k = do
    let (found, tasks) = fetch k.tasks
    t ← unwrap found
    task ← unwrap (get_elem? k.threads t)
    process ← unwrap (upgrade mem k.processes task.process)
    let k' = put_thread mem t (record task { thread_status = running }) k
    ok (record k' { current = some t; tasks = tasks })

  -- `req` holds `sec` and `nsec`; `now` is the time in milliseconds.
  unfoldable pub sys_sleep : ℕ → ℕ → ℕ → Kernel mem → Outcome (Kernel mem)
  unfolding block_curr_and_run_next
  sys_sleep now sec nsec k = do
    let expire_ms = add64 (add64 now (mul64 sec 1000)) (nsec / 1000000)
    (t, task) ← curr_task mem k
    block_curr_and_run_next (record k { timers = add_timer expire_ms t k.timers })

  -- `thread.process.strong_count() > 0`
  abbrev pub alive : Kernel mem → ℕ → Bool
  alive k t = elim (get_elem? k.threads t) [
    | none ↦ Bool.false
    | some task ↦ not (is_none (upgrade mem k.processes task.process))
  ]

  -- The drop of a thread, by its last `Arc`.
  unfoldable pub drop_thread : Kernel mem → ℕ → mem.Physical → mem.Physical
  drop_thread k t frames = elim (get_elem? k.threads t) [
    | none ↦ frames
    | some task ↦ mem.drop_stack task.kernel_stack frames
  ]

  -- The threads of expired timers whose process is gone: the timer was the last to hold them.
  drop_expired : Kernel mem → ℕ → List TimerCondVar → mem.Physical → mem.Physical
  unfolding drop_thread
  drop_expired k now [] frames = frames
  drop_expired k now (timer ∷ timers) frames =
      let later =
        drop_expired k now timers
          (if alive k timer.thread then frames else drop_thread k timer.thread frames) in
      if leb timer.expire_ms now then later else frames

  unfoldable pub tick : ℕ → Kernel mem → Kernel mem
  unfolding drop_expired
  tick now k =
      let (timers, tasks, empty) = check_timer (alive k) now k.timers k.tasks in
      record k { timers = timers; tasks = tasks; frames = drop_expired k now k.timers k.frames }
