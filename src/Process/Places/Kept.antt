-- ===== src/Process/Places/Kept.antt =====
-- The scheduler loses no thread.
use neuclear.Base.{
  ℕ, ◌+◌, ◌/◌, ◌≡◌, ◌≢◌, refl, sym, ◌∙◌, ap, inl, inr, Bool, true, false, List, [], ◌∷◌, none,
  arith, leb, ◌==◌, get_elem?, Bool-cases, add64, mul64,
}
use neuclear.Base.Outcome.{ok, unwrap}
use neuclear.Base.Holds.{Holds, then-Holds, Holds-ok, unwrap-ok}
use neuclear.Task.Timers.{TaskManager, TimerCondVar, add, fetch, add_timer, expire, check_timer}
use neuclear.Process.{AddressSpaces, Kernel, upgrade, curr_task}
use neuclear.Process.Held.{count-append}
use neuclear.Process.Places.{sleeping, places, curr_task-current, fetched, sleeping-push_timer}
use neuclear.Process.Schedule.{
  run_next, suspend_curr_and_run_next, block_curr_and_run_next, sys_sleep, tick, alive,
}
use neuclear.Process.Wait.{count}

expire-keeps :
    (t : ℕ) (lives : ℕ → Bool) (now : ℕ) (timers : List TimerCondVar) (m : TaskManager)
    → lives t ≡ true
    → let (left, m') = expire lives now timers m in
      sleeping t left + count t m'.ready_queue ≡ sleeping t timers + count t m.ready_queue
unfolding expire add count
expire-keeps t lives now [] m h = refl
expire-keeps t lives now (timer ∷ timers) m h =
    let woken = expire-keeps t lives now timers (add m timer.thread) h in
    let gone = expire-keeps t lives now timers m h in
    let queued = count-append t m.ready_queue (timer.thread ∷ []) in
    elim (Bool-cases (leb timer.expire_ms now)) [
      | inr waits ↦ rw waits refl
      | inl due ↦ elim (Bool-cases (lives timer.thread)) [
        | inl is_alive ↦ rw (due, is_alive) (omega (arith, woken, queued))
        | inr is_dead ↦
            let ne : timer.thread ≢ t = (λ e. cc (h, is_dead, ap lives e)) in
            let other : (timer.thread == t) ≡ false = ground arith in
            rw (due, is_dead, other) (omega (arith, gone))
      ]
    ]

module _ (mem : AddressSpaces) (t : ℕ) where
  -- What the scheduler does: it takes a thread while none runs, the running thread yields or sleeps,
  -- and the clock ticks while the process of thread `t` exists.
  pub data Move (k k' : Kernel mem) : Type 0 where
    dispatches : k.current ≡ none → run_next mem k ≡ ok k' → Move k k'
    gives_way : suspend_curr_and_run_next mem k ≡ ok k' → Move k k'
    dozes : (now sec nsec : ℕ) → sys_sleep mem now sec nsec k ≡ ok k' → Move k k'
    passes : (now : ℕ) → alive mem k t ≡ true → tick mem now k ≡ k' → Move k k'

  pub data Moves (k : Kernel mem) : Kernel mem → Type 0 where
    none_yet : Moves k k
    then_moves : {k₁ k₂ : Kernel mem} → Moves k k₁ → Move k₁ k₂ → Moves k k₂

  abbrev Same : Kernel mem → Kernel mem → Type 0
  Same k k' = places mem t k' ≡ places mem t k

  run_next-Same : (k : Kernel mem) → k.current ≡ none → Holds (Same k) (run_next mem k)
  unfolding run_next count fetch
  run_next-Same k idle = then-Holds (Same k) (unwrap (fetch k.tasks).0) _ λ u e₁.
      then-Holds (Same k) (unwrap (get_elem? k.threads u)) _ λ task e₂.
        then-Holds (Same k) (unwrap (upgrade mem k.processes task.process)) _
          λ p e₃. rw (idle, fetched k.tasks u (unwrap-ok (fetch k.tasks).0 u e₁)) (omega arith)

  suspend-Same : (k : Kernel mem) → Holds (Same k) (suspend_curr_and_run_next mem k)
  unfolding suspend_curr_and_run_next add count
  suspend-Same k = then-Holds (Same k) (curr_task mem k) _ λ current e.
      rw (curr_task-current mem k current e, count-append t k.tasks.ready_queue (current.0 ∷ []))
        (omega arith)

  sleep-Same : (now sec nsec : ℕ) (k : Kernel mem) → Holds (Same k) (sys_sleep mem now sec nsec k)
  unfolding sys_sleep block_curr_and_run_next add_timer
  sleep-Same now sec nsec k = then-Holds (Same k) (curr_task mem k) _ λ current e.
      then-Holds (Same k) (curr_task mem k) _ λ blocked e'.
        rw
          (
            curr_task-current mem k current e,
            sleeping-push_timer t
                (record {
                  expire_ms = add64 (add64 now (mul64 sec 1000)) (nsec / 1000000);
                  thread = current.0;
                })
                k.timers,
          )
          (omega arith)

  Move-Same : {k k' : Kernel mem} → Move k k' → Same k k'
  unfolding tick check_timer
  Move-Same {k} {k'} (dispatches idle e) = Holds-ok (Same k) _ k' (run_next-Same k idle) e
  Move-Same {k} {k'} (gives_way e) = Holds-ok (Same k) _ k' (suspend-Same k) e
  Move-Same {k} {k'} (dozes now sec nsec e) = Holds-ok (Same k) _ k' (sleep-Same now sec nsec k) e
  Move-Same {k} {k'} (passes now lives e) =
      sym (ap (places mem t) e)
      ∙ omega (arith, expire-keeps t (alive mem k) now k.timers k.tasks lives)

  -- However the scheduler takes threads while none runs, threads yield and sleep, and the clock ticks
  -- while the process of the thread exists: a thread that runs, waits in the ready queue or sleeps does
  -- just one of these afterwards too, if it did just one before.
  pub Moves-kept : {k k' : Kernel mem} → Moves k k' → places mem t k ≡ 1 → places mem t k' ≡ 1
  Moves-kept none_yet h = h
  Moves-kept (then_moves ms m) h = Move-Same m ∙ Moves-kept ms h
