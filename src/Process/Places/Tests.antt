-- ===== src/Process/Places/Tests.antt =====
-- A thread that yields stays in the queue.
use neuclear.Base.{◌≡◌, refl, true, arith, none, some, ◌∷◌, []}
use neuclear.Base.Outcome.{ok}
use neuclear.Task.Timers.{add, fetch}
use neuclear.Process.{Kernel, Thread, ready, running, upgrade, curr_task}
use neuclear.Process.Places.{places}
use neuclear.Process.Places.Kept.{Moves-kept, none_yet, then_moves, gives_way, dispatches}
use neuclear.Process.Places.Runs.{IsOnce, Reach-IsOnce}
use neuclear.Process.Schedule.{suspend_curr_and_run_next, run_next}
use neuclear.Process.Steps.{next, here}
use neuclear.Process.Boot.{pages, boot, thread_of, after_clone, cloned}
use neuclear.Process.Wait.{count}

boot-IsOnce : IsOnce pages boot
unfolding count
boot-IsOnce = record { once = λ t. ground arith; exist = λ t h. ground arith }

Reach-IsOnce_example : IsOnce pages after_clone
Reach-IsOnce_example =
    Reach-IsOnce pages (λ a. true) (λ a. true) {k = boot} {k' = after_clone} (next here cloned)
      boot-IsOnce

abbrev waiting : Thread
waiting = record (thread_of 0 (some 0)) { thread_status = ready }

abbrev after_yield : Kernel pages
after_yield = record boot {
  threads = waiting ∷ thread_of 1 none ∷ thread_of 2 (some 0) ∷ [];
  current = none;
  tasks = record { ready_queue = 2 ∷ 0 ∷ [] };
}

yielded : suspend_curr_and_run_next pages boot ≡ ok after_yield
unfolding suspend_curr_and_run_next curr_task add
yielded = refl

abbrev after_dispatch : Kernel pages
after_dispatch = record after_yield {
  threads =
      waiting ∷ thread_of 1 none ∷ record (thread_of 2 (some 0)) { thread_status = running } ∷ [];
  current = some 2;
  tasks = record { ready_queue = 0 ∷ [] };
}

dispatched : run_next pages after_yield ≡ ok after_dispatch
unfolding run_next fetch upgrade
dispatched = refl

runs_once : places pages 0 boot ≡ 1
unfolding count
runs_once = refl

Moves-kept_example : places pages 0 after_dispatch ≡ 1
Moves-kept_example =
    Moves-kept pages 0 {k = boot} {k' = after_dispatch}
      (then_moves (then_moves none_yet (gives_way yielded)) (dispatches refl dispatched)) runs_once
