-- ===== src/Process/Tests.antt =====
-- A kernel with three processes, its runs, and the theorems at it.
use neuclear.Base.{ℕ, ◌≡◌, refl, Bool, true, false, [], ◌∷◌, Option, none, some, arith}
use neuclear.Base.Int.{ℤ, pos}
use neuclear.Base.Outcome.{ok, panic, ◌>>=◌, echild, err}
use neuclear.Task.Resource.{dealloc}
use neuclear.Signal.{save, read_at, Memory}
use neuclear.Process.{Process, Kernel, upgrade, sys_clone, curr_process, curr_task}
use neuclear.Process.Exit.{sys_exit}
use neuclear.Process.Wait.{Waited, returned, suspended, scan, sys_wait4, any_child}
use neuclear.Process.Schedule.{run_next}
use neuclear.Process.Family.{IsFamily}
use neuclear.Process.Steps.{here, next, Reach-IsForest}
use neuclear.Process.Scan.{Finds}
use neuclear.Process.Collect.{scan-Finds}
use neuclear.Process.Cloned.{Cloned, sys_clone-Cloned}
use neuclear.Process.Fair.{turns, IsRunnable, round_robin}
use neuclear.Process.Boot.{
  pages, process_with, thread_of, boot, init_process, boot-IsFamily, boot-CanFork, after_clone,
  cloned,
}

sys_clone-Cloned_example :
    (n : ℤ) × (k' : Kernel pages) × (sys_clone pages 17 boot ≡ ok (n, k'))
    × Cloned pages boot 0 init_process boot-CanFork n k'
unfolding boot-CanFork
sys_clone-Cloned_example =
    sys_clone-Cloned pages boot 0 17 init_process (omega arith) (omega arith) tt boot-CanFork

Reach-IsForest_example : IsFamily pages 0 [] after_clone
Reach-IsForest_example =
    Reach-IsForest pages 0 (λ a. true) (λ a. true) {k = boot} {k' = after_clone} (next here cloned)
      boot-IsFamily

boot_alive : upgrade pages boot.processes 0 ≡ some init_process
unfolding upgrade
boot_alive = refl

zombie_alive : upgrade pages boot.processes 1 ≡ some (process_with 2 true (some 0) [] 1)
unfolding upgrade
zombie_alive = refl

scan-Finds_example :
    (proper : Bool) × (at : Option ℕ) × (scan pages any_child boot 0 (1 ∷ 2 ∷ []) (false, none)
      ≡ ok (proper, at))
    × Finds pages any_child boot (1 ∷ 2 ∷ []) proper at
scan-Finds_example = scan-Finds pages 0 boot any_child 0 init_process boot-IsFamily boot_alive

-- The processor is free, and two threads are ready.
abbrev idle : Kernel pages
idle = record boot { current = none; tasks = record { ready_queue = 0 ∷ 2 ∷ [] } }

first-IsRunnable : IsRunnable pages idle 0
unfolding upgrade
first-IsRunnable = (thread_of 0 (some 0), init_process, refl, refl)

second-IsRunnable : IsRunnable pages idle 2
unfolding upgrade
second-IsRunnable = (thread_of 2 (some 0), process_with 3 false (some 0) [] 2, refl, refl)

round_robin_example :
    (k' : Kernel pages) × ((turns pages 1 idle >>= run_next pages) ≡ ok k')
    × (k'.current ≡ some 2)
    × (k'.tasks.ready_queue ≡ 0 ∷ [])
round_robin_example =
    round_robin pages (0 ∷ []) [] 2 idle refl (first-IsRunnable, tt) second-IsRunnable

-- The exit of the first process borrows it twice.
init_exit_panics : sys_exit pages 0 boot ≡ panic
unfolding sys_exit dealloc curr_task upgrade
init_exit_panics = refl

abbrev memory_start : Memory ℕ
memory_start = record { at = λ a. 0; last = 3; overlap = λ at ptr v a. 0 }

-- The last zombie is collected, with its exit code; without one, the caller waits, or gets 0.
zombie_collected :
    ◌≡◌ {A = Waited × ℕ × Option (Process pages)}
      (elim (sys_wait4 pages (λ a. true) (λ a. true) any_child 0x100 0 0 boot memory_start) [
        | ok (waited, k, memory) ↦ (waited, memory.at 0x100, upgrade pages k.processes 1)
        | _ ↦ (suspended, 0, none)
      ])
      (returned (pos 2), 768, none)
unfolding sys_wait4 curr_process dealloc save upgrade read_at
zombie_collected = refl

none_collected :
    elim (sys_wait4 pages (λ a. true) (λ a. true) 3 0 1 0 boot memory_start) [
      | ok (waited, k, memory) ↦ waited
      | _ ↦ suspended
    ]
    ≡ returned (pos 0)
unfolding sys_wait4 curr_process upgrade
none_collected = refl

no_such_child : sys_wait4 pages (λ a. true) (λ a. true) 9 0 0 0 boot memory_start ≡ err echild
unfolding sys_wait4 curr_process upgrade
no_such_child = refl
