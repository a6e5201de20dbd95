-- ===== src/Process/Steps.antt =====
-- The runs of the kernel: what the running thread and the clock do, one step after another.
use neuclear.Base.{
  ℕ, ◌≡◌, subst, Bool, [], Option, none, some, get_elem?, ◌==◌, not, ◌&&◌, ◌||◌, ltb, leb, ◌^◌, ◌*◌,
  add64, mul64, ◌%◌, ◌/◌, has_bit, true, false,
}
use neuclear.Base.Int.{ℤ, pos}
use neuclear.Base.Outcome.{
  ok, err, panic, unwrap, assert, ok_or, fail_if, temp, einval, unsupported,
}
use neuclear.Base.Holds.{Holds, then-Holds, Holds-ok}
use neuclear.Signal.{Memory, save, try_from_primitive}
use neuclear.Task.Timers.{fetch, add_timer}
use neuclear.Process.{
  AddressSpaces, Kernel, upgrade, curr_task, curr_process, main_thread, fork, sys_clone,
  sys_set_tid_address,
}
use neuclear.Process.Exit.{exit_curr_and_run_next}
use neuclear.Process.Wait.{
  Waited, returned, failed, scan, reap, report, conclude, wait_pass, sys_wait4, any_child,
}
use neuclear.Process.Schedule.{
  block_curr_and_run_next, suspend_curr_and_run_next, run_next, sys_sleep, tick,
}
use neuclear.Process.Family.{IsFamily, fork-IsFamily, exit-IsFamily, reap-IsFamily}

module _ (mem : AddressSpaces) (can_read can_write : ℕ → Bool) where
  pub data Step (k : Kernel mem) (k' : Kernel mem) : Type 0 where
    runs : run_next mem k ≡ ok k' → Step k k'
    yields : suspend_curr_and_run_next mem k ≡ ok k' → Step k k'
    sleeps : (now sec nsec : ℕ) → sys_sleep mem now sec nsec k ≡ ok k' → Step k k'
    ticks : (now : ℕ) → tick mem now k ≡ k' → Step k k'
    clones : (flags : ℕ) (n : ℤ) → sys_clone mem flags k ≡ ok (n, k') → Step k k'
    sets_tid : (tidptr : ℕ) (n : ℤ) → sys_set_tid_address mem tidptr k ≡ ok (n, k') → Step k k'
    exits : (code : ℕ) → exit_curr_and_run_next mem code k ≡ ok k' → Step k k'
    waits :
        (pid wstatus options rusage : ℕ) (w : Waited) (memory memory' : Memory ℕ)
        → sys_wait4 mem can_read can_write pid wstatus options rusage k memory ≡ ok (w, k', memory')
        → Step k k'

  pub data Reach (k : Kernel mem) : Kernel mem → Type 0 where
    here : Reach k k
    next : {k₁ k₂ : Kernel mem} → Reach k k₁ → Step k₁ k₂ → Reach k k₂

module _ (mem : AddressSpaces) (init : ℕ) where
  abbrev Family : Kernel mem → Type 0
  Family = IsFamily mem init []

  suspend-IsFamily : (k : Kernel mem) → Family k → Holds Family (suspend_curr_and_run_next mem k)
  unfolding suspend_curr_and_run_next
  suspend-IsFamily k family = then-Holds Family (curr_task mem k) _ (λ current e. family)

  block-IsFamily : (k : Kernel mem) → Family k → Holds Family (block_curr_and_run_next mem k)
  unfolding block_curr_and_run_next
  block-IsFamily k family = then-Holds Family (curr_task mem k) _ (λ current e. family)

  sleep-IsFamily :
      (now sec nsec : ℕ) (k : Kernel mem) → Family k → Holds Family (sys_sleep mem now sec nsec k)
  unfolding sys_sleep
  sleep-IsFamily now sec nsec k family = then-Holds Family (curr_task mem k) _ (λ current e.
      let expire_ms = add64 (add64 now (mul64 sec 1000)) (nsec / 1000000) in
      block-IsFamily (record k { timers = add_timer expire_ms current.0 k.timers }) family)

  run_next-IsFamily : (k : Kernel mem) → Family k → Holds Family (run_next mem k)
  unfolding run_next
  run_next-IsFamily k family = then-Holds Family (unwrap (fetch k.tasks).0) _ (λ t e₁.
      then-Holds Family (unwrap (get_elem? k.threads t)) _ (λ task e₂.
        then-Holds Family (unwrap (upgrade mem k.processes task.process)) _ (λ p e₃. family)))

  clone-IsFamily :
      (flags : ℕ) (k : Kernel mem)
      → Family k
      → Holds (λ result. Family result.1) (sys_clone mem flags k)
  unfolding sys_clone
  clone-IsFamily flags k family =
      let P : ℤ × Kernel mem → Type 0 = λ result. Family result.1 in
      let forked : ℕ × Kernel mem → Type 0 = λ result. Family result.1 in
      then-Holds P (fail_if (leb (2 ^ 32) flags) temp) _ (λ u₁ e₁.
        then-Holds P (fail_if (leb (2 ^ 17) (flags / 256)) temp) _ (λ u₂ e₂.
          then-Holds P (ok_or (try_from_primitive (flags % 256)) temp) _ (λ signal e₃.
            then-Holds P (fail_if (not (flags / 256 == 0)) temp) _ (λ u₃ e₄.
              then-Holds P (curr_process mem k) _ (λ current e₅.
                then-Holds P (fork mem current.0 k) _ (λ result e₆.
                  then-Holds P (unwrap (upgrade mem result.1.processes result.0)) _ (λ child e₇.
                    then-Holds P (unwrap (main_thread mem child)) _ (λ main_ref e₈.
                      then-Holds P (unwrap (get_elem? result.1.threads main_ref)) _ (λ main e₉.
                        Holds-ok forked (fork mem current.0 k) result
                          (fork-IsFamily mem init current.0 k family) e₆)))))))))

  tid-IsFamily :
      (tidptr : ℕ) (k : Kernel mem)
      → Family k
      → Holds (λ result. Family result.1) (sys_set_tid_address mem tidptr k)
  unfolding sys_set_tid_address
  tid-IsFamily tidptr k family =
      let P : ℤ × Kernel mem → Type 0 = λ result. Family result.1 in
      then-Holds P (curr_task mem k) _
        (λ current e. then-Holds P (unwrap current.1.res) _ (λ tid e'. family))

module _ (mem : AddressSpaces) (init : ℕ) (can_read can_write : ℕ → Bool) where
  -- The state after a pass of `wait4`.
  abbrev Waits : Waited × Kernel mem × Memory ℕ → Type 0
  Waits result = IsFamily mem init [] result.1

  report-IsFamily :
      (wstatus : ℕ) (reaped : ℕ × ℕ × Kernel mem) (memory : Memory ℕ)
      → IsFamily mem init [] reaped.2
      → Holds Waits (report mem can_read can_write wstatus reaped memory)
  unfolding report
  report-IsFamily wstatus (pid, exit_code, k) memory family =
      elim (save can_read can_write wstatus (exit_code * 2 ^ 8 % 2 ^ 32) memory)
        as (λ o. Holds Waits (elim o [
          | ok memory' ↦ ok (returned (pos pid), k, memory')
          | err e ↦ ok (failed e, k, memory)
          | panic ↦ panic
        ])) [ ok memory' ↦ family | err e ↦ family | panic ↦ tt ]

  conclude-IsFamily :
      (r wstatus : ℕ) (nohang found : Bool) (at : Option ℕ) (k : Kernel mem) (memory : Memory ℕ)
      → IsFamily mem init [] k
      → Holds Waits (conclude mem can_read can_write r wstatus nohang found at k memory)
  unfolding conclude
  conclude-IsFamily r wstatus nohang false at k memory family = tt
  conclude-IsFamily r wstatus nohang true (some index) k memory family =
      let collected : ℕ × ℕ × Kernel mem → Type 0 = λ result. IsFamily mem init [] result.2 in
      then-Holds Waits (reap mem r index k) _ (λ reaped e. report-IsFamily wstatus reaped memory (
        Holds-ok collected (reap mem r index k) reaped (reap-IsFamily mem init r index k family) e))
  conclude-IsFamily r wstatus true true none k memory family = family
  conclude-IsFamily r wstatus false true none k memory family =
      then-Holds Waits (suspend_curr_and_run_next mem k) _ (λ k' e.
        Holds-ok (IsFamily mem init []) (suspend_curr_and_run_next mem k) k'
          (suspend-IsFamily mem init k family) e)

  wait_pass-IsFamily :
      (pid wstatus : ℕ) (nohang : Bool) (k : Kernel mem) (memory : Memory ℕ)
      → IsFamily mem init [] k
      → Holds Waits (wait_pass mem can_read can_write pid wstatus nohang k memory)
  unfolding wait_pass
  wait_pass-IsFamily pid wstatus nohang k memory family =
      then-Holds Waits (curr_process mem k) _ (λ current e₁.
        then-Holds Waits (scan mem pid k 0 current.1.children (false, none)) _
          (λ found e₂. conclude-IsFamily current.0 wstatus nohang found.0 found.1 k memory family))

  pub wait4-IsFamily :
      (pid wstatus options rusage : ℕ) (k : Kernel mem) (memory : Memory ℕ)
      → IsFamily mem init [] k
      → Holds Waits (sys_wait4 mem can_read can_write pid wstatus options rusage k memory)
  unfolding sys_wait4
  wait4-IsFamily pid wstatus options rusage k memory family =
      let flags = options % 2 ^ 32 in
      then-Holds Waits (assert (pid == any_child || not (pid == 0) && ltb pid (2 ^ 63))) _ (λ u₁ e₁.
        then-Holds Waits (assert (rusage == 0)) _ (λ u₂ e₂.
          then-Holds Waits (fail_if (not (ltb flags 16) || has_bit flags 2) einval) _ (λ u₃ e₃.
            then-Holds Waits (fail_if (has_bit flags 1 || has_bit flags 3) unsupported) _
              (λ u₄ e₄. wait_pass-IsFamily pid wstatus (has_bit flags 0) k memory family))))

  pub Step-IsFamily :
      {k k' : Kernel mem}
      → Step mem can_read can_write k k'
      → IsFamily mem init [] k
      → IsFamily mem init [] k'
  unfolding tick
  Step-IsFamily {k} {k'} (runs e) f = Holds-ok _ _ k' (run_next-IsFamily mem init k f) e
  Step-IsFamily {k} {k'} (yields e) f = Holds-ok _ _ k' (suspend-IsFamily mem init k f) e
  Step-IsFamily {k} {k'} (sleeps now sec nsec e) f =
      Holds-ok _ _ k' (sleep-IsFamily mem init now sec nsec k f) e
  Step-IsFamily {k} {k'} (ticks now e) f = subst (IsFamily mem init []) e f
  Step-IsFamily {k} {k'} (clones flags n e) f =
      Holds-ok (λ r. IsFamily mem init [] r.1) _ (n, k') (clone-IsFamily mem init flags k f) e
  Step-IsFamily {k} {k'} (sets_tid tidptr n e) f =
      Holds-ok (λ r. IsFamily mem init [] r.1) _ (n, k') (tid-IsFamily mem init tidptr k f) e
  Step-IsFamily {k} {k'} (exits code e) f = Holds-ok _ _ k' (exit-IsFamily mem init code k f) e
  Step-IsFamily {k} {k'} (waits pid wstatus options rusage w memory memory' e) f =
      Holds-ok Waits _ (w, k', memory') (wait4-IsFamily pid wstatus options rusage k memory f) e

  -- Whatever runs: no process is a child twice, every child is alive, and the first process is alive
  -- and nobody's child, if it was so at the start.
  pub Reach-IsForest :
      {k k' : Kernel mem}
      → Reach mem can_read can_write k k'
      → IsFamily mem init [] k
      → IsFamily mem init [] k'
  Reach-IsForest here f = f
  Reach-IsForest (next r s) f = Step-IsFamily s (Reach-IsForest r f)
