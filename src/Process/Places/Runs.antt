-- ===== src/Process/Places/Runs.antt =====
-- Whatever runs, a thread stands at one place at most.
use neuclear.Base.{
  ℕ, suc, ◌+◌, ◌/◌, ◌%◌, ◌^◌, ◌≤◌, ◌≡◌, ℕ_discrete, subst, Bool, true, false, not, [], ◌∷◌, ◌++◌,
  arith, leb, ◌==◌, if◌then◌else◌, get_elem?, length, length-set, length-append,
}
use neuclear.Base.Int.{ℤ}
use neuclear.Base.Outcome.{unwrap, assert, ok_or, fail_if, temp}
use neuclear.Base.Holds.{Holds, then-Holds, Holds-ok}
use neuclear.Signal.{try_from_primitive}
use neuclear.Task.Timers.{add}
use neuclear.Process.{
  AddressSpaces, Kernel, upgrade, curr_task, curr_process, main_thread, fork, sys_clone,
  sys_set_tid_address, put_thread, from_existed, return_zero,
}
use neuclear.Process.Held.{count-append}
use neuclear.Process.Places.{
  at_current, sleeping, places, Fewer, run_next-Fewer, suspend-Fewer, sleep-Fewer, tick-Fewer,
}
use neuclear.Process.Places.Ends.{exit-Fewer, wait4-Fewer, after}
use neuclear.Process.Schedule.{tick}
use neuclear.Process.Steps.{
  Step, Reach, runs, yields, sleeps, ticks, clones, sets_tid, exits, waits, here, next,
}
use neuclear.Process.Wait.{count}

module _ (mem : AddressSpaces) where
  -- A thread runs, or stands in the ready queue once, or sleeps once, or none of these; and only
  -- threads that exist do.
  pub record IsOnce (k : Kernel mem) : Type 0 where
    pub once : (t : ℕ) → places mem t k ≤ 1
    pub exist : (t : ℕ) → length k.threads ≤ t → places mem t k ≡ 0

  Fewer-IsOnce : (k k' : Kernel mem) → IsOnce k → Fewer mem k k' → IsOnce k'
  Fewer-IsOnce k k' i f = record {
    once = λ t. omega (arith, i.once t, f.at t);
    exist = λ t h. omega (arith, i.exist t (omega (arith, f.threads)), f.at t);
  }

  -- The new thread is in the queue.
  abbrev queued : ℕ → Kernel mem → ℕ
  queued t k =
      at_current t k.current
      + count t (k.tasks.ready_queue ++ length k.threads ∷ [])
      + sleeping t k.timers

  queued-places :
      (k : Kernel mem) (t : ℕ)
      → queued t k ≡ places mem t k + (if length k.threads == t then 1 else 0)
  unfolding count
  queued-places k t =
      let split = count-append t k.tasks.ready_queue (length k.threads ∷ []) in omega (arith, split)

  queued_once : (k : Kernel mem) → IsOnce k → (t : ℕ) → queued t k ≤ 1
  queued_once k i t = elim (ℕ_discrete (length k.threads) t) [
    | yes same ↦
        let equal : (length k.threads == t) ≡ true = ground arith in
        rw (queued-places k t, equal) (omega (arith, i.exist t (omega arith)))
    | no other ↦
        let unequal : (length k.threads == t) ≡ false = ground arith in
        rw (queued-places k t, unequal) (omega (arith, i.once t))
  ]

  queued_exist : (k : Kernel mem) → IsOnce k → (t : ℕ) → suc (length k.threads) ≤ t → queued t k ≡ 0
  queued_exist k i t h =
      let unequal : (length k.threads == t) ≡ false = ground arith in
      rw (queued-places k t, unequal) (omega (arith, i.exist t (omega arith)))

  fork-IsOnce :
      (r : ℕ) (k : Kernel mem)
      → IsOnce k
      → Holds (λ (forked : ℕ × Kernel mem). IsOnce forked.1) (fork mem r k)
  unfolding fork add count
  fork-IsOnce r k i =
      let P : ℕ × Kernel mem → Type 0 = λ forked. IsOnce forked.1 in
      then-Holds P (unwrap (upgrade mem k.processes r)) _ λ parent e₁.
        then-Holds P (assert (length parent.threads == 1)) _ λ u e₂.
          then-Holds P (mem.from_existed_user parent.memory_set k.frames) _ λ copied e₃.
            then-Holds P (unwrap (main_thread mem parent)) _ λ main_ref e₄.
              then-Holds P (unwrap (get_elem? k.threads main_ref)) _ λ main e₅.
                then-Holds P (unwrap main.res) _ λ tid e₆.
                  then-Holds P (mem.kstack_alloc copied.1) _ λ stack e₇. record {
                    once = λ t. queued_once k i t;
                    exist = λ t h. queued_exist k i t (
                        omega (
                          arith,
                          h,
                          length-append k.threads
                              (from_existed mem main tid (length k.processes) stack.0 ∷ []),
                        ));
                  }

  clone-IsOnce :
      (flags : ℕ) (k : Kernel mem)
      → IsOnce k
      → Holds (λ (result : ℤ × Kernel mem). IsOnce result.1) (sys_clone mem flags k)
  unfolding sys_clone
  clone-IsOnce flags k i =
      let P : ℤ × Kernel mem → Type 0 = λ result. IsOnce result.1 in
      let forked : ℕ × Kernel mem → Type 0 = λ result. IsOnce result.1 in
      then-Holds P (fail_if (leb (2 ^ 32) flags) temp) _ λ u₁ e₁.
        then-Holds P (fail_if (leb (2 ^ 17) (flags / 256)) temp) _ λ u₂ e₂.
          then-Holds P (ok_or (try_from_primitive (flags % 256)) temp) _ λ signal e₃.
            then-Holds P (fail_if (not (flags / 256 == 0)) temp) _ λ u₃ e₄.
              then-Holds P (curr_process mem k) _ λ current e₅.
                then-Holds P (fork mem current.0 k) _ λ result e₆.
                  then-Holds P (unwrap (upgrade mem result.1.processes result.0)) _ λ child e₇.
                    then-Holds P (unwrap (main_thread mem child)) _ λ main_ref e₈.
                      then-Holds P (unwrap (get_elem? result.1.threads main_ref)) _ λ main e₉.
                        Fewer-IsOnce result.1
                          (put_thread mem main_ref (return_zero mem main) result.1)
                          (Holds-ok forked (fork mem current.0 k) result (fork-IsOnce current.0 k i)
                            e₆)
                          (record {
                            at = λ t. omega arith;
                            threads = length-set result.1.threads main_ref _;
                          })

  tid-Fewer :
      (tidptr : ℕ) (k : Kernel mem)
      → Holds (λ (result : ℤ × Kernel mem). Fewer mem k result.1) (sys_set_tid_address mem tidptr k)
  unfolding sys_set_tid_address
  tid-Fewer tidptr k =
      let P : ℤ × Kernel mem → Type 0 = λ result. Fewer mem k result.1 in
      then-Holds P (curr_task mem k) _ λ current e.
        then-Holds P (unwrap current.1.res) _
          λ tid e'. record { at = λ t. omega arith; threads = length-set k.threads current.0 _ }

module _ (mem : AddressSpaces) (can_read can_write : ℕ → Bool) where
  Step-IsOnce :
      {k k' : Kernel mem} → Step mem can_read can_write k k' → IsOnce mem k → IsOnce mem k'
  Step-IsOnce {k} {k'} (runs e) i =
      Fewer-IsOnce mem k k' i (Holds-ok _ _ k' (run_next-Fewer mem k) e)
  Step-IsOnce {k} {k'} (yields e) i =
      Fewer-IsOnce mem k k' i (Holds-ok _ _ k' (suspend-Fewer mem k) e)
  Step-IsOnce {k} {k'} (sleeps now sec nsec e) i =
      Fewer-IsOnce mem k k' i (Holds-ok _ _ k' (sleep-Fewer mem now sec nsec k) e)
  Step-IsOnce {k} {k'} (ticks now e) i =
      subst (IsOnce mem) e (Fewer-IsOnce mem k (tick mem now k) i (tick-Fewer mem now k))
  Step-IsOnce {k} {k'} (clones flags n e) i =
      Holds-ok (λ r. IsOnce mem r.1) _ (n, k') (clone-IsOnce mem flags k i) e
  Step-IsOnce {k} {k'} (sets_tid tidptr n e) i =
      Fewer-IsOnce mem k k' i (Holds-ok (λ r. Fewer mem k r.1) _ (n, k') (tid-Fewer mem tidptr k) e)
  Step-IsOnce {k} {k'} (exits code e) i =
      Fewer-IsOnce mem k k' i (Holds-ok _ _ k' (exit-Fewer mem code k) e)
  Step-IsOnce {k} {k'} (waits pid wstatus options rusage w memory memory' e) i =
      Fewer-IsOnce mem k k' i (
        Holds-ok (λ r. Fewer mem k (after mem can_read can_write r)) _ (w, k', memory')
          (wait4-Fewer mem can_read can_write pid wstatus options rusage k memory) e)

  -- Whatever runs: no thread stands at two places, where the places are the processor, each entry of
  -- the ready queue and each timer, and only threads that exist stand there, if it was so at the
  -- start.
  pub Reach-IsOnce :
      {k k' : Kernel mem} → Reach mem can_read can_write k k' → IsOnce mem k → IsOnce mem k'
  Reach-IsOnce here i = i
  Reach-IsOnce (next r s) i = Step-IsOnce s (Reach-IsOnce r i)
