-- ===== src/Process/Places/Ends.antt =====
-- The end of a thread and of a process, and the wait for one.
use neuclear.Base.{
  ℕ, ◌+◌, ◌*◌, ◌%◌, ◌^◌, refl, Bool, true, false, not, ◌&&◌, ◌||◌, List, [], ◌∷◌, ◌++◌, Option,
  none, some, arith, ltb, ◌==◌, if◌then◌else◌, get_elem?, length-set, has_bit,
}
use neuclear.Base.Int.{pos}
use neuclear.Base.Outcome.{
  Outcome, ok, err, panic, ◌>>=◌, unwrap, assert, fail_if, einval, unsupported,
}
use neuclear.Base.Holds.{Holds, then-Holds}
use neuclear.Memory.Address.{vpn_floor}
use neuclear.Signal.{Memory, save}
use neuclear.Task.Resource.{dealloc, user_stack_low_addr}
use neuclear.Process.{
  AddressSpaces, Kernel, upgrade, put_process, put_thread, curr_task, curr_process,
}
use neuclear.Process.Exit.{
  drop_res, adopt, give_children, take_res, drop_each, exit_process, exit_curr_and_run_next,
}
use neuclear.Process.Places.{Fewer, carry, and_then, suspend-Fewer}
use neuclear.Process.Schedule.{suspend_curr_and_run_next}
use neuclear.Process.Wait.{
  Waited, returned, failed, scan, reap, report, conclude, wait_pass, sys_wait4, any_child,
  remove_at, strong_count,
}

either-Holds :
    {A : Type 0} (P : A → Type 0) (b : Bool) (m n : Outcome A)
    → Holds P m
    → Holds P n
    → Holds P (if b then m else n)
either-Holds P true m n h g = h
either-Holds P false m n h g = g

module _ (mem : AddressSpaces) where
  drop_res-Fewer : (r tid : ℕ) (k : Kernel mem) → Holds (Fewer mem k) (drop_res mem r tid k)
  unfolding drop_res
  drop_res-Fewer r tid k =
      elim (upgrade mem k.processes r)
        as (λ o. Holds (Fewer mem k) (elim o [
          | none ↦ ok k
          | some p ↦ do
            allocator ← dealloc p.thread_res_allocator tid
            let start = vpn_floor (user_stack_low_addr tid)
            (memory_set, frames) ← mem.remove_area_at start p.memory_set k.frames
            let p' = record p { thread_res_allocator = allocator; memory_set = memory_set }
            ok (record (put_process mem r p' k) { frames = frames })
        ])) [
          | none ↦ record { at = λ t. omega arith; threads = refl }
          | some p ↦ then-Holds (Fewer mem k) (dealloc p.thread_res_allocator tid) _ λ allocator e₁.
              then-Holds (Fewer mem k)
                (mem.remove_area_at (vpn_floor (user_stack_low_addr tid)) p.memory_set k.frames) _
                λ removed e₂. record { at = λ t. omega arith; threads = refl }
        ]

  adopt-Fewer : (cs : List ℕ) (k : Kernel mem) → Holds (Fewer mem k) (adopt mem cs k)
  unfolding adopt
  adopt-Fewer [] k = record { at = λ t. omega arith; threads = refl }
  adopt-Fewer (c ∷ cs) k = then-Holds (Fewer mem k) (assert (not (c == k.initproc))) _ λ u e₁.
      then-Holds (Fewer mem k) (unwrap (upgrade mem k.processes c)) _ λ child e₂.
        let k₁ = put_process mem c (record child { parent = some k.initproc }) k in
        then-Holds (Fewer mem k) (unwrap (upgrade mem k₁.processes k₁.initproc)) _ λ init e₃.
          let k₂ =
            put_process mem k₁.initproc (record init { children = init.children ++ c ∷ [] }) k₁ in
          carry mem (λ k'. k') k k₂ (adopt mem cs k₂)
            (record { at = λ t. omega arith; threads = refl }) (adopt-Fewer cs k₂)

  give_children-Fewer : (r : ℕ) (k : Kernel mem) → Holds (Fewer mem k) (give_children mem r k)
  unfolding give_children
  give_children-Fewer r k = then-Holds (Fewer mem k) (assert (not (r == k.initproc))) _ λ u e₁.
      then-Holds (Fewer mem k) (unwrap (upgrade mem k.processes r)) _ λ p e₂.
        let k₁ = put_process mem r (record p { children = [] }) k in
        carry mem (λ k'. k') k k₁ (adopt mem p.children k₁)
          (record { at = λ t. omega arith; threads = refl }) (adopt-Fewer p.children k₁)

  take_res-Fewer :
      (ts : List (Option ℕ)) (k : Kernel mem)
      → Holds (λ (taken : List ℕ × Kernel mem). Fewer mem k taken.1) (take_res mem ts k)
  unfolding take_res
  take_res-Fewer [] k = record { at = λ t. omega arith; threads = refl }
  take_res-Fewer (none ∷ ts) k = take_res-Fewer ts k
  take_res-Fewer (some t ∷ ts) k =
      then-Holds (λ (taken : List ℕ × Kernel mem). Fewer mem k taken.1)
        (unwrap (get_elem? k.threads t)) _
        λ task e.
          let k₁ = put_thread mem t (record task { res = none }) k in
          and_then mem (λ (taken : List ℕ × Kernel mem). taken.1)
            (λ (taken : List ℕ × Kernel mem). taken.1) k (take_res mem ts k₁) _
            (carry mem (λ (taken : List ℕ × Kernel mem). taken.1) k k₁ (take_res mem ts k₁)
              (record { at = λ u. omega arith; threads = length-set k.threads t _ })
              (take_res-Fewer ts k₁))
            (λ taken. record { at = λ u. omega arith; threads = refl })

  drop_each-Fewer :
      (r : ℕ) (tids : List ℕ) (k : Kernel mem) → Holds (Fewer mem k) (drop_each mem r tids k)
  unfolding drop_each
  drop_each-Fewer r [] k = record { at = λ t. omega arith; threads = refl }
  drop_each-Fewer r (tid ∷ tids) k =
      and_then mem (λ k'. k') (λ k'. k') k (drop_res mem r tid k) (drop_each mem r tids)
        (drop_res-Fewer r tid k) (drop_each-Fewer r tids)

  exit_process-Fewer :
      (r code : ℕ) (k : Kernel mem) → Holds (Fewer mem k) (exit_process mem r code k)
  unfolding exit_process
  exit_process-Fewer r code k =
      then-Holds (Fewer mem k) (unwrap (upgrade mem k.processes r)) _ λ p e.
        let k₁ = put_process mem r (record p { is_zombie = true; exit_code = code }) k in
        and_then mem (λ k'. k') (λ k'. k') k (if p.pid == 0 then ok k₁ else give_children mem r k₁)
          _
          (either-Holds (Fewer mem k) (p.pid == 0) (ok k₁) (give_children mem r k₁)
            (record { at = λ t. omega arith; threads = refl })
            (carry mem (λ k'. k') k k₁ (give_children mem r k₁)
              (record { at = λ t. omega arith; threads = refl }) (give_children-Fewer r k₁)))
          (λ k₂.
            and_then mem (λ (taken : List ℕ × Kernel mem). taken.1) (λ k'. k') k₂
              (take_res mem p.threads k₂) _ (take_res-Fewer p.threads k₂)
              (λ taken.
                and_then mem (λ k'. k') (λ k'. k') taken.1 (drop_each mem r taken.0 taken.1) _
                  (drop_each-Fewer r taken.0 taken.1)
                  (λ k₄.
                    then-Holds (Fewer mem k₄) (unwrap (upgrade mem k₄.processes r)) _
                      (λ q e'. record { at = λ t. omega arith; threads = refl }))))

  pub exit-Fewer :
      (code : ℕ) (k : Kernel mem) → Holds (Fewer mem k) (exit_curr_and_run_next mem code k)
  unfolding exit_curr_and_run_next
  exit-Fewer code k = then-Holds (Fewer mem k) (curr_task mem k) _ λ current e₁.
      then-Holds (Fewer mem k) (unwrap (upgrade mem k.processes current.1.process)) _ λ p e₂.
        then-Holds (Fewer mem k) (unwrap current.1.res) _ λ tid e₃.
          let ended = record current.1 { exit_code = some code; res = none } in
          let k₀ = record (put_thread mem current.0 ended k) { current = none } in
          and_then mem (λ k'. k') (λ k'. k') k (drop_res mem current.1.process tid k₀) _
            (carry mem (λ k'. k') k k₀ (drop_res mem current.1.process tid k₀)
              (record { at = λ t. omega arith; threads = length-set k.threads current.0 _ })
              (drop_res-Fewer current.1.process tid k₀))
            (λ k₁.
              either-Holds (Fewer mem k₁) (tid == 0) (exit_process mem current.1.process code k₁)
                (ok k₁) (exit_process-Fewer current.1.process code k₁)
                (record { at = λ t. omega arith; threads = refl }))

  reap-Fewer :
      (r index : ℕ) (k : Kernel mem)
      → Holds (λ (reaped : ℕ × ℕ × Kernel mem). Fewer mem k reaped.2) (reap mem r index k)
  unfolding reap
  reap-Fewer r index k =
      let P : ℕ × ℕ × Kernel mem → Type 0 = λ reaped. Fewer mem k reaped.2 in
      then-Holds P (unwrap (upgrade mem k.processes r)) _ λ p e₁.
        then-Holds P (unwrap (remove_at index p.children)) _ λ removed e₂.
          let k' = put_process mem r (record p { children = removed.1 }) k in
          then-Holds P
            (assert (
              strong_count mem removed.0 k'.processes + (if removed.0 == k.initproc then 1 else 0)
              == 0))
            _
            λ u e₃. then-Holds P (unwrap (upgrade mem k'.processes removed.0)) _ λ child e₄.
              then-Holds P (dealloc k'.pids child.pid) _
                λ pids e₅. record { at = λ t. omega arith; threads = refl }

  module _ (can_read can_write : ℕ → Bool) where
    abbrev pub after : Waited × Kernel mem × Memory ℕ → Kernel mem
    after result = result.1

    report-Fewer :
        (wstatus : ℕ) (reaped : ℕ × ℕ × Kernel mem) (memory : Memory ℕ)
        → Holds
            (λ result. Fewer mem reaped.2 (after result))
            (report mem can_read can_write wstatus reaped memory)
    unfolding report
    report-Fewer wstatus (pid, exit_code, k) memory =
        elim (save can_read can_write wstatus (exit_code * 2 ^ 8 % 2 ^ 32) memory)
          as (λ o.
            Holds (λ result. Fewer mem k (after result))
              (elim o [
                | ok memory' ↦ ok (returned (pos pid), k, memory')
                | err e ↦ ok (failed e, k, memory)
                | panic ↦ panic
              ])) [
                | ok memory' ↦ record { at = λ t. omega arith; threads = refl }
                | err e ↦ record { at = λ t. omega arith; threads = refl }
                | panic ↦ tt
              ]

    conclude-Fewer :
        (r wstatus : ℕ) (nohang found : Bool) (at : Option ℕ) (k : Kernel mem) (memory : Memory ℕ)
        → Holds
            (λ result. Fewer mem k (after result))
            (conclude mem can_read can_write r wstatus nohang found at k memory)
    unfolding conclude
    conclude-Fewer r wstatus nohang false at k memory = tt
    conclude-Fewer r wstatus nohang true (some index) k memory =
        and_then mem (λ (reaped : ℕ × ℕ × Kernel mem). reaped.2) after k (reap mem r index k) _
          (reap-Fewer r index k) (λ reaped. report-Fewer wstatus reaped memory)
    conclude-Fewer r wstatus true true none k memory = record {
      at = λ t. omega arith;
      threads = refl;
    }
    conclude-Fewer r wstatus false true none k memory =
        and_then mem (λ k'. k') after k (suspend_curr_and_run_next mem k) _ (suspend-Fewer mem k)
          (λ k'. record { at = λ t. omega arith; threads = refl })

    pub wait4-Fewer :
        (pid wstatus options rusage : ℕ) (k : Kernel mem) (memory : Memory ℕ)
        → Holds
            (λ result. Fewer mem k (after result))
            (sys_wait4 mem can_read can_write pid wstatus options rusage k memory)
    unfolding sys_wait4 wait_pass
    wait4-Fewer pid wstatus options rusage k memory =
        let P : Waited × Kernel mem × Memory ℕ → Type 0 = λ result. Fewer mem k (after result) in
        let flags = options % 2 ^ 32 in
        then-Holds P (assert (pid == any_child || not (pid == 0) && ltb pid (2 ^ 63))) _ λ u₁ e₁.
          then-Holds P (assert (rusage == 0)) _ λ u₂ e₂.
            then-Holds P (fail_if (not (ltb flags 16) || has_bit flags 2) einval) _ λ u₃ e₃.
              then-Holds P (fail_if (has_bit flags 1 || has_bit flags 3) unsupported) _ λ u₄ e₄.
                then-Holds P (curr_process mem k) _ λ current e₅.
                  then-Holds P (scan mem pid k 0 current.1.children (false, none)) _ λ found e₆.
                    conclude-Fewer current.0 wstatus (has_bit flags 0) found.0 found.1 k memory
