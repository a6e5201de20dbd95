-- ===== src/Process/Places.antt =====
-- Where a thread stands: it runs, waits in the ready queue, or sleeps. No call puts a thread at a
-- second place.
pub mod Ends
pub mod Runs
pub mod Kept
mod Tests
use neuclear.Base.{
  ℕ, suc, ◌+◌, ◌/◌, ◌≤◌, ◌≡◌, refl, ◌∙◌, ap, inl, inr, Bool, true, false, List, [], ◌∷◌, ◌++◌,
  Option, none, some, arith, leb, ltb, ◌==◌, if◌then◌else◌, get_elem?, set, length, length-set,
  Bool-cases, add64, mul64,
}
use neuclear.Base.Outcome.{Outcome, ok, err, panic, ◌>>=◌, unwrap}
use neuclear.Base.Holds.{Holds, then-Holds, Holds-ok, unwrap-ok}
use neuclear.Task.Timers.{
  TaskManager, TimerCondVar, priority, add, fetch, push_timer, add_timer, expire, check_timer,
}
use neuclear.Process.{AddressSpaces, Kernel, Thread, running, ready, blocking, upgrade, curr_task}
use neuclear.Process.Held.{count-append}
use neuclear.Process.Wait.{count}
use neuclear.Process.Schedule.{
  run_next, suspend_curr_and_run_next, block_curr_and_run_next, sys_sleep, tick, alive,
}

abbrev pub at_current : ℕ → Option ℕ → ℕ
at_current t none = 0
at_current t (some u) = if u == t then 1 else 0

abbrev pub sleeping : ℕ → List TimerCondVar → ℕ
sleeping t [] = 0
sleeping t (timer ∷ timers) = (if timer.thread == t then 1 else 0) + sleeping t timers

pub sleeping-push_timer :
    (t : ℕ) (timer : TimerCondVar) (timers : List TimerCondVar)
    → sleeping t (push_timer timer timers) ≡ at_current t (some timer.thread) + sleeping t timers
unfolding push_timer
sleeping-push_timer t timer [] = refl
sleeping-push_timer t timer (u ∷ timers) =
    let rest = sleeping-push_timer t timer timers in
    elim (Bool-cases (ltb (priority u) (priority timer))) [
      | inl sooner ↦ rw sooner refl
      | inr later ↦ rw later (omega (arith, rest))
    ]

expire-sleeping :
    (t : ℕ) (lives : ℕ → Bool) (now : ℕ) (timers : List TimerCondVar) (m : TaskManager)
    → let (left, m') = expire lives now timers m in
      sleeping t left + count t m'.ready_queue ≤ sleeping t timers + count t m.ready_queue
unfolding expire add count
expire-sleeping t lives now [] m = omega arith
expire-sleeping t lives now (timer ∷ timers) m =
    let woken = expire-sleeping t lives now timers (add m timer.thread) in
    let gone = expire-sleeping t lives now timers m in
    let queued = count-append t m.ready_queue (timer.thread ∷ []) in
    elim (Bool-cases (leb timer.expire_ms now)) [
      | inr waits ↦ rw waits (omega arith)
      | inl due ↦ elim (Bool-cases (lives timer.thread)) [
        | inl is_alive ↦ rw (due, is_alive) (omega (arith, woken, queued))
        | inr is_dead ↦ rw (due, is_dead) (omega (arith, gone))
      ]
    ]

fetched_list :
    (queue : List ℕ) (t : ℕ)
    → let (found, rest) = fetch (record { ready_queue = queue }) in
      found ≡ some t → queue ≡ t ∷ rest.ready_queue
unfolding fetch
fetched_list [] t e = cc e
fetched_list (u ∷ queue) t e = cc e

pub fetched :
    (m : TaskManager) (t : ℕ) → (fetch m).0 ≡ some t → m.ready_queue ≡ t ∷ (fetch m).1.ready_queue
fetched m t e = fetched_list m.ready_queue t e

module _ (mem : AddressSpaces) where
  -- At how many places thread `t` stands.
  abbrev pub places : ℕ → Kernel mem → ℕ
  places t k = at_current t k.current + count t k.tasks.ready_queue + sleeping t k.timers

  -- No thread stands at more places than before, and there are as many threads.
  pub record Fewer (k k' : Kernel mem) : Type 0 where
    pub at : (t : ℕ) → places t k' ≤ places t k
    pub threads : length k'.threads ≡ length k.threads

  pub Fewer-trans : (k k₁ k₂ : Kernel mem) → Fewer k k₁ → Fewer k₁ k₂ → Fewer k k₂
  Fewer-trans k k₁ k₂ a b = record {
    at = λ t. omega (arith, a.at t, b.at t);
    threads = b.threads ∙ a.threads;
  }

  pub carry :
      {A : Type 0} (state : A → Kernel mem) (k k₁ : Kernel mem) (m : Outcome A)
      → Fewer k k₁
      → Holds (λ a. Fewer k₁ (state a)) m
      → Holds (λ a. Fewer k (state a)) m
  carry state k k₁ (ok a) f h = Fewer-trans k k₁ (state a) f h
  carry state k k₁ (err e) f h = tt
  carry state k k₁ panic f h = tt

  -- One call behind another.
  pub and_then :
      {A B : Type 0} (state : A → Kernel mem) (state' : B → Kernel mem) (k : Kernel mem)
      (m : Outcome A) (f : A → Outcome B)
      → Holds (λ a. Fewer k (state a)) m
      → ((a : A) → Holds (λ b. Fewer (state a) (state' b)) (f a))
      → Holds (λ b. Fewer k (state' b)) (m >>= f)
  and_then state state' k (ok a) f h g = carry state' k (state a) (f a) h (g a)
  and_then state state' k (err e) f h g = tt
  and_then state state' k panic f h g = tt

  pub tick-Fewer : (now : ℕ) (k : Kernel mem) → Fewer k (tick mem now k)
  unfolding tick check_timer
  tick-Fewer now k = record {
    at = λ t. omega (arith, expire-sleeping t (alive mem k) now k.timers k.tasks);
    threads = refl;
  }

  pub curr_task-current :
      (k : Kernel mem) (current : ℕ × Thread)
      → curr_task mem k ≡ ok current
      → k.current ≡ some current.0
  unfolding curr_task
  curr_task-current k current e = first k.current refl e
    where
      second :
          (t : ℕ) (o : Option Thread)
          → (unwrap o >>= λ task. ok (t, task)) ≡ ok current
          → t ≡ current.0
      second t none e' = cc e'
      second t (some task) e' = cc e'

      first :
          (o : Option ℕ)
          → k.current ≡ o
          → (unwrap o >>= λ t. unwrap (get_elem? k.threads t) >>= λ task. ok (t, task)) ≡ ok current
          → k.current ≡ some current.0
      first none is e' = cc e'
      first (some t) is e' = is ∙ ap some (second t (get_elem? k.threads t) e')

  pub suspend-Fewer : (k : Kernel mem) → Holds (Fewer k) (suspend_curr_and_run_next mem k)
  unfolding suspend_curr_and_run_next add count
  suspend-Fewer k = then-Holds (Fewer k) (curr_task mem k) _ λ current e. record {
    at = λ u.
        rw (curr_task-current k current e, count-append u k.tasks.ready_queue (current.0 ∷ []))
          (omega arith);
    threads = length-set k.threads current.0 _;
  }

  pub sleep-Fewer :
      (now sec nsec : ℕ) (k : Kernel mem) → Holds (Fewer k) (sys_sleep mem now sec nsec k)
  unfolding sys_sleep block_curr_and_run_next add_timer
  sleep-Fewer now sec nsec k = then-Holds (Fewer k) (curr_task mem k) _ λ current e.
      then-Holds (Fewer k) (curr_task mem k) _ λ blocked e'. record {
        at = λ u.
            rw
              (
                curr_task-current k current e,
                sleeping-push_timer u
                    (record {
                      expire_ms = add64 (add64 now (mul64 sec 1000)) (nsec / 1000000);
                      thread = current.0;
                    })
                    k.timers,
              )
              (omega arith);
        threads = length-set k.threads blocked.0 _;
      }

  pub run_next-Fewer : (k : Kernel mem) → Holds (Fewer k) (run_next mem k)
  unfolding run_next count fetch
  run_next-Fewer k = then-Holds (Fewer k) (unwrap (fetch k.tasks).0) _ λ t e₁.
      then-Holds (Fewer k) (unwrap (get_elem? k.threads t)) _ λ task e₂.
        then-Holds (Fewer k) (unwrap (upgrade mem k.processes task.process)) _ λ p e₃. record {
          at = λ u. rw (fetched k.tasks t (unwrap-ok (fetch k.tasks).0 t e₁)) (omega arith);
          threads = length-set k.threads t _;
        }
