-- ===== src/Process/Fair.antt =====
-- Threads that give the processor away in turn each get it again.
use neuclear.Base.{
  ℕ, zero, suc, ◌≡◌, refl, sym, ◌∙◌, ap, subst, List, [], ◌∷◌, ◌++◌, none, some, ℕ_discrete,
  get_elem?, set, length, get_elem?-set_self, get_elem?-set_ne, get_elem?-some_lt, append_assoc,
  append-nil,
}
use neuclear.Base.Outcome.{Outcome, ok, ◌>>=◌}
use neuclear.Task.Timers.{add, fetch}
use neuclear.Process.{AddressSpaces, Process, Thread, ThreadStatus, ready, running, Kernel, upgrade}
use neuclear.Process.Schedule.{suspend_curr_and_run_next, run_next}

module _ (mem : AddressSpaces) where
  -- The thread runs, and gives the processor away.
  pub turn : Kernel mem → Outcome (Kernel mem)
  turn k = do k' ← run_next mem k; suspend_curr_and_run_next mem k'

  pub turns : ℕ → Kernel mem → Outcome (Kernel mem)
  unfolding turn
  turns zero k = ok k
  turns (suc n) k = do k' ← turn k; turns n k'

  -- The thread exists, and its process has not gone.
  abbrev pub IsRunnable : Kernel mem → ℕ → Type 0
  IsRunnable k t =
      (task : Thread) × (p : Process mem) × (get_elem? k.threads t ≡ some task)
      × (upgrade mem k.processes task.process ≡ some p)

  abbrev pub AllRunnable : Kernel mem → List ℕ → Type 0
  AllRunnable k [] = Unit
  AllRunnable k (t ∷ ts) = IsRunnable k t × AllRunnable k ts

  -- What a step keeps of the threads in the queue.
  abbrev Keeps : Kernel mem → Kernel mem → Type 0
  Keeps k k' = (u : ℕ) → IsRunnable k u → IsRunnable k' u

  set_status :
      (k k' : Kernel mem) (t : ℕ) (task : Thread) (status : ThreadStatus)
      → get_elem? k.threads t ≡ some task
      → k'.threads ≡ set k.threads t (record task { thread_status = status })
      → k'.processes ≡ k.processes
      → Keeps k k'
  set_status k k' t task status e threads processes u (other, p, at, alive) =
      elim (ℕ_discrete t u) [
        | yes same ↦ (
          record task { thread_status = status },
          p,
          ap (λ l. get_elem? l u) threads
              ∙ subst
                  (λ v.
                    get_elem? (set k.threads t (record task { thread_status = status })) v
                    ≡ some (record task { thread_status = status }))
                  same (get_elem?-set_self k.threads t _ (get_elem?-some_lt k.threads t task e)),
          ap (λ l. upgrade mem l task.process) processes
              ∙ ap (λ x. upgrade mem k.processes x.process) (same_task same)
              ∙ alive,
        )
        | no apart ↦ (
          other,
          p,
          ap (λ l. get_elem? l u) threads ∙ get_elem?-set_ne k.threads t u _ apart ∙ at,
          ap (λ l. upgrade mem l other.process) processes ∙ alive,
        )
      ]
    where
      some_is : some task ≡ some other → task ≡ other
      some_is s = cc s

      same_task : t ≡ u → task ≡ other
      same_task same = some_is (sym e ∙ ap (get_elem? k.threads) same ∙ at)

  dispatches :
      (k : Kernel mem) (t : ℕ) (ts : List ℕ) (task : Thread) (p : Process mem)
      → k.tasks.ready_queue ≡ t ∷ ts
      → get_elem? k.threads t ≡ some task
      → upgrade mem k.processes task.process ≡ some p
      → run_next mem k
        ≡ ok (record k {
          threads = set k.threads t (record task { thread_status = running });
          current = some t;
          tasks = record { ready_queue = ts };
        })
  unfolding run_next fetch
  dispatches k t ts task p queue at alive = rw (queue, at, alive) refl

  suspends :
      (k : Kernel mem) (t : ℕ) (task : Thread)
      → k.current ≡ some t
      → get_elem? k.threads t ≡ some task
      → suspend_curr_and_run_next mem k
        ≡ ok (record k {
          threads = set k.threads t (record task { thread_status = ready });
          current = none;
          tasks = record { ready_queue = k.tasks.ready_queue ++ t ∷ [] };
        })
  unfolding suspend_curr_and_run_next add
  suspends k t task current at = rw (current, at) refl

  -- A turn takes the first thread of the queue to its end.
  turn_rotates :
      (k : Kernel mem) (t : ℕ) (ts : List ℕ)
      → k.tasks.ready_queue ≡ t ∷ ts
      → IsRunnable k t
      → (k' : Kernel mem) × (turn k ≡ ok k') × (k'.tasks.ready_queue ≡ ts ++ t ∷ []) × Keeps k k'
  unfolding turn
  turn_rotates k t ts queue (task, p, at, alive) = (
    k₂,
    rw (first, second) refl,
    refl,
    λ u r.
        set_status k₁ k₂ t running_task ready at₁ refl refl u
          (set_status k k₁ t task running at refl refl u r),
  )
    where
      running_task : Thread
      running_task = record task { thread_status = running }

      k₁ : Kernel mem
      k₁ = record k {
        threads = set k.threads t running_task;
        current = some t;
        tasks = record { ready_queue = ts };
      }

      k₂ : Kernel mem
      k₂ = record k₁ {
        threads = set k₁.threads t (record running_task { thread_status = ready });
        current = none;
        tasks = record { ready_queue = ts ++ t ∷ [] };
      }

      at₁ : get_elem? k₁.threads t ≡ some running_task
      at₁ = get_elem?-set_self k.threads t running_task (get_elem?-some_lt k.threads t task at)

      first : run_next mem k ≡ ok k₁
      first = dispatches k t ts task p queue at alive

      second : suspend_curr_and_run_next mem k₁ ≡ ok k₂
      second = suspends k₁ t running_task refl at₁

  AllRunnable-Keeps :
      (k k' : Kernel mem) (ts : List ℕ) → Keeps k k' → AllRunnable k ts → AllRunnable k' ts
  AllRunnable-Keeps k k' [] keeps all = tt
  AllRunnable-Keeps k k' (t ∷ ts) keeps (r, all) = (keeps t r, AllRunnable-Keeps k k' ts keeps all)

  turns_rotate :
      (xs : List ℕ) (t : ℕ) (ys : List ℕ) (k : Kernel mem)
      → k.tasks.ready_queue ≡ xs ++ t ∷ ys
      → AllRunnable k xs
      → IsRunnable k t
      → (k' : Kernel mem) × (turns (length xs) k ≡ ok k')
        × (k'.tasks.ready_queue ≡ t ∷ ys ++ xs)
        × IsRunnable k' t
  unfolding turns
  turns_rotate [] t ys k queue all r = (k, refl, queue ∙ ap (◌∷◌ t) (sym (append-nil ys)), r)
  turns_rotate (x ∷ xs) t ys k queue (r_x, all) r =
      let (k₁, turned, queue₁, keeps) = turn_rotates k x (xs ++ t ∷ ys) queue r_x in
      let (k', ended, queue', r') =
        turns_rotate xs t (ys ++ x ∷ []) k₁ (queue₁ ∙ append_assoc xs (t ∷ ys) (x ∷ []))
          (AllRunnable-Keeps k k₁ xs keeps all) (keeps t r) in
      (k', rw (turned, ended) refl, queue' ∙ ap (◌∷◌ t) (append_assoc ys (x ∷ []) xs), r')

  -- No thread starves: if each thread in front of a thread in the queue has its turn and gives the
  -- processor away, the thread is fetched right after them, and runs.
  pub round_robin :
      (xs ys : List ℕ) (t : ℕ) (k : Kernel mem)
      → k.tasks.ready_queue ≡ xs ++ t ∷ ys
      → AllRunnable k xs
      → IsRunnable k t
      → (k' : Kernel mem) × ((turns (length xs) k >>= run_next mem) ≡ ok k')
        × (k'.current ≡ some t)
        × (k'.tasks.ready_queue ≡ ys ++ xs)
  round_robin xs ys t k queue all r =
      let (k₁, ended, queue₁, (task, p, at, alive)) = turns_rotate xs t ys k queue all r in
      let k' : Kernel mem = record k₁ {
        threads = set k₁.threads t (record task { thread_status = running });
        current = some t;
        tasks = record { ready_queue = ys ++ xs };
      } in
      (k', rw (ended, dispatches k₁ t (ys ++ xs) task p queue₁ at alive) refl, refl, refl)
