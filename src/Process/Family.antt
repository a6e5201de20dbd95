-- ===== src/Process/Family.antt =====
-- What fork, exit and wait do to the children of the processes.
use neuclear.Base.{
  ℕ, ◌+◌, ◌≡◌, refl, ap, true, List, [], ◌∷◌, Option, none, some, arith, ◌==◌, if◌then◌else◌, set,
  length, get_elem?, Bool-cases, Option-cases, inl, inr, not,
}
use neuclear.Base.Outcome.{ok, unwrap, assert}
use neuclear.Base.Holds.{Holds, then-Holds, unwrap-ok, Holds-ok}
use neuclear.Memory.Address.{vpn_floor}
use neuclear.Task.Resource.{dealloc, user_stack_low_addr}
use neuclear.Process.{
  AddressSpaces, Process, Kernel, upgrade, main_thread, curr_task, put_process, put_thread, fork,
}
use neuclear.Process.Wait.{count, strong_count, remove_at, reap}
use neuclear.Process.Exit.{
  drop_res, adopt, give_children, take_res, drop_each, exit_process, exit_curr_and_run_next,
}
use neuclear.Process.Held.{count_moved, count-remove_at}
use neuclear.Process.Forest.{IsForest, IsForest-set, IsForest-drop, IsForest-grow}

module _ (mem : AddressSpaces) where
  abbrev pub IsFamily : ℕ → List ℕ → Kernel mem → Type 0
  IsFamily init cs k = (k.initproc ≡ init) × IsForest mem init cs k.processes

  -- The same process with other fields.
  same_children :
      (init : ℕ) (cs : List ℕ) (k : Kernel mem) (r : ℕ) (p q : Process mem)
      → upgrade mem k.processes r ≡ some p
      → q.children ≡ p.children
      → IsForest mem init cs k.processes
      → IsForest mem init cs (set k.processes r (some q))
  same_children init cs k r p q e same f =
      IsForest-set mem init cs cs k.processes r p q e (λ c. omega (arith, ap (count c) same)) f

  pub fork-IsFamily :
      (init r : ℕ) (k : Kernel mem)
      → IsFamily init [] k
      → Holds (λ result. IsFamily init [] result.1) (fork mem r k)
  unfolding fork
  fork-IsFamily init r k (root, f) =
      let P : ℕ × Kernel mem → Type 0 = λ result. IsFamily init [] result.1 in
      then-Holds P (unwrap (upgrade mem k.processes r)) _ (λ p found.
        then-Holds P (assert (length p.threads == 1)) _ (λ one single.
          then-Holds P (mem.from_existed_user p.memory_set k.frames) _ (λ copied e₁.
            then-Holds P (unwrap (main_thread mem p)) _ (λ main_ref e₂.
              then-Holds P (unwrap (get_elem? k.threads main_ref)) _ (λ main e₃.
                then-Holds P (unwrap main.res) _ (λ tid e₄.
                  then-Holds P (mem.kstack_alloc copied.1) _ (λ stack e₅. (
                    root,
                    IsForest-grow mem init k.processes r p _ _ (unwrap-ok _ _ found) refl refl f,
                  ))))))))

  pub drop_res-IsFamily :
      (init r tid : ℕ) (cs : List ℕ) (k : Kernel mem)
      → IsFamily init cs k
      → Holds (IsFamily init cs) (drop_res mem r tid k)
  unfolding drop_res
  drop_res-IsFamily init r tid cs k (root, f) = elim (Option-cases (upgrade mem k.processes r)) [
    | inl gone ↦ rw (gone, Holds) (root, f)
    | inr (p, found) ↦
        rw (found, Holds)
          (then-Holds P (dealloc p.thread_res_allocator tid) _ (λ allocator e₁.
            then-Holds P
              (mem.remove_area_at (vpn_floor (user_stack_low_addr tid)) p.memory_set k.frames) _
              (λ rest e₂. (root, same_children init cs k r p _ found refl f))))
  ]
    where
      P : Kernel mem → Type 0
      P = IsFamily init cs

  pub adopt-IsFamily :
      (init : ℕ) (cs : List ℕ) (k : Kernel mem)
      → IsFamily init cs k
      → Holds (IsFamily init []) (adopt mem cs k)
  unfolding adopt
  adopt-IsFamily init [] k family = family
  adopt-IsFamily init (c ∷ cs) k (root, f) =
      let P : Kernel mem → Type 0 = IsFamily init [] in
      then-Holds P (assert (not (c == k.initproc))) _ (λ one other.
        then-Holds P (unwrap (upgrade mem k.processes c)) _ (λ child found.
          let given = set k.processes c (some (record child { parent = some k.initproc })) in
          then-Holds P (unwrap (upgrade mem given k.initproc)) _ (λ first found_init.
            adopt-IsFamily init cs _ (
              root,
              IsForest-set mem init (c ∷ cs) cs given k.initproc first _ (unwrap-ok _ _ found_init)
                  (λ d. omega (arith, count_moved d c first.children cs))
                  (same_children init (c ∷ cs) k c child _ (unwrap-ok _ _ found) refl f),
            ))))

  pub give_children-IsFamily :
      (init r : ℕ) (k : Kernel mem)
      → IsFamily init [] k
      → Holds (IsFamily init []) (give_children mem r k)
  unfolding give_children count
  give_children-IsFamily init r k (root, f) =
      let P : Kernel mem → Type 0 = IsFamily init [] in
      then-Holds P (assert (not (r == k.initproc))) _ (λ one other.
        then-Holds P (unwrap (upgrade mem k.processes r)) _ (λ p found.
          adopt-IsFamily init p.children _ (
            root,
            IsForest-set mem init [] p.children k.processes r p _ (unwrap-ok _ _ found)
                (λ c. omega arith) f,
          )))

  pub take_res-IsFamily :
      (init : ℕ) (ts : List (Option ℕ)) (k : Kernel mem)
      → IsFamily init [] k
      → Holds (λ taken. IsFamily init [] taken.1) (take_res mem ts k)
  unfolding take_res
  take_res-IsFamily init [] k family = family
  take_res-IsFamily init (none ∷ ts) k family = take_res-IsFamily init ts k family
  take_res-IsFamily init (some t ∷ ts) k family =
      let P : List ℕ × Kernel mem → Type 0 = λ taken. IsFamily init [] taken.1 in
      then-Holds P (unwrap (get_elem? k.threads t)) _ (λ task e₁.
        let k' = put_thread mem t (record task { res = none }) k in
        then-Holds P (take_res mem ts k') _ (λ taken e₂.
          Holds-ok P (take_res mem ts k') taken (take_res-IsFamily init ts k' family) e₂))

  pub drop_each-IsFamily :
      (init r : ℕ) (tids : List ℕ) (k : Kernel mem)
      → IsFamily init [] k
      → Holds (IsFamily init []) (drop_each mem r tids k)
  unfolding drop_each
  drop_each-IsFamily init r [] k family = family
  drop_each-IsFamily init r (tid ∷ tids) k family =
      let P : Kernel mem → Type 0 = IsFamily init [] in
      then-Holds P (drop_res mem r tid k) _ (λ k' e.
        drop_each-IsFamily init r tids k'
          (Holds-ok P (drop_res mem r tid k) k' (drop_res-IsFamily init r tid [] k family) e))

  pub exit_process-IsFamily :
      (init r code : ℕ) (k : Kernel mem)
      → IsFamily init [] k
      → Holds (IsFamily init []) (exit_process mem r code k)
  unfolding exit_process count
  exit_process-IsFamily init r code k (root, f) =
      let P : Kernel mem → Type 0 = IsFamily init [] in
      then-Holds P (unwrap (upgrade mem k.processes r)) _ (λ p found.
        let k₁ = put_process mem r (record p { is_zombie = true; exit_code = code }) k in
        let given = if p.pid == 0 then ok k₁ else give_children mem r k₁ in
        then-Holds P given _ (λ k₂ e₂. then-Holds P (take_res mem p.threads k₂) _ (λ taken e₃.
          then-Holds P (drop_each mem r taken.0 taken.1) _ (λ k₄ e₄.
            then-Holds P (unwrap (upgrade mem k₄.processes r)) _ (λ q found'.
              let in₁ : P k₁ = (root, same_children init [] k r p _ (unwrap-ok _ _ found) refl f) in
              let in₂ : P k₂ = Holds-ok P given k₂ (either p.pid k₁ in₁) e₂ in
              let in₃ : P taken.1 =
                Holds-ok (λ t. P t.1) (take_res mem p.threads k₂) taken
                  (take_res-IsFamily init p.threads k₂ in₂) e₃ in
              let in₄ : P k₄ =
                Holds-ok P (drop_each mem r taken.0 taken.1) k₄
                  (drop_each-IsFamily init r taken.0 taken.1 in₃) e₄ in
              (
                in₄.0,
                IsForest-set mem init [] [] k₄.processes r q _ (unwrap-ok _ _ found')
                    (λ c. omega arith) in₄.1,
              ))))))
    where
      either :
          (pid : ℕ) (k₁ : Kernel mem)
          → IsFamily init [] k₁
          → Holds (IsFamily init []) (if pid == 0 then ok k₁ else give_children mem r k₁)
      either pid k₁ family = elim (Bool-cases (pid == 0)) [
        | inl zero ↦ rw zero family
        | inr other ↦ rw other (give_children-IsFamily init r k₁ family)
      ]

  pub exit-IsFamily :
      (init code : ℕ) (k : Kernel mem)
      → IsFamily init [] k
      → Holds (IsFamily init []) (exit_curr_and_run_next mem code k)
  unfolding exit_curr_and_run_next
  exit-IsFamily init code k family =
      let P : Kernel mem → Type 0 = IsFamily init [] in
      then-Holds P (curr_task mem k) _ (λ current e₁.
        let task = current.1 in
        then-Holds P (unwrap (upgrade mem k.processes task.process)) _ (λ process e₂.
          then-Holds P (unwrap task.res) _ (λ tid e₃.
            let ended = record task { exit_code = some code; res = none } in
            let k₀ = record (put_thread mem current.0 ended k) { current = none } in
            then-Holds P (drop_res mem task.process tid k₀) _ (λ k₁ e₄.
              let in₁ : P k₁ =
                Holds-ok P (drop_res mem task.process tid k₀) k₁
                  (drop_res-IsFamily init task.process tid [] k₀ family) e₄ in
              elim (Bool-cases (tid == 0)) [
                | inl main ↦ rw main (exit_process-IsFamily init task.process code k₁ in₁)
                | inr other ↦ rw other in₁
              ]))))

  pub reap-IsFamily :
      (init r index : ℕ) (k : Kernel mem)
      → IsFamily init [] k
      → Holds (λ result. IsFamily init [] result.2) (reap mem r index k)
  unfolding reap count
  reap-IsFamily init r index k (root, f) =
      let P : ℕ × ℕ × Kernel mem → Type 0 = λ result. IsFamily init [] result.2 in
      then-Holds P (unwrap (upgrade mem k.processes r)) _ (λ p found.
        then-Holds P (unwrap (remove_at index p.children)) _ (λ removed e₁.
          let c = removed.0 in
          let ps = set k.processes r (some (record p { children = removed.1 })) in
          then-Holds P (assert (strong_count mem c ps + (if c == k.initproc then 1 else 0) == 0)) _
            (λ one last. then-Holds P (unwrap (upgrade mem ps c)) _ (λ child found_child.
              then-Holds P (dealloc k.pids child.pid) _ (λ pids e₂. (
                root,
                IsForest-drop mem init ps c child (unwrap-ok _ _ found_child)
                    (without p removed.0 removed.1 (unwrap-ok _ _ found) (unwrap-ok _ _ e₁)),
              ))))))
    where
      without :
          (p : Process mem) (c : ℕ) (children : List ℕ)
          → upgrade mem k.processes r ≡ some p
          → remove_at index p.children ≡ some (c, children)
          → IsForest mem init (c ∷ []) (set k.processes r (some (record p { children = children })))
      without p c children found e =
          IsForest-set mem init [] (c ∷ []) k.processes r p _ found
            (λ d. omega (arith, count-remove_at d index c p.children children e)) f
