-- ===== src/Process/Cloned.antt =====
-- What `clone` makes of the running process.
use neuclear.Base.{
  ℕ, ◌+◌, ◌<◌, word, ◌≢◌, sym, ◌/◌, ◌%◌, ◌^◌, ◌≡◌, refl, true, false, [], ◌∷◌, ◌++◌, some, arith,
  leb, ◌==◌, if◌then◌else◌, get_elem?, set, length, length-append, get_elem?-append_length,
  get_elem?-set_self, length-set,
}
use neuclear.Base.Int.{ℤ, pos}
use neuclear.Base.Outcome.{ok}
use neuclear.Signal.{try_from_primitive}
use neuclear.Task.Resource.{alloc}
use neuclear.Task.Resource.Ids.{in_use, IsValid, Allocates, alloc-Allocates}
use neuclear.Task.Timers.{add}
use neuclear.Process.{
  AddressSpaces, Process, Thread, Kernel, upgrade, curr_process, fork, sys_clone, child_of,
  from_existed, return_zero, put_thread, ready,
}
use neuclear.Process.Held.{upgrade-append, upgrade-set, upgrade-length}

module _ (mem : AddressSpaces) (k : Kernel mem) where
  -- What a clone needs: a running thread, whose process has one thread, and room for the copy.
  pub record CanFork (r : ℕ) (p : Process mem) : Type 0 where
    pub running_ref : ℕ
    pub running_task : Thread
    pub is_current : k.current ≡ some running_ref
    pub running_at : get_elem? k.threads running_ref ≡ some running_task
    pub of_process : running_task.process ≡ r
    pub alive : upgrade mem k.processes r ≡ some p
    pub main_ref : ℕ
    pub main : Thread
    pub tid : ℕ
    pub one_thread : p.threads ≡ some main_ref ∷ []
    pub main_at : get_elem? k.threads main_ref ≡ some main
    pub has_res : main.res ≡ some tid
    pub memory_set : mem.UserSpace
    pub frames : mem.Physical
    pub copies : mem.from_existed_user p.memory_set k.frames ≡ ok (memory_set, frames)
    pub kernel_stack : ℕ
    pub frames' : mem.Physical
    pub stack_fits : mem.kstack_alloc frames ≡ ok (kernel_stack, frames')

  -- The kernel after the clone: the child has copies of what the parent has, its thread waits at the
  -- end of the queue, and differs in its registers only by the 0 that it returns.
  pub record Cloned (r : ℕ) (p : Process mem) (can : CanFork r p) (n : ℤ) (k' : Kernel mem)
      : Type 0 where
    pub child : Process mem
    pub thread : Thread
    pub child_at : upgrade mem k'.processes (length k.processes) ≡ some child
    pub thread_at : get_elem? k'.threads (length k.threads) ≡ some thread
    pub returns_pid : n ≡ pos child.pid
    pub new_pid : in_use k.pids child.pid ≡ false
    pub pid_taken : (j : ℕ) → in_use k'.pids j ≡ (if j == child.pid then true else in_use k.pids j)
    pub copied_memory :
        mem.from_existed_user p.memory_set k.frames ≡ ok (child.memory_set, can.frames)
    pub frames_left : k'.frames ≡ can.frames'
    pub alive_child : child.is_zombie ≡ false
    pub same_heap : child.heap_start ≡ p.heap_start
    pub same_tids : child.thread_res_allocator ≡ p.thread_res_allocator
    pub its_thread : child.threads ≡ some (length k.threads) ∷ []
    pub its_process : thread.process ≡ length k.processes
    pub its_stack : thread.kernel_stack ≡ can.kernel_stack
    pub same_tid : thread.res ≡ can.main.res
    pub is_ready : thread.thread_status ≡ ready
    pub others :
        (q : ℕ) (other : Process mem)
        → q ≢ r
        → upgrade mem k.processes q ≡ some other
        → upgrade mem k'.processes q ≡ some other
    pub same_files : child.fd_table ≡ p.fd_table
    pub same_cwd : child.cwd ≡ p.cwd
    pub same_brk : child.brk ≡ p.brk
    pub same_handlers : child.sig_handlers ≡ p.sig_handlers
    pub has_parent : child.parent ≡ some r
    pub no_children : child.children ≡ []
    pub known_to_parent :
        upgrade mem k'.processes r
        ≡ some (record p { children = p.children ++ length k.processes ∷ [] })
    pub registers : (i : ℕ) → thread.trap_ctx i ≡ (if i == 10 then 0 else can.main.trap_ctx i)
    pub queued : k'.tasks.ready_queue ≡ k.tasks.ready_queue ++ length k.threads ∷ []

  valid_signal : (flags : ℕ) → flags < 64 → try_from_primitive (flags % 256) ≡ some (flags % 256)
  unfolding try_from_primitive
  valid_signal flags small = ground arith

  curr_process_is : (r : ℕ) (p : Process mem) → CanFork r p → curr_process mem k ≡ ok (r, p)
  unfolding curr_process
  curr_process_is r p can = rw (can.is_current, can.running_at, can.of_process, can.alive) refl

  forks :
      (r : ℕ) (p : Process mem) (can : CanFork r p)
      → let thread_ref = length k.threads in
        let pushed = record p { children = p.children ++ length k.processes ∷ [] } in
        fork mem r k
        ≡ ok (
          length k.processes,
          record k {
            processes =
                set k.processes r (some pushed)
                ++ some (child_of mem r p (alloc k.pids).0 can.memory_set thread_ref) ∷ [];
            threads =
                k.threads
                ++ from_existed mem can.main can.tid (length k.processes) can.kernel_stack ∷ [];
            tasks = record { ready_queue = k.tasks.ready_queue ++ thread_ref ∷ [] };
            pids = (alloc k.pids).1;
            frames = can.frames';
          },
        )
  unfolding fork add
  forks r p can =
      rw (can.alive, can.one_thread, can.copies, can.main_at, can.has_res, can.stack_fits) refl

  -- A clone without clone flags, and with an exit signal below 64, by a running thread whose process has
  -- one thread, if its memory can be copied, a kernel stack can be had and the pids are valid and do not
  -- run out: it returns the pid of a new child, which the allocator had not given out. The child has the memory
  -- that copying its parent's gives, the parent's start of the heap and break, open files, working
  -- directory, signal handlers and thread ids, and no children; its one thread has the parent's
  -- registers but for the 0 that it returns, and stands at the end of the ready queue. The parent has
  -- the child in its list, and every other process is as it was.
  pub sys_clone-Cloned :
      (r flags : ℕ) (p : Process mem)
      → flags < 64
      → k.pids.current + 1 < word
      → IsValid k.pids
      → (can : CanFork r p)
      → (n : ℤ) × (k' : Kernel mem) × (sys_clone mem flags k ≡ ok (n, k')) × Cloned r p can n k'
  unfolding sys_clone
  sys_clone-Cloned r flags p small room valid can = (
    pos child.pid,
    put_thread mem thread_ref (return_zero mem thread) k₁,
    rw (guard₁, guard₂, guard₃, guard₄, is_curr, forked, child_at, thread_at) refl,
    record {
      child = child;
      thread = return_zero mem thread;
      child_at = child_at;
      thread_at =
          get_elem?-set_self k₁.threads thread_ref (return_zero mem thread)
            (ground (arith, length-append k.threads (thread ∷ [])));
      returns_pid = refl;
      new_pid = taken.0;
      pid_taken = taken.1;
      copied_memory = can.copies;
      frames_left = refl;
      alive_child = refl;
      same_heap = refl;
      same_tids = refl;
      its_thread = refl;
      its_process = refl;
      its_stack = refl;
      same_tid = sym can.has_res;
      is_ready = refl;
      others = other_process;
      same_files = refl;
      same_cwd = refl;
      same_brk = refl;
      same_handlers = refl;
      has_parent = refl;
      no_children = refl;
      known_to_parent = known;
      registers = λ i. refl;
      queued = refl;
    },
  )
    where
      open can use {main, main_ref, tid, memory_set, kernel_stack, frames'}

      taken : Allocates k.pids (alloc k.pids)
      taken = alloc-Allocates k.pids room valid

      thread_ref : ℕ
      thread_ref = length k.threads

      child : Process mem
      child = child_of mem r p (alloc k.pids).0 memory_set thread_ref

      pushed : Process mem
      pushed = record p { children = p.children ++ length k.processes ∷ [] }

      thread : Thread
      thread = from_existed mem main tid (length k.processes) kernel_stack

      k₁ : Kernel mem
      k₁ = record k {
        processes = set k.processes r (some pushed) ++ some child ∷ [];
        threads = k.threads ++ thread ∷ [];
        tasks = record { ready_queue = k.tasks.ready_queue ++ thread_ref ∷ [] };
        pids = (alloc k.pids).1;
        frames = frames';
      }

      guard₁ : leb (2 ^ 32) flags ≡ false
      guard₁ = ground arith

      guard₂ : leb (2 ^ 17) (flags / 256) ≡ false
      guard₂ = ground arith

      guard₃ : try_from_primitive (flags % 256) ≡ some (flags % 256)
      guard₃ = valid_signal flags small

      guard₄ : (flags / 256 == 0) ≡ true
      guard₄ = ground arith

      is_curr : curr_process mem k ≡ ok (r, p)
      is_curr = curr_process_is r p can

      forked : fork mem r k ≡ ok (length k.processes, k₁)
      forked = forks r p can

      child_at : upgrade mem k₁.processes (length k.processes) ≡ some child
      child_at = ground (
        arith,
        upgrade-append mem (length k.processes) (set k.processes r (some pushed)) (some child),
        length-set k.processes r (some pushed),
      )

      thread_at : get_elem? k₁.threads thread_ref ≡ some thread
      thread_at = get_elem?-append_length k.threads thread []

      known : upgrade mem k₁.processes r ≡ some pushed
      known = ground (
        arith,
        upgrade-append mem r (set k.processes r (some pushed)) (some child),
        length-set k.processes r (some pushed),
        upgrade-set mem r r k.processes p (some pushed) can.alive,
        upgrade-length mem k.processes,
        can.alive,
      )

      other_process :
          (q : ℕ) (other : Process mem)
          → q ≢ r
          → upgrade mem k.processes q ≡ some other
          → upgrade mem k₁.processes q ≡ some other
      other_process q other ne e = ground (
        arith,
        upgrade-append mem q (set k.processes r (some pushed)) (some child),
        length-set k.processes r (some pushed),
        upgrade-set mem r q k.processes p (some pushed) can.alive,
        upgrade-length mem k.processes,
        e,
      )
