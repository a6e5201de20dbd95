-- ===== src/Process/Boot.antt =====
-- A kernel with a few processes, and a clone in it, for the tests.
use neuclear.Base.{
  ℕ, zero, suc, ◌+◌, ◌-◌, ◌≡◌, refl, Bool, true, false, List, [], ◌∷◌, Option, none, some, arith,
  leb, if◌then◌else◌,
}
use neuclear.Base.Outcome.{ok, panic}
use neuclear.Signal.{handlers_new, receiver_new}
use neuclear.Process.{AddressSpaces, Process, Thread, running, Kernel, upgrade}
use neuclear.Process.Wait.{count, strong_count}
use neuclear.Process.Family.{IsFamily}
use neuclear.Process.Steps.{Step, clones}
use neuclear.Process.Cloned.{CanFork, sys_clone-Cloned}

-- Address spaces as the number of their pages, and the frames as the number that are free.
abbrev pub pages : AddressSpaces
pages = record {
  UserSpace = ℕ;
  Physical = ℕ;
  from_existed_user = λ m free. if leb m free then ok (m, free - m) else panic;
  remove_area_at = λ start m free. ok (m - 2, free + 2);
  recycle_all_pages = λ m free. (0, free + m);
  kstack_alloc = λ free. if leb 16 free then ok (0x80000000, free - 16) else panic;
  drop_space = λ m free. free + m;
  drop_stack = λ stack free. free + 16;
}

abbrev pub process_with : ℕ → Bool → Option ℕ → List ℕ → ℕ → Process pages
process_with pid is_zombie parent children thread = record {
  pid = pid;
  is_zombie = is_zombie;
  memory_set = 10;
  parent = parent;
  children = children;
  exit_code = 3;
  heap_start = 0x20;
  brk = 0x20000;
  fd_table = some 0 ∷ some 1 ∷ some 1 ∷ [];
  threads = some thread ∷ [];
  thread_res_allocator = record { current = 1; recycled = [] };
  cwd = b'/' ∷ [];
  sig_handlers = handlers_new;
}

abbrev pub thread_of : ℕ → Option ℕ → Thread
thread_of process res = record {
  process = process;
  kernel_stack = 0x80000000;
  trap_ctx = λ i. i + 7;
  thread_status = running;
  exit_code = none;
  res = res;
  clear_child_tid = 0;
  sig_receiver = receiver_new;
}

-- The first process runs; it has a zombie and another child, which is ready.
abbrev pub boot : Kernel pages
boot = record {
  processes =
      some (process_with 1 false none (1 ∷ 2 ∷ []) 0)
      ∷ some (process_with 2 true (some 0) [] 1)
      ∷ some (process_with 3 false (some 0) [] 2)
      ∷ [];
  threads = thread_of 0 (some 0) ∷ thread_of 1 none ∷ thread_of 2 (some 0) ∷ [];
  initproc = 0;
  current = some 0;
  tasks = record { ready_queue = 2 ∷ [] };
  timers = [];
  pids = record { current = 4; recycled = [] };
  frames = 100;
}

abbrev pub init_process : Process pages
init_process = process_with 1 false none (1 ∷ 2 ∷ []) 0

pub boot-IsFamily : IsFamily pages 0 [] boot
unfolding strong_count count upgrade
boot-IsFamily = (
  refl,
  record {
    once = λ c. ground arith;
    dead = λ c gone. gone_is_free c gone;
    root = refl;
    root_alive = λ e. cc e;
  },
)
  where
    gone_is_free :
        (c : ℕ)
        → upgrade pages boot.processes c ≡ none
        → strong_count pages c boot.processes + count c [] ≡ 0
    gone_is_free zero e = cc e
    gone_is_free (suc zero) e = cc e
    gone_is_free (suc (suc zero)) e = cc e
    gone_is_free (suc (suc (suc c))) e = ground arith

unfoldable pub boot-CanFork : CanFork pages boot 0 init_process
unfolding upgrade
boot-CanFork = record {
  running_ref = 0;
  running_task = thread_of 0 (some 0);
  is_current = refl;
  running_at = refl;
  of_process = refl;
  alive = refl;
  main_ref = 0;
  main = thread_of 0 (some 0);
  tid = 0;
  one_thread = refl;
  main_at = refl;
  has_res = refl;
  memory_set = 10;
  frames = 90;
  copies = refl;
  kernel_stack = 0x80000000;
  frames' = 74;
  stack_fits = refl;
}

abbrev pub after_clone : Kernel pages
after_clone =
    (sys_clone-Cloned pages boot 0 17 init_process (omega arith) (omega arith) tt boot-CanFork).1

pub cloned : Step pages (λ a. true) (λ a. true) boot after_clone
cloned =
    let (n, k', e, facts) =
      sys_clone-Cloned pages boot 0 17 init_process (omega arith) (omega arith) tt boot-CanFork in
    clones 17 n e
