-- ===== src/Process.antt =====
-- Processes and their threads: kernel/crates/major/src/task/process.rs and thread.rs, and the calls on
-- them of kernel/crates/major/src/trap/syscall/process.rs. An `Arc` of a process or a thread is its
-- index in a list; a process whose last `Arc` is gone leaves `none`. A thread's context is a function
-- from the index of a register; its `task_ctx` is not kept.
pub mod Exit
pub mod Wait
pub mod Schedule
pub mod Held
pub mod Forest
pub mod Family
pub mod Steps
pub mod Scan
pub mod Collect
pub mod Cloned
pub mod Fair
pub mod Places
mod Boot
mod Tests
use neuclear.Base.{
  ℕ, ◌+◌, ◌/◌, ◌%◌, ◌^◌, Bool, true, false, not, List, [], ◌∷◌, ◌++◌, Option, none, some, leb, ◌==◌,
  if◌then◌else◌, get_elem?, set, length,
}
use neuclear.Base.Int.{ℤ, pos}
use neuclear.Base.Outcome.{Outcome, ok, panic, ◌>>=◌, ◌>>◌, assert, unwrap, ok_or, fail_if, temp}
use neuclear.Task.Resource.{RecycleAllocator, alloc}
use neuclear.Task.Timers.{TaskManager, add, TimerCondVar}
use neuclear.Signal.{SignalHandlers, SignalReceiver, receiver_new, try_from_primitive}
use neuclear.FdTable.{Table}

-- What a process asks of its address space and of the frames behind it.
pub record AddressSpaces : Type 1 where
  pub UserSpace : Type 0
  pub Physical : Type 0
  pub from_existed_user : UserSpace → Physical → Outcome (UserSpace × Physical)
  pub remove_area_at : ℕ → UserSpace → Physical → Outcome (UserSpace × Physical)
  pub recycle_all_pages : UserSpace → Physical → UserSpace × Physical
  pub kstack_alloc : Physical → Outcome (ℕ × Physical)
  pub drop_space : UserSpace → Physical → Physical
  pub drop_stack : ℕ → Physical → Physical

pub data ThreadStatus : Type 0 where
  ready running blocking : ThreadStatus

-- `ThreadControlBlock`; `res` is the tid of its user resources.
pub record Thread : Type 0 where
  pub process : ℕ
  pub kernel_stack : ℕ
  pub trap_ctx : ℕ → ℕ
  pub thread_status : ThreadStatus
  pub exit_code : Option ℕ
  pub res : Option ℕ
  pub clear_child_tid : ℕ
  pub sig_receiver : SignalReceiver

module _ (mem : AddressSpaces) where
  -- `ProcessControlBlock`. The exit code is an i32, as its 32 bits.
  pub record Process : Type 0 where
    pub pid : ℕ
    pub is_zombie : Bool
    pub memory_set : mem.UserSpace
    pub parent : Option ℕ
    pub children : List ℕ
    pub exit_code : ℕ
    pub heap_start : ℕ
    pub brk : ℕ
    pub fd_table : Table
    pub threads : List (Option ℕ)
    pub thread_res_allocator : RecycleAllocator
    pub cwd : List ℕ
    pub sig_handlers : SignalHandlers

  -- The kernel's global state: the processor's `current`, `TASK_MANAGER`, `TIMERS`, `PID_ALLOCATOR`.
  pub record Kernel : Type 0 where
    pub processes : List (Option Process)
    pub threads : List Thread
    pub initproc : ℕ
    pub current : Option ℕ
    pub tasks : TaskManager
    pub timers : List TimerCondVar
    pub pids : RecycleAllocator
    pub frames : mem.Physical

  -- `upgrade()` of a process
  unfoldable pub upgrade : List (Option Process) → ℕ → Option Process
  upgrade processes r = elim (get_elem? processes r) [ some (some p) ↦ some p | _ ↦ none ]

  abbrev pub put_process : ℕ → Process → Kernel → Kernel
  put_process r p k = record k { processes = set k.processes r (some p) }

  abbrev pub put_thread : ℕ → Thread → Kernel → Kernel
  put_thread t task k = record k { threads = set k.threads t task }

  unfoldable pub main_thread : Process → Option ℕ
  main_thread p = elim p.threads [ some t ∷ _ ↦ some t | _ ↦ none ]

  unfoldable pub curr_task : Kernel → Outcome (ℕ × Thread)
  curr_task k = do t ← unwrap k.current; task ← unwrap (get_elem? k.threads t); ok (t, task)

  unfoldable pub curr_process : Kernel → Outcome (ℕ × Process)
  unfolding curr_task
  curr_process k = do
    (t, task) ← curr_task k
    p ← unwrap (upgrade k.processes task.process)
    ok (task.process, p)

  -- `ThreadControlBlock::from_existed`, with the trap context that `fork` copies after it.
  abbrev pub from_existed : Thread → ℕ → ℕ → ℕ → Thread
  from_existed other tid process kernel_stack = record {
    process = process;
    kernel_stack = kernel_stack;
    trap_ctx = other.trap_ctx;
    thread_status = ready;
    exit_code = none;
    res = some tid;
    clear_child_tid = 0;
    sig_receiver = receiver_new;
  }

  -- The process that `fork` creates.
  abbrev pub child_of : ℕ → Process → ℕ → mem.UserSpace → ℕ → Process
  child_of parent_ref parent pid memory_set thread_ref = record {
    pid = pid;
    is_zombie = false;
    memory_set = memory_set;
    parent = some parent_ref;
    children = [];
    exit_code = 0;
    heap_start = parent.heap_start;
    brk = parent.brk;
    fd_table = parent.fd_table;
    threads = some thread_ref ∷ [];
    thread_res_allocator = parent.thread_res_allocator;
    cwd = parent.cwd;
    sig_handlers = parent.sig_handlers;
  }

  -- The new process is in the list's next place, and so is its thread.
  unfoldable pub fork : ℕ → Kernel → Outcome (ℕ × Kernel)
  unfolding main_thread
  fork r k = do
    parent ← unwrap (upgrade k.processes r)
    assert (length parent.threads == 1)
    (memory_set, frames) ← mem.from_existed_user parent.memory_set k.frames
    let (pid, pids) = alloc k.pids
    main_ref ← unwrap (main_thread parent)
    main ← unwrap (get_elem? k.threads main_ref)
    tid ← unwrap main.res
    (kernel_stack, frames') ← mem.kstack_alloc frames
    let child_ref = length k.processes
    let thread_ref = length k.threads
    let pushed = record parent { children = parent.children ++ child_ref ∷ [] }
    ok (
      child_ref,
      record k {
        processes =
            set k.processes r (some pushed)
            ++ some (child_of r parent pid memory_set thread_ref) ∷ [];
        threads = k.threads ++ from_existed main tid child_ref kernel_stack ∷ [];
        tasks = add k.tasks thread_ref;
        pids = pids;
        frames = frames';
      },
    )

  -- `trap_ctx.x[10] = 0` in the new thread.
  abbrev pub return_zero : Thread → Thread
  return_zero task = record task { trap_ctx = λ i. if i == 10 then 0 else task.trap_ctx i }

  -- The clone flags are the bits 8 to 24, and the low 8 bits the exit signal.
  unfoldable pub sys_clone : ℕ → Kernel → Outcome (ℤ × Kernel)
  unfolding fork
  sys_clone flags k = do
    fail_if (leb (2 ^ 32) flags) temp
    fail_if (leb (2 ^ 17) (flags / 256)) temp
    signal ← ok_or (try_from_primitive (flags % 256)) temp
    fail_if (not (flags / 256 == 0)) temp
    (r, p) ← curr_process k
    (child_ref, k') ← fork r k
    child ← unwrap (upgrade k'.processes child_ref)
    main_ref ← unwrap (main_thread child)
    main ← unwrap (get_elem? k'.threads main_ref)
    ok (pos child.pid, put_thread main_ref (return_zero main) k')

  -- The calls that only read the state.
  pub sys_getpid : Kernel → Outcome ℤ
  sys_getpid k = do (r, p) ← curr_process k; ok (pos p.pid)

  pub sys_getppid : Kernel → Outcome ℤ
  sys_getppid k = do
    (r, p) ← curr_process k
    parent_ref ← unwrap p.parent
    parent ← unwrap (upgrade k.processes parent_ref)
    ok (pos parent.pid)

  pub sys_gettid : Kernel → Outcome ℤ
  sys_gettid k = do (t, task) ← curr_task k; tid ← unwrap task.res; ok (pos tid)

  pub sys_set_tid_address : ℕ → Kernel → Outcome (ℤ × Kernel)
  sys_set_tid_address tidptr k = do
    (t, task) ← curr_task k
    tid ← unwrap task.res
    ok (pos tid, put_thread t (record task { clear_child_tid = tidptr }) k)
