-- ===== src/Lib.antt =====
-- Neuclear, a RISC-V kernel in Rust: a verification library for the crates under kernel/crates.
--
-- The parts and how they interact. kernel/crates/memory hands out physical frames, keeps page tables
-- in them and builds address spaces. kernel/crates/filesystem has the open files, of which a pipe is
-- one kind. kernel/crates/major has the processes, whose descriptor tables hold shared references to
-- open files and whose ids come from a recycling allocator, and the system calls on all of these.
--
-- The files, and the code that each models:
--   Base      booleans, lists and the 64-bit words of a usize; Base.Outcome is
--             kernel/crates/utils/src/error.rs with the kernel's panics beside it.
--   Pipe      kernel/crates/filesystem/src/pipe.rs. `PipeRingBuffer` is the struct; read_byte,
--             write_byte, available_read and available_write are its methods; `read` and `write` are
--             the methods of `File for Pipe`, cut at the call that suspends the thread: a call yields
--             `returned` or `suspended` with what is left to do. Pipe.Stream strings such runs of
--             readers and writers together.
--   Task      Task.Resource is kernel/crates/major/src/task/resource.rs: `RecycleAllocator` and the
--             places of the user stacks. Task.UserPtr is the checks of user pointers of
--             kernel/crates/major/src/task/process.rs. Task.Timers is time.rs and manager.rs beside it.
--   Files     kernel/crates/filesystem/src: the kinds of open files behind the trait `File`. Open
--             files stand in a store, since descriptors share them by `Arc`.
--   FdTable   The descriptor table of kernel/crates/major/src/task/process.rs and the system calls
--             close, dup, dup3, pipe2, fcntl and the descriptor checks of read, write, readv and
--             writev of kernel/crates/major/src/trap/syscall/fs.rs; close_on_exec is the loop in
--             kernel/crates/major/src/task/loader/mod.rs.
--   Memory    kernel/crates/memory/src. Memory.Address is address.rs and lib.rs; Memory.Frames is
--             frame_allocator.rs; Memory.PageTable is page_table.rs; Memory.Space is memory_set.rs,
--             a BTreeMap written as a list in the order of the keys; Memory.Fork is
--             its from_existed_user.
--   Signal    kernel/crates/signal/src and the calls sigaction and sigprocmask of
--             kernel/crates/major/src/trap/syscall/process.rs.
--   BlockCache kernel/crates/drivers/src/block: the cache, over an interface of the device; a handle
--             (`Arc`) on a block is named by the block's id, and counted.
--   Process   The processes and threads of kernel/crates/major/src/task/process.rs and thread.rs: fork
--             and clone. Process.Exit is the exit of a thread in task/mod.rs, Process.Wait is wait4 of
--             trap/syscall/process.rs, a pass of its loop at a time, and Process.Schedule is the
--             scheduler of task/mod.rs and processor.rs. An `Arc` is an index in a list. What a
--             process asks of its address space is the interface Process.AddressSpaces. Process.Places is
--             about where a thread stands: at the processor, in the ready queue or at a timer.
--   Paths     path_with_fd, chdir, getcwd and the cut of unlinkat, of
--             kernel/crates/major/src/trap/syscall/fs.rs, on paths as lists of bytes.
--   FileCalls open_inode and open_file of kernel/crates/filesystem/src, and openat, mkdirat and
--             unlinkat of trap/syscall/fs.rs. The FAT file system is the interface
--             FileCalls.FileSystem, the trait `Entry` of kernel/crates/vfs/src/lib.rs.
--   Stack     kernel/crates/major/src/task/loader/stack.rs: the initial stack of a program, pushed
--             byte by byte through the kernel's view of its pages. Stack.Push.Translates says what
--             the page table has to answer for the pages of the stack.
--   Transfers read, write, readv and writev of trap/syscall/fs.rs, over the methods `read` and
--             `write` of the trait `File`, which are parameters.
--   Clock     kernel/crates/utils/src/time.rs, and gettimeofday, clock_gettime and times of
--             trap/syscall/process.rs.
--   DiskDriver the disk of the FAT library, of kernel/crates/fat32/src/lib.rs: a cursor over the cache
--             of blocks.
--   Fat32     Fat32 and Fat32Entry of the same file, over the interface Fat32.Fatfs of the FAT library;
--             they implement the traits of kernel/crates/vfs/src/lib.rs.
--   MapCalls  mmap and brk of trap/syscall/process.rs, with flags.rs beside it, and set_user_brk of
--             task/process.rs.
--   Config    kernel/crates/utils/src/config.rs: the constants.
--
-- A method on `&mut self` takes the old state and returns the new one. `Outcome` has `err` for the
-- code's `Err` and `panic` for a failed assertion, an `unwrap` of nothing and an index out of bounds.
-- The kernel is built in release mode, so usize arithmetic wraps; Base.Words writes that out. Physical
-- memory is a function from a frame and the index of a word in it; a reference to a page table entry
-- is such a pair. The kernel's window on physical memory is the identity in the model.
--
-- Fuel: the rounds of the pipe's loops are on fuel 2, since a round either ends the call, or is
-- followed by one that ends it: the buffer is then empty, or full. The walk of a page table goes over
-- the list of the three indexes.
--
-- The buddy allocator of deps is an interface, Memory.Frames.Buddy, and what the page tables rely on
-- of it is Memory.PageTable.Pool.BuddyLaws: while a frame is left, asking for one frame gives one that
-- was not out. Memory.Bump has a pool with these laws.
--
-- Not modelled: the trap entry and the context switch in assembler, the console and the log, the
-- VirtIO drivers, the FAT library of deps and the vendored crates, the user programs and the tools.
-- Of the kernel's crates the data that an area is filled with, the kernel's own address space, the
-- segments of a program and the remaining system calls are not modelled.
pub mod Base
pub mod Config
pub mod Pipe
pub mod Task
pub mod Memory
pub mod Files
pub mod FdTable
pub mod Signal
pub mod BlockCache
pub mod Process
pub mod Paths
pub mod FileCalls
pub mod Stack
pub mod Transfers
pub mod Clock
pub mod DiskDriver
pub mod Fat32
pub mod MapCalls
