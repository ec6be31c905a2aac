-- ===== src/Lib.antt =====
-- FleetOS, a simulated operating system for a fleet of drones: the C program under src/.
--
-- The program. src/kernel.c owns the processes and threads and runs the ticks: arrivals, input and
-- output events, page faults, one command of the running thread, deadlock detection, the quantum.
-- It calls src/scheduler.c for the running thread, src/memory.c for frames, src/filesystem.c for
-- files, src/sync.c for the shared sensor buffer and src/deadlock.c for exclusive resources;
-- src/thread.c, src/pcb.c and src/drone.c hold the threads, the processes and their programs.
--
-- The files here.
--   Base: shared names, Boolean tests, C's `int` (Int), arrays as lists (Lists, Arrays), C strings
--     (Text).
--   Types: the enumerations and sizes of src/common.h and their names in src/pcb.c.
--   Thread, Process: src/thread.c, src/pcb.c and src/drone.c, the types `Tcb` and `Pcb`.
--   Sync: src/sync.c. Monitor is the abstract buffer, Queues the wait queues, Fifo one call, History
--     any number of calls.
--   Memory: src/memory.c. Frames holds the two searches, Owner what a page table and the frames say
--     of each other, Allocate and Choice `mem_allocate_page`, Lookup `mem_access`, Start `mem_init`.
--   Procs: the process table of src/kernel.c with Update (search and change), Fault (a resolved page
--     fault, from `complete_page_faults`), Release (`mem_free_process`) and Fate (what becomes of the
--     processes of the table).
--   Deadlock: src/deadlock.c. Account and Exclusion count the units of a resource over histories of
--     calls, WaitFor is the wait-for relation, Search, Depth and Detect the search for a cycle, Wake
--     and Serve the waking of waiters, Cleanup and Gone the end of a process.
--   Ready: the rings of src/scheduler.c; Ring is about push and pop, Remove about removal.
--   Scheduler: the rest of src/scheduler.c. RoundRobin is about turns in that mode, Boost about
--     the levels of the other, OneRunning and Calls about each call in both modes, History about any
--     number of calls.
--   Status: the state of a process by its threads, from src/kernel.c. Agree compares it with them.
--   Pending: the pending events of src/kernel.c. Compact is about their compaction,
--     Cancel about the end of a process, Bounds about the slots in use.
--   Kernel: the rest of src/kernel.c. Events is about completed events, page faults and wake-ups,
--     Cleanup about `cleanup_process`, Commands about the command of the running thread, Tick about the
--     stages of a round, Run about `kernel_run`, Interactive about `process_interactive` (with Numbers on
--     `atoi` and Steps on what a line lets pass), Boot about `kernel_init` and `kernel_shutdown`, Metrics
--     about `kernel_get_metrics` (with Exact on its numbers), Samples some kernels for the tests. Safe holds what the parts keep together, stage by stage, and its
--     Outcome a whole simulation. Ended is about the process that `cleanup_process` ends: Handover and
--     Resources on what it held, Threads on its threads; Shutdown about the frames given back.
--   Main: src/main.c, the command line (Options) and the runs it asks for (Returns).
--   Json: the printers of all modules into buffers of a fixed size; Fits says what fits, Snapshot is the
--     snapshot that `kernel_run` prints. Logger: src/logger.c; Line is about one line.
--   FileSystem: src/filesystem.c. Table and Delete are about the file table, Chain about the walks
--     over the FAT, Inert about the file system that `fs_init` really leaves, Undo about a file made and
--     deleted there.
--   Tests, in each component: runs, and the theorems at concrete inputs.
--
-- How C is modelled. A static or pointed-to object is an argument, and the changed object comes back
-- with the C result. An array is a list of its fixed length. An `int` that can be -1 or that a call
-- tests for its sign is an integer ℤ; indices, counts and ticks are naturals. No value comes near
-- the ends of a 32-bit `int`, except the filler of the FAT and what `atoi` reads, where the bounds are
-- written out; where the standard leaves `atoi` undefined, it is that of glibc. Loops over an array
-- are recursion on the list or on the rounds left. The walks over FAT chains take fuel 65, one more
-- than there are blocks: a chain of distinct blocks is shorter. Such a walk is `none` where C reads
-- out of bounds or does not stop. The depth-first search for a deadlock takes fuel 17, one more than
-- there are processes, each of which it enters at most once. The arrays of src/deadlock.c are
-- functions of the index, behind the bounds tests that the code makes, and so are those of
-- src/scheduler.c, where a `TCB *` is the thread's number in the record of the scheduler, and the
-- pending events. The shift loop of a ring takes 32 rounds at most, the slots of the ring. The
-- levels of the multilevel queue are a function of the level too, though the code tests no bound there:
-- it only computes the levels 0, 1 and 2. `%` by a `command_count` of 0 traps in C and is total here;
-- `kernel_init` makes no thread without commands. A place of the heap of threads where no TCB is holds
-- a filler that no code reads, and `kernel_shutdown` leaves all places so.
--
-- The fuel of `kernel_run` is one round more than the tick limit: each round but the last counts a
-- tick. Without a limit the loop need not end, and too little fuel gives `none`. The lines of standard
-- input and the blocks that `malloc` gives are arguments; `kernel_init` is `none` where C would go on
-- with a null pointer.
--
-- Not modelled: the log lines of the modules beside the snapshot, with the ticks that only stamp them
-- (their formats stand in Logger); `usleep` and `select`, which only wait; `getopt_long`, whose results
-- are the model's command line; the usage text and the printed comparison of src/main.c; null pointers
-- that no caller passes; the web dashboard, which is in other languages.
pub mod Base
pub mod Deadlock
pub mod FileSystem
pub mod Json
pub mod Kernel
pub mod Logger
pub mod Main
pub mod Memory
pub mod Pending
pub mod Process
pub mod Procs
pub mod Ready
pub mod Scheduler
pub mod Status
pub mod Sync
pub mod Thread
pub mod Types
