-- ===== src/Kernel/Boot.antt =====
-- `kernel_init` and `kernel_shutdown` of src/kernel.c. `malloc` gives a block with any content, or
-- nothing; where it gives nothing C goes on with a null pointer, and the result is `none`. The static
-- variables before the call are an argument, since a second run starts on what the first one leaves.
use fleetos.Base.{
  minus_one, ℕ, suc, ◌+◌, true, false, List, [], ◌∷◌, ◌++◌, ◌==◌, if◌then◌else◌, pos, Option, none,
  some,
}
use fleetos.Types.{ProcessState, ThreadState, CommandType, compute, no_reason, normal}
use fleetos.Thread.{Tcb, thread_create, thread_spawn}
use fleetos.Process.{
  Pcb, pcb_set_state, drone_create_flight, drone_create_battery, drone_create_mapping,
  drone_create_log_collector, drone_get_arrival_time,
}
use fleetos.Procs.{zero_eviction}
use fleetos.Pending.{PendingEvent}
use fleetos.Memory.{PhysicalMemory, mem_init, mem_set_tick, mem_allocate_page, mem_free_process}
use fleetos.FileSystem.{fs_init}
use fleetos.Deadlock.{deadlock_init, deadlock_set_priority}
use fleetos.Sync.{buffer_init}
use fleetos.Scheduler.{Scheduler, update_thread, scheduler_init, scheduler_add}
use fleetos.Kernel.{Kernel, KernelConfig, with_sched}
use fleetos.Kernel.Events.{bind_kernel}

-- What `malloc` gives for each thread and each process.
pub record Allocations : Type 0 where
  pub thread_memory : ℕ → Option Tcb
  pub proc_memory : ℕ → Option Pcb

abbrev pub worker_cmds : List CommandType
worker_cmds = compute ∷ compute ∷ []

-- `tcb->priority = ...; tcb->mlfq_level = ...; all_threads[tid] = tcb;`
unfoldable pub register_thread : ℕ → Pcb → Option Tcb → Kernel → Option Kernel
register_thread tid p none k = none
register_thread tid p (some t) k = some (
    with_sched
      (update_thread tid (λ _. record t { priority = p.priority; mlfq_level = p.mlfq_level })) k)

-- The process `i` with its arrival time, its two pages and, if it is there from the start, its state.
unfoldable pub prepare_process : ℕ → Pcb → PhysicalMemory → PhysicalMemory × Pcb
prepare_process i p m =
    let timed = record p { arrival_time = drone_get_arrival_time (pos i) } in
    let first = mem_allocate_page m timed (pos 0) zero_eviction in
    let second = mem_allocate_page first.mem first.pcb (pos 1) zero_eviction in
    (
      second.mem,
      if timed.arrival_time == 0 then pcb_set_state second.pcb ProcessState.ready else second.pcb,
    )

-- `scheduler_add(main_tcb); scheduler_add(worker_tcb);` for a process that is there from the start.
unfoldable pub start_threads : ℕ → Pcb → Kernel → Kernel
start_threads tid p k =
    with_sched
      (λ (s : Scheduler).
        if p.arrival_time == 0
        then scheduler_add (scheduler_add s (some tid)) (some (tid + 1))
        else s)
      k

-- One round of the loop over the processes, whose threads get the numbers `tid` and `tid + 1`.
unfoldable pub boot_process : Allocations → (i tid : ℕ) → Pcb → Kernel → Option Kernel
boot_process heap i tid p k =
    let (mem, p') = prepare_process i p k.mem in
    let prepared = record k {
      graph = deadlock_set_priority k.graph p.pid p.priority;
      mem = mem;
      all_procs = k.all_procs ++ p' ∷ [];
    } in
    let main_tcb =
      thread_create (heap.thread_memory tid) (pos tid) p.pid p.commands p.command_count
        p.burst_remaining in
    let worker_tcb =
      thread_spawn (heap.thread_memory (tid + 1)) (pos (tid + 1)) p.pid worker_cmds 2 (pos 10) in
    bind_kernel (register_thread tid p main_tcb prepared) (λ (a : Kernel).
      bind_kernel (register_thread (tid + 1) p worker_tcb a)
        (λ (b : Kernel). some (start_threads tid p' b)))

-- The loop over the processes, and `thread_count = next_tid;`.
unfoldable pub boot_procs : Allocations → (i tid : ℕ) → List (Option Pcb) → Kernel → Option Kernel
boot_procs heap i tid [] k = some (record k { thread_count = tid })
boot_procs heap i tid (none ∷ ps) k = none
boot_procs heap i tid (some p ∷ ps) k =
    bind_kernel (boot_process heap i tid p k) (boot_procs heap (suc i) (tid + 2) ps)

abbrev pub zero_event : PendingEvent
zero_event = record {
  pid = pos 0;
  completion_tick = 0;
  reason = no_reason;
  path = [];
  page = pos 0;
  active = false;
}

-- The assignments and calls before the processes are made.
unfoldable pub init_modules : KernelConfig → Kernel → Kernel
init_modules cfg k = record k {
  config = cfg;
  current_tick = 0;
  running = true;
  all_procs = [];
  thread_count = 0;
  io_seq = 0;
  pending = record { events = λ (i : ℕ). zero_event; count = 0 };
  sched = scheduler_init k.sched cfg.sched_mode;
  mem = mem_init;
  fs = fs_init;
  graph = deadlock_init k.graph;
  sensor_buf = buffer_init;
  deadlock_phase = λ (i : ℕ). 0;
}

unfoldable pub create_procs : Allocations → List (Option Pcb)
create_procs heap =
    drone_create_flight (heap.proc_memory 0) (pos 0)
    ∷ drone_create_battery (heap.proc_memory 1) (pos 1)
    ∷ drone_create_mapping (heap.proc_memory 2) (pos 2)
    ∷ drone_create_log_collector (heap.proc_memory 3) (pos 3)
    ∷ []

unfoldable pub kernel_init : KernelConfig → Allocations → Kernel → Option Kernel
kernel_init cfg heap k = boot_procs heap 0 0 (create_procs heap) (init_modules cfg k)

-- The loop over the processes: their blocks are freed, so only the memory comes back.
unfoldable pub free_all : List Pcb → PhysicalMemory → PhysicalMemory
free_all [] m = m
free_all (p ∷ ps) m = free_all ps (mem_free_process m p).0

-- A place of the heap where no TCB is. No code reads it.
abbrev pub no_thread : Tcb
no_thread = record {
  tid = minus_one;
  owner_pid = minus_one;
  state = ThreadState.done;
  local_pc = 0;
  wait_reason = no_reason;
  commands = [];
  command_count = 0;
  burst_remaining = pos 0;
  command_ticks_remaining = pos 0;
  priority = normal;
  mlfq_level = minus_one;
}

-- Every TCB is in `all_threads`, so the loop over it leaves none in the heap.
unfoldable pub kernel_shutdown : Kernel → Kernel
kernel_shutdown k = record k {
  running = false;
  mem = free_all k.all_procs (mem_set_tick k.mem k.current_tick);
  all_procs = [];
  thread_count = 0;
  sched = record k.sched { threads = λ (t : ℕ). no_thread };
}
