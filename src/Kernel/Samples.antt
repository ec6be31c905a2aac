-- ===== src/Kernel/Samples.antt =====
-- Kernels of src/kernel.c to run and to apply the theorems to: one right after the program start, and
-- one at work.
use fleetos.Base.{ℕ, true, false, [], ◌∷◌, pos, minus_one, none, if◌then◌else◌, ◌==◌}
use fleetos.Types.{ThreadState, ProcessState, mlfq, rr, normal, no_reason}
use fleetos.Thread.{Tcb}
use fleetos.Process.{Pcb}
use fleetos.Memory.{mem_init}
use fleetos.FileSystem.{blank}
use fleetos.Deadlock.Exclusion.{graph_calls, request}
use fleetos.Deadlock.{ResourceGraph}
use fleetos.Sync.{buffer_init}
use fleetos.Scheduler.{Scheduler, empty_queue}
use fleetos.Kernel.{Kernel, KernelConfig}
use fleetos.Kernel.Boot.{zero_event}
use fleetos.Kernel.Safe.Pages.{paged, after_4}
use fleetos.FileSystem.{fs_init}
use fleetos.Deadlock.{deadlock_init}

abbrev pub any_thread : Tcb
any_thread = record {
  tid = pos 0;
  owner_pid = pos 9;
  state = ThreadState.done;
  local_pc = 0;
  wait_reason = no_reason;
  commands = [];
  command_count = 0;
  burst_remaining = pos 0;
  command_ticks_remaining = pos 0;
  priority = normal;
  mlfq_level = minus_one;
}

abbrev pub any_process : Pcb
any_process = record {
  pid = pos 9;
  name = [];
  state = ProcessState.new;
  priority = normal;
  program_counter = 0;
  registers = [];
  page_table = [];
  pages_used = pos 0;
  arrival_time = 0;
  burst_remaining = pos 0;
  wait_time = 0;
  blocked_reason = no_reason;
  held_resources = [];
  requested_resource = minus_one;
  commands = [];
  command_count = 0;
  command_ticks_remaining = pos 0;
  mlfq_level = minus_one;
  completion_tick = minus_one;
}

-- The static variables at program start are zero.
abbrev pub zero_scheduler : Scheduler
zero_scheduler = record {
  rr_ready = empty_queue;
  mlfq_queues = λ (i : ℕ). empty_queue;
  current_thread = none;
  sched_mode = rr;
  quantum_remaining = pos 0;
  context_switches = 0;
  current_queue = 0;
  last_boost_tick = 0;
  priority_boost_count = 0;
  thread_table = λ (i : ℕ). 0;
  thread_count = 0;
  threads = λ (t : ℕ). any_thread;
}

abbrev pub zero_graph : ResourceGraph
zero_graph = record {
  allocation = λ (p : ℕ) (r : ℕ). 0;
  request = λ (p : ℕ) (r : ℕ). 0;
  available = λ (r : ℕ). 0;
  active = λ (p : ℕ). false;
  wait_pid = λ (r : ℕ) (i : ℕ). pos 0;
  wait_count = λ (r : ℕ). 0;
  priority = λ (p : ℕ). normal;
}

abbrev pub short_config : KernelConfig
short_config = record {
  sched_mode = mlfq;
  max_ticks = pos 40;
  deadlock_enabled = true;
  crash_enabled = true;
  compare_enabled = false;
  interactive = false;
}

abbrev pub at_start : Kernel
at_start = record {
  config = short_config;
  current_tick = 0;
  running = true;
  all_procs = [];
  thread_count = 0;
  pending = record { events = λ (i : ℕ). zero_event; count = 0 };
  sensor_buf = buffer_init;
  io_seq = 0;
  deadlock_phase = λ (i : ℕ). 0;
  interactive_paused = false;
  step_target = 0;
  sched = zero_scheduler;
  mem = mem_init;
  fs = blank;
  graph = zero_graph;
}

abbrev pub process_at : ℕ → Pcb
process_at i = record any_process {
  state = if i == 0 then ProcessState.terminated else ProcessState.ready;
  wait_time = i;
  arrival_time = 2;
  completion_tick = if i == 0 then pos 6 else minus_one;
}

-- The four processes with their pages, the first of them terminated at tick 6, two blocked threads of the
-- process 1, an event each of the processes 1 and 2, and a resource that the process 1 holds and the
-- process 2 waits for.
abbrev pub at_work : Kernel
at_work = record at_start {
  all_procs =
      paged 0 0 1 (process_at 0)
      ∷ paged 1 2 3 (process_at 1)
      ∷ paged 2 4 5 (process_at 2)
      ∷ paged 3 6 7 (process_at 3)
      ∷ [];
  thread_count = 2;
  pending = record {
    events = λ (i : ℕ). record zero_event {
      pid = if i == 0 then pos 1 else pos 2;
      completion_tick = 5;
      active = true;
    };
    count = 2;
  };
  sched = record zero_scheduler {
    threads = λ (t : ℕ). record any_thread { owner_pid = pos 1; state = ThreadState.blocked };
  };
  mem = after_4;
  fs = fs_init;
  graph =
      graph_calls (request (pos 1) (pos 0) ∷ request (pos 2) (pos 0) ∷ [])
        (deadlock_init zero_graph);
}
