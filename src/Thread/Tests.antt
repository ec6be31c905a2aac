-- ===== src/Thread/Tests.antt =====
-- The theorems on the threads of src/thread.c at the battery drone's program.
use fleetos.Base.{
  ◌≡◌, refl, arith, List, [], ◌∷◌, pos, minus_one, replicate, some, get_or, min, ◌%◌,
}
use fleetos.Types.{
  ThreadState, CommandType, no_reason, page_fault, normal, compute, acquire_resource, io_write,
  max_commands,
}
use fleetos.Thread.{Tcb, thread_create, thread_block, thread_unblock, thread_current_command}
use fleetos.Thread.Progress.{
  IsRunnable, Progress, execute_times, execute_times-Progress, unblock-block, started,
  created_runs_program,
}

abbrev fresh_memory : Tcb
fresh_memory = record {
  tid = pos 0;
  owner_pid = pos 0;
  state = ThreadState.done;
  local_pc = 9;
  wait_reason = page_fault;
  commands = replicate max_commands io_write;
  command_count = 0;
  burst_remaining = minus_one;
  command_ticks_remaining = minus_one;
  priority = normal;
  mlfq_level = minus_one;
}

abbrev battery : List CommandType
battery = compute ∷ acquire_resource ∷ io_write ∷ []

abbrev running_thread : Tcb
running_thread = record fresh_memory {
  state = ThreadState.running;
  local_pc = 1;
  commands = battery;
  command_count = 3;
  burst_remaining = pos 25;
  command_ticks_remaining = pos 1;
}

running_thread-IsRunnable : IsRunnable running_thread
running_thread-IsRunnable = ground arith

execute_times-Progress_example : Progress running_thread 4 25 (execute_times 4 running_thread)
execute_times-Progress_example =
    execute_times-Progress 4 25 running_thread running_thread-IsRunnable refl

unblock-block_example :
    thread_unblock (thread_block running_thread page_fault)
    ≡ record running_thread { state = ThreadState.ready; wait_reason = no_reason }
unblock-block_example = unblock-block running_thread page_fault

created_runs_program_example :
    (t : Tcb) × (thread_create (some fresh_memory) (pos 2) (pos 1) battery 3 (pos 25) ≡ some t)
    × (t.state ≡ ThreadState.ready)
    × (thread_current_command (execute_times 4 (started t)) ≡ get_or battery (min 4 25 % 3) compute)
created_runs_program_example =
    created_runs_program fresh_memory (pos 2) (pos 1) battery 3 25 4 (omega arith) (omega arith)
      (omega arith) (omega arith)
