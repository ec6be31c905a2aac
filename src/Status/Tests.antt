-- ===== src/Status/Tests.antt =====
-- A run of `sync_pcb_state_from_threads` of src/kernel.c, and the theorem about it.
use fleetos.Base.{◌≡◌, refl, List, [], ◌∷◌, pos, minus_one, ◌||◌, not, if◌then◌else◌}
use fleetos.Types.{
  ProcessState, ThreadState, mutex_wait, io_block, no_reason, compute, normal, same_process_state,
}
use fleetos.Thread.{Tcb}
use fleetos.Process.{Pcb, pcb_set_state}
use fleetos.Status.{
  sync_pcb_state_from_threads, process_has_live_threads, tally_threads, tally_thread,
  set_from_tally,
}
use fleetos.Status.Agree.{status, status_reason, sync_pcb_state-status}

abbrev waiting_thread : Tcb
waiting_thread = record {
  tid = pos 3;
  owner_pid = pos 1;
  state = ThreadState.blocked;
  local_pc = 0;
  wait_reason = mutex_wait;
  commands = compute ∷ [];
  command_count = 1;
  burst_remaining = pos 5;
  command_ticks_remaining = pos 1;
  priority = normal;
  mlfq_level = minus_one;
}

abbrev its_threads : List Tcb
its_threads =
    record waiting_thread { state = ThreadState.done }
    ∷ record waiting_thread { owner_pid = pos 2; state = ThreadState.running }
    ∷ waiting_thread
    ∷ record waiting_thread { wait_reason = io_block }
    ∷ []

abbrev its_process : Pcb
its_process = record {
  pid = pos 1;
  name = [];
  state = ProcessState.running;
  priority = normal;
  program_counter = 0;
  registers = [];
  page_table = [];
  pages_used = pos 0;
  arrival_time = 0;
  burst_remaining = pos 5;
  wait_time = 0;
  blocked_reason = no_reason;
  held_resources = [];
  requested_resource = minus_one;
  commands = [];
  command_count = 0;
  command_ticks_remaining = pos 0;
  mlfq_level = minus_one;
  completion_tick = minus_one;
}

blocked_by_mutex :
    sync_pcb_state_from_threads its_process its_threads
    ≡ record its_process { state = ProcessState.blocked; blocked_reason = mutex_wait }
unfolding sync_pcb_state_from_threads tally_threads tally_thread set_from_tally pcb_set_state
blocked_by_mutex = refl

sync_pcb_state-status_example : sync_pcb_state_from_threads its_process its_threads ≡ (
    if (same_process_state its_process.state ProcessState.terminated
        || same_process_state its_process.state ProcessState.new)
      || not (process_has_live_threads its_process.pid its_threads)
    then its_process
    else record its_process {
      state = status its_process.pid its_threads;
      blocked_reason = status_reason its_process.pid its_threads;
    })
sync_pcb_state-status_example = sync_pcb_state-status its_process its_threads
