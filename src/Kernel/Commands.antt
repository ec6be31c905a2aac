-- ===== src/Kernel/Commands.antt =====
-- The command of the running thread, from the loop of `kernel_run` in src/kernel.c: one function for
-- each case of the switch, and what follows it.
use fleetos.Base.{
  ℕ, ◌+◌, ◌*◌, Bool, true, false, ◌&&◌, not, ◌++◌, ◌==◌, if◌then◌else◌, take, ℤ, ◌+ℤ◌, pos, is_neg,
  is_positive, eq_int, Option, none, some, bytes, print_int, List,
}
use fleetos.Types.{
  ThreadState, CommandType, compute, produce_data, consume_data, acquire_resource, io_write,
  io_block, mutex_wait, resource_wait, same_thread_state,
}
use fleetos.Thread.{thread_execute, thread_current_command}
use fleetos.Procs.{find_proc}
use fleetos.Pending.{add_io_event}
use fleetos.Status.{process_has_live_threads}
use fleetos.FileSystem.{fs_create}
use fleetos.Deadlock.{deadlock_request}
use fleetos.Sync.{buffer_produce, buffer_consume}
use fleetos.Scheduler.{update_thread, scheduler_terminate}
use fleetos.Kernel.{
  Kernel, tcb_of, with_sched, all_threads, block_thread, advance, next_phase, wake_threads,
}
use fleetos.Kernel.Cleanup.{cleanup_process}

unfoldable pub execute_thread : ℕ → Kernel → Kernel
execute_thread t k = with_sched (update_thread t thread_execute) k

unfoldable pub run_produce : ℕ → Kernel → Kernel
run_produce t k =
    let pid = (tcb_of k t).owner_pid in
    let made = buffer_produce k.sensor_buf (pos (k.current_tick * 100) +ℤ pid) pid in
    let stored = record k { sensor_buf = made.after } in
    if is_neg made.result
    then block_thread t mutex_wait stored
    else wake_threads made.wake_pids (execute_thread t stored)

-- The item taken only goes to the log; `old` is what the variable holds before.
unfoldable pub run_consume : ℤ → ℕ → Kernel → Kernel
run_consume old t k =
    let pid = (tcb_of k t).owner_pid in
    let got = buffer_consume k.sensor_buf old pid in
    let taken = record k { sensor_buf = got.after } in
    if is_neg got.result
    then block_thread t mutex_wait taken
    else wake_threads got.wake_pids (execute_thread t taken)

abbrev pub resource_landing_pad : ℤ
resource_landing_pad = pos 0

abbrev pub resource_charge_station : ℤ
resource_charge_station = pos 1

abbrev pub resource_comm_channel : ℤ
resource_comm_channel = pos 2

-- Processes 0 and 1 take the landing pad and the charge station in opposite orders.
unfoldable pub wanted_resource : ℤ → Kernel → ℤ
wanted_resource pid k =
    if eq_int pid (pos 0)
    then (if k.deadlock_phase 0 == 0 then resource_landing_pad else resource_charge_station)
    else if eq_int pid (pos 1)
    then (if k.deadlock_phase 1 == 0 then resource_charge_station else resource_landing_pad)
    else resource_comm_channel

unfoldable pub request_resource : ℕ → Kernel → Kernel
request_resource t k =
    let pid = (tcb_of k t).owner_pid in
    let (graph, result) = deadlock_request k.graph pid (wanted_resource pid k) in
    let asked = record k { graph = graph } in
    if eq_int result (pos 0)
    then with_sched (update_thread t advance) (next_phase pid asked)
    else if eq_int result (pos 1)
    then with_sched (update_thread t advance) asked
    else block_thread t resource_wait asked

unfoldable pub run_acquire : ℕ → Kernel → Kernel
run_acquire t k = if k.config.deadlock_enabled then request_resource t k else execute_thread t k

-- `/logs/drone_%d_seq_%d.log` in an array of 64 bytes.
unfoldable pub log_path : ℤ → ℕ → List ℕ
log_path pid seq =
    take 63 (
      bytes "/logs/drone_" ++ print_int pid ++ bytes "_seq_" ++ print_int (pos seq) ++ bytes ".log")

unfoldable pub run_io_write : ℕ → Kernel → Kernel
run_io_write t k =
    let pid = (tcb_of k t).owner_pid in
    let path = log_path pid k.io_seq in
    let started = record k { fs = (fs_create k.fs path).0; io_seq = k.io_seq + 1 } in
    let blocked = block_thread t io_block (with_sched (update_thread t advance) started) in
    record blocked { pending = add_io_event pid k.current_tick path blocked.pending }

-- What a consumer's `int item;` holds before the call is never used.
unfoldable pub run_case : CommandType → ℕ → Kernel → Kernel
run_case compute t k = execute_thread t k
run_case produce_data t k = run_produce t k
run_case consume_data t k = run_consume (pos 0) t k
run_case acquire_resource t k = run_acquire t k
run_case io_write t k = run_io_write t k

-- A running thread with no work ends, and with the last thread its process. `found` tells whether
-- the process was found before the command.
unfoldable pub retire_thread : Bool → ℤ → ℕ → Kernel → Option Kernel
retire_thread found pid t k =
    let ended = with_sched (λ s. scheduler_terminate s (some t)) k in
    if same_thread_state (tcb_of k t).state ThreadState.running
      && not (is_positive (tcb_of k t).burst_remaining)
    then (if found && not (process_has_live_threads pid (all_threads ended))
        then cleanup_process pid false ended
        else some ended)
    else some k

abbrev pub is_found {ℓ} : {A : Type ℓ} → Option A → Bool
is_found none = false
is_found (some a) = true

unfoldable pub run_thread : ℕ → Kernel → Option Kernel
run_thread t k =
    let pid = (tcb_of k t).owner_pid in
    retire_thread (is_found (find_proc k.all_procs pid)) pid t
      (run_case (thread_current_command (tcb_of k t)) t k)
