-- ===== src/Kernel/Safe/Commands.antt =====
-- The commands of a thread and the end of a thread, from `kernel_run` of src/kernel.c, keep the kernel
-- safe.
use fleetos.Base.{
  ℕ, ◌+◌, ◌*◌, ◌&&◌, not, Bool, false, ℤ, ◌+ℤ◌, pos, is_neg, is_positive, eq_int, some,
}
use fleetos.Types.{
  ThreadState, CommandType, compute, produce_data, consume_data, acquire_resource, io_write,
  io_block, mutex_wait, resource_wait, same_thread_state,
}
use fleetos.Thread.{thread_current_command}
use fleetos.Procs.{find_proc}
use fleetos.Pending.Bounds.{add_io_event-slots}
use fleetos.Status.{process_has_live_threads}
use fleetos.FileSystem.{fs_create}
use fleetos.FileSystem.Inert.{fs_create-IsInert}
use fleetos.Deadlock.{deadlock_request}
use fleetos.Deadlock.Exclusion
use fleetos.Deadlock.Exclusion.{graph_call, graph_call-amount}
use fleetos.Sync.{buffer_produce, buffer_consume}
use fleetos.Sync.Fifo.{buffer_produce-IsValid, buffer_consume-IsValid}
use fleetos.Scheduler.{update_thread, scheduler_terminate}
use fleetos.Scheduler.History.{sched_call, execute, sched_call-OneRunning}
use fleetos.Scheduler.Calls.{scheduler_terminate-OneRunning}
use fleetos.Kernel.{Kernel, tcb_of, with_sched, all_threads, block_thread, advance, next_phase}
use fleetos.Kernel.Cleanup.{cleanup_process}
use fleetos.Kernel.Commands.{
  execute_thread, run_produce, run_consume, wanted_resource, request_resource, run_acquire,
  log_path, run_io_write, run_case, retire_thread, is_found, run_thread,
}
use fleetos.Kernel.Safe.{Frame, IsSafe, Returns, on_sched, on_slots, on_graph, on_files, on_buffer}
use fleetos.Kernel.Safe.Threads.{
  if-IsSafe, if-Returns, block_thread-IsSafe, with_thread-IsSafe, advance-Calm, wake_threads-IsSafe,
}
use fleetos.Kernel.Safe.Cleanup.{cleanup_process-Returns}

module _ {fr : Frame} where
  execute_thread-IsSafe : (t : ℕ) (k : Kernel) → IsSafe fr k → IsSafe fr (execute_thread t k)
  unfolding execute_thread
  execute_thread-IsSafe t k v =
      on_sched v (unfold sched_call in sched_call-OneRunning (execute t) k.sched v.one)

  run_produce-IsSafe : (t : ℕ) (k : Kernel) → IsSafe fr k → IsSafe fr (run_produce t k)
  unfolding run_produce
  run_produce-IsSafe t k v =
      let pid = (tcb_of k t).owner_pid in
      let item = pos (k.current_tick * 100) +ℤ pid in
      let made = buffer_produce k.sensor_buf item pid in
      let stored = record k { sensor_buf = made.after } in
      let w : IsSafe fr stored = on_buffer v (buffer_produce-IsValid v.buffer item pid) in
      if-IsSafe (is_neg made.result) (block_thread t mutex_wait stored) _
        (block_thread-IsSafe t mutex_wait stored w)
        (wake_threads-IsSafe made.wake_pids (execute_thread t stored)
          (execute_thread-IsSafe t stored w))

  run_consume-IsSafe :
      (old : ℤ) (t : ℕ) (k : Kernel) → IsSafe fr k → IsSafe fr (run_consume old t k)
  unfolding run_consume
  run_consume-IsSafe old t k v =
      let pid = (tcb_of k t).owner_pid in
      let got = buffer_consume k.sensor_buf old pid in
      let taken = record k { sensor_buf = got.after } in
      let w : IsSafe fr taken = on_buffer v (buffer_consume-IsValid v.buffer old pid) in
      if-IsSafe (is_neg got.result) (block_thread t mutex_wait taken) _
        (block_thread-IsSafe t mutex_wait taken w)
        (wake_threads-IsSafe got.wake_pids (execute_thread t taken)
          (execute_thread-IsSafe t taken w))

  request_resource-IsSafe : (t : ℕ) (k : Kernel) → IsSafe fr k → IsSafe fr (request_resource t k)
  unfolding request_resource graph_call next_phase
  request_resource-IsSafe t k v =
      let pid = (tcb_of k t).owner_pid in
      let answer = deadlock_request k.graph pid (wanted_resource pid k) in
      let asked = record k { graph = answer.0 } in
      let w : IsSafe fr asked =
        on_graph v
          (λ s. graph_call-amount (Exclusion.request pid (wanted_resource pid k)) k.graph s) in
      if-IsSafe (eq_int answer.1 (pos 0)) _ _
        (with_thread-IsSafe t advance (next_phase pid asked) advance-Calm w)
        (if-IsSafe (eq_int answer.1 (pos 1)) _ (block_thread t resource_wait asked)
          (with_thread-IsSafe t advance asked advance-Calm w)
          (block_thread-IsSafe t resource_wait asked w))

  run_acquire-IsSafe : (t : ℕ) (k : Kernel) → IsSafe fr k → IsSafe fr (run_acquire t k)
  unfolding run_acquire
  run_acquire-IsSafe t k v =
      if-IsSafe k.config.deadlock_enabled (request_resource t k) (execute_thread t k)
        (request_resource-IsSafe t k v) (execute_thread-IsSafe t k v)

  run_io_write-IsSafe : (t : ℕ) (k : Kernel) → IsSafe fr k → IsSafe fr (run_io_write t k)
  unfolding run_io_write
  run_io_write-IsSafe t k v =
      let pid = (tcb_of k t).owner_pid in
      let path = log_path pid k.io_seq in
      let started = record k { fs = (fs_create k.fs path).0; io_seq = k.io_seq + 1 } in
      let w = block_thread-IsSafe t io_block (with_sched (update_thread t advance) started) (
        with_thread-IsSafe t advance started advance-Calm
          (on_files v (fs_create-IsInert path v.inert))) in
      on_slots w (add_io_event-slots pid k.current_tick path _ w.slots)

  run_case-IsSafe :
      (c : CommandType) (t : ℕ) (k : Kernel) → IsSafe fr k → IsSafe fr (run_case c t k)
  unfolding run_case
  run_case-IsSafe compute t k v = execute_thread-IsSafe t k v
  run_case-IsSafe produce_data t k v = run_produce-IsSafe t k v
  run_case-IsSafe consume_data t k v = run_consume-IsSafe (pos 0) t k v
  run_case-IsSafe acquire_resource t k v = run_acquire-IsSafe t k v
  run_case-IsSafe io_write t k v = run_io_write-IsSafe t k v

  retire_thread-Returns :
      (found : Bool) (pid : ℤ) (t : ℕ) (k : Kernel)
      → IsSafe fr k
      → Returns fr (retire_thread found pid t k)
  unfolding retire_thread
  retire_thread-Returns found pid t k v =
      let ended = with_sched (λ s. scheduler_terminate s (some t)) k in
      let w : IsSafe fr ended = on_sched v (scheduler_terminate-OneRunning k.sched t v.one) in
      if-Returns fr
        (same_thread_state (tcb_of k t).state ThreadState.running
          && not (is_positive (tcb_of k t).burst_remaining))
        _ (some k)
        (if-Returns fr (found && not (process_has_live_threads pid (all_threads ended)))
          (cleanup_process pid false ended) (some ended) (cleanup_process-Returns pid false ended w)
          w)
        v

  pub run_thread-Returns : (t : ℕ) (k : Kernel) → IsSafe fr k → Returns fr (run_thread t k)
  unfolding run_thread
  run_thread-Returns t k v =
      let pid = (tcb_of k t).owner_pid in
      let cmd = thread_current_command (tcb_of k t) in
      retire_thread-Returns (is_found (find_proc k.all_procs pid)) pid t (run_case cmd t k)
        (run_case-IsSafe cmd t k v)
