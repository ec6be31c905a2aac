-- ===== src/Kernel/Cleanup.antt =====
-- `cleanup_process` of src/kernel.c: the end of a process. Its reason only serves the log.
use fleetos.Base.{ℕ, zero, suc, if◌then◌else◌, ℤ, pos, Option, none, some, Bool}
use fleetos.Types.{ProcessState, ThreadState}
use fleetos.Process.{Pcb, pcb_set_state}
use fleetos.Procs.{find_proc, update_proc}
use fleetos.Procs.Release.{release_process}
use fleetos.Pending.{cancel_events}
use fleetos.Status.{is_live}
use fleetos.FileSystem.{fs_cleanup_process}
use fleetos.Deadlock.{deadlock_cleanup_process, deadlock_wake_waiters}
use fleetos.Sync.{buffer_remove_pid, buffer_release_mutex}
use fleetos.Scheduler.{update_thread, set_state}
use fleetos.Kernel.{Kernel, tcb_of, with_sched, run_callbacks}

-- The events of the process are cancelled, and it leaves the buffer's queues.
unfoldable pub withdraw : ℤ → Kernel → Kernel
withdraw pid k = record k {
  pending = cancel_events pid k.pending;
  sensor_buf = buffer_release_mutex (buffer_remove_pid k.sensor_buf pid) pid;
}

-- `deadlock_wake_waiters(r, tick);` with its calls of the callback.
unfoldable pub wake_resource : ℕ → Kernel → Kernel
wake_resource r k =
    let (graph, pids) = deadlock_wake_waiters k.graph (pos r) in
    run_callbacks pids (record k { graph = graph })

unfoldable pub release_resources : ℤ → Kernel → Kernel
release_resources pid k =
    wake_resource 2 (
      wake_resource 1 (wake_resource 0 (record k { graph = deadlock_cleanup_process k.graph pid })))

unfoldable pub release_files : ℤ → Kernel → Option Kernel
release_files pid k = elim (fs_cleanup_process k.fs pid) [
  | none ↦ none
  | some fs ↦ some (record k { fs = fs })
]

-- `pcb_set_state(pcb, TERMINATED); pcb->completion_tick = tick;`
unfoldable pub finish_process : ℕ → Pcb → Pcb
finish_process tick p = record (pcb_set_state p ProcessState.terminated) {
  completion_tick = pos tick;
}

-- `mem_free_process` on the process found, and its end state.
unfoldable pub free_process : ℤ → Kernel → Kernel
free_process pid k = elim (find_proc k.all_procs pid) [
  | none ↦ k
  | some p ↦
      (let (mem, procs) = release_process k.mem k.all_procs p in
        record k { mem = mem; all_procs = update_proc pid (finish_process k.current_tick) procs })
]

-- The loop that ends the threads, with `n` threads left from `t` on.
unfoldable pub finish_from : ℕ → ℕ → ℤ → Kernel → Kernel
finish_from zero t pid k = k
finish_from (suc n) t pid k = finish_from n (suc t) pid (
    if is_live pid (tcb_of k t)
    then with_sched (update_thread t (set_state ThreadState.done)) k
    else k)

unfoldable pub finish_threads : ℤ → Kernel → Kernel
finish_threads pid k = finish_from k.thread_count 0 pid k

-- The end of `cleanup_process`: memory, state and threads.
unfoldable pub end_process : ℤ → Kernel → Kernel
end_process pid k = finish_threads pid (free_process pid k)

unfoldable pub cleanup_process : ℤ → Bool → Kernel → Option Kernel
cleanup_process pid release k =
    let left = withdraw pid k in
    if release
    then (elim (release_files pid (release_resources pid left)) [
      | none ↦ none
      | some freed ↦ some (end_process pid freed)
    ])
    else some (end_process pid left)
