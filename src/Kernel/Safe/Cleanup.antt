-- ===== src/Kernel/Safe/Cleanup.antt =====
-- `cleanup_process` of src/kernel.c keeps the kernel safe, and always returns.
use fleetos.Base.{ℕ, zero, suc, ◌≡◌, refl, ap, ◌∙◌, Bool, true, false, ℤ, pos, Option, none, some}
use fleetos.Types.{ThreadState}
use fleetos.Process.{Pcb}
use fleetos.Procs.{find_proc, update_proc}
use fleetos.Procs.Release.{release_process, release_process-IsSystem}
use fleetos.Procs.Update.{find_proc-All}
use fleetos.Procs.Fate.{Fate-trans, release_process-Fate}
use fleetos.Memory.Allocate.{Tables}
use fleetos.Status.{is_live}
use fleetos.Pending.{cancel_events}
use fleetos.FileSystem.{FileSystem, fs_cleanup_process, log_prefix, max_files}
use fleetos.FileSystem.Inert.{IsInert, cleanup_from-returns}
use fleetos.Deadlock.{deadlock_cleanup_process, deadlock_wake_waiters}
use fleetos.Deadlock.Exclusion
use fleetos.Deadlock.Exclusion.{graph_call, graph_call-amount}
use fleetos.Sync.{BoundedBuffer, buffer_remove_pid, buffer_release_mutex}
use fleetos.Sync.Monitor.{remove_pid, release_mutex}
use fleetos.Sync.History.{step, step-IsValid}
use fleetos.Sync.Fifo.{IsValid}
use fleetos.Scheduler.{update_thread, set_state}
use fleetos.Scheduler.History.{sched_call, finish, sched_call-OneRunning}
use fleetos.Kernel.{Kernel, tcb_of, with_sched}
use fleetos.Kernel.Cleanup.{
  withdraw, wake_resource, release_resources, release_files, finish_process, free_process,
  finish_from, finish_threads, end_process, cleanup_process,
}
use fleetos.Kernel.Safe.{Frame, IsSafe, Returns, on_sched, on_system, on_graph, on_files, on_buffer}
use fleetos.Kernel.Safe.Procs.{finish_process-Keeps, update_proc-IsSystem, changed-Fate}
use fleetos.Kernel.Safe.Threads.{if-IsSafe, run_callbacks-IsSafe}

left_buffer-IsValid :
    {b : BoundedBuffer} (pid : ℤ)
    → IsValid b
    → IsValid (buffer_release_mutex (buffer_remove_pid b pid) pid)
unfolding step
left_buffer-IsValid pid v = step-IsValid (release_mutex pid) (step-IsValid (remove_pid pid) v)

pub fs_cleanup_process-returns :
    {fs : FileSystem} (pid : ℤ)
    → IsInert fs
    → (fs' : FileSystem) × (fs_cleanup_process fs pid ≡ some fs') × IsInert fs'
unfolding fs_cleanup_process
fs_cleanup_process-returns pid v = cleanup_from-returns max_files 0 (log_prefix pid) v

module _ {fr : Frame} where
  pub withdraw-IsSafe : (pid : ℤ) (k : Kernel) → IsSafe fr k → IsSafe fr (withdraw pid k)
  unfolding withdraw cancel_events
  withdraw-IsSafe pid k v = on_buffer v (left_buffer-IsValid pid v.buffer)

  wake_resource-IsSafe : (r : ℕ) (k : Kernel) → IsSafe fr k → IsSafe fr (wake_resource r k)
  unfolding wake_resource graph_call
  wake_resource-IsSafe r k v =
      let woken = deadlock_wake_waiters k.graph (pos r) in
      run_callbacks-IsSafe woken.1 (record k { graph = woken.0 })
        (on_graph v (λ s. graph_call-amount (Exclusion.wake (pos r)) k.graph s))

  pub release_resources-IsSafe :
      (pid : ℤ) (k : Kernel) → IsSafe fr k → IsSafe fr (release_resources pid k)
  unfolding release_resources graph_call
  release_resources-IsSafe pid k v =
      let freed = record k { graph = deadlock_cleanup_process k.graph pid } in
      wake_resource-IsSafe 2 (wake_resource 1 (wake_resource 0 freed)) (
        wake_resource-IsSafe 1 (wake_resource 0 freed) (
          wake_resource-IsSafe 0 freed
            (on_graph v (λ s. graph_call-amount (Exclusion.cleanup pid) k.graph s))))

  free_process-IsSafe : (pid : ℤ) (k : Kernel) → IsSafe fr k → IsSafe fr (free_process pid k)
  unfolding free_process
  free_process-IsSafe pid k v = freed (find_proc k.all_procs pid) refl
    where
      freed :
          (o : Option Pcb)
          → find_proc k.all_procs pid ≡ o
          → IsSafe fr (elim o [
            | none ↦ k
            | some p ↦
                (let (mem, procs) = release_process k.mem k.all_procs p in
                  record k {
                    mem = mem;
                    all_procs = update_proc pid (finish_process k.current_tick) procs;
                  })
          ])
      freed none e = v
      freed (some p) e =
          let keeps = finish_process-Keeps k.current_tick in
          let released = (release_process k.mem k.all_procs p).1 in
          let at_pid = (find_proc-All (Tables k.mem) k.all_procs pid p v.system.tables e).1 in
          on_system v
            (update_proc-IsSystem (finish_process k.current_tick) keeps
              (release_process-IsSystem k.mem k.all_procs pid p v.system e).0 pid)
            (Fate-trans k.all_procs released
              (update_proc pid (finish_process k.current_tick) released)
              (release_process-Fate k.mem k.all_procs p (ap (find_proc k.all_procs) at_pid ∙ e))
              (changed-Fate (finish_process k.current_tick) keeps released pid))

  finish_from-IsSafe :
      (n t : ℕ) (pid : ℤ) (k : Kernel) → IsSafe fr k → IsSafe fr (finish_from n t pid k)
  unfolding finish_from
  finish_from-IsSafe zero t pid k v = v
  finish_from-IsSafe (suc n) t pid k v = finish_from-IsSafe n (suc t) pid _ (
      if-IsSafe (is_live pid (tcb_of k t))
        (with_sched (update_thread t (set_state ThreadState.done)) k) k
        (on_sched v (unfold sched_call in sched_call-OneRunning (finish t) k.sched v.one)) v)

  end_process-IsSafe : (pid : ℤ) (k : Kernel) → IsSafe fr k → IsSafe fr (end_process pid k)
  unfolding end_process finish_threads
  end_process-IsSafe pid k v =
      let freed = free_process pid k in
      finish_from-IsSafe freed.thread_count 0 pid freed (free_process-IsSafe pid k v)

  pub cleanup_process-Returns :
      (pid : ℤ) (release : Bool) (k : Kernel)
      → IsSafe fr k
      → Returns fr (cleanup_process pid release k)
  unfolding cleanup_process release_files
  cleanup_process-Returns pid false k v =
      end_process-IsSafe pid (withdraw pid k) (withdraw-IsSafe pid k v)
  cleanup_process-Returns pid true k v =
      let w = release_resources-IsSafe pid (withdraw pid k) (withdraw-IsSafe pid k v) in
      let (fs, done, inert) = fs_cleanup_process-returns pid w.inert in
      rw done (
        end_process-IsSafe pid (record (release_resources pid (withdraw pid k)) { fs = fs })
          (on_files w inert))
