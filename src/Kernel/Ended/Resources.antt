-- ===== src/Kernel/Ended/Resources.antt =====
-- The resources of the process that `cleanup_process` of src/kernel.c ends.
use fleetos.Base.{
  ℕ, zero, suc, ◌<◌, ◌≡◌, refl, ap, sym, subst, ◌∙◌, Bool, true, false, if◌then◌else◌, List, [],
  ◌∷◌, ℤ, pos, some, Option-cases, inl, inr,
}
use fleetos.Types.{resource_wait}
use fleetos.Procs.{find_proc}
use fleetos.Sync.{max_procs}
use fleetos.Deadlock.{deadlock_cleanup_process, deadlock_wake_waiters}
use fleetos.Deadlock.Gone.{Gone, deadlock_cleanup_process-Gone, deadlock_wake_waiters-Gone}
use fleetos.Kernel.{
  Kernel, sync_process, unblock_thread, next_phase, grant_thread, grant_from, is_waiting,
  deadlock_wake_callback, run_callbacks,
}
use fleetos.Kernel.Cleanup.{
  withdraw, wake_resource, release_resources, release_files, free_process, end_process,
  cleanup_process,
}
use fleetos.Kernel.Safe.{IsSound}
use fleetos.Kernel.Safe.Cleanup.{
  withdraw-IsSafe, release_resources-IsSafe, fs_cleanup_process-returns,
}
use fleetos.Kernel.Ended.Threads.{finish_threads-finished}

if-graph : (b : Bool) (k l : Kernel) → k.graph ≡ l.graph → (if b then k else l).graph ≡ l.graph
if-graph true k l e = e
if-graph false k l e = refl

grant_from-graph : (n t : ℕ) (pid : ℤ) (k : Kernel) → (grant_from n t pid k).graph ≡ k.graph
unfolding grant_from grant_thread next_phase unblock_thread sync_process
grant_from-graph zero t pid k = refl
grant_from-graph (suc n) t pid k =
    grant_from-graph n (suc t) pid _
    ∙ if-graph (is_waiting k pid resource_wait t) (grant_thread t pid k) k refl

-- The callback does not touch the graph.
run_callbacks-graph : (pids : List ℤ) (k : Kernel) → (run_callbacks pids k).graph ≡ k.graph
unfolding run_callbacks deadlock_wake_callback
run_callbacks-graph [] k = refl
run_callbacks-graph (pid ∷ pids) k =
    run_callbacks-graph pids _ ∙ grant_from-graph k.thread_count 0 pid k

free_process-graph : (pid : ℤ) (k : Kernel) → (free_process pid k).graph ≡ k.graph
unfolding free_process
free_process-graph pid k = elim (Option-cases (find_proc k.all_procs pid)) [
  | inl absent ↦ rw (absent, free_process) refl
  | inr (p, found) ↦ rw (found, free_process) refl
]

end_process-graph : (pid : ℤ) (k : Kernel) → (end_process pid k).graph ≡ k.graph
unfolding end_process
end_process-graph pid k =
    let (_, done, _) = finish_threads-finished pid (free_process pid k) in
    ap (λ (l : Kernel). l.graph) done ∙ free_process-graph pid k

module _ (p : ℕ) where
  wake_resource-Gone : (r : ℕ) (k : Kernel) → Gone p k.graph → Gone p (wake_resource r k).graph
  unfolding wake_resource
  wake_resource-Gone r k v =
      let woken = deadlock_wake_waiters k.graph (pos r) in
      subst (Gone p) (sym (run_callbacks-graph woken.1 (record k { graph = woken.0 })))
        (deadlock_wake_waiters-Gone p r k.graph v)

  release_resources-Gone : (k : Kernel) → p < max_procs → Gone p (release_resources (pos p) k).graph
  unfolding release_resources
  release_resources-Gone k small = wake_resource-Gone 2 _ (
      wake_resource-Gone 1 _ (
        wake_resource-Gone 0 (record k { graph = deadlock_cleanup_process k.graph (pos p) })
          (deadlock_cleanup_process-Gone k.graph p small)))

-- `cleanup_process` of a process number below the size of the table, in a sound kernel and with the
-- resources released, returns a kernel in which the process holds no resource, asks for none and is
-- not active: what it held may have gone on to waiters, but none of it back to the process.
pub cleanup_process-Gone :
    (p : ℕ) (k : Kernel)
    → IsSound k
    → p < max_procs
    → (l : Kernel) × (cleanup_process (pos p) true k ≡ some l) × Gone p l.graph
unfolding cleanup_process release_files
cleanup_process-Gone p k v small =
    let left = withdraw (pos p) k in
    let w = release_resources-IsSafe (pos p) left (withdraw-IsSafe (pos p) k v) in
    let (fs, done, _) = fs_cleanup_process-returns (pos p) w.inert in
    let freed = record (release_resources (pos p) left) { fs = fs } in
    (
      end_process (pos p) freed,
      rw done refl,
      subst (Gone p) (sym (end_process-graph (pos p) freed)) (release_resources-Gone p left small),
    )
