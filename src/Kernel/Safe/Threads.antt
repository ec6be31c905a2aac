-- ===== src/Kernel/Safe/Threads.antt =====
-- Blocking and unblocking threads, and the callback of the deadlock module, keep the kernel of
-- src/kernel.c safe.
use fleetos.Base.{
  ℕ, zero, suc, Bool, true, false, if◌then◌else◌, List, [], ◌∷◌, ℤ, Option, none, some,
}
use fleetos.Types.{ThreadState, BlockReason, resource_wait, same_thread_state}
use fleetos.Thread.{Tcb}
use fleetos.Scheduler.{update_thread}
use fleetos.Scheduler.OneRunning.{Calm, update_thread-OneRunning}
use fleetos.Scheduler.History.{
  block, unblock, sched_call, sched_call-OneRunning, sched_block_thread, sched_unblock_thread,
}
use fleetos.Kernel.{
  Kernel, with_sched, tcb_of, all_threads, sync_process, block_thread, unblock_thread, is_waiting,
  unblock_from, unblock_waiting, advance, next_phase, grant_thread, grant_from,
  deadlock_wake_callback, run_callbacks, find_thread, wake_thread, wake_threads,
}
use fleetos.Kernel.Safe.{Frame, IsSafe, Returns, on_sched, on_system}
use fleetos.Kernel.Safe.Procs.{sync_pcb_state-Keeps, update_proc-IsSystem, changed-Fate}

pub advance-Calm : Calm advance
unfolding advance
advance-Calm t h = h

pub if-Returns :
    (fr : Frame) (b : Bool) (o p : Option Kernel)
    → Returns fr o
    → Returns fr p
    → Returns fr (if b then o else p)
if-Returns fr true o p v w = v
if-Returns fr false o p v w = w

pub elim-Returns :
    (fr : Frame) {A : Type 0} (o : Option A) (p : Option Kernel) (f : A → Option Kernel)
    → Returns fr p
    → ((a : A) → Returns fr (f a))
    → Returns fr (elim o [ none ↦ p | some a ↦ f a ])
elim-Returns fr none p f v h = v
elim-Returns fr (some a) p f v h = h a

module _ {fr : Frame} where
  sync_process-IsSafe : (pid : ℤ) (k : Kernel) → IsSafe fr k → IsSafe fr (sync_process pid k)
  unfolding sync_process
  sync_process-IsSafe pid k v =
      let keeps = sync_pcb_state-Keeps (all_threads k) in
      on_system v (update_proc-IsSystem _ keeps v.system pid) (changed-Fate _ keeps k.all_procs pid)

  -- If either branch is safe, so is the choice.
  pub if-IsSafe :
      (b : Bool) (k l : Kernel) → IsSafe fr k → IsSafe fr l → IsSafe fr (if b then k else l)
  if-IsSafe true k l v w = v
  if-IsSafe false k l v w = w

  -- A search that finds nothing, or goes on with what it finds.
  pub elim-IsSafe :
      {A : Type 0} (o : Option A) (k : Kernel) (f : A → Kernel)
      → IsSafe fr k
      → ((a : A) → IsSafe fr (f a))
      → IsSafe fr (elim o [ none ↦ k | some a ↦ f a ])
  elim-IsSafe none k f v h = v
  elim-IsSafe (some a) k f v h = h a

  pub block_thread-IsSafe :
      (t : ℕ) (why : BlockReason) (k : Kernel) → IsSafe fr k → IsSafe fr (block_thread t why k)
  unfolding block_thread
  block_thread-IsSafe t why k v =
      if-IsSafe (same_thread_state (tcb_of k t).state ThreadState.blocked) k _ v (
        sync_process-IsSafe _ (with_sched (sched_block_thread t why) k)
          (on_sched v (unfold sched_call in sched_call-OneRunning (block t why) k.sched v.one)))

  pub unblock_thread-IsSafe : (t : ℕ) (k : Kernel) → IsSafe fr k → IsSafe fr (unblock_thread t k)
  unfolding unblock_thread
  unblock_thread-IsSafe t k v =
      sync_process-IsSafe _ (with_sched (sched_unblock_thread t) k)
        (on_sched v (unfold sched_call in sched_call-OneRunning (unblock t) k.sched v.one))

  unblock_from-IsSafe :
      (n t : ℕ) (pid : ℤ) (why : BlockReason) (k : Kernel)
      → IsSafe fr k
      → IsSafe fr (unblock_from n t pid why k)
  unfolding unblock_from
  unblock_from-IsSafe zero t pid why k v = v
  unblock_from-IsSafe (suc n) t pid why k v =
      unblock_from-IsSafe n (suc t) pid why _
        (if-IsSafe (is_waiting k pid why t) _ k (unblock_thread-IsSafe t k v) v)

  pub unblock_waiting-IsSafe :
      (pid : ℤ) (why : BlockReason) (k : Kernel)
      → IsSafe fr k
      → IsSafe fr (unblock_waiting pid why k)
  unfolding unblock_waiting
  unblock_waiting-IsSafe pid why k v = unblock_from-IsSafe k.thread_count 0 pid why k v

  pub with_thread-IsSafe :
      (t : ℕ) (f : Tcb → Tcb) (k : Kernel)
      → Calm f
      → IsSafe fr k
      → IsSafe fr (with_sched (update_thread t f) k)
  with_thread-IsSafe t f k calm v = on_sched v (update_thread-OneRunning t f k.sched calm v.one)

  grant_from-IsSafe :
      (n t : ℕ) (pid : ℤ) (k : Kernel) → IsSafe fr k → IsSafe fr (grant_from n t pid k)
  unfolding grant_from grant_thread next_phase
  grant_from-IsSafe zero t pid k v = v
  grant_from-IsSafe (suc n) t pid k v = grant_from-IsSafe n (suc t) pid _ (
      if-IsSafe (is_waiting k pid resource_wait t) (grant_thread t pid k) k
        (with_thread-IsSafe t advance (next_phase pid (unblock_thread t k)) advance-Calm
          (unblock_thread-IsSafe t k v))
        v)

  pub run_callbacks-IsSafe :
      (pids : List ℤ) (k : Kernel) → IsSafe fr k → IsSafe fr (run_callbacks pids k)
  unfolding run_callbacks deadlock_wake_callback
  run_callbacks-IsSafe [] k v = v
  run_callbacks-IsSafe (pid ∷ pids) k v =
      run_callbacks-IsSafe pids _ (grant_from-IsSafe k.thread_count 0 pid k v)

  pub wake_thread-IsSafe : (tid : ℤ) (k : Kernel) → IsSafe fr k → IsSafe fr (wake_thread tid k)
  unfolding wake_thread
  wake_thread-IsSafe tid k v = elim-IsSafe (find_thread k tid) k _ v (λ t.
      if-IsSafe (same_thread_state (tcb_of k t).state ThreadState.blocked) (unblock_thread t k) k
        (unblock_thread-IsSafe t k v) v)

  pub wake_threads-IsSafe :
      (tids : List ℤ) (k : Kernel) → IsSafe fr k → IsSafe fr (wake_threads tids k)
  unfolding wake_threads
  wake_threads-IsSafe [] k v = v
  wake_threads-IsSafe (tid ∷ tids) k v = wake_threads-IsSafe tids _ (wake_thread-IsSafe tid k v)
