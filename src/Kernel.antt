-- ===== src/Kernel.antt =====
-- src/kernel.c: the kernel's state, the static variables of every module it calls among them; the
-- search for a thread, and what blocks and unblocks one. A pointer to a thread is its number in
-- `all_threads` and in the scheduler's heap. The log lines are left out.
pub mod Events
pub mod Cleanup
pub mod Commands
pub mod Tick
pub mod Interactive
pub mod Run
pub mod Boot
pub mod Metrics
pub mod Safe
pub mod Ended
pub mod Shutdown
pub mod Samples
mod Tests
use fleetos.Base.{
  ℕ, zero, suc, ◌+◌, ◌%◌, Bool, ◌&&◌, not, List, [], ◌∷◌, ltb, if◌then◌else◌, ℤ, pos, index, eq_int,
  pred_int, Option, none, some,
}
use fleetos.Types.{
  SchedMode, ThreadState, BlockReason, resource_wait, same_thread_state, same_block_reason,
}
use fleetos.Thread.{Tcb}
use fleetos.Process.{Pcb}
use fleetos.Status.{sync_pcb_state_from_threads}
use fleetos.Procs.{update_proc}
use fleetos.Pending.{Pending}
use fleetos.Memory.{PhysicalMemory}
use fleetos.FileSystem.{FileSystem}
use fleetos.Deadlock.{ResourceGraph, put}
use fleetos.Sync.{BoundedBuffer}
use fleetos.Scheduler.{Scheduler, update_thread}
use fleetos.Scheduler.History.{sched_block_thread, sched_unblock_thread}

pub record KernelConfig : Type 0 where
  pub sched_mode : SchedMode
  pub max_ticks : ℤ
  pub deadlock_enabled : Bool
  pub crash_enabled : Bool
  pub compare_enabled : Bool
  pub interactive : Bool

-- `all_procs` is a list of its first `proc_count` entries, and `all_threads[i]` is the thread `i` of
-- the scheduler's heap, for `i < thread_count`. The step target is never negative.
pub record Kernel : Type 0 where
  pub config : KernelConfig
  pub current_tick : ℕ
  pub running : Bool
  pub all_procs : List Pcb
  pub thread_count : ℕ
  pub pending : Pending
  pub sensor_buf : BoundedBuffer
  pub io_seq : ℕ
  pub deadlock_phase : ℕ → ℕ
  pub interactive_paused : Bool
  pub step_target : ℕ
  pub sched : Scheduler
  pub mem : PhysicalMemory
  pub fs : FileSystem
  pub graph : ResourceGraph

abbrev pub with_sched : (Scheduler → Scheduler) → Kernel → Kernel
with_sched f k = record k { sched = f k.sched }

-- `all_threads[t]`
abbrev pub tcb_of : Kernel → ℕ → Tcb
tcb_of k t = k.sched.threads t

-- The threads from `i` on, `n` of them.
unfoldable pub threads_from : ℕ → ℕ → (ℕ → Tcb) → List Tcb
threads_from zero i heap = []
threads_from (suc n) i heap = heap i ∷ threads_from n (suc i) heap

unfoldable pub all_threads : Kernel → List Tcb
all_threads k = threads_from k.thread_count 0 k.sched.threads

-- The loop of `find_thread`, with `n` threads left from `i` on.
unfoldable pub find_thread_from : ℕ → ℕ → ℤ → (ℕ → Tcb) → Option ℕ
find_thread_from zero i tid heap = none
find_thread_from (suc n) i tid heap =
    let later = find_thread_from n (suc i) tid heap in
    if eq_int (heap i).tid tid then some i else later

unfoldable pub find_thread : Kernel → ℤ → Option ℕ
find_thread k tid = find_thread_from k.thread_count 0 tid k.sched.threads

-- `pcb = find_proc(pid); if (pcb) sync_pcb_state_from_threads(pcb);`
unfoldable pub sync_process : ℤ → Kernel → Kernel
sync_process pid k = record k {
  all_procs =
      update_proc pid (λ (p : Pcb). sync_pcb_state_from_threads p (all_threads k)) k.all_procs;
}

unfoldable pub block_thread : ℕ → BlockReason → Kernel → Kernel
block_thread t reason k =
    if same_thread_state (tcb_of k t).state ThreadState.blocked
    then k
    else sync_process (tcb_of k t).owner_pid (with_sched (sched_block_thread t reason) k)

unfoldable pub unblock_thread : ℕ → Kernel → Kernel
unblock_thread t k = sync_process (tcb_of k t).owner_pid (with_sched (sched_unblock_thread t) k)

-- `tcb->owner_pid == pid && tcb->state == T_BLOCKED && tcb->wait_reason == reason`
abbrev pub is_waiting : Kernel → ℤ → BlockReason → ℕ → Bool
is_waiting k pid reason t =
    (eq_int (tcb_of k t).owner_pid pid && same_thread_state (tcb_of k t).state ThreadState.blocked)
    && same_block_reason (tcb_of k t).wait_reason reason

-- The loop at the end of a completed event: the waiting threads of a process go on.
unfoldable pub unblock_from : ℕ → ℕ → ℤ → BlockReason → Kernel → Kernel
unblock_from zero t pid why k = k
unblock_from (suc n) t pid why k =
    unblock_from n (suc t) pid why (if is_waiting k pid why t then unblock_thread t k else k)

unfoldable pub unblock_waiting : ℤ → BlockReason → Kernel → Kernel
unblock_waiting pid why k = unblock_from k.thread_count 0 pid why k

-- `local_pc = (local_pc + 1) % command_count; command_ticks_remaining = 1; burst_remaining--;`
unfoldable pub advance : Tcb → Tcb
advance t = record t {
  local_pc = (t.local_pc + 1) % t.command_count;
  command_ticks_remaining = pos 1;
  burst_remaining = pred_int t.burst_remaining;
}

-- `deadlock_phase[pid]++;`
unfoldable pub next_phase : ℤ → Kernel → Kernel
next_phase pid k = record k {
  deadlock_phase = put (index pid) (k.deadlock_phase (index pid) + 1) k.deadlock_phase;
}

-- One waiting thread of the process that got the resource.
unfoldable pub grant_thread : ℕ → ℤ → Kernel → Kernel
grant_thread t pid k = with_sched (update_thread t advance) (next_phase pid (unblock_thread t k))

unfoldable pub grant_from : ℕ → ℕ → ℤ → Kernel → Kernel
grant_from zero t pid k = k
grant_from (suc n) t pid k =
    grant_from n (suc t) pid (if is_waiting k pid resource_wait t then grant_thread t pid k else k)

unfoldable pub deadlock_wake_callback : ℤ → Kernel → Kernel
deadlock_wake_callback pid k = grant_from k.thread_count 0 pid k

-- The calls of the callback, in order, for the processes that `deadlock_wake_waiters` served.
unfoldable pub run_callbacks : List ℤ → Kernel → Kernel
run_callbacks [] k = k
run_callbacks (pid ∷ pids) k = run_callbacks pids (deadlock_wake_callback pid k)

-- `tcb = find_thread(tid); if (tcb && tcb->state == T_BLOCKED) unblock_thread(tcb, tick);`
unfoldable pub wake_thread : ℤ → Kernel → Kernel
wake_thread tid k = elim (find_thread k tid) [
  | none ↦ k
  | some t ↦
      if same_thread_state (tcb_of k t).state ThreadState.blocked then unblock_thread t k else k
]

unfoldable pub wake_threads : List ℤ → Kernel → Kernel
wake_threads [] k = k
wake_threads (tid ∷ tids) k = wake_threads tids (wake_thread tid k)
