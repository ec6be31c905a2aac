-- ===== src/Scheduler/History.antt =====
-- Histories of calls of src/scheduler.c from `scheduler_init` on, with what src/kernel.c does to a
-- thread beside them.
use fleetos.Base.{ℕ, ◌≡◌, ◌≢◌, List, [], ◌∷◌, arith, some, if◌then◌else◌, Bool-cases, inl, inr}
use fleetos.Types.{ThreadState, BlockReason, SchedMode, same_thread_state}
use fleetos.Thread.{Tcb, thread_block, thread_unblock, thread_execute}
use fleetos.Scheduler.{
  Scheduler, update_thread, set_state, scheduler_init, scheduler_add, scheduler_next,
  scheduler_block, scheduler_unblock, scheduler_terminate, scheduler_priority_boost, scheduler_tick,
}
use fleetos.Scheduler.OneRunning.{
  OneRunning, Calm, update_thread-OneRunning, scheduler_next-OneRunning,
}
use fleetos.Scheduler.Calls.{
  scheduler_add-OneRunning, scheduler_block-OneRunning, scheduler_terminate-OneRunning,
  scheduler_tick-OneRunning, scheduler_priority_boost-OneRunning, done-OneRunning,
}

-- `block_thread` of src/kernel.c, less the state of the process.
unfoldable pub sched_block_thread : ℕ → BlockReason → Scheduler → Scheduler
sched_block_thread t reason s =
    let stopped = update_thread t (λ (x : Tcb). thread_block x reason) s in
    if same_thread_state (s.threads t).state ThreadState.blocked
    then s
    else scheduler_block stopped (some t)

-- `unblock_thread` of src/kernel.c, less the state of the process.
unfoldable pub sched_unblock_thread : ℕ → Scheduler → Scheduler
sched_unblock_thread t s = scheduler_unblock (update_thread t thread_unblock s) (some t)

pub data SchedCall : Type 0 where
  add : ℕ → SchedCall
  next : SchedCall
  block : ℕ → BlockReason → SchedCall
  unblock : ℕ → SchedCall
  terminate : ℕ → SchedCall
  tick : ℕ → SchedCall
  boost : ℕ → SchedCall
  -- `thread_execute` on a thread.
  execute : ℕ → SchedCall
  -- `all_threads[i]->state = T_DONE;` of `cleanup_process`.
  finish : ℕ → SchedCall

unfoldable pub sched_call : SchedCall → Scheduler → Scheduler
sched_call (add t) s = scheduler_add s (some t)
sched_call next s = scheduler_next s
sched_call (block t reason) s = sched_block_thread t reason s
sched_call (unblock t) s = sched_unblock_thread t s
sched_call (terminate t) s = scheduler_terminate s (some t)
sched_call (tick n) s = (scheduler_tick s n).0
sched_call (boost n) s = scheduler_priority_boost s n
sched_call (execute t) s = update_thread t thread_execute s
sched_call (finish t) s = update_thread t (set_state ThreadState.done) s

-- The calls in the list's order.
unfoldable pub sched_calls : List SchedCall → Scheduler → Scheduler
sched_calls [] s = s
sched_calls (c ∷ cs) s = sched_calls cs (sched_call c s)

thread_execute-Calm : Calm thread_execute
unfolding thread_execute
thread_execute-Calm t h = ground arith

thread_unblock-Calm : Calm thread_unblock
unfolding thread_unblock
thread_unblock-Calm t h = ground arith

sched_block_thread-OneRunning :
    (t : ℕ) (reason : BlockReason) (s : Scheduler)
    → OneRunning s
    → OneRunning (sched_block_thread t reason s)
unfolding sched_block_thread
sched_block_thread-OneRunning t reason s one =
    let stop = λ (x : Tcb). thread_block x reason in
    elim (Bool-cases (same_thread_state (s.threads t).state ThreadState.blocked)) [
      | inl already ↦ rw already one
      | inr other ↦ rw other (
          scheduler_block-OneRunning (update_thread t stop s) t not_running
            (update_thread-OneRunning t stop s (λ x h. absurd (stops x h)) one))
    ]
  where
    stops : (x : Tcb) → (thread_block x reason).state ≢ ThreadState.running
    stops x h = unfold thread_block in ground arith

    not_running :
        ((update_thread t (λ (x : Tcb). thread_block x reason) s).threads t).state
        ≢ ThreadState.running
    not_running h = unfold thread_block update_thread in ground arith

pub sched_call-OneRunning :
    (c : SchedCall) (s : Scheduler) → OneRunning s → OneRunning (sched_call c s)
unfolding sched_call sched_unblock_thread scheduler_unblock
sched_call-OneRunning (add t) s one = scheduler_add-OneRunning s (some t) one
sched_call-OneRunning next s one = scheduler_next-OneRunning s one
sched_call-OneRunning (block t reason) s one = sched_block_thread-OneRunning t reason s one
sched_call-OneRunning (unblock t) s one =
    scheduler_add-OneRunning (update_thread t thread_unblock s) (some t)
      (update_thread-OneRunning t thread_unblock s thread_unblock-Calm one)
sched_call-OneRunning (terminate t) s one = scheduler_terminate-OneRunning s t one
sched_call-OneRunning (tick n) s one = scheduler_tick-OneRunning s n one
sched_call-OneRunning (boost n) s one = scheduler_priority_boost-OneRunning s n one
sched_call-OneRunning (execute t) s one =
    update_thread-OneRunning t thread_execute s thread_execute-Calm one
sched_call-OneRunning (finish t) s one = done-OneRunning t s (λ u ne runs. one u runs)

sched_calls-OneRunning :
    (cs : List SchedCall) (s : Scheduler) → OneRunning s → OneRunning (sched_calls cs s)
unfolding sched_calls
sched_calls-OneRunning [] s one = one
sched_calls-OneRunning (c ∷ cs) s one =
    sched_calls-OneRunning cs (sched_call c s) (sched_call-OneRunning c s one)

-- After any calls from `scheduler_init` on, when no thread runs at first, a thread that runs is the
-- current thread: no two threads run.
pub one_running :
    (cs : List SchedCall) (s : Scheduler) (mode : SchedMode) (u : ℕ)
    → ((t : ℕ) → (s.threads t).state ≢ ThreadState.running)
    → ((sched_calls cs (scheduler_init s mode)).threads u).state ≡ ThreadState.running
    → (sched_calls cs (scheduler_init s mode)).current_thread ≡ some u
one_running cs s mode u idle runs = sched_calls-OneRunning cs (scheduler_init s mode) start u runs
  where
    start : OneRunning (scheduler_init s mode)
    start t h = unfold scheduler_init in absurd (idle t h)
