-- ===== src/Scheduler.antt =====
-- src/scheduler.c and src/scheduler.h: round robin, and the multilevel feedback queue. The static
-- variables and the threads they point to are one record. The log lines are left out.
pub mod RoundRobin
pub mod Boost
pub mod OneRunning
pub mod Calls
pub mod History
mod Tests
use fleetos.Base.{
  ℕ, zero, suc, ◌+◌, ◌-◌, ◌≡◌, Bool, true, false, ◌&&◌, ◌||◌, not, if◌then◌else◌, ltb, leb, ◌==◌, ℤ,
  pos, minus_one, is_neg, index, is_positive, pred_int, Option, none, some, List, [], ◌∷◌,
}
use fleetos.Types.{
  ThreadState, Priority, critical, high, normal, low, SchedMode, rr, mlfq, same_thread_state,
}
use fleetos.Thread.{Tcb, thread_yield}
use fleetos.Sync.{max_threads}
use fleetos.Deadlock.{put}
use fleetos.Ready.{
  ReadyQueue, find_in_queue, queue_push, queue_pop, append_ready, take_head, remove_ready,
  max_ready_queue,
}

abbrev pub sched_quantum_rr : ℕ
sched_quantum_rr = 4

-- `mlfq_quantum[i]`
abbrev pub mlfq_quantum : ℕ → ℕ
mlfq_quantum i = if i == 0 then 2 else if i == 1 then 4 else 8

-- `mlfq_queues` has the levels 0 to 2, the only ones that the program computes.
pub record Scheduler : Type 0 where
  pub rr_ready : ReadyQueue
  pub mlfq_queues : ℕ → ReadyQueue
  pub current_thread : Option ℕ
  pub sched_mode : SchedMode
  pub quantum_remaining : ℤ
  pub context_switches : ℕ
  pub current_queue : ℕ
  pub last_boost_tick : ℕ
  pub priority_boost_count : ℕ
  pub thread_table : ℕ → ℕ
  pub thread_count : ℕ
  pub threads : ℕ → Tcb

abbrev pub is_rr : SchedMode → Bool
is_rr rr = true
is_rr mlfq = false

-- `tcb->... = ...;`
unfoldable pub update_thread : ℕ → (Tcb → Tcb) → Scheduler → Scheduler
update_thread t f s = record s { threads = put t (f (s.threads t)) s.threads }

unfoldable pub set_state : ThreadState → Tcb → Tcb
set_state state tcb = record tcb { state = state }

unfoldable pub set_level : ℕ → Tcb → Tcb
set_level level tcb = record tcb { mlfq_level = pos level }

unfoldable pub get_mlfq_level : Priority → ℕ
get_mlfq_level critical = 0
get_mlfq_level high = 0
get_mlfq_level normal = 1
get_mlfq_level low = 2

-- `(tcb->mlfq_level >= 0) ? tcb->mlfq_level : get_mlfq_level(tcb->priority)`
unfoldable pub level_of : Tcb → ℕ
level_of tcb = if is_neg tcb.mlfq_level then get_mlfq_level tcb.priority else index tcb.mlfq_level

abbrev pub empty_queue : ReadyQueue
empty_queue = record { queue = λ (i : ℕ). 0; head = 0; count = 0 }

unfoldable pub scheduler_init : Scheduler → SchedMode → Scheduler
scheduler_init s mode = record s {
  rr_ready = record s.rr_ready { queue = λ (i : ℕ). 0; head = 0; count = 0 };
  mlfq_queues = put 2 empty_queue (put 1 empty_queue (put 0 empty_queue s.mlfq_queues));
  current_thread = none;
  sched_mode = mode;
  context_switches = 0;
  thread_count = 0;
  last_boost_tick = 0;
  priority_boost_count = 0;
  current_queue = 0;
  thread_table = λ (i : ℕ). 0;
  quantum_remaining = pos (if is_rr mode then sched_quantum_rr else mlfq_quantum 0);
}

-- `for (i = 0; i < thread_count; i++) if (thread_table[i] == tcb) ...`
unfoldable pub in_table : ℕ → ℕ → (ℕ → ℕ) → ℕ → Bool
in_table zero i table t = false
in_table (suc n) i table t = (table i == t) || in_table n (suc i) table t

-- The end of `scheduler_add`: the state and the table of all threads.
unfoldable pub note_ready : ℕ → Scheduler → Scheduler
note_ready t s =
    let marked = update_thread t (set_state ThreadState.ready) s in
    if not (in_table s.thread_count 0 s.thread_table t) && ltb s.thread_count max_threads
    then record marked {
      thread_table = put s.thread_count t s.thread_table;
      thread_count = s.thread_count + 1;
    }
    else marked

-- `queue_push(&mlfq_queues[level], tcb);`
unfoldable pub push_level : ℕ → ℕ → Scheduler → Scheduler
push_level level t s = record s {
  mlfq_queues = put level (queue_push (s.mlfq_queues level) t) s.mlfq_queues;
}

unfoldable pub scheduler_add : Scheduler → Option ℕ → Scheduler
scheduler_add s none = s
scheduler_add s (some t) =
    let level = level_of (s.threads t) in
    if is_rr s.sched_mode
    then if not (is_neg (find_in_queue s.rr_ready t))
      then s
      else if not (ltb s.rr_ready.count max_ready_queue)
      then s
      else note_ready t (record s { rr_ready = append_ready s.rr_ready t })
    else if not (is_neg (find_in_queue (s.mlfq_queues level) t))
    then s
    else note_ready t (update_thread t (set_level level) (push_level level t s))

-- `current_thread && current_thread->state == T_RUNNING`
abbrev pub is_running : Scheduler → Option ℕ → Bool
is_running s none = false
is_running s (some t) = same_thread_state (s.threads t).state ThreadState.running

abbrev pub same_thread : Option ℕ → Option ℕ → Bool
same_thread none none = true
same_thread (some a) (some b) = a == b
same_thread _ _ = false

-- The current thread goes to the back of the ring.
unfoldable pub requeue_rr : Scheduler → Option ℕ → Scheduler
requeue_rr s none = s
requeue_rr s (some t) =
    let yielded = update_thread t thread_yield s in
    record yielded { rr_ready = append_ready s.rr_ready t }

-- The end of `scheduler_next`: `next` runs.
unfoldable pub switch_to : ℕ → ℕ → Scheduler → Scheduler
switch_to t quantum s =
    let running = update_thread t (set_state ThreadState.running) s in
    record running {
      current_thread = some t;
      quantum_remaining = pos quantum;
      context_switches =
          if same_thread s.current_thread (some t)
          then s.context_switches
          else s.context_switches + 1;
    }

unfoldable pub next_rr : Scheduler → Scheduler
next_rr s =
    let waiting = if is_running s s.current_thread then requeue_rr s s.current_thread else s in
    let taken = take_head waiting.rr_ready in
    if not (ltb 0 s.rr_ready.count)
    then s
    else switch_to taken.1 sched_quantum_rr (record waiting { rr_ready = taken.0 })

-- The current thread goes to the back of its level.
unfoldable pub requeue_mlfq : Scheduler → Option ℕ → Scheduler
requeue_mlfq s none = s
requeue_mlfq s (some t) =
    let level = level_of (s.threads t) in
    update_thread t thread_yield (update_thread t (set_level level) (push_level level t s))

-- The first level with a thread, or -1.
unfoldable pub choose_level : Scheduler → ℤ
choose_level s =
    if ltb 0 (s.mlfq_queues 0).count
    then pos 0
    else if ltb 0 (s.mlfq_queues 1).count
    then pos 1
    else if ltb 0 (s.mlfq_queues 2).count
    then pos 2
    else minus_one

unfoldable pub mlfq_has_ready : Scheduler → Bool
mlfq_has_ready s =
    (ltb 0 (s.mlfq_queues 0).count || ltb 0 (s.mlfq_queues 1).count)
    || ltb 0 (s.mlfq_queues 2).count

-- `chosen` has a thread, so `queue_pop` takes one.
unfoldable pub run_level : ℕ → Scheduler → Scheduler
run_level chosen s =
    let taken = take_head (s.mlfq_queues chosen) in
    let popped = record s { mlfq_queues = put chosen taken.0 s.mlfq_queues } in
    let switched = switch_to taken.1 (mlfq_quantum chosen) popped in
    record switched { current_queue = chosen }

unfoldable pub next_mlfq : Scheduler → Scheduler
next_mlfq s =
    let waiting = if is_running s s.current_thread then requeue_mlfq s s.current_thread else s in
    let chosen = choose_level waiting in
    if not (mlfq_has_ready s)
    then s
    else if is_neg chosen
    then waiting
    else run_level (index chosen) waiting

-- The thread returned is `current_thread` afterwards, save where no level is chosen, which the test
-- before rules out.
unfoldable pub scheduler_next : Scheduler → Scheduler
scheduler_next s = if is_rr s.sched_mode then next_rr s else next_mlfq s

-- The removal from the first level that has the thread.
unfoldable pub remove_level : ℕ → Scheduler → Scheduler
remove_level t s =
    let drop_from = λ (i : ℕ). record s {
      mlfq_queues = put i (remove_ready (s.mlfq_queues i) t) s.mlfq_queues;
    } in
    if not (is_neg (find_in_queue (s.mlfq_queues 0) t))
    then drop_from 0
    else if not (is_neg (find_in_queue (s.mlfq_queues 1) t))
    then drop_from 1
    else if not (is_neg (find_in_queue (s.mlfq_queues 2) t))
    then drop_from 2
    else s

unfoldable pub remove_queued : ℕ → Scheduler → Scheduler
remove_queued t s =
    if is_rr s.sched_mode
    then record s { rr_ready = remove_ready s.rr_ready t }
    else remove_level t s

unfoldable pub scheduler_block : Scheduler → Option ℕ → Scheduler
scheduler_block s none = s
scheduler_block s (some t) =
    let is_current = same_thread s.current_thread (some t) in
    let noted =
      if not (is_rr s.sched_mode) && is_current
      then update_thread t (set_level s.current_queue) s
      else s in
    if same_thread_state (s.threads t).state ThreadState.done
    then s
    else if is_current
    then scheduler_next (record noted { current_thread = none })
    else remove_queued t noted

unfoldable pub scheduler_unblock : Scheduler → Option ℕ → Scheduler
scheduler_unblock s tcb = scheduler_add s tcb

unfoldable pub scheduler_terminate : Scheduler → Option ℕ → Scheduler
scheduler_terminate s none = s
scheduler_terminate s (some t) =
    let left =
      if same_thread s.current_thread (some t) then record s { current_thread = none } else s in
    update_thread t (set_state ThreadState.done) (remove_queued t left)

-- The thread at the head of level `i` goes to level 0.
unfoldable pub move_up : ℕ → Scheduler → Scheduler
move_up i s =
    let taken = take_head (s.mlfq_queues i) in
    let popped = record s { mlfq_queues = put i taken.0 s.mlfq_queues } in
    push_level 0 taken.1 (update_thread taken.1 (set_level 0) popped)

-- `while (mlfq_queues[i].count > 0) ...`: each round takes one thread from level `i`.
unfoldable pub drain_level : ℕ → ℕ → Scheduler → Scheduler
drain_level zero i s = s
drain_level (suc fuel) i s =
    let rest = drain_level fuel i (move_up i s) in if ltb 0 (s.mlfq_queues i).count then rest else s

unfoldable pub scheduler_priority_boost : Scheduler → ℕ → Scheduler
scheduler_priority_boost s tick =
    let noted = record s {
      last_boost_tick = tick;
      priority_boost_count = s.priority_boost_count + 1;
    } in
    let first = drain_level (noted.mlfq_queues 1).count 1 noted in
    if is_rr s.sched_mode then s else drain_level (first.mlfq_queues 2).count 2 first

-- The current thread has used its quantum and goes one level down.
unfoldable pub demote : Scheduler → Option ℕ → Scheduler
demote s none = s
demote s (some t) =
    let level = if ltb 2 (s.current_queue + 1) then 2 else s.current_queue + 1 in
    update_thread t thread_yield (update_thread t (set_level level) (push_level level t s))

abbrev pub is_none : Option ℕ → Bool
is_none none = true
is_none (some t) = false

unfoldable pub scheduler_tick : Scheduler → ℕ → Scheduler × ℤ
scheduler_tick s tick =
    let is_mlfq = not (is_rr s.sched_mode) in
    let begun =
      if is_mlfq && (s.last_boost_tick == 0) then record s { last_boost_tick = tick } else s in
    let do_boost = is_mlfq && leb (begun.last_boost_tick + 30) tick in
    let finish = λ (x : Scheduler). if do_boost then scheduler_priority_boost x tick else x in
    let counted = record begun { quantum_remaining = pred_int begun.quantum_remaining } in
    let demoted =
      if is_mlfq && is_running counted counted.current_thread
      then demote counted counted.current_thread
      else counted in
    if is_none begun.current_thread
    then (finish (scheduler_next begun), pos 1)
    else if not (is_positive counted.quantum_remaining)
    then (finish (scheduler_next demoted), pos 1)
    else (finish counted, pos 0)
