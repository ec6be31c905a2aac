-- ===== src/Scheduler/Tests.antt =====
-- Runs of src/scheduler.c, and its theorems at concrete inputs.
use fleetos.Base.{
  ◌<◌, ℕ, ◌≡◌, ◌+◌, ◌⊎◌, refl, List, [], ◌∷◌, arith, pos, minus_one, none, some, if◌then◌else◌,
  ◌==◌,
}
use fleetos.Types.{ThreadState, no_reason, io_block, rr, mlfq, normal, compute}
use fleetos.Thread.{Tcb, thread_block, thread_unblock, thread_yield}
use fleetos.Ready.{
  ReadyQueue, remove_ready, queue_push, append_ready, take_head, queue_remove_at, shift_until,
  find_in_queue, find_from,
}
use fleetos.Ready.Ring.{IsRing, ready_list, entries}
use fleetos.Ready.Remove.{remove_ready-list, remove_first}
use fleetos.Scheduler.{
  Scheduler, scheduler_init, scheduler_next, scheduler_add, next_rr, next_mlfq, scheduler_block,
  scheduler_unblock, scheduler_terminate, scheduler_tick, scheduler_priority_boost, drain_level,
  move_up, demote, remove_queued, remove_level, run_level, choose_level, mlfq_has_ready,
  requeue_mlfq, requeue_rr, switch_to, push_level, note_ready, in_table, level_of, get_mlfq_level,
  set_level, set_state, update_thread,
}
use fleetos.Scheduler.RoundRobin.{
  Turn, with_current, scheduler_next-rr, Rotating, turns, ready_runs,
}
use fleetos.Scheduler.Boost.{level_list, Boosted, scheduler_priority_boost-Boosted}
use fleetos.Scheduler.History.{
  SchedCall, add, next, block, unblock, terminate, tick, finish, sched_calls, sched_call,
  sched_block_thread, sched_unblock_thread, one_running,
}

abbrev fresh_thread : Tcb
fresh_thread = record {
  tid = pos 0;
  owner_pid = pos 0;
  state = ThreadState.ready;
  local_pc = 0;
  wait_reason = no_reason;
  commands = compute ∷ [];
  command_count = 1;
  burst_remaining = pos 5;
  command_ticks_remaining = pos 1;
  priority = normal;
  mlfq_level = minus_one;
}

-- Thread 7 runs; 5, 6 and 8 wait at the end of the array and round it.
abbrev waiting_queue : ReadyQueue
waiting_queue = record {
  queue = λ (i : ℕ). if i == 30 then 5 else if i == 31 then 6 else 8;
  head = 30;
  count = 3;
}

abbrev busy : Scheduler
busy = record {
  rr_ready = waiting_queue;
  mlfq_queues = λ (i : ℕ). record { queue = λ (k : ℕ). 0; head = 0; count = 0 };
  current_thread = some 7;
  sched_mode = rr;
  quantum_remaining = pos 1;
  context_switches = 0;
  current_queue = 0;
  last_boost_tick = 0;
  priority_boost_count = 0;
  thread_table = λ (i : ℕ). i + 5;
  thread_count = 4;
  threads = λ (t : ℕ).
      if t == 7 then record fresh_thread { state = ThreadState.running } else fresh_thread;
}

waiting_queue-IsRing : IsRing waiting_queue
waiting_queue-IsRing = record { head_within = omega arith; count_within = omega arith }

busy-Rotating : Rotating busy 7 (5 ∷ 6 ∷ 8 ∷ [])
unfolding entries
busy-Rotating = record {
  mode = refl;
  ring = waiting_queue-IsRing;
  room = omega arith;
  current = refl;
  runs = refl;
  list = refl;
}

ready_runs_example : Rotating (turns 3 busy) 8 (7 ∷ 5 ∷ 6 ∷ [])
ready_runs_example = ready_runs 2 busy 7 (5 ∷ 6 ∷ 8 ∷ []) 0 busy-Rotating (omega arith)

scheduler_next-rr_example :
    ((waiting_queue.count ≡ 0) × (scheduler_next busy ≡ busy))
    ⊎ ((0 < waiting_queue.count) × Turn (scheduler_next busy) (with_current busy (some 7)))
scheduler_next-rr_example = scheduler_next-rr busy refl waiting_queue-IsRing (omega arith)

remove_ready-list_example :
    ready_list (remove_ready waiting_queue 6) ≡ remove_first 6 (ready_list waiting_queue)
remove_ready-list_example = remove_ready-list waiting_queue 6 waiting_queue-IsRing

abbrev short_history : List SchedCall
short_history = add 7 ∷ add 5 ∷ next ∷ block 7 io_block ∷ unblock 7 ∷ tick 3 ∷ terminate 7 ∷ []

abbrev idle_heap : Scheduler
idle_heap = record busy { threads = λ (t : ℕ). fresh_thread; current_thread = none }

one_running_example :
    (sched_calls short_history (scheduler_init idle_heap mlfq)).current_thread ≡ some 5
unfolding sched_calls sched_call sched_block_thread sched_unblock_thread scheduler_init
    scheduler_add scheduler_next next_rr next_mlfq scheduler_block scheduler_unblock
    scheduler_terminate scheduler_tick scheduler_priority_boost drain_level move_up demote
    remove_queued remove_level run_level choose_level mlfq_has_ready requeue_mlfq requeue_rr
    switch_to push_level note_ready in_table level_of get_mlfq_level set_level set_state
    update_thread remove_ready queue_push append_ready take_head queue_remove_at shift_until
    find_in_queue find_from thread_block thread_unblock thread_yield
one_running_example = one_running short_history idle_heap mlfq 5 (λ t h. absurd (ground arith)) refl

-- A finished thread that is still queued runs again.
finished_runs :
    ((sched_calls (add 7 ∷ finish 7 ∷ next ∷ []) (scheduler_init idle_heap rr)).threads 7).state
    ≡ ThreadState.running
unfolding sched_calls sched_call scheduler_init scheduler_add scheduler_next next_rr requeue_rr
    switch_to note_ready in_table set_state update_thread append_ready take_head find_in_queue
    find_from
finished_runs = refl

-- Level 1 holds 5, 6 and 8, and level 2 too.
abbrev lower_levels : Scheduler
lower_levels = record busy {
  sched_mode = mlfq;
  mlfq_queues = λ (i : ℕ).
      if i == 0 then record { queue = λ (k : ℕ). 9; head = 4; count = 1 } else waiting_queue;
}

scheduler_priority_boost-Boosted_example :
    Boosted lower_levels (scheduler_priority_boost lower_levels 30)
scheduler_priority_boost-Boosted_example =
    scheduler_priority_boost-Boosted lower_levels 30 refl waiting_queue-IsRing waiting_queue-IsRing

boosted_list : level_list (scheduler_priority_boost lower_levels 30) 0 ≡ 9 ∷ 5 ∷ 6 ∷ 8 ∷ []
unfolding scheduler_priority_boost drain_level move_up push_level update_thread queue_push
    find_in_queue find_from append_ready take_head entries
boosted_list = refl
