-- ===== src/Kernel/Tick.antt =====
-- One round of the loop of `kernel_run` in src/kernel.c, stage by stage as its comments number them.
use fleetos.Base.{
  ℕ, zero, suc, ◌+◌, ◌%◌, Bool, true, false, ◌&&◌, not, List, [], ◌∷◌, map, ltb, leb, ◌==◌,
  if◌then◌else◌, any_of, ℤ, pos, minus_one, eq_int, Option, none, some,
}
use fleetos.Types.{ProcessState, same_process_state}
use fleetos.Thread.{Tcb}
use fleetos.Process.{Pcb, pcb_set_state}
use fleetos.Procs.{find_proc}
use fleetos.Pending.{compact_pending_events}
use fleetos.Status.{sync_pcb_state_from_threads}
use fleetos.Memory.{mem_set_tick}
use fleetos.Deadlock.{deadlock_resolve, deadlock_detect}
use fleetos.Scheduler.{Scheduler, is_running, scheduler_add, scheduler_next, scheduler_tick}
use fleetos.Kernel.{Kernel, tcb_of, with_sched, all_threads, run_callbacks}
use fleetos.Kernel.Events.{
  bind_kernel, complete_io_events, complete_page_faults, trigger_page_fault, wake_buffer_waiters,
}
use fleetos.Kernel.Cleanup.{cleanup_process}
use fleetos.Kernel.Commands.{run_thread}

abbrev pub snapshot_interval : ℕ
snapshot_interval = 5

-- The threads of an arriving process, `n` of them left from `t` on.
unfoldable pub add_threads : ℕ → ℕ → ℤ → Scheduler → Scheduler
add_threads zero t pid s = s
add_threads (suc n) t pid s =
    add_threads n (suc t) pid
      (if eq_int (s.threads t).owner_pid pid then scheduler_add s (some t) else s)

abbrev pub is_arriving : ℕ → Pcb → Bool
is_arriving tick p = same_process_state p.state ProcessState.new && leb p.arrival_time tick

-- Stage 1: the processes, and the scheduler with the threads of those that arrive.
unfoldable pub arrive_procs : ℕ → ℕ → List Pcb → Scheduler → List Pcb × Scheduler
arrive_procs threads tick [] s = ([], s)
arrive_procs threads tick (p ∷ ps) s =
    let arriving = is_arriving tick p in
    let rest =
      arrive_procs threads tick ps (if arriving then add_threads threads 0 p.pid s else s) in
    ((if arriving then pcb_set_state p ProcessState.ready else p) ∷ rest.0, rest.1)

unfoldable pub check_arrivals : Kernel → Kernel
check_arrivals k =
    let (procs, sched) = arrive_procs k.thread_count k.current_tick k.all_procs k.sched in
    record k { all_procs = procs; sched = sched }

unfoldable pub compact_events : Kernel → Kernel
compact_events k = record k { pending = compact_pending_events k.pending }

-- Stage 4.
unfoldable pub ensure_running : Kernel → Kernel
ensure_running k =
    if is_running k.sched k.sched.current_thread then k else with_sched scheduler_next k

-- Stage 5.
unfoldable pub run_current : Option ℕ → Kernel → Option Kernel
run_current none k = some k
run_current (some t) k = if is_running k.sched (some t) then run_thread t k else some k

-- The victim of a deadlock, if it is a process.
unfoldable pub end_victim : ℤ → Kernel → Option Kernel
end_victim victim k =
    let (graph, pids) = deadlock_resolve k.graph victim in
    elim (find_proc k.all_procs victim) [
      | none ↦ some k
      | some p ↦ cleanup_process victim false (run_callbacks pids (record k { graph = graph }))
    ]

abbrev pub on_verdict : Option (ℤ × ℤ) → Kernel → Option Kernel
on_verdict none k = none
on_verdict (some (found, victim)) k = if eq_int found (pos 0) then some k else end_victim victim k

-- Stage 5.5.
unfoldable pub detect_deadlock : Kernel → Option Kernel
detect_deadlock k =
    if ltb 0 k.current_tick && (k.current_tick % 10 == 0)
    then on_verdict (deadlock_detect k.graph minus_one) k
    else some k

unfoldable pub crash_thread : Option ℕ → Kernel → Option Kernel
crash_thread none k = some k
crash_thread (some t) k =
    let pid = (tcb_of k t).owner_pid in
    if is_running k.sched (some t)
    then (elim (find_proc k.all_procs pid) [ none ↦ some k | some p ↦ cleanup_process pid true k ])
    else some k

-- Stage 5.6.
unfoldable pub inject_crash : Kernel → Option Kernel
inject_crash k =
    if k.config.crash_enabled && (k.current_tick == 30)
    then crash_thread k.sched.current_thread k
    else some k

-- Stage 7.
unfoldable pub tick_scheduler : Kernel → Kernel
tick_scheduler k = with_sched (λ s. (scheduler_tick s k.current_tick).0) k

-- Stage 8.
unfoldable pub count_wait : Pcb → Pcb
count_wait p =
    if same_process_state p.state ProcessState.ready
    then record p { wait_time = p.wait_time + 1 }
    else p

unfoldable pub track_wait : Kernel → Kernel
track_wait k = record k { all_procs = map count_wait k.all_procs }

-- Stage 9, less the snapshot that is printed.
unfoldable pub sync_live : List Tcb → Pcb → Pcb
sync_live threads p =
    if same_process_state p.state ProcessState.terminated
    then p
    else sync_pcb_state_from_threads p threads

unfoldable pub sync_snapshot : Kernel → Kernel
sync_snapshot k =
    if k.current_tick % snapshot_interval == 0
    then record k { all_procs = map (sync_live (all_threads k)) k.all_procs }
    else k

abbrev pub is_alive : Pcb → Bool
is_alive p = not (same_process_state p.state ProcessState.terminated)

-- Stages 6 to 10.
unfoldable pub end_stages : Kernel → Kernel
end_stages k =
    wake_buffer_waiters (sync_snapshot (track_wait (tick_scheduler (trigger_page_fault k))))

-- Stages 5 to 10.
unfoldable pub run_stages : Kernel → Option Kernel
run_stages k = bind_kernel (run_current k.sched.current_thread k) (λ (a : Kernel).
    bind_kernel (detect_deadlock a)
      (λ (b : Kernel). bind_kernel (inject_crash b) (λ (c : Kernel). some (end_stages c))))

-- The stages before the command of the running thread, from the completed page faults on.
unfoldable pub begin_stages : Kernel → Kernel
begin_stages k = ensure_running (compact_events (complete_page_faults k))

-- A round up to stage 10, from `mem_set_tick` on. The other modules' ticks only stamp log lines.
unfoldable pub kernel_stages : Kernel → Option Kernel
kernel_stages k =
    let stamped = record k { mem = mem_set_tick k.mem k.current_tick } in
    bind_kernel (complete_io_events (check_arrivals stamped))
      (λ (a : Kernel). run_stages (begin_stages a))

-- Stage 11: with no process left the loop ends, and else the tick counts up.
unfoldable pub any_alive : Kernel → Bool
any_alive k = any_of is_alive k.all_procs

unfoldable pub count_tick : Kernel → Kernel
count_tick k = record k { current_tick = k.current_tick + 1 }
