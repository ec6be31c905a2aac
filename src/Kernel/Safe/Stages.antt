-- ===== src/Kernel/Safe/Stages.antt =====
-- The stages of a tick of src/kernel.c keep the kernel safe, and the tick always returns.
use fleetos.Base.{
  ℕ, zero, suc, ◌%◌, ◌==◌, ltb, ◌&&◌, sym, subst, Bool, true, false, if◌then◌else◌, inl, inr, List,
  [], ◌∷◌, All-mono, ℤ, pos, minus_one, eq_int, Option, none, some,
}
use fleetos.Process.{Pcb}
use fleetos.Procs.{find_proc}
use fleetos.Procs.Fate.{Fate}
use fleetos.Procs.Fault.{IsSystem}
use fleetos.Memory.{PhysicalMemory, mem_set_tick}
use fleetos.Memory.Allocate.{Tables}
use fleetos.Deadlock.{deadlock_resolve, deadlock_detect}
use fleetos.Deadlock.Detect.{Verdict, deadlock_detect-Verdict}
use fleetos.Deadlock.Exclusion
use fleetos.Deadlock.Exclusion.{graph_call, graph_call-amount}
use fleetos.Scheduler.{Scheduler, is_running, scheduler_add}
use fleetos.Scheduler.OneRunning.{OneRunning, scheduler_next-OneRunning}
use fleetos.Scheduler.Calls.{scheduler_add-OneRunning, scheduler_tick-OneRunning}
use fleetos.Pending.Bounds.{compact_pending_events-slots}
use fleetos.Kernel.{Kernel, tcb_of, all_threads}
use fleetos.Kernel.Events.{complete_io_events, complete_page_faults, trigger_page_fault}
use fleetos.Kernel.Commands.{run_thread}
use fleetos.Kernel.Tick.{
  snapshot_interval, add_threads, is_arriving, arrive_procs, check_arrivals, compact_events,
  ensure_running, run_current, end_victim, on_verdict, detect_deadlock, crash_thread, inject_crash,
  tick_scheduler, count_wait, track_wait, sync_live, sync_snapshot, end_stages, run_stages,
  begin_stages, kernel_stages,
}
use fleetos.Kernel.Safe.{
  Frame, IsSafe, Returns, on_sched, on_slots, on_system, on_memory, on_graph, bind_kernel-Returns,
}
use fleetos.Kernel.Safe.Procs.{
  map-IsSystem, mapped-Fate, arrive_procs-map, arrived, arrived-Keeps, count_wait-Keeps,
  sync_live-Keeps,
}
use fleetos.Kernel.Safe.Threads.{if-IsSafe, if-Returns, elim-Returns, run_callbacks-IsSafe}
use fleetos.Kernel.Safe.Events.{
  complete_io_events-Returns, complete_page_faults-IsSafe, trigger_page_fault-IsSafe,
  wake_buffer_waiters-IsSafe,
}
use fleetos.Kernel.Safe.Cleanup.{cleanup_process-Returns}
use fleetos.Kernel.Safe.Commands.{run_thread-Returns}

if-OneRunning :
    (b : Bool) (s h : Scheduler) → OneRunning s → OneRunning h → OneRunning (if b then s else h)
if-OneRunning true s h one two = one
if-OneRunning false s h one two = two

add_threads-OneRunning :
    (n t : ℕ) (pid : ℤ) (s : Scheduler) → OneRunning s → OneRunning (add_threads n t pid s)
unfolding add_threads
add_threads-OneRunning zero t pid s one = one
add_threads-OneRunning (suc n) t pid s one = add_threads-OneRunning n (suc t) pid _ (
    if-OneRunning (eq_int (s.threads t).owner_pid pid) (scheduler_add s (some t)) s
      (scheduler_add-OneRunning s (some t) one) one)

arrive_procs-OneRunning :
    (n tick : ℕ) (ps : List Pcb) (s : Scheduler)
    → OneRunning s
    → OneRunning (arrive_procs n tick ps s).1
unfolding arrive_procs
arrive_procs-OneRunning n tick [] s one = one
arrive_procs-OneRunning n tick (p ∷ ps) s one = arrive_procs-OneRunning n tick ps _ (
    if-OneRunning (is_arriving tick p) (add_threads n 0 p.pid s) s
      (add_threads-OneRunning n 0 p.pid s one) one)

pub mem_set_tick-IsSystem :
    {m : PhysicalMemory} {ps : List Pcb} (tick : ℕ)
    → IsSystem m ps
    → IsSystem (mem_set_tick m tick) ps
unfolding mem_set_tick
mem_set_tick-IsSystem {m} {ps} tick v = record {
  memory = record {
    frames = v.memory.frames;
    pages = v.memory.pages;
    ticks = v.memory.ticks;
    counted = v.memory.counted;
  };
  tables =
      All-mono (Tables m) (Tables (record m { current_tick = tick })) ps
        (λ p t. record { real = t.real; owns = t.owns }) v.tables;
  distinct = v.distinct;
}

module _ {fr : Frame} where
  check_arrivals-IsSafe : (k : Kernel) → IsSafe fr k → IsSafe fr (check_arrivals k)
  unfolding check_arrivals
  check_arrivals-IsSafe k v =
      let procs = arrive_procs-map k.thread_count k.current_tick k.all_procs k.sched in
      on_sched
        (on_system v
          (subst (IsSystem k.mem) (sym procs)
            (map-IsSystem (arrived k.current_tick) (arrived-Keeps k.current_tick) v.system))
          (subst (Fate k.all_procs) (sym procs)
            (mapped-Fate (arrived k.current_tick) (arrived-Keeps k.current_tick) k.all_procs)))
        (arrive_procs-OneRunning k.thread_count k.current_tick k.all_procs k.sched v.one)

  begin_stages-IsSafe : (k : Kernel) → IsSafe fr k → IsSafe fr (begin_stages k)
  unfolding begin_stages compact_events ensure_running
  begin_stages-IsSafe k v =
      let filled = complete_page_faults k in
      let w : IsSafe fr (compact_events filled) =
        on_slots (complete_page_faults-IsSafe k v)
          (compact_pending_events-slots filled.pending (complete_page_faults-IsSafe k v).slots) in
      if-IsSafe (is_running filled.sched filled.sched.current_thread) _ _ w
        (on_sched w (scheduler_next-OneRunning filled.sched w.one))

  run_current-Returns : (o : Option ℕ) (k : Kernel) → IsSafe fr k → Returns fr (run_current o k)
  unfolding run_current
  run_current-Returns none k v = v
  run_current-Returns (some t) k v =
      if-Returns fr (is_running k.sched (some t)) (run_thread t k) (some k)
        (run_thread-Returns t k v) v

  end_victim-Returns : (victim : ℤ) (k : Kernel) → IsSafe fr k → Returns fr (end_victim victim k)
  unfolding end_victim graph_call
  end_victim-Returns victim k v =
      let resolved = deadlock_resolve k.graph victim in
      elim-Returns fr (find_proc k.all_procs victim) (some k) _ v (λ p.
        cleanup_process-Returns victim false _ (
          run_callbacks-IsSafe resolved.1 (record k { graph = resolved.0 })
            (on_graph v (λ s. graph_call-amount (Exclusion.resolve victim) k.graph s))))

  on_verdict-Returns :
      (k : Kernel) (o : Option (ℤ × ℤ))
      → IsSafe fr k
      → Verdict k.graph minus_one o
      → Returns fr (on_verdict o k)
  on_verdict-Returns k o v (inl (i, e, alive, cycle)) =
      subst (λ x. Returns fr (on_verdict x k)) (sym e) (end_victim-Returns (pos i) k v)
  on_verdict-Returns k o v (inr (e, free)) = subst (λ x. Returns fr (on_verdict x k)) (sym e) v

  detect_deadlock-Returns : (k : Kernel) → IsSafe fr k → Returns fr (detect_deadlock k)
  unfolding detect_deadlock
  detect_deadlock-Returns k v =
      if-Returns fr (ltb 0 k.current_tick && (k.current_tick % 10 == 0)) _ (some k)
        (on_verdict-Returns k (deadlock_detect k.graph minus_one) v
          (deadlock_detect-Verdict k.graph minus_one))
        v

  crash_thread-Returns : (o : Option ℕ) (k : Kernel) → IsSafe fr k → Returns fr (crash_thread o k)
  unfolding crash_thread
  crash_thread-Returns none k v = v
  crash_thread-Returns (some t) k v =
      let pid = (tcb_of k t).owner_pid in
      if-Returns fr (is_running k.sched (some t)) _ (some k)
        (elim-Returns fr (find_proc k.all_procs pid) (some k) _ v
          (λ p. cleanup_process-Returns pid true k v))
        v

  inject_crash-Returns : (k : Kernel) → IsSafe fr k → Returns fr (inject_crash k)
  unfolding inject_crash
  inject_crash-Returns k v =
      if-Returns fr (k.config.crash_enabled && (k.current_tick == 30))
        (crash_thread k.sched.current_thread k) (some k)
        (crash_thread-Returns k.sched.current_thread k v) v

  tick_scheduler-IsSafe : (k : Kernel) → IsSafe fr k → IsSafe fr (tick_scheduler k)
  unfolding tick_scheduler
  tick_scheduler-IsSafe k v = on_sched v (scheduler_tick-OneRunning k.sched k.current_tick v.one)

  track_wait-IsSafe : (k : Kernel) → IsSafe fr k → IsSafe fr (track_wait k)
  unfolding track_wait
  track_wait-IsSafe k v =
      on_system v (map-IsSystem count_wait count_wait-Keeps v.system)
        (mapped-Fate count_wait count_wait-Keeps k.all_procs)

  sync_snapshot-IsSafe : (k : Kernel) → IsSafe fr k → IsSafe fr (sync_snapshot k)
  unfolding sync_snapshot
  sync_snapshot-IsSafe k v =
      if-IsSafe (k.current_tick % snapshot_interval == 0) _ k
        (on_system v
          (map-IsSystem (sync_live (all_threads k)) (sync_live-Keeps (all_threads k)) v.system)
          (mapped-Fate (sync_live (all_threads k)) (sync_live-Keeps (all_threads k)) k.all_procs))
        v

  end_stages-IsSafe : (k : Kernel) → IsSafe fr k → IsSafe fr (end_stages k)
  unfolding end_stages
  end_stages-IsSafe k v =
      let faulted = trigger_page_fault k in
      let ticked = tick_scheduler faulted in
      wake_buffer_waiters-IsSafe (sync_snapshot (track_wait ticked)) (
        sync_snapshot-IsSafe (track_wait ticked) (
          track_wait-IsSafe ticked (tick_scheduler-IsSafe faulted (trigger_page_fault-IsSafe k v))))

  run_stages-Returns : (k : Kernel) → IsSafe fr k → Returns fr (run_stages k)
  unfolding run_stages
  run_stages-Returns k v =
      bind_kernel-Returns fr (run_current k.sched.current_thread k) _
        (run_current-Returns k.sched.current_thread k v)
        (λ a va.
          bind_kernel-Returns fr (detect_deadlock a) _ (detect_deadlock-Returns a va) (λ b vb.
            bind_kernel-Returns fr (inject_crash b) _ (inject_crash-Returns b vb)
              (λ c vc. end_stages-IsSafe c vc)))

  pub kernel_stages-Returns : (k : Kernel) → IsSafe fr k → Returns fr (kernel_stages k)
  unfolding kernel_stages
  kernel_stages-Returns k v =
      let stamped = record k { mem = mem_set_tick k.mem k.current_tick } in
      let w : IsSafe fr stamped = on_memory v (mem_set_tick-IsSystem k.current_tick v.system) in
      bind_kernel-Returns fr (complete_io_events (check_arrivals stamped)) _
        (complete_io_events-Returns (check_arrivals stamped) (check_arrivals-IsSafe stamped w))
        (λ a va. run_stages-Returns (begin_stages a) (begin_stages-IsSafe a va))
