-- ===== src/Kernel/Tests.antt =====
-- Runs of the kernel of src/kernel.c, and the theorems about it at concrete inputs.
use fleetos.Base.{
  ℕ, ◌≡◌, ◌≢◌, ◌≤◌, refl, true, arith, [], ◌∷◌, pos, minus_one, none, some, replicate, bytes, All,
  get_or, count_if,
}
use fleetos.Types.{ThreadState}
use fleetos.Process.{Pcb}
use fleetos.Kernel.{Kernel}
use fleetos.Kernel.Boot.{kernel_init, kernel_shutdown}
use fleetos.Kernel.Shutdown.{kernel_shutdown-frees}
use fleetos.Memory.Frames.{is_unowned}
use fleetos.Kernel.Run.{kernel_run}
use fleetos.Kernel.Tick.{kernel_stages}
use fleetos.Kernel.Metrics.{kernel_get_metrics}
use fleetos.Kernel.Metrics.Exact.{fold_left, kernel_get_metrics-exact}
use fleetos.Kernel.Interactive.{process_interactive}
use fleetos.Kernel.Interactive.Steps.{calls, run_line, stepping, calls-run_line, run_waits}
use fleetos.Kernel.Safe.{IsSound}
use fleetos.Kernel.Safe.Pages.{paged, paged-IsSystem}
use fleetos.Kernel.Cleanup.{cleanup_process}
use fleetos.Kernel.Ended.{Ended, cleanup_process-Ended}
use fleetos.Procs.{find_proc}
use fleetos.Procs.Fate.{Fate, Fate-refl}
use fleetos.Pending.Compact.{live_events}
use fleetos.FileSystem.Inert.{fs_init-IsInert}
use fleetos.Deadlock.Account.{amount}
use fleetos.Deadlock.Exclusion.{request, resources_conserved}
use fleetos.Deadlock.Gone.{Gone}
use fleetos.Kernel.Ended.Resources.{cleanup_process-Gone}
use fleetos.Sync.Fifo.{buffer_init-IsValid}
use fleetos.Kernel.Safe.Boot.{enough_memory, kernel_init-IsSound}
use fleetos.Kernel.Safe.Outcome.{simulation_ends, kernel_stages-IsSound, terminated_stay}
use fleetos.Kernel.Samples.{
  any_thread, any_process, zero_graph, short_config, at_start, process_at, at_work,
}

nothing_runs : (t : ℕ) → (at_start.sched.threads t).state ≢ ThreadState.running
nothing_runs t h = ground arith

simulation_ends_example :
    (start end : Kernel) × (kernel_init short_config
        (enough_memory (λ (i : ℕ). any_thread) (λ (i : ℕ). any_process))
        at_start
      ≡ some start)
    × (kernel_run 41 [] start ≡ some end)
    × IsSound end
    × (end.current_tick ≤ 40)
    × ((t : ℕ) → ((kernel_shutdown end).sched.threads t).state ≢ ThreadState.running)
simulation_ends_example =
    simulation_ends short_config 39 [] (λ (i : ℕ). any_thread) (λ (i : ℕ). any_process) at_start
      nothing_runs refl refl

abbrev booted : Kernel
booted =
    (kernel_init-IsSound short_config (λ (i : ℕ). any_thread) (λ (i : ℕ). any_process) at_start
      nothing_runs).0

booted-IsSound : IsSound booted
booted-IsSound =
    (kernel_init-IsSound short_config (λ (i : ℕ). any_thread) (λ (i : ℕ). any_process) at_start
      nothing_runs).2

kernel_stages-IsSound_example :
    (l : Kernel) × (kernel_stages booted ≡ some l)
    × IsSound l
    × (l.config ≡ booted.config)
    × (l.current_tick ≡ booted.current_tick)
kernel_stages-IsSound_example = kernel_stages-IsSound booted booted-IsSound

kernel_get_metrics-exact_example :
    let m = kernel_get_metrics at_work in
    (m.total_wait ≡ 6)
    × (m.max_wait ≡ 3)
    × (m.terminated_count ≡ 1)
    × (m.max_turnaround ≡ pos 4)
    × (m.avg_wait ≡ record { sum = pos 6; over = 4 })
    × (m.avg_turnaround ≡ record { sum = pos 4; over = 1 })
unfolding fold_left
kernel_get_metrics-exact_example = kernel_get_metrics-exact at_work

run_waits_example : process_interactive (replicate 3 (bytes "run")) at_start ≡ none
run_waits_example = run_waits 3 at_start refl

calls-run_line_example :
    calls 12 (run_line 12 ∷ bytes "quit" ∷ []) at_start
    ≡ some (stepping 0 at_start, bytes "quit" ∷ [])
calls-run_line_example = calls-run_line 11 (bytes "quit" ∷ []) at_start refl (omega arith)

at_work-IsSound : IsSound at_work
at_work-IsSound = record {
  same_config = refl;
  same_tick = refl;
  slots = omega arith;
  one = λ u h. absurd (ground arith);
  system = paged-IsSystem process_at;
  fate = Fate-refl at_work.all_procs;
  inert = fs_init-IsInert;
  pools = λ r h.
      unfold amount in
      resources_conserved (request (pos 1) (pos 0) ∷ request (pos 2) (pos 0) ∷ []) zero_graph r h;
  buffer = buffer_init-IsValid;
}

listed : find_proc at_work.all_procs (pos 1) ≡ some (paged 1 2 3 (process_at 1))
unfolding find_proc
listed = refl

cleanup_process-Ended_example :
    (l : Kernel) × (cleanup_process (pos 1) true at_work ≡ some l)
    × Ended (pos 1) 0 (live_events at_work.pending) l
cleanup_process-Ended_example =
    cleanup_process-Ended (pos 1) true at_work (paged 1 2 3 (process_at 1)) at_work-IsSound listed

terminated_stay_example :
    (end : Kernel) × (kernel_run 41 [] at_work ≡ some end) × Fate at_work.all_procs end.all_procs
terminated_stay_example = terminated_stay [] at_work 39 at_work-IsSound refl refl (omega arith)

kernel_shutdown-frees_example :
    All
      (λ (p : Pcb). (f : ℕ) → get_or (kernel_shutdown at_work).mem.frames f minus_one ≢ p.pid)
      at_work.all_procs
    × ((kernel_shutdown at_work).mem.free_frame_count
        ≡ pos (count_if is_unowned (kernel_shutdown at_work).mem.frames))
kernel_shutdown-frees_example = kernel_shutdown-frees at_work at_work-IsSound

cleanup_process-Gone_example :
    (l : Kernel) × (cleanup_process (pos 1) true at_work ≡ some l) × Gone 1 l.graph
cleanup_process-Gone_example = cleanup_process-Gone 1 at_work at_work-IsSound (omega arith)
