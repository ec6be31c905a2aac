-- ===== src/Kernel/Ended.antt =====
-- What `cleanup_process` of src/kernel.c leaves of the process, of its threads, frames and events.
pub mod Handover
pub mod Threads
pub mod Resources
use fleetos.Base.{
  ℕ, ◌≡◌, ◌≢◌, refl, ap, sym, subst, ◌∙◌, Bool, true, false, not, List, ℤ, pos, minus_one, eq_int,
  Option, none, some, get_or, get_or-replicate, keep_if, replicate,
}
use fleetos.Types.{ProcessState, max_pages}
use fleetos.Process.{Pcb, pcb_set_state}
use fleetos.Procs.{find_proc, update_proc}
use fleetos.Procs.Update.{find_proc-All}
use fleetos.Procs.Release.{release_process, release_process-IsSystem}
use fleetos.Memory.{mem_free_process}
use fleetos.Memory.Allocate.{Tables}
use fleetos.Status.{process_has_live_threads}
use fleetos.FileSystem.{FileSystem}
use fleetos.Pending.{Pending, PendingEvent, cancel_events}
use fleetos.Pending.Compact.{live_events}
use fleetos.Pending.Cancel.{cancel_events-live}
use fleetos.Kernel.{Kernel, all_threads}
use fleetos.Kernel.Cleanup.{
  withdraw, release_resources, release_files, finish_process, free_process, finish_threads,
  end_process, cleanup_process,
}
use fleetos.Kernel.Safe.{IsSafe, IsSound, Frame, frame_of, on_files}
use fleetos.Kernel.Safe.Cleanup.{
  withdraw-IsSafe, release_resources-IsSafe, fs_cleanup_process-returns,
}
use fleetos.Kernel.Safe.Procs.{finish_process-Keeps}
use fleetos.Kernel.Ended.Handover.{Listed, find_proc-changed, release_resources-Listed}
use fleetos.Kernel.Ended.Threads.{with_heap, finish_threads-finished}

-- The process has ended at the tick: its entry in the table is terminated and maps no page, no frame
-- and no live thread is its own, and its events are gone from `events`.
pub record Ended (pid : ℤ) (tick : ℕ) (events : List PendingEvent) (l : Kernel) : Type 0 where
  pub process : Pcb
  pub found : find_proc l.all_procs pid ≡ some process
  pub terminated : process.state ≡ ProcessState.terminated
  pub completed : process.completion_tick ≡ pos tick
  pub unmapped : (i : ℕ) → get_or process.page_table i minus_one ≡ minus_one
  pub no_frame : (f : ℕ) → get_or l.mem.frames f minus_one ≢ pid
  pub no_thread : process_has_live_threads pid (all_threads l) ≡ false
  pub no_event :
      live_events l.pending ≡ keep_if (λ (e : PendingEvent). not (eq_int e.pid pid)) events

-- The entry of the process at its end.
ended_entry : ℕ → Pcb → Pcb
ended_entry tick p = record (pcb_set_state p ProcessState.terminated) {
  completion_tick = pos tick;
  page_table = replicate max_pages minus_one;
  pages_used = pos 0;
}

-- The kernel after `free_process` of a process that is found.
freed_kernel : ℤ → Kernel → Pcb → Kernel
freed_kernel pid k p =
    let (mem, procs) = release_process k.mem k.all_procs p in
    record k { mem = mem; all_procs = update_proc pid (finish_process k.current_tick) procs }

free_process-found :
    (pid : ℤ) (k : Kernel) (p : Pcb)
    → find_proc k.all_procs pid ≡ some p
    → free_process pid k ≡ freed_kernel pid k p
unfolding free_process freed_kernel
free_process-found pid k p e =
    ap (λ (o : Option Pcb). elim o [ none ↦ k | some q ↦ freed_kernel pid k q ]) e

freed_kernel-entry :
    (k : Kernel) (pid : ℤ) (p : Pcb)
    → p.pid ≡ pid
    → find_proc k.all_procs pid ≡ some p
    → find_proc (freed_kernel pid k p).all_procs pid ≡ some (ended_entry k.current_tick p)
unfolding freed_kernel release_process mem_free_process ended_entry finish_process pcb_set_state
freed_kernel-entry k pid p at_pid e =
    let (_, freed) = mem_free_process k.mem p in
    find_proc-changed (finish_process k.current_tick) (update_proc p.pid (λ _. freed) k.all_procs)
      pid freed at_pid
      (subst (λ x. find_proc (update_proc x (λ _. freed) k.all_procs) pid ≡ some freed) (sym at_pid)
        (find_proc-changed (λ _. freed) k.all_procs pid p at_pid e))

module _ {fr : Frame} (pid : ℤ) (events : List PendingEvent) where
  end_process-Ended :
      (k : Kernel) (p : Pcb)
      → IsSafe fr k
      → find_proc k.all_procs pid ≡ some p
      → live_events k.pending ≡ keep_if (λ (e : PendingEvent). not (eq_int e.pid pid)) events
      → Ended pid fr.tick events (end_process pid k)
  unfolding end_process
  end_process-Ended k p v found cancelled =
      let freed = freed_kernel pid k p in
      let (heap, done, idle) = finish_threads-finished pid freed in
      let at_pid = (find_proc-All (Tables k.mem) k.all_procs pid p v.system.tables found).1 in
      let (_, unowned) = release_process-IsSystem k.mem k.all_procs pid p v.system found in
      subst (Ended pid fr.tick events)
        (sym (ap (finish_threads pid) (free_process-found pid k p found) ∙ done))
        (record {
          process = ended_entry k.current_tick p;
          found = freed_kernel-entry k pid p at_pid found;
          terminated = unfold ended_entry pcb_set_state in refl;
          completed = unfold ended_entry in ap pos v.same_tick;
          unmapped = λ i. unfold ended_entry in get_or-replicate max_pages i minus_one;
          no_frame = λ f. unfold freed_kernel in (λ e. unowned f (e ∙ sym at_pid));
          no_thread = idle;
          no_event = unfold freed_kernel in cancelled;
        })

  -- One process that is in the table, with the resources and files released or not.
  cleanup_process-ends :
      (release : Bool) (k : Kernel) (p : Pcb)
      → IsSafe fr k
      → find_proc k.all_procs pid ≡ some p
      → live_events k.pending ≡ events
      → (l : Kernel) × (cleanup_process pid release k ≡ some l) × Ended pid fr.tick events l
  unfolding cleanup_process release_files withdraw
  cleanup_process-ends false k p v found e = (
    end_process pid (withdraw pid k),
    refl,
    end_process-Ended (withdraw pid k) p (withdraw-IsSafe pid k v) found (
        cancel_events-live pid k.pending
        ∙ ap (keep_if (λ (e : PendingEvent). not (eq_int e.pid pid))) e),
  )
  cleanup_process-ends true k p v found e =
      let left = withdraw pid k in
      let w = release_resources-IsSafe pid left (withdraw-IsSafe pid k v) in
      let listed =
        release_resources-Listed {pending = cancel_events pid k.pending} {pid = pid} pid left
          (record { same_pending = refl; process = p; found = found }) in
      let (fs, done, inert) = fs_cleanup_process-returns pid w.inert in
      let freed = record (release_resources pid left) { fs = fs } in
      (
        end_process pid freed,
        rw done refl,
        end_process-Ended freed listed.process (on_files w inert) listed.found (
            ap live_events listed.same_pending
            ∙ cancel_events-live pid k.pending
            ∙ ap (keep_if (λ (e : PendingEvent). not (eq_int e.pid pid))) e),
      )

-- `cleanup_process` of a process in the table of a sound kernel, with its resources and files
-- released or not, returns a kernel in which the process has ended: its entry is terminated, with the
-- current tick as its completion tick, and maps no page; no frame is its own; none of its threads is
-- live; and the pending events are those from before that are not its own, in their order.
pub cleanup_process-Ended :
    (pid : ℤ) (release : Bool) (k : Kernel) (p : Pcb)
    → IsSound k
    → find_proc k.all_procs pid ≡ some p
    → (l : Kernel) × (cleanup_process pid release k ≡ some l)
      × Ended pid k.current_tick (live_events k.pending) l
cleanup_process-Ended pid release k p v found =
    cleanup_process-ends pid (live_events k.pending) release k p v found refl
