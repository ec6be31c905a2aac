-- ===== src/Deadlock/Tests.antt =====
-- Runs of src/deadlock.c, and the theorems about it at concrete inputs.
use fleetos.Base.{ℕ, ◌≡◌, refl, List, [], ◌∷◌, pos, minus_one, ◌+◌, ◌++◌, arith, some, true}
use fleetos.Types.{critical, normal, low}
use fleetos.Deadlock.{
  ResourceGraph, deadlock_init, deadlock_detect, deadlock_wake_waiters, deadlock_cleanup_process,
  deadlock_set_priority, deadlock_request, deadlock_alloc, note_request, enqueue_waiter,
  detect_rounds, detect_from, has_outgoing_request, any_request, is_active, dfs_cycle,
  scan_resources, scan_procs, probe, enter_stack, leave_stack, choose_victim, is_better_victim,
  deadlock_release,
}
use fleetos.Deadlock.Account.{held}
use fleetos.Deadlock.Exclusion.{
  GraphCall, set_priority, request, release, graph_calls, graph_call, resources_conserved,
  one_holder,
}
use fleetos.Deadlock.Wake.{waiting, serve, listed}
use fleetos.Deadlock.Detect.{Verdict, deadlock_detect-Verdict}
use fleetos.Deadlock.Serve.{deadlock_wake_waiters-serve}
use fleetos.Deadlock.Cleanup.{Cleaned, deadlock_cleanup_process-Cleaned}

abbrev junk : ResourceGraph
junk = record {
  allocation = λ (p : ℕ) (r : ℕ). 7;
  request = λ (p : ℕ) (r : ℕ). 7;
  available = λ (r : ℕ). 7;
  active = λ (p : ℕ). true;
  wait_pid = λ (r : ℕ) (i : ℕ). minus_one;
  wait_count = λ (r : ℕ). 0;
  priority = λ (p : ℕ). critical;
}

-- Processes 1 and 2 wait for each other, and process 3 waits for process 1.
abbrev crossed : List GraphCall
crossed =
    set_priority (pos 2) normal
    ∷ set_priority (pos 3) low
    ∷ request (pos 1) (pos 0)
    ∷ request (pos 2) (pos 1)
    ∷ request (pos 1) (pos 1)
    ∷ request (pos 2) (pos 0)
    ∷ request (pos 3) (pos 0)
    ∷ []

detect_crossed :
    deadlock_detect (graph_calls crossed (deadlock_init junk)) minus_one ≡ some (pos 1, pos 3)
unfolding graph_calls graph_call deadlock_init deadlock_set_priority deadlock_request deadlock_alloc
    note_request enqueue_waiter deadlock_detect detect_rounds detect_from has_outgoing_request
    any_request is_active dfs_cycle scan_resources scan_procs probe enter_stack leave_stack
    choose_victim is_better_victim
detect_crossed = refl

deadlock_detect-Verdict_example :
    Verdict
      (graph_calls crossed (deadlock_init junk))
      minus_one
      (deadlock_detect (graph_calls crossed (deadlock_init junk)) minus_one)
deadlock_detect-Verdict_example =
    deadlock_detect-Verdict (graph_calls crossed (deadlock_init junk)) minus_one

resources_conserved_example :
    (graph_calls crossed (deadlock_init junk)).available 1
      + held (graph_calls crossed (deadlock_init junk)) 1
    ≡ 1
resources_conserved_example = resources_conserved crossed junk 1 (omega arith)

one_holder_example : ◌≡◌ {A = ℕ} 2 2
unfolding graph_calls graph_call deadlock_init deadlock_set_priority deadlock_request deadlock_alloc
    note_request enqueue_waiter
one_holder_example =
    one_holder crossed junk 1 2 2 (omega arith) (omega arith) (omega arith) (omega arith)
      (omega arith)

abbrev released : ResourceGraph
released = graph_calls (crossed ++ release (pos 1) (pos 0) ∷ []) (deadlock_init junk)

deadlock_wake_waiters-serve_example :
    (
      (deadlock_wake_waiters released (pos 0)).1,
      waiting (deadlock_wake_waiters released (pos 0)).0 0,
    )
    ≡ serve (is_active released) (released.available 0) (waiting released 0)
deadlock_wake_waiters-serve_example = deadlock_wake_waiters-serve released 0 (omega arith)

wake-crossed :
    serve (is_active released) (released.available 0) (waiting released 0)
    ≡ (pos 2 ∷ [], pos 3 ∷ [])
unfolding graph_calls graph_call deadlock_init deadlock_set_priority deadlock_request deadlock_alloc
    note_request enqueue_waiter deadlock_release is_active listed serve
wake-crossed = refl

deadlock_cleanup_process-Cleaned_example :
    Cleaned 1
      (graph_calls crossed (deadlock_init junk))
      (deadlock_cleanup_process (graph_calls crossed (deadlock_init junk)) (pos 1))
deadlock_cleanup_process-Cleaned_example =
    deadlock_cleanup_process-Cleaned (graph_calls crossed (deadlock_init junk)) 1 (omega arith)
