-- ===== src/Status/Agree.antt =====
-- `sync_pcb_state_from_threads` of src/kernel.c against the threads of the process.
use fleetos.Base.{
  ◌≡◌, refl, Bool, false, ◌&&◌, ◌||◌, not, List, [], ◌∷◌, if◌then◌else◌, ◌==◌, ℤ, eq_int, arith,
  any_of,
}
use fleetos.Types.{
  ProcessState, ThreadState, BlockReason, no_reason, same_thread_state, same_process_state,
}
use fleetos.Thread.{Tcb}
use fleetos.Process.{Pcb, pcb_set_state}
use fleetos.Status.{
  Tally, no_tally, tally_thread, tally_threads, set_from_tally, sync_pcb_state_from_threads,
  process_has_live_threads,
}

-- Is there a thread of the process in this state?
abbrev pub has_thread : ℤ → ThreadState → List Tcb → Bool
has_thread pid state ts =
    any_of (λ (t : Tcb). eq_int t.owner_pid pid && same_thread_state t.state state) ts

-- Why the first blocked thread of the process waits.
abbrev pub first_reason : ℤ → List Tcb → BlockReason
first_reason pid [] = no_reason
first_reason pid (t ∷ ts) =
    if eq_int t.owner_pid pid && same_thread_state t.state ThreadState.blocked
    then t.wait_reason
    else first_reason pid ts

record Tallied (pid : ℤ) (ts : List Tcb) (a b : Tally) : Type 0 where
  runs : b.running ≡ (a.running || has_thread pid ThreadState.running ts)
  waits : b.ready ≡ (a.ready || has_thread pid ThreadState.ready ts)
  lives : (b.live_count == 0) ≡ ((a.live_count == 0) && not (process_has_live_threads pid ts))
  reason : b.first_block_reason ≡ (
      if a.blocked_count == 0
      then (if has_thread pid ThreadState.blocked ts
          then first_reason pid ts
          else a.first_block_reason)
      else a.first_block_reason)

tally_threads-Tallied :
    (pid : ℤ) (ts : List Tcb) (a : Tally) → Tallied pid ts a (tally_threads pid ts a)
unfolding tally_threads tally_thread process_has_live_threads
tally_threads-Tallied pid [] a = record {
  runs = ground arith;
  waits = ground arith;
  lives = ground arith;
  reason = ground arith;
}
tally_threads-Tallied pid (t ∷ ts) a =
    let rest = tally_threads-Tallied pid ts (tally_thread pid t a) in
    record {
      runs = ground (arith, rest.runs);
      waits = ground (arith, rest.waits);
      lives = ground (arith, rest.lives);
      reason = ground (arith, rest.reason);
    }

first_reason-none :
    (pid : ℤ) (ts : List Tcb)
    → has_thread pid ThreadState.blocked ts ≡ false
    → first_reason pid ts ≡ no_reason
first_reason-none pid [] h = refl
first_reason-none pid (t ∷ ts) h = ground (arith, first_reason-none pid ts)

-- The state that the threads give the process, and why it is blocked.
abbrev pub status : ℤ → List Tcb → ProcessState
status pid ts =
    if has_thread pid ThreadState.running ts
    then ProcessState.running
    else if has_thread pid ThreadState.ready ts
    then ProcessState.ready
    else ProcessState.blocked

abbrev pub status_reason : ℤ → List Tcb → BlockReason
status_reason pid ts =
    if has_thread pid ThreadState.running ts || has_thread pid ThreadState.ready ts
    then no_reason
    else first_reason pid ts

-- A process that is new or terminated, or has no live thread, stays as it is. Any other runs if one
-- of its threads runs, is ready if none runs and one is ready, and else is blocked for the reason of
-- its first blocked thread.
pub sync_pcb_state-status :
    (p : Pcb) (ts : List Tcb)
    → sync_pcb_state_from_threads p ts ≡ (
        if (same_process_state p.state ProcessState.terminated
            || same_process_state p.state ProcessState.new)
          || not (process_has_live_threads p.pid ts)
        then p
        else record p { state = status p.pid ts; blocked_reason = status_reason p.pid ts })
unfolding sync_pcb_state_from_threads set_from_tally pcb_set_state
sync_pcb_state-status p ts =
    let all = tally_threads-Tallied p.pid ts no_tally in
    ground (arith, all.runs, all.waits, all.lives, all.reason, first_reason-none p.pid ts)
