-- ===== src/Status.antt =====
-- The state of a process by its threads: `sync_pcb_state_from_threads` and `process_has_live_threads`
-- of src/kernel.c. `all_threads` is a list; every entry is a thread, since allocation succeeded.
pub mod Agree
mod Tests
use fleetos.Base.{
  ℕ, suc, ◌+◌, Bool, true, false, ◌&&◌, ◌||◌, not, List, [], ◌∷◌, if◌then◌else◌, ltb, ◌==◌, ℤ,
  eq_int,
}
use fleetos.Types.{
  ProcessState, ThreadState, BlockReason, no_reason, same_thread_state, same_process_state,
}
use fleetos.Thread.{Tcb}
use fleetos.Process.{Pcb, pcb_set_state}

-- The local variables of the loop.
pub record Tally : Type 0 where
  pub running : Bool
  pub ready : Bool
  pub blocked_count : ℕ
  pub live_count : ℕ
  pub first_block_reason : BlockReason

abbrev pub no_tally : Tally
no_tally = record {
  running = false;
  ready = false;
  blocked_count = 0;
  live_count = 0;
  first_block_reason = no_reason;
}

abbrev pub is_live : ℤ → Tcb → Bool
is_live pid t = eq_int t.owner_pid pid && not (same_thread_state t.state ThreadState.done)

-- One round of the loop.
unfoldable pub tally_thread : ℤ → Tcb → Tally → Tally
tally_thread pid t a =
    let is_blocked = same_thread_state t.state ThreadState.blocked in
    if not (is_live pid t) then a else record {
      running = a.running || same_thread_state t.state ThreadState.running;
      ready = a.ready || same_thread_state t.state ThreadState.ready;
      blocked_count = if is_blocked then a.blocked_count + 1 else a.blocked_count;
      live_count = a.live_count + 1;
      first_block_reason =
          if is_blocked && (a.blocked_count == 0) then t.wait_reason else a.first_block_reason;
    }

unfoldable pub tally_threads : ℤ → List Tcb → Tally → Tally
tally_threads pid [] a = a
tally_threads pid (t ∷ ts) a = tally_threads pid ts (tally_thread pid t a)

unfoldable pub set_from_tally : Pcb → Tally → Pcb
set_from_tally p a =
    if a.running
    then record (pcb_set_state p ProcessState.running) { blocked_reason = no_reason }
    else if a.ready
    then record (pcb_set_state p ProcessState.ready) { blocked_reason = no_reason }
    else record (pcb_set_state p ProcessState.blocked) { blocked_reason = a.first_block_reason }

unfoldable pub sync_pcb_state_from_threads : Pcb → List Tcb → Pcb
sync_pcb_state_from_threads p threads =
    let a = tally_threads p.pid threads no_tally in
    if same_process_state p.state ProcessState.terminated
      || same_process_state p.state ProcessState.new
    then p
    else if a.live_count == 0
    then p
    else set_from_tally p a

unfoldable pub process_has_live_threads : ℤ → List Tcb → Bool
process_has_live_threads pid [] = false
process_has_live_threads pid (t ∷ ts) =
    if is_live pid t then true else process_has_live_threads pid ts
